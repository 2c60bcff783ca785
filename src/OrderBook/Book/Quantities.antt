-- ===== src/OrderBook/Book/Quantities.antt =====
-- The quantities of `add_order` in src/core/order_book.cpp: what an order takes, it takes from the
-- other side of the book.
use orderflow_replay_engine.Prelude.{
  ℕ, ◌≡◌, refl, inl, inr, ◌&&◌, not, ◌+ℤ◌, ◌-ℤ◌, ◌<ℤ◌, ◌≤ℤ◌, ltb_ℤ, pos, arith, int_laws, eq→parts,
  subst, Bool-cases, ℤ,
}
use orderflow_replay_engine.Types.{
  Timestamp, Side, buy, sell, OrderType, limit, market, ioc, fok, Order, OrderStatus, remaining,
  is_done,
}
use orderflow_replay_engine.OrderBook.Levels.Valid.{queue, sum_remaining}
use orderflow_replay_engine.OrderBook.Matching.{Swept}
use orderflow_replay_engine.OrderBook.Matching.Fills.{sum_qty}
use orderflow_replay_engine.OrderBook.Book.{
  Book, Outcome, add_to_book, end_order, settle, add_order, own_levels, opposite,
}
use orderflow_replay_engine.OrderBook.Book.Valid.{IsBook}
use orderflow_replay_engine.OrderBook.Book.Match.{
  swept, swept-SweepResult, killed, swept_book, match_order-sweep,
}
use orderflow_replay_engine.OrderBook.Book.Add.{
  entering, entering-IsLive, matched, added, placed, fok-cases,
}

-- How an operation with the incoming order `o` changes the quantities.
pub record Moves (o : Order) (b : Book) (r : Outcome) : Type 0 where
  pub taken : r.order.filled_qty ≡ o.filled_qty +ℤ sum_qty r.trades
  pub qty_eq : r.order.qty ≡ o.qty
  pub bounded : pos 0 ≤ℤ remaining r.order
  pub moved :
      sum_remaining (queue (own_levels (opposite o.side) b))
      ≡ sum_remaining (queue (own_levels (opposite o.side) r.book)) +ℤ sum_qty r.trades

opposite_swept :
    (s : Side) (b : Book) (r : Swept) → own_levels (opposite s) (swept_book s b r) ≡ r.levels
opposite_swept buy b r = refl
opposite_swept sell b r = refl

opposite-placed :
    (s : Side) (o : Order) (b : Book)
    → own_levels (opposite s) (placed s o b) ≡ own_levels (opposite s) b
opposite-placed buy o b = refl
opposite-placed sell o b = refl

add_to_book-opposite :
    (s : Side) (o : Order) (b : Book)
    → o.side ≡ s
    → own_levels (opposite s) (add_to_book o b) ≡ own_levels (opposite s) b
unfolding add_to_book
add_to_book-opposite s o b e =
    subst (λ x. own_levels (opposite x) (placed o.side o b) ≡ own_levels (opposite x) b) e
      (opposite-placed o.side o b)

end_order-Moves :
    (o : Order) (b : Book) (st : OrderStatus) (r : Outcome)
    → Moves o b r
    → Moves o b (end_order st r)
unfolding end_order
end_order-Moves o b st r m = record {
  taken = m.taken;
  qty_eq = m.qty_eq;
  bounded = m.bounded;
  moved = m.moved;
}

placed-Moves :
    (o : Order) (b : Book) (r : Outcome)
    → r.order.side ≡ o.side
    → Moves o b r
    → Moves o b (record r { book = add_to_book r.order r.book })
placed-Moves o b r e m = record {
  taken = m.taken;
  qty_eq = m.qty_eq;
  bounded = m.bounded;
  moved = rw (add_to_book-opposite o.side r.order r.book e) m.moved;
}

-- How an order ends does not move quantities.
settle-Moves :
    (o : Order) (b : Book) (t : OrderType) (r : Outcome)
    → r.order.side ≡ o.side
    → Moves o b r
    → Moves o b (settle t r)
unfolding settle
settle-Moves o b limit r e m = elim (Bool-cases (is_done r.order)) [
  | inl d ↦ rw d m
  | inr d ↦ rw d (placed-Moves o b r e m)
]
settle-Moves o b market r e m = elim (Bool-cases (ltb_ℤ (pos 0) (remaining r.order))) [
  | inl d ↦ rw d (end_order-Moves o b OrderStatus.cancelled r m)
  | inr d ↦ rw d m
]
settle-Moves o b ioc r e m =
    elim (Bool-cases (ltb_ℤ (pos 0) (remaining r.order) && not (is_done r.order))) [
      | inl d ↦ rw d (end_order-Moves o b OrderStatus.expired r m)
      | inr d ↦ rw d m
    ]
settle-Moves o b fok r e m = m

pub settle-trades : (t : OrderType) (r : Outcome) → (settle t r).trades ≡ r.trades
unfolding settle end_order
settle-trades limit r = ground arith
settle-trades market r = ground arith
settle-trades ioc r = ground arith
settle-trades fok r = refl

module _ (now : ℕ → Timestamp) (o : Order) (b : Book) (v : IsBook b)
    (h : pos 0 <ℤ remaining o) where
  filled_by : (q q' f f' m : ℤ) → q' ≡ q → q -ℤ f ≡ q' -ℤ f' +ℤ m → f' ≡ f +ℤ m
  filled_by q q' f f' m e k = omega (int_laws, eq→parts e, eq→parts k)

  matched-Moves : Moves o b (matched now o b)
  matched-Moves =
      let r = swept-SweepResult now (entering o) b v (entering-IsLive o h) in
      let o' = (matched now o b).order in
      record {
        taken =
            filled_by o.qty o'.qty o.filled_qty o'.filled_qty (sum_qty (matched now o b).trades)
              r.same.qty_eq r.taken;
        qty_eq = r.same.qty_eq;
        bounded = r.bounded (omega arith);
        moved = rw (opposite_swept o.side b (swept now (entering o) b)) r.moved;
      }

  killed-Moves : Moves o b (killed now (entering o) b)
  killed-Moves = record {
    taken = omega int_laws;
    qty_eq = refl;
    bounded = omega arith;
    moved = omega int_laws;
  }

  matched_side : (matched now o b).order.side ≡ o.side
  matched_side = (swept-SweepResult now (entering o) b v (entering-IsLive o h)).same.side_eq

  added-Moves : (t : OrderType) → Moves o b (added now o b t)
  added-Moves limit =
      rw (match_order-sweep now (entering o) b)
        (settle-Moves o b limit (matched now o b) matched_side matched-Moves)
  added-Moves market =
      rw (match_order-sweep now (entering o) b)
        (settle-Moves o b market (matched now o b) matched_side matched-Moves)
  added-Moves ioc =
      rw (match_order-sweep now (entering o) b)
        (settle-Moves o b ioc (matched now o b) matched_side matched-Moves)
  added-Moves fok = elim (fok-cases now o b) [
    | inl e ↦ rw e (settle-Moves o b fok (killed now (entering o) b) refl killed-Moves)
    | inr e ↦ rw e (settle-Moves o b fok (matched now o b) matched_side matched-Moves)
  ]

-- On a well formed book, quantity is conserved by an order with something left of it: what it
-- takes is what its trades are of, and what leaves the other side, and it is never filled beyond
-- its quantity.
pub add_order-Moves :
    (now : ℕ → Timestamp) (o : Order) (b : Book)
    → IsBook b
    → pos 0 <ℤ remaining o
    → Moves o b (add_order now o b)
unfolding add_order
add_order-Moves now o b v h =
    let m = added-Moves now o b v h o.type in
    record { taken = m.taken; qty_eq = m.qty_eq; bounded = m.bounded; moved = m.moved }
