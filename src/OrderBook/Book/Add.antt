-- ===== src/OrderBook/Book/Add.antt =====
-- `add_to_book` and `add_order` of src/core/order_book.cpp keep the book well formed and uncrossed.
use orderflow_replay_engine.Prelude.{
  ℕ, ◌≡◌, refl, sym, ◌∙◌, ◌⊎◌, inl, inr, true, false, ◌++◌, ◌<ℤ◌, ◌≤ℤ◌, ltb_ℤ, ltb_ℤ→lt, ltb_ℤ→ge,
  lt→eqb_ℤ, pos, arith, subst, Bool-cases, ◌==◌, ==_iff, eqb_ℤ→ne, ◌≢◌,
}
use orderflow_replay_engine.Types.{
  Timestamp, Side, buy, sell, OrderType, limit, market, ioc, fok, Order, OrderStatus, remaining,
  is_done, is_done_status,
}
use orderflow_replay_engine.OrderBook.Levels.{insert_order, insert_handle}
use orderflow_replay_engine.OrderBook.Levels.Valid.{IsResting, queue}
use orderflow_replay_engine.OrderBook.Levels.Edits.{insert_order-IsSide}
use orderflow_replay_engine.OrderBook.Levels.Ids.{
  handle_of, count_id, Agrees, Unique, count_id-insert, seek-insert, find-insert,
}
use orderflow_replay_engine.OrderBook.Matching.Fills.{IsLive}
use orderflow_replay_engine.OrderBook.Book.{
  Book, Outcome, add_to_book, end_order, settle, add_order, match_order, is_fok, own_levels,
  set_own_levels, opposite,
}
use orderflow_replay_engine.OrderBook.Book.Valid.{
  IsBook, resting, Agrees-from, book_from, count_id-resting,
}
use orderflow_replay_engine.OrderBook.Book.Match.{
  swept_outcome, swept_outcome-IsBook, swept_outcome-fewer, swept-SweepResult, killed, available,
  match_order-sweep, match_order-killed, match_order-filled,
}

-- No resting order has the id of `o`.
abbrev pub IsFresh : Order → Book → Type 0
IsFresh o b = count_id o.id (resting b) ≡ 0

abbrev pub placed : Side → Order → Book → Book
placed s o b = record (set_own_levels s (insert_order s o (own_levels s b)) b) {
  orders = insert_handle (handle_of o) b.orders;
}

placed-Unique :
    (s : Side) (o : Order) (b : Book)
    → IsBook b
    → IsFresh o b
    → Unique (queue (insert_order s o (own_levels s b)) ++ queue (own_levels (opposite s) b))
placed-Unique s o b v h j =
    let split = count_id-insert s o (own_levels s b) (queue (own_levels (opposite s) b)) j in
    let total = count_id-resting s b j in
    elim (Bool-cases (o.id == j)) [
      | inl e ↦
          let none_yet : count_id j (resting b) ≡ 0 =
            subst (λ i. count_id i (resting b) ≡ 0) ((==_iff o.id j).0 e) h in
          rw (split, e) (omega (arith, total))
      | inr e ↦ rw (split, e) (omega (arith, total, v.unique j))
    ]

placed-Agrees :
    (s : Side) (o : Order) (b : Book)
    → IsBook b
    → IsFresh o b
    → Agrees
        (insert_handle (handle_of o) b.orders)
        (queue (insert_order s o (own_levels s b)) ++ queue (own_levels (opposite s) b))
placed-Agrees s o b v h j =
    find-insert (handle_of o) j b.orders
    ∙ (rw (Agrees-from s b v j))
    ∙ sym (
        seek-insert s o (own_levels s b) (queue (own_levels (opposite s) b)) j
          (count_id-resting s b o.id ∙ h))

placed-IsBook :
    (s : Side) (o : Order) (b : Book)
    → IsBook b
    → IsResting s o.price o
    → IsFresh o b
    → IsBook (placed s o b)
placed-IsBook buy o b v r h =
    book_from buy (placed buy o b) (insert_order-IsSide buy o b.bids r v.bids) v.asks
      (placed-Unique buy o b v h) (placed-Agrees buy o b v h)
placed-IsBook sell o b v r h =
    book_from sell (placed sell o b) (insert_order-IsSide sell o b.asks r v.asks) v.bids
      (placed-Unique sell o b v h) (placed-Agrees sell o b v h)

pub add_to_book-IsBook :
    (o : Order) (b : Book)
    → IsBook b
    → IsResting o.side o.price o
    → IsFresh o b
    → IsBook (add_to_book o b)
unfolding add_to_book
add_to_book-IsBook o b = placed-IsBook o.side o b

-- A live order that is not done has something left, and can rest.
pub rests :
    (o : Order) → IsLive o → pos 0 ≤ℤ remaining o → is_done o ≡ false → IsResting o.side o.price o
rests o v h n = record {
  side_eq = refl;
  price_eq = refl;
  some_left = left (eqb_ℤ→ne _ _ (sym v ∙ n));
  not_done = n;
}
  where
    left : (remaining o <ℤ pos 0) ⊎ (pos 0 <ℤ remaining o) → pos 0 <ℤ remaining o
    left (inl k) = absurd (omega arith)
    left (inr k) = k

-- The incoming order as `add_order` hands it to `try_match`.
abbrev pub entering : Order → Order
entering o = record o { status = OrderStatus.new }

pub entering-IsLive : (o : Order) → pos 0 <ℤ remaining o → IsLive (entering o)
unfolding is_done_status
entering-IsLive o h = sym (lt→eqb_ℤ (remaining o) (pos 0) h)

module _ (now : ℕ → Timestamp) (o : Order) (b : Book) where
  abbrev pub matched : Outcome
  matched = swept_outcome now (entering o) b

  limit-IsBook : IsBook b → pos 0 <ℤ remaining o → IsFresh o b → IsBook (settle limit matched).book
  unfolding settle
  limit-IsBook v h f =
      let k = entering-IsLive o h in
      let r = swept-SweepResult now (entering o) b v k in
      let w = swept_outcome-IsBook now (entering o) b v k in
      let id_eq : matched.order.id ≡ o.id = r.same.id_eq in
      elim (Bool-cases (is_done matched.order)) [
        | inl d ↦ rw d w
        | inr d ↦ rw d (
            add_to_book-IsBook matched.order matched.book w
              (rests matched.order r.live (r.bounded (omega arith)) d)
              (rw id_eq (omega (arith, f, swept_outcome-fewer now (entering o) b v k o.id))))
      ]

  abbrev pub added : OrderType → Outcome
  added t = settle t (match_order now (is_fok t) (entering o) b)

  -- A market, immediate-or-cancel or fill-or-kill order leaves the book as matching left it.
  pub settle-book : (t : OrderType) (r : Outcome) → t ≢ limit → (settle t r).book ≡ r.book
  unfolding settle end_order
  settle-book limit r n = absurd (n refl)
  settle-book market r n = ground arith
  settle-book ioc r n = ground arith
  settle-book fok r n = refl

  pub fok-cases :
      (match_order now true (entering o) b ≡ killed now (entering o) b)
      ⊎ (match_order now true (entering o) b ≡ matched)
  fok-cases = elim (Bool-cases (ltb_ℤ (available (entering o) b) o.qty)) [
    | inl h ↦ inl (match_order-killed now (entering o) b (ltb_ℤ→lt _ _ h))
    | inr h ↦ inr (match_order-filled now (entering o) b (ltb_ℤ→ge _ _ h))
  ]

  -- A property of books that matching keeps, and placing what a limit order has left.
  pub added_book :
      (P : Book → Type 0) (t : OrderType)
      → P b
      → P matched.book
      → P (settle limit matched).book
      → P (added t).book
  added_book P limit p q r = rw (match_order-sweep now (entering o) b) r
  added_book P market p q r =
      rw
        (
          settle-book market (match_order now false (entering o) b) (λ e. cc),
          match_order-sweep now (entering o) b,
        )
        q
  added_book P ioc p q r =
      rw
        (
          settle-book ioc (match_order now false (entering o) b) (λ e. cc),
          match_order-sweep now (entering o) b,
        )
        q
  added_book P fok p q r =
      rw (settle-book fok (match_order now true (entering o) b) (λ e. cc))
        (elim fok-cases [ inl e ↦ rw e p | inr e ↦ rw e q ])

-- Adding an order of any type, with something left of it and an id that does not rest, keeps a
-- well formed book well formed: both sides sorted, the totals of the levels right, no empty level,
-- and the index holding exactly the resting orders.
pub add_order-IsBook :
    (now : ℕ → Timestamp) (o : Order) (b : Book)
    → IsBook b
    → pos 0 <ℤ remaining o
    → IsFresh o b
    → IsBook (add_order now o b).book
unfolding add_order
add_order-IsBook now o b v h f =
    added_book now o b IsBook o.type v
      (swept_outcome-IsBook now (entering o) b v (entering-IsLive o h)) (limit-IsBook now o b v h f)
