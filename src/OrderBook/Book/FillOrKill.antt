-- ===== src/OrderBook/Book/FillOrKill.antt =====
-- A fill-or-kill order in `add_order` of src/core/order_book.cpp: all or nothing.
use orderflow_replay_engine.Prelude.{
  ◌↔◌, ℕ, ◌≡◌, sym, ap, ◌∙◌, ◌⊎◌, inl, inr, true, [], ◌+ℤ◌, ◌<ℤ◌, ◌≤ℤ◌, ltb_ℤ, eqb_ℤ_refl, ltb_ℤ→lt,
  ltb_ℤ→ge, pos, arith, int_laws, eq→parts, eq_of_parts, subst, Bool-cases,
}
use orderflow_replay_engine.Types.{Timestamp, Quantity, fok, Order, OrderStatus, remaining, is_done}
use orderflow_replay_engine.OrderBook.Levels.Valid.{queue}
use orderflow_replay_engine.OrderBook.Matching.Fills.{sum_qty}
use orderflow_replay_engine.OrderBook.Book.{
  Book, Outcome, settle, add_order, match_order, is_fok, own_levels, opposite,
}
use orderflow_replay_engine.OrderBook.Book.Valid.{IsBook, side_from}
use orderflow_replay_engine.OrderBook.Book.Match.{
  swept-SweepResult, killed, available, match_order-killed, match_order-filled,
}
use orderflow_replay_engine.OrderBook.Book.Add.{entering, entering-IsLive, matched, added}
use orderflow_replay_engine.OrderBook.Book.Trades.{fok-IsFilledWithin}
use orderflow_replay_engine.OrderBook.Book.Acceptable.{acceptable, available_iff}

-- What is left, in all, of the orders of the other side at prices within the limit of `o`.
abbrev pub to_be_had : Order → Book → Quantity
to_be_had o b = acceptable o.side o.price (queue (own_levels (opposite o.side) b))

-- The order is filled.
pub record IsFilled (o : Order) (r : Outcome) : Type 0 where
  pub traded : sum_qty r.trades ≡ o.qty
  pub filled_eq : r.order.filled_qty ≡ o.qty
  pub done : is_done r.order ≡ true

module _ (now : ℕ → Timestamp) (o : Order) (b : Book) (v : IsBook b) (h : pos 0 <ℤ remaining o)
    (e : o.type ≡ fok) (z : o.filled_qty ≡ pos 0) where
  had_iff : (o.qty ≤ℤ available (entering o) b) ↔ (o.qty ≤ℤ pos 0 +ℤ to_be_had (entering o) b)
  had_iff =
      available_iff (entering o) (pos 0) (own_levels (opposite o.side) b) e
        (side_from (opposite o.side) b v)

  matched-IsFilled : o.qty ≤ℤ available (entering o) b → IsFilled o (matched now o b)
  matched-IsFilled q =
      let r = swept-SweepResult now (entering o) b v (entering-IsLive o h) in
      let none = (fok-IsFilledWithin now o b v h e z q).0 in
      let some_left = r.bounded (omega arith) in
      let o' = (matched now o b).order in
      let nothing : remaining o' ≡ pos 0 = eq_of_parts _ _ (omega arith) in
      record {
        traded = omega (int_laws, eq→parts r.taken, eq→parts z, eq→parts nothing);
        filled_eq = omega (int_laws, eq→parts r.same.qty_eq, eq→parts nothing);
        done = r.live ∙ (rw nothing (eqb_ℤ_refl (pos 0)));
      }

  killed_or_IsFilled :
      ((to_be_had (entering o) b <ℤ o.qty) × (added now o b fok ≡ killed now (entering o) b))
      ⊎ ((o.qty ≤ℤ to_be_had (entering o) b) × IsFilled o (added now o b fok))
  unfolding settle
  killed_or_IsFilled = elim (Bool-cases (ltb_ℤ (available (entering o) b) o.qty)) [
    | inl k ↦ inl (
      not_had (λ q. omega (arith, had_iff.1 q, ltb_ℤ→lt _ _ k)),
      match_order-killed now (entering o) b (ltb_ℤ→lt _ _ k),
    )
    | inr k ↦
        let q = ltb_ℤ→ge _ _ k in
        let had = had_iff.0 q in
        inr (omega int_laws, rw (match_order-filled now (entering o) b q) (matched-IsFilled q))
  ]
    where
      not_had : ¬ (o.qty ≤ℤ pos 0 +ℤ to_be_had (entering o) b) → to_be_had (entering o) b <ℤ o.qty
      not_had n = elim (Bool-cases (ltb_ℤ (to_be_had (entering o) b) o.qty)) [
        | inl w ↦ ltb_ℤ→lt _ _ w
        | inr w ↦ let g = ltb_ℤ→ge _ _ w in absurd (n (omega int_laws))
      ]

-- On a well formed book, a fill-or-kill order with something left of it and nothing filled yet is either killed with
-- the book untouched, when too little is to be had within its limit, or filled whole.
pub add_order-fok :
    (now : ℕ → Timestamp) (o : Order) (b : Book)
    → IsBook b
    → pos 0 <ℤ remaining o
    → o.type ≡ fok
    → o.filled_qty ≡ pos 0
    → let r = add_order now o b in
      ((to_be_had o b <ℤ o.qty)
        × (r.book ≡ b)
        × (r.trades ≡ [])
        × (r.order ≡ record o { status = OrderStatus.expired }))
      ⊎ ((o.qty ≤ℤ to_be_had o b) × IsFilled o r)
unfolding add_order
add_order-fok now o b v h e z =
    let r = settle o.type (match_order now (is_fok o.type) (entering o) b) in
    let same : r ≡ added now o b fok =
      ap (λ t. settle t (match_order now (is_fok t) (entering o) b)) e in
    elim (killed_or_IsFilled now o b v h e z) [
      | inl (n, k) ↦
          let k' = same ∙ k in
          inl (
            n,
            ap (λ (x : Outcome). x.book) k',
            ap (λ (x : Outcome). x.trades) k',
            ap (λ (x : Outcome). x.order) k',
          )
      | inr (n, f) ↦
          let f' : IsFilled o r = subst (IsFilled o) (sym same) f in
          inr (n, record { traded = f'.traded; filled_eq = f'.filled_eq; done = f'.done })
    ]
