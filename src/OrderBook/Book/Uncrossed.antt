-- ===== src/OrderBook/Book/Uncrossed.antt =====
-- `add_order` of src/core/order_book.cpp never leaves a bid at or above an ask.
use orderflow_replay_engine.Prelude.{
  ℕ, ◌≡◌, sym, inl, inr, false, ◌<ℤ◌, ◌≤ℤ◌, pos, arith, All-map, All-both, subst, Bool-cases,
}
use orderflow_replay_engine.Types.{Timestamp, Side, buy, sell, limit, Order, remaining, is_done}
use orderflow_replay_engine.OrderBook.Levels.Valid.{IsSide}
use orderflow_replay_engine.OrderBook.Matching.{sweep, Swept}
use orderflow_replay_engine.OrderBook.Matching.Fills.{IsLive}
use orderflow_replay_engine.OrderBook.Matching.Sweep.{FrontBlocked}
use orderflow_replay_engine.OrderBook.Matching.Prices.{
  insert_order-AllPrices, sweep-AllPrices, blocked-buy, blocked-sell,
}
use orderflow_replay_engine.OrderBook.Book.{
  Book, add_to_book, settle, add_order, own_levels, opposite,
}
use orderflow_replay_engine.OrderBook.Book.Valid.{IsBook, IsUncrossed}
use orderflow_replay_engine.OrderBook.Book.Match.{
  swept, swept_outcome, swept-SweepResult, swept_book, start,
}
use orderflow_replay_engine.OrderBook.Book.Add.{
  placed, rests, entering, entering-IsLive, added_book,
}

module _ (now : ℕ → Timestamp) (o : Order) (b : Book) (v : IsBook b) (k : IsLive o) where
  abbrev swept_from : Side → Swept
  swept_from s = sweep now b.symbol (start o b) (own_levels (opposite s) b)

  swept_from-Uncrossed : (s : Side) → IsUncrossed b → IsUncrossed (swept_book s b (swept_from s))
  swept_from-Uncrossed buy u =
      All-map _ _ (λ l. sweep-AllPrices now b.symbol _ sell (start o b) b.asks v.asks k) b.bids u
  swept_from-Uncrossed sell u = sweep-AllPrices now b.symbol _ buy (start o b) b.bids v.bids k u

  placed-Uncrossed :
      (s : Side) (o' : Order) (r : Swept)
      → o'.side ≡ s
      → IsSide (opposite s) r.levels
      → FrontBlocked o' r.levels
      → IsUncrossed (swept_book s b r)
      → IsUncrossed (placed s o' (swept_book s b r))
  placed-Uncrossed buy o' r e w f u =
      insert_order-AllPrices _ buy o' b.bids (blocked-buy o' r.levels e w.sorted f) u
  placed-Uncrossed sell o' r e w f u =
      All-both _ _ _ (λ l below h. insert_order-AllPrices _ sell o' b.asks h below) r.levels u
        (blocked-sell o' r.levels e w.sorted f)

  -- What a limit order has left is placed where the matching stopped.
  resting-Uncrossed :
      IsUncrossed b
      → pos 0 ≤ℤ remaining o
      → is_done (swept_outcome now o b).order ≡ false
      → IsUncrossed (add_to_book (swept_outcome now o b).order (swept_outcome now o b).book)
  unfolding add_to_book
  resting-Uncrossed u h d =
      let r = swept-SweepResult now o b v k in
      let o' = (swept_outcome now o b).order in
      let left = (rests o' r.live (r.bounded h) d).some_left in
      let front : FrontBlocked o' (swept now o b).levels = elim r.ended [
        | inl none ↦ absurd (omega arith)
        | inr f ↦ f
      ] in
      subst (λ s. IsUncrossed (placed s o' (swept_book o.side b (swept now o b))))
        (sym r.same.side_eq)
        (placed-Uncrossed o.side o' (swept now o b) r.same.side_eq r.side front
          (swept_from-Uncrossed o.side u))

  settle-Uncrossed :
      IsUncrossed b → pos 0 ≤ℤ remaining o → IsUncrossed (settle limit (swept_outcome now o b)).book
  unfolding settle
  settle-Uncrossed u h = elim (Bool-cases (is_done (swept_outcome now o b).order)) [
    | inl d ↦ rw d (swept_from-Uncrossed o.side u)
    | inr d ↦ rw d (resting-Uncrossed u h d)
  ]

-- Adding an order with a quantity left to a well formed book in which every bid is below every ask leaves such a
-- book, whatever the type of the order.
pub add_order-IsUncrossed :
    (now : ℕ → Timestamp) (o : Order) (b : Book)
    → IsBook b
    → pos 0 <ℤ remaining o
    → IsUncrossed b
    → IsUncrossed (add_order now o b).book
unfolding add_order
add_order-IsUncrossed now o b v h u =
    let k = entering-IsLive o h in
    added_book now o b IsUncrossed o.type u (swept_from-Uncrossed now (entering o) b v k o.side u)
      (settle-Uncrossed now (entering o) b v k u (omega arith))
