-- ===== src/OrderBook/Book/Withdrawn.antt =====
-- `cancel_order` of src/core/order_book.cpp leaves a book that is not crossed.
use orderflow_replay_engine.Prelude.{
  inl, inr, List, [], ◌∷◌, ◌<ℤ◌, All-map, eqb_ℤ, is_empty, Bool-cases, Option-cases,
}
use orderflow_replay_engine.Types.{Price, OrderId, Side, buy, sell}
use orderflow_replay_engine.OrderBook.Levels.{
  PriceLevel, Handle, remove_order, find_handle, find_level, level_remove,
}
use orderflow_replay_engine.OrderBook.Matching.Prices.{AllPrices}
use orderflow_replay_engine.OrderBook.Book.{Book, own_levels, cancel_order, deref, remove_from_book}
use orderflow_replay_engine.OrderBook.Book.Valid.{IsUncrossed}
use orderflow_replay_engine.OrderBook.Book.Removed.{remove_from_book-without, without}

remove_order-AllPrices :
    (P : Price → Type 0) (p : Price) (id : OrderId) (ls : List PriceLevel)
    → AllPrices P ls
    → AllPrices P (remove_order p id ls)
unfolding remove_order
remove_order-AllPrices P p id [] h = tt
remove_order-AllPrices P p id (l ∷ ls) (h, hs) = elim (Bool-cases (eqb_ℤ l.price p)) [
  | inl e ↦ elim (Bool-cases (is_empty (level_remove id l).orders)) [
    | inl k ↦ rw (e, k) hs
    | inr k ↦ rw (e, k) (h, hs)
  ]
  | inr e ↦ rw e (h, remove_order-AllPrices P p id ls hs)
]

without-IsUncrossed :
    (s : Side) (h : Handle) (b : Book) → IsUncrossed b → IsUncrossed (without s h b)
without-IsUncrossed buy h b u =
    remove_order-AllPrices (λ p. AllPrices (λ q. p <ℤ q) b.asks) h.price h.id b.bids u
without-IsUncrossed sell h b u =
    All-map _ _ (λ l k. remove_order-AllPrices (λ q. l.price <ℤ q) h.price h.id b.asks k) b.bids u

remove_from_book-IsUncrossed :
    (h : Handle) (b : Book) → IsUncrossed b → IsUncrossed (remove_from_book h b)
unfolding remove_from_book
remove_from_book-IsUncrossed h b u =
    elim (Option-cases (find_level h.price (own_levels h.side b))) [
      | inl e ↦ rw (remove_from_book, e) u
      | inr (l, e) ↦ rw (remove_from_book-without h b l e) (without-IsUncrossed h.side h b u)
    ]

-- Cancelling leaves no bid at or above an ask, if none was before.
pub cancel_order-IsUncrossed :
    (id : OrderId) (b : Book) → IsUncrossed b → IsUncrossed (cancel_order id b).0
unfolding cancel_order
cancel_order-IsUncrossed id b u = elim (Option-cases (find_handle id b.orders)) [
  | inl e ↦ rw (cancel_order, e) u
  | inr (h, e) ↦ elim (Option-cases (deref h b)) [
    | inl d ↦ rw (cancel_order, e) (rw d u)
    | inr (o, d) ↦ rw (cancel_order, e) (rw d (remove_from_book-IsUncrossed h b u))
  ]
]
