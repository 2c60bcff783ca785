-- ===== src/OrderBook/Book/Crossing.antt =====
-- `modify_order` of src/core/order_book.cpp places the order at its new price without matching it.
use orderflow_replay_engine.Prelude.{
  ◌≡◌, refl, sym, ap, ◌∙◌, inl, inr, true, false, List, [], ◌∷◌, some, arith, subst, Bool-cases,
  ◌<ℤ◌, ◌≤ℤ◌, leb_ℤ, eqb_ℤ, eqb_ℤ→eq,
}
use orderflow_replay_engine.Types.{OrderId, Price, Quantity, Side, buy, Order}
use orderflow_replay_engine.OrderBook.Levels.{PriceLevel, Handle, before, find_handle, insert_order}
use orderflow_replay_engine.OrderBook.Matching.Prices.{AllPrices}
use orderflow_replay_engine.OrderBook.Book.{
  Book, remove_from_book, deref, modify_order, add_to_book,
}
use orderflow_replay_engine.OrderBook.Book.Valid.{IsBook, IsUncrossed}
use orderflow_replay_engine.OrderBook.Book.Add.{placed}
use orderflow_replay_engine.OrderBook.Book.Removed.{
  find_handle-Found, deref-Found, without, remove_from_book-without,
}
use orderflow_replay_engine.OrderBook.Book.Modify.{repriced, modify_found, deref-IsResting}

-- An order that is put into the levels has its price there.
insert_order-has :
    (P : Price → Type 0) (s : Side) (o : Order) (ls : List PriceLevel)
    → AllPrices P (insert_order s o ls)
    → P o.price
unfolding insert_order
insert_order-has P s o [] a = a.0
insert_order-has P s o (l ∷ ls) a = elim (Bool-cases (eqb_ℤ l.price o.price)) [
  | inl e ↦ let a' = (rw e at a) in subst P (eqb_ℤ→eq l.price o.price e) a'.0
  | inr e ↦ elim (Bool-cases (before s o.price l.price)) [
    | inl k ↦ let a' = (rw (e, k) at a) in a'.0
    | inr k ↦ let a' = (rw (e, k) at a) in insert_order-has P s o ls a'.1
  ]
]

placed-bid :
    (s : Side) (o : Order) (b : Book) (q : Price)
    → s ≡ buy
    → IsUncrossed (placed s o b)
    → AllPrices (λ q. o.price <ℤ q) b.asks
placed-bid s o b q e u = bid (subst (λ x. IsUncrossed (placed x o b)) e u)
  where
    bid : IsUncrossed (placed buy o b) → AllPrices (λ q. o.price <ℤ q) b.asks
    bid u = insert_order-has (λ p. AllPrices (λ q. p <ℤ q) b.asks) buy o b.bids u

without-asks : (s : Side) (h : Handle) (b : Book) → s ≡ buy → (without s h b).asks ≡ b.asks
without-asks s h b e = subst (λ x. (without x h b).asks ≡ b.asks) (sym e) refl

-- A bid that rests in a well formed book, and that `modify_order` moves to or above the best ask, to
-- more than is filled of it, leaves the book crossed: it is neither matched nor refused.
pub modify_order-crosses :
    (id : OrderId) (p : Price) (q : Quantity) (b : Book) (h : Handle) (o : Order) (l : PriceLevel)
    (ls : List PriceLevel)
    → IsBook b
    → find_handle id b.orders ≡ some h
    → deref h b ≡ some o
    → h.side ≡ buy
    → o.filled_qty <ℤ q
    → b.asks ≡ l ∷ ls
    → l.price ≤ℤ p
    → ¬ IsUncrossed (modify_order id p q b).0
unfolding add_to_book
modify_order-crosses id p q b h o l ls v e d s n a k u =
    let f = find_handle-Found id b h v e in
    let (o', l', d', ho, fl) = deref-Found id b h v f in
    let go_on : leb_ℤ q o.filled_qty ≡ false = ground arith in
    let same : modify_order id p q b ≡ (add_to_book (repriced o p q) (remove_from_book h b), true) =
      modify_found id p q b h o e d ∙ (rw go_on) in
    let side = (deref-IsResting id b h o v f d).0 ∙ s in
    let u' = subst (λ x. IsUncrossed x.0) same u in
    let all = placed-bid o.side (repriced o p q) (remove_from_book h b) p side u' in
    let asks : (remove_from_book h b).asks ≡ l ∷ ls =
      ap (λ (x : Book). x.asks) (remove_from_book-without h b l' fl)
      ∙ without-asks h.side h b s
      ∙ a in
    let low = subst (AllPrices (λ q. p <ℤ q)) asks all in absurd (omega (arith, low.0))
