-- ===== src/OrderBook/Book/Cancel.antt =====
-- `cancel_order` and `modify_order` of src/core/order_book.cpp.
use orderflow_replay_engine.Prelude.{
  ◌≡◌, ap, ◌∙◌, ◌⊎◌, inl, inr, true, false, [], ◌∷◌, none, some, subst, Option-cases,
}
use orderflow_replay_engine.Types.{OrderId, Order, OrderStatus}
use orderflow_replay_engine.OrderBook.Levels.{Handle, notified, find_handle}
use orderflow_replay_engine.OrderBook.Book.{Book, remove_from_book, deref, find_order, cancel_order}
use orderflow_replay_engine.OrderBook.Book.Valid.{IsBook}
use orderflow_replay_engine.OrderBook.Book.Removed.{
  remove_from_book-Removed, find_handle-Found, deref-Found, Removed, Found-self,
}

-- What `cancel_order` answers for an order that rests in the book.
pub record Cancelled (id : OrderId) (b : Book) (o : Order) : Type 0 where
  pub found : find_order id b ≡ some o
  pub id_eq : o.id ≡ id
  pub events_eq :
      (cancel_order id b).1 ≡ notified (record o { status = OrderStatus.cancelled }) ∷ []
  pub accepted : (cancel_order id b).2 ≡ true
  pub removed : Removed id b (cancel_order id b).0

cancel_found :
    (id : OrderId) (b : Book) (h : Handle) (o : Order)
    → find_handle id b.orders ≡ some h
    → deref h b ≡ some o
    → cancel_order id b
      ≡ (remove_from_book h b, notified (record o { status = OrderStatus.cancelled }) ∷ [], true)
unfolding cancel_order
cancel_found id b h o e d = rw (e, cancel_order) (rw d)

cancel_missing :
    (id : OrderId) (b : Book) → find_handle id b.orders ≡ none → cancel_order id b ≡ (b, [], false)
unfolding cancel_order
cancel_missing id b e = rw (e, cancel_order)

-- On a well formed book, `cancel_order` changes nothing and answers false for an id that does not rest in the book. For one
-- that does it takes the order out, and reports it as cancelled; the other orders and their entries
-- of the index stay as they are.
pub cancel_order-cases :
    (id : OrderId) (b : Book)
    → IsBook b
    → ((find_handle id b.orders ≡ none) × (cancel_order id b ≡ (b, [], false)))
      ⊎ ((o : Order) × Cancelled id b o)
unfolding find_order
cancel_order-cases id b v = elim (Option-cases (find_handle id b.orders)) [
  | inl e ↦ inl (e, cancel_missing id b e)
  | inr (h, e) ↦
      let f = find_handle-Found id b h v e in
      let (o, l, d, ho, fl) = deref-Found id b h v f in
      let same = cancel_found id b h o e d in
      inr (
        o,
        record {
          found = rw (e, find_order) d;
          id_eq = ap (λ (x : Handle). x.id) ho ∙ f.id_eq;
          events_eq = ap (λ x. x.1) same;
          accepted = ap (λ x. x.2) same;
          removed = rw same (
              subst (λ i. Removed i b (remove_from_book h b)) f.id_eq
                (remove_from_book-Removed h b v (Found-self id b h f)));
        },
      )
]
