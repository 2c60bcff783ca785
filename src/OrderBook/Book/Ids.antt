-- ===== src/OrderBook/Book/Ids.antt =====
-- Which ids can rest in a book after an operation of src/core/order_book.cpp: those that rested before
-- it, and the one of the order that is added.
use orderflow_replay_engine.Prelude.{
  ℕ, ◌+◌, ◌≤◌, ◌≡◌, subst, inl, inr, ◌<ℤ◌, pos, if◌then◌else◌, List, ◌==◌, arith, Bool-cases,
}
use orderflow_replay_engine.Types.{OrderId, Timestamp, Side, buy, sell, Order, remaining, is_done}
use orderflow_replay_engine.OrderBook.Levels.Valid.{queue}
use orderflow_replay_engine.OrderBook.Levels.Ids.{count_id, count_id-append, count_id-insert}
use orderflow_replay_engine.OrderBook.Levels.Removal.{count_id-remove}
use orderflow_replay_engine.OrderBook.Levels.{remove_id}
use orderflow_replay_engine.OrderBook.Book.Cancel.{cancel_order-cases}
use orderflow_replay_engine.OrderBook.Book.{Book, add_order, add_to_book, settle, cancel_order}
use orderflow_replay_engine.OrderBook.Book.Valid.{IsBook, resting, count_id-resting}
use orderflow_replay_engine.OrderBook.Book.Match.{swept-SweepResult, swept_outcome-fewer}
use orderflow_replay_engine.OrderBook.Book.Add.{
  entering, entering-IsLive, matched, added_book, placed,
}

-- One for the order's own id.
abbrev pub own_count : OrderId → OrderId → ℕ
own_count id j = if id == j then 1 else 0

count_id-placed :
    (s : Side) (o : Order) (b : Book) (j : OrderId)
    → count_id j (resting (placed s o b)) ≤ count_id j (resting b) + own_count o.id j
count_id-placed buy o b j = omega (
  arith,
  count_id-insert buy o b.bids (queue b.asks) j,
  count_id-resting buy (placed buy o b) j,
  count_id-resting buy b j,
)
count_id-placed sell o b j = omega (
  arith,
  count_id-insert sell o b.asks (queue b.bids) j,
  count_id-resting sell (placed sell o b) j,
  count_id-resting sell b j,
)

-- After an order is added, only ids that rested before, or its own, rest.
pub add_order-count_id :
    (now : ℕ → Timestamp) (o : Order) (b : Book) (j : OrderId)
    → IsBook b
    → pos 0 <ℤ remaining o
    → count_id j (resting (add_order now o b).book) ≤ count_id j (resting b) + own_count o.id j
unfolding add_order settle add_to_book
add_order-count_id now o b j v h =
    let k = entering-IsLive o h in
    let m = matched now o b in
    let id_eq : m.order.id ≡ o.id = (swept-SweepResult now (entering o) b v k).same.id_eq in
    let fewer = swept_outcome-fewer now (entering o) b v k j in
    let P = λ (c : Book). count_id j (resting c) ≤ count_id j (resting b) + own_count o.id j in
    let kept : P m.book = omega (arith, fewer) in
    let put : P (placed m.order.side m.order m.book) =
      subst
        (λ i.
          count_id j (resting (placed m.order.side m.order m.book))
          ≤ count_id j (resting b) + own_count i j)
        id_eq (omega (arith, fewer, count_id-placed m.order.side m.order m.book j)) in
    added_book now o b P o.type (omega arith) kept
      (elim (Bool-cases (is_done m.order)) [ inl d ↦ rw d kept | inr d ↦ rw d put ])

count_id-removed :
    (id j : OrderId) (xs ys : List Order) → ys ≡ remove_id id xs → count_id j ys ≤ count_id j xs
count_id-removed id j xs ys e = rw e (let k = count_id-remove id j xs in ground arith)

-- A cancellation brings no id into the book.
pub cancel_order-count_id :
    (id : OrderId) (b : Book) (j : OrderId)
    → IsBook b
    → count_id j (resting (cancel_order id b).0) ≤ count_id j (resting b)
cancel_order-count_id id b j v = elim (cancel_order-cases id b v) [
  | inl (n, e) ↦ rw e (omega arith)
  | inr (o, c) ↦
      let b' = (cancel_order id b).0 in
      omega (
        arith,
        count_id-removed id j (queue b.bids) (queue b'.bids) c.removed.bids_eq,
        count_id-removed id j (queue b.asks) (queue b'.asks) c.removed.asks_eq,
        count_id-append j (queue b.bids) (queue b.asks),
        count_id-append j (queue b'.bids) (queue b'.asks),
      )
]
