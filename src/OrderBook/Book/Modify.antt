-- ===== src/OrderBook/Book/Modify.antt =====
-- `modify_order` of src/core/order_book.cpp: the order goes to the back of the queue at its new price,
-- and is not matched there.
use orderflow_replay_engine.Prelude.{
  ◌≡◌, refl, sym, ap, ◌∙◌, ◌⊎◌, inl, inr, true, false, List, [], ◌∷◌, none, some, arith, subst,
  if◌then◌else◌, Option-cases, Bool-cases, ◌<ℤ◌, ◌≤ℤ◌, ◌-ℤ◌, leb_ℤ, pos, int_laws, All, ◌==◌,
}
use orderflow_replay_engine.Types.{OrderId, Price, Quantity, Side, buy, sell, Order, is_done}
use orderflow_replay_engine.OrderBook.Levels.{Handle, find_handle, find_id, insert_order, remove_id}
use orderflow_replay_engine.OrderBook.Levels.Arrival.{enqueue, insert_order-enqueue}
use orderflow_replay_engine.OrderBook.Levels.Valid.{IsResting, queue}
use orderflow_replay_engine.OrderBook.Levels.Ids.{count_id-zero}
use orderflow_replay_engine.OrderBook.Levels.Lookup.{find_level-seek, find_id-seek}
use orderflow_replay_engine.OrderBook.Book.{
  Book, own_levels, set_own_levels, remove_from_book, deref, find_order, modify_order, add_to_book,
}
use orderflow_replay_engine.OrderBook.Book.Valid.{IsBook, resting, side_from}
use orderflow_replay_engine.OrderBook.Book.Add.{add_to_book-IsBook, IsFresh}
use orderflow_replay_engine.OrderBook.Book.Removed.{
  remove_from_book-Removed, Found, Found-self, Removed, find_handle-Found, deref-Found,
}

-- The order with its new terms.
abbrev pub repriced : Order → Price → Quantity → Order
repriced o p q = record o { price = p; qty = q }

pub modify_found :
    (id : OrderId) (p : Price) (q : Quantity) (b : Book) (h : Handle) (o : Order)
    → find_handle id b.orders ≡ some h
    → deref h b ≡ some o
    → modify_order id p q b ≡ (
        if leb_ℤ q o.filled_qty
        then (b, false)
        else (add_to_book (repriced o p q) (remove_from_book h b), true))
unfolding modify_order
modify_found id p q b h o e d = rw (e, modify_order) (rw d)

modify_missing :
    (id : OrderId) (p : Price) (q : Quantity) (b : Book)
    → find_handle id b.orders ≡ none
    → modify_order id p q b ≡ (b, false)
unfolding modify_order
modify_missing id p q b e = rw (e, modify_order)

find_id-All :
    (P : Order → Type 0) (j : OrderId) (os : List Order) {o : Order}
    → All P os
    → find_id j os ≡ some o
    → P o
unfolding find_id
find_id-All P j [] a e = absurd (ground arith)
find_id-All P j (x ∷ xs) {o} a e = elim (Bool-cases (x.id == j)) [
  | inl k ↦ subst P (ground arith) a.0
  | inr k ↦ find_id-All P j xs a.1 (ground arith)
]

-- The order that a handle of the index leads to rests on the handle's side.
pub deref-IsResting :
    (id : OrderId) (b : Book) (h : Handle) (o : Order)
    → IsBook b
    → Found id b h
    → deref h b ≡ some o
    → (o.side ≡ h.side) × (o.id ≡ id) × (is_done o ≡ false)
unfolding deref
deref-IsResting id b h o v f d =
    let f' = Found-self id b h f in
    let (l, fl, sl, r) =
      find_level-seek h.id h.side (own_levels h.side b) h (side_from h.side b v) f'.seek_eq in
    let (o', fo, ho) = find_id-seek h.id l.orders h sl in
    let found : find_id h.id l.orders ≡ some o = (rw (fl, deref) at d) in
    let same : o' ≡ o = ground arith in
    let rest = find_id-All (IsResting h.side l.price) h.id l.orders r found in
    (
      rest.side_eq,
      ap (λ (x : Order). x.id) (sym same) ∙ ap (λ (x : Handle). x.id) ho ∙ f.id_eq,
      rest.not_done,
    )

-- One side's queue, `t` being the side, after an order of side `s` arrives.
abbrev pub joined : Side → Side → Order → List Order → List Order
joined buy buy o os = enqueue buy o os
joined buy sell o os = os
joined sell buy o os = os
joined sell sell o os = enqueue sell o os

own_levels-joined :
    (s : Side) (o : Order) (b : Book)
    → IsBook b
    → let b' = set_own_levels s (insert_order s o (own_levels s b)) b in
      (queue b'.bids ≡ joined buy s o (queue b.bids))
      × (queue b'.asks ≡ joined sell s o (queue b.asks))
own_levels-joined buy o b v = (insert_order-enqueue buy o b.bids v.bids, refl)
own_levels-joined sell o b v = (refl, insert_order-enqueue sell o b.asks v.asks)

add_to_book-joined :
    (o : Order) (b : Book)
    → IsBook b
    → (queue (add_to_book o b).bids ≡ joined buy o.side o (queue b.bids))
      × (queue (add_to_book o b).asks ≡ joined sell o.side o (queue b.asks))
unfolding add_to_book
add_to_book-joined o b v = own_levels-joined o.side o b v

-- What `modify_order` does to an order that rests in the book: it goes, and comes back repriced, in
-- its side's queue behind all orders of a better price and all that already rest at its new price.
pub record Modified (id : OrderId) (p : Price) (q : Quantity) (b : Book) (o : Order) : Type 0 where
  pub found : find_order id b ≡ some o
  pub accepted : (modify_order id p q b).1 ≡ true
  pub bids_eq :
      queue (modify_order id p q b).0.bids
      ≡ joined buy o.side (repriced o p q) (remove_id id (queue b.bids))
  pub asks_eq :
      queue (modify_order id p q b).0.asks
      ≡ joined sell o.side (repriced o p q) (remove_id id (queue b.asks))
  pub valid : IsBook (modify_order id p q b).0

modified :
    (id : OrderId) (p : Price) (q : Quantity) (b : Book) (h : Handle) (o : Order)
    → IsBook b
    → Found id b h
    → find_handle id b.orders ≡ some h
    → deref h b ≡ some o
    → leb_ℤ q o.filled_qty ≡ false
    → Modified id p q b o
unfolding find_order
modified id p q b h o v f e d n =
    let r = remove_from_book-Removed h b v (Found-self id b h f) in
    let rest = deref-IsResting id b h o v f d in
    let o' = repriced o p q in
    let place : IsResting o'.side o'.price o' = record {
      side_eq = refl;
      price_eq = refl;
      some_left = left;
      not_done = rest.2;
    } in
    let gone : find_handle h.id (remove_from_book h b).orders ≡ none =
      ground (arith, r.index_eq h.id) in
    let fresh : IsFresh o' (remove_from_book h b) =
      count_id-zero o.id (resting (remove_from_book h b)) (
        sym (r.valid.agrees o.id)
        ∙ subst (λ i. find_handle i (remove_from_book h b).orders ≡ none) (f.id_eq ∙ sym rest.1)
            gone) in
    let same = modify_found id p q b h o e d ∙ (rw n) in
    let gone_from : Removed id b (remove_from_book h b) =
      subst (λ i. Removed i b (remove_from_book h b)) f.id_eq r in
    let queues = add_to_book-joined o' (remove_from_book h b) r.valid in
    record {
      found = rw (e, find_order) d;
      accepted = rw same refl;
      bids_eq = rw same (queues.0 ∙ ap (joined buy o.side o') gone_from.bids_eq);
      asks_eq = rw same (queues.1 ∙ ap (joined sell o.side o') gone_from.asks_eq);
      valid = rw same (add_to_book-IsBook o' (remove_from_book h b) r.valid place fresh);
    }
  where
    left : pos 0 <ℤ q -ℤ o.filled_qty
    left = let k : o.filled_qty <ℤ q = ground arith in omega int_laws

-- On a well formed book, `modify_order` changes nothing and answers false for an id that does not rest
-- in the book, and for a quantity that the order is already filled to. Else it answers true and takes
-- the order out; with its new price and quantity the order is then on its side behind all orders of a
-- better price and all that already rest at its price, the other orders stay in their order, and the
-- book stays well formed.
pub modify_order-cases :
    (id : OrderId) (p : Price) (q : Quantity) (b : Book)
    → IsBook b
    → ((find_handle id b.orders ≡ none) × (modify_order id p q b ≡ (b, false)))
      ⊎ ((o : Order) × (find_order id b ≡ some o)
          × (q ≤ℤ o.filled_qty)
          × (modify_order id p q b ≡ (b, false)))
      ⊎ ((o : Order) × (o.filled_qty <ℤ q) × Modified id p q b o)
unfolding find_order
modify_order-cases id p q b v = elim (Option-cases (find_handle id b.orders)) [
  | inl e ↦ inl (e, modify_missing id p q b e)
  | inr (h, e) ↦
      let f = find_handle-Found id b h v e in
      let (o, l, d, ho, fl) = deref-Found id b h v f in
      elim (Bool-cases (leb_ℤ q o.filled_qty)) [
        | inl n ↦
            inr
              (inl (o, rw (e, find_order) d, ground arith, modify_found id p q b h o e d ∙ (rw n)))
        | inr n ↦ inr (inr (o, ground arith, modified id p q b h o v f e d n))
      ]
]
