-- ===== src/OrderBook/Book/Removed.antt =====
-- What `remove_from_book` of src/core/order_book.cpp leaves of a well formed book.
use orderflow_replay_engine.Prelude.{
  if◌then◌else◌, ◌==◌, ◌≡◌, refl, sym, ap, ◌∙◌, ◌⊎◌, inl, inr, List, ◌++◌, none, some, arith, subst,
}
use orderflow_replay_engine.Types.{OrderId, Side, buy, sell, Order}
use orderflow_replay_engine.OrderBook.Levels.{
  PriceLevel, Handle, find_handle, erase_handle, find_level, remove_id, remove_order,
}
use orderflow_replay_engine.OrderBook.Levels.Valid.{IsSide, queue}
use orderflow_replay_engine.OrderBook.Levels.Ids.{
  handle_of, seek, Agrees, Unique, seek-append, count_id-append, find-erase, count_id-pos,
}
use orderflow_replay_engine.OrderBook.Levels.Removal.{
  seek-remove, count_id-remove, remove_order-IsSide, remove_id-append, remove_id-absent,
}
use orderflow_replay_engine.OrderBook.Levels.Lookup.{
  seek-side, find_level-seek, find_id-seek, remove_order-queue,
}
use orderflow_replay_engine.OrderBook.Book.{
  Book, own_levels, set_own_levels, opposite, remove_from_book, deref,
}
use orderflow_replay_engine.OrderBook.Book.Valid.{
  IsBook, resting_from, Unique-from, Agrees-from, side_from, book_from,
}

-- Where a handle of the index leads.
pub record Found (id : OrderId) (b : Book) (h : Handle) : Type 0 where
  pub id_eq : h.id ≡ id
  pub seek_eq : seek id (queue (own_levels h.side b)) ≡ some h

Found-on :
    (id : OrderId) (b : Book) (h : Handle) (s : Side)
    → h.side ≡ s
    → h.id ≡ id
    → seek id (queue (own_levels s b)) ≡ some h
    → Found id b h
Found-on id b h s e i q = record {
  id_eq = i;
  seek_eq = subst (λ x. seek id (queue (own_levels x b)) ≡ some h) (sym e) q;
}

pub find_handle-Found :
    (id : OrderId) (b : Book) (h : Handle)
    → IsBook b
    → find_handle id b.orders ≡ some h
    → Found id b h
find_handle-Found id b h v e =
    elim (seek_either id (queue b.bids) (queue b.asks) h (sym (v.agrees id) ∙ e)) [
      | inl q ↦ let w = seek-side id buy b.bids v.bids.levels q in Found-on id b h buy w.0 w.1 q
      | inr q ↦ let w = seek-side id sell b.asks v.asks.levels q in Found-on id b h sell w.0 w.1 q
    ]
  where
    seek_either :
        (j : OrderId) (xs ys : List Order) (h : Handle)
        → seek j (xs ++ ys) ≡ some h
        → (seek j xs ≡ some h) ⊎ (seek j ys ≡ some h)
    seek_either j xs ys h e = ground (arith, seek-append j xs ys)

-- A handle of the index leads to a level with its order.
pub deref-Found :
    (id : OrderId) (b : Book) (h : Handle)
    → IsBook b
    → Found id b h
    → (o : Order) × (l : PriceLevel) × (deref h b ≡ some o)
      × (handle_of o ≡ h)
      × (find_level h.price (own_levels h.side b) ≡ some l)
unfolding deref
deref-Found id b h v f =
    let e : seek h.id (queue (own_levels h.side b)) ≡ some h =
      subst (λ i. seek i (queue (own_levels h.side b)) ≡ some h) (sym f.id_eq) f.seek_eq in
    let (l, fl, sl, r) =
      find_level-seek h.id h.side (own_levels h.side b) h (side_from h.side b v) e in
    let (o, fo, ho) = find_id-seek h.id l.orders h sl in (o, l, rw (fl, deref) fo, ho, fl)

abbrev pub without : Side → Handle → Book → Book
without s h b = record (set_own_levels s (remove_order h.price h.id (own_levels s b)) b) {
  orders = erase_handle h.id b.orders;
}

module _ (s : Side) (h : Handle) (b : Book) (v : IsBook b)
    (e : seek h.id (queue (own_levels s b)) ≡ some h) where
  own_gone :
      queue (remove_order h.price h.id (own_levels s b)) ≡ remove_id h.id (queue (own_levels s b))
  own_gone =
      remove_order-queue s h (own_levels s b) (side_from s b v)
        (omega (
          arith,
          Unique-from s b v h.id,
          count_id-append h.id (queue (own_levels s b)) (queue (own_levels (opposite s) b)),
        ))
        e

  other_same :
      remove_id h.id (queue (own_levels (opposite s) b)) ≡ queue (own_levels (opposite s) b)
  other_same = remove_id-absent h.id (queue (own_levels (opposite s) b)) (
      omega (
        arith,
        Unique-from s b v h.id,
        count_id-append h.id (queue (own_levels s b)) (queue (own_levels (opposite s) b)),
        count_id-pos h.id (queue (own_levels s b)) h e,
      ))

  without-resting :
      queue (remove_order h.price h.id (own_levels s b)) ++ queue (own_levels (opposite s) b)
      ≡ remove_id h.id (resting_from s b)
  without-resting =
      ap (λ xs. xs ++ queue (own_levels (opposite s) b)) own_gone
      ∙ sym (
          remove_id-append h.id (queue (own_levels s b)) (queue (own_levels (opposite s) b))
          ∙ ap (◌++◌ (remove_id h.id (queue (own_levels s b)))) other_same)

without-Unique :
    (s : Side) (h : Handle) (b : Book) → IsBook b → Unique (remove_id h.id (resting_from s b))
without-Unique s h b v j =
    omega (arith, Unique-from s b v j, count_id-remove h.id j (resting_from s b))

without-Agrees :
    (s : Side) (h : Handle) (b : Book)
    → IsBook b
    → Agrees (erase_handle h.id b.orders) (remove_id h.id (resting_from s b))
without-Agrees s h b v j =
    find-erase h.id j b.orders
    ∙ (rw (Agrees-from s b v j))
    ∙ sym (seek-remove h.id j (resting_from s b))

without-IsSide :
    (s : Side) (h : Handle) (b : Book)
    → IsBook b
    → IsSide s (remove_order h.price h.id (own_levels s b))
without-IsSide s h b v =
    remove_order-IsSide s h.price h.id (own_levels s b)
      (omega (
        arith,
        Unique-from s b v h.id,
        count_id-append h.id (queue (own_levels s b)) (queue (own_levels (opposite s) b)),
      ))
      (side_from s b v)

without-IsBook :
    (s : Side) (h : Handle) (b : Book)
    → IsBook b
    → seek h.id (queue (own_levels s b)) ≡ some h
    → IsBook (without s h b)
without-IsBook buy h b v e =
    let same = sym (without-resting buy h b v e) in
    book_from buy (without buy h b) (without-IsSide buy h b v) v.asks
      (subst Unique same (without-Unique buy h b v))
      (subst (Agrees (erase_handle h.id b.orders)) same (without-Agrees buy h b v))
without-IsBook sell h b v e =
    let same = sym (without-resting sell h b v e) in
    book_from sell (without sell h b) (without-IsSide sell h b v) v.bids
      (subst Unique same (without-Unique sell h b v))
      (subst (Agrees (erase_handle h.id b.orders)) same (without-Agrees sell h b v))

pub remove_from_book-without :
    (h : Handle) (b : Book) (l : PriceLevel)
    → find_level h.price (own_levels h.side b) ≡ some l
    → remove_from_book h b ≡ without h.side h b
unfolding remove_from_book
remove_from_book-without h b l e = rw (e, remove_from_book)

-- Taking out the order of a handle of the index: what is left of the book, of the orders that rest
-- in it, in the order in which they are matched, and of the index.
pub record Removed (id : OrderId) (b b' : Book) : Type 0 where
  pub valid : IsBook b'
  pub bids_eq : queue b'.bids ≡ remove_id id (queue b.bids)
  pub asks_eq : queue b'.asks ≡ remove_id id (queue b.asks)
  pub index_eq :
      (j : OrderId) → find_handle j b'.orders ≡ (if id == j then none else find_handle j b.orders)

module _ (h : Handle) (b : Book) (v : IsBook b) where
  without-Removed :
      (s : Side) → seek h.id (queue (own_levels s b)) ≡ some h → Removed h.id b (without s h b)
  without-Removed buy e = record {
    valid = without-IsBook buy h b v e;
    bids_eq = own_gone buy h b v e;
    asks_eq = sym (other_same buy h b v e);
    index_eq = λ j. find-erase h.id j b.orders;
  }
  without-Removed sell e = record {
    valid = without-IsBook sell h b v e;
    bids_eq = sym (other_same sell h b v e);
    asks_eq = own_gone sell h b v e;
    index_eq = λ j. find-erase h.id j b.orders;
  }

  pub remove_from_book-Removed : Found h.id b h → Removed h.id b (remove_from_book h b)
  remove_from_book-Removed f =
      let (o, l, d, ho, fl) = deref-Found h.id b h v f in
      rw (remove_from_book-without h b l fl) (without-Removed h.side f.seek_eq)

pub Found-self : (id : OrderId) (b : Book) (h : Handle) → Found id b h → Found h.id b h
Found-self id b h f = record {
  id_eq = refl;
  seek_eq = subst (λ i. seek i (queue (own_levels h.side b)) ≡ some h) (sym f.id_eq) f.seek_eq;
}
