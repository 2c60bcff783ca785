-- ===== src/OrderBook/Levels/Ids.antt =====
-- The index `orders_` of src/core/order_book.cpp against the orders that rest in the book.
use orderflow_replay_engine.Prelude.{
  ℕ, ◌+◌, ◌≤◌, ◌≡◌, refl, sym, ◌∙◌, ap, inl, inr, List, [], ◌∷◌, ◌++◌, Option, none, some, ◌==◌,
  if◌then◌else◌, arith, Bool-cases, eqb_ℤ,
}
use mathlib.Core.List.{append_assoc}
use orderflow_replay_engine.Types.{OrderId, Order, Side}
use orderflow_replay_engine.OrderBook.Levels.{
  before, Handle, PriceLevel, find_handle, erase_handle, insert_handle, insert_order,
}
use orderflow_replay_engine.OrderBook.Levels.Valid.{queue}

abbrev pub handle_of : Order → Handle
handle_of o = record { id = o.id; side = o.side; price = o.price }

-- The handle of the first of the orders with an id.
unfoldable pub seek : OrderId → List Order → Option Handle
seek j [] = none
seek j (o ∷ os) = if o.id == j then some (handle_of o) else seek j os

unfoldable pub count_id : OrderId → List Order → ℕ
count_id j [] = 0
count_id j (o ∷ os) = (if o.id == j then 1 else 0) + count_id j os

-- The index has the handles of these orders, and no two of them share an id.
abbrev pub Agrees : List Handle → List Order → Type 0
Agrees hs os = (j : OrderId) → find_handle j hs ≡ seek j os

abbrev pub Unique : List Order → Type 0
Unique os = (j : OrderId) → count_id j os ≤ 1

abbrev pub or_else : Option Handle → Option Handle → Option Handle
or_else none y = y
or_else (some x) y = some x

pub seek-append :
    (j : OrderId) (xs ys : List Order) → seek j (xs ++ ys) ≡ or_else (seek j xs) (seek j ys)
unfolding seek
seek-append j [] ys = refl
seek-append j (x ∷ xs) ys = ground (arith, seek-append j xs ys)

pub count_id-append :
    (j : OrderId) (xs ys : List Order) → count_id j (xs ++ ys) ≡ count_id j xs + count_id j ys
unfolding count_id
count_id-append j [] ys = omega arith
count_id-append j (x ∷ xs) ys = omega (arith, count_id-append j xs ys)

pub seek-none : (j : OrderId) (os : List Order) → count_id j os ≡ 0 → seek j os ≡ none
unfolding seek count_id
seek-none j [] h = refl
seek-none j (o ∷ os) h = ground (arith, seek-none j os)

pub count_id-zero : (j : OrderId) (os : List Order) → seek j os ≡ none → count_id j os ≡ 0
unfolding seek count_id
count_id-zero j [] h = refl
count_id-zero j (o ∷ os) h = ground (arith, count_id-zero j os)

pub count_id-pos :
    (j : OrderId) (os : List Order) (h : Handle) → seek j os ≡ some h → 1 ≤ count_id j os
unfolding seek count_id
count_id-pos j [] h e = absurd (ground arith)
count_id-pos j (o ∷ os) h e = ground (arith, count_id-pos j os h)

-- Where no id is there twice the order of the two parts does not matter.
pub seek_comm :
    (j : OrderId) (xs ys : List Order) → Unique (xs ++ ys) → seek j (xs ++ ys) ≡ seek j (ys ++ xs)
seek_comm j xs ys u =
    rw (seek-append j xs ys, seek-append j ys xs) (go (seek j xs) (seek j ys) refl refl)
  where
    go : (a b : Option Handle) → seek j xs ≡ a → seek j ys ≡ b → or_else a b ≡ or_else b a
    go none none p q = refl
    go none (some y) p q = refl
    go (some x) none p q = refl
    go (some x) (some y) p q =
        absurd (
          omega (arith, u j, count_id-append j xs ys, count_id-pos j xs x p, count_id-pos j ys y q))

pub Unique-comm : (xs ys : List Order) → Unique (xs ++ ys) → Unique (ys ++ xs)
Unique-comm xs ys u j = omega (arith, u j, count_id-append j xs ys, count_id-append j ys xs)

pub Agrees-comm :
    (hs : List Handle) (xs ys : List Order)
    → Unique (xs ++ ys)
    → Agrees hs (xs ++ ys)
    → Agrees hs (ys ++ xs)
Agrees-comm hs xs ys u a j = a j ∙ seek_comm j xs ys u

pub find-erase :
    (i j : OrderId) (hs : List Handle)
    → find_handle j (erase_handle i hs) ≡ (if i == j then none else find_handle j hs)
unfolding find_handle erase_handle
find-erase i j [] = ground arith
find-erase i j (h ∷ hs) = ground (arith, find-erase i j hs)

pub find-insert :
    (h : Handle) (j : OrderId) (hs : List Handle)
    → find_handle j (insert_handle h hs) ≡ (if h.id == j then some h else find_handle j hs)
unfolding find_handle insert_handle
find-insert h j hs = ground (arith, find-erase h.id j hs)

-- An order that leaves the front of the queue, and its id that leaves the index.
pub erase-Agrees :
    (hs : List Handle) (o : Order) (os : List Order)
    → Agrees hs (o ∷ os)
    → Unique (o ∷ os)
    → Agrees (erase_handle o.id hs) os
unfolding seek count_id
erase-Agrees hs o os a u j = ground (arith, find-erase o.id j hs, a j, u j, seek-none j os)

pub Unique-tail : (o : Order) (os : List Order) → Unique (o ∷ os) → Unique os
unfolding count_id
Unique-tail o os u j = omega (arith, u j)

-- A new order goes in between the orders that are there.
pub insert_order-splits :
    (s : Side) (o : Order) (ls : List PriceLevel)
    → (pre : List Order) × (post : List Order) × (queue ls ≡ pre ++ post)
      × (queue (insert_order s o ls) ≡ pre ++ (o ∷ post))
unfolding insert_order
insert_order-splits s o [] = ([], [], refl, refl)
insert_order-splits s o (l ∷ ls) = elim (Bool-cases (eqb_ℤ l.price o.price)) [
  | inl e ↦ (l.orders, queue ls, refl, rw e (append_assoc l.orders (o ∷ []) (queue ls)))
  | inr e ↦ elim (Bool-cases (before s o.price l.price)) [
    | inl k ↦ ([], queue (l ∷ ls), refl, rw (e, k))
    | inr k ↦
        let (pre, post, p, q) = insert_order-splits s o ls in
        (
          l.orders ++ pre,
          post,
          ap (◌++◌ l.orders) p ∙ sym (append_assoc l.orders pre post),
          rw (e, k) (ap (◌++◌ l.orders) q ∙ sym (append_assoc l.orders pre (o ∷ post))),
        )
  ]
]

module _ (s : Side) (o : Order) (ls : List PriceLevel) (tail : List Order) (j : OrderId) where
  pub count_id-insert :
      count_id j (queue (insert_order s o ls) ++ tail)
      ≡ (if o.id == j then 1 else 0) + count_id j (queue ls ++ tail)
  unfolding count_id
  count_id-insert =
      let (pre, post, p, q) = insert_order-splits s o ls in
      rw (p, q)
        (omega (
          arith,
          count_id-append j (pre ++ (o ∷ post)) tail,
          count_id-append j (pre ++ post) tail,
          count_id-append j pre (o ∷ post),
          count_id-append j pre post,
        ))

  pub seek-insert :
      count_id o.id (queue ls ++ tail) ≡ 0
      → seek j (queue (insert_order s o ls) ++ tail)
        ≡ (if o.id == j then some (handle_of o) else seek j (queue ls ++ tail))
  unfolding seek
  seek-insert absent =
      let (pre, post, p, q) = insert_order-splits s o ls in
      rw (p, q)
        (ground (
          arith,
          seek-append j (pre ++ (o ∷ post)) tail,
          seek-append j (pre ++ post) tail,
          seek-append j pre (o ∷ post),
          seek-append j pre post,
          seek-none j pre,
          (rw p at absent),
          count_id-append o.id (pre ++ post) tail,
          count_id-append o.id pre post,
        ))
