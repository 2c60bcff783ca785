-- ===== src/OrderBook/Levels/Removal.antt =====
-- Taking the order that a handle points to out of its level, in src/core/order_book.cpp.
use orderflow_replay_engine.Prelude.{
  ◌≤◌, ◌≡◌, refl, inl, inr, false, List, [], ◌∷◌, ◌++◌, none, ◌==◌, if◌then◌else◌, arith, int_laws,
  Bool-cases, eqb_ℤ, All, is_empty, pos, ◌+ℤ◌,
}
use orderflow_replay_engine.Types.{OrderId, Order, Side, Price, Quantity, remaining}
use orderflow_replay_engine.OrderBook.Levels.{
  PriceLevel, remove_id, removed_qty, level_remove, remove_order,
}
use orderflow_replay_engine.OrderBook.Levels.Valid.{
  IsResting, IsLevel, IsSide, IsSorted, AllAfter, sum_remaining, queue,
}
use orderflow_replay_engine.OrderBook.Levels.Ids.{seek, count_id, count_id-append}

pub remove_id-absent : (i : OrderId) (os : List Order) → count_id i os ≡ 0 → remove_id i os ≡ os
unfolding remove_id count_id
remove_id-absent i [] h = refl
remove_id-absent i (o ∷ os) h = ground (arith, remove_id-absent i os)

pub remove_id-append :
    (i : OrderId) (xs ys : List Order) → remove_id i (xs ++ ys) ≡ remove_id i xs ++ remove_id i ys
unfolding remove_id
remove_id-append i [] ys = refl
remove_id-append i (x ∷ xs) ys = ground (arith, remove_id-append i xs ys)

pub seek-remove :
    (i j : OrderId) (os : List Order)
    → seek j (remove_id i os) ≡ (if i == j then none else seek j os)
unfolding remove_id seek
seek-remove i j [] = ground arith
seek-remove i j (o ∷ os) = ground (arith, seek-remove i j os)

pub count_id-remove :
    (i j : OrderId) (os : List Order) → count_id j (remove_id i os) ≤ count_id j os
unfolding remove_id count_id
count_id-remove i j [] = omega arith
count_id-remove i j (o ∷ os) = ground (arith, count_id-remove i j os)

removed_qty-absent :
    (i : OrderId) (q : Quantity) (os : List Order) → count_id i os ≡ 0 → removed_qty i q os ≡ q
unfolding removed_qty count_id
removed_qty-absent i q [] h = refl
removed_qty-absent i q (o ∷ os) h = ground (arith, removed_qty-absent i q os)

-- The count of a level that loses an order, where the id is there at most once.
removed_qty-sum :
    (i : OrderId) (os : List Order)
    → count_id i os ≤ 1
    → sum_remaining os ≡ removed_qty i (pos 0) os +ℤ sum_remaining (remove_id i os)
unfolding removed_qty count_id remove_id
removed_qty-sum i [] h = omega int_laws
removed_qty-sum i (o ∷ os) h = elim (Bool-cases (o.id == i)) [
  | inl e ↦
      let absent : count_id i os ≡ 0 = ground arith in
      rw (e, removed_qty-absent i (remaining o) os absent, remove_id-absent i os absent)
  | inr e ↦ rw (e, removed_qty-sum i os (ground arith)) (omega int_laws)
]

All-remove_id {κ} :
    (P : Order → Type κ) (i : OrderId) (os : List Order) → All P os → All P (remove_id i os)
unfolding remove_id
All-remove_id P i [] h = tt
All-remove_id P i (o ∷ os) h = elim (Bool-cases (o.id == i)) [
  | inl e ↦ rw e (All-remove_id P i os h.1)
  | inr e ↦ rw e (h.0, All-remove_id P i os h.1)
]

level_remove-IsLevel :
    (s : Side) (i : OrderId) (l : PriceLevel)
    → IsLevel s l
    → count_id i l.orders ≤ 1
    → is_empty (level_remove i l).orders ≡ false
    → IsLevel s (level_remove i l)
unfolding level_remove
level_remove-IsLevel s i l v u n = record {
  nonempty = n;
  counted = rw (v.counted, removed_qty-sum i l.orders u) (omega int_laws);
  resting = All-remove_id (IsResting s l.price) i l.orders v.resting;
}

remove_order-AllAfter :
    (s : Side) (q p : Price) (i : OrderId) (ls : List PriceLevel)
    → AllAfter s q ls
    → AllAfter s q (remove_order p i ls)
unfolding remove_order level_remove
remove_order-AllAfter s q p i [] h = tt
remove_order-AllAfter s q p i (l ∷ ls) h = elim (Bool-cases (eqb_ℤ l.price p)) [
  | inr e ↦ rw e (h.0, remove_order-AllAfter s q p i ls h.1)
  | inl e ↦ elim (Bool-cases (is_empty (remove_id i l.orders))) [
    | inl k ↦ rw (e, k) h.1
    | inr k ↦ rw (e, k) h
  ]
]

remove_order-IsSorted :
    (s : Side) (p : Price) (i : OrderId) (ls : List PriceLevel)
    → IsSorted s ls
    → IsSorted s (remove_order p i ls)
unfolding remove_order level_remove
remove_order-IsSorted s p i [] h = tt
remove_order-IsSorted s p i (l ∷ ls) h = elim (Bool-cases (eqb_ℤ l.price p)) [
  | inr e ↦ rw e (remove_order-AllAfter s l.price p i ls h.0, remove_order-IsSorted s p i ls h.1)
  | inl e ↦ elim (Bool-cases (is_empty (remove_id i l.orders))) [
    | inl k ↦ rw (e, k) h.1
    | inr k ↦ rw (e, k) h
  ]
]

remove_order-levels :
    (s : Side) (p : Price) (i : OrderId) (ls : List PriceLevel)
    → count_id i (queue ls) ≤ 1
    → All (IsLevel s) ls
    → All (IsLevel s) (remove_order p i ls)
unfolding remove_order
remove_order-levels s p i [] u h = tt
remove_order-levels s p i (l ∷ ls) u h =
    let split = count_id-append i l.orders (queue ls) in
    elim (Bool-cases (eqb_ℤ l.price p)) [
      | inr e ↦ rw e (h.0, remove_order-levels s p i ls (omega (arith, u, split)) h.1)
      | inl e ↦ elim (Bool-cases (is_empty (level_remove i l).orders)) [
        | inl k ↦ rw (e, k) h.1
        | inr k ↦ rw (e, k) (level_remove-IsLevel s i l h.0 (omega (arith, u, split)) k, h.1)
      ]
    ]

pub remove_order-IsSide :
    (s : Side) (p : Price) (i : OrderId) (ls : List PriceLevel)
    → count_id i (queue ls) ≤ 1
    → IsSide s ls
    → IsSide s (remove_order p i ls)
remove_order-IsSide s p i ls u v = record {
  levels = remove_order-levels s p i ls u v.levels;
  sorted = remove_order-IsSorted s p i ls v.sorted;
}
