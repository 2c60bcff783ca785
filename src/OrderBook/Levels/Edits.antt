-- ===== src/OrderBook/Levels/Edits.antt =====
-- Adding an order to a side of the book and taking one out keep the side well formed.
use orderflow_replay_engine.Prelude.{
  ◌≡◌, refl, sym, inl, inr, true, false, List, [], ◌∷◌, ◌++◌, eqb_ℤ, is_empty, All, All-append,
  int_laws, eqb_ℤ→eq, Bool-cases, subst,
}
use orderflow_replay_engine.Types.{Price, Side, Order}
use orderflow_replay_engine.OrderBook.Levels.{
  PriceLevel, before, level_add, fresh_level, insert_order,
}
use orderflow_replay_engine.OrderBook.Levels.Valid.{
  IsResting, IsLevel, IsSide, IsSorted, AllAfter, AllAfter-trans, sum_remaining,
  sum_remaining-append, before_connex,
}

is_empty-snoc {ℓ} : {A : Type ℓ} (xs : List A) (y : A) → is_empty (xs ++ y ∷ []) ≡ false
is_empty-snoc [] y = refl
is_empty-snoc (x ∷ xs) y = refl

level_add-IsLevel :
    (s : Side) (l : PriceLevel) (o : Order)
    → l.total_qty ≡ sum_remaining l.orders
    → All (IsResting s l.price) l.orders
    → IsResting s l.price o
    → IsLevel s (level_add l o)
unfolding level_add
level_add-IsLevel s l o c r h = record {
  nonempty = is_empty-snoc l.orders o;
  counted = rw (sum_remaining-append l.orders (o ∷ []), c) (omega int_laws);
  resting = All-append (IsResting s l.price) l.orders (o ∷ []) r (h, tt);
}

insert_order-AllAfter :
    (s : Side) (p : Price) (o : Order) (ls : List PriceLevel)
    → before s p o.price ≡ true
    → AllAfter s p ls
    → AllAfter s p (insert_order s o ls)
unfolding insert_order
insert_order-AllAfter s p o [] h a = (h, tt)
insert_order-AllAfter s p o (l ∷ ls) h a = elim (Bool-cases (eqb_ℤ l.price o.price)) [
  | inl e ↦ rw e a
  | inr e ↦ elim (Bool-cases (before s o.price l.price)) [
    | inl k ↦ rw (e, k) (h, a)
    | inr k ↦ rw (e, k) (a.0, insert_order-AllAfter s p o ls h a.1)
  ]
]

insert_order-IsSorted :
    (s : Side) (o : Order) (ls : List PriceLevel) → IsSorted s ls → IsSorted s (insert_order s o ls)
unfolding insert_order
insert_order-IsSorted s o [] a = (tt, tt)
insert_order-IsSorted s o (l ∷ ls) a = elim (Bool-cases (eqb_ℤ l.price o.price)) [
  | inl e ↦ rw e a
  | inr e ↦ elim (Bool-cases (before s o.price l.price)) [
    | inl k ↦ rw (e, k) ((k, AllAfter-trans s o.price l.price ls k a.0), a)
    | inr k ↦
        rw (e, k)
          (
            insert_order-AllAfter s l.price o ls (before_connex s l.price o.price e k) a.0,
            insert_order-IsSorted s o ls a.1,
          )
  ]
]

insert_order-levels :
    (s : Side) (o : Order) (ls : List PriceLevel)
    → IsResting s o.price o
    → All (IsLevel s) ls
    → All (IsLevel s) (insert_order s o ls)
unfolding insert_order
insert_order-levels s o [] h a = (level_add-IsLevel s (fresh_level o.price) o refl tt h, tt)
insert_order-levels s o (l ∷ ls) h a = elim (Bool-cases (eqb_ℤ l.price o.price)) [
  | inl e ↦ rw e (
    level_add-IsLevel s l o a.0.counted a.0.resting
        (subst (λ p. IsResting s p o) (sym (eqb_ℤ→eq l.price o.price e)) h),
    a.1,
  )
  | inr e ↦ elim (Bool-cases (before s o.price l.price)) [
    | inl k ↦ rw (e, k) (level_add-IsLevel s (fresh_level o.price) o refl tt h, a)
    | inr k ↦ rw (e, k) (a.0, insert_order-levels s o ls h a.1)
  ]
]

pub insert_order-IsSide :
    (s : Side) (o : Order) (ls : List PriceLevel)
    → IsResting s o.price o
    → IsSide s ls
    → IsSide s (insert_order s o ls)
insert_order-IsSide s o ls h v = record {
  levels = insert_order-levels s o ls h v.levels;
  sorted = insert_order-IsSorted s o ls v.sorted;
}
