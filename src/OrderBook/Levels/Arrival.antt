-- ===== src/OrderBook/Levels/Arrival.antt =====
-- Where `add_to_book` of src/core/order_book.cpp puts an order, in the order in which a side is matched.
use mathlib.Core.List.{append_assoc}
use orderflow_replay_engine.Prelude.{
  ◌≡◌, refl, sym, ap, ◌∙◌, inl, inr, true, false, List, [], ◌∷◌, ◌++◌, eqb_ℤ, eqb_ℤ→eq, All,
  All-map, Bool-cases, subst, is_empty, arith, if◌then◌else◌,
}
use orderflow_replay_engine.Types.{Price, Side, buy, sell, Order}
use orderflow_replay_engine.OrderBook.Levels.{
  PriceLevel, before, level_add, fresh_level, insert_order,
}
use orderflow_replay_engine.OrderBook.Levels.Valid.{
  IsResting, IsLevel, IsSide, AllAfter, AllAfter-trans, queue,
}

-- The order goes in front of the first order with a price that comes after its own: behind all orders
-- of a better price, and behind those of the same price, which were there before it.
unfoldable pub enqueue : Side → Order → List Order → List Order
enqueue s o [] = o ∷ []
enqueue s o (x ∷ xs) =
    let later = enqueue s o xs in if before s o.price x.price then o ∷ x ∷ xs else x ∷ later

before_irrefl : (s : Side) (p : Price) → before s p p ≡ false
unfolding before
before_irrefl buy p = ground arith
before_irrefl sell p = ground arith

-- Orders whose price does not come after that of `o` stay in front of it.
enqueue-append :
    (s : Side) (o : Order) (xs ys : List Order)
    → All (λ x. before s o.price x.price ≡ false) xs
    → enqueue s o (xs ++ ys) ≡ xs ++ enqueue s o ys
unfolding enqueue
enqueue-append s o [] ys h = refl
enqueue-append s o (x ∷ xs) ys h = rw h.0 (ap (λ zs. x ∷ zs) (enqueue-append s o xs ys h.1))

enqueue-front :
    (s : Side) (o : Order) (ls : List PriceLevel)
    → All (IsLevel s) ls
    → AllAfter s o.price ls
    → enqueue s o (queue ls) ≡ o ∷ queue ls
unfolding enqueue
enqueue-front s o [] h a = refl
enqueue-front s o (l ∷ ls) h a = in_front l.orders h.0.nonempty h.0.resting
  where
    in_front :
        (os : List Order)
        → is_empty os ≡ false
        → All (IsResting s l.price) os
        → enqueue s o (os ++ queue ls) ≡ o ∷ (os ++ queue ls)
    in_front [] e r = absurd (ground arith)
    in_front (x ∷ xs) e r =
        let b : before s o.price x.price ≡ true =
          subst (λ p. before s o.price p ≡ true) (sym r.0.price_eq) a.0 in
        rw (enqueue, b) refl

level_past :
    (s : Side) (o : Order) (p : Price) (os : List Order)
    → before s o.price p ≡ false
    → All (IsResting s p) os
    → All (λ x. before s o.price x.price ≡ false) os
level_past s o p os b =
    All-map (IsResting s p) (λ x. before s o.price x.price ≡ false)
      (λ x r. subst (λ q. before s o.price q ≡ false) (sym r.price_eq) b) os

-- On a well formed side, the order is put where the description puts it.
pub insert_order-enqueue :
    (s : Side) (o : Order) (ls : List PriceLevel)
    → IsSide s ls
    → queue (insert_order s o ls) ≡ enqueue s o (queue ls)
unfolding insert_order level_add fresh_level enqueue
insert_order-enqueue s o [] v = refl
insert_order-enqueue s o (l ∷ ls) v = elim (Bool-cases (eqb_ℤ l.price o.price)) [
  | inl e ↦
      let same = eqb_ℤ→eq l.price o.price e in
      let past : before s o.price l.price ≡ false =
        subst (λ p. before s o.price p ≡ false) (sym same) (before_irrefl s o.price) in
      let after = subst (λ p. AllAfter s p ls) same v.sorted.0 in
      rw e (
        append_assoc l.orders (o ∷ []) (queue ls)
        ∙ sym (
            enqueue-append s o l.orders (queue ls)
              (level_past s o l.price l.orders past v.levels.0.resting)
            ∙ ap (λ zs. l.orders ++ zs) (enqueue-front s o ls v.levels.1 after)))
  | inr e ↦ elim (Bool-cases (before s o.price l.price)) [
    | inl k ↦
        rw (e, k)
          (sym (
            enqueue-front s o (l ∷ ls) v.levels
              (k, AllAfter-trans s o.price l.price ls k v.sorted.0)))
    | inr k ↦
        rw (e, k)
          (ap (λ zs. l.orders ++ zs)
              (insert_order-enqueue s o ls (record { levels = v.levels.1; sorted = v.sorted.1 }))
            ∙ sym (
                enqueue-append s o l.orders (queue ls)
                  (level_past s o l.price l.orders k v.levels.0.resting)))
  ]
]
