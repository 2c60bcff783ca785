-- ===== src/OrderBook/Levels/Lookup.antt =====
-- Finding the order that a handle points to, and what is left of the queue when it goes.
use orderflow_replay_engine.Prelude.{
  ◌≤◌, ◌≡◌, refl, sym, ◌∙◌, ap, ◌⊎◌, inl, inr, true, false, List, [], ◌∷◌, ◌++◌, Option, none, some,
  ◌==◌, ==_iff, arith, Bool-cases, eqb_ℤ, eqb_ℤ→eq, eqb_ℤ_refl, All, is_empty, subst,
}
use orderflow_replay_engine.Types.{OrderId, Order, Side, buy, sell, Price}
use orderflow_replay_engine.OrderBook.Levels.{
  Handle, PriceLevel, before, remove_id, level_remove, remove_order, find_level, find_id,
}
use orderflow_replay_engine.OrderBook.Levels.Valid.{IsResting, IsLevel, IsSide, AllAfter, queue}
use orderflow_replay_engine.OrderBook.Levels.Ids.{
  handle_of, seek, count_id, seek-append, count_id-append, count_id-zero, count_id-pos, or_else,
}
use orderflow_replay_engine.OrderBook.Levels.Removal.{remove_id-absent, remove_id-append}

-- A handle of an order on side `s` at price `p`.
pub record Points (j : OrderId) (s : Side) (p : Price) (h : Handle) : Type 0 where
  pub id_eq : h.id ≡ j
  pub side_eq : h.side ≡ s
  pub price_eq : h.price ≡ p

pub seek-Points :
    (j : OrderId) (s : Side) (p : Price) (os : List Order) {h : Handle}
    → All (IsResting s p) os
    → seek j os ≡ some h
    → Points j s p h
unfolding seek
seek-Points j s p [] r e = absurd (ground arith)
seek-Points j s p (o ∷ os) {h} r e = elim (Bool-cases (o.id == j)) [
  | inl k ↦
      let same : some (handle_of o) ≡ some h = ground arith in
      record {
        id_eq = ground (arith, ==_iff o.id j);
        side_eq = ground (arith, r.0.side_eq);
        price_eq = ground (arith, r.0.price_eq);
      }
  | inr k ↦ seek-Points j s p os r.1 (ground arith)
]

or_else_cases :
    {a b : Option Handle} {h : Handle}
    → or_else a b ≡ some h
    → (a ≡ some h) ⊎ ((a ≡ none) × (b ≡ some h))
or_else_cases {a = none} e = inr (refl, e)
or_else_cases {a = some x} e = inl e

-- In which level of a side the order with an id rests.
pub seek_levels :
    (j : OrderId) (l : PriceLevel) (ls : List PriceLevel) {h : Handle}
    → seek j (queue (l ∷ ls)) ≡ some h
    → (seek j l.orders ≡ some h) ⊎ ((seek j l.orders ≡ none) × (seek j (queue ls) ≡ some h))
seek_levels j l ls e = or_else_cases (sym (seek-append j l.orders (queue ls)) ∙ e)

before_irrefl : (s : Side) (p : Price) → before s p p ≡ false
unfolding before
before_irrefl buy p = ground arith
before_irrefl sell p = ground arith

apart : (s : Side) (p q : Price) → before s p q ≡ true → eqb_ℤ p q ≡ false
apart s p q b = elim (Bool-cases (eqb_ℤ p q)) [
  | inl e ↦
      let b' : before s q q ≡ true = subst (λ x. before s x q ≡ true) (eqb_ℤ→eq p q e) b in
      absurd (ground (arith, before_irrefl s q))
  | inr e ↦ e
]

seek-AllAfter :
    (j : OrderId) (s : Side) (p : Price) (ls : List PriceLevel) {h : Handle}
    → All (IsLevel s) ls
    → AllAfter s p ls
    → seek j (queue ls) ≡ some h
    → before s p h.price ≡ true
unfolding seek
seek-AllAfter j s p [] v a e = absurd (ground arith)
seek-AllAfter j s p (l ∷ ls) v a e = elim (seek_levels j l ls e) [
  | inl e' ↦ rw (seek-Points j s l.price l.orders v.0.resting e').price_eq a.0
  | inr (_, e') ↦ seek-AllAfter j s p ls v.1 a.1 e'
]

pub seek-side :
    (j : OrderId) (s : Side) (ls : List PriceLevel) {h : Handle}
    → All (IsLevel s) ls
    → seek j (queue ls) ≡ some h
    → (h.side ≡ s) × (h.id ≡ j)
unfolding seek
seek-side j s [] v e = absurd (ground arith)
seek-side j s (l ∷ ls) v e = elim (seek_levels j l ls e) [
  | inl e' ↦ let pt = seek-Points j s l.price l.orders v.0.resting e' in (pt.side_eq, pt.id_eq)
  | inr (_, e') ↦ seek-side j s ls v.1 e'
]

-- A handle of the side leads to a level, which has the order.
pub find_level-seek :
    (j : OrderId) (s : Side) (ls : List PriceLevel) (h : Handle)
    → IsSide s ls
    → seek j (queue ls) ≡ some h
    → (l : PriceLevel) × (find_level h.price ls ≡ some l)
      × (seek j l.orders ≡ some h)
      × All (IsResting s l.price) l.orders
unfolding seek find_level
find_level-seek j s [] h v e = absurd (ground arith)
find_level-seek j s (l ∷ ls) h v e = elim (seek_levels j l ls e) [
  | inl e' ↦
      let pt = seek-Points j s l.price l.orders v.levels.0.resting e' in
      (l, rw (pt.price_eq, eqb_ℤ_refl l.price), e', v.levels.0.resting)
  | inr (_, e') ↦
      let after = seek-AllAfter j s l.price ls v.levels.1 v.sorted.0 e' in
      let (l', f, g, r) =
        find_level-seek j s ls h (record { levels = v.levels.1; sorted = v.sorted.1 }) e' in
      (l', rw (apart s l.price h.price after) f, g, r)
]

pub find_id-seek :
    (j : OrderId) (os : List Order) (h : Handle)
    → seek j os ≡ some h
    → (o : Order) × (find_id j os ≡ some o) × (handle_of o ≡ h)
unfolding seek find_id
find_id-seek j [] h e = absurd (ground arith)
find_id-seek j (o ∷ os) h e = elim (Bool-cases (o.id == j)) [
  | inl k ↦ (o, rw k, ground arith)
  | inr k ↦ let (o', f, g) = find_id-seek j os h (ground arith) in (o', rw k f, g)
]

remove_order-here :
    (p : Price) (i : OrderId) (l : PriceLevel) (ls : List PriceLevel)
    → eqb_ℤ l.price p ≡ true
    → queue (remove_order p i (l ∷ ls)) ≡ remove_id i l.orders ++ queue ls
unfolding remove_order level_remove
remove_order-here p i l ls e = elim (Bool-cases (is_empty (remove_id i l.orders))) [
  | inl k ↦ rw (e, k) (sym (ap (λ xs. xs ++ queue ls) (nothing (remove_id i l.orders) k)))
  | inr k ↦ rw (e, k)
]
  where
    nothing : (xs : List Order) → is_empty xs ≡ true → xs ≡ []
    nothing [] k = refl
    nothing (x ∷ xs) k = absurd (ground arith)

remove_order-there :
    (p : Price) (i : OrderId) (l : PriceLevel) (ls : List PriceLevel)
    → eqb_ℤ l.price p ≡ false
    → queue (remove_order p i (l ∷ ls)) ≡ l.orders ++ queue (remove_order p i ls)
unfolding remove_order
remove_order-there p i l ls e = rw e

-- Removing the order that a handle points to takes it out of the queue and leaves the others as
-- they stand.
pub remove_order-queue :
    (s : Side) (h : Handle) (ls : List PriceLevel)
    → IsSide s ls
    → count_id h.id (queue ls) ≤ 1
    → seek h.id (queue ls) ≡ some h
    → queue (remove_order h.price h.id ls) ≡ remove_id h.id (queue ls)
unfolding seek
remove_order-queue s h [] v u e = absurd (ground arith)
remove_order-queue s h (l ∷ ls) v u e =
    let split = count_id-append h.id l.orders (queue ls) in
    elim (seek_levels h.id l ls e) [
      | inl e' ↦
          let pt = seek-Points h.id s l.price l.orders v.levels.0.resting e' in
          let here : eqb_ℤ l.price h.price ≡ true = rw pt.price_eq (eqb_ℤ_refl l.price) in
          let later : count_id h.id (queue ls) ≡ 0 =
            omega (arith, u, split, count_id-pos h.id l.orders h e') in
          remove_order-here h.price h.id l ls here
          ∙ sym (
              remove_id-append h.id l.orders (queue ls)
              ∙ ap (◌++◌ (remove_id h.id l.orders)) (remove_id-absent h.id (queue ls) later))
      | inr (n, e') ↦
          let after = seek-AllAfter h.id s l.price ls v.levels.1 v.sorted.0 e' in
          let stays = remove_id-absent h.id l.orders (count_id-zero h.id l.orders n) in
          let rest : IsSide s ls = record { levels = v.levels.1; sorted = v.sorted.1 } in
          remove_order-there h.price h.id l ls (apart s l.price h.price after)
          ∙ ap (◌++◌ l.orders) (remove_order-queue s h ls rest (omega (arith, u, split)) e')
          ∙ sym (
              remove_id-append h.id l.orders (queue ls)
              ∙ ap (λ xs. xs ++ remove_id h.id (queue ls)) stays)
    ]
