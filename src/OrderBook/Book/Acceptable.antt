-- ===== src/OrderBook/Book/Acceptable.antt =====
-- What the fill-or-kill check of src/core/order_book.cpp counts, described without its loop.
use orderflow_replay_engine.Prelude.{
  ◌≡◌, refl, ◌∙◌, inl, inr, ◌↔◌, true, false, List, [], ◌∷◌, ◌++◌, ◌+ℤ◌, ◌≤ℤ◌, pos, int_laws, arith,
  All, All-map, eq→parts, Bool-cases, if◌then◌else◌,
}
use orderflow_replay_engine.Types.{Price, Quantity, Side, buy, sell, Order, fok, remaining}
use orderflow_replay_engine.OrderBook.Levels.{PriceLevel, before}
use orderflow_replay_engine.OrderBook.Levels.Valid.{
  IsResting, IsLevel, IsSide, sum_remaining, queue,
}
use orderflow_replay_engine.OrderBook.Matching.{available_qty, is_worse}
use orderflow_replay_engine.OrderBook.Matching.FillOrKill.{counted}
use orderflow_replay_engine.OrderBook.Book.{opposite}

-- What is left, in all, of the orders at prices that a limit `own` of an order of side `s` allows.
pub acceptable : Side → Price → List Order → Quantity
acceptable s own [] = pos 0
acceptable s own (r ∷ rs) =
    if is_worse s own r.price then acceptable s own rs else remaining r +ℤ acceptable s own rs

acceptable-within :
    (o : Order) (s : Side) (p : Price) (os rest : List Order)
    → All (IsResting s p) os
    → is_worse o.side o.price p ≡ false
    → acceptable o.side o.price (os ++ rest) ≡ sum_remaining os +ℤ acceptable o.side o.price rest
unfolding acceptable
acceptable-within o s p [] rest a w = omega int_laws
acceptable-within o s p (r ∷ os) rest a w =
    rw (a.0.price_eq, w, acceptable-within o s p os rest a.1 w) (omega int_laws)

acceptable-worse :
    (o : Order) (s : Side) (p : Price) (os rest : List Order)
    → All (IsResting s p) os
    → is_worse o.side o.price p ≡ true
    → acceptable o.side o.price (os ++ rest) ≡ acceptable o.side o.price rest
unfolding acceptable
acceptable-worse o s p [] rest a w = refl
acceptable-worse o s p (r ∷ os) rest a w =
    rw (a.0.price_eq, w) (acceptable-worse o s p os rest a.1 w)

worse_after :
    (s : Side) (own p q : Price)
    → is_worse s own p ≡ true
    → before (opposite s) p q ≡ true
    → is_worse s own q ≡ true
unfolding is_worse before
worse_after buy own p q h k = ground arith
worse_after sell own p q h k = ground arith

all_worse :
    (o : Order) (ls : List PriceLevel)
    → All (IsLevel (opposite o.side)) ls
    → All (λ (l : PriceLevel). is_worse o.side o.price l.price ≡ true) ls
    → acceptable o.side o.price (queue ls) ≡ pos 0
unfolding acceptable
all_worse o [] v w = refl
all_worse o (l ∷ ls) v w =
    acceptable-worse o (opposite o.side) l.price l.orders (queue ls) v.0.resting w.0
    ∙ all_worse o ls v.1 w.1

acceptable_nonneg :
    (o : Order) (s : Side) (ls : List PriceLevel)
    → All (IsLevel s) ls
    → pos 0 ≤ℤ acceptable o.side o.price (queue ls)
unfolding acceptable
acceptable_nonneg o s [] v = omega arith
acceptable_nonneg o s (l ∷ ls) v = elim (Bool-cases (is_worse o.side o.price l.price)) [
  | inl w ↦
      rw (acceptable-worse o s l.price l.orders (queue ls) v.0.resting w)
        (acceptable_nonneg o s ls v.1)
  | inr w ↦
      rw (acceptable-within o s l.price l.orders (queue ls) v.0.resting w)
        (omega (int_laws, acceptable_nonneg o s ls v.1, sum_nonneg s l.price l.orders v.0.resting))
]
  where
    sum_nonneg :
        (s : Side) (p : Price) (os : List Order)
        → All (IsResting s p) os
        → pos 0 ≤ℤ sum_remaining os
    sum_nonneg s p [] a = omega arith
    sum_nonneg s p (r ∷ os) a = omega (int_laws, a.0.some_left, sum_nonneg s p os a.1)

-- The count reaches the wanted quantity exactly if the acceptable orders have it.
pub available_iff :
    (o : Order) (acc : Quantity) (ls : List PriceLevel)
    → o.type ≡ fok
    → IsSide (opposite o.side) ls
    → (o.qty ≤ℤ available_qty o acc ls) ↔ (o.qty ≤ℤ acc +ℤ acceptable o.side o.price (queue ls))
unfolding available_qty acceptable
available_iff o acc [] e v = (λ h. omega int_laws, λ h. omega int_laws)
available_iff o acc (l ∷ ls) e v =
    let after = v.levels.0 in
    let v' : IsSide (opposite o.side) ls = record { levels = v.levels.1; sorted = v.sorted.1 } in
    let more = λ (w : is_worse o.side o.price l.price ≡ false).
      acceptable-within o (opposite o.side) l.price l.orders (queue ls) v.levels.0.resting w in
    let t = v.levels.0.counted in
    elim (counted o acc l ls e) [
      | inl (w, a) ↦
          let later =
            All-map _ (λ (m : PriceLevel). is_worse o.side o.price m.price ≡ true)
              (λ m k. worse_after o.side o.price l.price m.price w k) ls v.sorted.0 in
          let none = all_worse o (l ∷ ls) v.levels (w, later) in
          rw (a, none) (λ h. omega int_laws, λ h. omega int_laws)
      | inr (inl (w, k, a)) ↦
          rw (a, more w)
            (
              λ _.
                  omega (int_laws, acceptable_nonneg o (opposite o.side) ls v.levels.1, eq→parts t),
              λ _. k,
            )
      | inr (inr (w, a)) ↦
          let onward = available_iff o (acc +ℤ l.total_qty) ls e v' in
          rw (a, more w)
            (
              λ h. let k = onward.0 h in omega (int_laws, eq→parts t, k),
              λ h. onward.1 (omega (int_laws, eq→parts t)),
            )
    ]
