-- ===== src/OrderBook/Matching/Index.antt =====
-- Matching in src/core/order_book.cpp keeps the index `orders_` in step with the resting orders.
use mathlib.Core.List.{append_assoc}
use orderflow_replay_engine.Prelude.{
  ℕ, ◌≤◌, ◌≡◌, sym, inl, inr, true, List, [], ◌∷◌, ◌++◌, String, ◌-ℤ◌, arith, All, is_empty, subst,
}
use orderflow_replay_engine.Types.{OrderId, Price, Quantity, Timestamp, Side, Order, remaining}
use orderflow_replay_engine.OrderBook.Levels.{Handle, PriceLevel}
use orderflow_replay_engine.OrderBook.Levels.Valid.{IsResting, IsSide, queue}
use orderflow_replay_engine.OrderBook.Levels.Ids.{
  seek, count_id, Agrees, Unique, erase-Agrees, Unique-tail,
}
use orderflow_replay_engine.OrderBook.Matching.{
  Cursor, Filled, Swept, fill, trade_with, fill_level, sweep,
}
use orderflow_replay_engine.OrderBook.Matching.Steps.{round, cursor_after, part_taken}
use orderflow_replay_engine.OrderBook.Matching.Fills.{IsLive, fill_level-FillResult}
use orderflow_replay_engine.OrderBook.Matching.Sweep.{visit, front, passed, halted, front_done}

-- The index agrees with `new`, which has no id that `old` has not.
pub record InStep (hs : List Handle) (old new : List Order) : Type 0 where
  pub agrees : Agrees hs new
  pub fewer : (j : OrderId) → count_id j new ≤ count_id j old

InStep-refl : (hs : List Handle) (os : List Order) → Agrees hs os → InStep hs os os
InStep-refl hs os a = record { agrees = a; fewer = λ j. omega arith }

pub InStep-Unique :
    {hs : List Handle} {old new : List Order} → InStep hs old new → Unique old → Unique new
InStep-Unique i u j = omega (arith, i.fewer j, u j)

InStep-trans :
    {hs : List Handle} {a b c : List Order}
    → ((j : OrderId) → count_id j b ≤ count_id j a)
    → InStep hs b c
    → InStep hs a c
InStep-trans f i = record { agrees = i.agrees; fewer = λ j. omega (arith, f j, i.fewer j) }

module _ (now : ℕ → Timestamp) (symbol : String) where
  -- A partly filled order keeps its handle.
  part_taken-InStep :
      (c : Cursor) (total : Quantity) (r : Order) (os tail : List Order)
      → Agrees c.orders (r ∷ os ++ tail)
      → InStep
          (part_taken now symbol c total r os).cursor.orders
          (r ∷ os ++ tail)
          ((part_taken now symbol c total r os).queue ++ tail)
  unfolding trade_with fill seek count_id
  part_taken-InStep c total r os tail a = record { agrees = a; fewer = λ j. omega arith }

  fill_level-InStep :
      (s : Side) (p : Price) (c : Cursor) (total : Quantity) (os tail : List Order)
      → All (IsResting s p) os
      → Unique (os ++ tail)
      → Agrees c.orders (os ++ tail)
      → InStep
          (fill_level now symbol c total os).cursor.orders
          (os ++ tail)
          ((fill_level now symbol c total os).queue ++ tail)
  unfolding fill_level count_id
  fill_level-InStep s p c total [] tail k u a = InStep-refl c.orders tail a
  fill_level-InStep s p c total (r ∷ os) tail k u a =
      let P = λ (f : Filled). InStep f.cursor.orders (r ∷ os ++ tail) (f.queue ++ tail) in
      elim (round now symbol c total r os) [
        | inl (h, eq) ↦ subst P (sym eq) (InStep-refl c.orders (r ∷ os ++ tail) a)
        | inr (inl (h, l, eq)) ↦ subst P (sym eq) (part_taken-InStep c total r os tail a)
        | inr (inr (h, l, eq)) ↦ subst P (sym eq) (
            InStep-trans (λ j. omega arith)
              (fill_level-InStep s p (cursor_after now symbol c r) (total -ℤ remaining r) os tail
                k.1 (Unique-tail r (os ++ tail) u) (erase-Agrees c.orders r (os ++ tail) a u)))
      ]

  emptied :
      (hs : List Handle) (xs ys : List Order) (old : List Order)
      → is_empty xs ≡ true
      → InStep hs old (xs ++ ys)
      → InStep hs old ys
  emptied hs [] ys old e i = i
  emptied hs (x ∷ xs) ys old e i = absurd (ground arith)

  -- After the loop over the levels the index has the handles of the orders that are left, and of
  -- `tail`, the orders of the other side.
  pub sweep-InStep :
      (s : Side) (c : Cursor) (ls : List PriceLevel) (tail : List Order)
      → IsSide s ls
      → IsLive c.incoming
      → Unique (queue ls ++ tail)
      → Agrees c.orders (queue ls ++ tail)
      → let r = sweep now symbol c ls in
        InStep r.cursor.orders (queue ls ++ tail) (queue r.levels ++ tail)
  unfolding sweep
  sweep-InStep s c [] tail v k u a = InStep-refl c.orders tail a
  sweep-InStep s c (l ∷ ls) tail v k u a =
      let f =
        fill_level-FillResult now symbol s l.price c l.total_qty l.orders v.levels.0.resting
          v.levels.0.counted k in
      let joined = append_assoc l.orders (queue ls) tail in
      let u' : Unique (l.orders ++ (queue ls ++ tail)) = rw joined at u in
      let a' : Agrees c.orders (l.orders ++ (queue ls ++ tail)) = rw joined at a in
      let i =
        fill_level-InStep s l.price c l.total_qty l.orders (queue ls ++ tail) v.levels.0.resting u'
          a' in
      let P =
        λ (r : Swept). InStep r.cursor.orders (queue (l ∷ ls) ++ tail) (queue r.levels ++ tail) in
      let same = λ (r : Swept).
        subst (λ os. InStep r.cursor.orders os (queue r.levels ++ tail)) (sym joined) in
      elim (visit now symbol c l ls
        (front_done now symbol s l.price c l.orders (front now symbol c l) f)) [
          | inl (h, e) ↦ subst P (sym e) (InStep-refl c.orders _ a)
          | inr (inl (h, b, e)) ↦ subst P (sym e) (InStep-refl c.orders _ a)
          | inr (inr (inl (h, b, n, e))) ↦ subst P (sym e) (
              same (passed now symbol c l ls) (
                let i' = emptied _ (front now symbol c l).queue (queue ls ++ tail) _ n i in
                InStep-trans i'.fewer (
                  sweep-InStep s (front now symbol c l).cursor ls tail
                    (record { levels = v.levels.1; sorted = v.sorted.1 }) f.live
                    (InStep-Unique i' u') i'.agrees)))
          | inr (inr (inr (h, b, n, e))) ↦ subst P (sym e) (
              same (halted now symbol c l ls) (
                subst (InStep _ _) (sym (append_assoc (front now symbol c l).queue (queue ls) tail))
                  i))
        ]
