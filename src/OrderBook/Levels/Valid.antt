-- ===== src/OrderBook/Levels/Valid.antt =====
-- What one side of the book of src/core/order_book.cpp looks like between two operations.
use orderflow_replay_engine.Prelude.{
  ◌≡◌, true, false, List, [], ◌∷◌, ◌++◌, pos, ◌+ℤ◌, ◌<ℤ◌, eqb_ℤ, is_empty, All, int_laws, arith,
}
use orderflow_replay_engine.Types.{Price, Quantity, Side, buy, sell, Order, remaining, is_done}
use orderflow_replay_engine.OrderBook.Levels.{PriceLevel, before}

-- An order that rests on side `s` at price `p`.
pub record IsResting (s : Side) (p : Price) (o : Order) : Type 0 where
  pub side_eq : o.side ≡ s
  pub price_eq : o.price ≡ p
  pub some_left : pos 0 <ℤ remaining o
  pub not_done : is_done o ≡ false

abbrev pub sum_remaining : List Order → Quantity
sum_remaining [] = pos 0
sum_remaining (o ∷ os) = remaining o +ℤ sum_remaining os

-- A level is not empty, counts what is left of its orders, and holds orders of its price only.
pub record IsLevel (s : Side) (l : PriceLevel) : Type 0 where
  pub nonempty : is_empty l.orders ≡ false
  pub counted : l.total_qty ≡ sum_remaining l.orders
  pub resting : All (IsResting s l.price) l.orders

-- Every price of the levels comes after `p`.
abbrev pub AllAfter : Side → Price → List PriceLevel → Type 0
AllAfter s p = All (λ l. before s p l.price ≡ true)

abbrev pub IsSorted : Side → List PriceLevel → Type 0
IsSorted s [] = Unit {0}
IsSorted s (l ∷ ls) = AllAfter s l.price ls × IsSorted s ls

pub record IsSide (s : Side) (ls : List PriceLevel) : Type 0 where
  pub levels : All (IsLevel s) ls
  pub sorted : IsSorted s ls

-- The orders of a side in the order in which they are matched.
abbrev pub queue : List PriceLevel → List Order
queue [] = []
queue (l ∷ ls) = l.orders ++ queue ls

pub before_trans :
    (s : Side) (p q r : Price) → before s p q ≡ true → before s q r ≡ true → before s p r ≡ true
unfolding before
before_trans buy p q r h k = ground arith
before_trans sell p q r h k = ground arith

pub before_connex :
    (s : Side) (p q : Price) → eqb_ℤ p q ≡ false → before s q p ≡ false → before s p q ≡ true
unfolding before
before_connex buy p q h k = ground arith
before_connex sell p q h k = ground arith

pub AllAfter-trans :
    (s : Side) (p q : Price) (ls : List PriceLevel)
    → before s p q ≡ true
    → AllAfter s q ls
    → AllAfter s p ls
AllAfter-trans s p q [] h k = tt
AllAfter-trans s p q (l ∷ ls) h k =
    (before_trans s p q l.price h k.0, AllAfter-trans s p q ls h k.1)

pub sum_remaining-append :
    (xs ys : List Order) → sum_remaining (xs ++ ys) ≡ sum_remaining xs +ℤ sum_remaining ys
sum_remaining-append [] ys = omega int_laws
sum_remaining-append (x ∷ xs) ys = rw (sum_remaining-append xs ys) (omega int_laws)
