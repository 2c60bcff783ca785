-- ===== src/OrderBook/Matching/Prices.antt =====
-- Matching in src/core/order_book.cpp makes no new price levels, and stops at prices that a limit
-- order cannot have.
use orderflow_replay_engine.Prelude.{
  ℕ, ◌≡◌, sym, inl, inr, List, [], ◌∷◌, String, ◌<ℤ◌, arith, All, All-map, subst, Bool-cases, eqb_ℤ,
}
use orderflow_replay_engine.Types.{Price, Timestamp, Side, buy, sell, Order}
use orderflow_replay_engine.OrderBook.Levels.{PriceLevel, before, insert_order}
use orderflow_replay_engine.OrderBook.Levels.Valid.{IsSide, IsSorted}
use orderflow_replay_engine.OrderBook.Matching.{Cursor, Swept, sweep, is_worse}
use orderflow_replay_engine.OrderBook.Matching.Fills.{IsLive, fill_level-FillResult}
use orderflow_replay_engine.OrderBook.Matching.Sweep.{visit, front, front_done, FrontBlocked}

-- A property of the price of every level.
abbrev pub AllPrices : (Price → Type 0) → List PriceLevel → Type 0
AllPrices P = All (λ l. P l.price)

pub insert_order-AllPrices :
    (P : Price → Type 0) (s : Side) (o : Order) (ls : List PriceLevel)
    → P o.price
    → AllPrices P ls
    → AllPrices P (insert_order s o ls)
unfolding insert_order
insert_order-AllPrices P s o [] h a = (h, tt)
insert_order-AllPrices P s o (l ∷ ls) h a = elim (Bool-cases (eqb_ℤ l.price o.price)) [
  | inl e ↦ rw e a
  | inr e ↦ elim (Bool-cases (before s o.price l.price)) [
    | inl k ↦ rw (e, k) (h, a)
    | inr k ↦ rw (e, k) (a.0, insert_order-AllPrices P s o ls h a.1)
  ]
]

pub sweep-AllPrices :
    (now : ℕ → Timestamp) (symbol : String) (P : Price → Type 0) (s : Side) (c : Cursor)
    (ls : List PriceLevel)
    → IsSide s ls
    → IsLive c.incoming
    → AllPrices P ls
    → AllPrices P (sweep now symbol c ls).levels
unfolding sweep
sweep-AllPrices now symbol P s c [] v k a = a
sweep-AllPrices now symbol P s c (l ∷ ls) v k a =
    let f =
      fill_level-FillResult now symbol s l.price c l.total_qty l.orders v.levels.0.resting
        v.levels.0.counted k in
    let Q = λ (r : Swept). AllPrices P r.levels in
    elim (visit now symbol c l ls
      (front_done now symbol s l.price c l.orders (front now symbol c l) f)) [
        | inl (h, e) ↦ subst Q (sym e) a
        | inr (inl (h, b, e)) ↦ subst Q (sym e) a
        | inr (inr (inl (h, b, n, e))) ↦ subst Q (sym e) (
            sweep-AllPrices now symbol P s (front now symbol c l).cursor ls
              (record { levels = v.levels.1; sorted = v.sorted.1 }) f.live a.1)
        | inr (inr (inr (h, b, n, e))) ↦ subst Q (sym e) a
      ]

-- The levels that a buy order stopped at lie above its limit, those of a sell order below.
pub blocked-buy :
    (o : Order) (ls : List PriceLevel)
    → o.side ≡ buy
    → IsSorted sell ls
    → FrontBlocked o ls
    → AllPrices (λ p. o.price <ℤ p) ls
unfolding is_worse before
blocked-buy o [] e v b = tt
blocked-buy o (l ∷ ls) e v b =
    let h : o.price <ℤ l.price = ground arith in (h, All-map _ _ (λ m k. ground arith) ls v.0)

pub blocked-sell :
    (o : Order) (ls : List PriceLevel)
    → o.side ≡ sell
    → IsSorted buy ls
    → FrontBlocked o ls
    → AllPrices (λ p. p <ℤ o.price) ls
unfolding is_worse before
blocked-sell o [] e v b = tt
blocked-sell o (l ∷ ls) e v b =
    let h : l.price <ℤ o.price = ground arith in (h, All-map _ _ (λ m k. ground arith) ls v.0)
