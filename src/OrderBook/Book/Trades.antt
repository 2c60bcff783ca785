-- ===== src/OrderBook/Book/Trades.antt =====
-- The trades of `add_order` in src/core/order_book.cpp, and where an order that is not a limit order
-- ends.
use orderflow_replay_engine.Prelude.{
  ℕ, ◌≡◌, refl, inl, inr, true, false, ◌<ℤ◌, ◌≤ℤ◌, ltb_ℤ, ltb_ℤ→lt, ltb_ℤ→ge, pos, arith, int_laws,
  eq→parts, All, All-map, All-both, Bool-cases, ◌≢◌,
}
use orderflow_replay_engine.Types.{
  Timestamp, Side, buy, sell, OrderType, limit, market, ioc, fok, Order, remaining, Trade,
}
use orderflow_replay_engine.OrderBook.Matching.{is_priced, Swept}
use orderflow_replay_engine.OrderBook.Matching.Fills.{SameOrder-refl, party}
use orderflow_replay_engine.OrderBook.Matching.FillOrKill.{
  IsWithin, IsFilledWithin, sweep-IsFilledWithin,
}
use orderflow_replay_engine.OrderBook.Matching.Sweep.{IsTradeOf}
use orderflow_replay_engine.OrderBook.Book.{Book, add_order, match_order, own_levels, opposite}
use orderflow_replay_engine.OrderBook.Book.Valid.{IsBook, side_from}
use orderflow_replay_engine.OrderBook.Book.Match.{
  swept, swept_outcome-fewer, swept-SweepResult, available, swept_book, match_order-sweep,
  match_order-killed, match_order-filled, start,
}
use orderflow_replay_engine.OrderBook.Book.Add.{
  IsFresh, entering, entering-IsLive, matched, added, settle-book, fok-cases,
}
use orderflow_replay_engine.OrderBook.Book.Quantities.{settle-trades}

-- The trade is one of `o`, of a positive quantity, with `o` on its side, and within the limit of `o`
-- unless `o` is a market order.
pub record IsOwnTrade (o : Order) (t : Trade) : Type 0 where
  pub party_eq : party o.side t ≡ o.id
  pub some_qty : pos 0 <ℤ t.qty
  pub within : o.type ≢ market → IsWithin o t

module _ (now : ℕ → Timestamp) (o : Order) (b : Book) (v : IsBook b)
    (h : pos 0 <ℤ remaining o) where
  matched_trades : All (IsTradeOf (entering o)) (matched now o b).trades
  matched_trades = (swept-SweepResult now (entering o) b v (entering-IsLive o h)).trades

  -- Where the loops test the price.
  priced-IsOwnTrade :
      is_priced o.type ≡ true → (t : Trade) → IsTradeOf (entering o) t → IsOwnTrade o t
  priced-IsOwnTrade p t f = record {
    party_eq = f.fills.party_eq;
    some_qty = f.fills.some_qty;
    within = λ _. ground arith;
  }

  market-IsOwnTrade : o.type ≡ market → (t : Trade) → IsTradeOf (entering o) t → IsOwnTrade o t
  market-IsOwnTrade e t f = record {
    party_eq = f.fills.party_eq;
    some_qty = f.fills.some_qty;
    within = λ n. absurd (n e);
  }

  fok-IsOwnTrade : (t : Trade) → IsTradeOf (entering o) t → IsWithin o t → IsOwnTrade o t
  fok-IsOwnTrade t f w = record {
    party_eq = f.fills.party_eq;
    some_qty = f.fills.some_qty;
    within = λ _. w;
  }

  -- With enough to be had, a fill-or-kill order is filled within its limit.
  pub fok-IsFilledWithin :
      o.type ≡ fok
      → o.filled_qty ≡ pos 0
      → o.qty ≤ℤ available (entering o) b
      → IsFilledWithin o (swept now (entering o) b)
  fok-IsFilledWithin e z q =
      sweep-IsFilledWithin now b.symbol (opposite o.side) (entering o) e (start (entering o) b)
        (own_levels (opposite o.side) b) (pos 0) (side_from (opposite o.side) b v)
        (entering-IsLive o h) (SameOrder-refl (entering o)) (omega (int_laws, eq→parts z)) q

  added-IsOwnTrade :
      (t : OrderType)
      → o.type ≡ t
      → o.filled_qty ≡ pos 0
      → All (IsOwnTrade o) (added now o b t).trades
  unfolding is_priced
  added-IsOwnTrade limit e z =
      rw
        (
          settle-trades limit (match_order now false (entering o) b),
          match_order-sweep now (entering o) b,
        )
        (All-map _ _ (priced-IsOwnTrade (rw e)) _ matched_trades)
  added-IsOwnTrade market e z =
      rw
        (
          settle-trades market (match_order now false (entering o) b),
          match_order-sweep now (entering o) b,
        )
        (All-map _ _ (market-IsOwnTrade e) _ matched_trades)
  added-IsOwnTrade ioc e z =
      rw
        (
          settle-trades ioc (match_order now false (entering o) b),
          match_order-sweep now (entering o) b,
        )
        (All-map _ _ (priced-IsOwnTrade (rw e)) _ matched_trades)
  added-IsOwnTrade fok e z = elim (Bool-cases (ltb_ℤ (available (entering o) b) o.qty)) [
    | inl k ↦
        rw
          (
            settle-trades fok (match_order now true (entering o) b),
            match_order-killed now (entering o) b (ltb_ℤ→lt _ _ k),
          )
          tt
    | inr k ↦
        rw
          (
            settle-trades fok (match_order now true (entering o) b),
            match_order-filled now (entering o) b (ltb_ℤ→ge _ _ k),
          )
          (All-both _ _ _ fok-IsOwnTrade _ matched_trades
            (fok-IsFilledWithin e z (ltb_ℤ→ge _ _ k)).1)
  ]

-- On a well formed book, every trade of an order with something left of it and nothing filled yet
-- is of a positive quantity, has the order on its side, and is within the order's limit unless it is a market order; for a fill-or-kill order too, whose price the matching
-- loops do not test.
pub add_order-IsOwnTrade :
    (now : ℕ → Timestamp) (o : Order) (b : Book)
    → IsBook b
    → pos 0 <ℤ remaining o
    → o.filled_qty ≡ pos 0
    → All (IsOwnTrade o) (add_order now o b).trades
unfolding add_order
add_order-IsOwnTrade now o b v h z = added-IsOwnTrade now o b v h o.type refl z

own_swept : (s : Side) (b : Book) (r : Swept) → own_levels s (swept_book s b r) ≡ own_levels s b
own_swept buy b r = refl
own_swept sell b r = refl

-- A property of books that an order which is not a limit order keeps.
leaves :
    (now : ℕ → Timestamp) (o : Order) (b : Book) (P : Book → Type 0) (t : OrderType)
    → t ≢ limit
    → P b
    → P (matched now o b).book
    → P (added now o b t).book
leaves now o b P limit n p q = absurd (n refl)
leaves now o b P market n p q =
    rw
      (
        settle-book now o b market (match_order now false (entering o) b) n,
        match_order-sweep now (entering o) b,
      )
      q
leaves now o b P ioc n p q =
    rw
      (
        settle-book now o b ioc (match_order now false (entering o) b) n,
        match_order-sweep now (entering o) b,
      )
      q
leaves now o b P fok n p q =
    rw (settle-book now o b fok (match_order now true (entering o) b) n)
      (elim (fok-cases now o b) [ inl e ↦ rw e p | inr e ↦ rw e q ])

-- On a well formed book, an order that is not a limit order, with something left of it and an id
-- that does not rest, never rests: its own side stays as it is.
pub add_order-leaves :
    (now : ℕ → Timestamp) (o : Order) (b : Book)
    → IsBook b
    → pos 0 <ℤ remaining o
    → o.type ≢ limit
    → IsFresh o b
    → (own_levels o.side (add_order now o b).book ≡ own_levels o.side b)
      × IsFresh o (add_order now o b).book
unfolding add_order
add_order-leaves now o b v h n f =
    let k = entering-IsLive o h in
    let fewer = swept_outcome-fewer now (entering o) b v k o.id in
    (
      leaves now o b (λ c. own_levels o.side c ≡ own_levels o.side b) o.type n refl
          (own_swept o.side b (swept now (entering o) b)),
      leaves now o b (λ c. IsFresh o c) o.type n f (omega (arith, f, fewer)),
    )
