-- ===== src/Simulator.antt =====
-- src/core/simulator.hpp and src/core/simulator.cpp, `class ExchangeSimulator`. A method holds the
-- mutex while it works on the books, so each is one step. The readings of the clock are arguments.
pub mod Valid
pub mod Submit
pub mod Running
pub mod Positions
mod Examples
use Prim.Native.String.{◌++◌ as concat}
use orderflow_replay_engine.Prelude.{
  ℕ, suc, ◌+◌, Bool, true, false, List, [], ◌∷◌, map, String, Option, none, some, pos, ◌-ℤ◌,
  if◌then◌else◌, ◌==◌, lookup, insert,
}
use orderflow_replay_engine.Double.{Double, from_price}
use orderflow_replay_engine.Types.{
  Price, Quantity, OrderId, Timestamp, Side, buy, sell, Order, Trade, MarketDataTick,
  OrderBookSnapshot, RiskLimits, Position,
}
use orderflow_replay_engine.Latency.{LatencyStats, new_latency, record_ns}
use orderflow_replay_engine.OrderBook.Levels.{Event, traded, notified}
use orderflow_replay_engine.OrderBook.Book.{
  Book, new_book, Outcome, add_order, cancel_order as cancel_in, modify_order as modify_in,
  snapshot,
}
use orderflow_replay_engine.Risk.{
  RiskManager, RiskResult, new_risk_manager, check_order, on_fill, update_market_price,
  get_position as position_of, total_pnl as pnl_of,
}

-- `books` is the map from symbols, `order_store` the ids whose orders it owns. The journal that the
-- class opens is never written to, and is not part of the state.
pub record ExchangeSimulator {ℓ} (W : Type ℓ) : Type ℓ where
  pub books : List (String × Book)
  pub order_store : List OrderId
  pub risk : RiskManager W
  pub next_oid : OrderId
  pub order_lat : LatencyStats
  pub tick_lat : LatencyStats
  pub total_orders : ℕ
  pub total_trades : ℕ
  pub total_rejects : ℕ

pub record SubmitResult : Type 0 where
  pub approved : Bool
  pub reject_reason : String
  pub trades : List Trade

-- What `submit_order` reads of the clock: at its start, twice in `check_order`, for the order's time
-- stamp, in `make_trade` of each trade, and at its end.
pub record SubmitTimes : Type 0 where
  pub start : Timestamp
  pub rate_check : Timestamp
  pub approval : Timestamp
  pub stamp : Timestamp
  pub trade : ℕ → Timestamp
  pub finish : Timestamp

-- `order_store_[id] = …`
abbrev pub store_id : OrderId → List OrderId → List OrderId
store_id id [] = id ∷ []
store_id id (j ∷ js) = if j == id then j ∷ js else j ∷ store_id id js

-- How often the events call the trade callback.
abbrev pub count_traded : List Event → ℕ
count_traded [] = 0
count_traded (traded t ∷ es) = suc (count_traded es)
count_traded (notified o ∷ es) = count_traded es

unfoldable pub fill_side : OrderId → Trade → Side
fill_side id t = if t.buy_order_id == id then buy else sell

-- The order as `submit_order` stores it.
abbrev pub stored : Timestamp → Order → Order
stored t o = record o { timestamp = t }

abbrev empty_snapshot : OrderBookSnapshot
empty_snapshot = record { symbol = ""; timestamp = pos 0; bids = []; asks = [] }

module _ {ℓ} {W : Type ℓ} ⦃d : Double W⦄ where
  unfoldable pub new_simulator : RiskLimits W → ExchangeSimulator W
  new_simulator limits = record {
    books = [];
    order_store = [];
    risk = new_risk_manager limits;
    next_oid = 1000;
    order_lat = new_latency;
    tick_lat = new_latency;
    total_orders = 0;
    total_trades = 0;
    total_rejects = 0;
  }

  unfoldable pub add_symbol : String → ExchangeSimulator W → ExchangeSimulator W
  add_symbol symbol s = elim (lookup symbol s.books) [
    | some b ↦ s
    | none ↦ record s { books = insert symbol (new_book symbol) s.books }
  ]

  -- The loop over the trades of an order.
  unfoldable pub apply_fills : OrderId → List Trade → RiskManager W → RiskManager W
  apply_fills id [] r = r
  apply_fills id (t ∷ ts) r =
      apply_fills id ts (on_fill t.symbol (fill_side id t) t.qty (from_price t.price) r)

  -- A submission that is turned away.
  abbrev pub turn_away :
      String → ExchangeSimulator W → ExchangeSimulator W × SubmitResult × List Event
  turn_away reason s = (
    record s { total_rejects = suc s.total_rejects },
    record { approved = false; reject_reason = reason; trades = [] },
    [],
  )

  -- The part of `submit_order` after the book is found: `r` is what `add_order` returns.
  unfoldable pub booked :
      SubmitTimes
      → Order
      → Outcome
      → ExchangeSimulator W
      → ExchangeSimulator W × SubmitResult × List Event
  booked times order r s = (
    record s {
      books = insert order.symbol r.book s.books;
      order_store = store_id order.id s.order_store;
      risk = apply_fills order.id r.trades s.risk;
      order_lat = record_ns (times.finish -ℤ times.start) s.order_lat;
      total_trades = s.total_trades + count_traded r.events;
    },
    record { approved = true; reject_reason = "OK"; trades = r.trades },
    r.events,
  )

  unfoldable pub submit_order :
      SubmitTimes
      → Order
      → W
      → ExchangeSimulator W
      → ExchangeSimulator W × SubmitResult × List Event
  unfolding booked
  submit_order times order market_price s₀ =
      let (risk, result) = check_order times.rate_check times.approval order market_price s₀.risk in
      let s : ExchangeSimulator W = record s₀ { total_orders = suc s₀.total_orders; risk = risk } in
      if result.approved
      then elim (lookup order.symbol s₀.books) [
        | none ↦ turn_away (concat "Unknown symbol: " order.symbol) s
        | some b ↦ booked times order (add_order times.trade (stored times.stamp order) b) s
      ]
      else turn_away result.message s

  unfoldable pub cancel_order :
      String → OrderId → ExchangeSimulator W → ExchangeSimulator W × List Event × Bool
  cancel_order symbol id s = elim (lookup symbol s.books) [
    | none ↦ (s, [], false)
    | some b ↦ let r = cancel_in id b in (record s { books = insert symbol r.0 s.books }, r.1, r.2)
  ]

  unfoldable pub modify_order :
      String → OrderId → Price → Quantity → ExchangeSimulator W → ExchangeSimulator W × Bool
  modify_order symbol id new_price new_qty s = elim (lookup symbol s.books) [
    | none ↦ (s, false)
    | some b ↦
        let r = modify_in id new_price new_qty b in
        (record s { books = insert symbol r.0 s.books }, r.1)
  ]

  -- `start` and `finish` are the clock at the start and at the end.
  unfoldable pub on_tick :
      Timestamp → Timestamp → MarketDataTick → ExchangeSimulator W → ExchangeSimulator W
  on_tick start finish tick s = record s {
    risk = update_market_price tick.symbol (from_price tick.last_price) s.risk;
    tick_lat = record_ns (finish -ℤ start) s.tick_lat;
  }

  unfoldable pub get_snapshot : Timestamp → String → ℕ → ExchangeSimulator W → OrderBookSnapshot
  get_snapshot now symbol depth s = elim (lookup symbol s.books) [
    | none ↦ empty_snapshot
    | some b ↦ snapshot now depth b
  ]

  unfoldable pub symbols : ExchangeSimulator W → List String
  symbols s = map (λ e. e.0) s.books

  abbrev pub get_position : String → ExchangeSimulator W → Position W
  get_position symbol s = position_of s.risk symbol

  abbrev pub all_positions : ExchangeSimulator W → List (String × Position W)
  all_positions s = s.risk.positions

  abbrev pub total_pnl : ExchangeSimulator W → W
  total_pnl s = pnl_of s.risk

  -- `++next_oid_`
  unfoldable pub next_order_id : ExchangeSimulator W → ExchangeSimulator W × OrderId
  next_order_id s = (record s { next_oid = suc s.next_oid }, suc s.next_oid)
