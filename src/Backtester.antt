-- ===== src/Backtester.antt =====
-- src/core/simulator.hpp and src/core/simulator.cpp, `class Backtester`: the replay of a list of
-- ticks through a strategy of src/strategy/strategy.hpp and an `ExchangeSimulator`. A strategy is a
-- state of type `S` with the operations of `IStrategy`; the callbacks of the simulator are not set.
pub mod Run
pub mod Tally
pub mod Quotes
pub mod Sound
mod Examples
use orderflow_replay_engine.Prelude.{
  ℕ, suc, ◌-◌, ◌%◌, Bool, true, false, not, ◌&&◌, ◌||◌, List, [], ◌∷◌, ◌++◌, String, Option, none,
  some, ℤ, pos, ◌-ℤ◌, ltb, ◌==◌, if◌then◌else◌, is_empty, length, str_eq, map,
}
use orderflow_replay_engine.Double.{Double, from_price, nought}
use orderflow_replay_engine.Types.{
  Quantity, OrderId, Timestamp, Side, Order, OrderStatus, is_done, Trade, MarketDataTick,
  RiskLimits, Position,
}
use orderflow_replay_engine.Latency.{LatencyStats, new_latency, record_ns, compute_percentiles}
use orderflow_replay_engine.Strategy.{Action, StrategySignal, IStrategy}
use orderflow_replay_engine.Strategy.Momentum.{sum_from}
use orderflow_replay_engine.Strategy.MeanReversion.{squares_from}
use orderflow_replay_engine.Simulator.{
  ExchangeSimulator, new_simulator, SubmitTimes, SubmitResult, add_symbol, submit_order,
  cancel_order, on_tick, get_snapshot, total_pnl, all_positions, next_order_id,
}

pub record BacktestResult {ℓ} (W : Type ℓ) : Type ℓ where
  pub strategy_name : String
  pub ticks_processed : ℕ
  pub orders_submitted : ℕ
  pub orders_filled : ℕ
  pub orders_rejected : ℕ
  pub trades_count : ℕ
  pub pnl : W
  pub realized_pnl : W
  pub unrealized_pnl : W
  pub max_drawdown : W
  pub sharpe : W
  pub order_latency : LatencyStats
  pub tick_latency : LatencyStats
  pub throughput_eps : W
  pub equity_curve : List W
  pub trades : List Trade

-- What `run` keeps while it goes over the ticks.
pub record Replay {ℓ κ} (W : Type ℓ) (S : Type κ) : Type (ℓ ⊔ κ) where
  pub sim : ExchangeSimulator W
  pub strategy : S
  pub result : BacktestResult W
  pub live_orders : List (OrderId × Order)
  pub peak_equity : W

-- What one pass of the loop over the ticks reads of the clock, outside `submit_order`.
pub record TickTimes : Type 0 where
  pub start : Timestamp
  pub tick_start : Timestamp
  pub tick_finish : Timestamp
  pub snapshot : Timestamp
  pub finish : Timestamp

module _ {ℓ} {A : Type ℓ} where
  abbrev pub insert_id : OrderId → A → List (OrderId × A) → List (OrderId × A)
  insert_id id a [] = (id, a) ∷ []
  insert_id id a ((j, b) ∷ m) = if j == id then (id, a) ∷ m else (j, b) ∷ insert_id id a m

  abbrev pub erase_id : OrderId → List (OrderId × A) → List (OrderId × A)
  erase_id id [] = []
  erase_id id ((j, b) ∷ m) = if j == id then m else (j, b) ∷ erase_id id m

abbrev pub contains : String → List String → Bool
contains x [] = false
contains x (y ∷ ys) = str_eq y x || contains x ys

-- `sig.symbol.empty() ? tick.symbol : sig.symbol`
abbrev pub symbol_of : StrategySignal → MarketDataTick → String
symbol_of sig tick = if str_eq sig.symbol "" then tick.symbol else sig.symbol

-- The order that a signal asks for.
unfoldable pub order_of : OrderId → Side → StrategySignal → MarketDataTick → Order
order_of id side sig tick = record {
  id = id;
  symbol = symbol_of sig tick;
  side = side;
  type = sig.type;
  price = sig.price;
  qty = sig.qty;
  filled_qty = pos 0;
  status = OrderStatus.pending;
  timestamp = pos 0;
  client_id = sig.reason;
}

-- The loop that calls `on_init` at the first tick of each symbol.
unfoldable pub init_strategy {κ} :
    {S : Type κ} → IStrategy S → List MarketDataTick → List String → S → S
init_strategy strategy [] inited s = s
init_strategy strategy (t ∷ ts) inited s =
    if contains t.symbol inited
    then init_strategy strategy ts inited s
    else init_strategy strategy ts (t.symbol ∷ inited) (strategy.on_init t.symbol s)

module _ {ℓ} {W : Type ℓ} ⦃d : Double W⦄ where
  abbrev pub empty_result : BacktestResult W
  empty_result = record {
    strategy_name = "";
    ticks_processed = 0;
    orders_submitted = 0;
    orders_filled = 0;
    orders_rejected = 0;
    trades_count = 0;
    pnl = nought;
    realized_pnl = nought;
    unrealized_pnl = nought;
    max_drawdown = nought;
    sharpe = nought;
    order_latency = new_latency;
    tick_latency = new_latency;
    throughput_eps = nought;
    equity_curve = [];
    trades = [];
  }

  -- The loop of CANCEL_ALL.
  unfoldable pub cancel_each : List (OrderId × Order) → ExchangeSimulator W → ExchangeSimulator W
  cancel_each [] s = s
  cancel_each ((id, o) ∷ m) s = cancel_each m (cancel_order o.symbol id s).0

  abbrev pub count_trade : Trade → BacktestResult W → BacktestResult W
  count_trade t r = record r {
    orders_filled = suc r.orders_filled;
    trades_count = suc r.trades_count;
    trades = r.trades ++ t ∷ [];
  }

  module _ {κ} {S : Type κ} (strategy : IStrategy S) (times : OrderId → SubmitTimes) where
    -- The loop over the trades of an order.
    unfoldable pub report_trades : List Trade → Replay W S → Replay W S
    report_trades [] p = p
    report_trades (t ∷ ts) p =
        report_trades ts
          (record p { result = count_trade t p.result; strategy = strategy.on_trade t p.strategy })

    -- What follows `submit_order`, for the order that the caller holds.
    unfoldable pub report : Order → SubmitResult → Replay W S → Replay W S
    report order res p =
        if not res.approved
        then record p {
          result = record (p.result) { orders_rejected = suc p.result.orders_rejected };
        }
        else let live =
            if is_done order then p.live_orders else insert_id order.id order p.live_orders in
          let q = report_trades res.trades (record p { live_orders = live }) in
          record q { strategy = strategy.on_order_update order q.strategy }

    -- A signal to buy or to sell.
    unfoldable pub place : Side → StrategySignal → MarketDataTick → Replay W S → Replay W S
    unfolding report order_of next_order_id
    place side sig tick p =
        let (sim, id) = next_order_id p.sim in
        let order = order_of id side sig tick in
        let a = submit_order (times id) order (from_price tick.last_price) sim in
        report order a.1 (record p {
          sim = a.0;
          result = record (p.result) { orders_submitted = suc p.result.orders_submitted };
        })

    abbrev pub process_signal : Action → StrategySignal → MarketDataTick → Replay W S → Replay W S
    process_signal Action.nothing sig tick p = p
    process_signal Action.cancel sig tick p = record p {
      sim = (cancel_order tick.symbol sig.cancel_id p.sim).0;
      live_orders = erase_id sig.cancel_id p.live_orders;
    }
    process_signal Action.cancel_all sig tick p = record p {
      sim = cancel_each p.live_orders p.sim;
      live_orders = [];
    }
    process_signal Action.buy sig tick p = place Side.buy sig tick p
    process_signal Action.sell sig tick p = place Side.sell sig tick p

    unfoldable pub process_signals : List StrategySignal → MarketDataTick → Replay W S → Replay W S
    unfolding place
    process_signals [] tick p = p
    process_signals (sig ∷ sigs) tick p =
        process_signals sigs tick (process_signal sig.action sig tick p)

    -- The sample of the equity that every hundredth tick takes.
    unfoldable pub sample_equity : Replay W S → Replay W S
    sample_equity p =
        let equity = total_pnl p.sim in
        let peak = if d.lt p.peak_equity equity then equity else p.peak_equity in
        let drawdown = d.sub peak equity in
        let deeper = d.lt d.lowest peak && d.lt p.result.max_drawdown drawdown in
        record p {
          result = record (p.result) {
            equity_curve = p.result.equity_curve ++ equity ∷ [];
            max_drawdown = if deeper then drawdown else p.result.max_drawdown;
          };
          peak_equity = peak;
        }

    -- One pass of the loop over the ticks. The depth of the snapshot is 10.
    unfoldable pub replay_tick : TickTimes → MarketDataTick → Replay W S → Replay W S
    unfolding process_signals sample_equity
    replay_tick at tick p =
        let sim = on_tick at.tick_start at.tick_finish tick p.sim in
        let (state, sigs) =
          strategy.on_tick tick (get_snapshot at.snapshot tick.symbol 10 sim) p.strategy in
        let q = process_signals sigs tick (record p { sim = sim; strategy = state }) in
        let q' = if q.result.ticks_processed % 100 == 0 then sample_equity q else q in
        record q' {
          result = record (q'.result) {
            tick_latency = record_ns (at.finish -ℤ at.start) q'.result.tick_latency;
            ticks_processed = suc q'.result.ticks_processed;
          };
        }

    unfoldable pub replay : List (TickTimes × MarketDataTick) → Replay W S → Replay W S
    unfolding replay_tick
    replay [] p = p
    replay ((at, tick) ∷ ticks) p = replay ticks (replay_tick at tick p)
