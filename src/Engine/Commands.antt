-- ===== src/Engine/Commands.antt =====
-- The rest of the commands of src/engine_cli.cpp, the choice of a command, and the loop of `main`.
use orderflow_replay_engine.Prelude.{
  ℕ, suc, Bool, true, false, List, [], ◌∷◌, none, some, String, ℤ, pos, pos_part, min_ℤ, ltb_ℤ,
  str_eq, if◌then◌else◌,
}
use orderflow_replay_engine.Text.{◌<>◌, is_code, is_empty_text, until, after_code}
use orderflow_replay_engine.Double.{Double}
use orderflow_replay_engine.Types.{MarketDataTick, RiskLimits}
use orderflow_replay_engine.Json.{str, in_brackets, backtest_result_to_json}
use orderflow_replay_engine.MarketData.{Config, generate_synthetic}
use orderflow_replay_engine.Strategy.MarketMaking.{new_market_making, market_making}
use orderflow_replay_engine.Strategy.Momentum.{new_momentum, momentum}
use orderflow_replay_engine.Strategy.MeanReversion.{new_mean_reversion, mean_reversion}
use orderflow_replay_engine.Risk.{set_limits}
use orderflow_replay_engine.Simulator.{new_simulator}
use orderflow_replay_engine.Backtester.{BacktestResult, TickTimes}
use orderflow_replay_engine.Backtester.Run.{run}
use orderflow_replay_engine.Engine.{Engine, Host, Clock, init_sim, init_feed}
use orderflow_replay_engine.Engine.Fields.{jget}
use orderflow_replay_engine.Engine.Queries.{
  symbol_or, status_command, book_reply, positions_reply, limits_reply, symbols_reply,
}
use orderflow_replay_engine.Engine.Orders.{
  or_else, order_command, cancel_command, feed_step_command,
}

-- `std::min(std::max(ticks, 200), 50000)`
abbrev pub tick_count : ℤ → ℕ
tick_count n = if ltb_ℤ n (pos 200) then 200 else pos_part (min_ℤ n (pos 50000))

-- Each tick with the readings of the clock for it.
abbrev pub timed_from :
    (ℕ → TickTimes) → ℕ → List MarketDataTick → List (TickTimes × MarketDataTick)
timed_from times i [] = []
timed_from times i (t ∷ ts) = (times i, t) ∷ timed_from times (suc i) ts

-- A line: the command up to the first blank, and the payload after it, or "{}".
abbrev pub command_of : String → String
command_of line = until (is_code 32) line

abbrev pub payload_of : String → String
payload_of line = or_else "{}" (after_code 32 line)

module _ {ℓ} {W : Type ℓ} ⦃d : Double W⦄ where
  unfoldable pub reset_command : Host W → Engine W → Engine W × String
  unfolding init_sim init_feed
  reset_command host e =
      (init_feed host (init_sim (record e { trade_log = []; order_log = [] })), "{\"ok\":true}")

  -- The configuration of a backtest, with the defaults of `Config` for what is not set.
  abbrev pub backtest_config : String → W → ℕ → Config W
  backtest_config symbol start_price ticks = record {
    symbol = symbol;
    start_price = start_price;
    spread_bps = d.lit (pos 5) 1;
    ticks = ticks;
    start_ts = pos 1700000000000000000;
    tick_interval_ns = pos 100000;
  }

  abbrev pub backtest_limits : RiskLimits W
  backtest_limits = record {
    max_order_qty = pos 10000;
    max_position = pos 500000;
    max_notional_usd = d.lit (pos 1_000_000_000) 1;
    max_orders_per_sec = pos 10000;
    enabled = true;
  }

  -- The run with the strategy of the name.
  unfoldable pub run_named :
      Host W → Clock → RiskLimits W → String → String → List MarketDataTick → BacktestResult W
  unfolding run market_making momentum mean_reversion
  run_named host clock limits strategy_name symbol ticks =
      let timed = timed_from clock.replay 0 ticks in
      let symbols = symbol ∷ [] in
      if str_eq strategy_name "Momentum"
      then run (momentum {W = W}) clock.replay_submit host.sort_samples clock.replay_elapsed limits
          symbols timed (new_momentum 20 (pos 200))
      else if str_eq strategy_name "MeanReversion"
      then run (mean_reversion host.shown) clock.replay_submit host.sort_samples
          clock.replay_elapsed limits symbols timed
          (new_mean_reversion 30 (d.lit (pos 2) 1) (pos 100))
      else run (market_making {W = W}) clock.replay_submit host.sort_samples clock.replay_elapsed
          limits symbols timed (new_market_making (d.lit (pos 5) 1) (pos 100))

  unfoldable pub backtest_reply : Host W → Clock → String → String
  unfolding run_named generate_synthetic backtest_result_to_json
  backtest_reply host clock payload =
      let symbol = symbol_or (jget payload "symbol") in
      let ticks = tick_count (or_else (pos 5000) (host.stoi (jget payload "ticks"))) in
      let start_price = or_else (d.lit (pos 150) 1) (host.stod (jget payload "start_price")) in
      let feed =
        generate_synthetic (backtest_config symbol start_price ticks)
          (host.draws 777 (d.lit (pos 1) 1000)) in
      backtest_result_to_json W
        (run_named host clock backtest_limits (jget payload "strategy") symbol feed)

  -- The four assignments to `g_limits`, up to the first that throws; `true` if none does.
  unfoldable pub read_limits : Host W → String → RiskLimits W → RiskLimits W × Bool
  read_limits host payload l = elim (host.stoll (jget payload "max_order_qty")) [
    | none ↦ (l, false)
    | some a ↦ elim (host.stoll (jget payload "max_position")) [
      | none ↦ (record l { max_order_qty = a }, false)
      | some b ↦ elim (host.stod (jget payload "max_notional_usd")) [
        | none ↦ (record l { max_order_qty = a; max_position = b }, false)
        | some c ↦ elim (host.stoi (jget payload "max_orders_per_sec")) [
          | none ↦ (record l { max_order_qty = a; max_position = b; max_notional_usd = c }, false)
          | some n ↦ (
            record l {
              max_order_qty = a;
              max_position = b;
              max_notional_usd = c;
              max_orders_per_sec = n;
            },
            true,
          )
        ]
      ]
    ]
  ]

  unfoldable pub risk_limits_command : Host W → String → Engine W → Engine W × String
  unfolding read_limits set_limits
  risk_limits_command host payload e =
      let a = read_limits host payload e.limits in
      if a.1
      then (
        record e { limits = a.0; sim = record (e.sim) { risk = set_limits a.0 e.sim.risk } },
        "{\"ok\":true}",
      )
      else (record e { limits = a.0 }, "{\"error\":\"bad limits\"}")

  unfoldable pub handle : Host W → Clock → String → String → Engine W → Engine W × String
  unfolding status_command reset_command book_reply positions_reply order_command cancel_command
      feed_step_command backtest_reply risk_limits_command limits_reply symbols_reply str
      in_brackets
  handle host clock cmd payload e =
      if str_eq cmd "status"
      then status_command host e
      else if str_eq cmd "reset"
      then reset_command host e
      else if str_eq cmd "book"
      then (e, book_reply clock.snapshot payload e)
      else if str_eq cmd "positions"
      then (e, positions_reply e.sim)
      else if str_eq cmd "trades"
      then (e, in_brackets e.trade_log)
      else if str_eq cmd "orders"
      then (e, in_brackets e.order_log)
      else if str_eq cmd "order"
      then order_command host clock payload e
      else if str_eq cmd "cancel"
      then cancel_command host payload e
      else if str_eq cmd "feed_step"
      then feed_step_command host clock payload e
      else if str_eq cmd "backtest"
      then (e, backtest_reply host clock payload)
      else if str_eq cmd "risk_limits"
      then risk_limits_command host payload e
      else if str_eq cmd "get_limits"
      then (e, limits_reply e.sim.risk.limits)
      else if str_eq cmd "symbols"
      then (e, symbols_reply e.sim)
      else (e, "{\"error\":" <> str ("unknown command: " <> cmd) <> "}")

  abbrev pub first_limits : RiskLimits W
  first_limits = record {
    max_order_qty = pos 10000;
    max_position = pos 500000;
    max_notional_usd = d.lit (pos 50_000_000) 1;
    max_orders_per_sec = pos 2000;
    enabled = true;
  }

  -- The global variables before `main`; `init_sim` replaces the simulator.
  abbrev pub globals : Engine W
  globals = record {
    limits = first_limits;
    sim = new_simulator first_limits;
    tick_feed = [];
    feed_idx = 0;
    trade_log = [];
    order_log = [];
  }

  unfoldable pub new_engine : Host W → Engine W
  unfolding init_sim init_feed
  new_engine host = init_feed host (init_sim globals)

  -- The loop of `main` over the lines, with the readings of the clock for each. Nothing that `handle`
  -- calls throws an exception that it does not catch.
  unfoldable pub serve : Host W → List (Clock × String) → Engine W → Engine W × List String
  unfolding handle
  serve host [] e = (e, [])
  serve host ((clock, line) ∷ lines) e =
      let a = handle host clock (command_of line) (payload_of line) e in
      let rest = serve host lines a.0 in
      let skipped = serve host lines e in
      if is_empty_text line then skipped else (rest.0, a.1 ∷ rest.1)
