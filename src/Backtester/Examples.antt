-- ===== src/Backtester/Examples.antt =====
-- A replay by src/core/simulator.cpp of two ticks, and the theorems at it.
use orderflow_replay_engine.Prelude.{refl, List, [], ◌∷◌, ℤ, pos, ℕ, true, lookup}
use orderflow_replay_engine.Double.{Double, ticks_double}
use orderflow_replay_engine.Types.{OrderId, MarketDataTick, RiskLimits}
use orderflow_replay_engine.Simulator.{new_simulator, add_symbol, SubmitTimes}
use orderflow_replay_engine.Strategy.MarketMaking.{MarketMakingStrategy, market_making}
use orderflow_replay_engine.Backtester.{Replay, TickTimes, empty_result, replay}
use orderflow_replay_engine.Backtester.Tally.{IsTallied, replay-IsTallied}
use orderflow_replay_engine.Simulator.Running.{
  IsRunning, new_simulator-IsRunning, add_symbol-IsRunning,
}
use orderflow_replay_engine.Backtester.Sound.{replay-IsRunning}
use orderflow_replay_engine.Backtester.Quotes.{HoldsNothing, replay-HoldsNothing}

instance abbrev ticks : Double ℤ
ticks = ticks_double

abbrev some_limits : RiskLimits ℤ
some_limits = record {
  max_order_qty = pos 1000;
  max_position = pos 1000;
  max_notional_usd = pos 1_000_000_000;
  max_orders_per_sec = pos 10;
  enabled = true;
}

abbrev some_times : OrderId → SubmitTimes
some_times id = record {
  start = pos 1;
  rate_check = pos 2;
  approval = pos 3;
  stamp = pos 4;
  trade = λ n. pos 5;
  finish = pos 6;
}

abbrev tick_times : TickTimes
tick_times = record {
  start = pos 1;
  tick_start = pos 2;
  tick_finish = pos 3;
  snapshot = pos 4;
  finish = pos 9;
}

abbrev tick_at : ℕ → MarketDataTick
tick_at price = record {
  timestamp = pos 0;
  symbol = "AAPL";
  bid_price = pos price;
  bid_qty = pos 10;
  ask_price = pos price;
  ask_qty = pos 10;
  last_price = pos price;
  last_qty = pos 1;
}

abbrev two_ticks : List (TickTimes × MarketDataTick)
two_ticks = (tick_times, tick_at 1000) ∷ (tick_times, tick_at 1010) ∷ []

abbrev begin : Replay ℤ (MarketMakingStrategy ℤ)
begin = record {
  sim = add_symbol "AAPL" (new_simulator some_limits);
  strategy = record { spread_bps = pos 50000; qty = pos 100; bid_id = 0; ask_id = 0; fills = 0 };
  result = empty_result;
  live_orders = [];
  peak_equity = pos 0;
}

begin-IsTallied : IsTallied begin
unfolding add_symbol new_simulator lookup
begin-IsTallied = record { submitted = refl; rejected = refl; filled = refl; counted = refl }

replay-IsTallied_example : IsTallied (replay market_making some_times two_ticks begin)
replay-IsTallied_example = replay-IsTallied market_making some_times two_ticks begin begin-IsTallied

replay-HoldsNothing_example :
    HoldsNothing (replay market_making some_times two_ticks begin).strategy
replay-HoldsNothing_example =
    replay-HoldsNothing some_times two_ticks begin (record { bid_eq = refl; ask_eq = refl })

replay-IsRunning_example : IsRunning (replay market_making some_times two_ticks begin).sim
replay-IsRunning_example = replay-IsRunning market_making some_times two_ticks begin (
    add_symbol-IsRunning "AAPL" (new_simulator some_limits)
      (new_simulator-IsRunning some_limits refl))
