-- ===== src/MarketData/Examples.antt =====
-- Three ticks of src/journal/journal.cpp.
use orderflow_replay_engine.Prelude.{◌≡◌, pos, ℤ, length}
use orderflow_replay_engine.Double.{Double, ticks_double}
use orderflow_replay_engine.MarketData.{Config, Draws, generate_synthetic}
use orderflow_replay_engine.MarketData.Ticks.{IsSpaced, generate_synthetic-IsSpaced}

instance abbrev ticks_instance : Double ℤ
ticks_instance = ticks_double

abbrev three_ticks : Config ℤ
three_ticks = record {
  symbol = "AAPL";
  start_price = pos 1500000;
  spread_bps = pos 50000;
  ticks = 3;
  start_ts = pos 1000;
  tick_interval_ns = pos 10;
}

abbrev still : Draws ℤ
still = record {
  noise = λ i. pos 0;
  bid_qty = λ i. pos 100;
  ask_qty = λ i. pos 200;
  last_qty = λ i. pos 300;
}

generate_synthetic-IsSpaced_example :
    (length (generate_synthetic three_ticks still) ≡ 3)
    × IsSpaced "AAPL" (pos 1000) (pos 10) 0 (generate_synthetic three_ticks still)
generate_synthetic-IsSpaced_example = generate_synthetic-IsSpaced three_ticks still
