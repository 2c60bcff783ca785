-- ===== src/Strategy/Examples.antt =====
-- A run of the strategies of src/strategy/strategy.hpp on a rising and then falling price.
use orderflow_replay_engine.Prelude.{ℕ, false, List, [], ◌∷◌, ℤ, pos}
use orderflow_replay_engine.Double.{Double, ticks_double}
use orderflow_replay_engine.Types.{MarketDataTick, OrderBookSnapshot}
use orderflow_replay_engine.Strategy.Momentum.{MomentumStrategy}
use orderflow_replay_engine.Strategy.Momentum.Alternation.{
  IsAlternating, signals_over, signals_over-IsAlternating,
}

instance abbrev ticks : Double ℤ
ticks = ticks_double

abbrev tick_at : ℕ → MarketDataTick × OrderBookSnapshot
tick_at price = (
  record {
    timestamp = pos 0;
    symbol = "AAPL";
    bid_price = pos price;
    bid_qty = pos 10;
    ask_price = pos price;
    ask_qty = pos 10;
    last_price = pos price;
    last_qty = pos 1;
  },
  record { symbol = "AAPL"; timestamp = pos 0; bids = []; asks = [] },
)

abbrev rise_and_fall : List (MarketDataTick × OrderBookSnapshot)
rise_and_fall = tick_at 1000 ∷ tick_at 2000 ∷ tick_at 3000 ∷ tick_at 500 ∷ []

abbrev small_momentum : MomentumStrategy ℤ
small_momentum = record { lookback = 2; qty = pos 5; prices = []; is_long = false; signals = 0 }

signals_over-IsAlternating_example : IsAlternating false (signals_over rise_and_fall small_momentum)
signals_over-IsAlternating_example = signals_over-IsAlternating rise_and_fall small_momentum
