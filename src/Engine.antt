-- ===== src/Engine.antt =====
-- src/engine_cli.cpp: the engine that reads commands from its input, a line for each, and answers in
-- JSON. Its global variables are the record `Engine`.
pub mod Fields
pub mod Queries
pub mod Orders
pub mod Commands
pub mod Running
pub mod Served
pub mod Logs
pub mod Limits
pub mod Feed
mod Examples
use orderflow_replay_engine.Prelude.{
  ℕ, zero, suc, ◌+◌, Bool, true, false, List, [], ◌∷◌, ◌++◌, Option, none, some, String, ℤ, pos,
  ltb, length, drop, if◌then◌else◌,
}
use orderflow_replay_engine.Double.{Double}
use orderflow_replay_engine.Types.{Timestamp, OrderId, Trade, Order, MarketDataTick, RiskLimits}
use orderflow_replay_engine.OrderBook.Levels.{Event, traded, notified}
use orderflow_replay_engine.Json.{trade_to_json, order_to_json}
use orderflow_replay_engine.MarketData.{Config, Draws, generate_synthetic}
use orderflow_replay_engine.Simulator.{ExchangeSimulator, new_simulator, add_symbol, SubmitTimes}
use orderflow_replay_engine.Backtester.{TickTimes}

-- `g_limits`, `g_sim`, `g_tick_feed`, `g_feed_idx` and the two logs, the front of each first.
pub record Engine {ℓ} (W : Type ℓ) : Type ℓ where
  pub limits : RiskLimits W
  pub sim : ExchangeSimulator W
  pub tick_feed : List MarketDataTick
  pub feed_idx : ℕ
  pub trade_log : List String
  pub order_log : List String

-- What the engine uses of the C++ library: the conversions of texts, where `none` is an exception,
-- `std::sort` of samples and of ticks by their time, the random distributions for a seed and a
-- volatility, and `std::to_string(z).substr(0, 6)`.
pub record Host {ℓ} (W : Type ℓ) : Type ℓ where
  pub stod : String → Option W
  pub stoi : String → Option ℤ
  pub stoll : String → Option ℤ
  pub stoull : String → Option ℕ
  pub sort_samples : List ℤ → List ℤ
  pub sort_ticks : List MarketDataTick → List MarketDataTick
  pub draws : ℕ → W → Draws W
  pub shown : W → String

-- The readings of the clock during a command: of a snapshot, of a submission, of the ticks that a step
-- of the feed passes on (start and finish of each), and of a backtest.
pub record Clock : Type 0 where
  pub snapshot : Timestamp
  pub submit : SubmitTimes
  pub step : ℕ → Timestamp × Timestamp
  pub replay : ℕ → TickTimes
  pub replay_submit : OrderId → SubmitTimes
  pub replay_elapsed : ℤ

-- `push_back`, and `pop_front` if there are more than `n`.
unfoldable pub push_log : ℕ → String → List String → List String
push_log n x log = let xs = log ++ x ∷ [] in if ltb n (length xs) then drop 1 xs else xs

abbrev pub default_symbols : List String
default_symbols = "AAPL" ∷ "GOOG" ∷ "MSFT" ∷ "TSLA" ∷ "NVDA" ∷ []

abbrev pub feed_prices : List (String × ℕ)
feed_prices = ("AAPL", 185) ∷ ("GOOG", 140) ∷ ("MSFT", 375) ∷ ("TSLA", 245) ∷ ("NVDA", 485) ∷ []

module _ {ℓ} {W : Type ℓ} ⦃d : Double W⦄ where
  -- The two callbacks that `init_sim` sets, on the events of an operation.
  unfoldable pub log_event : Event → Engine W → Engine W
  log_event (traded t) e = record e { trade_log = push_log 500 (trade_to_json W t) e.trade_log }
  log_event (notified o) e = record e { order_log = push_log 500 (order_to_json W o) e.order_log }

  unfoldable pub log_events : List Event → Engine W → Engine W
  log_events [] e = e
  log_events (v ∷ vs) e = log_events vs (log_event v e)

  abbrev pub add_all : List String → ExchangeSimulator W → ExchangeSimulator W
  add_all [] s = s
  add_all (x ∷ xs) s = add_all xs (add_symbol x s)

  unfoldable pub init_sim : Engine W → Engine W
  init_sim e = record e { sim = add_all default_symbols (new_simulator e.limits) }

  -- The configuration of the feed of one symbol; `volatility` and `seed` go to the draws.
  abbrev pub feed_config : String → ℕ → Config W
  feed_config symbol price = record {
    symbol = symbol;
    start_price = d.lit (pos price) 1;
    spread_bps = d.lit (pos 3) 1;
    ticks = 3000;
    start_ts = pos 1700000000000000000;
    tick_interval_ns = pos 100000;
  }

  abbrev pub feed_from : Host W → ℕ → List (String × ℕ) → List MarketDataTick
  feed_from host seed [] = []
  feed_from host seed ((symbol, price) ∷ more) =
      generate_synthetic (feed_config symbol price) (host.draws seed (d.lit (pos 8) 10000))
      ++ feed_from host (suc seed) more

  unfoldable pub init_feed : Host W → Engine W → Engine W
  init_feed host e = record e {
    tick_feed = host.sort_ticks (feed_from host 42 feed_prices);
    feed_idx = 0;
  }
