-- ===== src/Server.antt =====
-- src/main.cpp: the state behind the routes of the HTTP server, its logs, and what is done at the start.
-- The library that listens, picks the route of a request and sends the response is not modelled; a
-- request is one step.
pub mod Routes
pub mod Steady
pub mod Agreement
pub mod Running
pub mod Percentiles
mod Examples
use orderflow_replay_engine.Prelude.{ℕ, suc, List, [], ◌∷◌, ◌++◌, String, pos, true}
use orderflow_replay_engine.Double.{Double}
use orderflow_replay_engine.Types.{MarketDataTick, RiskLimits}
use orderflow_replay_engine.OrderBook.Levels.{Event, traded, notified}
use orderflow_replay_engine.Json.{trade_to_json, order_to_json}
use orderflow_replay_engine.MarketData.{Config, generate_synthetic}
use orderflow_replay_engine.Simulator.{ExchangeSimulator, new_simulator}
use orderflow_replay_engine.Engine.{Host, push_log, add_all, default_symbols, feed_prices}

-- `g_limits`, `g_sim`, `g_tick_feed`, `g_feed_idx` and the two logs, the front of each first.
pub record Server {ℓ} (W : Type ℓ) : Type ℓ where
  pub limits : RiskLimits W
  pub sim : ExchangeSimulator W
  pub tick_feed : List MarketDataTick
  pub feed_idx : ℕ
  pub recent_trades : List String
  pub recent_orders : List String

abbrev pub max_log : ℕ
max_log = 200

module _ {ℓ} {W : Type ℓ} ⦃d : Double W⦄ where
  -- `log_trade` and `log_order`
  unfoldable pub log_event : Event → Server W → Server W
  unfolding push_log
  log_event (traded t) v = record v {
    recent_trades = push_log max_log (trade_to_json W t) v.recent_trades;
  }
  log_event (notified o) v = record v {
    recent_orders = push_log max_log (order_to_json W o) v.recent_orders;
  }

  unfoldable pub log_events : List Event → Server W → Server W
  unfolding log_event
  log_events [] v = v
  log_events (x ∷ xs) v = log_events xs (log_event x v)

  unfoldable pub reset_sim : Server W → Server W
  reset_sim v = record v { sim = add_all default_symbols (new_simulator v.limits) }

  abbrev pub feed_config : String → ℕ → Config W
  feed_config symbol price = record {
    symbol = symbol;
    start_price = d.lit (pos price) 1;
    spread_bps = d.lit (pos 5) 1;
    ticks = 2000;
    start_ts = pos 1700000000000000000;
    tick_interval_ns = pos 100000;
  }

  abbrev pub feed_from : Host W → ℕ → List (String × ℕ) → List MarketDataTick
  feed_from host seed [] = []
  feed_from host seed ((symbol, price) ∷ more) =
      generate_synthetic (feed_config symbol price) (host.draws seed (d.lit (pos 8) 10000))
      ++ feed_from host (suc seed) more

  abbrev start_limits : RiskLimits W
  start_limits = record {
    max_order_qty = pos 10000;
    max_position = pos 500000;
    max_notional_usd = d.lit (pos 50_000_000) 1;
    max_orders_per_sec = pos 2000;
    enabled = true;
  }

  -- The server when `main` starts to listen.
  unfoldable pub new_server : Host W → Server W
  unfolding reset_sim
  new_server host = reset_sim (record {
    limits = start_limits;
    sim = new_simulator start_limits;
    tick_feed = host.sort_ticks (feed_from host 42 feed_prices);
    feed_idx = 0;
    recent_trades = [];
    recent_orders = [];
  })
