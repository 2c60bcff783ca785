-- ===== src/Json.antt =====
-- src/network/serializer.hpp: orders, trades, books, positions and results as JSON texts.
pub mod Strings
mod Examples
use Prim.Native.String as Str
use orderflow_replay_engine.Prelude.{
  ℕ, Bool, true, false, List, [], ◌∷◌, String, ℤ, pos, map, take, if◌then◌else◌,
}
use orderflow_replay_engine.Text.{◌<>◌, is_code}
use orderflow_replay_engine.Double.{Double, from_price}
use orderflow_replay_engine.Types.{
  Side, buy, sell, OrderType, limit, market, ioc, fok, Order, OrderStatus, Trade, L2Level,
  OrderBookSnapshot, snapshot_best_bid, snapshot_best_ask, snapshot_mid, snapshot_spread, Position,
  notional,
}
use orderflow_replay_engine.Latency.{LatencyStats, avg_us}
use orderflow_replay_engine.Backtester.{BacktestResult}

-- The loop of `J::str`: a quotation mark and a backslash get a backslash in front.
unfoldable pub escape : String → String
escape Str.[] = ""
escape (Str.◌∷◌ c s) =
    let later = escape s in
    if is_code 34 c
    then "\\\"" <> later
    else if is_code 92 c
    then "\\\\" <> later
    else Str.◌∷◌ c later

unfoldable pub str : String → String
unfolding escape
str s = "\"" <> escape s <> "\""

unfoldable pub boolean : Bool → String
boolean true = "true"
boolean false = "false"

-- The loops that put a comma in front of every item but the first.
unfoldable pub separated : List String → String
separated [] = ""
separated (x ∷ []) = x
separated (x ∷ y ∷ xs) = x <> "," <> separated (y ∷ xs)

unfoldable pub in_brackets : List String → String
unfolding separated
in_brackets xs = "[" <> separated xs <> "]"

abbrev pub side_name : Side → String
side_name buy = "BUY"
side_name sell = "SELL"

abbrev pub order_type_name : OrderType → String
order_type_name limit = "LIMIT"
order_type_name market = "MARKET"
order_type_name ioc = "IOC"
order_type_name fok = "FOK"

abbrev pub status_name : OrderStatus → String
status_name OrderStatus.pending = "PENDING"
status_name OrderStatus.new = "NEW"
status_name OrderStatus.partially_filled = "PARTIALLY_FILLED"
status_name OrderStatus.filled = "FILLED"
status_name OrderStatus.cancelled = "CANCELLED"
status_name OrderStatus.rejected = "REJECTED"
status_name OrderStatus.expired = "EXPIRED"

module _ {ℓ} (W : Type ℓ) ⦃d : Double W⦄ where
  -- `J::num`, of a `double` with 4 digits, of an integer, and of a count
  abbrev pub num : W → String
  num x = d.fixed 4 x

  abbrev pub num_int : ℤ → String
  num_int n = d.int_to_string n

  abbrev pub num_count : ℕ → String
  num_count n = d.int_to_string (pos n)

  unfoldable pub order_to_json : Order → String
  unfolding str
  order_to_json o =
      "{\"id\":"
      <> num_count o.id
      <> ",\"symbol\":"
      <> str o.symbol
      <> ",\"side\":"
      <> str (side_name o.side)
      <> ",\"type\":"
      <> str (order_type_name o.type)
      <> ",\"price\":"
      <> num (from_price o.price)
      <> ",\"qty\":"
      <> num_int o.qty
      <> ",\"filled_qty\":"
      <> num_int o.filled_qty
      <> ",\"status\":"
      <> str (status_name o.status)
      <> ",\"timestamp\":"
      <> num_int o.timestamp
      <> "}"

  unfoldable pub trade_to_json : Trade → String
  unfolding str
  trade_to_json t =
      "{\"trade_id\":"
      <> num_count t.trade_id
      <> ",\"buy_order_id\":"
      <> num_count t.buy_order_id
      <> ",\"sell_order_id\":"
      <> num_count t.sell_order_id
      <> ",\"symbol\":"
      <> str t.symbol
      <> ",\"price\":"
      <> num (from_price t.price)
      <> ",\"qty\":"
      <> num_int t.qty
      <> ",\"timestamp\":"
      <> num_int t.timestamp
      <> "}"

  unfoldable pub level_to_json : L2Level → String
  level_to_json l =
      "{\"price\":"
      <> num (from_price l.price)
      <> ",\"qty\":"
      <> num_int l.qty
      <> ",\"orders\":"
      <> num_count l.order_count
      <> "}"

  unfoldable pub snapshot_to_json : ℕ → OrderBookSnapshot → String
  unfolding str in_brackets level_to_json snapshot_best_bid snapshot_best_ask snapshot_mid
      snapshot_spread
  snapshot_to_json depth s =
      "{\"symbol\":"
      <> str s.symbol
      <> ",\"timestamp\":"
      <> num_int s.timestamp
      <> ",\"best_bid\":"
      <> num (from_price (snapshot_best_bid s))
      <> ",\"best_ask\":"
      <> num (from_price (snapshot_best_ask s))
      <> ",\"mid\":"
      <> num (from_price (snapshot_mid s))
      <> ",\"spread\":"
      <> d.fixed 6 (snapshot_spread s)
      <> ",\"bids\":"
      <> in_brackets (map level_to_json (take depth s.bids))
      <> ",\"asks\":"
      <> in_brackets (map level_to_json (take depth s.asks))
      <> "}"

  unfoldable pub position_to_json : Position W → String
  unfolding str notional
  position_to_json p =
      "{\"symbol\":"
      <> str p.symbol
      <> ",\"net_qty\":"
      <> num_int p.net_qty
      <> ",\"avg_price\":"
      <> num p.avg_price
      <> ",\"realized_pnl\":"
      <> num p.realized_pnl
      <> ",\"unrealized_pnl\":"
      <> num p.unrealized_pnl
      <> ",\"notional\":"
      <> num (notional p)
      <> "}"

  -- `ns / 1000.0`
  abbrev pub in_us : ℤ → W
  in_us ns = d.div (d.of_int ns) (d.lit (pos 1000) 1)

  unfoldable pub backtest_result_to_json : BacktestResult W → String
  unfolding str in_brackets trade_to_json avg_us
  backtest_result_to_json r =
      "{\"strategy\":"
      <> str r.strategy_name
      <> ",\"ticks_processed\":"
      <> num_count r.ticks_processed
      <> ",\"orders_submitted\":"
      <> num_count r.orders_submitted
      <> ",\"orders_filled\":"
      <> num_count r.orders_filled
      <> ",\"orders_rejected\":"
      <> num_count r.orders_rejected
      <> ",\"trades_count\":"
      <> num_count r.trades_count
      <> ",\"total_pnl\":"
      <> num r.pnl
      <> ",\"realized_pnl\":"
      <> num r.realized_pnl
      <> ",\"unrealized_pnl\":"
      <> num r.unrealized_pnl
      <> ",\"max_drawdown\":"
      <> num r.max_drawdown
      <> ",\"sharpe\":"
      <> num r.sharpe
      <> ",\"order_p50_us\":"
      <> num (in_us r.order_latency.p50_ns)
      <> ",\"order_p99_us\":"
      <> num (in_us r.order_latency.p99_ns)
      <> ",\"order_avg_us\":"
      <> num (avg_us r.order_latency)
      <> ",\"tick_p50_us\":"
      <> num (in_us r.tick_latency.p50_ns)
      <> ",\"tick_p99_us\":"
      <> num (in_us r.tick_latency.p99_ns)
      <> ",\"throughput_eps\":"
      <> num r.throughput_eps
      <> ",\"equity_curve\":"
      <> in_brackets (map num r.equity_curve)
      <> ",\"trades\":"
      <> in_brackets (map trade_to_json (take 500 r.trades))
      <> "}"
