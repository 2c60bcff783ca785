-- ===== src/Server/Routes.antt =====
-- The routes of src/main.cpp.
use orderflow_replay_engine.Prelude.{
  ℕ, zero, suc, ◌%◌, true, List, [], ◌∷◌, Option, none, some, String, ℤ, pos, pos_part, ltb_ℤ,
  min_ℤ, length, if◌then◌else◌,
}
use orderflow_replay_engine.Text.{◌<>◌, is_empty_text}
use orderflow_replay_engine.Double.{Double, to_price, nought}
use orderflow_replay_engine.Types.{
  Timestamp, Price, Quantity, OrderId, Order, OrderStatus, RiskLimits,
}
use orderflow_replay_engine.Json.{
  num, num_count, in_us, boolean, in_brackets, snapshot_to_json, backtest_result_to_json,
}
use orderflow_replay_engine.MarketData.{Config, generate_synthetic}
use orderflow_replay_engine.Risk.{set_limits}
use orderflow_replay_engine.Simulator.{
  SubmitTimes, submit_order, cancel_order, next_order_id, on_tick, get_snapshot, total_pnl,
}
use orderflow_replay_engine.Engine.{Host, Clock}
use orderflow_replay_engine.Engine.Fields.{jget}
use orderflow_replay_engine.Engine.Queries.{symbol_or, positions_reply, limits_reply, symbols_reply}
use orderflow_replay_engine.Engine.Orders.{
  side_of, order_type_of, or_else, at_index, order_reply, feed_tick_to_json,
}
use orderflow_replay_engine.Engine.Commands.{run_named, read_limits}
use orderflow_replay_engine.Server.{Server, log_events, reset_sim}

-- What a handler leaves in `res`: a body, a status with a body, or an exception.
pub data Response : Type 0 where
  ok : String → Response
  failed : ℕ → String → Response
  thrown : Response

-- A request, with what its route captures of the path, its body, or its parameter `n`.
pub data Request : Type 0 where
  get_status : Request
  get_book : String → Request
  get_positions : Request
  get_trades : Request
  get_orders : Request
  post_order : String → Request
  delete_order : String → String → Request
  post_feed_step : Option String → Request
  post_backtest : String → Request
  post_limits : String → Request
  get_limits : Request
  post_reset : Request
  get_symbols : Request

-- `json_get`, which has the body of `jget`
abbrev pub json_get : String → String → String
json_get = jget

-- `n` of a step of the feed: at most 100, and 1 if it is not given or not a number.
unfoldable pub steps_of : (String → Option ℤ) → Option String → ℕ
steps_of stoi none = 1
steps_of stoi (some s) = pos_part (min_ℤ (or_else (pos 1) (stoi s)) (pos 100))

-- `std::min(std::max(ticks, 100), 50000)`
abbrev pub backtest_ticks : ℤ → ℕ
backtest_ticks n = if ltb_ℤ n (pos 100) then 100 else pos_part (min_ℤ n (pos 50000))

-- The order of a body.
unfoldable pub posted_order : OrderId → String → Price → Quantity → Order
posted_order id body price qty = record {
  id = id;
  symbol = json_get body "symbol";
  side = side_of (json_get body "side");
  type = order_type_of (json_get body "type");
  price = price;
  qty = qty;
  filled_qty = pos 0;
  status = OrderStatus.pending;
  timestamp = pos 0;
  client_id = json_get body "client_id";
}

module _ {ℓ} {W : Type ℓ} ⦃d : Double W⦄ where
  -- The percentiles are reported as they stand.
  unfoldable pub status_route : Server W → Response
  status_route v =
      let sim = v.sim in
      ok (
        "{\"status\":\"ok\",\"total_orders\":"
        <> num_count W sim.total_orders
        <> ",\"total_trades\":"
        <> num_count W sim.total_trades
        <> ",\"total_rejects\":"
        <> num_count W sim.total_rejects
        <> ",\"total_pnl\":"
        <> num W (total_pnl sim)
        <> ",\"order_p50_us\":"
        <> num W (in_us W sim.order_lat.p50_ns)
        <> ",\"order_p99_us\":"
        <> num W (in_us W sim.order_lat.p99_ns)
        <> ",\"tick_p50_us\":"
        <> num W (in_us W sim.tick_lat.p50_ns)
        <> ",\"tick_p99_us\":"
        <> num W (in_us W sim.tick_lat.p99_ns)
        <> ",\"risk_checked\":"
        <> num_count W sim.risk.stats_checked
        <> ",\"risk_rejected\":"
        <> num_count W sim.risk.stats_rejected
        <> ",\"feed_size\":"
        <> num_count W (length v.tick_feed)
        <> "}")

  unfoldable pub book_route : Timestamp → String → Server W → Response
  unfolding get_snapshot snapshot_to_json
  book_route now symbol v =
      let snap = get_snapshot now symbol 10 v.sim in
      if is_empty_text snap.symbol
      then failed 404 "{\"error\":\"symbol not found\"}"
      else ok (snapshot_to_json W 10 snap)

  -- A posted order whose price and quantity are read; there is no market price.
  unfoldable pub posted : SubmitTimes → Order → Server W → Server W × Response
  unfolding log_events order_reply
  posted times o v =
      let a = submit_order times o nought v.sim in
      (log_events a.2 (record v { sim = a.0 }), ok (order_reply W o a.1))

  unfoldable pub order_route : Host W → Clock → String → Server W → Server W × Response
  unfolding posted next_order_id posted_order
  order_route host clock body v₀ =
      let (sim, id) = next_order_id v₀.sim in
      let v : Server W = record v₀ { sim = sim } in
      elim (host.stod (json_get body "price")) [
        | none ↦ (v, failed 400 "{\"error\":\"invalid price or qty\"}")
        | some price ↦ elim (host.stoll (json_get body "qty")) [
          | none ↦ (v, failed 400 "{\"error\":\"invalid price or qty\"}")
          | some qty ↦ posted clock.submit (posted_order id body (to_price price) qty) v
        ]
      ]

  unfoldable pub cancel_route : Host W → String → String → Server W → Server W × Response
  unfolding log_events boolean
  cancel_route host id_text symbol v = elim (host.stoull id_text) [
    | none ↦ (v, thrown)
    | some id ↦
        let a = cancel_order symbol id v.sim in
        (log_events a.1 (record v { sim = a.0 }), ok ("{\"cancelled\":" <> boolean a.2 <> "}"))
  ]

  -- The loop over the ticks. The feed is not empty, or the source divides by zero; here it stops.
  unfoldable pub feed_steps : Clock → ℕ → ℕ → Server W → Server W × List String
  unfolding feed_tick_to_json
  feed_steps clock zero i v = (v, [])
  feed_steps clock (suc n) i v = elim (at_index (v.feed_idx % length v.tick_feed) v.tick_feed) [
    | none ↦ (v, [])
    | some tick ↦
        let times = clock.step i in
        let rest =
          feed_steps clock n (suc i)
            (record v { sim = on_tick times.0 times.1 tick v.sim; feed_idx = suc v.feed_idx }) in
        (rest.0, feed_tick_to_json W tick ∷ rest.1)
  ]

  unfoldable pub feed_step_route : Host W → Clock → Option String → Server W → Server W × Response
  unfolding feed_steps steps_of in_brackets
  feed_step_route host clock n v =
      let a = feed_steps clock (steps_of host.stoi n) 0 v in (a.0, ok (in_brackets a.1))

  abbrev pub route_limits : RiskLimits W
  route_limits = record {
    max_order_qty = pos 10000;
    max_position = pos 200000;
    max_notional_usd = d.lit (pos 100_000_000) 1;
    max_orders_per_sec = pos 5000;
    enabled = true;
  }

  abbrev pub route_config : String → W → ℕ → Config W
  route_config symbol start_price ticks = record {
    symbol = symbol;
    start_price = start_price;
    spread_bps = d.lit (pos 5) 1;
    ticks = ticks;
    start_ts = pos 1700000000000000000;
    tick_interval_ns = pos 100000;
  }

  unfoldable pub backtest_route : Host W → Clock → String → Response
  unfolding run_named generate_synthetic backtest_result_to_json
  backtest_route host clock body =
      let symbol = symbol_or (json_get body "symbol") in
      let ticks = backtest_ticks (or_else (pos 5000) (host.stoi (json_get body "ticks"))) in
      let start_price = or_else (d.lit (pos 150) 1) (host.stod (json_get body "start_price")) in
      let feed =
        generate_synthetic (route_config symbol start_price ticks)
          (host.draws 123 (d.lit (pos 1) 1000)) in
      ok (
        backtest_result_to_json W
          (run_named host clock route_limits (json_get body "strategy") symbol feed))

  unfoldable pub limits_route : Host W → String → Server W → Server W × Response
  unfolding read_limits set_limits
  limits_route host body v =
      let a = read_limits host body v.limits in
      if a.1
      then (
        record v { limits = a.0; sim = record (v.sim) { risk = set_limits a.0 v.sim.risk } },
        ok "{\"ok\":true}",
      )
      else (record v { limits = a.0 }, failed 400 "{\"error\":\"bad limits\"}")

  unfoldable pub reset_route : Server W → Server W × Response
  unfolding reset_sim
  reset_route v =
      (reset_sim (record v { recent_trades = []; recent_orders = [] }), ok "{\"reset\":true}")

  unfoldable pub respond : Host W → Clock → Request → Server W → Server W × Response
  unfolding status_route book_route positions_reply order_route cancel_route feed_step_route
      backtest_route limits_route limits_reply reset_route symbols_reply in_brackets
  respond host clock get_status v = (v, status_route v)
  respond host clock (get_book symbol) v = (v, book_route clock.snapshot symbol v)
  respond host clock get_positions v = (v, ok (positions_reply v.sim))
  respond host clock get_trades v = (v, ok (in_brackets v.recent_trades))
  respond host clock get_orders v = (v, ok (in_brackets v.recent_orders))
  respond host clock (post_order body) v = order_route host clock body v
  respond host clock (delete_order id symbol) v = cancel_route host id symbol v
  respond host clock (post_feed_step n) v = feed_step_route host clock n v
  respond host clock (post_backtest body) v = (v, backtest_route host clock body)
  respond host clock (post_limits body) v = limits_route host body v
  respond host clock get_limits v = (v, ok (limits_reply v.sim.risk.limits))
  respond host clock post_reset v = reset_route v
  respond host clock get_symbols v = (v, ok (symbols_reply v.sim))

  -- Requests one after another, with the readings of the clock for each.
  unfoldable pub respond_all : Host W → List (Clock × Request) → Server W → Server W × List Response
  unfolding respond
  respond_all host [] v = (v, [])
  respond_all host ((clock, request) ∷ more) v =
      let a = respond host clock request v in
      let rest = respond_all host more a.0 in (rest.0, a.1 ∷ rest.1)
