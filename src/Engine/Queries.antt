-- ===== src/Engine/Queries.antt =====
-- The commands of src/engine_cli.cpp that only ask.
use orderflow_replay_engine.Prelude.{String, map, length, if◌then◌else◌}
use orderflow_replay_engine.Text.{◌<>◌, is_empty_text}
use orderflow_replay_engine.Double.{Double}
use orderflow_replay_engine.Types.{Timestamp, RiskLimits}
use orderflow_replay_engine.Latency.{compute_percentiles}
use orderflow_replay_engine.Json.{
  num, num_int, num_count, in_us, str, boolean, in_brackets, snapshot_to_json, position_to_json,
}
use orderflow_replay_engine.Simulator.{
  ExchangeSimulator, total_pnl, all_positions, get_snapshot, symbols,
}
use orderflow_replay_engine.Engine.{Engine, Host}
use orderflow_replay_engine.Engine.Fields.{jget}

-- A symbol that is not given is AAPL.
abbrev pub symbol_or : String → String
symbol_or s = if is_empty_text s then "AAPL" else s

module _ {ℓ} {W : Type ℓ} ⦃d : Double W⦄ where
  unfoldable pub status_command : Host W → Engine W → Engine W × String
  status_command host e₀ =
      let sim = record (e₀.sim) {
        order_lat = compute_percentiles host.sort_samples e₀.sim.order_lat;
        tick_lat = compute_percentiles host.sort_samples e₀.sim.tick_lat;
      } in
      let e : Engine W = record e₀ { sim = sim } in
      (
        e,
        "{\"total_orders\":"
            <> num_count W sim.total_orders
            <> ",\"total_trades\":"
            <> num_count W sim.total_trades
            <> ",\"total_rejects\":"
            <> num_count W sim.total_rejects
            <> ",\"total_pnl\":"
            <> num W (total_pnl sim)
            <> ",\"order_p50_us\":"
            <> num W (in_us W sim.order_lat.p50_ns)
            <> ",\"order_p99_us\":"
            <> num W (in_us W sim.order_lat.p99_ns)
            <> ",\"tick_p50_us\":"
            <> num W (in_us W sim.tick_lat.p50_ns)
            <> ",\"tick_p99_us\":"
            <> num W (in_us W sim.tick_lat.p99_ns)
            <> ",\"risk_checked\":"
            <> num_count W sim.risk.stats_checked
            <> ",\"risk_rejected\":"
            <> num_count W sim.risk.stats_rejected
            <> ",\"feed_size\":"
            <> num_count W (length e.tick_feed)
            <> ",\"feed_idx\":"
            <> num_count W e.feed_idx
            <> "}",
      )

  unfoldable pub book_reply : Timestamp → String → Engine W → String
  unfolding snapshot_to_json get_snapshot
  book_reply now payload e =
      snapshot_to_json W 10 (get_snapshot now (symbol_or (jget payload "symbol")) 10 e.sim)

  unfoldable pub positions_reply : ExchangeSimulator W → String
  unfolding in_brackets position_to_json
  positions_reply s = in_brackets (map (λ p. position_to_json W p.1) (all_positions s))

  unfoldable pub limits_reply : RiskLimits W → String
  unfolding boolean
  limits_reply l =
      "{\"max_order_qty\":"
      <> num_int W l.max_order_qty
      <> ",\"max_position\":"
      <> num_int W l.max_position
      <> ",\"max_notional_usd\":"
      <> d.fixed 0 l.max_notional_usd
      <> ",\"max_orders_per_sec\":"
      <> num_int W l.max_orders_per_sec
      <> ",\"enabled\":"
      <> boolean l.enabled
      <> "}"

  unfoldable pub symbols_reply : ExchangeSimulator W → String
  unfolding in_brackets symbols str
  symbols_reply s = in_brackets (map str (symbols s))
