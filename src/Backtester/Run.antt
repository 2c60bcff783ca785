-- ===== src/Backtester/Run.antt =====
-- `Backtester::run` of src/core/simulator.cpp: what it sets up, and what it sums up after the loop over
-- the ticks.
use orderflow_replay_engine.Prelude.{
  not, ◌&&◌, List, [], ◌∷◌, String, ℤ, pos, ltb, if◌then◌else◌, is_empty, length, map,
}
use orderflow_replay_engine.Double.{Double, nought}
use orderflow_replay_engine.Types.{OrderId, MarketDataTick, RiskLimits, Position}
use orderflow_replay_engine.Latency.{compute_percentiles}
use orderflow_replay_engine.Strategy.{IStrategy}
use orderflow_replay_engine.Strategy.Momentum.{sum_from}
use orderflow_replay_engine.Strategy.MeanReversion.{squares_from}
use orderflow_replay_engine.Simulator.{
  ExchangeSimulator, new_simulator, SubmitTimes, add_symbol, total_pnl, all_positions,
}
use orderflow_replay_engine.Backtester.{
  BacktestResult, Replay, TickTimes, contains, init_strategy, empty_result, replay,
}

module _ {ℓ} {W : Type ℓ} ⦃d : Double W⦄ where
  -- The simulator of a run: the symbols given, or else those of the ticks.
  abbrev pub add_symbols : List String → ExchangeSimulator W → ExchangeSimulator W
  add_symbols [] s = s
  add_symbols (x ∷ xs) s = add_symbols xs (add_symbol x s)

  abbrev pub add_from :
      List MarketDataTick → List String → ExchangeSimulator W → ExchangeSimulator W
  add_from [] seen s = s
  add_from (t ∷ ts) seen s =
      if contains t.symbol seen
      then add_from ts seen s
      else add_from ts (t.symbol ∷ seen) (add_symbol t.symbol s)

  unfoldable pub set_up : RiskLimits W → List String → List MarketDataTick → ExchangeSimulator W
  set_up limits symbols ticks =
      let s = add_symbols symbols (new_simulator limits) in
      if is_empty symbols && not (is_empty ticks) then add_from ticks [] s else s

  abbrev pub differences : List W → List W
  differences [] = []
  differences (x ∷ []) = []
  differences (x ∷ y ∷ xs) = d.sub y x ∷ differences (y ∷ xs)

  unfoldable pub sharpe_of : List W → W
  sharpe_of curve =
      let returns = differences curve in
      let n = d.of_int (pos (length returns)) in
      let mean = d.div (sum_from nought returns) n in
      let std_dev = d.sqrt (d.div (squares_from mean nought returns) n) in
      if ltb 2 (length curve)
      then if d.lt (d.lit (pos 1) 1_000_000_000) std_dev
        then d.mul (d.div mean std_dev) (d.sqrt (d.of_int (pos 252)))
        else nought
      else nought

  abbrev pub add_realized : W → List (String × Position W) → W
  add_realized total [] = total
  add_realized total ((s, p) ∷ ps) = add_realized (d.add total p.realized_pnl) ps

  abbrev pub add_unrealized : W → List (String × Position W) → W
  add_unrealized total [] = total
  add_unrealized total ((s, p) ∷ ps) = add_unrealized (d.add total p.unrealized_pnl) ps

  -- What `run` fills in after the loop. `sort` is `std::sort`, `elapsed` the time of the loop in
  -- nanoseconds.
  unfoldable pub summarize :
      (List ℤ → List ℤ) → ℤ → ExchangeSimulator W → BacktestResult W → BacktestResult W
  unfolding sharpe_of
  summarize sort elapsed sim r =
      let elapsed_s = d.div (d.of_int elapsed) (d.lit (pos 1_000_000_000) 1) in
      record r {
        pnl = total_pnl sim;
        realized_pnl = add_realized r.realized_pnl (all_positions sim);
        unrealized_pnl = add_unrealized r.unrealized_pnl (all_positions sim);
        order_latency = compute_percentiles sort sim.order_lat;
        tick_latency = compute_percentiles sort r.tick_latency;
        throughput_eps =
            if d.lt nought elapsed_s
            then d.div (d.of_int (pos r.ticks_processed)) elapsed_s
            else nought;
        sharpe = sharpe_of r.equity_curve;
      }

  -- `run` with a strategy that is set.
  unfoldable pub run {κ} :
      {S : Type κ}
      → IStrategy S
      → (OrderId → SubmitTimes)
      → (List ℤ → List ℤ)
      → ℤ
      → RiskLimits W
      → List String
      → List (TickTimes × MarketDataTick)
      → S
      → BacktestResult W
  unfolding replay init_strategy set_up summarize
  run {S = S} strategy times sort elapsed limits symbols timed s =
      let ticks = map (λ x. x.1) timed in
      let start : Replay W S = record {
        sim = set_up limits symbols ticks;
        strategy = init_strategy strategy ticks [] s;
        result = record empty_result { strategy_name = strategy.name };
        live_orders = [];
        peak_equity = d.lowest;
      } in
      let p = replay strategy times timed start in
      if is_empty ticks then empty_result else summarize sort elapsed p.sim p.result
