-- ===== src/Backtester/Sound.antt =====
-- The simulator in a run of the `Backtester` of src/core/simulator.cpp.
use orderflow_replay_engine.Prelude.{
  ◌≡◌, refl, sym, subst, inl, inr, true, List, [], ◌∷◌, ◌%◌, ◌==◌, Bool-cases, String, not, ◌&&◌,
  is_empty,
}
use orderflow_replay_engine.Double.{Double, from_price}
use orderflow_replay_engine.Types.{OrderId, Order, Side, Trade, MarketDataTick, RiskLimits}
use orderflow_replay_engine.Strategy.{Action, StrategySignal, IStrategy}
use orderflow_replay_engine.Simulator.{
  ExchangeSimulator, new_simulator, SubmitTimes, SubmitResult, submit_order, cancel_order,
  next_order_id, on_tick, get_snapshot, add_symbol,
}
use orderflow_replay_engine.Simulator.Running.{
  IsRunning, new_simulator-IsRunning, add_symbol-IsRunning, submit_order-IsRunning,
  cancel_order-IsRunning, on_tick-IsRunning,
}
use orderflow_replay_engine.Backtester.{
  Replay, TickTimes, report_trades, report, place, process_signal, process_signals, cancel_each,
  sample_equity, replay_tick, replay, order_of, contains,
}
use orderflow_replay_engine.Backtester.Run.{set_up, add_symbols, add_from}

module _ {ℓ} {W : Type ℓ} ⦃d : Double W⦄ where
  cancel_each-IsRunning :
      (m : List (OrderId × Order)) (s : ExchangeSimulator W)
      → IsRunning s
      → IsRunning (cancel_each m s)
  unfolding cancel_each
  cancel_each-IsRunning [] s r = r
  cancel_each-IsRunning ((id, o) ∷ m) s r =
      cancel_each-IsRunning m (cancel_order o.symbol id s).0
        (cancel_order-IsRunning o.symbol id s r)

  add_symbols-IsRunning :
      (xs : List String) (s : ExchangeSimulator W) → IsRunning s → IsRunning (add_symbols xs s)
  add_symbols-IsRunning [] s r = r
  add_symbols-IsRunning (x ∷ xs) s r =
      add_symbols-IsRunning xs (add_symbol x s) (add_symbol-IsRunning x s r)

  add_from-IsRunning :
      (ts : List MarketDataTick) (seen : List String) (s : ExchangeSimulator W)
      → IsRunning s
      → IsRunning (add_from ts seen s)
  add_from-IsRunning [] seen s r = r
  add_from-IsRunning (t ∷ ts) seen s r = elim (Bool-cases (contains t.symbol seen)) [
    | inl e ↦ rw e (add_from-IsRunning ts seen s r)
    | inr e ↦ rw e (
        add_from-IsRunning ts (t.symbol ∷ seen) (add_symbol t.symbol s)
          (add_symbol-IsRunning t.symbol s r))
  ]

  -- The simulator that a backtest with the checks on starts from is running.
  pub set_up-IsRunning :
      (limits : RiskLimits W) (symbols : List String) (ticks : List MarketDataTick)
      → limits.enabled ≡ true
      → IsRunning (set_up limits symbols ticks)
  unfolding set_up
  set_up-IsRunning limits symbols ticks e =
      let r =
        add_symbols-IsRunning symbols (new_simulator limits) (new_simulator-IsRunning limits e) in
      elim (Bool-cases (is_empty symbols && not (is_empty ticks))) [
        | inl k ↦ rw k (add_from-IsRunning ticks [] _ r)
        | inr k ↦ rw k r
      ]

  module _ {κ} {S : Type κ} (strategy : IStrategy S) (times : OrderId → SubmitTimes) where
    report_trades-sim :
        (ts : List Trade) (p : Replay W S) → (report_trades strategy times ts p).sim ≡ p.sim
    unfolding report_trades
    report_trades-sim [] p = refl
    report_trades-sim (t ∷ ts) p = report_trades-sim ts _

    report-sim :
        (o : Order) (res : SubmitResult) (p : Replay W S)
        → (report strategy times o res p).sim ≡ p.sim
    unfolding report
    report-sim o res p = elim (Bool-cases res.approved) [
      | inl e ↦ rw e (report_trades-sim res.trades _)
      | inr e ↦ rw e refl
    ]

    place-IsRunning :
        (side : Side) (sig : StrategySignal) (tick : MarketDataTick) (p : Replay W S)
        → IsRunning p.sim
        → IsRunning (place strategy times side sig tick p).sim
    unfolding place order_of
    place-IsRunning side sig tick p r =
        let id = (next_order_id p.sim).1 in
        let o = order_of id side sig tick in
        let px = from_price tick.last_price in
        let a = submit_order (times id) o px (next_order_id p.sim).0 in
        subst IsRunning (sym (report-sim o a.1 _))
          (submit_order-IsRunning (times id) o px p.sim refl refl r)

    process_signal-IsRunning :
        (x : Action) (sig : StrategySignal) (tick : MarketDataTick) (p : Replay W S)
        → IsRunning p.sim
        → IsRunning (process_signal strategy times x sig tick p).sim
    process_signal-IsRunning Action.nothing sig tick p r = r
    process_signal-IsRunning Action.cancel sig tick p r =
        cancel_order-IsRunning tick.symbol sig.cancel_id p.sim r
    process_signal-IsRunning Action.cancel_all sig tick p r =
        cancel_each-IsRunning p.live_orders p.sim r
    process_signal-IsRunning Action.buy sig tick p r = place-IsRunning Side.buy sig tick p r
    process_signal-IsRunning Action.sell sig tick p r = place-IsRunning Side.sell sig tick p r

    process_signals-IsRunning :
        (sigs : List StrategySignal) (tick : MarketDataTick) (p : Replay W S)
        → IsRunning p.sim
        → IsRunning (process_signals strategy times sigs tick p).sim
    unfolding process_signals
    process_signals-IsRunning [] tick p r = r
    process_signals-IsRunning (sig ∷ sigs) tick p r =
        process_signals-IsRunning sigs tick _ (process_signal-IsRunning sig.action sig tick p r)

    replay_tick-IsRunning :
        (at : TickTimes) (tick : MarketDataTick) (p : Replay W S)
        → IsRunning p.sim
        → IsRunning (replay_tick strategy times at tick p).sim
    unfolding replay_tick sample_equity
    replay_tick-IsRunning at tick p r =
        let sim = on_tick at.tick_start at.tick_finish tick p.sim in
        let a = strategy.on_tick tick (get_snapshot at.snapshot tick.symbol 10 sim) p.strategy in
        let p' : Replay W S = record p { sim = sim; strategy = a.0 } in
        let q : Replay W S = process_signals strategy times a.1 tick p' in
        let k : IsRunning q.sim =
          process_signals-IsRunning a.1 tick p'
            (on_tick-IsRunning at.tick_start at.tick_finish tick p.sim r) in
        elim (Bool-cases (q.result.ticks_processed % 100 == 0)) [
          | inl e ↦ simp e k
          | inr e ↦ simp e k
        ]

    -- Whatever the strategy does on the ticks of a replay, every book of the simulator stays well
    -- formed and uncrossed, and only ids that were given out rest in them, if this holds at the start
    -- and the checks are on.
    pub replay-IsRunning :
        (timed : List (TickTimes × MarketDataTick)) (p : Replay W S)
        → IsRunning p.sim
        → IsRunning (replay strategy times timed p).sim
    unfolding replay
    replay-IsRunning [] p r = r
    replay-IsRunning ((at, tick) ∷ timed) p r =
        replay-IsRunning timed _ (replay_tick-IsRunning at tick p r)
