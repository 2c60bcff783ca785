-- ===== src/Backtester/Tally.antt =====
-- The counters of a run of the `Backtester` of src/core/simulator.cpp against those of its simulator.
use orderflow_replay_engine.Prelude.{
  suc, ◌≡◌, refl, sym, ap, subst, ◌∙◌, inl, inr, List, [], ◌∷◌, String, length, length-append,
  arith, Bool-cases, lookup, Option-cases, if◌then◌else◌, ◌%◌, ◌==◌,
}
use orderflow_replay_engine.Double.{Double, from_price}
use orderflow_replay_engine.Types.{OrderId, Order, Side, Trade, MarketDataTick}
use orderflow_replay_engine.Strategy.{Action, StrategySignal, IStrategy}
use orderflow_replay_engine.Simulator.{
  ExchangeSimulator, SubmitTimes, SubmitResult, submit_order, cancel_order, next_order_id, on_tick,
  get_snapshot,
}
use orderflow_replay_engine.Simulator.Submit.{submit_order-cases}
use orderflow_replay_engine.Backtester.{
  Replay, TickTimes, report_trades, report, place, process_signal, process_signals, cancel_each,
  sample_equity, replay_tick, replay, order_of,
}

-- The counters of the result agree with the simulator's: the orders submitted and rejected with its
-- totals, and `orders_filled` and `trades_count` both with the number of trades kept.
pub record IsTallied {ℓ κ} {W : Type ℓ} {S : Type κ} (p : Replay W S) : Type 0 where
  pub submitted : p.result.orders_submitted ≡ p.sim.total_orders
  pub rejected : p.result.orders_rejected ≡ p.sim.total_rejects
  pub filled : p.result.orders_filled ≡ length p.result.trades
  pub counted : p.result.trades_count ≡ length p.result.trades

module _ {ℓ κ} {W : Type ℓ} ⦃d : Double W⦄ {S : Type κ} (strategy : IStrategy S)
    (times : OrderId → SubmitTimes) where
  -- What the loop over the trades leaves of the counters.
  report_trades-IsTallied :
      (ts : List Trade) (p : Replay W S)
      → IsTallied p
      → IsTallied (report_trades strategy times ts p)
  unfolding report_trades
  report_trades-IsTallied [] p h = h
  report_trades-IsTallied (t ∷ ts) p h = report_trades-IsTallied ts _ (record {
    submitted = h.submitted;
    rejected = h.rejected;
    filled = omega (arith, length-append p.result.trades (t ∷ []), h.filled);
    counted = omega (arith, length-append p.result.trades (t ∷ []), h.counted);
  })

  report-IsTallied :
      (o : Order) (res : SubmitResult) (p : Replay W S)
      → p.result.orders_submitted ≡ p.sim.total_orders
      → p.sim.total_rejects
        ≡ (if res.approved then p.result.orders_rejected else suc p.result.orders_rejected)
      → p.result.orders_filled ≡ length p.result.trades
      → p.result.trades_count ≡ length p.result.trades
      → IsTallied (report strategy times o res p)
  unfolding report
  report-IsTallied o res p hs hr hf hc = elim (Bool-cases res.approved) [
    | inl e ↦
        let r = hr ∙ (rw e refl) in
        let k =
          report_trades-IsTallied res.trades _
            (record { submitted = hs; rejected = sym r; filled = hf; counted = hc }) in
        simp e (record {
          submitted = k.submitted;
          rejected = k.rejected;
          filled = k.filled;
          counted = k.counted;
        })
    | inr e ↦
        let r : p.sim.total_rejects ≡ suc p.result.orders_rejected = hr ∙ (rw e refl) in
        simp e (record { submitted = hs; rejected = sym r; filled = hf; counted = hc })
  ]

  -- How `submit_order` moves the simulator's counters.
  rejects_moved :
      (at : SubmitTimes) (o : Order) (px : W) (s : ExchangeSimulator W)
      → (submit_order at o px s).0.total_rejects
        ≡ (if (submit_order at o px s).1.approved then s.total_rejects else suc s.total_rejects)
  rejects_moved at o px s = elim ((submit_order-cases at o px s).1) [
    | inl (e, t) ↦ t.rejects_eq ∙ (rw t.approved_eq refl)
    | inr (inl (e, n, t)) ↦ t.rejects_eq ∙ (rw t.approved_eq refl)
    | inr (inr (b, e, n, t)) ↦ t.rejects_eq ∙ (rw t.approved_eq refl)
  ]

  place-IsTallied :
      (side : Side) (sig : StrategySignal) (tick : MarketDataTick) (p : Replay W S)
      → IsTallied p
      → IsTallied (place strategy times side sig tick p)
  unfolding place next_order_id
  place-IsTallied side sig tick p h =
      let s = next_order_id p.sim in
      let o = order_of s.1 side sig tick in
      let px = from_price tick.last_price in
      let a = submit_order (times s.1) o px s.0 in
      let n = (submit_order-cases (times s.1) o px s.0).0 in
      let m = rejects_moved (times s.1) o px s.0 in
      let moved =
        subst (λ k. a.0.total_rejects ≡ (if a.1.approved then k else suc k)) (sym h.rejected) m in
      report-IsTallied o a.1 _ (ap suc h.submitted ∙ sym n) moved h.filled h.counted

  -- The counters of the simulator are as they were.
  record SameTotals (s t : ExchangeSimulator W) : Type 0 where
    orders_eq : t.total_orders ≡ s.total_orders
    rejects_eq : t.total_rejects ≡ s.total_rejects

  cancel_order-SameTotals :
      (symbol : String) (id : OrderId) (s : ExchangeSimulator W)
      → SameTotals s (cancel_order symbol id s).0
  unfolding cancel_order
  cancel_order-SameTotals symbol id s = elim (Option-cases (lookup symbol s.books)) [
    | inl e ↦ rw (e, cancel_order) (record { orders_eq = refl; rejects_eq = refl })
    | inr (b, e) ↦ rw (e, cancel_order) (record { orders_eq = refl; rejects_eq = refl })
  ]

  cancel_each-SameTotals :
      (m : List (OrderId × Order)) (s : ExchangeSimulator W) → SameTotals s (cancel_each m s)
  unfolding cancel_each
  cancel_each-SameTotals [] s = record { orders_eq = refl; rejects_eq = refl }
  cancel_each-SameTotals ((id, o) ∷ m) s =
      let k = cancel_order-SameTotals o.symbol id s in
      let l = cancel_each-SameTotals m (cancel_order o.symbol id s).0 in
      record { orders_eq = l.orders_eq ∙ k.orders_eq; rejects_eq = l.rejects_eq ∙ k.rejects_eq }

  process_signal-IsTallied :
      (a : Action) (sig : StrategySignal) (tick : MarketDataTick) (p : Replay W S)
      → IsTallied p
      → IsTallied (process_signal strategy times a sig tick p)
  process_signal-IsTallied Action.nothing sig tick p h = h
  process_signal-IsTallied Action.cancel sig tick p h =
      let k = cancel_order-SameTotals tick.symbol sig.cancel_id p.sim in
      record {
        submitted = h.submitted ∙ sym k.orders_eq;
        rejected = h.rejected ∙ sym k.rejects_eq;
        filled = h.filled;
        counted = h.counted;
      }
  process_signal-IsTallied Action.cancel_all sig tick p h =
      let k = cancel_each-SameTotals p.live_orders p.sim in
      record {
        submitted = h.submitted ∙ sym k.orders_eq;
        rejected = h.rejected ∙ sym k.rejects_eq;
        filled = h.filled;
        counted = h.counted;
      }
  process_signal-IsTallied Action.buy sig tick p h = place-IsTallied Side.buy sig tick p h
  process_signal-IsTallied Action.sell sig tick p h = place-IsTallied Side.sell sig tick p h

  process_signals-IsTallied :
      (sigs : List StrategySignal) (tick : MarketDataTick) (p : Replay W S)
      → IsTallied p
      → IsTallied (process_signals strategy times sigs tick p)
  unfolding process_signals
  process_signals-IsTallied [] tick p h = h
  process_signals-IsTallied (sig ∷ sigs) tick p h =
      process_signals-IsTallied sigs tick _ (process_signal-IsTallied sig.action sig tick p h)

  replay_tick-IsTallied :
      (at : TickTimes) (tick : MarketDataTick) (p : Replay W S)
      → IsTallied p
      → IsTallied (replay_tick strategy times at tick p)
  unfolding replay_tick sample_equity on_tick
  replay_tick-IsTallied at tick p h =
      let sim = on_tick at.tick_start at.tick_finish tick p.sim in
      let a = strategy.on_tick tick (get_snapshot at.snapshot tick.symbol 10 sim) p.strategy in
      let q : Replay W S =
        process_signals strategy times a.1 tick (record p { sim = sim; strategy = a.0 }) in
      let k : IsTallied q =
        process_signals-IsTallied a.1 tick (record p { sim = sim; strategy = a.0 })
          (record {
            submitted = h.submitted;
            rejected = h.rejected;
            filled = h.filled;
            counted = h.counted;
          }) in
      elim (Bool-cases (q.result.ticks_processed % 100 == 0)) [
        | inl e ↦ simp e (record {
          submitted = k.submitted;
          rejected = k.rejected;
          filled = k.filled;
          counted = k.counted;
        })
        | inr e ↦ simp e (record {
          submitted = k.submitted;
          rejected = k.rejected;
          filled = k.filled;
          counted = k.counted;
        })
      ]

  -- Through a replay of ticks, with any strategy, the counters of the result go on agreeing with
  -- those of the simulator and with the trades kept.
  pub replay-IsTallied :
      (timed : List (TickTimes × MarketDataTick)) (p : Replay W S)
      → IsTallied p
      → IsTallied (replay strategy times timed p)
  unfolding replay
  replay-IsTallied [] p h = h
  replay-IsTallied ((at, tick) ∷ timed) p h =
      replay-IsTallied timed _ (replay_tick-IsTallied at tick p h)
