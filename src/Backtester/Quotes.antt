-- ===== src/Backtester/Quotes.antt =====
-- `MarketMakingStrategy` of src/strategy/strategy.hpp under the `Backtester` of src/core/simulator.cpp.
use orderflow_replay_engine.Prelude.{
  ◌≡◌, refl, sym, subst, ◌∙◌, inl, inr, ◌||◌, List, [], ◌∷◌, is_empty, Bool-cases, ◌%◌, ◌==◌,
}
use orderflow_replay_engine.Double.{Double, from_price}
use orderflow_replay_engine.Types.{OrderId, Side, Trade, MarketDataTick, OrderBookSnapshot}
use orderflow_replay_engine.Strategy.{Action, StrategySignal}
use orderflow_replay_engine.Strategy.MarketMaking.{
  MarketMakingStrategy, market_making, market_making_on_tick, market_making_on_order_update,
}
use orderflow_replay_engine.Simulator.{
  SubmitTimes, submit_order, next_order_id, on_tick, get_snapshot,
}
use orderflow_replay_engine.Backtester.{
  Replay, TickTimes, report_trades, report, place, process_signal, process_signals, sample_equity,
  replay_tick, replay, order_of,
}

-- The strategy knows of no order that it could cancel.
pub record HoldsNothing {ℓ} {W : Type ℓ} (s : MarketMakingStrategy W) : Type 0 where
  pub bid_eq : s.bid_id ≡ 0
  pub ask_eq : s.ask_id ≡ 0

abbrev Run {ℓ} : Type ℓ → Type ℓ
Run W = Replay W (MarketMakingStrategy W)

module _ {ℓ} {W : Type ℓ} ⦃d : Double W⦄ (times : OrderId → SubmitTimes) where
  report_trades-same :
      (ts : List Trade) (p : Run W) → (report_trades market_making times ts p).strategy ≡ p.strategy
  unfolding report_trades market_making
  report_trades-same [] p = refl
  report_trades-same (t ∷ ts) p = report_trades-same ts _

  -- The order that is reported is the caller's own, which `submit_order` does not change.
  place-same :
      (side : Side) (sig : StrategySignal) (tick : MarketDataTick) (p : Run W)
      → (place market_making times side sig tick p).strategy ≡ p.strategy
  unfolding place report order_of market_making market_making_on_order_update next_order_id
  place-same side sig tick p =
      let s = next_order_id p.sim in
      let a =
        submit_order (times s.1) (order_of s.1 side sig tick) (from_price tick.last_price) s.0 in
      elim (Bool-cases a.1.approved) [
        | inl e ↦ rw e (report_trades-same a.1.trades _)
        | inr e ↦ rw e refl
      ]

  process_signal-same :
      (x : Action) (sig : StrategySignal) (tick : MarketDataTick) (p : Run W)
      → (process_signal market_making times x sig tick p).strategy ≡ p.strategy
  process_signal-same Action.nothing sig tick p = refl
  process_signal-same Action.cancel sig tick p = refl
  process_signal-same Action.cancel_all sig tick p = refl
  process_signal-same Action.buy sig tick p = place-same Side.buy sig tick p
  process_signal-same Action.sell sig tick p = place-same Side.sell sig tick p

  process_signals-same :
      (sigs : List StrategySignal) (tick : MarketDataTick) (p : Run W)
      → (process_signals market_making times sigs tick p).strategy ≡ p.strategy
  unfolding process_signals
  process_signals-same [] tick p = refl
  process_signals-same (sig ∷ sigs) tick p =
      process_signals-same sigs tick _ ∙ process_signal-same sig.action sig tick p

  on_tick-HoldsNothing :
      (tick : MarketDataTick) (book : OrderBookSnapshot) (s : MarketMakingStrategy W)
      → HoldsNothing s
      → HoldsNothing (market_making_on_tick tick book s).0
  unfolding market_making_on_tick
  on_tick-HoldsNothing tick book s h =
      elim (Bool-cases (is_empty book.bids || is_empty book.asks)) [
        | inl e ↦ rw e h
        | inr e ↦ rw e (record { bid_eq = refl; ask_eq = refl })
      ]

  replay_tick-HoldsNothing :
      (at : TickTimes) (tick : MarketDataTick) (p : Run W)
      → HoldsNothing p.strategy
      → HoldsNothing (replay_tick market_making times at tick p).strategy
  unfolding replay_tick sample_equity market_making
  replay_tick-HoldsNothing at tick p h =
      let sim = on_tick at.tick_start at.tick_finish tick p.sim in
      let book = get_snapshot at.snapshot tick.symbol 10 sim in
      let a = market_making_on_tick tick book p.strategy in
      let p' : Run W = record p { sim = sim; strategy = a.0 } in
      let q : Run W = process_signals market_making times a.1 tick p' in
      let k : HoldsNothing q.strategy =
        subst HoldsNothing (sym (process_signals-same a.1 tick p'))
          (on_tick-HoldsNothing tick book p.strategy h) in
      elim (Bool-cases (q.result.ticks_processed % 100 == 0)) [
        | inl e ↦ simp e k
        | inr e ↦ simp e k
      ]

  -- In a replay the market maker never comes to hold an id, so it never cancels a quote: the order
  -- that is reported to it still has the status with which it was made.
  pub replay-HoldsNothing :
      (timed : List (TickTimes × MarketDataTick)) (p : Run W)
      → HoldsNothing p.strategy
      → HoldsNothing (replay market_making times timed p).strategy
  unfolding replay
  replay-HoldsNothing [] p h = h
  replay-HoldsNothing ((at, tick) ∷ timed) p h =
      replay-HoldsNothing timed _ (replay_tick-HoldsNothing at tick p h)
