-- ===== src/Engine/Running.antt =====
-- Whatever lines the engine of src/engine_cli.cpp is given, its simulator goes on running.
use orderflow_replay_engine.Prelude.{
  ℕ, zero, suc, ◌≡◌, refl, sym, subst, ◌∙◌, arith, inl, inr, true, List, [], ◌∷◌, String,
  if◌then◌else◌, Bool-cases, Option-cases, length, ltb,
}
use orderflow_replay_engine.Double.{Double, to_price, nought}
use orderflow_replay_engine.Types.{RiskLimits}
use orderflow_replay_engine.OrderBook.Levels.{Event, traded, notified}
use orderflow_replay_engine.Risk.{set_limits}
use orderflow_replay_engine.Simulator.{
  ExchangeSimulator, new_simulator, add_symbol, submit_order, cancel_order, next_order_id,
}
use orderflow_replay_engine.Simulator.Running.{
  IsRunning, new_simulator-IsRunning, add_symbol-IsRunning, submit_order-IsRunning,
  cancel_order-IsRunning, on_tick-IsRunning, next_order_id-IsRunning,
}
use orderflow_replay_engine.Engine.{
  Engine, Host, Clock, log_event, log_events, add_all, init_sim, init_feed, default_symbols,
}
use orderflow_replay_engine.Engine.Fields.{jget}
use orderflow_replay_engine.Engine.Queries.{status_command}
use orderflow_replay_engine.Engine.Orders.{
  or_else, order_from, order_command, submit_command, cancel_command, feed_step_command, step_from,
  step_count, at_index,
}
use orderflow_replay_engine.Engine.Commands.{
  reset_command, read_limits, risk_limits_command, globals, new_engine,
}

module _ {ℓ} {W : Type ℓ} ⦃d : Double W⦄ where
  -- The checks are on, in the limits kept for the next reset too, and the simulator is running.
  pub record IsServing (e : Engine W) : Type 0 where
    pub enabled : e.limits.enabled ≡ true
    pub running : IsRunning e.sim

  -- The log callbacks touch neither the simulator nor the limits.
  pub log_events-sim :
      (vs : List Event) (e : Engine W)
      → ((log_events vs e).sim ≡ e.sim) × ((log_events vs e).limits ≡ e.limits)
  unfolding log_events log_event
  log_events-sim [] e = (refl, refl)
  log_events-sim (traded t ∷ vs) e = log_events-sim vs (log_event (traded t) e)
  log_events-sim (notified o ∷ vs) e = log_events-sim vs (log_event (notified o) e)

  log_events-IsServing :
      (vs : List Event) (e : Engine W) → IsServing e → IsServing (log_events vs e)
  log_events-IsServing vs e s =
      let k = log_events-sim vs e in
      record {
        enabled = subst (λ l. l.enabled ≡ true) (sym k.1) s.enabled;
        running = subst IsRunning (sym k.0) s.running;
      }

  pub add_all-IsRunning :
      (xs : List String) (s : ExchangeSimulator W) → IsRunning s → IsRunning (add_all xs s)
  add_all-IsRunning [] s r = r
  add_all-IsRunning (x ∷ xs) s r =
      add_all-IsRunning xs (add_symbol x s) (add_symbol-IsRunning x s r)

  started-IsServing :
      (host : Host W) (e : Engine W)
      → e.limits.enabled ≡ true
      → IsServing (init_feed host (init_sim e))
  unfolding init_feed init_sim
  started-IsServing host e h = record {
    enabled = h;
    running =
        add_all-IsRunning default_symbols (new_simulator e.limits)
          (new_simulator-IsRunning e.limits h);
  }

  -- The engine at the start serves.
  pub new_engine-IsServing : (host : Host W) → IsServing (new_engine host)
  unfolding new_engine
  new_engine-IsServing host = started-IsServing host globals refl

  pub status-IsServing :
      (host : Host W) (e : Engine W) → IsServing e → IsServing (status_command host e).0
  unfolding status_command
  status-IsServing host e s = record {
    enabled = s.enabled;
    running = record { enabled = s.running.enabled; good = s.running.good };
  }

  pub order-IsServing :
      (host : Host W) (clock : Clock) (payload : String) (e : Engine W)
      → IsServing e
      → IsServing (order_command host clock payload e).0
  unfolding order_command submit_command order_from
  order-IsServing host clock payload e s =
      let sim = (next_order_id e.sim).0 in
      let id = (next_order_id e.sim).1 in
      let turned : IsServing (record e { sim = sim }) = record {
        enabled = s.enabled;
        running = next_order_id-IsRunning e.sim s.running;
      } in
      let market_price = or_else nought (host.stod (jget payload "market_price")) in
      elim (Option-cases (host.stod (jget payload "price"))) [
        | inl p ↦ rw (order_command, p) turned
        | inr (price, p) ↦ elim (Option-cases (host.stoll (jget payload "qty"))) [
          | inl q ↦ rw (order_command, p, q) turned
          | inr (qty, q) ↦
              let o = order_from id payload (to_price price) qty in
              let a = submit_order clock.submit o market_price sim in
              rw (order_command, p, q)
                (log_events-IsServing a.2 (record e { sim = a.0 })
                  (record {
                    enabled = s.enabled;
                    running =
                        submit_order-IsRunning clock.submit o market_price e.sim refl refl
                          s.running;
                  }))
        ]
      ]

  pub cancel-IsServing :
      (host : Host W) (payload : String) (e : Engine W)
      → IsServing e
      → IsServing (cancel_command host payload e).0
  unfolding cancel_command
  cancel-IsServing host payload e s =
      let id = or_else 0 (host.stoull (jget payload "id")) in
      let a = cancel_order (jget payload "symbol") id e.sim in
      log_events-IsServing a.1 (record e { sim = a.0 })
        (record {
          enabled = s.enabled;
          running = cancel_order-IsRunning (jget payload "symbol") id e.sim s.running;
        })

  step_from-IsServing :
      (clock : Clock) (n i : ℕ) (e : Engine W) → IsServing e → IsServing (step_from clock n i e).0
  unfolding step_from
  step_from-IsServing clock zero i e s = s
  step_from-IsServing clock (suc n) i e s =
      let idx = if ltb e.feed_idx (length e.tick_feed) then e.feed_idx else 0 in
      elim (Option-cases (at_index idx e.tick_feed)) [
        | inl h ↦ rw (step_from, h) s
        | inr (tick, h) ↦
            let times = clock.step i in
            rw (step_from, h)
              (step_from-IsServing clock n (suc i) _ (record {
                enabled = s.enabled;
                running = on_tick-IsRunning times.0 times.1 tick e.sim s.running;
              }))
      ]

  pub read_limits-enabled :
      (host : Host W) (payload : String) (l : RiskLimits W)
      → (read_limits host payload l).0.enabled ≡ l.enabled
  unfolding read_limits
  read_limits-enabled host payload l = ground arith

  pub risk_limits-IsServing :
      (host : Host W) (payload : String) (e : Engine W)
      → IsServing e
      → IsServing (risk_limits_command host payload e).0
  unfolding risk_limits_command set_limits
  risk_limits-IsServing host payload e s =
      let k = read_limits-enabled host payload e.limits ∙ s.enabled in
      elim (Bool-cases (read_limits host payload e.limits).1) [
        | inl h ↦
            simp h (record { enabled = k; running = record { enabled = k; good = s.running.good } })
        | inr h ↦ simp h (record { enabled = k; running = s.running })
      ]

  pub reset-IsServing :
      (host : Host W) (e : Engine W) → IsServing e → IsServing (reset_command host e).0
  unfolding reset_command
  reset-IsServing host e s =
      started-IsServing host (record e { trade_log = []; order_log = [] }) s.enabled

  pub feed_step-IsServing :
      (host : Host W) (clock : Clock) (payload : String) (e : Engine W)
      → IsServing e
      → IsServing (feed_step_command host clock payload e).0
  unfolding feed_step_command
  feed_step-IsServing host clock payload e s =
      step_from-IsServing clock (step_count host.stoi (jget payload "n")) 0 e s
