-- ===== src/Server/Steady.antt =====
-- What the operations of the simulator keep, all routes of src/main.cpp keep.
use orderflow_replay_engine.Prelude.{
  ℕ, zero, suc, ◌%◌, ◌≡◌, refl, sym, subst, inl, inr, List, [], ◌∷◌, String, pos, length,
  Bool-cases, Option-cases,
}
use orderflow_replay_engine.Double.{Double, to_price, nought}
use orderflow_replay_engine.Types.{Timestamp, Order, OrderId, RiskLimits, MarketDataTick}
use orderflow_replay_engine.OrderBook.Levels.{Event, traded, notified}
use orderflow_replay_engine.Risk.{set_limits}
use orderflow_replay_engine.Simulator.{
  ExchangeSimulator, SubmitTimes, new_simulator, submit_order, cancel_order, next_order_id, on_tick,
}
use orderflow_replay_engine.Engine.{Host, Clock, add_all, default_symbols}
use orderflow_replay_engine.Engine.Orders.{at_index}
use orderflow_replay_engine.Engine.Commands.{read_limits}
use orderflow_replay_engine.Server.{Server, log_event, log_events, reset_sim}
use orderflow_replay_engine.Server.Routes.{
  Request, get_status, get_book, get_positions, get_trades, get_orders, post_order, delete_order,
  post_feed_step, post_backtest, post_limits, get_limits, post_reset, get_symbols, json_get,
  steps_of, posted_order, posted, order_route, cancel_route, feed_steps, feed_step_route,
  limits_route, reset_route, respond, respond_all,
}

module _ {ℓ} {W : Type ℓ} ⦃d : Double W⦄ where
  -- A relation between the limits that are kept for the next reset and the simulator, which every
  -- operation of the simulator keeps.
  pub record IsSteady {κ} (Q : RiskLimits W → ExchangeSimulator W → Type κ) (host : Host W)
      : Type (ℓ ⊔ κ) where
    pub by_id : (l : RiskLimits W) (s : ExchangeSimulator W) → Q l s → Q l (next_order_id s).0
    pub by_order :
        (times : SubmitTimes) (o : Order) (l : RiskLimits W) (s : ExchangeSimulator W)
        → o.id ≡ (next_order_id s).1
        → o.filled_qty ≡ pos 0
        → Q l s
        → Q l (submit_order times o nought (next_order_id s).0).0
    pub by_cancel :
        (symbol : String) (id : OrderId) (l : RiskLimits W) (s : ExchangeSimulator W)
        → Q l s
        → Q l (cancel_order symbol id s).0
    pub by_tick :
        (start finish : Timestamp) (tick : MarketDataTick) (l : RiskLimits W)
        (s : ExchangeSimulator W)
        → Q l s
        → Q l (on_tick start finish tick s)
    pub by_reading :
        (body : String) (l : RiskLimits W) (s : ExchangeSimulator W)
        → Q l s
        → Q (read_limits host body l).0 s
    pub by_limits :
        (l : RiskLimits W) (s : ExchangeSimulator W)
        → Q l s
        → Q l (record s { risk = set_limits l s.risk })
    pub by_reset :
        (l : RiskLimits W) (s : ExchangeSimulator W)
        → Q l s
        → Q l (add_all default_symbols (new_simulator l))

  -- The log callbacks touch neither the limits nor the simulator.
  pub log_events-sim :
      (xs : List Event) (v : Server W)
      → ((log_events xs v).limits ≡ v.limits) × ((log_events xs v).sim ≡ v.sim)
  unfolding log_events log_event
  log_events-sim [] v = (refl, refl)
  log_events-sim (traded t ∷ xs) v = log_events-sim xs (log_event (traded t) v)
  log_events-sim (notified o ∷ xs) v = log_events-sim xs (log_event (notified o) v)

  module _ {κ} (Q : RiskLimits W → ExchangeSimulator W → Type κ) (host : Host W)
      (k : IsSteady Q host) where
    abbrev Holds : Server W → Type κ
    Holds v = Q v.limits v.sim

    logged-Holds : (xs : List Event) (v : Server W) → Holds v → Holds (log_events xs v)
    logged-Holds xs v h =
        let e = log_events-sim xs v in
        subst (λ l. Q l (log_events xs v).sim) (sym e.0) (subst (λ s. Q v.limits s) (sym e.1) h)

    order_route-Holds :
        (clock : Clock) (body : String) (v : Server W)
        → Holds v
        → Holds (order_route host clock body v).0
    unfolding order_route posted posted_order
    order_route-Holds clock body v h =
        let sim = (next_order_id v.sim).0 in
        let id = (next_order_id v.sim).1 in
        let turned = k.by_id v.limits v.sim h in
        elim (Option-cases (host.stod (json_get body "price"))) [
          | inl p ↦ rw (order_route, p) turned
          | inr (price, p) ↦ elim (Option-cases (host.stoll (json_get body "qty"))) [
            | inl q ↦ rw (order_route, p, q) turned
            | inr (qty, q) ↦
                let o = posted_order id body (to_price price) qty in
                let a = submit_order clock.submit o nought sim in
                rw (order_route, p, q)
                  (logged-Holds a.2 (record v { sim = a.0 })
                    (k.by_order clock.submit o v.limits v.sim refl refl h))
          ]
        ]

    cancel_route-Holds :
        (id_text symbol : String) (v : Server W)
        → Holds v
        → Holds (cancel_route host id_text symbol v).0
    unfolding cancel_route
    cancel_route-Holds id_text symbol v h = elim (Option-cases (host.stoull id_text)) [
      | inl e ↦ rw (cancel_route, e) h
      | inr (id, e) ↦
          let a = cancel_order symbol id v.sim in
          rw (cancel_route, e)
            (logged-Holds a.1 (record v { sim = a.0 }) (k.by_cancel symbol id v.limits v.sim h))
    ]

    feed_steps-Holds :
        (clock : Clock) (n i : ℕ) (v : Server W) → Holds v → Holds (feed_steps clock n i v).0
    unfolding feed_steps
    feed_steps-Holds clock zero i v h = h
    feed_steps-Holds clock (suc n) i v h =
        elim (Option-cases (at_index (v.feed_idx % length v.tick_feed) v.tick_feed)) [
          | inl e ↦ rw (feed_steps, e) h
          | inr (tick, e) ↦
              let t = clock.step i in
              rw (feed_steps, e)
                (feed_steps-Holds clock n (suc i) _ (k.by_tick t.0 t.1 tick v.limits v.sim h))
        ]

    limits_route-Holds :
        (body : String) (v : Server W) → Holds v → Holds (limits_route host body v).0
    unfolding limits_route
    limits_route-Holds body v h =
        let read = k.by_reading body v.limits v.sim h in
        let l = (read_limits host body v.limits).0 in
        elim (Bool-cases (read_limits host body v.limits).1) [
          | inl e ↦ simp e (k.by_limits l v.sim read)
          | inr e ↦ simp e read
        ]

    respond-Holds :
        (clock : Clock) (r : Request) (v : Server W) → Holds v → Holds (respond host clock r v).0
    unfolding respond feed_step_route reset_route reset_sim
    respond-Holds clock get_status v h = h
    respond-Holds clock (get_book symbol) v h = h
    respond-Holds clock get_positions v h = h
    respond-Holds clock get_trades v h = h
    respond-Holds clock get_orders v h = h
    respond-Holds clock (post_order body) v h = order_route-Holds clock body v h
    respond-Holds clock (delete_order id symbol) v h = cancel_route-Holds id symbol v h
    respond-Holds clock (post_feed_step n) v h = feed_steps-Holds clock (steps_of host.stoi n) 0 v h
    respond-Holds clock (post_backtest body) v h = h
    respond-Holds clock (post_limits body) v h = limits_route-Holds body v h
    respond-Holds clock get_limits v h = h
    respond-Holds clock post_reset v h = k.by_reset v.limits v.sim h
    respond-Holds clock get_symbols v h = h

    pub respond_all-Holds :
        (requests : List (Clock × Request)) (v : Server W)
        → Holds v
        → Holds (respond_all host requests v).0
    unfolding respond_all
    respond_all-Holds [] v h = h
    respond_all-Holds ((clock, r) ∷ more) v h =
        respond_all-Holds more (respond host clock r v).0 (respond-Holds clock r v h)
