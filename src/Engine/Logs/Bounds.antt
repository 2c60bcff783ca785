-- ===== src/Engine/Logs/Bounds.antt =====
-- The two logs of src/engine_cli.cpp stay bounded.
use orderflow_replay_engine.Prelude.{
  ℕ, zero, suc, ◌≤◌, ◌≡◌, refl, sym, subst, arith, inl, inr, List, ◌++◌, map, String, length, ltb,
  if◌then◌else◌, Option-cases, Bool-cases,
}
use orderflow_replay_engine.Double.{Double}
use orderflow_replay_engine.Types.{Order}
use orderflow_replay_engine.Json.{trade_to_json, order_to_json}
use orderflow_replay_engine.OrderBook.Levels.{Event}
use orderflow_replay_engine.Simulator.{
  ExchangeSimulator, SubmitTimes, submit_order, cancel_order, next_order_id,
}
use orderflow_replay_engine.Engine.{Engine, Host, Clock, log_events, init_sim, init_feed}
use orderflow_replay_engine.Engine.Fields.{jget}
use orderflow_replay_engine.Engine.Queries.{status_command}
use orderflow_replay_engine.Engine.Orders.{
  or_else, order_command, submit_command, cancel_command, feed_step_command, step_from, step_count,
  at_index,
}
use orderflow_replay_engine.Engine.Commands.{
  reset_command, read_limits, risk_limits_command, new_engine, serve,
}
use orderflow_replay_engine.Engine.Served.{IsKept, serve-kept}
use orderflow_replay_engine.Engine.Logs.{
  trades_of, reports_of, last_of-within, last_of-all, log_events-last,
}

module _ {ℓ} {W : Type ℓ} ⦃d : Double W⦄ where
  -- Neither log has more than 500 entries.
  pub record IsLogged (e : Engine W) : Type 0 where
    pub trades : length e.trade_log ≤ 500
    pub orders : length e.order_log ≤ 500

  log_events-IsLogged : (vs : List Event) (e : Engine W) → IsLogged e → IsLogged (log_events vs e)
  log_events-IsLogged vs e l =
      let r =
        log_events-last vs e.trade_log e.order_log e (last_of-all 500 e.trade_log l.trades)
          (last_of-all 500 e.order_log l.orders) in
      record {
        trades =
            subst (λ xs. length xs ≤ 500) (sym r.0)
              (last_of-within 500 (e.trade_log ++ map (trade_to_json W) (trades_of vs)));
        orders =
            subst (λ xs. length xs ≤ 500) (sym r.1)
              (last_of-within 500 (e.order_log ++ map (order_to_json W) (reports_of vs)));
      }

  submit_command-IsLogged :
      (times : SubmitTimes) (o : Order) (market_price : W) (e : Engine W)
      → IsLogged e
      → IsLogged (submit_command times o market_price e).0
  unfolding submit_command
  submit_command-IsLogged times o market_price e l =
      let a = submit_order times o market_price e.sim in
      log_events-IsLogged a.2 (record e { sim = a.0 })
        (record { trades = l.trades; orders = l.orders })

  order-IsLogged :
      (host : Host W) (clock : Clock) (payload : String) (e : Engine W)
      → IsLogged e
      → IsLogged (order_command host clock payload e).0
  unfolding order_command
  order-IsLogged host clock payload e l =
      let l' : (s : ExchangeSimulator W) → IsLogged (record e { sim = s }) =
        λ s. record { trades = l.trades; orders = l.orders } in
      elim (Option-cases (host.stod (jget payload "price"))) [
        | inl p ↦ rw (order_command, p) (l' _)
        | inr (price, p) ↦ elim (Option-cases (host.stoll (jget payload "qty"))) [
          | inl q ↦ rw (order_command, p, q) (l' _)
          | inr (qty, q) ↦
              rw (order_command, p, q)
                (submit_command-IsLogged _ _ _ _ (l' (next_order_id e.sim).0))
        ]
      ]

  step_from-IsLogged :
      (clock : Clock) (n i : ℕ) (e : Engine W) → IsLogged e → IsLogged (step_from clock n i e).0
  unfolding step_from
  step_from-IsLogged clock zero i e l = l
  step_from-IsLogged clock (suc n) i e l =
      let idx = if ltb e.feed_idx (length e.tick_feed) then e.feed_idx else 0 in
      elim (Option-cases (at_index idx e.tick_feed)) [
        | inl h ↦ rw (step_from, h) l
        | inr (tick, h) ↦
            rw (step_from, h)
              (step_from-IsLogged clock n (suc i) _
                (record { trades = l.trades; orders = l.orders }))
      ]

  risk_limits-IsLogged :
      (host : Host W) (payload : String) (e : Engine W)
      → IsLogged e
      → IsLogged (risk_limits_command host payload e).0
  unfolding risk_limits_command
  risk_limits-IsLogged host payload e l =
      let l' : (f : Engine W) → f.trade_log ≡ e.trade_log → f.order_log ≡ e.order_log → IsLogged f =
        λ f a b. record {
          trades = subst (λ xs. length xs ≤ 500) (sym a) l.trades;
          orders = subst (λ xs. length xs ≤ 500) (sym b) l.orders;
        } in
      elim (Bool-cases (read_limits host payload e.limits).1) [
        | inl h ↦ simp h (l' _ refl refl)
        | inr h ↦ simp h (l' _ refl refl)
      ]

  IsLogged-IsKept : (host : Host W) → IsKept IsLogged host
  unfolding status_command reset_command init_sim init_feed cancel_command feed_step_command
  IsLogged-IsKept host = record {
    by_status = λ e l. record { trades = l.trades; orders = l.orders };
    by_reset = λ e l. record { trades = omega arith; orders = omega arith };
    by_order = order-IsLogged host;
    by_cancel = λ payload e l.
        let a =
          cancel_order (jget payload "symbol") (or_else 0 (host.stoull (jget payload "id")))
            e.sim in
        log_events-IsLogged a.1 (record e { sim = a.0 })
          (record { trades = l.trades; orders = l.orders });
    by_feed_step = λ clock payload e l.
        step_from-IsLogged clock (step_count host.stoi (jget payload "n")) 0 e l;
    by_risk_limits = risk_limits-IsLogged host;
  }

  -- Whatever lines the engine reads from its start on, neither log ever has more than 500 entries.
  pub serve-IsLogged :
      (host : Host W) (lines : List (Clock × String))
      → IsLogged (serve host lines (new_engine host)).0
  unfolding new_engine init_sim init_feed
  serve-IsLogged host lines =
      serve-kept IsLogged host (IsLogged-IsKept host) lines (new_engine host)
        (record { trades = omega arith; orders = omega arith })
