-- ===== src/Engine/Served.antt =====
-- What each command of src/engine_cli.cpp keeps, `handle` and the loop of `main` keep.
use orderflow_replay_engine.Prelude.{List, [], ◌∷◌, String, str_eq, if-both}
use orderflow_replay_engine.Text.{is_empty_text}
use orderflow_replay_engine.Double.{Double}
use orderflow_replay_engine.Engine.{Engine, Host, Clock}
use orderflow_replay_engine.Engine.Queries.{status_command}
use orderflow_replay_engine.Engine.Orders.{order_command, cancel_command, feed_step_command}
use orderflow_replay_engine.Engine.Commands.{
  reset_command, risk_limits_command, handle, new_engine, serve, command_of, payload_of,
}
use orderflow_replay_engine.Engine.Running.{
  IsServing, new_engine-IsServing, status-IsServing, reset-IsServing, order-IsServing,
  cancel-IsServing, feed_step-IsServing, risk_limits-IsServing,
}

module _ {ℓ} {W : Type ℓ} ⦃d : Double W⦄ where
  -- A predicate that the six commands which change the engine keep.
  pub record IsKept {κ} (P : Engine W → Type κ) (host : Host W) : Type (ℓ ⊔ κ) where
    pub by_status : (e : Engine W) → P e → P (status_command host e).0
    pub by_reset : (e : Engine W) → P e → P (reset_command host e).0
    pub by_order :
        (clock : Clock) (payload : String) (e : Engine W)
        → P e
        → P (order_command host clock payload e).0
    pub by_cancel : (payload : String) (e : Engine W) → P e → P (cancel_command host payload e).0
    pub by_feed_step :
        (clock : Clock) (payload : String) (e : Engine W)
        → P e
        → P (feed_step_command host clock payload e).0
    pub by_risk_limits :
        (payload : String) (e : Engine W) → P e → P (risk_limits_command host payload e).0

  module _ {κ} (P : Engine W → Type κ) (host : Host W) (k : IsKept P host) where
    pub handle-kept :
        (clock : Clock) (cmd payload : String) (e : Engine W)
        → P e
        → P (handle host clock cmd payload e).0
    unfolding handle
    handle-kept clock cmd payload e h =
        let Q : Engine W × String → Type κ = λ a. P a.0 in
        if-both Q (str_eq cmd "status") _ _ (k.by_status e h) (
          if-both Q (str_eq cmd "reset") _ _ (k.by_reset e h) (
            if-both Q (str_eq cmd "book") _ _ h (
              if-both Q (str_eq cmd "positions") _ _ h (
                if-both Q (str_eq cmd "trades") _ _ h (
                  if-both Q (str_eq cmd "orders") _ _ h (
                    if-both Q (str_eq cmd "order") _ _ (k.by_order clock payload e h) (
                      if-both Q (str_eq cmd "cancel") _ _ (k.by_cancel payload e h) (
                        if-both Q (str_eq cmd "feed_step") _ _ (k.by_feed_step clock payload e h) (
                          if-both Q (str_eq cmd "backtest") _ _ h (
                            if-both Q (str_eq cmd "risk_limits") _ _ (k.by_risk_limits payload e h)
                              (if-both Q (str_eq cmd "get_limits") _ _ h
                                (if-both Q (str_eq cmd "symbols") _ _ h h))))))))))))

    pub serve-kept : (lines : List (Clock × String)) (e : Engine W) → P e → P (serve host lines e).0
    unfolding serve
    serve-kept [] e h = h
    serve-kept ((clock, line) ∷ lines) e h =
        let Q : Engine W × List String → Type κ = λ a. P a.0 in
        if-both Q (is_empty_text line) _ _ (serve-kept lines e h)
          (serve-kept lines _ (handle-kept clock (command_of line) (payload_of line) e h))

  IsServing-IsKept : (host : Host W) → IsKept IsServing host
  IsServing-IsKept host = record {
    by_status = status-IsServing host;
    by_reset = reset-IsServing host;
    by_order = order-IsServing host;
    by_cancel = cancel-IsServing host;
    by_feed_step = feed_step-IsServing host;
    by_risk_limits = risk_limits-IsServing host;
  }

  -- Whatever lines the engine reads from its start on, the checks of the limits stay on, also in the
  -- limits kept for a reset, and every book of its simulator is well formed and uncrossed, with only
  -- ids resting in it that were given out.
  pub serve-IsServing :
      (host : Host W) (lines : List (Clock × String))
      → IsServing (serve host lines (new_engine host)).0
  serve-IsServing host lines =
      serve-kept IsServing host (IsServing-IsKept host) lines (new_engine host)
        (new_engine-IsServing host)
