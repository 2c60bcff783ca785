-- ===== src/Engine/Limits.antt =====
-- The command `risk_limits` of src/engine_cli.cpp when a field cannot be read.
use orderflow_replay_engine.Prelude.{
  ◌≡◌, refl, ap, ◌∙◌, inl, inr, Option-cases, lookup, List, [], ◌∷◌, none, some, String, ℤ,
}
use orderflow_replay_engine.Double.{Double}
use orderflow_replay_engine.Risk.{new_risk_manager}
use orderflow_replay_engine.Simulator.{ExchangeSimulator, new_simulator, add_symbol}
use orderflow_replay_engine.Engine.{Engine, Host, add_all, default_symbols, init_sim, init_feed}
use orderflow_replay_engine.Engine.Fields.{jget}
use orderflow_replay_engine.Engine.Commands.{reset_command, read_limits, risk_limits_command}

module _ {ℓ} {W : Type ℓ} ⦃d : Double W⦄ where
  -- What a failed `risk_limits` leaves behind: the answer is an error and the simulator is as before, and
  -- yet the order quantity that was read is in force after the next reset.
  pub record Leaks (host : Host W) (payload : String) (e : Engine W) (a : ℤ) : Type ℓ where
    pub refused : (risk_limits_command host payload e).1 ≡ "{\"error\":\"bad limits\"}"
    pub same_sim : (risk_limits_command host payload e).0.sim ≡ e.sim
    pub in_force :
        (reset_command host (risk_limits_command host payload e).0).0.sim.risk.limits.max_order_qty
        ≡ a

  add_symbol-limits :
      (x : String) (s : ExchangeSimulator W) → (add_symbol x s).risk.limits ≡ s.risk.limits
  unfolding add_symbol
  add_symbol-limits x s = elim (Option-cases (lookup x s.books)) [
    | inl e ↦ rw (add_symbol, e) refl
    | inr (b, e) ↦ rw (add_symbol, e) refl
  ]

  add_all-limits :
      (xs : List String) (s : ExchangeSimulator W) → (add_all xs s).risk.limits ≡ s.risk.limits
  add_all-limits [] s = refl
  add_all-limits (x ∷ xs) s = add_all-limits xs (add_symbol x s) ∙ add_symbol-limits x s

  -- A reset puts the limits that are kept in force.
  reset-limits :
      (host : Host W) (e : Engine W) → (reset_command host e).0.sim.risk.limits ≡ e.limits
  unfolding reset_command init_sim init_feed new_simulator new_risk_manager
  reset-limits host e = add_all-limits default_symbols (new_simulator e.limits)

  -- If the field `max_order_qty` is a number and `max_position` is not, the command is refused, but the
  -- quantity becomes the limit of the simulator at the next reset.
  pub risk_limits-leak :
      (host : Host W) (payload : String) (e : Engine W) (a : ℤ)
      → host.stoll (jget payload "max_order_qty") ≡ some a
      → host.stoll (jget payload "max_position") ≡ none
      → Leaks host payload e a
  unfolding risk_limits_command read_limits
  risk_limits-leak host payload e a p q =
      let kept : (risk_limits_command host payload e).0.limits.max_order_qty ≡ a =
        rw (risk_limits_command, read_limits, p, q) refl in
      record {
        refused = rw (risk_limits_command, read_limits, p, q) refl;
        same_sim = rw (risk_limits_command, read_limits, p, q) refl;
        in_force =
            ap (λ l. l.max_order_qty) (reset-limits host (risk_limits_command host payload e).0)
            ∙ kept;
      }
