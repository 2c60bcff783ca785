-- ===== src/Server/Running.antt =====
-- Whatever requests the server of src/main.cpp answers, its simulator goes on running.
use orderflow_replay_engine.Prelude.{◌≡◌, refl, ◌∙◌, List, true}
use orderflow_replay_engine.Double.{Double, nought}
use orderflow_replay_engine.Types.{RiskLimits}
use orderflow_replay_engine.Risk.{set_limits}
use orderflow_replay_engine.Simulator.{ExchangeSimulator, new_simulator}
use orderflow_replay_engine.Simulator.Running.{
  IsRunning, new_simulator-IsRunning, submit_order-IsRunning, cancel_order-IsRunning,
  on_tick-IsRunning, next_order_id-IsRunning,
}
use orderflow_replay_engine.Engine.{Host, Clock, default_symbols}
use orderflow_replay_engine.Engine.Running.{add_all-IsRunning, read_limits-enabled}
use orderflow_replay_engine.Server.{reset_sim, new_server}
use orderflow_replay_engine.Server.Routes.{Request, respond_all}
use orderflow_replay_engine.Server.Steady.{IsSteady, respond_all-Holds}

module _ {ℓ} {W : Type ℓ} ⦃d : Double W⦄ where
  -- The checks are on, in the limits that are kept too, and the simulator is running.
  pub record IsUp (l : RiskLimits W) (s : ExchangeSimulator W) : Type 0 where
    pub enabled : l.enabled ≡ true
    pub running : IsRunning s

  IsUp-IsSteady : (host : Host W) → IsSteady IsUp host
  unfolding set_limits
  IsUp-IsSteady host = record {
    by_id = λ l s u. record { enabled = u.enabled; running = next_order_id-IsRunning s u.running };
    by_order = λ times o l s e f u. record {
      enabled = u.enabled;
      running = submit_order-IsRunning times o nought s e f u.running;
    };
    by_cancel = λ symbol id l s u. record {
      enabled = u.enabled;
      running = cancel_order-IsRunning symbol id s u.running;
    };
    by_tick = λ start finish tick l s u. record {
      enabled = u.enabled;
      running = on_tick-IsRunning start finish tick s u.running;
    };
    by_reading = λ body l s u. record {
      enabled = read_limits-enabled host body l ∙ u.enabled;
      running = u.running;
    };
    by_limits = λ l s u. record {
      enabled = u.enabled;
      running = record { enabled = u.enabled; good = u.running.good };
    };
    by_reset = λ l s u. record {
      enabled = u.enabled;
      running =
          add_all-IsRunning default_symbols (new_simulator l) (new_simulator-IsRunning l u.enabled);
    };
  }

  -- Whatever requests the server answers from its start on, one after another, the checks of the
  -- limits stay on, also in the limits kept for a reset, and every book of its simulator is well formed
  -- and uncrossed, with only ids resting in it that were given out.
  pub respond_all-IsUp :
      (host : Host W) (requests : List (Clock × Request))
      → let v = (respond_all host requests (new_server host)).0 in IsUp v.limits v.sim
  unfolding new_server reset_sim
  respond_all-IsUp host requests =
      respond_all-Holds IsUp host (IsUp-IsSteady host) requests (new_server host) (record {
        enabled = refl;
        running =
            add_all-IsRunning default_symbols (new_simulator (new_server host).limits)
              (new_simulator-IsRunning (new_server host).limits refl);
      })
