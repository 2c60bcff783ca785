-- ===== src/Server/Percentiles.antt =====
-- The percentiles that the route `/api/status` of src/main.cpp reports.
use orderflow_replay_engine.Prelude.{
  ◌≡◌, refl, List, [], ◌∷◌, String, ℤ, pos, inl, inr, lookup, Bool-cases, Option-cases,
}
use orderflow_replay_engine.Double.{Double, nought}
use orderflow_replay_engine.Types.{Order, OrderId, RiskLimits}
use orderflow_replay_engine.Latency.{LatencyStats, record_ns}
use orderflow_replay_engine.Simulator.{
  ExchangeSimulator, SubmitTimes, new_simulator, add_symbol, submit_order, booked, cancel_order,
  on_tick, next_order_id,
}
use orderflow_replay_engine.Simulator.Submit.{is_allowed}
use orderflow_replay_engine.Engine.{Host, Clock, add_all, default_symbols}
use orderflow_replay_engine.Server.{reset_sim, new_server}
use orderflow_replay_engine.Server.Routes.{Request, respond_all}
use orderflow_replay_engine.Server.Steady.{IsSteady, respond_all-Holds}

-- Both percentiles are 0, as at the start.
pub record IsUncomputed (a : LatencyStats) : Type 0 where
  pub p50 : a.p50_ns ≡ pos 0
  pub p99 : a.p99_ns ≡ pos 0

recorded-IsUncomputed : (ns : ℤ) (a : LatencyStats) → IsUncomputed a → IsUncomputed (record_ns ns a)
unfolding record_ns
recorded-IsUncomputed ns a u = record { p50 = u.p50; p99 = u.p99 }

module _ {ℓ} {W : Type ℓ} ⦃d : Double W⦄ where
  pub record AreUncomputed (l : RiskLimits W) (s : ExchangeSimulator W) : Type 0 where
    pub orders : IsUncomputed s.order_lat
    pub ticks : IsUncomputed s.tick_lat

  submit_order-AreUncomputed :
      (times : SubmitTimes) (o : Order) (px : W) (l : RiskLimits W) (s : ExchangeSimulator W)
      → AreUncomputed l s
      → AreUncomputed l (submit_order times o px s).0
  unfolding submit_order booked record_ns
  submit_order-AreUncomputed times o px l s u = elim (Bool-cases (is_allowed times o px s)) [
    | inr e ↦ rw (submit_order, e) (record { orders = u.orders; ticks = u.ticks })
    | inl e ↦ elim (Option-cases (lookup o.symbol s.books)) [
      | inl n ↦ rw (submit_order, e, n) (record { orders = u.orders; ticks = u.ticks })
      | inr (b, n) ↦
          rw (submit_order, e, n)
            (record { orders = recorded-IsUncomputed _ _ u.orders; ticks = u.ticks })
    ]
  ]

  cancel_order-AreUncomputed :
      (symbol : String) (id : OrderId) (l : RiskLimits W) (s : ExchangeSimulator W)
      → AreUncomputed l s
      → AreUncomputed l (cancel_order symbol id s).0
  unfolding cancel_order
  cancel_order-AreUncomputed symbol id l s u = elim (Option-cases (lookup symbol s.books)) [
    | inl n ↦ rw (cancel_order, n) u
    | inr (b, n) ↦ rw (cancel_order, n) (record { orders = u.orders; ticks = u.ticks })
  ]

  add_all-AreUncomputed :
      (xs : List String) (l : RiskLimits W) (s : ExchangeSimulator W)
      → AreUncomputed l s
      → AreUncomputed l (add_all xs s)
  unfolding add_symbol
  add_all-AreUncomputed [] l s u = u
  add_all-AreUncomputed (x ∷ xs) l s u =
      add_all-AreUncomputed xs l (add_symbol x s) (elim (Option-cases (lookup x s.books)) [
        | inr (b, n) ↦ rw (add_symbol, n) u
        | inl n ↦ rw (add_symbol, n) (record { orders = u.orders; ticks = u.ticks })
      ])

  started-AreUncomputed :
      (l : RiskLimits W) → AreUncomputed l (add_all default_symbols (new_simulator l))
  unfolding new_simulator
  started-AreUncomputed l = add_all-AreUncomputed default_symbols l (new_simulator l) (record {
    orders = record { p50 = refl; p99 = refl };
    ticks = record { p50 = refl; p99 = refl };
  })

  AreUncomputed-IsSteady : (host : Host W) → IsSteady AreUncomputed host
  unfolding next_order_id on_tick record_ns
  AreUncomputed-IsSteady host = record {
    by_id = λ l s u. record { orders = u.orders; ticks = u.ticks };
    by_order = λ times o l s e f u.
        submit_order-AreUncomputed times o nought l (next_order_id s).0
          (record { orders = u.orders; ticks = u.ticks });
    by_cancel = cancel_order-AreUncomputed;
    by_tick = λ start finish tick l s u. record {
      orders = u.orders;
      ticks = recorded-IsUncomputed _ _ u.ticks;
    };
    by_reading = λ body l s u. record { orders = u.orders; ticks = u.ticks };
    by_limits = λ l s u. record { orders = u.orders; ticks = u.ticks };
    by_reset = λ l s u. started-AreUncomputed l;
  }

  -- Whatever requests the server answers from its start on, the percentiles of its simulator, which are
  -- what `/api/status` reports, are all still 0.
  pub respond_all-AreUncomputed :
      (host : Host W) (requests : List (Clock × Request))
      → let v = (respond_all host requests (new_server host)).0 in AreUncomputed v.limits v.sim
  unfolding new_server reset_sim
  respond_all-AreUncomputed host requests =
      respond_all-Holds AreUncomputed host (AreUncomputed-IsSteady host) requests (new_server host)
        (started-AreUncomputed (new_server host).limits)
