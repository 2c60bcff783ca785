-- ===== src/Server/Agreement.antt =====
-- The route `/api/order` of src/main.cpp against the command `order` of src/engine_cli.cpp.
use orderflow_replay_engine.Prelude.{
  ◌≡◌, refl, sym, ap, ◌∙◌, inl, inr, false, none, String, Option-cases,
}
use orderflow_replay_engine.Text.{is_empty_text}
use orderflow_replay_engine.Double.{Double, to_price, nought}
use orderflow_replay_engine.Types.{OrderId, Price, Quantity}
use orderflow_replay_engine.Simulator.{next_order_id, submit_order}
use orderflow_replay_engine.Engine.{Engine, Host, Clock}
use orderflow_replay_engine.Engine.Fields.{jget}
use orderflow_replay_engine.Engine.Orders.{order_reply, order_from, submit_command, order_command}
use orderflow_replay_engine.Engine.Running.{log_events-sim as logged_engine}
use orderflow_replay_engine.Server.{Server}
use orderflow_replay_engine.Server.Routes.{
  Response, ok, failed, thrown, json_get, posted_order, posted, order_route,
}
use orderflow_replay_engine.Server.Steady.{log_events-sim as logged_server}

-- The text that is sent.
abbrev pub body_of : Response → String
body_of (ok body) = body
body_of (failed status body) = body
body_of thrown = ""

order_from-given :
    (id : OrderId) (body : String) (price : Price) (qty : Quantity)
    → is_empty_text (jget body "symbol") ≡ false
    → posted_order id body price qty ≡ order_from id body price qty
unfolding posted_order order_from
order_from-given id body price qty given = rw given refl

module _ {ℓ} {W : Type ℓ} ⦃d : Double W⦄ where
  -- For a body with a symbol and without a market price, the route and the command leave the same
  -- simulator, from the same one, and answer with the same text.
  pub order_route-order_command :
      (host : Host W) (clock : Clock) (body : String) (v : Server W) (e : Engine W)
      → is_empty_text (jget body "symbol") ≡ false
      → host.stod (jget body "market_price") ≡ none
      → ((order_route host clock body v).0.sim
          ≡ (order_command host clock body (record e { sim = v.sim })).0.sim)
        × (body_of (order_route host clock body v).1
            ≡ (order_command host clock body (record e { sim = v.sim })).1)
  unfolding order_route posted posted_order order_command submit_command order_from
  order_route-order_command host clock body v e given unpriced =
      elim (Option-cases (host.stod (json_get body "price"))) [
        | inl p ↦ rw (order_route, order_command, p) (refl, refl)
        | inr (price, p) ↦ elim (Option-cases (host.stoll (json_get body "qty"))) [
          | inl q ↦ rw (order_route, order_command, p, q) (refl, refl)
          | inr (qty, q) ↦
              let sim = (next_order_id v.sim).0 in
              let id = (next_order_id v.sim).1 in
              let same : posted_order id body (to_price price) qty
                  ≡ order_from id body (to_price price) qty =
                order_from-given id body (to_price price) qty given in
              let a =
                submit_order clock.submit (posted_order id body (to_price price) qty) nought sim in
              let b =
                submit_order clock.submit (order_from id body (to_price price) qty) nought sim in
              rw (order_route, order_command, p, q, unpriced)
                (
                  (logged_server a.2 (record v { sim = a.0 })).1
                      ∙ ap (λ o. (submit_order clock.submit o nought sim).0) same
                      ∙ sym (logged_engine b.2 (record e { sim = b.0 })).0,
                  ap (λ o. order_reply W o (submit_order clock.submit o nought sim).1) same,
                )
        ]
      ]
