-- ===== src/Engine/Logs.antt =====
-- The two logs of src/engine_cli.cpp: what the callbacks put in, and that they stay bounded.
pub mod Bounds
use mathlib.Core.List.{append_assoc, append-nil}
use orderflow_replay_engine.Prelude.{
  ℕ, zero, suc, ◌+◌, ◌-◌, ◌≤◌, ◌<◌, ◌⊎◌, ◌≡◌, refl, sym, subst, ap, ◌∙◌, arith, inl, inr, List, [],
  ◌∷◌, ◌++◌, map, String, length, ltb, drop, length-drop, length-append, last_of, true, false,
  if◌then◌else◌, Option-cases, Bool-cases,
}
use orderflow_replay_engine.Double.{Double}
use orderflow_replay_engine.Types.{Order, Trade}
use orderflow_replay_engine.Json.{trade_to_json, order_to_json}
use orderflow_replay_engine.OrderBook.Levels.{Event, traded, notified}
use orderflow_replay_engine.Simulator.{
  ExchangeSimulator, SubmitTimes, submit_order, cancel_order, next_order_id,
}
use orderflow_replay_engine.Engine.{
  Engine, Host, Clock, push_log, log_event, log_events, init_sim, init_feed,
}
use orderflow_replay_engine.Engine.Fields.{jget}
use orderflow_replay_engine.Engine.Queries.{status_command}
use orderflow_replay_engine.Engine.Orders.{
  or_else, order_command, submit_command, cancel_command, feed_step_command, step_from, step_count,
  at_index,
}
use orderflow_replay_engine.Engine.Commands.{
  reset_command, read_limits, risk_limits_command, new_engine, serve,
}
use orderflow_replay_engine.Engine.Served.{IsKept, serve-kept}

-- The trades and the reports among the events of an operation.
abbrev pub trades_of : List Event → List Trade
trades_of [] = []
trades_of (traded t ∷ vs) = t ∷ trades_of vs
trades_of (notified o ∷ vs) = trades_of vs

abbrev pub reports_of : List Event → List Order
reports_of [] = []
reports_of (traded t ∷ vs) = reports_of vs
reports_of (notified o ∷ vs) = o ∷ reports_of vs

module _ {ℓ} {A : Type ℓ} where
  drop-suc :
      (n : ℕ) (x : A) (xs : List A)
      → n ≤ length xs
      → drop 1 (drop n xs ++ x ∷ []) ≡ drop (suc n) (xs ++ x ∷ [])
  drop-suc zero x xs h = refl
  drop-suc (suc n) x [] h = absurd (omega (arith, h))
  drop-suc (suc n) x (y ∷ xs) h = drop-suc n x xs (omega (arith, h))

ltb_above : (m n : ℕ) → m < n → ltb m n ≡ true
ltb_above m n h = ground arith

ltb_within : (m n : ℕ) → n ≤ m → ltb m n ≡ false
ltb_within m n h = ground arith

below_or_not : (m n : ℕ) → (m < n) ⊎ (n ≤ m)
below_or_not m n = elim (Bool-cases (ltb m n)) [
  | inl h ↦ inl (ground arith)
  | inr h ↦ inr (ground arith)
]

-- After a push a log is again the last `n` of all that was pushed.
pub push_log-last :
    (n : ℕ) (x : String) (xs : List String) → push_log n x (last_of n xs) ≡ last_of n (xs ++ x ∷ [])
unfolding push_log
push_log-last n x xs =
    let m = length xs - n in
    let l = length-append xs (x ∷ []) in
    let k : length (drop m xs ++ x ∷ []) ≡ length xs - m + 1 =
      length-append (drop m xs) (x ∷ []) ∙ ap (λ j. j + 1) (length-drop m xs) in
    elim (below_or_not (length xs) n) [
      | inr h ↦ rw (ltb_above n (length (drop m xs ++ x ∷ [])) (omega (arith, k, h))) (
          let a : suc m ≡ length (xs ++ x ∷ []) - n = omega (arith, l, h) in
          drop-suc m x xs (omega arith) ∙ ap (λ j. drop j (xs ++ x ∷ [])) a)
      | inl h ↦ rw (ltb_within n (length (drop m xs ++ x ∷ [])) (omega (arith, k, h))) (
          let a : length xs - n ≡ 0 = omega (arith, h) in
          let b : 0 ≡ length (xs ++ x ∷ []) - n = omega (arith, l, h) in
          ap (λ j. drop j xs ++ x ∷ []) a ∙ ap (λ j. drop j (xs ++ x ∷ [])) b)
    ]

pub last_of-within : (n : ℕ) (xs : List String) → length (last_of n xs) ≤ n
last_of-within n xs = omega (arith, length-drop (length xs - n) xs)

pub last_of-all : (n : ℕ) (xs : List String) → length xs ≤ n → xs ≡ last_of n xs
last_of-all n xs h = let a : 0 ≡ length xs - n = omega (arith, h) in ap (λ j. drop j xs) a

module _ {ℓ} {W : Type ℓ} ⦃d : Double W⦄ where
  -- What both logs hold after an operation are the last 500 of what there was and the trades and
  -- reports among its events, in their order.
  pub log_events-last :
      (vs : List Event) (ts os : List String) (e : Engine W)
      → e.trade_log ≡ last_of 500 ts
      → e.order_log ≡ last_of 500 os
      → ((log_events vs e).trade_log ≡ last_of 500 (ts ++ map (trade_to_json W) (trades_of vs)))
        × ((log_events vs e).order_log ≡ last_of 500 (os ++ map (order_to_json W) (reports_of vs)))
  unfolding log_events log_event
  log_events-last [] ts os e ht ho = (rw (append-nil ts) ht, rw (append-nil os) ho)
  log_events-last (traded t ∷ vs) ts os e ht ho =
      let x = trade_to_json W t in
      let r =
        log_events-last vs (ts ++ x ∷ []) os (log_event (traded t) e)
          (ap (push_log 500 x) ht ∙ push_log-last 500 x ts) ho in
      (
        r.0 ∙ ap (last_of 500) (append_assoc ts (x ∷ []) (map (trade_to_json W) (trades_of vs))),
        r.1,
      )
  log_events-last (notified o ∷ vs) ts os e ht ho =
      let x = order_to_json W o in
      let r =
        log_events-last vs ts (os ++ x ∷ []) (log_event (notified o) e) ht
          (ap (push_log 500 x) ho ∙ push_log-last 500 x os) in
      (
        r.0,
        r.1 ∙ ap (last_of 500) (append_assoc os (x ∷ []) (map (order_to_json W) (reports_of vs))),
      )
