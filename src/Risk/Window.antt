-- ===== src/Risk/Window.antt =====
-- The window of one second over which `check_order` of src/risk/risk_manager.cpp counts orders.
use orderflow_replay_engine.Prelude.{
  ℕ, suc, ◌≤◌, ◌≡◌, refl, ◌⊎◌, inl, inr, true, false, List, [], ◌∷◌, ◌++◌, ℤ, pos, ◌-ℤ◌, ◌<ℤ◌, ◌≤ℤ◌,
  ltb_ℤ, leb_ℤ, if◌then◌else◌, length, length-append, All, All-map, arith, int_laws, Bool-cases,
  ltb_ℤ→ge, ge→ltb_ℤ,
}
use orderflow_replay_engine.Double.{Double}
use orderflow_replay_engine.Types.{Timestamp, Order}
use orderflow_replay_engine.Risk.{RiskManager, check_order, drop_before, second_ns}
use orderflow_replay_engine.Risk.Checks.{check_order-Bookkeeping}

-- The stamps of the deque are in the order of time.
unfoldable pub IsAscending : List Timestamp → Type 0
IsAscending [] = Unit
IsAscending (t ∷ ts) = All (λ u. t ≤ℤ u) ts × IsAscending ts

-- How many stamps are not before `cutoff`.
unfoldable pub count_since : Timestamp → List Timestamp → ℕ
count_since cutoff [] = 0
count_since cutoff (t ∷ ts) =
    if ltb_ℤ t cutoff then count_since cutoff ts else suc (count_since cutoff ts)

count_since-all :
    (cutoff : Timestamp) (ts : List Timestamp)
    → All (λ u. cutoff ≤ℤ u) ts
    → count_since cutoff ts ≡ length ts
unfolding count_since
count_since-all cutoff [] h = refl
count_since-all cutoff (t ∷ ts) (h, hs) =
    rw (ge→ltb_ℤ t cutoff h, count_since-all cutoff ts hs) refl

-- On a deque in the order of time, the loop that drops old stamps from its front counts exactly the
-- orders since `cutoff`.
pub length-drop_before :
    (cutoff : Timestamp) (ts : List Timestamp)
    → IsAscending ts
    → length (drop_before cutoff ts) ≡ count_since cutoff ts
unfolding drop_before count_since IsAscending
length-drop_before cutoff [] h = refl
length-drop_before cutoff (t ∷ ts) (h, hs) = elim (Bool-cases (ltb_ℤ t cutoff)) [
  | inl e ↦ rw e (length-drop_before cutoff ts hs)
  | inr e ↦
      rw
        (
          e,
          count_since-all cutoff ts
              (All-map _ _ (λ u k. omega (int_laws, ltb_ℤ→ge t cutoff e, k)) ts h),
        )
        refl
]

drop_before-shorter :
    (cutoff : Timestamp) (ts : List Timestamp) → length (drop_before cutoff ts) ≤ length ts
unfolding drop_before
drop_before-shorter cutoff [] = omega arith
drop_before-shorter cutoff (t ∷ ts) = elim (Bool-cases (ltb_ℤ t cutoff)) [
  | inl e ↦ rw e (omega (arith, drop_before-shorter cutoff ts))
  | inr e ↦ rw e (omega arith)
]

below : (a b : ℤ) → leb_ℤ a b ≡ false → b <ℤ a
below a b k = ground arith

module _ {ℓ} {W : Type ℓ} ⦃d : Double W⦄ where
  -- The deque holds no more stamps than orders that are allowed in a second.
  abbrev pub IsRateBounded : RiskManager W → Type 0
  IsRateBounded r = pos (length r.order_timestamps_ns) ≤ℤ r.limits.max_orders_per_sec

  abbrev kept : Timestamp → RiskManager W → List Timestamp
  kept now r = drop_before (now -ℤ second_ns) r.order_timestamps_ns

  -- What may become of the deque while the checks are on.
  stamps_after :
      (now later : Timestamp) (o : Order) (px : W) (r : RiskManager W) (ts : List Timestamp)
      → r.limits.enabled ≡ true
      → ts ≡ (check_order now later o px r).0.order_timestamps_ns
      → (ts ≡ r.order_timestamps_ns)
        ⊎ (ts ≡ kept now r)
        ⊎ ((ts ≡ kept now r ++ later ∷ [])
            × (leb_ℤ r.limits.max_orders_per_sec (pos (length (kept now r))) ≡ false))
  unfolding check_order
  stamps_after now later o px r ts e h = ground arith

  -- While the checks are on, the deque never grows past the allowed rate, whatever the clock reads.
  pub check_order-IsRateBounded :
      (now later : Timestamp) (o : Order) (px : W) (r : RiskManager W)
      → r.limits.enabled ≡ true
      → IsRateBounded r
      → IsRateBounded (check_order now later o px r).0
  check_order-IsRateBounded now later o px r e h =
      let b = check_order-Bookkeeping now later o px r in
      rw b.limits_eq (elim (stamps_after now later o px r _ e refl) [
        | inl k ↦ rw k h
        | inr (inl k) ↦
            rw k (omega (int_laws, drop_before-shorter (now -ℤ second_ns) r.order_timestamps_ns, h))
        | inr (inr (k, room)) ↦
            rw (k, length-append (kept now r) (later ∷ []))
              (omega (int_laws, below r.limits.max_orders_per_sec (pos (length (kept now r))) room))
      ])
