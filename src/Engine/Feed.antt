-- ===== src/Engine/Feed.antt =====
-- The steps of the feed of src/engine_cli.cpp.
use orderflow_replay_engine.Prelude.{
  ℕ, zero, suc, ◌<◌, ◌≡◌, refl, ap, inl, inr, List, [], ◌∷◌, Option, some, String, ℤ, pos, negsuc,
  length, ltb, arith, if◌then◌else◌, min_ℤ, ltb_ℤ, ltb_ℤ→lt, ltb_ℤ→ge, Bool-cases, none, true,
  false, ◌⊎◌, ◌≤ℤ◌, pos_part, neg_part, ◌<ℤ◌,
}
use orderflow_replay_engine.Text.{is_empty_text}
use orderflow_replay_engine.Double.{Double}
use orderflow_replay_engine.Simulator.{on_tick}
use orderflow_replay_engine.Engine.{Engine, Clock}
use orderflow_replay_engine.Engine.Orders.{at_least_one, step_count, at_index, step_from}

at_index-some {ℓ} :
    {A : Type ℓ} (i : ℕ) (xs : List A) → i < length xs → (x : A) × (at_index i xs ≡ some x)
at_index-some i [] h = absurd (omega (arith, h))
at_index-some zero (x ∷ xs) h = (x, refl)
at_index-some (suc i) (x ∷ xs) h = at_index-some i xs (omega (arith, h))

index_within : (i n : ℕ) → 0 < n → (if ltb i n then i else 0) < n
index_within i n h = ground (arith, h)

-- What a client asks for with the text `s`: 10 ticks where it is empty or not a number, and else the
-- number.
pub data Asks (stoi : String → Option ℤ) : String → ℤ → Type 0 where
  not_given : Asks stoi "" (pos 10)
  not_read : {s : String} → stoi s ≡ none → Asks stoi s (pos 10)
  given : {s : String} {a : ℤ} → is_empty_text s ≡ false → stoi s ≡ some a → Asks stoi s a

-- `n` is the number `a` held between 1 and 200.
abbrev pub IsHeld : ℤ → ℕ → Type 0
IsHeld a n =
    ((a <ℤ pos 1) × (n ≡ 1))
    ⊎ ((pos 1 ≤ℤ a) × (a ≤ℤ pos 200) × (pos n ≡ a))
    ⊎ ((pos 200 <ℤ a) × (n ≡ 200))

IsHeld-within : (a : ℤ) → a ≤ℤ pos 200 → IsHeld a (at_least_one a)
unfolding pos_part neg_part
IsHeld-within (pos zero) h = inl (omega arith, refl)
IsHeld-within (pos (suc n)) h = inr (inl (omega arith, h, refl))
IsHeld-within (negsuc n) h = inl (omega arith, refl)

min_ℤ-top : (x : ℤ) → ltb_ℤ (pos 200) x ≡ true → min_ℤ x (pos 200) ≡ pos 200
unfolding min_ℤ
min_ℤ-top x h = rw h refl

min_ℤ-below : (x : ℤ) → ltb_ℤ (pos 200) x ≡ false → min_ℤ x (pos 200) ≡ x
unfolding min_ℤ
min_ℤ-below x h = rw h refl

at_least_one-IsHeld : (a : ℤ) → IsHeld a (at_least_one (min_ℤ a (pos 200)))
at_least_one-IsHeld a = elim (Bool-cases (ltb_ℤ (pos 200) a)) [
  | inl h ↦
      let e : min_ℤ a (pos 200) ≡ pos 200 = min_ℤ-top a h in
      rw e (inr (inr (ltb_ℤ→lt (pos 200) a h, refl)))
  | inr h ↦
      let e : min_ℤ a (pos 200) ≡ a = min_ℤ-below a h in
      rw e (IsHeld-within a (ltb_ℤ→ge (pos 200) a h))
]

step_count-IsHeld :
    (stoi : String → Option ℤ) (s : String) (a : ℤ) → Asks stoi s a → IsHeld a (step_count stoi s)
unfolding step_count
step_count-IsHeld stoi _ _ not_given = at_least_one-IsHeld (pos 10)
step_count-IsHeld stoi s _ (not_read e) = elim (Bool-cases (is_empty_text s)) [
  | inl h ↦ rw h (at_least_one-IsHeld (pos 10))
  | inr h ↦ rw (h, e) (at_least_one-IsHeld (pos 10))
]
step_count-IsHeld stoi s a (given h e) = rw (h, e) (at_least_one-IsHeld a)

module _ {ℓ} {W : Type ℓ} ⦃d : Double W⦄ where
  step_from-length :
      (clock : Clock) (n i : ℕ) (e : Engine W)
      → 0 < length e.tick_feed
      → length (step_from clock n i e).1 ≡ n
  unfolding step_from
  step_from-length clock zero i e h = refl
  step_from-length clock (suc n) i e h =
      let a = at_index-some _ e.tick_feed (index_within e.feed_idx (length e.tick_feed) h) in
      rw (step_from, a.1)
        (ap suc (
          step_from-length clock n (suc i)
            (record e {
              sim = on_tick (clock.step i).0 (clock.step i).1 a.0 e.sim;
              feed_idx = suc (if ltb e.feed_idx (length e.tick_feed) then e.feed_idx else 0);
            })
            h))

  -- A step of a feed that is not empty passes on exactly as many ticks as were asked for, but 1 where
  -- less was asked for and 200 where more was; 10 are asked for where no number is given.
  pub step_from-count :
      (clock : Clock) (stoi : String → Option ℤ) (n_str : String) (a : ℤ) (e : Engine W)
      → Asks stoi n_str a
      → 0 < length e.tick_feed
      → IsHeld a (length (step_from clock (step_count stoi n_str) 0 e).1)
  step_from-count clock stoi n_str a e q h =
      rw (step_from-length clock (step_count stoi n_str) 0 e h) (step_count-IsHeld stoi n_str a q)
