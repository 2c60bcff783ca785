-- ===== src/MarketData/Ticks.antt =====
-- The ticks that `generate_synthetic` of src/journal/journal.cpp makes.
use orderflow_replay_engine.Prelude.{
  ℕ, zero, suc, ◌≡◌, refl, List, [], ◌∷◌, String, ℤ, pos, ◌+ℤ◌, ◌*ℤ◌, length, arith,
}
use orderflow_replay_engine.Double.{Double}
use orderflow_replay_engine.Types.{Timestamp, MarketDataTick}
use orderflow_replay_engine.MarketData.{Config, Draws, generate_from, generate_synthetic, tick_of}

-- The ticks are of one symbol, and their stamps go on from index `i` by equal steps.
unfoldable pub IsSpaced : String → Timestamp → ℤ → ℕ → List MarketDataTick → Type 0
IsSpaced symbol start step i [] = Unit
IsSpaced symbol start step i (t ∷ ts) =
    (t.symbol ≡ symbol)
    × (t.timestamp ≡ start +ℤ pos i *ℤ step)
    × IsSpaced symbol start step (suc i) ts

module _ {ℓ} {W : Type ℓ} ⦃d : Double W⦄ (cfg : Config W) (draws : Draws W) where
  generated-IsSpaced :
      (n i : ℕ) (price : W)
      → IsSpaced cfg.symbol cfg.start_ts cfg.tick_interval_ns i (generate_from cfg draws n i price)
  unfolding generate_from tick_of IsSpaced
  generated-IsSpaced zero i price = tt
  generated-IsSpaced (suc n) i price = (refl, refl, generated-IsSpaced n (suc i) _)

  length-generated : (n i : ℕ) (price : W) → length (generate_from cfg draws n i price) ≡ n
  unfolding generate_from
  length-generated zero i price = refl
  length-generated (suc n) i price = omega (arith, length-generated n (suc i) _)

  -- There are as many ticks as the configuration asks for, of its symbol, and their time stamps go
  -- from its start by its interval.
  pub generate_synthetic-IsSpaced :
      (length (generate_synthetic cfg draws) ≡ cfg.ticks)
      × IsSpaced cfg.symbol cfg.start_ts cfg.tick_interval_ns 0 (generate_synthetic cfg draws)
  unfolding generate_synthetic
  generate_synthetic-IsSpaced =
      (length-generated cfg.ticks 0 cfg.start_price, generated-IsSpaced cfg.ticks 0 cfg.start_price)
