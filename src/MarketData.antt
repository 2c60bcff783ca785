-- ===== src/MarketData.antt =====
-- src/journal/journal.hpp and src/journal/journal.cpp, the generator of synthetic ticks of
-- `MarketDataParser`. What the random distributions draw is an argument.
pub mod Ticks
pub mod Csv
mod Examples
use orderflow_replay_engine.Prelude.{
  ℕ, zero, suc, Bool, List, [], ◌∷◌, String, ℤ, pos, ◌+ℤ◌, ◌*ℤ◌, if◌then◌else◌,
}
use orderflow_replay_engine.Double.{Double, to_price, nought}
use orderflow_replay_engine.Types.{Timestamp, Quantity, MarketDataTick, halve}

-- `volatility` and `seed` only go to the distributions.
pub record Config {ℓ} (W : Type ℓ) : Type ℓ where
  pub symbol : String
  pub start_price : W
  pub spread_bps : W
  pub ticks : ℕ
  pub start_ts : Timestamp
  pub tick_interval_ns : ℤ

-- What is drawn for the tick of each index, in this order.
pub record Draws {ℓ} (W : Type ℓ) : Type ℓ where
  pub noise : ℕ → W
  pub bid_qty : ℕ → Quantity
  pub ask_qty : ℕ → Quantity
  pub last_qty : ℕ → Quantity

module _ {ℓ} {W : Type ℓ} ⦃d : Double W⦄ (cfg : Config W) (draws : Draws W) where
  -- The price after the `i`-th draw.
  unfoldable pub moved : ℕ → W → W
  moved i price =
      let p = d.mul price (d.add (d.lit (pos 1) 1) (draws.noise i)) in
      if d.le p nought then d.lit (pos 1) 100 else p

  unfoldable pub tick_of : ℕ → W → MarketDataTick
  unfolding halve
  tick_of i price =
      let half =
        d.div (d.div (d.mul price cfg.spread_bps) (d.lit (pos 10000) 1)) (d.lit (pos 2) 1) in
      record {
        timestamp = cfg.start_ts +ℤ pos i *ℤ cfg.tick_interval_ns;
        symbol = cfg.symbol;
        bid_price = to_price (d.sub price half);
        bid_qty = draws.bid_qty i;
        ask_price = to_price (d.add price half);
        ask_qty = draws.ask_qty i;
        last_price = to_price price;
        last_qty = halve (draws.last_qty i);
      }

  -- The loop, with `n` ticks to go from index `i`.
  unfoldable pub generate_from : ℕ → ℕ → W → List MarketDataTick
  unfolding moved tick_of
  generate_from zero i price = []
  generate_from (suc n) i price =
      tick_of i (moved i price) ∷ generate_from n (suc i) (moved i price)

  unfoldable pub generate_synthetic : List MarketDataTick
  unfolding generate_from
  generate_synthetic = generate_from cfg.ticks 0 cfg.start_price
