-- ===== src/Strategy/MeanReversion.antt =====
-- `MeanReversionStrategy` of src/strategy/strategy.hpp.
use Prim.Native.String.{◌++◌ as concat}
use orderflow_replay_engine.Prelude.{
  ℕ, Bool, true, false, ◌&&◌, not, List, [], ◌∷◌, String, pos, ltb, length, if◌then◌else◌,
}
use orderflow_replay_engine.Double.{Double, from_price, nought}
use orderflow_replay_engine.Types.{Quantity, MarketDataTick, OrderBookSnapshot}
use orderflow_replay_engine.Strategy.{Action, StrategySignal, new_signal, IStrategy}
use orderflow_replay_engine.Strategy.Momentum.{push_bounded, sum_from}

pub record MeanReversionStrategy {ℓ} (W : Type ℓ) : Type ℓ where
  pub window : ℕ
  pub z_entry : W
  pub qty : Quantity
  pub buf : List W
  pub in_trade : Bool

module _ {ℓ} {W : Type ℓ} ⦃d : Double W⦄ where
  -- The sum of the squares of the distances from `mean`.
  abbrev pub squares_from : W → W → List W → W
  squares_from mean total [] = total
  squares_from mean total (x ∷ xs) =
      squares_from mean (d.add total (d.mul (d.sub x mean) (d.sub x mean))) xs

  abbrev pub new_mean_reversion : ℕ → W → Quantity → MeanReversionStrategy W
  new_mean_reversion window z_entry qty = record {
    window = window;
    z_entry = z_entry;
    qty = qty;
    buf = [];
    in_trade = false;
  }

  -- `shown` is `std::to_string(z).substr(0, 6)`.
  unfoldable pub mean_reversion_on_tick :
      (W → String)
      → MarketDataTick
      → OrderBookSnapshot
      → MeanReversionStrategy W
      → MeanReversionStrategy W × List StrategySignal
  mean_reversion_on_tick shown tick book s₀ =
      let px = from_price tick.last_price in
      let buf = push_bounded s₀.window px s₀.buf in
      let s : MeanReversionStrategy W = record s₀ { buf = buf } in
      let width = d.of_int (pos s₀.window) in
      let mean = d.div (sum_from nought buf) width in
      let stddev = d.sqrt (d.div (squares_from mean nought buf) width) in
      let z = d.div (d.sub px mean) stddev in
      if ltb (length buf) s₀.window
      then (s, [])
      else if d.lt stddev (d.lit (pos 1) 1_000_000_000)
      then (s, [])
      else if d.lt z (d.neg s₀.z_entry) && not s₀.in_trade
      then (
        record s { in_trade = true },
        record (new_signal Action.buy) {
          symbol = tick.symbol;
          price = tick.ask_price;
          qty = s₀.qty;
          reason = concat "MR_LONG z=" (shown z);
        }
            ∷ [],
      )
      else if d.lt s₀.z_entry z && not s₀.in_trade
      then (
        record s { in_trade = true },
        record (new_signal Action.sell) {
          symbol = tick.symbol;
          price = tick.bid_price;
          qty = s₀.qty;
          reason = concat "MR_SHORT z=" (shown z);
        }
            ∷ [],
      )
      else if d.lt (d.abs z) (d.lit (pos 3) 10) && s₀.in_trade
      then (
        record s { in_trade = false },
        record (new_signal Action.cancel_all) { reason = "MR_EXIT" } ∷ [],
      )
      else (s, [])

  unfoldable pub mean_reversion : (W → String) → IStrategy (MeanReversionStrategy W)
  mean_reversion shown = record {
    name = "MeanReversion";
    on_init = λ symbol s. s;
    on_tick = mean_reversion_on_tick shown;
    on_order_update = λ o s. s;
    on_trade = λ t s. s;
  }
