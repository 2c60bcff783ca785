-- ===== src/Strategy/Momentum.antt =====
-- `MomentumStrategy` of src/strategy/strategy.hpp. The divisions are of a `double` by an `int`.
pub mod Alternation
use orderflow_replay_engine.Prelude.{
  ℕ, zero, suc, ◌-◌, ◌*◌, ◌/◌, Bool, true, false, ◌&&◌, not, List, [], ◌∷◌, ◌++◌, String, drop, pos,
  ltb, length, if◌then◌else◌,
}
use orderflow_replay_engine.Double.{Double, from_price, nought}
use orderflow_replay_engine.Types.{Quantity, market, MarketDataTick, OrderBookSnapshot}
use orderflow_replay_engine.Strategy.{Action, StrategySignal, new_signal, IStrategy}

-- `lookback` is positive: the constructor's default is 20, and no caller passes another.
pub record MomentumStrategy {ℓ} (W : Type ℓ) : Type ℓ where
  pub lookback : ℕ
  pub qty : Quantity
  pub prices : List W
  pub is_long : Bool
  pub signals : ℕ

-- `push_back`, and `pop_front` while there are more than `bound`.
abbrev pub push_bounded {ℓ} : {A : Type ℓ} → ℕ → A → List A → List A
push_bounded bound x xs = let ys = xs ++ x ∷ [] in if ltb bound (length ys) then drop 1 ys else ys

module _ {ℓ} {W : Type ℓ} ⦃d : Double W⦄ where
  -- The sum from the left, as the loops take it.
  abbrev pub sum_from : W → List W → W
  sum_from total [] = total
  sum_from total (x ∷ xs) = sum_from (d.add total x) xs

  -- The mean of the last `n` prices.
  abbrev pub mean_of_last : ℕ → List W → W
  mean_of_last n xs = d.div (sum_from nought (drop (length xs - n) xs)) (d.of_int (pos n))

  abbrev pub new_momentum : ℕ → Quantity → MomentumStrategy W
  new_momentum lookback qty = record {
    lookback = lookback;
    qty = qty;
    prices = [];
    is_long = false;
    signals = 0;
  }

  unfoldable pub momentum_on_tick :
      MarketDataTick
      → OrderBookSnapshot
      → MomentumStrategy W
      → MomentumStrategy W × List StrategySignal
  momentum_on_tick tick book s₀ =
      let prices = push_bounded (s₀.lookback * 2) (from_price tick.last_price) s₀.prices in
      let s : MomentumStrategy W = record s₀ { prices = prices } in
      let fast = mean_of_last (s₀.lookback / 2) prices in
      let slow = mean_of_last s₀.lookback prices in
      let signal : Action → String → StrategySignal = λ a reason. record (new_signal a) {
        symbol = tick.symbol;
        type = market;
        qty = s₀.qty;
        reason = reason;
      } in
      if ltb (length prices) s₀.lookback
      then (s, [])
      else if d.lt (d.mul slow (d.lit (pos 10002) 10000)) fast && not s₀.is_long
      then (
        record s { is_long = true; signals = suc s₀.signals },
        signal Action.buy "MOMENTUM_LONG" ∷ [],
      )
      else if d.lt fast (d.mul slow (d.lit (pos 9998) 10000)) && s₀.is_long
      then (
        record s { is_long = false; signals = suc s₀.signals },
        signal Action.sell "MOMENTUM_FLAT" ∷ [],
      )
      else (s, [])

  unfoldable pub momentum : IStrategy (MomentumStrategy W)
  momentum = record {
    name = "Momentum";
    on_init = λ symbol s. s;
    on_tick = momentum_on_tick;
    on_order_update = λ o s. s;
    on_trade = λ t s. s;
  }
