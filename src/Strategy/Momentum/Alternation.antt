-- ===== src/Strategy/Momentum/Alternation.antt =====
-- The signals of `MomentumStrategy` of src/strategy/strategy.hpp over a run of ticks.
use orderflow_replay_engine.Prelude.{
  suc, ◌*◌, ◌/◌, String, ◌≡◌, refl, sym, subst, ◌⊎◌, inl, inr, Bool, true, false, ◌&&◌, not, List,
  [], ◌∷◌, ◌++◌, ltb, length, pos, arith, if-both, if-each, if◌then◌else◌,
}
use orderflow_replay_engine.Double.{Double, from_price}
use orderflow_replay_engine.Types.{market, MarketDataTick, OrderBookSnapshot}
use orderflow_replay_engine.Strategy.{Action, StrategySignal, new_signal}
use orderflow_replay_engine.Strategy.Momentum.{
  MomentumStrategy, momentum_on_tick, push_bounded, mean_of_last,
}

-- The signals buy and sell in turn, starting with a sale if `long`.
unfoldable pub IsAlternating : Bool → List StrategySignal → Type 0
IsAlternating long [] = Unit
IsAlternating false (s ∷ ss) = (s.action ≡ Action.buy) × IsAlternating true ss
IsAlternating true (s ∷ ss) = (s.action ≡ Action.sell) × IsAlternating false ss

flat : (a b : Bool) → (a && not b) ≡ true → b ≡ false
flat a b h = ground arith

both : (a b : Bool) → (a && b) ≡ true → b ≡ true
both a b h = ground arith

module _ {ℓ} {W : Type ℓ} ⦃d : Double W⦄ where
  -- All the signals of a run.
  unfoldable pub signals_over :
      List (MarketDataTick × OrderBookSnapshot) → MomentumStrategy W → List StrategySignal
  signals_over [] s = []
  signals_over ((tick, book) ∷ rest) s =
      let a = momentum_on_tick tick book s in a.1 ++ signals_over rest a.0

  -- What one tick may do: nothing, go long with a purchase, or go flat with a sale.
  unfoldable IsTurn : Bool → MomentumStrategy W × List StrategySignal → Type 0
  IsTurn long a =
      ((a.1 ≡ []) × (a.0.is_long ≡ long))
      ⊎ ((long ≡ false)
          × (a.0.is_long ≡ true)
          × ((x : StrategySignal) × (a.1 ≡ x ∷ []) × (x.action ≡ Action.buy)))
      ⊎ ((long ≡ true)
          × (a.0.is_long ≡ false)
          × ((x : StrategySignal) × (a.1 ≡ x ∷ []) × (x.action ≡ Action.sell)))

  stays-IsTurn : (long : Bool) (s : MomentumStrategy W) → s.is_long ≡ long → IsTurn long (s, [])
  unfolding IsTurn
  stays-IsTurn long s h = inl (refl, h)

  buys-IsTurn :
      (long : Bool) (s : MomentumStrategy W) (x : StrategySignal)
      → long ≡ false
      → s.is_long ≡ true
      → x.action ≡ Action.buy
      → IsTurn long (s, x ∷ [])
  unfolding IsTurn
  buys-IsTurn long s x f h e = inr (inl (f, h, (x, refl, e)))

  sells-IsTurn :
      (long : Bool) (s : MomentumStrategy W) (x : StrategySignal)
      → long ≡ true
      → s.is_long ≡ false
      → x.action ≡ Action.sell
      → IsTurn long (s, x ∷ [])
  unfolding IsTurn
  sells-IsTurn long s x f h e = inr (inr (f, h, (x, refl, e)))

  chosen-IsTurn :
      (short rising falling : Bool) (s bought sold : MomentumStrategy W) (x y : StrategySignal)
      → bought.is_long ≡ true
      → sold.is_long ≡ false
      → x.action ≡ Action.buy
      → y.action ≡ Action.sell
      → IsTurn s.is_long (
          if short
          then (s, [])
          else if rising && not s.is_long
          then (bought, x ∷ [])
          else if falling && s.is_long
          then (sold, y ∷ [])
          else (s, []))
  chosen-IsTurn short rising falling s bought sold x y hb hs hx hy =
      if-both (IsTurn s.is_long) short _ _ (stays-IsTurn s.is_long s refl) (
        if-each (IsTurn s.is_long) (rising && not s.is_long) _ _
          (λ k. buys-IsTurn s.is_long bought x (flat rising s.is_long k) hb hx)
          (λ k.
            if-each (IsTurn s.is_long) (falling && s.is_long) _ _
              (λ l. sells-IsTurn s.is_long sold y (both falling s.is_long l) hs hy)
              (λ l. stays-IsTurn s.is_long s refl)))

  tick-IsTurn :
      (tick : MarketDataTick) (book : OrderBookSnapshot) (s : MomentumStrategy W)
      → IsTurn s.is_long (momentum_on_tick tick book s)
  unfolding momentum_on_tick
  tick-IsTurn tick book s₀ =
      let prices = push_bounded (s₀.lookback * 2) (from_price tick.last_price) s₀.prices in
      let s : MomentumStrategy W = record s₀ { prices = prices } in
      let bought : MomentumStrategy W = record s { is_long = true; signals = suc s₀.signals } in
      let sold : MomentumStrategy W = record s { is_long = false; signals = suc s₀.signals } in
      let signal : Action → String → StrategySignal = λ a reason. record (new_signal a) {
        symbol = tick.symbol;
        type = market;
        qty = s₀.qty;
        reason = reason;
      } in
      let fast = mean_of_last (s₀.lookback / 2) prices in
      let slow = mean_of_last s₀.lookback prices in
      chosen-IsTurn (ltb (length prices) s₀.lookback)
        (d.lt (d.mul slow (d.lit (pos 10002) 10000)) fast)
        (d.lt fast (d.mul slow (d.lit (pos 9998) 10000))) s bought sold
        (signal Action.buy "MOMENTUM_LONG") (signal Action.sell "MOMENTUM_FLAT") refl refl refl refl

  -- Over any run of ticks the momentum strategy buys and sells in turn: it never buys while it is
  -- long, nor sells while it is flat.
  pub signals_over-IsAlternating :
      (run : List (MarketDataTick × OrderBookSnapshot)) (s : MomentumStrategy W)
      → IsAlternating s.is_long (signals_over run s)
  unfolding signals_over IsAlternating IsTurn
  signals_over-IsAlternating [] s = tt
  signals_over-IsAlternating ((tick, book) ∷ rest) s =
      let a = momentum_on_tick tick book s in
      let tail = signals_over-IsAlternating rest a.0 in
      elim (tick-IsTurn tick book s) [
        | inl (e, k) ↦
            subst (λ xs. IsAlternating s.is_long (xs ++ signals_over rest a.0)) (sym e)
              (subst (λ b. IsAlternating b (signals_over rest a.0)) k tail)
        | inr (inl (f, k, (x, e, act))) ↦
            subst (λ xs. IsAlternating s.is_long (xs ++ signals_over rest a.0)) (sym e)
              (subst (λ b. IsAlternating b (x ∷ signals_over rest a.0)) (sym f)
                (act, subst (λ b. IsAlternating b (signals_over rest a.0)) k tail))
        | inr (inr (f, k, (x, e, act))) ↦
            subst (λ xs. IsAlternating s.is_long (xs ++ signals_over rest a.0)) (sym e)
              (subst (λ b. IsAlternating b (x ∷ signals_over rest a.0)) (sym f)
                (act, subst (λ b. IsAlternating b (signals_over rest a.0)) k tail))
      ]
