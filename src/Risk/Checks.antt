-- ===== src/Risk/Checks.antt =====
-- What `check_order` of src/risk/risk_manager.cpp lets through, and what it leaves behind.
use orderflow_replay_engine.Prelude.{
  suc, ◌≡◌, refl, ◌↔◌, true, false, ◌&&◌, pos, ◌-ℤ◌, ◌<ℤ◌, ◌≤ℤ◌, leb_ℤ, neg_ℤ, abs_ℤ-le, le-abs_ℤ,
  if◌then◌else◌, length, arith,
}
use orderflow_replay_engine.Double.{Double}
use orderflow_replay_engine.Types.{Timestamp, OrderType, limit, market, ioc, fok, Order}
use orderflow_replay_engine.Risk.{
  RiskManager, RiskResult, check_order, projected, order_notional, drop_before, second_ns, is_limit,
}

module _ {ℓ} {W : Type ℓ} ⦃d : Double W⦄ where
  -- The order is within all the limits, at the time `now` and the price `current_price`.
  pub record Passes (now : Timestamp) (o : Order) (current_price : W) (r : RiskManager W)
      : Type 0 where
    pub qty_pos : pos 0 <ℤ o.qty
    pub price_pos : o.type ≡ limit → pos 0 <ℤ o.price
    pub qty_le : o.qty ≤ℤ r.limits.max_order_qty
    pub notional_le : d.lt r.limits.max_notional_usd (order_notional o current_price) ≡ false
    pub position_le : projected r o ≤ℤ r.limits.max_position
    pub position_ge : neg_ℤ r.limits.max_position ≤ℤ projected r o
    pub rate_lt :
        pos (length (drop_before (now -ℤ second_ns) r.order_timestamps_ns))
        <ℤ r.limits.max_orders_per_sec

  module _ (now later : Timestamp) (o : Order) (px : W) (r : RiskManager W) where
    abbrev result : RiskResult
    result = (check_order now later o px r).1

    price_checked :
        (t : OrderType)
        → (is_limit t && leb_ℤ o.price (pos 0)) ≡ false
        → t ≡ limit
        → pos 0 <ℤ o.price
    unfolding is_limit
    price_checked limit h e = ground arith
    price_checked market h e = absurd (ground arith)
    price_checked ioc h e = absurd (ground arith)
    price_checked fok h e = absurd (ground arith)

    price_passes :
        (t : OrderType)
        → (t ≡ limit → pos 0 <ℤ o.price)
        → (is_limit t && leb_ℤ o.price (pos 0)) ≡ false
    unfolding is_limit
    price_passes limit h = let k = h refl in ground arith
    price_passes market h = refl
    price_passes ioc h = refl
    price_passes fok h = refl

    approved-Passes : r.limits.enabled ≡ true → result.approved ≡ true → Passes now o px r
    unfolding check_order
    approved-Passes e h = record {
      qty_pos = ground arith;
      price_pos = price_checked o.type (ground arith);
      qty_le = ground arith;
      notional_le = ground arith;
      position_le = (le-abs_ℤ (projected r o) r.limits.max_position (ground arith)).0;
      position_ge = (le-abs_ℤ (projected r o) r.limits.max_position (ground arith)).1;
      rate_lt = ground arith;
    }

    Passes-approved : Passes now o px r → result.approved ≡ true
    unfolding check_order
    Passes-approved p =
        let price = price_passes o.type p.price_pos in
        let position = abs_ℤ-le (projected r o) r.limits.max_position p.position_le p.position_ge in
        ground (arith, p.qty_pos, p.qty_le, p.notional_le, p.rate_lt)

    pub check_order_iff : r.limits.enabled ≡ true → (result.approved ≡ true) ↔ Passes now o px r
    check_order_iff e = (approved-Passes e, Passes-approved)

    -- What `check_order` leaves behind: it counts the check, counts a rejection if it rejects, and
    -- leaves the limits, the positions and the prices alone.
    pub record Bookkeeping : Type ℓ where
      pub checked : (check_order now later o px r).0.stats_checked ≡ suc r.stats_checked
      pub rejected :
          (check_order now later o px r).0.stats_rejected
          ≡ (if result.approved then r.stats_rejected else suc r.stats_rejected)
      pub limits_eq : (check_order now later o px r).0.limits ≡ r.limits
      pub positions_eq : (check_order now later o px r).0.positions ≡ r.positions
      pub prices_eq : (check_order now later o px r).0.market_prices ≡ r.market_prices

    -- A check is counted, a rejection is counted, and the limits, the positions and the prices stay.
    pub check_order-Bookkeeping : Bookkeeping
    unfolding check_order
    check_order-Bookkeeping = record {
      checked = ground arith;
      rejected = ground arith;
      limits_eq = ground arith;
      positions_eq = ground arith;
      prices_eq = ground arith;
    }
