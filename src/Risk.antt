-- ===== src/Risk.antt =====
-- src/risk/risk_manager.hpp and src/risk/risk_manager.cpp: the checks before an order is accepted, and
-- the positions that fills build up. Every method holds the mutex for its whole body, so each is one
-- step. The two readings of the clock in `check_order` are arguments: `now` of the rate check, and
-- `later` of the time stamp that an approved order leaves.
pub mod Checks
pub mod Sides
pub mod Positions
pub mod Window
mod Examples
use Prim.Native.String.{◌++◌ as concat}
use orderflow_replay_engine.Prelude.{
  ℕ, suc, Bool, true, false, ◌&&◌, ◌||◌, not, List, [], ◌∷◌, ◌++◌, Option, none, some, String, ℤ,
  pos, negsuc, ◌+ℤ◌, ◌-ℤ◌, ltb_ℤ, leb_ℤ, eqb_ℤ, min_ℤ, neg_ℤ, abs_ℤ, if◌then◌else◌, length, lookup,
  insert,
}
use orderflow_replay_engine.Double.{Double, from_price, nought}
use orderflow_replay_engine.Types.{
  Price, Quantity, Timestamp, Side, buy, sell, OrderType, limit, market, ioc, fok, Order,
  RiskLimits, Position,
}

pub data RiskRejectReason : Type 0 where
  accepted max_order_qty max_position max_notional max_order_rate invalid_price invalid_qty :
      RiskRejectReason
  symbol_not_allowed : RiskRejectReason

pub record RiskResult : Type 0 where
  pub approved : Bool
  pub reason : RiskRejectReason
  pub message : String

-- The head of `order_timestamps_ns` is the front of the deque.
pub record RiskManager {ℓ} (W : Type ℓ) : Type ℓ where
  pub limits : RiskLimits W
  pub positions : List (String × Position W)
  pub market_prices : List (String × W)
  pub order_timestamps_ns : List Timestamp
  pub stats_checked : ℕ
  pub stats_rejected : ℕ

abbrev pub second_ns : ℤ
second_ns = pos 1_000_000_000

-- The loop of `orders_in_last_second`: what it leaves of the deque.
unfoldable pub drop_before : Timestamp → List Timestamp → List Timestamp
drop_before cutoff [] = []
drop_before cutoff (t ∷ ts) = if ltb_ℤ t cutoff then drop_before cutoff ts else t ∷ ts

unfoldable pub is_limit : OrderType → Bool
is_limit limit = true
is_limit market = false
is_limit ioc = false
is_limit fok = false

-- `order.side == Side::BUY ? qty : -qty`
unfoldable pub signed_qty : Side → Quantity → Quantity
signed_qty buy q = q
signed_qty sell q = neg_ℤ q

abbrev says : String → String → String → String → String
says a b c e = concat a (concat b (concat c e))

-- `adding` of `on_fill`
unfoldable pub is_adding : Side → Quantity → Bool
is_adding buy net = eqb_ℤ net (pos 0) || ltb_ℤ (pos 0) net
is_adding sell net = eqb_ℤ net (pos 0) || ltb_ℤ net (pos 0)

module _ {ℓ} {W : Type ℓ} ⦃d : Double W⦄ where
  unfoldable pub new_risk_manager : RiskLimits W → RiskManager W
  new_risk_manager limits = record {
    limits = limits;
    positions = [];
    market_prices = [];
    order_timestamps_ns = [];
    stats_checked = 0;
    stats_rejected = 0;
  }

  unfoldable pub empty_position : String → Position W
  empty_position symbol = record {
    symbol = symbol;
    net_qty = pos 0;
    avg_price = nought;
    realized_pnl = nought;
    unrealized_pnl = nought;
  }

  -- `get_position`
  unfoldable pub get_position : RiskManager W → String → Position W
  get_position r symbol = elim (lookup symbol r.positions) [
    | none ↦ empty_position symbol
    | some p ↦ p
  ]

  -- `price_usd * order.qty` with the price that the check takes
  unfoldable pub order_notional : Order → W → W
  order_notional o current_price =
      d.mul (if d.lt nought current_price then current_price else from_price o.price)
        (d.of_int o.qty)

  -- The position if the order is filled whole.
  unfoldable pub projected : RiskManager W → Order → Quantity
  projected r o = (get_position r o.symbol).net_qty +ℤ signed_qty o.side o.qty

  abbrev approve : RiskManager W → RiskManager W × RiskResult
  approve r = (r, record { approved = true; reason = accepted; message = "OK" })

  abbrev reject : RiskRejectReason → String → RiskManager W → RiskManager W × RiskResult
  reject reason message r = (
    record r { stats_rejected = suc r.stats_rejected },
    record { approved = false; reason = reason; message = message },
  )

  abbrev stamped : Timestamp → RiskManager W → RiskManager W
  stamped t r = record r { order_timestamps_ns = r.order_timestamps_ns ++ t ∷ [] }

  unfoldable pub check_order :
      Timestamp → Timestamp → Order → W → RiskManager W → RiskManager W × RiskResult
  check_order now later o current_price r₀ =
      let r = record r₀ { stats_checked = suc r₀.stats_checked } in
      let l = r₀.limits in
      let net = order_notional o current_price in
      let after = projected r₀ o in
      let in_window = drop_before (now -ℤ second_ns) r₀.order_timestamps_ns in
      let rate = pos (length in_window) in
      let r' = record r { order_timestamps_ns = in_window } in
      if not l.enabled
      then approve (stamped later r)
      else if leb_ℤ o.qty (pos 0)
      then reject invalid_qty "Quantity must be positive" r
      else if is_limit o.type && leb_ℤ o.price (pos 0)
      then reject invalid_price "Limit price must be positive" r
      else if ltb_ℤ l.max_order_qty o.qty
      then reject max_order_qty
          (says "Order qty " (d.int_to_string o.qty) " > limit " (d.int_to_string l.max_order_qty))
          r
      else if d.lt l.max_notional_usd net
      then reject max_notional
          (says "Notional $" (d.to_string net) " > limit $" (d.to_string l.max_notional_usd)) r
      else if ltb_ℤ l.max_position (abs_ℤ after)
      then reject max_position
          (says "Projected position " (d.int_to_string after) " > limit "
            (d.int_to_string l.max_position))
          r
      else if leb_ℤ l.max_orders_per_sec rate
      then reject max_order_rate
          (says "Order rate " (d.int_to_string rate) "/s >= limit "
            (d.int_to_string l.max_orders_per_sec))
          r'
      else approve (stamped later r')

  -- `on_fill`, first the branch that adds to a position, then the one that reduces or flips it.
  unfoldable pub add_fill : Side → Quantity → W → Position W → Position W
  unfolding signed_qty
  add_fill side qty fill_price p =
      let total_cost =
        d.add (d.mul p.avg_price (d.abs (d.of_int p.net_qty))) (d.mul fill_price (d.of_int qty)) in
      let net = p.net_qty +ℤ signed_qty side qty in
      record p {
        net_qty = net;
        avg_price = if eqb_ℤ net (pos 0) then nought else d.div total_cost (d.abs (d.of_int net));
      }

  unfoldable pub close_fill : Side → Quantity → W → Position W → Position W
  unfolding signed_qty
  close_fill side qty fill_price p =
      let closing = min_ℤ qty (abs_ℤ p.net_qty) in
      let opening = qty -ℤ closing in
      let realized =
        d.mul (d.mul (d.sub fill_price p.avg_price) (d.of_int closing))
          (if ltb_ℤ (pos 0) p.net_qty then d.lit (pos 1) 1 else d.lit (negsuc 0) 1) in
      let net = p.net_qty +ℤ signed_qty side qty in
      record p {
        realized_pnl = d.add p.realized_pnl realized;
        net_qty = net;
        avg_price =
            if eqb_ℤ net (pos 0)
            then nought
            else if ltb_ℤ (pos 0) opening
            then fill_price
            else p.avg_price;
      }

  -- `(px - pos.avg_price) * pos.net_qty`, or 0 for a flat position
  unfoldable pub mark : W → Position W → Position W
  mark px p = record p {
    unrealized_pnl =
        if eqb_ℤ p.net_qty (pos 0)
        then nought
        else d.mul (d.sub px p.avg_price) (d.of_int p.net_qty);
  }

  unfoldable pub fill_position : Side → Quantity → W → Position W → Position W
  unfolding is_adding add_fill close_fill
  fill_position side qty fill_price p =
      if is_adding side p.net_qty
      then add_fill side qty fill_price p
      else close_fill side qty fill_price p

  abbrev price_or : Option W → W → W
  price_or none px = px
  price_or (some m) px = m

  unfoldable pub on_fill : String → Side → Quantity → W → RiskManager W → RiskManager W
  unfolding fill_position mark get_position
  on_fill symbol side qty fill_price r =
      let p = record (get_position r symbol) { symbol = symbol } in
      let filled_p = fill_position side qty fill_price p in
      record r {
        positions =
            insert symbol (mark (price_or (lookup symbol r.market_prices) fill_price) filled_p)
              r.positions;
      }

  unfoldable pub update_market_price : String → W → RiskManager W → RiskManager W
  unfolding mark
  update_market_price symbol px r = record r {
    market_prices = insert symbol px r.market_prices;
    positions = elim (lookup symbol r.positions) [
      | none ↦ r.positions
      | some p ↦ insert symbol (mark px p) r.positions
    ];
  }

  unfoldable pub set_limits : RiskLimits W → RiskManager W → RiskManager W
  set_limits l r = record r { limits = l }

  -- `on_cancel` has an empty body.
  unfoldable pub on_cancel : String → Order → RiskManager W → RiskManager W
  on_cancel symbol o r = r

  abbrev add_pnl : W → List (String × Position W) → W
  add_pnl total [] = total
  add_pnl total ((s, p) ∷ ps) = add_pnl (d.add total (d.add p.realized_pnl p.unrealized_pnl)) ps

  unfoldable pub total_pnl : RiskManager W → W
  total_pnl r = add_pnl nought r.positions
