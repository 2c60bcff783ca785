-- ===== src/Types.antt =====
-- src/core/types.hpp: orders, trades, ticks, book snapshots and the limits of risk. Prices and
-- quantities are integers, the ids of orders and trades are numbers.
use orderflow_replay_engine.Prelude.{
  ℕ, suc, Bool, true, false, ◌||◌, List, [], ◌∷◌, String, ℤ, pos, negsuc, ◌+ℤ◌, ◌-ℤ◌, ltb_ℤ,
  if◌then◌else◌, ◌/◌, is_empty,
}
use orderflow_replay_engine.Double.{Double, from_price, nought}

abbrev pub Price : Type 0
Price = ℤ

abbrev pub Quantity : Type 0
Quantity = ℤ

abbrev pub OrderId : Type 0
OrderId = ℕ

abbrev pub Timestamp : Type 0
Timestamp = ℤ

pub data Side : Type 0 where
  buy sell : Side

pub data OrderType : Type 0 where
  limit market ioc fok : OrderType

pub data OrderStatus : Type 0 where
  pending new partially_filled filled cancelled rejected expired : OrderStatus

pub record Order : Type 0 where
  pub id : OrderId
  pub symbol : String
  pub side : Side
  pub type : OrderType
  pub price : Price
  pub qty : Quantity
  pub filled_qty : Quantity
  pub status : OrderStatus
  pub timestamp : Timestamp
  pub client_id : String

-- `Order::remaining`
abbrev pub remaining : Order → Quantity
remaining o = o.qty -ℤ o.filled_qty

unfoldable pub is_done_status : OrderStatus → Bool
is_done_status OrderStatus.filled = true
is_done_status OrderStatus.cancelled = true
is_done_status OrderStatus.rejected = true
is_done_status OrderStatus.expired = true
is_done_status OrderStatus.pending = false
is_done_status OrderStatus.new = false
is_done_status OrderStatus.partially_filled = false

-- `Order::is_done`
abbrev pub is_done : Order → Bool
is_done o = is_done_status o.status

pub record Trade : Type 0 where
  pub trade_id : ℕ
  pub buy_order_id : OrderId
  pub sell_order_id : OrderId
  pub symbol : String
  pub price : Price
  pub qty : Quantity
  pub timestamp : Timestamp

pub record MarketDataTick : Type 0 where
  pub timestamp : Timestamp
  pub symbol : String
  pub bid_price : Price
  pub bid_qty : Quantity
  pub ask_price : Price
  pub ask_qty : Quantity
  pub last_price : Price
  pub last_qty : Quantity

pub record L2Level : Type 0 where
  pub price : Price
  pub qty : Quantity
  pub order_count : ℕ

pub record OrderBookSnapshot : Type 0 where
  pub symbol : String
  pub timestamp : Timestamp
  pub bids : List L2Level
  pub asks : List L2Level

abbrev front_price : List L2Level → Price
front_price [] = pos 0
front_price (l ∷ ls) = l.price

-- Division of an `int64_t` by 2, which rounds towards zero.
unfoldable pub halve : ℤ → ℤ
halve (pos n) = pos (n / 2)
halve (negsuc n) = pos 0 -ℤ pos (suc n / 2)

-- `OrderBookSnapshot::best_bid`, `best_ask`, `mid` and `spread`
unfoldable pub snapshot_best_bid : OrderBookSnapshot → Price
snapshot_best_bid s = front_price s.bids

unfoldable pub snapshot_best_ask : OrderBookSnapshot → Price
snapshot_best_ask s = front_price s.asks

unfoldable pub snapshot_mid : OrderBookSnapshot → Price
unfolding snapshot_best_bid snapshot_best_ask halve
snapshot_mid s =
    if is_empty s.bids || is_empty s.asks
    then pos 0
    else halve (snapshot_best_bid s +ℤ snapshot_best_ask s)

unfoldable pub snapshot_spread {ℓ} : {W : Type ℓ} ⦃d : Double W⦄ → OrderBookSnapshot → W
unfolding snapshot_best_bid snapshot_best_ask
snapshot_spread s =
    if is_empty s.bids || is_empty s.asks
    then nought
    else let gap = snapshot_best_ask s -ℤ snapshot_best_bid s in
      if ltb_ℤ (pos 0) gap then from_price gap else nought

pub record RiskLimits {ℓ} (W : Type ℓ) : Type ℓ where
  pub max_order_qty : Quantity
  pub max_position : Quantity
  pub max_notional_usd : W
  pub max_orders_per_sec : ℤ
  pub enabled : Bool

pub record Position {ℓ} (W : Type ℓ) : Type ℓ where
  pub symbol : String
  pub net_qty : Quantity
  pub avg_price : W
  pub realized_pnl : W
  pub unrealized_pnl : W

unfoldable pub notional {ℓ} : {W : Type ℓ} ⦃d : Double W⦄ → Position W → W
notional ⦃d⦄ p = d.abs (d.mul (d.of_int p.net_qty) p.avg_price)
