-- ===== src/Risk/Examples.antt =====
-- Runs of src/risk/risk_manager.cpp on small states, and the theorems at them. A `double` is a number
-- of ten-thousandths.
use orderflow_replay_engine.Prelude.{
  ◌≡◌, refl, true, [], ◌∷◌, ℤ, pos, pos_part, neg_part, ◌<ℤ◌, arith, length, lookup,
}
use orderflow_replay_engine.Double.{Double, ticks_double}
use orderflow_replay_engine.Types.{
  Timestamp, buy, sell, limit, Order, OrderStatus, RiskLimits, Position,
}
use orderflow_replay_engine.Risk.{
  RiskManager, check_order, on_fill, get_position, drop_before, price_or,
}
use orderflow_replay_engine.Risk.Checks.{Bookkeeping, check_order-Bookkeeping}
use orderflow_replay_engine.Risk.Positions.{IsFilledPosition, on_fill-IsFilledPosition}
use orderflow_replay_engine.Risk.Window.{
  IsAscending, count_since, length-drop_before, IsRateBounded, check_order-IsRateBounded,
}

instance abbrev ticks : Double ℤ
ticks = ticks_double

abbrev small_limits : RiskLimits ℤ
small_limits = record {
  max_order_qty = pos 50;
  max_position = pos 100;
  max_notional_usd = pos 100_000_000;
  max_orders_per_sec = pos 2;
  enabled = true;
}

abbrev long_position : Position ℤ
long_position = record {
  symbol = "AAPL";
  net_qty = pos 60;
  avg_price = pos 1000;
  realized_pnl = pos 0;
  unrealized_pnl = pos 0;
}

abbrev small_manager : RiskManager ℤ
small_manager = record {
  limits = small_limits;
  positions = ("AAPL", long_position) ∷ [];
  market_prices = ("AAPL", pos 1100) ∷ [];
  order_timestamps_ns = pos 5 ∷ pos 7 ∷ [];
  stats_checked = 2;
  stats_rejected = 0;
}

abbrev bid_30 : Order
bid_30 = record {
  id = 1;
  symbol = "AAPL";
  side = buy;
  type = limit;
  price = pos 1000;
  qty = pos 30;
  filled_qty = pos 0;
  status = OrderStatus.pending;
  timestamp = pos 0;
  client_id = "";
}

-- One of the two stamps is older than a second.
abbrev now_6 : Timestamp
now_6 = pos 1_000_000_006

check_order-Bookkeeping_example : Bookkeeping now_6 now_6 bid_30 (pos 1100) small_manager
check_order-Bookkeeping_example =
    check_order-Bookkeeping now_6 now_6 bid_30 (pos 1100) small_manager

some_sold : pos 0 <ℤ pos 80
unfolding pos_part neg_part
some_sold = omega arith

-- A sale of 80 flips the position.
on_fill-IsFilledPosition_example :
    IsFilledPosition sell
      (pos 80)
      (pos 1200)
      (price_or (lookup "AAPL" small_manager.market_prices) (pos 1200))
      (get_position small_manager "AAPL")
      (get_position (on_fill "AAPL" sell (pos 80) (pos 1200) small_manager) "AAPL")
on_fill-IsFilledPosition_example =
    on_fill-IsFilledPosition "AAPL" sell (pos 80) (pos 1200) small_manager some_sold

ascending : IsAscending (pos 5 ∷ pos 7 ∷ [])
unfolding IsAscending pos_part neg_part
ascending = ground arith

length-drop_before_example :
    length (drop_before (pos 6) (pos 5 ∷ pos 7 ∷ [])) ≡ count_since (pos 6) (pos 5 ∷ pos 7 ∷ [])
length-drop_before_example = length-drop_before (pos 6) (pos 5 ∷ pos 7 ∷ []) ascending

within : IsRateBounded small_manager
unfolding pos_part neg_part
within = omega arith

check_order-IsRateBounded_example :
    IsRateBounded (check_order now_6 now_6 bid_30 (pos 1100) small_manager).0
check_order-IsRateBounded_example =
    check_order-IsRateBounded now_6 now_6 bid_30 (pos 1100) small_manager refl within
