-- ===== src/Simulator/Examples.antt =====
-- Runs of src/core/simulator.cpp on a simulator with one symbol, and the theorems at them.
use orderflow_replay_engine.Prelude.{
  ◌≡◌, refl, true, [], ◌∷◌, some, ℤ, pos, lookup, insert, AllValues, arith, ◌-ℤ◌, ◌+ℤ◌, ◌*ℤ◌, abs_ℤ,
  min_ℤ, pos_part, neg_part,
}
use orderflow_replay_engine.Double.{Double, ticks_double, from_price}
use orderflow_replay_engine.Types.{Side, limit, Order, OrderStatus, RiskLimits, is_done_status}
use orderflow_replay_engine.OrderBook.Levels.Ids.{seek, count_id}
use orderflow_replay_engine.OrderBook.Levels.{find_handle, before}
use orderflow_replay_engine.OrderBook.Matching.Fills.{sum_qty}
use orderflow_replay_engine.OrderBook.Book.Valid.{IsBook}
use orderflow_replay_engine.Risk.Sides.{net_after}
use orderflow_replay_engine.Simulator.Positions.{submit_order-net}
use orderflow_replay_engine.OrderBook.Book.{Book, new_book, add_order}
use orderflow_replay_engine.OrderBook.Matching.{try_match, is_priced, is_worse, fill, trade_of}
use orderflow_replay_engine.OrderBook.Book.Add.{IsFresh}
use orderflow_replay_engine.Risk.{
  new_risk_manager, get_position, check_order, is_limit, order_notional, projected, empty_position,
  signed_qty, drop_before,
}
use orderflow_replay_engine.Simulator.{
  ExchangeSimulator, new_simulator, add_symbol, SubmitTimes, submit_order,
}
use orderflow_replay_engine.Simulator.Valid.{AreSound, add_symbol-AreSound, submit_order-AreSound}

instance abbrev ticks : Double ℤ
ticks = ticks_double

abbrev wide_limits : RiskLimits ℤ
wide_limits = record {
  max_order_qty = pos 1000;
  max_position = pos 1000;
  max_notional_usd = pos 1_000_000_000;
  max_orders_per_sec = pos 10;
  enabled = true;
}

abbrev one_symbol : ExchangeSimulator ℤ
one_symbol = add_symbol "AAPL" (new_simulator wide_limits)

abbrev some_times : SubmitTimes
some_times = record {
  start = pos 1;
  rate_check = pos 2;
  approval = pos 3;
  stamp = pos 4;
  trade = λ n. pos 5;
  finish = pos 6;
}

abbrev first_bid : Order
first_bid = record {
  id = 1001;
  symbol = "AAPL";
  side = Side.buy;
  type = limit;
  price = pos 1000;
  qty = pos 30;
  filled_qty = pos 0;
  status = OrderStatus.pending;
  timestamp = pos 0;
  client_id = "";
}

one_symbol-AreSound : AreSound one_symbol
unfolding new_simulator AllValues
one_symbol-AreSound = add_symbol-AreSound "AAPL" (new_simulator wide_limits) tt

one_symbol-IsFresh : AllValues (IsFresh first_bid) one_symbol.books
unfolding new_simulator add_symbol lookup insert AllValues new_book count_id
one_symbol-IsFresh = (refl, tt)

submit_order-AreSound_example : AreSound (submit_order some_times first_bid (pos 0) one_symbol).0
unfolding new_simulator add_symbol new_risk_manager lookup
submit_order-AreSound_example =
    submit_order-AreSound some_times first_bid (pos 0) one_symbol refl refl one_symbol-IsFresh
      one_symbol-AreSound

-- A book in which the bid rests.
abbrev one_bid : Book
one_bid = record {
  symbol = "AAPL";
  next_trade_id = 1;
  bids = record { price = pos 1000; orders = first_bid ∷ []; total_qty = pos 30 } ∷ [];
  asks = [];
  orders = record { id = 1001; side = Side.buy; price = pos 1000 } ∷ [];
}

abbrev one_resting : ExchangeSimulator ℤ
one_resting = record one_symbol { books = ("AAPL", one_bid) ∷ [] }

abbrev first_offer : Order
first_offer = record first_bid { id = 1002; side = Side.sell; qty = pos 20 }

one_bid-IsBook : IsBook one_bid
unfolding is_done_status before seek count_id find_handle ◌-ℤ◌ ◌+ℤ◌ pos_part neg_part
one_bid-IsBook = record {
  bids = ground arith;
  asks = ground arith;
  unique = λ j. ground arith;
  agrees = λ j. ground arith;
}

offer-IsFresh : IsFresh first_offer one_bid
unfolding count_id
offer-IsFresh = refl

finds_one_bid : lookup "AAPL" one_resting.books ≡ some one_bid
unfolding lookup
finds_one_bid = refl

checks_on : one_resting.risk.limits.enabled ≡ true
unfolding new_simulator add_symbol new_risk_manager lookup
checks_on = refl

submit_order-net_example :
    (get_position (submit_order some_times first_offer (pos 0) one_resting).0.risk "AAPL").net_qty
    ≡ net_after Side.sell
        (get_position one_resting.risk "AAPL").net_qty
        (sum_qty (submit_order some_times first_offer (pos 0) one_resting).1.trades)
submit_order-net_example =
    submit_order-net some_times first_offer (pos 0) one_resting one_bid checks_on finds_one_bid refl
      one_bid-IsBook offer-IsFresh refl

-- The offer trades all of its quantity with the bid.
offer_trades : sum_qty (submit_order some_times first_offer (pos 0) one_resting).1.trades ≡ pos 20
unfolding submit_order check_order add_symbol lookup new_simulator new_risk_manager is_limit
    order_notional from_price abs_ℤ projected get_position empty_position signed_qty drop_before
    add_order try_match is_priced is_worse is_done_status fill trade_of min_ℤ ◌-ℤ◌ ◌+ℤ◌ ◌*ℤ◌
    pos_part neg_part
offer_trades = refl
