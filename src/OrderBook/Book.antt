-- ===== src/OrderBook/Book.antt =====
-- src/core/order_book.cpp, the public operations of `class OrderBook`. The two callbacks are the
-- list of events that an operation returns; `now` is the clock of `make_trade`.
pub mod Valid
pub mod Match
pub mod Add
pub mod Uncrossed
pub mod Quantities
pub mod Trades
pub mod Acceptable
pub mod FillOrKill
pub mod Cancel
pub mod Removed
pub mod Modify
pub mod Crossing
pub mod Ids
pub mod Withdrawn
pub mod Parties
use orderflow_replay_engine.Prelude.{
  ℕ, Bool, true, false, ◌&&◌, not, List, [], ◌∷◌, ◌++◌, String, Option, none, some, ltb_ℤ, leb_ℤ,
  pos, if◌then◌else◌, take, length, map,
}
use orderflow_replay_engine.Types.{
  Price, Quantity, OrderId, Timestamp, Side, buy, sell, OrderType, limit, market, ioc, fok, Order,
  OrderStatus, remaining, is_done, is_done_status, Trade, L2Level, OrderBookSnapshot,
}
use orderflow_replay_engine.OrderBook.Levels.{
  PriceLevel, Handle, find_handle, erase_handle, insert_handle, insert_order, find_level, find_id,
  remove_order, Event, traded, notified,
}
use orderflow_replay_engine.OrderBook.Matching.{Cursor, Swept, try_match}

pub record Book : Type 0 where
  pub symbol : String
  pub next_trade_id : ℕ
  pub bids : List PriceLevel
  pub asks : List PriceLevel
  pub orders : List Handle

unfoldable pub new_book : String → Book
new_book symbol = record { symbol = symbol; next_trade_id = 1; bids = []; asks = []; orders = [] }

-- What an operation leaves: the book, the order passed in, the trades and the calls of callbacks.
pub record Outcome : Type 0 where
  pub book : Book
  pub order : Order
  pub trades : List Trade
  pub events : List Event

-- `(order.side == Side::BUY) ? bids_ : asks_`
abbrev pub own_levels : Side → Book → List PriceLevel
own_levels buy b = b.bids
own_levels sell b = b.asks

abbrev pub set_own_levels : Side → List PriceLevel → Book → Book
set_own_levels buy ls b = record b { bids = ls }
set_own_levels sell ls b = record b { asks = ls }

abbrev pub opposite : Side → Side
opposite buy = sell
opposite sell = buy

unfoldable pub add_to_book : Order → Book → Book
add_to_book o b =
    let b' = set_own_levels o.side (insert_order o.side o (own_levels o.side b)) b in
    record b' {
      orders = insert_handle (record { id = o.id; side = o.side; price = o.price }) b.orders;
    }

unfoldable pub remove_from_book : Handle → Book → Book
remove_from_book h b = elim (find_level h.price (own_levels h.side b)) [
  | none ↦ b
  | some l ↦
      let b' = set_own_levels h.side (remove_order h.price h.id (own_levels h.side b)) b in
      record b' { orders = erase_handle h.id b.orders }
]

-- The order that an entry of `orders_` points to.
unfoldable pub deref : Handle → Book → Option Order
deref h b = elim (find_level h.price (own_levels h.side b)) [
  | none ↦ none
  | some l ↦ find_id h.id l.orders
]

unfoldable pub find_order : OrderId → Book → Option Order
unfolding deref
find_order id b = elim (find_handle id b.orders) [ none ↦ none | some h ↦ deref h b ]

-- `try_match` on the book: the levels of the other side, the index and the trade counter change.
unfoldable pub match_order : (ℕ → Timestamp) → Bool → Order → Book → Outcome
match_order now fok_check o b =
    let s =
      try_match now b.symbol fok_check
        (record { incoming = o; next_trade_id = b.next_trade_id; orders = b.orders })
        (own_levels (opposite o.side) b) in
    let b' = set_own_levels (opposite o.side) s.levels b in
    record {
      book = record b' { next_trade_id = s.cursor.next_trade_id; orders = s.cursor.orders };
      order = s.cursor.incoming;
      trades = s.trades;
      events = s.events;
    }

-- The order ends with a status, and `notify_order` is called.
unfoldable pub end_order : OrderStatus → Outcome → Outcome
end_order status r =
    let o : Order = record (r.order) { status = status } in
    record r { order = o; events = r.events ++ notified o ∷ [] }

unfoldable pub settle : OrderType → Outcome → Outcome
unfolding end_order add_to_book
settle limit r = if is_done r.order then r else record r { book = add_to_book r.order r.book }
settle market r = if ltb_ℤ (pos 0) (remaining r.order) then end_order OrderStatus.cancelled r else r
settle ioc r =
    if ltb_ℤ (pos 0) (remaining r.order) && not (is_done r.order)
    then end_order OrderStatus.expired r
    else r
settle fok r = r

abbrev pub is_fok : OrderType → Bool
is_fok limit = false
is_fok market = false
is_fok ioc = false
is_fok fok = true

unfoldable pub add_order : (ℕ → Timestamp) → Order → Book → Outcome
unfolding match_order settle
add_order now order b =
    let o : Order = record order { status = OrderStatus.new } in
    let r = settle o.type (match_order now (is_fok o.type) o b) in
    record r { events = notified o ∷ r.events }

-- `cancel_order` and `modify_order` with the events and the result of each.
unfoldable pub cancel_order : OrderId → Book → Book × List Event × Bool
unfolding deref remove_from_book
cancel_order id b = elim (find_handle id b.orders) [
  | none ↦ (b, [], false)
  | some h ↦ elim (deref h b) [
    | none ↦ (b, [], false)
    | some o ↦
        (remove_from_book h b, notified (record o { status = OrderStatus.cancelled }) ∷ [], true)
  ]
]

unfoldable pub modify_order : OrderId → Price → Quantity → Book → Book × Bool
unfolding deref remove_from_book add_to_book
modify_order id new_price new_qty b = elim (find_handle id b.orders) [
  | none ↦ (b, false)
  | some h ↦ elim (deref h b) [
    | none ↦ (b, false)
    | some o ↦ if leb_ℤ new_qty o.filled_qty then (b, false) else (
      add_to_book (record o { price = new_price; qty = new_qty }) (remove_from_book h b),
      true,
    )
  ]
]

abbrev l2_level : PriceLevel → L2Level
l2_level l = record { price = l.price; qty = l.total_qty; order_count = length l.orders }

-- `now` is the reading of `now_ns()`; a depth that is negative counts as 0.
unfoldable pub snapshot : Timestamp → ℕ → Book → OrderBookSnapshot
snapshot now depth b = record {
  symbol = b.symbol;
  timestamp = now;
  bids = map l2_level (take depth b.bids);
  asks = map l2_level (take depth b.asks);
}

abbrev best_of : List PriceLevel → Price
best_of [] = pos 0
best_of (l ∷ ls) = l.price

unfoldable pub best_bid : Book → Price
best_bid b = best_of b.bids

unfoldable pub best_ask : Book → Price
best_ask b = best_of b.asks

unfoldable pub order_count : Book → ℕ
order_count b = length b.orders
