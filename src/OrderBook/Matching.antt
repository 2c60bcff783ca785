-- ===== src/OrderBook/Matching.antt =====
-- src/core/order_book.cpp, `make_trade` and `try_match`. The two loops over `asks_` and `bids_` are
-- one function over the levels of the side opposite to the incoming order, best first.
-- `now n` is the reading of `now_ns()` when trade `n` is made.
pub mod Steps
pub mod Fills
pub mod Sweep
pub mod Index
pub mod Prices
pub mod FillOrKill
pub mod Priority
pub mod Queue
pub mod Parties
use orderflow_replay_engine.Prelude.{
  ℕ, suc, Bool, true, false, ◌&&◌, not, List, [], ◌∷◌, ◌++◌, String, ◌+ℤ◌, ◌-ℤ◌, ltb_ℤ, leb_ℤ,
  eqb_ℤ, pos, if◌then◌else◌, is_empty, min_ℤ,
}
use orderflow_replay_engine.Types.{
  Price, Quantity, OrderId, Timestamp, Side, buy, sell, OrderType, limit, market, ioc, fok, Order,
  OrderStatus, remaining, is_done, is_done_status, Trade,
}
use orderflow_replay_engine.OrderBook.Levels.{
  PriceLevel, Handle, erase_handle, Event, traded, notified,
}

-- What `make_trade` does to each of its orders.
unfoldable pub fill : Order → Quantity → Order
fill o q =
    let filled_qty = o.filled_qty +ℤ q in
    record o {
      filled_qty = filled_qty;
      status =
          if eqb_ℤ (o.qty -ℤ filled_qty) (pos 0)
          then OrderStatus.filled
          else OrderStatus.partially_filled;
    }

pub record Made : Type 0 where
  pub trade : Trade
  pub incoming : Order
  pub resting : Order

pub record Cursor : Type 0 where
  pub incoming : Order
  pub next_trade_id : ℕ
  pub orders : List Handle

pub record Filled : Type 0 where
  pub cursor : Cursor
  pub queue : List Order
  pub total_qty : Quantity
  pub trades : List Trade
  pub events : List Event

pub record Swept : Type 0 where
  pub cursor : Cursor
  pub levels : List PriceLevel
  pub trades : List Trade
  pub events : List Event

-- `px > incoming.price` against the asks, `px < incoming.price` against the bids
unfoldable pub is_worse : Side → Price → Price → Bool
is_worse buy own px = ltb_ℤ own px
is_worse sell own px = ltb_ℤ px own

-- The price test of the matching loops is made for these types only.
unfoldable pub is_priced : OrderType → Bool
is_priced limit = true
is_priced market = false
is_priced ioc = true
is_priced fok = false

unfoldable pub is_market : OrderType → Bool
is_market limit = false
is_market market = true
is_market ioc = false
is_market fok = false

-- The count of `fok_check`, from `available`.
unfoldable pub available_qty : Order → Quantity → List PriceLevel → Quantity
available_qty o available [] = available
available_qty o available (l ∷ ls) =
    let more = available_qty o (available +ℤ l.total_qty) ls in
    if not (is_market o.type) && is_worse o.side o.price l.price
    then available
    else if leb_ℤ o.qty (available +ℤ l.total_qty)
    then available +ℤ l.total_qty
    else more

module _ (now : ℕ → Timestamp) (symbol : String) where
  unfoldable pub make_trade : ℕ → Order → Order → Price → Quantity → Trade
  make_trade next_trade_id buyer seller px qty = record {
    trade_id = next_trade_id;
    buy_order_id = buyer.id;
    sell_order_id = seller.id;
    symbol = symbol;
    price = px;
    qty = qty;
    timestamp = now next_trade_id;
  }

  -- `make_trade(incoming, *resting, …)` of the loop over the asks, `make_trade(*resting, incoming, …)`
  -- of the loop over the bids.
  unfoldable pub trade_of : ℕ → Order → Order → Quantity → Trade
  unfolding make_trade
  trade_of n incoming resting q = elim incoming.side [
    | buy ↦ make_trade n incoming resting resting.price q
    | sell ↦ make_trade n resting incoming resting.price q
  ]

  unfoldable pub trade_with : ℕ → Order → Order → Quantity → Made
  trade_with n incoming resting q = record {
    trade = trade_of n incoming resting q;
    incoming = fill incoming q;
    resting = fill resting q;
  }

  -- `while (!level.orders.empty() && incoming.remaining() > 0)`. A front order that is not done has
  -- taken all that the incoming order had left, so the loop ends there
  -- (`IsLive` orders; Matching/Fills.antt).
  unfoldable pub fill_level : Cursor → Quantity → List Order → Filled
  unfolding trade_with
  fill_level c total [] = record {
    cursor = c;
    queue = [];
    total_qty = total;
    trades = [];
    events = [];
  }
  fill_level c total (r ∷ rs) =
      let q = min_ℤ (remaining c.incoming) (remaining r) in
      let m = trade_with c.next_trade_id c.incoming r q in
      let told : List Event = traded m.trade ∷ notified m.resting ∷ notified m.incoming ∷ [] in
      let popped =
        fill_level
          (record {
            incoming = m.incoming;
            next_trade_id = suc c.next_trade_id;
            orders = erase_handle r.id c.orders;
          })
          (total -ℤ q) rs in
      if ltb_ℤ (pos 0) (remaining c.incoming)
      then if is_done m.resting
        then record popped { trades = m.trade ∷ popped.trades; events = told ++ popped.events }
        else record {
          cursor = record c { incoming = m.incoming; next_trade_id = suc c.next_trade_id };
          queue = m.resting ∷ rs;
          total_qty = total -ℤ q;
          trades = m.trade ∷ [];
          events = told;
        }
      else record { cursor = c; queue = r ∷ rs; total_qty = total; trades = []; events = [] }

  -- The loop over the levels. After a level that is left with orders, the loop over the asks goes
  -- on to the next one and tests `incoming.remaining()` again; the loop over the bids ends.
  unfoldable pub sweep : Cursor → List PriceLevel → Swept
  unfolding fill_level
  sweep c [] = record { cursor = c; levels = []; trades = []; events = [] }
  sweep c (l ∷ ls) =
      let f = fill_level c l.total_qty l.orders in
      let rest = sweep f.cursor ls in
      let left : PriceLevel = record l { orders = f.queue; total_qty = f.total_qty } in
      if ltb_ℤ (pos 0) (remaining c.incoming)
      then if is_priced c.incoming.type && is_worse c.incoming.side c.incoming.price l.price
        then record { cursor = c; levels = l ∷ ls; trades = []; events = [] }
        else if is_empty f.queue
        then record rest { trades = f.trades ++ rest.trades; events = f.events ++ rest.events }
        else elim c.incoming.side [
          | buy ↦ record rest {
            levels = left ∷ rest.levels;
            trades = f.trades ++ rest.trades;
            events = f.events ++ rest.events;
          }
          | sell ↦ record {
            cursor = f.cursor;
            levels = left ∷ ls;
            trades = f.trades;
            events = f.events;
          }
        ]
      else record { cursor = c; levels = l ∷ ls; trades = []; events = [] }

  unfoldable pub try_match : Bool → Cursor → List PriceLevel → Swept
  unfolding sweep available_qty
  try_match false c levels = sweep c levels
  try_match true c levels =
      let o = record (c.incoming) { status = OrderStatus.expired } in
      if ltb_ℤ (available_qty c.incoming (pos 0) levels) c.incoming.qty
      then record {
        cursor = record c { incoming = o };
        levels = levels;
        trades = [];
        events = notified o ∷ [];
      }
      else sweep c levels
