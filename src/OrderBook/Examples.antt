-- ===== src/OrderBook/Examples.antt =====
-- Runs of the order book of src/core/order_book.cpp on one small book, and the theorems at it.
use orderflow_replay_engine.Prelude.{
  ℕ, ◌≡◌, refl, ◌⊎◌, false, [], ◌∷◌, map, some, none, pos, ◌<ℤ◌, ◌≤ℤ◌, arith, All, pos_part,
  neg_part, ◌-ℤ◌, ◌+ℤ◌, min_ℤ,
}
use orderflow_replay_engine.Types.{
  Timestamp, Side, buy, sell, OrderType, limit, market, fok, Order, OrderStatus, remaining,
  is_done_status,
}
use orderflow_replay_engine.OrderBook.Levels.{find_handle, find_level, find_id, before}
use orderflow_replay_engine.OrderBook.Levels.Valid.{queue}
use orderflow_replay_engine.OrderBook.Levels.Ids.{seek, count_id}
use orderflow_replay_engine.OrderBook.Matching.{
  sweep, try_match, fill, trade_of, is_worse, is_priced,
}
use orderflow_replay_engine.OrderBook.Matching.Priority.{sweep-match_queue}
use orderflow_replay_engine.OrderBook.Matching.Queue.{match_queue, fill_of}
use orderflow_replay_engine.OrderBook.Book.{
  Book, add_order, cancel_order, modify_order, deref, find_order,
}
use orderflow_replay_engine.OrderBook.Book.Valid.{IsBook, IsUncrossed}
use orderflow_replay_engine.OrderBook.Book.Match.{start}
use orderflow_replay_engine.OrderBook.Book.Add.{
  IsFresh, add_order-IsBook, entering, entering-IsLive,
}
use orderflow_replay_engine.OrderBook.Book.Uncrossed.{add_order-IsUncrossed}
use orderflow_replay_engine.OrderBook.Book.Withdrawn.{cancel_order-IsUncrossed}
use orderflow_replay_engine.OrderBook.Book.Quantities.{Moves, add_order-Moves}
use orderflow_replay_engine.OrderBook.Book.Trades.{
  IsOwnTrade, add_order-IsOwnTrade, add_order-leaves,
}
use orderflow_replay_engine.OrderBook.Book.FillOrKill.{to_be_had, IsFilled, add_order-fok}
use orderflow_replay_engine.OrderBook.Book.Cancel.{Cancelled, cancel_order-cases}
use orderflow_replay_engine.OrderBook.Book.Modify.{Modified, modify_order-cases}
use orderflow_replay_engine.OrderBook.Book.Crossing.{modify_order-crosses}

abbrev clock : ℕ → Timestamp
clock n = pos n

abbrev new_order : ℕ → Side → OrderType → ℕ → ℕ → Order
new_order id side type price qty = record {
  id = id;
  symbol = "AAPL";
  side = side;
  type = type;
  price = pos price;
  qty = pos qty;
  filled_qty = pos 0;
  status = OrderStatus.new;
  timestamp = pos 0;
  client_id = "";
}

abbrev first_ask : Order
first_ask = new_order 1 sell limit 100 10

abbrev second_ask : Order
second_ask = new_order 2 sell limit 100 5

abbrev high_ask : Order
high_ask = new_order 3 sell limit 101 7

abbrev low_bid : Order
low_bid = new_order 4 buy limit 99 8

abbrev small_book : Book
small_book = record {
  symbol = "AAPL";
  next_trade_id = 1;
  bids = record { price = pos 99; orders = low_bid ∷ []; total_qty = pos 8 } ∷ [];
  asks =
      record { price = pos 100; orders = first_ask ∷ second_ask ∷ []; total_qty = pos 15 }
      ∷ record { price = pos 101; orders = high_ask ∷ []; total_qty = pos 7 }
      ∷ [];
  orders =
      record { id = 1; side = sell; price = pos 100 }
      ∷ record { id = 2; side = sell; price = pos 100 }
      ∷ record { id = 3; side = sell; price = pos 101 }
      ∷ record { id = 4; side = buy; price = pos 99 }
      ∷ [];
}

small_book-IsBook : IsBook small_book
unfolding is_done_status before seek count_id find_handle ◌-ℤ◌ ◌+ℤ◌ pos_part neg_part
small_book-IsBook = record {
  bids = ground arith;
  asks = ground arith;
  unique = λ j. ground arith;
  agrees = λ j. ground arith;
}

small_book-IsUncrossed : IsUncrossed small_book
unfolding pos_part neg_part
small_book-IsUncrossed = omega arith

-- A bid for 12 at 100 takes the first ask whole and two of the second.
abbrev bid_12 : Order
bid_12 = new_order 5 buy limit 100 12

bid_12_runs :
    map (fill_of buy) (add_order clock bid_12 small_book).trades
    ≡ record { id = 1; price = pos 100; qty = pos 10 }
      ∷ record { id = 2; price = pos 100; qty = pos 2 }
      ∷ []
unfolding add_order try_match is_priced is_worse is_done_status fill trade_of min_ℤ ◌-ℤ◌ ◌+ℤ◌
    pos_part neg_part
bid_12_runs = refl

bid_12_left : pos 0 <ℤ remaining bid_12
unfolding ◌-ℤ◌ pos_part neg_part
bid_12_left = omega arith

bid_12-IsFresh : IsFresh bid_12 small_book
unfolding count_id
bid_12-IsFresh = refl

sweep-match_queue_example :
    let r = sweep clock "AAPL" (start (entering bid_12) small_book) small_book.asks in
    match_queue (entering bid_12) (remaining bid_12) (queue small_book.asks) ≡ record {
      fills = map (fill_of buy) r.trades;
      rest = queue r.levels;
      wanted = remaining r.cursor.incoming;
    }
sweep-match_queue_example =
    sweep-match_queue clock "AAPL" sell (start (entering bid_12) small_book) small_book.asks
      small_book-IsBook.asks (entering-IsLive bid_12 bid_12_left)

add_order-IsBook_example : IsBook (add_order clock bid_12 small_book).book
add_order-IsBook_example =
    add_order-IsBook clock bid_12 small_book small_book-IsBook bid_12_left bid_12-IsFresh

add_order-IsUncrossed_example : IsUncrossed (add_order clock bid_12 small_book).book
add_order-IsUncrossed_example =
    add_order-IsUncrossed clock bid_12 small_book small_book-IsBook bid_12_left
      small_book-IsUncrossed

add_order-Moves_example : Moves bid_12 small_book (add_order clock bid_12 small_book)
add_order-Moves_example = add_order-Moves clock bid_12 small_book small_book-IsBook bid_12_left

-- A fill-or-kill bid for 20 within 101, and one for 20 within 100, which is killed.
abbrev fok_bid : ℕ → Order
fok_bid price = new_order 6 buy fok price 20

fok_bid_left : (price : ℕ) → pos 0 <ℤ remaining (fok_bid price)
unfolding ◌-ℤ◌ pos_part neg_part
fok_bid_left price = omega arith

add_order-IsOwnTrade_example :
    All (IsOwnTrade (fok_bid 101)) (add_order clock (fok_bid 101) small_book).trades
add_order-IsOwnTrade_example =
    add_order-IsOwnTrade clock (fok_bid 101) small_book small_book-IsBook (fok_bid_left 101) refl

add_order-fok_example :
    let r = add_order clock (fok_bid 100) small_book in
    ((to_be_had (fok_bid 100) small_book <ℤ pos 20)
      × (r.book ≡ small_book)
      × (r.trades ≡ [])
      × (r.order ≡ record (fok_bid 100) { status = OrderStatus.expired }))
    ⊎ ((pos 20 ≤ℤ to_be_had (fok_bid 100) small_book) × IsFilled (fok_bid 100) r)
add_order-fok_example =
    add_order-fok clock (fok_bid 100) small_book small_book-IsBook (fok_bid_left 100) refl refl

-- A market bid for 50 takes the whole side, and does not rest.
abbrev market_bid : Order
market_bid = new_order 7 buy market 0 50

market_bid_left : pos 0 <ℤ remaining market_bid
unfolding ◌-ℤ◌ pos_part neg_part
market_bid_left = omega arith

market_bid-IsFresh : IsFresh market_bid small_book
unfolding count_id
market_bid-IsFresh = refl

add_order-leaves_example :
    ((add_order clock market_bid small_book).book.bids ≡ small_book.bids)
    × IsFresh market_bid (add_order clock market_bid small_book).book
add_order-leaves_example =
    add_order-leaves clock market_bid small_book small_book-IsBook market_bid_left (λ e. cc)
      market_bid-IsFresh

cancel_order-cases_example :
    ((find_handle 2 small_book.orders ≡ none)
      × (cancel_order 2 small_book ≡ (small_book, [], false)))
    ⊎ ((o : Order) × Cancelled 2 small_book o)
cancel_order-cases_example = cancel_order-cases 2 small_book small_book-IsBook

modify_order-cases_example :
    ((find_handle 4 small_book.orders ≡ none)
      × (modify_order 4 (pos 98) (pos 9) small_book ≡ (small_book, false)))
    ⊎ ((o : Order) × (find_order 4 small_book ≡ some o)
        × (pos 9 ≤ℤ o.filled_qty)
        × (modify_order 4 (pos 98) (pos 9) small_book ≡ (small_book, false)))
    ⊎ ((o : Order) × (o.filled_qty <ℤ pos 9) × Modified 4 (pos 98) (pos 9) small_book o)
modify_order-cases_example = modify_order-cases 4 (pos 98) (pos 9) small_book small_book-IsBook

modify_order-crosses_example : ¬ IsUncrossed (modify_order 4 (pos 100) (pos 8) small_book).0
unfolding find_handle deref find_level find_id pos_part neg_part
modify_order-crosses_example =
    modify_order-crosses 4 (pos 100) (pos 8) small_book
      (record { id = 4; side = buy; price = pos 99 }) low_bid
      (record { price = pos 100; orders = first_ask ∷ second_ask ∷ []; total_qty = pos 15 })
      (record { price = pos 101; orders = high_ask ∷ []; total_qty = pos 7 } ∷ []) small_book-IsBook
      refl refl refl (omega arith) refl (omega arith)

cancel_order-IsUncrossed_example : IsUncrossed (cancel_order 1 small_book).0
cancel_order-IsUncrossed_example = cancel_order-IsUncrossed 1 small_book small_book-IsUncrossed
