-- ===== src/OrderBook/Book/Match.antt =====
-- `match_order`, the call of `try_match` in src/core/order_book.cpp, on a whole book.
use orderflow_replay_engine.Prelude.{
  ℕ, ◌≤◌, ◌≡◌, refl, ap, true, false, List, [], ◌∷◌, ◌++◌, ◌<ℤ◌, ◌≤ℤ◌, lt→ltb_ℤ, ge→ltb_ℤ, pos,
  arith,
}
use orderflow_replay_engine.Types.{Timestamp, Quantity, Side, buy, sell, Order, OrderStatus}
use orderflow_replay_engine.OrderBook.Levels.{PriceLevel, notified}
use orderflow_replay_engine.OrderBook.Levels.Valid.{IsSide, queue}
use orderflow_replay_engine.OrderBook.Levels.Ids.{count_id, count_id-append}
use orderflow_replay_engine.OrderBook.Matching.{Cursor, Swept, sweep, try_match, available_qty}
use orderflow_replay_engine.OrderBook.Matching.Fills.{IsLive}
use orderflow_replay_engine.OrderBook.Matching.Sweep.{SweepResult, sweep-SweepResult}
use orderflow_replay_engine.OrderBook.Matching.Index.{InStep, InStep-Unique, sweep-InStep}
use orderflow_replay_engine.OrderBook.Book.{
  Book, Outcome, match_order, own_levels, set_own_levels, opposite,
}
use orderflow_replay_engine.OrderBook.Book.Valid.{
  IsBook, resting, resting_from, Unique-from, Agrees-from, side_from, book_from,
}

-- The cursor with which `try_match` starts.
abbrev pub start : Order → Book → Cursor
start o b = record { incoming = o; next_trade_id = b.next_trade_id; orders = b.orders }

-- The book with what a run of `try_match` leaves of the side that it matched against.
abbrev pub swept_book : Side → Book → Swept → Book
swept_book s b r = record (set_own_levels (opposite s) r.levels b) {
  next_trade_id = r.cursor.next_trade_id;
  orders = r.cursor.orders;
}

-- What `fok_check` counts.
abbrev pub available : Order → Book → Quantity
available o b = available_qty o (pos 0) (own_levels (opposite o.side) b)

module _ (now : ℕ → Timestamp) where
  abbrev pub swept : Order → Book → Swept
  swept o b = sweep now b.symbol (start o b) (own_levels (opposite o.side) b)

  swept_book-IsBook :
      (s : Side) (b : Book) (r : Swept)
      → IsBook b
      → IsSide (opposite s) r.levels
      → InStep r.cursor.orders
          (resting_from (opposite s) b)
          (queue r.levels ++ queue (own_levels s b))
      → IsBook (swept_book s b r)
  swept_book-IsBook buy b r v w i =
      book_from sell (swept_book buy b r) w v.bids (InStep-Unique i (Unique-from sell b v)) i.agrees
  swept_book-IsBook sell b r v w i =
      book_from buy (swept_book sell b r) w v.asks (InStep-Unique i (Unique-from buy b v)) i.agrees

  swept-InStep :
      (s : Side) (o : Order) (b : Book)
      → o.side ≡ s
      → IsBook b
      → IsLive o
      → let r = sweep now b.symbol (start o b) (own_levels (opposite s) b) in
        InStep r.cursor.orders
          (resting_from (opposite s) b)
          (queue r.levels ++ queue (own_levels s b))
  swept-InStep buy o b e v k =
      sweep-InStep now b.symbol sell (start o b) b.asks (queue b.bids) v.asks k
        (Unique-from sell b v) (Agrees-from sell b v)
  swept-InStep sell o b e v k =
      sweep-InStep now b.symbol buy (start o b) b.bids (queue b.asks) v.bids k (Unique-from buy b v)
        (Agrees-from buy b v)

  -- What the loop over the levels leaves of a whole book.
  pub swept-SweepResult :
      (o : Order) (b : Book)
      → IsBook b
      → IsLive o
      → SweepResult now b.symbol
          (opposite o.side)
          (start o b)
          (own_levels (opposite o.side) b)
          (swept o b)
  swept-SweepResult o b v k =
      sweep-SweepResult now b.symbol (opposite o.side) (start o b) _
        (side_from (opposite o.side) b v) k

  -- The book after the loops of `try_match`.
  abbrev pub swept_outcome : Order → Book → Outcome
  swept_outcome o b = record {
    book = swept_book o.side b (swept o b);
    order = (swept o b).cursor.incoming;
    trades = (swept o b).trades;
    events = (swept o b).events;
  }

  pub swept_outcome-IsBook :
      (o : Order) (b : Book) → IsBook b → IsLive o → IsBook (swept_outcome o b).book
  swept_outcome-IsBook o b v k =
      swept_book-IsBook o.side b (swept o b) v (swept-SweepResult o b v k).side
        (swept-InStep o.side o b refl v k)

  -- Matching brings no id into the book.
  pub swept_outcome-fewer :
      (o : Order) (b : Book)
      → IsBook b
      → IsLive o
      → (j : ℕ) → count_id j (resting (swept_outcome o b).book) ≤ count_id j (resting b)
  swept_outcome-fewer o b v k j = fewer o.side refl
    where
      fewer :
          (s : Side)
          → o.side ≡ s
          → count_id j (
              resting (swept_book s b (sweep now b.symbol (start o b) (own_levels (opposite s) b))))
            ≤ count_id j (resting b)
      fewer buy e = omega (
        arith,
        (swept-InStep buy o b e v k).fewer j,
        count_id-append j (queue b.asks) (queue b.bids),
        count_id-append j (queue b.bids) (queue b.asks),
        count_id-append j (queue (sweep now b.symbol (start o b) b.asks).levels) (queue b.bids),
        count_id-append j (queue b.bids) (queue (sweep now b.symbol (start o b) b.asks).levels),
      )
      fewer sell e = (swept-InStep sell o b e v k).fewer j

  pub match_order-sweep : (o : Order) (b : Book) → match_order now false o b ≡ swept_outcome o b
  unfolding match_order try_match
  match_order-sweep o b = refl

  -- The outcome when a fill-or-kill order cannot be filled.
  abbrev pub killed : Order → Book → Outcome
  killed o b =
      let o' : Order = record o { status = OrderStatus.expired } in
      record { book = b; order = o'; trades = []; events = notified o' ∷ [] }

  killed_book :
      (s : Side) (b : Book) (ls : List PriceLevel)
      → own_levels (opposite s) b ≡ ls
      → ◌≡◌ {A = Book}
          (record (set_own_levels (opposite s) ls b) {
            next_trade_id = b.next_trade_id;
            orders = b.orders;
          })
          b
  killed_book buy b ls e = rw (← e)
  killed_book sell b ls e = rw (← e)

  pub match_order-killed :
      (o : Order) (b : Book) → available o b <ℤ o.qty → match_order now true o b ≡ killed o b
  unfolding match_order try_match
  match_order-killed o b h =
      rw (lt→ltb_ℤ _ _ h)
        (ap (λ (x : Book). record (killed o b) { book = x }) (killed_book o.side b _ refl))

  pub match_order-filled :
      (o : Order) (b : Book) → o.qty ≤ℤ available o b → match_order now true o b ≡ swept_outcome o b
  unfolding match_order try_match
  match_order-filled o b h = rw (ge→ltb_ℤ _ _ h)
