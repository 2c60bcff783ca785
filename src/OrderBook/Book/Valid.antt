-- ===== src/OrderBook/Book/Valid.antt =====
-- What an `OrderBook` of src/core/order_book.cpp looks like between two operations.
use orderflow_replay_engine.Prelude.{ℕ, ◌≡◌, List, ◌++◌, String, ◌<ℤ◌, refl, arith}
use orderflow_replay_engine.Types.{Side, buy, sell, Order}
use orderflow_replay_engine.OrderBook.Levels.{PriceLevel, find_handle}
use orderflow_replay_engine.OrderBook.Levels.Valid.{IsSide, queue}
use orderflow_replay_engine.OrderBook.Levels.Ids.{
  seek, count_id, Agrees, Unique, Agrees-comm, Unique-comm, count_id-append,
}
use orderflow_replay_engine.OrderBook.Matching.Prices.{AllPrices}
use orderflow_replay_engine.OrderBook.Book.{Book, new_book, own_levels, opposite}

-- The orders that rest in the book.
abbrev pub resting : Book → List Order
resting b = queue b.bids ++ queue b.asks

-- Both sides are well formed, the index has the handles of the resting orders and no others, and no
-- id rests twice.
pub record IsBook (b : Book) : Type 0 where
  pub bids : IsSide buy b.bids
  pub asks : IsSide sell b.asks
  pub unique : Unique (resting b)
  pub agrees : Agrees b.orders (resting b)

-- Every bid is below every ask.
abbrev pub Uncrossed : List PriceLevel → List PriceLevel → Type 0
Uncrossed bids asks = AllPrices (λ p. AllPrices (λ q. p <ℤ q) asks) bids

abbrev pub IsUncrossed : Book → Type 0
IsUncrossed b = Uncrossed b.bids b.asks

pub new_book-IsBook : (symbol : String) → IsBook (new_book symbol)
unfolding new_book seek count_id find_handle
new_book-IsBook symbol = record {
  bids = record { levels = tt; sorted = tt };
  asks = record { levels = tt; sorted = tt };
  unique = λ j. omega arith;
  agrees = λ j. refl;
}

-- The resting orders, those of side `s` first.
abbrev pub resting_from : Side → Book → List Order
resting_from s b = queue (own_levels s b) ++ queue (own_levels (opposite s) b)

pub Unique-from : (s : Side) (b : Book) → IsBook b → Unique (resting_from s b)
Unique-from buy b v = v.unique
Unique-from sell b v = Unique-comm (queue b.bids) (queue b.asks) v.unique

pub Agrees-from : (s : Side) (b : Book) → IsBook b → Agrees b.orders (resting_from s b)
Agrees-from buy b v = v.agrees
Agrees-from sell b v = Agrees-comm b.orders (queue b.bids) (queue b.asks) v.unique v.agrees

pub side_from : (s : Side) (b : Book) → IsBook b → IsSide s (own_levels s b)
side_from buy b v = v.bids
side_from sell b v = v.asks

-- A book from its two sides, the one of side `s` first.
pub book_from :
    (s : Side) (b : Book)
    → IsSide s (own_levels s b)
    → IsSide (opposite s) (own_levels (opposite s) b)
    → Unique (resting_from s b)
    → Agrees b.orders (resting_from s b)
    → IsBook b
book_from buy b v w u a = record { bids = v; asks = w; unique = u; agrees = a }
book_from sell b v w u a = record {
  bids = w;
  asks = v;
  unique = Unique-comm (queue b.asks) (queue b.bids) u;
  agrees = Agrees-comm b.orders (queue b.asks) (queue b.bids) u a;
}

pub count_id-resting :
    (s : Side) (b : Book) (j : ℕ) → count_id j (resting_from s b) ≡ count_id j (resting b)
count_id-resting buy b j = refl
count_id-resting sell b j = omega (
  arith,
  count_id-append j (queue b.bids) (queue b.asks),
  count_id-append j (queue b.asks) (queue b.bids),
)
