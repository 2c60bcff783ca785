-- ===== src/Lib.antt =====
-- orderflow_replay_engine: the matching engine, the risk checks, the exchange simulator, the
-- backtester, the journal, the command line engine and the HTTP server of the replay engine.
--
-- The parts. A `Backtester` (src/core/simulator.cpp) replays ticks through a strategy
-- (src/strategy/strategy.hpp), and passes the orders that it asks for to an `ExchangeSimulator`
-- (src/core/simulator.cpp). The simulator asks its `RiskManager` (src/risk/risk_manager.cpp) whether
-- an order may go, gives it to the `OrderBook` (src/core/order_book.cpp) of its symbol, and reports
-- the trades that come back to the risk manager, which keeps the positions. The engine
-- (src/engine_cli.cpp) owns a simulator and a feed of synthetic ticks, reads a command from each line,
-- calls the simulator or a backtester, and answers in the JSON of src/network/serializer.hpp; the HTTP
-- server (src/main.cpp) does the like for requests, with a simulator and logs of its own. The
-- journal (src/journal/journal.cpp) writes orders, trades and ticks to a binary file and reads it.
--
-- The files:
--   Prelude        Boolean tests, lists, integers over the native numbers, maps keyed by strings
--   Double         what the code uses of `double`, a parameter: the record of its operations
--   Types, Latency src/core/types.hpp
--   OrderBook      src/core/order_book.{hpp,cpp}: Levels is a side of the book, Matching the loops of
--                  `try_match`, Book the public operations
--   Risk           src/risk/risk_manager.{hpp,cpp}
--   Strategy       src/strategy/strategy.hpp
--   Simulator      src/core/simulator.{hpp,cpp}, `ExchangeSimulator`
--   Backtester     src/core/simulator.{hpp,cpp}, `Backtester`
--   MarketData     src/journal/journal.{hpp,cpp}, `MarketDataParser`: the generator, and Csv `parse_csv`
--   Journal        src/journal/journal.{hpp,cpp}, `BinaryJournal`
--   Json           src/network/serializer.hpp
--   Engine         src/engine_cli.cpp: Fields is `jget`, Queries, Orders and Commands the branches of
--                  `handle` and the loop of `main`
--   Server         src/main.cpp: Routes the handlers of the HTTP server, which use what the engine has
--                  in common with it
--   Text           what the code does with `std::string`: `find`, `getline`, cutting at a character
-- The modules below each hold what is proved of it, and its Examples run it on small states.
--
-- How the state corresponds. A function of the source has the name that it has there. A method takes
-- the state of its object and returns the new one with its result. A side of a book is a list of
-- levels from the best price to the worst, which for the bids is the order of `rbegin`; the key of a
-- level is its price. An order rests in its level by value, and the pointer in `orders_` is a handle
-- with the order's id, side and price, by which it is found. The callbacks are a list of events that
-- an operation returns. A map with strings for keys is an association list. Each reading of the
-- clock is an argument; the mutexes make each method one step. `order_store_` owns the orders by id:
-- a second order with the id of one that still rests would free that one, which is outside the
-- model.
--
-- The global variables of the engine are the record `Engine`, those of the server `Server`. A file is the list of its bytes, and
-- the stream that reads it the bytes ahead with its two error bits. The conversions of texts to numbers
-- (`stod`, `stoll` and the like), `std::sort`, the random distributions and the clock are arguments.
--
-- Bounds. `int64_t` is an integer without bounds, so overflow is not modelled, but what is written to
-- the journal is cut to its 8 bytes, and the checksum works on 32 bits. `double` is a parameter, and
-- nothing is assumed of its operations. A text has the characters of ASCII. Every loop but one is
-- structural recursion on the levels, the orders, the stamps, the trades, the signals, the ticks or the
-- characters, so no fuel is needed: the inner loop of `try_match` looks at a resting order once, since
-- one that is not done then has taken all that the incoming order had left, and the loop ends. The
-- loop of `read_all` has fuel, one more than the bytes that are ahead, since each pass takes one.
--
-- Not modelled: the library under src/main.cpp that listens, picks the route of a request and sends the
-- response, the route that serves files, and requests at the same time; the threads; the display of a
-- strategy (`summary`); the benchmark, the tests, app.py and index.html.
pub mod Prelude
pub mod Double
pub mod Text
pub mod Types
pub mod Latency
pub mod OrderBook
pub mod Risk
pub mod Strategy
pub mod Simulator
pub mod Backtester
pub mod MarketData
pub mod Journal
pub mod Json
pub mod Engine
pub mod Server
