-- ===== src/OrderBook.antt =====
-- src/core/order_book.hpp and src/core/order_book.cpp: the limit order book.
pub mod Levels
pub mod Matching
pub mod Book
mod Examples
