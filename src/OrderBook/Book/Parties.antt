-- ===== src/OrderBook/Book/Parties.antt =====
-- The parties of the trades of `add_order` in src/core/order_book.cpp.
use orderflow_replay_engine.Prelude.{
  ℕ, ◌≡◌, ◌≢◌, true, false, inl, inr, subst, ◌<ℤ◌, pos, arith, All, All-both, String,
}
use orderflow_replay_engine.Types.{
  Timestamp, Side, buy, sell, OrderType, limit, market, ioc, fok, Order, remaining, Trade,
}
use orderflow_replay_engine.OrderBook.Levels.Ids.{count_id, count_id-append}
use orderflow_replay_engine.OrderBook.Levels.Valid.{queue}
use orderflow_replay_engine.OrderBook.Matching.Queue.{Match, fill_of}
use orderflow_replay_engine.OrderBook.Matching.Parties.{match_queue-others, All-unmap, sweep-IsIn}
use orderflow_replay_engine.OrderBook.Matching.Priority.{sweep-match_queue}
use orderflow_replay_engine.OrderBook.Book.{Book, add_order, match_order, own_levels, opposite}
use orderflow_replay_engine.OrderBook.Book.Valid.{IsBook, side_from}
use orderflow_replay_engine.OrderBook.Book.Match.{swept, match_order-sweep, start}
use orderflow_replay_engine.OrderBook.Book.Add.{
  IsFresh, entering, entering-IsLive, matched, added, fok-cases,
}
use orderflow_replay_engine.OrderBook.Book.Quantities.{settle-trades}

-- The trade is of the symbol, and the order is on one side of it only.
pub record IsApart (o : Order) (symbol : String) (t : Trade) : Type 0 where
  pub other : (fill_of o.side t).id ≢ o.id
  pub symbol_eq : t.symbol ≡ symbol

opposite-fresh :
    (s : Side) (o : Order) (b : Book)
    → IsFresh o b
    → count_id o.id (queue (own_levels (opposite s) b)) ≡ 0
opposite-fresh buy o b f = omega (arith, f, count_id-append o.id (queue b.bids) (queue b.asks))
opposite-fresh sell o b f = omega (arith, f, count_id-append o.id (queue b.bids) (queue b.asks))

-- A property of trades that matching gives holds of the trades of the order, whatever its type is.
pub added-All :
    (now : ℕ → Timestamp) (o : Order) (b : Book) (P : Trade → Type 0) (t : OrderType)
    → All P (matched now o b).trades
    → All P (added now o b t).trades
added-All now o b P limit h =
    rw
      (
        settle-trades limit (match_order now false (entering o) b),
        match_order-sweep now (entering o) b,
      )
      h
added-All now o b P market h =
    rw
      (
        settle-trades market (match_order now false (entering o) b),
        match_order-sweep now (entering o) b,
      )
      h
added-All now o b P ioc h =
    rw
      (
        settle-trades ioc (match_order now false (entering o) b),
        match_order-sweep now (entering o) b,
      )
      h
added-All now o b P fok h =
    rw (settle-trades fok (match_order now true (entering o) b))
      (elim (fok-cases now o b) [ inl e ↦ rw e tt | inr e ↦ rw e h ])

pub add_order-IsApart :
    (now : ℕ → Timestamp) (o : Order) (b : Book)
    → IsBook b
    → pos 0 <ℤ remaining o
    → IsFresh o b
    → All (IsApart o b.symbol) (add_order now o b).trades
unfolding add_order
add_order-IsApart now o b v h f =
    let levels = own_levels (opposite o.side) b in
    let agrees =
      sweep-match_queue now b.symbol (opposite o.side) (start (entering o) b) levels
        (side_from (opposite o.side) b v) (entering-IsLive o h) in
    let served =
      match_queue-others (entering o) o.id (remaining o) (queue levels)
        (opposite-fresh o.side o b f) in
    let others =
      All-unmap (λ x. x.id ≢ o.id) (fill_of o.side) (swept now (entering o) b).trades
        (subst (λ (m : Match). All (λ x. x.id ≢ o.id) m.fills) agrees served) in
    added-All now o b (IsApart o b.symbol) o.type (
      All-both _ _ _ (λ t n e. record { other = n; symbol_eq = e }) _ others
        (sweep-IsIn now b.symbol (start (entering o) b) levels))
