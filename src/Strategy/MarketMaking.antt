-- ===== src/Strategy/MarketMaking.antt =====
-- `MarketMakingStrategy` of src/strategy/strategy.hpp.
use orderflow_replay_engine.Prelude.{
  ℕ, suc, ◌||◌, List, [], ◌∷◌, ◌++◌, pos, ◌==◌, if◌then◌else◌, is_empty,
}
use orderflow_replay_engine.Double.{Double, from_price, to_price}
use orderflow_replay_engine.Types.{
  Quantity, OrderId, Side, Order, OrderStatus, MarketDataTick, OrderBookSnapshot, snapshot_mid,
}
use orderflow_replay_engine.Strategy.{Action, StrategySignal, new_signal, IStrategy}

-- An id of 0 means that there is no order.
pub record MarketMakingStrategy {ℓ} (W : Type ℓ) : Type ℓ where
  pub spread_bps : W
  pub qty : Quantity
  pub bid_id : OrderId
  pub ask_id : OrderId
  pub fills : ℕ

-- The cancellation of an order that may stand.
abbrev pub cancel_of : OrderId → List StrategySignal
cancel_of id = if id == 0 then [] else record (new_signal Action.cancel) { cancel_id = id } ∷ []

-- `if (order.id == bid_id_) bid_id_ = 0`
abbrev pub forget : OrderId → OrderId → OrderId
forget id held = if id == held then 0 else held

module _ {ℓ} {W : Type ℓ} ⦃d : Double W⦄ where
  abbrev pub new_market_making : W → Quantity → MarketMakingStrategy W
  new_market_making spread_bps qty = record {
    spread_bps = spread_bps;
    qty = qty;
    bid_id = 0;
    ask_id = 0;
    fills = 0;
  }

  unfoldable pub market_making_on_tick :
      MarketDataTick
      → OrderBookSnapshot
      → MarketMakingStrategy W
      → MarketMakingStrategy W × List StrategySignal
  market_making_on_tick tick book s =
      let mid = from_price (snapshot_mid book) in
      let half = d.div (d.mul mid s.spread_bps) (d.lit (pos 20000) 1) in
      let bid : StrategySignal = record (new_signal Action.buy) {
        symbol = tick.symbol;
        price = to_price (d.sub mid half);
        qty = s.qty;
        reason = "MM_BID";
      } in
      let ask : StrategySignal = record (new_signal Action.sell) {
        symbol = tick.symbol;
        price = to_price (d.add mid half);
        qty = s.qty;
        reason = "MM_ASK";
      } in
      if is_empty book.bids || is_empty book.asks then (s, []) else (
        record s { bid_id = 0; ask_id = 0 },
        cancel_of s.bid_id ++ cancel_of s.ask_id ++ bid ∷ ask ∷ [],
      )

  abbrev forget_order : OrderId → MarketMakingStrategy W → MarketMakingStrategy W
  forget_order id s = record s { bid_id = forget id s.bid_id; ask_id = forget id s.ask_id }

  abbrev hold_order : Side → OrderId → MarketMakingStrategy W → MarketMakingStrategy W
  hold_order Side.buy id s = record s { bid_id = id }
  hold_order Side.sell id s = record s { ask_id = id }

  abbrev update_by : OrderStatus → Order → MarketMakingStrategy W → MarketMakingStrategy W
  update_by OrderStatus.rejected o s = forget_order o.id s
  update_by OrderStatus.cancelled o s = forget_order o.id s
  update_by OrderStatus.expired o s = forget_order o.id s
  update_by OrderStatus.new o s = hold_order o.side o.id s
  update_by OrderStatus.filled o s = forget_order o.id (record s { fills = suc s.fills })
  update_by OrderStatus.pending o s = s
  update_by OrderStatus.partially_filled o s = s

  unfoldable pub market_making_on_order_update :
      Order → MarketMakingStrategy W → MarketMakingStrategy W
  market_making_on_order_update o s = update_by o.status o s

  unfoldable pub market_making : IStrategy (MarketMakingStrategy W)
  market_making = record {
    name = "MarketMaking";
    on_init = λ symbol s. s;
    on_tick = market_making_on_tick;
    on_order_update = market_making_on_order_update;
    on_trade = λ t s. s;
  }
