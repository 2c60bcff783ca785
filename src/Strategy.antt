-- ===== src/Strategy.antt =====
-- src/strategy/strategy.hpp: the signals that a strategy may give, the interface of strategies, and
-- the three strategies of the engine.
pub mod MarketMaking
pub mod Momentum
pub mod MeanReversion
mod Examples
use orderflow_replay_engine.Prelude.{ℕ, List, [], String, pos}
use orderflow_replay_engine.Types.{
  Price, Quantity, OrderId, OrderType, limit, Order, Trade, MarketDataTick, OrderBookSnapshot,
}

pub data Action : Type 0 where
  nothing buy sell cancel cancel_all : Action

pub record StrategySignal : Type 0 where
  pub action : Action
  pub symbol : String
  pub type : OrderType
  pub price : Price
  pub qty : Quantity
  pub cancel_id : OrderId
  pub reason : String

-- A `StrategySignal` with the values that its members start with.
abbrev pub new_signal : Action → StrategySignal
new_signal a = record {
  action = a;
  symbol = "";
  type = limit;
  price = pos 0;
  qty = pos 0;
  cancel_id = 0;
  reason = "";
}

-- `IStrategy`: its methods over the state of an implementation.
pub record IStrategy {ℓ} (S : Type ℓ) : Type ℓ where
  pub name : String
  pub on_init : String → S → S
  pub on_tick : MarketDataTick → OrderBookSnapshot → S → S × List StrategySignal
  pub on_order_update : Order → S → S
  pub on_trade : Trade → S → S
