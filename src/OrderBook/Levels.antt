-- ===== src/OrderBook/Levels.antt =====
-- src/core/order_book.hpp `PriceLevel`, and the two `std::map<Price, PriceLevel>` with the index
-- `orders_` of src/core/order_book.cpp.
-- A map of levels is the list of its entries from the best price to the worst: `asks_` from its
-- begin, `bids_` from its rbegin. The key of an entry is its field `price`, which only `add_to_book`
-- writes, to the key. A level holds its orders by value, first come first; a pointer to a resting
-- order is the `Handle` under which the order is found, its side, price and id.
pub mod Valid
pub mod Edits
pub mod Arrival
pub mod Ids
pub mod Removal
pub mod Lookup
use orderflow_replay_engine.Prelude.{
  ℕ, Bool, true, false, List, [], ◌∷◌, ◌++◌, Option, none, some, ◌+ℤ◌, ◌-ℤ◌, ltb_ℤ, eqb_ℤ, pos,
  if◌then◌else◌, is_empty, ◌==◌,
}
use orderflow_replay_engine.Types.{
  Price, Quantity, OrderId, Side, buy, sell, Order, remaining, Trade,
}

pub record PriceLevel : Type 0 where
  pub price : Price
  pub orders : List Order
  pub total_qty : Quantity

pub record Handle : Type 0 where
  pub id : OrderId
  pub side : Side
  pub price : Price

-- What the callbacks `trade_cb_` and `order_cb_` are called with, in the order of the calls.
pub data Event : Type 0 where
  traded : Trade → Event
  notified : Order → Event

-- `orders_`, the map from ids to pointers
unfoldable pub find_handle : OrderId → List Handle → Option Handle
find_handle id [] = none
find_handle id (h ∷ hs) = if h.id == id then some h else find_handle id hs

unfoldable pub erase_handle : OrderId → List Handle → List Handle
erase_handle id [] = []
erase_handle id (h ∷ hs) = if h.id == id then erase_handle id hs else h ∷ erase_handle id hs

unfoldable pub insert_handle : Handle → List Handle → List Handle
unfolding erase_handle
insert_handle h hs = h ∷ erase_handle h.id hs

-- The order of a side's levels: `p` comes before `q`.
unfoldable pub before : Side → Price → Price → Bool
before buy p q = ltb_ℤ q p
before sell p q = ltb_ℤ p q

-- `PriceLevel::add`, on the level that `book[order.price]` made or found
unfoldable pub level_add : PriceLevel → Order → PriceLevel
level_add l o = record l { orders = l.orders ++ o ∷ []; total_qty = l.total_qty +ℤ remaining o }

unfoldable pub fresh_level : Price → PriceLevel
fresh_level p = record { price = p; orders = []; total_qty = pos 0 }

-- `auto& level = book[order.price]; level.orders.push_back(&order); …`
unfoldable pub insert_order : Side → Order → List PriceLevel → List PriceLevel
unfolding level_add fresh_level before
insert_order s o [] = level_add (fresh_level o.price) o ∷ []
insert_order s o (l ∷ ls) =
    if eqb_ℤ l.price o.price
    then level_add l o ∷ ls
    else if before s o.price l.price
    then level_add (fresh_level o.price) o ∷ l ∷ ls
    else l ∷ insert_order s o ls

-- `book.find(order.price)`
unfoldable pub find_level : Price → List PriceLevel → Option PriceLevel
find_level p [] = none
find_level p (l ∷ ls) = if eqb_ℤ l.price p then some l else find_level p ls

-- `level.orders.remove_if(o->id == order.id)`, and the `removed` that its closure leaves behind
unfoldable pub remove_id : OrderId → List Order → List Order
remove_id id [] = []
remove_id id (o ∷ os) = if o.id == id then remove_id id os else o ∷ remove_id id os

unfoldable pub removed_qty : OrderId → Quantity → List Order → Quantity
removed_qty id removed [] = removed
removed_qty id removed (o ∷ os) = removed_qty id (if o.id == id then remaining o else removed) os

unfoldable pub level_remove : OrderId → PriceLevel → PriceLevel
unfolding remove_id removed_qty
level_remove id l = record l {
  orders = remove_id id l.orders;
  total_qty = l.total_qty -ℤ removed_qty id (pos 0) l.orders;
}

-- The rest of `remove_from_book` once the level at the price is found: it goes when it is empty.
unfoldable pub remove_order : Price → OrderId → List PriceLevel → List PriceLevel
unfolding level_remove
remove_order p id [] = []
remove_order p id (l ∷ ls) =
    if eqb_ℤ l.price p
    then if is_empty (level_remove id l).orders then ls else level_remove id l ∷ ls
    else l ∷ remove_order p id ls

-- The order that a handle points to.
unfoldable pub find_id : OrderId → List Order → Option Order
find_id id [] = none
find_id id (o ∷ os) = if o.id == id then some o else find_id id os
