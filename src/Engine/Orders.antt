-- ===== src/Engine/Orders.antt =====
-- The commands of src/engine_cli.cpp that change the books or the positions.
use orderflow_replay_engine.Prelude.{
  ℕ, zero, suc, List, [], ◌∷◌, Option, none, some, String, ℤ, pos, negsuc, map, length, ltb, min_ℤ,
  str_eq, if◌then◌else◌,
}
use orderflow_replay_engine.Text.{◌<>◌, is_empty_text}
use orderflow_replay_engine.Double.{Double, to_price, from_price, nought}
use orderflow_replay_engine.Types.{
  Price, Quantity, OrderId, Side, OrderType, limit, market, ioc, fok, Order, OrderStatus,
  MarketDataTick,
}
use orderflow_replay_engine.Json.{
  num, num_int, str, boolean, separated, in_brackets, order_to_json, trade_to_json,
}
use orderflow_replay_engine.Simulator.{
  SubmitResult, SubmitTimes, submit_order, cancel_order, next_order_id, on_tick,
}
use orderflow_replay_engine.Engine.{Engine, Host, Clock, log_events}
use orderflow_replay_engine.Engine.Fields.{jget}
use orderflow_replay_engine.Engine.Queries.{symbol_or}

abbrev pub side_of : String → Side
side_of s = if str_eq s "SELL" then Side.sell else Side.buy

abbrev pub order_type_of : String → OrderType
order_type_of s =
    if str_eq s "MARKET"
    then market
    else if str_eq s "IOC"
    then ioc
    else if str_eq s "FOK"
    then fok
    else limit

-- The value of a conversion, or what there was if it throws.
abbrev pub or_else {ℓ} : {A : Type ℓ} → A → Option A → A
or_else a none = a
or_else a (some b) = b

-- The order of a payload.
unfoldable pub order_from : OrderId → String → Price → Quantity → Order
order_from id payload price qty = record {
  id = id;
  symbol = symbol_or (jget payload "symbol");
  side = side_of (jget payload "side");
  type = order_type_of (jget payload "type");
  price = price;
  qty = qty;
  filled_qty = pos 0;
  status = OrderStatus.pending;
  timestamp = pos 0;
  client_id = jget payload "client_id";
}

abbrev pub at_least_one : ℤ → ℕ
at_least_one (pos zero) = 1
at_least_one (pos (suc n)) = suc n
at_least_one (negsuc n) = 1

-- `n` of a step of the feed: at least 1 and at most 200, and 10 if it is not given or not a number.
unfoldable pub step_count : (String → Option ℤ) → String → ℕ
step_count stoi n_str =
    let asked = if is_empty_text n_str then pos 10 else or_else (pos 10) (stoi n_str) in
    at_least_one (min_ℤ asked (pos 200))

-- The element at an index, where there is one.
abbrev pub at_index {ℓ} : {A : Type ℓ} → ℕ → List A → Option A
at_index i [] = none
at_index zero (x ∷ xs) = some x
at_index (suc i) (x ∷ xs) = at_index i xs

module _ {ℓ} (W : Type ℓ) ⦃d : Double W⦄ where
  unfoldable pub order_reply : Order → SubmitResult → String
  unfolding boolean str order_to_json trade_to_json separated
  order_reply o r =
      "{\"approved\":"
      <> boolean r.approved
      <> ",\"order\":"
      <> order_to_json W o
      <> ",\"reject_reason\":"
      <> str r.reject_reason
      <> ",\"trades\":["
      <> separated (map (trade_to_json W) r.trades)
      <> "]}"

  unfoldable pub feed_tick_to_json : MarketDataTick → String
  unfolding str
  feed_tick_to_json t =
      "{\"symbol\":"
      <> str t.symbol
      <> ",\"bid\":"
      <> num W (from_price t.bid_price)
      <> ",\"ask\":"
      <> num W (from_price t.ask_price)
      <> ",\"last\":"
      <> num W (from_price t.last_price)
      <> ",\"bid_qty\":"
      <> num_int W t.bid_qty
      <> ",\"ask_qty\":"
      <> num_int W t.ask_qty
      <> ",\"ts\":"
      <> num_int W t.timestamp
      <> "}"

module _ {ℓ} {W : Type ℓ} ⦃d : Double W⦄ where
  -- An order whose price and quantity are read.
  unfoldable pub submit_command : SubmitTimes → Order → W → Engine W → Engine W × String
  unfolding log_events order_reply
  submit_command times o market_price e =
      let a = submit_order times o market_price e.sim in
      (log_events a.2 (record e { sim = a.0 }), order_reply W o a.1)

  unfoldable pub order_command : Host W → Clock → String → Engine W → Engine W × String
  unfolding submit_command next_order_id order_from
  order_command host clock payload e₀ =
      let (sim, id) = next_order_id e₀.sim in
      let e : Engine W = record e₀ { sim = sim } in
      let market_price = or_else nought (host.stod (jget payload "market_price")) in
      elim (host.stod (jget payload "price")) [
        | none ↦ (e, "{\"error\":\"invalid price or qty\"}")
        | some price ↦ elim (host.stoll (jget payload "qty")) [
          | none ↦ (e, "{\"error\":\"invalid price or qty\"}")
          | some qty ↦
              submit_command clock.submit (order_from id payload (to_price price) qty) market_price
                e
        ]
      ]

  unfoldable pub cancel_command : Host W → String → Engine W → Engine W × String
  unfolding log_events boolean
  cancel_command host payload e =
      let id = or_else 0 (host.stoull (jget payload "id")) in
      let a = cancel_order (jget payload "symbol") id e.sim in
      (log_events a.1 (record e { sim = a.0 }), "{\"cancelled\":" <> boolean a.2 <> "}")

  -- The loop of a step of the feed, with `n` ticks to go from the `i`-th; after the last tick of the
  -- feed comes the first. The feed is not empty, or the source reads past its end; here it stops.
  unfoldable pub step_from : Clock → ℕ → ℕ → Engine W → Engine W × List String
  unfolding feed_tick_to_json
  step_from clock zero i e = (e, [])
  step_from clock (suc n) i e =
      let idx = if ltb e.feed_idx (length e.tick_feed) then e.feed_idx else 0 in
      elim (at_index idx e.tick_feed) [
        | none ↦ (e, [])
        | some tick ↦
            let times = clock.step i in
            let rest =
              step_from clock n (suc i)
                (record e { sim = on_tick times.0 times.1 tick e.sim; feed_idx = suc idx }) in
            (rest.0, feed_tick_to_json W tick ∷ rest.1)
      ]

  unfoldable pub feed_step_command : Host W → Clock → String → Engine W → Engine W × String
  unfolding step_from step_count in_brackets
  feed_step_command host clock payload e =
      let a = step_from clock (step_count host.stoi (jget payload "n")) 0 e in
      (a.0, in_brackets a.1)
