-- ===== src/Simulator/Positions.antt =====
-- What `submit_order` of src/core/simulator.cpp does to the position of the order's symbol.
use orderflow_replay_engine.Prelude.{
  ◌≡◌, ◌≢◌, refl, sym, ap, ◌∙◌, inl, inr, true, false, some, List, [], ◌∷◌, pos, ◌<ℤ◌, ◌+ℤ◌, ◌-ℤ◌,
  ◌==◌, arith, String, int_laws, eq→parts, eq_of_parts, All, All-both, lookup, Bool-cases,
}
use orderflow_replay_engine.Double.{Double, from_price}
use orderflow_replay_engine.Types.{
  Side, buy, sell, OrderId, Quantity, Order, remaining, Trade, Position,
}
use orderflow_replay_engine.OrderBook.Matching.Fills.{sum_qty, party}
use orderflow_replay_engine.OrderBook.Matching.Queue.{fill_of}
use orderflow_replay_engine.OrderBook.Book.{Book, add_order}
use orderflow_replay_engine.OrderBook.Book.Valid.{IsBook}
use orderflow_replay_engine.OrderBook.Book.Add.{IsFresh}
use orderflow_replay_engine.OrderBook.Book.Trades.{add_order-IsOwnTrade}
use orderflow_replay_engine.OrderBook.Book.Parties.{add_order-IsApart}
use orderflow_replay_engine.Risk.{RiskManager, check_order, on_fill, get_position}
use orderflow_replay_engine.Risk.Sides.{net_after}
use orderflow_replay_engine.Risk.Positions.{on_fill-IsFilledPosition}
use orderflow_replay_engine.Risk.Checks.{check_order_iff, check_order-Bookkeeping}
use orderflow_replay_engine.Simulator.{
  ExchangeSimulator, SubmitTimes, submit_order, stored, fill_side, apply_fills,
}

-- A trade by which the position of the symbol moves on the side `s`.
record IsBooked (s : Side) (id : OrderId) (symbol : String) (t : Trade) : Type 0 where
  side_eq : fill_side id t ≡ s
  symbol_eq : t.symbol ≡ symbol
  some_qty : pos 0 <ℤ t.qty

fill_side-own :
    (s : Side) (id : OrderId) (t : Trade)
    → party s t ≡ id
    → (fill_of s t).id ≢ id
    → fill_side id t ≡ s
unfolding fill_side
fill_side-own buy id t e n = let k : (t.buy_order_id == id) ≡ true = ground (arith, e) in rw k refl
fill_side-own sell id t e n =
    let k : (t.buy_order_id == id) ≡ false = ground (arith, n) in rw k refl

net_after-none : (s : Side) (net : Quantity) → net_after s net (pos 0) ≡ net
net_after-none buy net = eq_of_parts (net +ℤ pos 0) net (omega int_laws)
net_after-none sell net = eq_of_parts (net -ℤ pos 0) net (omega int_laws)

net_after-more :
    (s : Side) (net q r : Quantity) → net_after s (net_after s net q) r ≡ net_after s net (q +ℤ r)
net_after-more buy net q r = eq_of_parts ((net +ℤ q) +ℤ r) (net +ℤ (q +ℤ r)) (omega int_laws)
net_after-more sell net q r = eq_of_parts ((net -ℤ q) -ℤ r) (net -ℤ (q +ℤ r)) (omega int_laws)

module _ {ℓ} {W : Type ℓ} ⦃d : Double W⦄ where
  booked_fill :
      (s : Side) (id : OrderId) (symbol : String) (t : Trade) (r : RiskManager W)
      → IsBooked s id symbol t
      → (get_position
          (on_fill t.symbol (fill_side id t) t.qty (from_price t.price) r)
          symbol).net_qty
        ≡ net_after s (get_position r symbol).net_qty t.qty
  booked_fill s id symbol t r h =
      rw (h.side_eq, h.symbol_eq)
        (on_fill-IsFilledPosition symbol s t.qty (from_price t.price) r h.some_qty).net_eq

  apply_fills-net :
      (s : Side) (id : OrderId) (symbol : String) (ts : List Trade) (r : RiskManager W)
      → All (IsBooked s id symbol) ts
      → (get_position (apply_fills id ts r) symbol).net_qty
        ≡ net_after s (get_position r symbol).net_qty (sum_qty ts)
  unfolding apply_fills
  apply_fills-net s id symbol [] r h = sym (net_after-none s (get_position r symbol).net_qty)
  apply_fills-net s id symbol (t ∷ ts) r h =
      apply_fills-net s id symbol ts
        (on_fill t.symbol (fill_side id t) t.qty (from_price t.price) r) h.1
      ∙ ap (λ n. net_after s n (sum_qty ts)) (booked_fill s id symbol t r h.0)
      ∙ net_after-more s (get_position r symbol).net_qty t.qty (sum_qty ts)

  get_position-checked :
      (times : SubmitTimes) (o : Order) (px : W) (r : RiskManager W)
      → get_position (check_order times.rate_check times.approval o px r).0 o.symbol
        ≡ get_position r o.symbol
  unfolding get_position
  get_position-checked times o px r =
      rw
        (
          get_position,
          (check_order-Bookkeeping times.rate_check times.approval o px r).positions_eq,
        )
        refl

  -- With the checks on, and a well formed book of the order's symbol in which its id does not rest, a
  -- submission of an order with nothing filled yet moves the net position of the symbol by exactly
  -- the quantity of the trades that it answers with, up if it buys and down if it sells, whether or not
  -- the order is approved.
  pub submit_order-net :
      (times : SubmitTimes) (o : Order) (px : W) (s : ExchangeSimulator W) (b : Book)
      → s.risk.limits.enabled ≡ true
      → lookup o.symbol s.books ≡ some b
      → b.symbol ≡ o.symbol
      → IsBook b
      → IsFresh o b
      → o.filled_qty ≡ pos 0
      → (get_position (submit_order times o px s).0.risk o.symbol).net_qty
        ≡ net_after o.side
            (get_position s.risk o.symbol).net_qty
            (sum_qty (submit_order times o px s).1.trades)
  unfolding submit_order
  submit_order-net times o px s b on n name v f z =
      elim (Bool-cases (check_order times.rate_check times.approval o px s.risk).1.approved) [
        | inr e ↦ rw e (
            ap (λ (p : Position W). p.net_qty) (get_position-checked times o px s.risk)
            ∙ sym (net_after-none o.side (get_position s.risk o.symbol).net_qty))
        | inl e ↦
            let h : pos 0 <ℤ remaining o = omega (
              int_laws,
              ((check_order_iff times.rate_check times.approval o px s.risk on).0 e).qty_pos,
              eq→parts z,
            ) in
            let o' = stored times.stamp o in
            let booked =
              All-both _ _ (IsBooked o.side o.id o.symbol)
                (λ t own apart. record {
                  side_eq = fill_side-own o.side o.id t own.party_eq apart.other;
                  symbol_eq = apart.symbol_eq ∙ name;
                  some_qty = own.some_qty;
                })
                (add_order times.trade o' b).trades (add_order-IsOwnTrade times.trade o' b v h z)
                (add_order-IsApart times.trade o' b v h f) in
            rw (e, n)
              (apply_fills-net o.side o.id o.symbol (add_order times.trade o' b).trades _ booked
                ∙ ap
                    (λ (p : Position W).
                      net_after o.side p.net_qty (sum_qty (add_order times.trade o' b).trades))
                    (get_position-checked times o px s.risk))
      ]
