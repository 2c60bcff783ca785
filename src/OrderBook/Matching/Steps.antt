-- ===== src/OrderBook/Matching/Steps.antt =====
-- The matching loop of one level in src/core/order_book.cpp, step by step: which of its three ways
-- a round takes, when the resting order has a quantity left.
use orderflow_replay_engine.Prelude.{
  ℕ, suc, ◌≡◌, ap, ◌∙◌, ◌⊎◌, inl, inr, true, false, List, [], ◌∷◌, ◌++◌, String, ◌-ℤ◌, ◌<ℤ◌, ◌≤ℤ◌,
  ltb_ℤ, eqb_ℤ, pos, min_ℤ, min_ℤ_cases, ltb_ℤ→lt, ltb_ℤ→ge, eqb_ℤ_refl, lt→eqb_ℤ, int_laws,
  Bool-cases, arith, if◌then◌else◌,
}
use orderflow_replay_engine.Types.{Quantity, Timestamp, Order, remaining, is_done, is_done_status}
use orderflow_replay_engine.OrderBook.Levels.{erase_handle, Event, traded, notified}
use orderflow_replay_engine.OrderBook.Matching.{Cursor, Filled, Made, fill, trade_with, fill_level}

pub remaining-fill : (o : Order) (q : Quantity) → remaining (fill o q) ≡ remaining o -ℤ q
unfolding fill
remaining-fill o q = omega int_laws

-- An order is done after a fill exactly if nothing is left of it.
pub is_done-fill :
    (o : Order) (q : Quantity) → is_done (fill o q) ≡ eqb_ℤ (remaining o -ℤ q) (pos 0)
unfolding fill is_done_status
is_done-fill o q = rw (← remaining-fill o q) (ground arith)

pub fill-partly : (o : Order) (q : Quantity) → q <ℤ remaining o → is_done (fill o q) ≡ false
fill-partly o q h = is_done-fill o q ∙ lt→eqb_ℤ _ _ (omega int_laws)

pub fill-wholly : (o : Order) → is_done (fill o (remaining o)) ≡ true
fill-wholly o =
    let e : remaining o -ℤ remaining o ≡ pos 0 = omega int_laws in
    is_done-fill o (remaining o) ∙ (rw e (eqb_ℤ_refl (pos 0)))

module _ (now : ℕ → Timestamp) (symbol : String) where
  abbrev pub told : Made → List Event
  told m = traded m.trade ∷ notified m.resting ∷ notified m.incoming ∷ []

  -- The round that leaves the resting order in front, partly filled.
  abbrev pub part_taken : Cursor → Quantity → Order → List Order → Filled
  part_taken c total r rs =
      let q = remaining c.incoming in
      let m = trade_with now symbol c.next_trade_id c.incoming r q in
      record {
        cursor = record c { incoming = m.incoming; next_trade_id = suc c.next_trade_id };
        queue = m.resting ∷ rs;
        total_qty = total -ℤ q;
        trades = m.trade ∷ [];
        events = told m;
      }

  abbrev pub cursor_after : Cursor → Order → Cursor
  cursor_after c r =
      let m = trade_with now symbol c.next_trade_id c.incoming r (remaining r) in
      record {
        incoming = m.incoming;
        next_trade_id = suc c.next_trade_id;
        orders = erase_handle r.id c.orders;
      }

  -- The round that takes the resting order whole.
  abbrev pub all_taken : Cursor → Quantity → Order → List Order → Filled
  all_taken c total r rs =
      let m = trade_with now symbol c.next_trade_id c.incoming r (remaining r) in
      let rest = fill_level now symbol (cursor_after c r) (total -ℤ remaining r) rs in
      record rest { trades = m.trade ∷ rest.trades; events = told m ++ rest.events }

  abbrev pub untouched : Cursor → Quantity → List Order → Filled
  untouched c total rs = record {
    cursor = c;
    queue = rs;
    total_qty = total;
    trades = [];
    events = [];
  }

  abbrev pub Round : Cursor → Quantity → Order → List Order → Type 0
  Round c total r rs =
      ((remaining c.incoming ≤ℤ pos 0)
        × (fill_level now symbol c total (r ∷ rs) ≡ untouched c total (r ∷ rs)))
      ⊎ ((pos 0 <ℤ remaining c.incoming)
          × (remaining c.incoming <ℤ remaining r)
          × (fill_level now symbol c total (r ∷ rs) ≡ part_taken c total r rs))
      ⊎ ((pos 0 <ℤ remaining c.incoming)
          × (remaining r ≤ℤ remaining c.incoming)
          × (fill_level now symbol c total (r ∷ rs) ≡ all_taken c total r rs))

  -- The body of a round, for a quantity `q` to fill.
  abbrev filled_round : Cursor → Quantity → Order → List Order → Quantity → Filled
  filled_round c total r rs q =
      let m = trade_with now symbol c.next_trade_id c.incoming r q in
      let popped =
        fill_level now symbol
          (record {
            incoming = m.incoming;
            next_trade_id = suc c.next_trade_id;
            orders = erase_handle r.id c.orders;
          })
          (total -ℤ q) rs in
      if is_done m.resting
      then record popped { trades = m.trade ∷ popped.trades; events = told m ++ popped.events }
      else record {
        cursor = record c { incoming = m.incoming; next_trade_id = suc c.next_trade_id };
        queue = m.resting ∷ rs;
        total_qty = total -ℤ q;
        trades = m.trade ∷ [];
        events = told m;
      }

  fill_level-filled_round :
      (c : Cursor) (total : Quantity) (r : Order) (rs : List Order)
      → ltb_ℤ (pos 0) (remaining c.incoming) ≡ true
      → fill_level now symbol c total (r ∷ rs)
        ≡ filled_round c total r rs (min_ℤ (remaining c.incoming) (remaining r))
  unfolding fill_level
  fill_level-filled_round c total r rs e = rw e

  fill_level-stop :
      (c : Cursor) (total : Quantity) (r : Order) (rs : List Order)
      → ltb_ℤ (pos 0) (remaining c.incoming) ≡ false
      → fill_level now symbol c total (r ∷ rs) ≡ untouched c total (r ∷ rs)
  unfolding fill_level
  fill_level-stop c total r rs e = rw e

  partly :
      (c : Cursor) (total : Quantity) (r : Order) (rs : List Order)
      → is_done (fill r (remaining c.incoming)) ≡ false
      → filled_round c total r rs (remaining c.incoming) ≡ part_taken c total r rs
  unfolding trade_with
  partly c total r rs e = rw e

  wholly :
      (c : Cursor) (total : Quantity) (r : Order) (rs : List Order)
      → is_done (fill r (remaining r)) ≡ true
      → filled_round c total r rs (remaining r) ≡ all_taken c total r rs
  unfolding trade_with
  wholly c total r rs e = rw e

  pub round : (c : Cursor) (total : Quantity) (r : Order) (rs : List Order) → Round c total r rs
  round c total r rs = elim (Bool-cases (ltb_ℤ (pos 0) (remaining c.incoming))) [
    | inr e ↦ inl (ltb_ℤ→ge _ _ e, fill_level-stop c total r rs e)
    | inl e ↦ elim (min_ℤ_cases (remaining c.incoming) (remaining r)) [
      | inl (h, m) ↦ inr (
          inl (
            ltb_ℤ→lt _ _ e,
            h,
            fill_level-filled_round c total r rs e
                ∙ ap (filled_round c total r rs) m
                ∙ partly c total r rs (fill-partly r (remaining c.incoming) h),
          ))
      | inr (h, m) ↦ inr (
          inr (
            ltb_ℤ→lt _ _ e,
            h,
            fill_level-filled_round c total r rs e
                ∙ ap (filled_round c total r rs) m
                ∙ wholly c total r rs (fill-wholly r),
          ))
    ]
  ]
