-- ===== src/Simulator/Running.antt =====
-- What holds of an `ExchangeSimulator` of src/core/simulator.cpp while it runs: its books are sound, and
-- the ids that rest in them are ids that it has given out.
use orderflow_replay_engine.Prelude.{
  ℕ, suc, ◌+◌, ◌≡◌, refl, sym, ap, subst, ◌∙◌, inl, inr, true, List, [], ◌∷◌, String, pos, ◌<ℤ◌,
  lookup, AllValues, AllValues-lookup, AllValues-insert, AllValues-map, arith, Option-cases,
  Bool-cases,
}
use orderflow_replay_engine.Double.{Double, from_price}
use orderflow_replay_engine.Types.{
  OrderId, Timestamp, Order, Trade, MarketDataTick, remaining, RiskLimits,
}
use orderflow_replay_engine.OrderBook.Levels.Ids.{count_id}
use orderflow_replay_engine.OrderBook.Book.{Book, new_book, add_order, cancel_order as cancel_in}
use orderflow_replay_engine.OrderBook.Book.Valid.{IsBook, resting, new_book-IsBook}
use orderflow_replay_engine.OrderBook.Book.Add.{add_order-IsBook}
use orderflow_replay_engine.OrderBook.Book.Uncrossed.{add_order-IsUncrossed}
use orderflow_replay_engine.OrderBook.Book.Ids.{add_order-count_id, cancel_order-count_id}
use orderflow_replay_engine.OrderBook.Book.Withdrawn.{cancel_order-IsUncrossed}
use orderflow_replay_engine.OrderBook.Book.Cancel.{cancel_order-cases}
use orderflow_replay_engine.Risk.{
  RiskManager, new_risk_manager, check_order, on_fill, update_market_price,
}
use orderflow_replay_engine.Risk.Checks.{check_order-Bookkeeping}
use orderflow_replay_engine.Simulator.{
  ExchangeSimulator, new_simulator, add_symbol, SubmitTimes, submit_order, stored, cancel_order,
  apply_fills, next_order_id, on_tick, fill_side,
}
use orderflow_replay_engine.Simulator.Valid.{IsSound, submit_order-AllValues}

-- No id above `n` rests in the book.
pub record IsWithinIds (n : OrderId) (b : Book) : Type 0 where
  pub none_above : (k : ℕ) → count_id (suc (n + k)) (resting b) ≡ 0

-- A sound book with ids up to `n`.
pub record IsGoodBook (n : OrderId) (b : Book) : Type 0 where
  pub sound : IsSound b
  pub ids : IsWithinIds n b

new_book-IsGoodBook : (n : OrderId) (symbol : String) → IsGoodBook n (new_book symbol)
unfolding new_book count_id
new_book-IsGoodBook n symbol = record {
  sound = record { valid = new_book-IsBook symbol; uncrossed = tt };
  ids = record { none_above = λ k. refl };
}

IsGoodBook-suc : (n : OrderId) (b : Book) → IsGoodBook n b → IsGoodBook (suc n) b
IsGoodBook-suc n b g = record {
  sound = g.sound;
  ids = record {
    none_above = λ k.
        let e : suc (n + suc k) ≡ suc (suc n + k) = omega arith in
        sym (ap (λ j. count_id j (resting b)) e) ∙ g.ids.none_above (suc k);
  };
}

-- The order with the next id goes into a good book.
added-IsGoodBook :
    (now : ℕ → Timestamp) (n : OrderId) (o : Order) (b : Book)
    → o.id ≡ suc n
    → pos 0 <ℤ remaining o
    → IsGoodBook n b
    → IsGoodBook (suc n) (add_order now o b).book
added-IsGoodBook now n o b e left g =
    let v = g.sound.valid in
    let z : suc (n + 0) ≡ o.id = omega (arith, e) in
    let fresh : count_id o.id (resting b) ≡ 0 =
      sym (ap (λ j. count_id j (resting b)) z) ∙ g.ids.none_above 0 in
    record {
      sound = record {
        valid = add_order-IsBook now o b v left fresh;
        uncrossed = add_order-IsUncrossed now o b v left g.sound.uncrossed;
      };
      ids = record {
        none_above = λ k.
            let j = suc (suc n + k) in
            let old = (IsGoodBook-suc n b g).ids.none_above k in
            ground (arith, e, old, add_order-count_id now o b j v left);
      };
    }

cancelled-IsGoodBook :
    (n id : OrderId) (b : Book) → IsGoodBook n b → IsGoodBook n (cancel_in id b).0
cancelled-IsGoodBook n id b g =
    let v = g.sound.valid in
    let kept : IsBook (cancel_in id b).0 = elim (cancel_order-cases id b v) [
      | inl (k, c) ↦ rw c v
      | inr (o, c) ↦ c.removed.valid
    ] in
    record {
      sound = record { valid = kept; uncrossed = cancel_order-IsUncrossed id b g.sound.uncrossed };
      ids = record {
        none_above =
            λ k. omega (arith, g.ids.none_above k, cancel_order-count_id id b (suc (n + k)) v);
      };
    }

module _ {ℓ} {W : Type ℓ} ⦃d : Double W⦄ where
  -- The checks are on, and every book is sound and has only ids that were given out.
  pub record IsRunning (s : ExchangeSimulator W) : Type 0 where
    pub enabled : s.risk.limits.enabled ≡ true
    pub good : AllValues (IsGoodBook s.next_oid) s.books

  pub new_simulator-IsRunning : (l : RiskLimits W) → l.enabled ≡ true → IsRunning (new_simulator l)
  unfolding new_simulator AllValues new_risk_manager
  new_simulator-IsRunning l e = record { enabled = e; good = tt }

  pub add_symbol-IsRunning :
      (symbol : String) (s : ExchangeSimulator W) → IsRunning s → IsRunning (add_symbol symbol s)
  unfolding add_symbol
  add_symbol-IsRunning symbol s r = elim (Option-cases (lookup symbol s.books)) [
    | inl e ↦
        rw (e, add_symbol)
          (record {
            enabled = r.enabled;
            good =
                AllValues-insert (IsGoodBook s.next_oid) symbol (new_book symbol) s.books
                  (new_book-IsGoodBook s.next_oid symbol) r.good;
          })
    | inr (b, e) ↦ rw (e, add_symbol) r
  ]

  pub apply_fills-limits :
      (id : OrderId) (ts : List Trade) (r : RiskManager W) → (apply_fills id ts r).limits ≡ r.limits
  unfolding apply_fills on_fill
  apply_fills-limits id [] r = refl
  apply_fills-limits id (t ∷ ts) r =
      apply_fills-limits id ts (on_fill t.symbol (fill_side id t) t.qty (from_price t.price) r)

  submit_order-limits :
      (times : SubmitTimes) (o : Order) (px : W) (s : ExchangeSimulator W)
      → ((submit_order times o px s).0.risk.limits ≡ s.risk.limits)
        × ((submit_order times o px s).0.next_oid ≡ s.next_oid)
  unfolding submit_order
  submit_order-limits times o px s =
      let b = check_order-Bookkeeping times.rate_check times.approval o px s.risk in
      elim (Bool-cases (check_order times.rate_check times.approval o px s.risk).1.approved) [
        | inl e ↦ elim (Option-cases (lookup o.symbol s.books)) [
          | inl n ↦ rw (e, n) (b.limits_eq, refl)
          | inr (c, n) ↦ rw (e, n) (apply_fills-limits o.id _ _ ∙ b.limits_eq, refl)
        ]
        | inr e ↦ rw e (b.limits_eq, refl)
      ]

  -- An order that takes the next id, and of which nothing is filled yet, may be submitted with any
  -- type, price and quantity: the simulator goes on running.
  pub submit_order-IsRunning :
      (times : SubmitTimes) (o : Order) (px : W) (s : ExchangeSimulator W)
      → o.id ≡ (next_order_id s).1
      → o.filled_qty ≡ pos 0
      → IsRunning s
      → IsRunning (submit_order times o px (next_order_id s).0).0
  unfolding next_order_id
  submit_order-IsRunning times o px s e z r =
      let n = s.next_oid in
      let s' = (next_order_id s).0 in
      let kept = submit_order-limits times o px s' in
      let older =
        AllValues-map (IsGoodBook n) (IsGoodBook (suc n)) (IsGoodBook-suc n) s.books r.good in
      let good =
        submit_order-AllValues (IsGoodBook (suc n)) times o px s' r.enabled z
          (λ b found left.
            added-IsGoodBook times.trade n (stored times.stamp o) b e left
              (AllValues-lookup (IsGoodBook n) o.symbol b s.books r.good found))
          older in
      record {
        enabled = ap (λ l. l.enabled) kept.0 ∙ r.enabled;
        good =
            subst (λ m. AllValues (IsGoodBook m) (submit_order times o px s').0.books) (sym kept.1)
              good;
      }

  pub cancel_order-IsRunning :
      (symbol : String) (id : OrderId) (s : ExchangeSimulator W)
      → IsRunning s
      → IsRunning (cancel_order symbol id s).0
  unfolding cancel_order
  cancel_order-IsRunning symbol id s r = elim (Option-cases (lookup symbol s.books)) [
    | inl e ↦ rw (e, cancel_order) r
    | inr (b, e) ↦
        let P = IsGoodBook s.next_oid in
        let g = AllValues-lookup P symbol b s.books r.good e in
        rw (e, cancel_order)
          (record {
            enabled = r.enabled;
            good =
                AllValues-insert P symbol (cancel_in id b).0 s.books
                  (cancelled-IsGoodBook s.next_oid id b g) r.good;
          })
  ]

  pub on_tick-IsRunning :
      (start finish : Timestamp) (tick : MarketDataTick) (s : ExchangeSimulator W)
      → IsRunning s
      → IsRunning (on_tick start finish tick s)
  unfolding on_tick update_market_price
  on_tick-IsRunning start finish tick s r = record { enabled = r.enabled; good = r.good }

  pub next_order_id-IsRunning :
      (s : ExchangeSimulator W) → IsRunning s → IsRunning (next_order_id s).0
  unfolding next_order_id
  next_order_id-IsRunning s r = record {
    enabled = r.enabled;
    good =
        AllValues-map (IsGoodBook s.next_oid) (IsGoodBook (suc s.next_oid))
          (IsGoodBook-suc s.next_oid) s.books r.good;
  }
