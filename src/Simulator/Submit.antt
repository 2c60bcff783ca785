-- ===== src/Simulator/Submit.antt =====
-- What `submit_order` of src/core/simulator.cpp answers, and what it changes.
use orderflow_replay_engine.Prelude.{
  ◌≡◌, refl, suc, ◌⊎◌, inl, inr, Bool, true, false, List, [], String, none, some, lookup,
  lookup-insert, str_eq, if◌then◌else◌, Bool-cases, Option-cases,
}
use orderflow_replay_engine.Double.{Double}
use orderflow_replay_engine.Types.{Order}
use orderflow_replay_engine.OrderBook.Levels.{Event}
use orderflow_replay_engine.OrderBook.Book.{Book, add_order}
use orderflow_replay_engine.Risk.{check_order}
use orderflow_replay_engine.Risk.Checks.{check_order-Bookkeeping}
use orderflow_replay_engine.Simulator.{
  ExchangeSimulator, SubmitTimes, SubmitResult, submit_order, stored, apply_fills, count_traded,
  ◌+◌,
}

module _ {ℓ} {W : Type ℓ} ⦃d : Double W⦄ (times : SubmitTimes) (o : Order) (px : W)
    (s : ExchangeSimulator W) where
  abbrev Answer : Type ℓ
  Answer = ExchangeSimulator W × SubmitResult × List Event

  abbrev pub is_allowed : Bool
  is_allowed = (check_order times.rate_check times.approval o px s.risk).1.approved

  -- An order that is turned away: it is counted, and no book, position or owned order changes.
  pub record TurnedAway (x : Answer) : Type ℓ where
    pub approved_eq : x.1.approved ≡ false
    pub trades_eq : x.1.trades ≡ []
    pub events_eq : x.2 ≡ []
    pub books_eq : x.0.books ≡ s.books
    pub store_eq : x.0.order_store ≡ s.order_store
    pub positions_eq : x.0.risk.positions ≡ s.risk.positions
    pub rejects_eq : x.0.total_rejects ≡ suc s.total_rejects
    pub trades_count : x.0.total_trades ≡ s.total_trades

  -- An order that reaches its book `b`: the result has the trades of `add_order`, each of them goes
  -- to the positions, and no other book changes.
  pub record Reaches (b : Book) (x : Answer) : Type ℓ where
    pub approved_eq : x.1.approved ≡ true
    pub trades_eq : x.1.trades ≡ (add_order times.trade (stored times.stamp o) b).trades
    pub events_eq : x.2 ≡ (add_order times.trade (stored times.stamp o) b).events
    pub books_eq :
        (symbol : String)
        → lookup symbol x.0.books ≡ (
            if str_eq o.symbol symbol
            then some (add_order times.trade (stored times.stamp o) b).book
            else lookup symbol s.books)
    pub positions_eq :
        x.0.risk.positions
        ≡ (apply_fills o.id x.1.trades
            (check_order times.rate_check times.approval o px s.risk).0).positions
    pub rejects_eq : x.0.total_rejects ≡ s.total_rejects
    pub trades_count : x.0.total_trades ≡ s.total_trades + count_traded x.2

  away : is_allowed ≡ false → TurnedAway (submit_order times o px s)
  unfolding submit_order
  away e =
      let k = check_order-Bookkeeping times.rate_check times.approval o px s.risk in
      rw e (record {
        approved_eq = refl;
        trades_eq = refl;
        events_eq = refl;
        books_eq = refl;
        store_eq = refl;
        positions_eq = k.positions_eq;
        rejects_eq = refl;
        trades_count = refl;
      })

  unknown :
      is_allowed ≡ true → lookup o.symbol s.books ≡ none → TurnedAway (submit_order times o px s)
  unfolding submit_order
  unknown e n =
      let k = check_order-Bookkeeping times.rate_check times.approval o px s.risk in
      rw (e, n)
        (record {
          approved_eq = refl;
          trades_eq = refl;
          events_eq = refl;
          books_eq = refl;
          store_eq = refl;
          positions_eq = k.positions_eq;
          rejects_eq = refl;
          trades_count = refl;
        })

  reaches :
      (b : Book)
      → is_allowed ≡ true
      → lookup o.symbol s.books ≡ some b
      → Reaches b (submit_order times o px s)
  unfolding submit_order
  reaches b e n =
      rw (e, n)
        (record {
          approved_eq = refl;
          trades_eq = refl;
          events_eq = refl;
          books_eq = λ symbol.
              lookup-insert o.symbol symbol (add_order times.trade (stored times.stamp o) b).book
                s.books;
          positions_eq = refl;
          rejects_eq = refl;
          trades_count = refl;
        })

  counted : (submit_order times o px s).0.total_orders ≡ suc s.total_orders
  unfolding submit_order
  counted = elim (Bool-cases is_allowed) [
    | inl e ↦ elim (Option-cases (lookup o.symbol s.books)) [
      | inl n ↦ rw (e, n) refl
      | inr (b, n) ↦ rw (e, n) refl
    ]
    | inr e ↦ rw e refl
  ]

  -- `submit_order` counts every order. It turns away an order that the checks reject or whose symbol
  -- has no book; any other order goes to the book of its symbol, and its trades to the positions.
  pub submit_order-cases :
      ((submit_order times o px s).0.total_orders ≡ suc s.total_orders)
      × (((is_allowed ≡ false) × TurnedAway (submit_order times o px s))
          ⊎ ((is_allowed ≡ true)
              × (lookup o.symbol s.books ≡ none)
              × TurnedAway (submit_order times o px s))
          ⊎ ((b : Book) × (is_allowed ≡ true)
              × (lookup o.symbol s.books ≡ some b)
              × Reaches b (submit_order times o px s)))
  submit_order-cases = (
    counted,
    elim (Bool-cases is_allowed) [
      | inl e ↦ elim (Option-cases (lookup o.symbol s.books)) [
        | inl n ↦ inr (inl (e, n, unknown e n))
        | inr (b, n) ↦ inr (inr (b, e, n, reaches b e n))
      ]
      | inr e ↦ inl (e, away e)
    ],
  )
