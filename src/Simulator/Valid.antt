-- ===== src/Simulator/Valid.antt =====
-- The books of an `ExchangeSimulator` of src/core/simulator.cpp stay well formed.
use orderflow_replay_engine.Prelude.{
  ◌≡◌, inl, inr, true, some, String, pos, ◌<ℤ◌, lookup, AllValues, AllValues-lookup,
  AllValues-insert, int_laws, eq→parts, Bool-cases, Option-cases,
}
use orderflow_replay_engine.Double.{Double}
use orderflow_replay_engine.Types.{Order, remaining}
use orderflow_replay_engine.OrderBook.Book.{Book, new_book, add_order}
use orderflow_replay_engine.OrderBook.Book.Valid.{IsBook, IsUncrossed, new_book-IsBook}
use orderflow_replay_engine.OrderBook.Book.Add.{IsFresh, add_order-IsBook}
use orderflow_replay_engine.OrderBook.Book.Uncrossed.{add_order-IsUncrossed}
use orderflow_replay_engine.Risk.{check_order}
use orderflow_replay_engine.Risk.Checks.{check_order_iff}
use orderflow_replay_engine.Simulator.{
  ExchangeSimulator, add_symbol, SubmitTimes, submit_order, stored,
}

-- A book that is well formed and not crossed.
pub record IsSound (b : Book) : Type 0 where
  pub valid : IsBook b
  pub uncrossed : IsUncrossed b

module _ {ℓ} {W : Type ℓ} ⦃d : Double W⦄ where
  -- Every book is well formed and not crossed.
  abbrev pub AreSound : ExchangeSimulator W → Type 0
  AreSound s = AllValues IsSound s.books

  pub add_symbol-AreSound :
      (symbol : String) (s : ExchangeSimulator W) → AreSound s → AreSound (add_symbol symbol s)
  unfolding add_symbol new_book
  add_symbol-AreSound symbol s h = elim (Option-cases (lookup symbol s.books)) [
    | inl e ↦
        rw (e, add_symbol)
          (AllValues-insert IsSound symbol (new_book symbol) s.books
            (record { valid = new_book-IsBook symbol; uncrossed = tt }) h)
    | inr (b, e) ↦ rw (e, add_symbol) h
  ]

  -- A property of books that adding this order keeps, where something is left of it, is kept by
  -- `submit_order` for all the books.
  pub submit_order-AllValues :
      (P : Book → Type 0) (times : SubmitTimes) (o : Order) (px : W) (s : ExchangeSimulator W)
      → s.risk.limits.enabled ≡ true
      → o.filled_qty ≡ pos 0
      → ((b : Book)
          → lookup o.symbol s.books ≡ some b
          → pos 0 <ℤ remaining o
          → P (add_order times.trade (stored times.stamp o) b).book)
      → AllValues P s.books
      → AllValues P (submit_order times o px s).0.books
  unfolding submit_order
  submit_order-AllValues P times o px s on z keeps h =
      let decided = check_order_iff times.rate_check times.approval o px s.risk on in
      elim (Bool-cases (check_order times.rate_check times.approval o px s.risk).1.approved) [
        | inl e ↦ elim (Option-cases (lookup o.symbol s.books)) [
          | inl n ↦ rw (e, n) h
          | inr (b, n) ↦
              let left : pos 0 <ℤ remaining o =
                omega (int_laws, (decided.0 e).qty_pos, eq→parts z) in
              rw (e, n)
                (AllValues-insert P o.symbol (add_order times.trade (stored times.stamp o) b).book
                  s.books (keeps b n left) h)
        ]
        | inr e ↦ rw e h
      ]

  -- With the risk checks on, a submission keeps every book of the simulator well formed and
  -- uncrossed, whatever the order is, so long as nothing of it is filled yet and its id rests in no
  -- book.
  pub submit_order-AreSound :
      (times : SubmitTimes) (o : Order) (px : W) (s : ExchangeSimulator W)
      → s.risk.limits.enabled ≡ true
      → o.filled_qty ≡ pos 0
      → AllValues (IsFresh o) s.books
      → AreSound s
      → AreSound (submit_order times o px s).0
  submit_order-AreSound times o px s on z f h =
      submit_order-AllValues IsSound times o px s on z
        (λ b n left.
          let sound = AllValues-lookup IsSound o.symbol b s.books h n in
          let fresh = AllValues-lookup (IsFresh o) o.symbol b s.books f n in
          let o' = stored times.stamp o in
          record {
            valid = add_order-IsBook times.trade o' b sound.valid left fresh;
            uncrossed = add_order-IsUncrossed times.trade o' b sound.valid left sound.uncrossed;
          })
        h
