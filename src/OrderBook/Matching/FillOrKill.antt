-- ===== src/OrderBook/Matching/FillOrKill.antt =====
-- The fill-or-kill check of src/core/order_book.cpp: the matching loops do not test the price of such
-- an order, and need not.
use orderflow_replay_engine.Prelude.{
  ℕ, ◌≡◌, sym, ap, ◌∙◌, ◌⊎◌, inl, inr, true, false, List, [], ◌∷◌, String, ◌+ℤ◌, ◌≤ℤ◌, leb_ℤ, pos,
  int_laws, arith, All, All-map, All-append, is_empty, eq→parts, subst, Bool-cases,
}
use orderflow_replay_engine.Types.{Price, Quantity, Timestamp, Side, Order, fok, remaining, Trade}
use orderflow_replay_engine.OrderBook.Levels.{PriceLevel}
use orderflow_replay_engine.OrderBook.Levels.Valid.{IsSide, sum_remaining}
use orderflow_replay_engine.OrderBook.Matching.{
  Cursor, Swept, sweep, available_qty, is_priced, is_market, is_worse,
}
use orderflow_replay_engine.OrderBook.Matching.Fills.{
  SameOrder, SameOrder-trans, IsLive, IsFill, FillResult, fill_level-FillResult,
}
use orderflow_replay_engine.OrderBook.Matching.Sweep.{
  visit, front, passed, front_done, is_empty-sum, sweep_stop, is_blocked,
}

-- A price that the order's own limit allows, whether or not its type makes the loops test it.
abbrev pub IsWithin : Order → Trade → Type 0
IsWithin o t = is_worse o.side o.price t.price ≡ false

-- One level of the count: it ends here for the price, here with enough, or goes on.
abbrev pub Counted : Order → Quantity → PriceLevel → List PriceLevel → Type 0
Counted o acc l ls =
    ((is_worse o.side o.price l.price ≡ true) × (available_qty o acc (l ∷ ls) ≡ acc))
    ⊎ ((is_worse o.side o.price l.price ≡ false)
        × (o.qty ≤ℤ acc +ℤ l.total_qty)
        × (available_qty o acc (l ∷ ls) ≡ acc +ℤ l.total_qty))
    ⊎ ((is_worse o.side o.price l.price ≡ false)
        × (available_qty o acc (l ∷ ls) ≡ available_qty o (acc +ℤ l.total_qty) ls))

pub counted :
    (o : Order) (acc : Quantity) (l : PriceLevel) (ls : List PriceLevel)
    → o.type ≡ fok
    → Counted o acc l ls
unfolding available_qty is_market
counted o acc l ls e = elim (Bool-cases (is_worse o.side o.price l.price)) [
  | inl w ↦ inl (w, simp e (rw w))
  | inr w ↦ elim (Bool-cases (leb_ℤ o.qty (acc +ℤ l.total_qty))) [
    | inl k ↦ inr (inl (w, ground arith, simp e (rw (w, k))))
    | inr k ↦ inr (inr (w, simp e (rw (w, k))))
  ]
]

-- What is shown of a run for the order `o`: it is filled, within its limit.
abbrev pub IsFilledWithin : Order → Swept → Type 0
IsFilledWithin o r = (remaining r.cursor.incoming ≤ℤ pos 0) × All (IsWithin o) r.trades

module _ (now : ℕ → Timestamp) (symbol : String) (s : Side) (o : Order) (e : o.type ≡ fok) where
  fills-IsWithin :
      (o' : Order) (p : Price) (ts : List Trade)
      → is_worse o.side o.price p ≡ false
      → All (IsFill o' p) ts
      → All (IsWithin o) ts
  fills-IsWithin o' p ts w = All-map _ _ (λ t f. ap (is_worse o.side o.price) f.price_eq ∙ w) ts

  -- A level that has as much as is wanted fills the order.
  enough :
      (c : Cursor) (l : PriceLevel)
      → FillResult now symbol s l.price c l.orders (front now symbol c l)
      → l.total_qty ≡ sum_remaining l.orders
      → remaining c.incoming ≤ℤ l.total_qty
      → remaining (front now symbol c l).cursor.incoming ≤ℤ pos 0
  enough c l f t h = elim f.ended [
    | inl k ↦ k
    | inr n ↦ omega (
      int_laws,
      eq→parts f.moved,
      eq→parts f.taken,
      eq→parts t,
      eq→parts (is_empty-sum now symbol (front now symbol c l).queue n),
    )
  ]

  stopped-IsFilledWithin :
      (c : Cursor) (ls : List PriceLevel)
      → remaining c.incoming ≤ℤ pos 0
      → IsFilledWithin o (sweep now symbol c ls)
  stopped-IsFilledWithin c ls h = rw (sweep_stop now symbol c ls h) (h, tt)

  never_blocked :
      (c : Cursor) (p : Price) → SameOrder o c.incoming → is_blocked c.incoming p ≡ false
  unfolding is_priced
  never_blocked c p m = rw (m.type_eq, e)

  passed-IsFilledWithin :
      (c : Cursor) (l : PriceLevel) (ls : List PriceLevel)
      → All (IsWithin o) (front now symbol c l).trades
      → IsFilledWithin o (sweep now symbol (front now symbol c l).cursor ls)
      → IsFilledWithin o (passed now symbol c l ls)
  passed-IsFilledWithin c l ls w h = (h.0, All-append (IsWithin o) _ _ w h.1)

  -- What a level with too little leaves wanted.
  carried :
      (c : Cursor) (l : PriceLevel) (acc : Quantity)
      → FillResult now symbol s l.price c l.orders (front now symbol c l)
      → l.total_qty ≡ sum_remaining l.orders
      → is_empty (front now symbol c l).queue ≡ true
      → acc +ℤ remaining c.incoming ≡ o.qty
      → acc +ℤ l.total_qty +ℤ remaining (front now symbol c l).cursor.incoming ≡ o.qty
  carried c l acc f t n q =
      let none = is_empty-sum now symbol (front now symbol c l).queue n in
      omega (int_laws, eq→parts f.moved, eq→parts f.taken, eq→parts t, eq→parts none, eq→parts q)

  -- The cases of a level at a price within the limit.
  abbrev Rest : Quantity → PriceLevel → List PriceLevel → Type 0
  Rest acc l ls =
      (o.qty ≤ℤ acc +ℤ l.total_qty)
      ⊎ (available_qty o acc (l ∷ ls) ≡ available_qty o (acc +ℤ l.total_qty) ls)

  -- If the count finds the wanted quantity, the loop fills the order within its limit.
  pub sweep-IsFilledWithin :
      (c : Cursor) (ls : List PriceLevel) (acc : Quantity)
      → IsSide s ls
      → IsLive c.incoming
      → SameOrder o c.incoming
      → acc +ℤ remaining c.incoming ≡ o.qty
      → o.qty ≤ℤ available_qty o acc ls
      → IsFilledWithin o (sweep now symbol c ls)
  unfolding available_qty
  sweep-IsFilledWithin c [] acc v k m q h =
      stopped-IsFilledWithin c [] (omega (int_laws, eq→parts q))
  sweep-IsFilledWithin c (l ∷ ls) acc v k m q h =
      let f =
        fill_level-FillResult now symbol s l.price c l.total_qty l.orders v.levels.0.resting
          v.levels.0.counted k in
      let t = v.levels.0.counted in
      let done = front_done now symbol s l.price c l.orders (front now symbol c l) f in
      let v' : IsSide s ls = record { levels = v.levels.1; sorted = v.sorted.1 } in
      let onward =
        sweep-IsFilledWithin (front now symbol c l).cursor ls (acc +ℤ l.total_qty) v' f.live
          (SameOrder-trans m f.same) in
      let stop = stopped-IsFilledWithin (front now symbol c l).cursor ls in
      let within = fills-IsWithin c.incoming l.price (front now symbol c l).trades in
      let go : is_worse o.side o.price l.price ≡ false
          → Rest acc l ls
          → IsFilledWithin o (sweep now symbol c (l ∷ ls)) =
        λ w rest. elim (visit now symbol c l ls done) [
          | inl (n, eq) ↦ stopped-IsFilledWithin c (l ∷ ls) n
          | inr (inl (n, b, eq)) ↦ absurd (ground (arith, never_blocked c l.price m))
          | inr (inr (inl (n, b, none, eq))) ↦ subst (IsFilledWithin o) (sym eq) (
              passed-IsFilledWithin c l ls (within w f.fills) (elim rest [
                | inl a ↦ stop (enough c l f t (omega (int_laws, eq→parts q)))
                | inr a ↦ onward (carried c l acc f t none q) (omega (int_laws, eq→parts a))
              ]))
          | inr (inr (inr (n, b, left, eq))) ↦
              subst (IsFilledWithin o) (sym eq) (done left, within w f.fills)
        ] in
      elim (counted o acc l ls e) [
        | inl (w, a) ↦ stopped-IsFilledWithin c (l ∷ ls) (omega (int_laws, eq→parts q, eq→parts a))
        | inr (inl (w, a, _)) ↦ go w (inl a)
        | inr (inr (w, a)) ↦ go w (inr a)
      ]
