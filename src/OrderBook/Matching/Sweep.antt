-- ===== src/OrderBook/Matching/Sweep.antt =====
-- What the matching loop over the levels in src/core/order_book.cpp does to a side of the book.
use mathlib.Core.List.{append-nil}
use orderflow_replay_engine.Prelude.{
  ℕ, ◌≡◌, refl, sym, ap, ◌∙◌, ◌⊎◌, inl, inr, Bool, true, false, ◌&&◌, List, [], ◌∷◌, ◌++◌, String,
  ◌+ℤ◌, ◌<ℤ◌, ◌≤ℤ◌, ltb_ℤ, pos, int_laws, arith, All, All-map, All-append, is_empty, eq→parts,
  subst, Bool-cases, ltb_ℤ→lt, ltb_ℤ→ge, ge→ltb_ℤ,
}
use orderflow_replay_engine.Types.{Price, Timestamp, Side, buy, sell, Order, remaining, Trade}
use orderflow_replay_engine.OrderBook.Levels.{PriceLevel}
use orderflow_replay_engine.OrderBook.Levels.Valid.{
  IsSide, sum_remaining, sum_remaining-append, queue,
}
use orderflow_replay_engine.OrderBook.Matching.{
  Cursor, Filled, Swept, fill_level, sweep, is_priced, is_worse,
}
use orderflow_replay_engine.OrderBook.Matching.Fills.{
  sum_qty, sum_qty-append, SameOrder, SameOrder-refl, SameOrder-trans, IsLive, IsFill,
  IsFill-SameOrder, FillResult, fill_level-FillResult,
}

-- The price test by which the loops stop at a level.
abbrev pub is_blocked : Order → Price → Bool
is_blocked o p = is_priced o.type && is_worse o.side o.price p

abbrev pub FrontBlocked : Order → List PriceLevel → Type 0
FrontBlocked o [] = Unit {0}
FrontBlocked o (l ∷ ls) = is_blocked o l.price ≡ true

pub is_blocked-SameOrder :
    {o o' : Order} (p : Price) → SameOrder o o' → is_blocked o' p ≡ is_blocked o p
is_blocked-SameOrder p e = rw (e.type_eq, e.side_eq, e.price_eq)

pub FrontBlocked-SameOrder :
    {o o' : Order} (ls : List PriceLevel) → SameOrder o o' → FrontBlocked o' ls → FrontBlocked o ls
FrontBlocked-SameOrder [] e h = tt
FrontBlocked-SameOrder (l ∷ ls) e h = sym (is_blocked-SameOrder l.price e) ∙ h

-- A trade of the order `o` at a price that its limit allows.
pub record IsTradeOf (o : Order) (t : Trade) : Type 0 where
  pub fills : IsFill o t.price t
  pub allowed : is_blocked o t.price ≡ false

pub IsTradeOf-SameOrder :
    {o o' : Order} {t : Trade} → SameOrder o o' → IsTradeOf o' t → IsTradeOf o t
IsTradeOf-SameOrder {t} e f = record {
  fills = IsFill-SameOrder e f.fills;
  allowed = sym (is_blocked-SameOrder t.price e) ∙ f.allowed;
}

IsFill-IsTradeOf :
    {o : Order} {p : Price} {t : Trade} → is_blocked o p ≡ false → IsFill o p t → IsTradeOf o t
IsFill-IsTradeOf {o} {p} {t} b f = record {
  fills = subst (λ x. IsFill o x t) (sym f.price_eq) f;
  allowed = ap (is_blocked o) f.price_eq ∙ b;
}

module _ (now : ℕ → Timestamp) (symbol : String) where
  abbrev pub stopped : Cursor → List PriceLevel → Swept
  stopped c ls = record { cursor = c; levels = ls; trades = []; events = [] }

  abbrev pub front : Cursor → PriceLevel → Filled
  front c l = fill_level now symbol c l.total_qty l.orders

  abbrev pub left_over : Cursor → PriceLevel → PriceLevel
  left_over c l = record l { orders = (front c l).queue; total_qty = (front c l).total_qty }

  -- The level is used up, and the loop goes on.
  abbrev pub passed : Cursor → PriceLevel → List PriceLevel → Swept
  passed c l ls =
      let rest = sweep now symbol (front c l).cursor ls in
      record rest {
        trades = (front c l).trades ++ rest.trades;
        events = (front c l).events ++ rest.events;
      }

  -- The level is left with orders, and the loop is over.
  abbrev pub halted : Cursor → PriceLevel → List PriceLevel → Swept
  halted c l ls = record {
    cursor = (front c l).cursor;
    levels = left_over c l ∷ ls;
    trades = (front c l).trades;
    events = (front c l).events;
  }

  pub sweep_stop :
      (c : Cursor) (ls : List PriceLevel)
      → remaining c.incoming ≤ℤ pos 0
      → sweep now symbol c ls ≡ stopped c ls
  unfolding sweep
  sweep_stop c [] h = refl
  sweep_stop c (l ∷ ls) h = rw (ge→ltb_ℤ _ _ h)

  abbrev pub Visit : Cursor → PriceLevel → List PriceLevel → Type 0
  Visit c l ls =
      ((remaining c.incoming ≤ℤ pos 0) × (sweep now symbol c (l ∷ ls) ≡ stopped c (l ∷ ls)))
      ⊎ ((pos 0 <ℤ remaining c.incoming)
          × (is_blocked c.incoming l.price ≡ true)
          × (sweep now symbol c (l ∷ ls) ≡ stopped c (l ∷ ls)))
      ⊎ ((pos 0 <ℤ remaining c.incoming)
          × (is_blocked c.incoming l.price ≡ false)
          × (is_empty (front c l).queue ≡ true)
          × (sweep now symbol c (l ∷ ls) ≡ passed c l ls))
      ⊎ ((pos 0 <ℤ remaining c.incoming)
          × (is_blocked c.incoming l.price ≡ false)
          × (is_empty (front c l).queue ≡ false)
          × (sweep now symbol c (l ∷ ls) ≡ halted c l ls))

  sweep-halted :
      (c : Cursor) (l : PriceLevel) (ls : List PriceLevel) (s : Side)
      → c.incoming.side ≡ s
      → ltb_ℤ (pos 0) (remaining c.incoming) ≡ true
      → is_blocked c.incoming l.price ≡ false
      → is_empty (front c l).queue ≡ false
      → remaining (front c l).cursor.incoming ≤ℤ pos 0
      → sweep now symbol c (l ∷ ls) ≡ halted c l ls
  unfolding sweep
  sweep-halted c l ls buy e r b n h =
      rw (r, b, n) (simp (e, sweep_stop (front c l).cursor ls h, append-nil))
  sweep-halted c l ls sell e r b n h = rw (r, b, n) (simp e)

  sweep-open :
      (c : Cursor) (l : PriceLevel) (ls : List PriceLevel)
      → ltb_ℤ (pos 0) (remaining c.incoming) ≡ true
      → is_blocked c.incoming l.price ≡ false
      → is_empty (front c l).queue ≡ true
      → sweep now symbol c (l ∷ ls) ≡ passed c l ls
  unfolding sweep
  sweep-open c l ls r b n = rw (r, b, n)

  sweep-blocked :
      (c : Cursor) (l : PriceLevel) (ls : List PriceLevel)
      → ltb_ℤ (pos 0) (remaining c.incoming) ≡ true
      → is_blocked c.incoming l.price ≡ true
      → sweep now symbol c (l ∷ ls) ≡ stopped c (l ∷ ls)
  unfolding sweep
  sweep-blocked c l ls r b = rw (r, b)

  pub visit :
      (c : Cursor) (l : PriceLevel) (ls : List PriceLevel)
      → (is_empty (front c l).queue ≡ false → remaining (front c l).cursor.incoming ≤ℤ pos 0)
      → Visit c l ls
  visit c l ls k = elim (Bool-cases (ltb_ℤ (pos 0) (remaining c.incoming))) [
    | inr r ↦ inl (ltb_ℤ→ge _ _ r, sweep_stop c (l ∷ ls) (ltb_ℤ→ge _ _ r))
    | inl r ↦ elim (Bool-cases (is_blocked c.incoming l.price)) [
      | inl b ↦ inr (inl (ltb_ℤ→lt _ _ r, b, sweep-blocked c l ls r b))
      | inr b ↦ elim (Bool-cases (is_empty (front c l).queue)) [
        | inl n ↦ inr (inr (inl (ltb_ℤ→lt _ _ r, b, n, sweep-open c l ls r b n)))
        | inr n ↦
            inr (
              inr
                (inr (ltb_ℤ→lt _ _ r, b, n, sweep-halted c l ls c.incoming.side refl r b n (k n))))
      ]
    ]
  ]

  -- What a run of the loop over the levels `ls` of side `s` has done when it ends.
  pub record SweepResult (s : Side) (c : Cursor) (ls : List PriceLevel) (r : Swept) : Type 0 where
    pub side : IsSide s r.levels
    pub moved : sum_remaining (queue ls) ≡ sum_remaining (queue r.levels) +ℤ sum_qty r.trades
    pub taken : remaining c.incoming ≡ remaining r.cursor.incoming +ℤ sum_qty r.trades
    pub bounded : pos 0 ≤ℤ remaining c.incoming → pos 0 ≤ℤ remaining r.cursor.incoming
    pub ended : (remaining r.cursor.incoming ≤ℤ pos 0) ⊎ FrontBlocked r.cursor.incoming r.levels
    pub live : IsLive r.cursor.incoming
    pub same : SameOrder c.incoming r.cursor.incoming
    pub trades : All (IsTradeOf c.incoming) r.trades

  stopped-SweepResult :
      (s : Side) (c : Cursor) (ls : List PriceLevel)
      → IsSide s ls
      → IsLive c.incoming
      → (remaining c.incoming ≤ℤ pos 0) ⊎ FrontBlocked c.incoming ls
      → SweepResult s c ls (stopped c ls)
  stopped-SweepResult s c ls v k e = record {
    side = v;
    moved = omega int_laws;
    taken = omega int_laws;
    bounded = λ h. h;
    ended = e;
    live = k;
    same = SameOrder-refl c.incoming;
    trades = tt;
  }

  pub is_empty-sum : (xs : List Order) → is_empty xs ≡ true → sum_remaining xs ≡ pos 0
  is_empty-sum [] e = refl
  is_empty-sum (x ∷ xs) e = absurd (ground arith)

  sum-queue :
      (l : PriceLevel) (ls : List PriceLevel)
      → sum_remaining (queue (l ∷ ls)) ≡ sum_remaining l.orders +ℤ sum_remaining (queue ls)
  sum-queue l ls = sum_remaining-append l.orders (queue ls)

  passed-SweepResult :
      (s : Side) (c : Cursor) (l : PriceLevel) (ls : List PriceLevel)
      → is_blocked c.incoming l.price ≡ false
      → is_empty (front c l).queue ≡ true
      → FillResult now symbol s l.price c l.orders (front c l)
      → SweepResult s (front c l).cursor ls (sweep now symbol (front c l).cursor ls)
      → SweepResult s c (l ∷ ls) (passed c l ls)
  passed-SweepResult s c l ls b n f r =
      let none_left : sum_remaining (front c l).queue ≡ pos 0 = is_empty-sum (front c l).queue n in
      let split =
        sum_qty-append (front c l).trades (sweep now symbol (front c l).cursor ls).trades in
      record {
        side = r.side;
        moved = rw (sum-queue l ls, f.moved, none_left, r.moved, split) (omega int_laws);
        taken = rw split (omega (int_laws, eq→parts f.taken, eq→parts r.taken));
        bounded = λ h. r.bounded (f.bounded h);
        ended = r.ended;
        live = r.live;
        same = SameOrder-trans f.same r.same;
        trades =
            All-append (IsTradeOf c.incoming) _ _ (All-map _ _ (λ x. IsFill-IsTradeOf b) _ f.fills)
              (All-map _ _ (λ x. IsTradeOf-SameOrder f.same) _ r.trades);
      }

  halted-SweepResult :
      (s : Side) (c : Cursor) (l : PriceLevel) (ls : List PriceLevel)
      → IsSide s (l ∷ ls)
      → is_blocked c.incoming l.price ≡ false
      → is_empty (front c l).queue ≡ false
      → remaining (front c l).cursor.incoming ≤ℤ pos 0
      → FillResult now symbol s l.price c l.orders (front c l)
      → SweepResult s c (l ∷ ls) (halted c l ls)
  halted-SweepResult s c l ls v b n h f = record {
    side = record {
      levels = (record { nonempty = n; counted = f.counted; resting = f.kept }, v.levels.1);
      sorted = v.sorted;
    };
    moved =
        rw (sum-queue l ls, sum_remaining-append (front c l).queue (queue ls), f.moved)
          (omega int_laws);
    taken = f.taken;
    bounded = f.bounded;
    ended = inl h;
    live = f.live;
    same = f.same;
    trades = All-map _ _ (λ x. IsFill-IsTradeOf b) _ f.fills;
  }

  pub front_done :
      (s : Side) (p : Price) (c : Cursor) (os : List Order) (f : Filled)
      → FillResult now symbol s p c os f
      → is_empty f.queue ≡ false
      → remaining f.cursor.incoming ≤ℤ pos 0
  front_done s p c os f r n = elim r.ended [ inl h ↦ h | inr e ↦ absurd (ground arith) ]

  -- The loop over the levels keeps the side well formed, moves to the incoming order what it takes
  -- from the side, trades within the limit, and ends with the order filled or nothing left to take.
  pub sweep-SweepResult :
      (s : Side) (c : Cursor) (ls : List PriceLevel)
      → IsSide s ls
      → IsLive c.incoming
      → SweepResult s c ls (sweep now symbol c ls)
  unfolding sweep
  sweep-SweepResult s c [] v k = stopped-SweepResult s c [] v k (inr tt)
  sweep-SweepResult s c (l ∷ ls) v k =
      let f =
        fill_level-FillResult now symbol s l.price c l.total_qty l.orders v.levels.0.resting
          v.levels.0.counted k in
      let done = front_done s l.price c l.orders (front c l) f in
      let P = SweepResult s c (l ∷ ls) in
      elim (visit c l ls done) [
        | inl (h, e) ↦ subst P (sym e) (stopped-SweepResult s c (l ∷ ls) v k (inl h))
        | inr (inl (h, b, e)) ↦ subst P (sym e) (stopped-SweepResult s c (l ∷ ls) v k (inr b))
        | inr (inr (inl (h, b, n, e))) ↦ subst P (sym e) (
            passed-SweepResult s c l ls b n f (
              sweep-SweepResult s (front c l).cursor ls
                (record { levels = v.levels.1; sorted = v.sorted.1 }) f.live))
        | inr (inr (inr (h, b, n, e))) ↦
            subst P (sym e) (halted-SweepResult s c l ls v b n (done n) f)
      ]
