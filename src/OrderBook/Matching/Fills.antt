-- ===== src/OrderBook/Matching/Fills.antt =====
-- What the matching loop of one level in src/core/order_book.cpp does to the quantities.
use orderflow_replay_engine.Prelude.{
  ℕ, ◌≡◌, refl, sym, ap, ◌∙◌, ◌⊎◌, inl, inr, true, List, [], ◌∷◌, ◌++◌, String, ◌+ℤ◌, ◌-ℤ◌, ◌<ℤ◌,
  ◌≤ℤ◌, eqb_ℤ, pos, int_laws, arith, All, All-map, is_empty, eq→parts, subst,
}
use orderflow_replay_engine.Types.{
  Price, Quantity, OrderId, Timestamp, Side, buy, sell, Order, remaining, is_done, Trade,
}
use orderflow_replay_engine.OrderBook.Levels.Valid.{IsResting, sum_remaining}
use orderflow_replay_engine.OrderBook.Matching.{
  Cursor, Filled, fill, trade_of, trade_with, fill_level,
}
use orderflow_replay_engine.OrderBook.Matching.Steps.{
  remaining-fill, is_done-fill, fill-partly, round, part_taken, all_taken, cursor_after, untouched,
}

abbrev pub sum_qty : List Trade → Quantity
sum_qty [] = pos 0
sum_qty (t ∷ ts) = t.qty +ℤ sum_qty ts

pub sum_qty-append : (xs ys : List Trade) → sum_qty (xs ++ ys) ≡ sum_qty xs +ℤ sum_qty ys
sum_qty-append [] ys = omega int_laws
sum_qty-append (x ∷ xs) ys = rw (sum_qty-append xs ys) (omega int_laws)

-- What matching leaves alone in an order.
pub record SameOrder (o o' : Order) : Type 0 where
  pub id_eq : o'.id ≡ o.id
  pub side_eq : o'.side ≡ o.side
  pub type_eq : o'.type ≡ o.type
  pub price_eq : o'.price ≡ o.price
  pub qty_eq : o'.qty ≡ o.qty

pub SameOrder-refl : (o : Order) → SameOrder o o
SameOrder-refl o = record {
  id_eq = refl;
  side_eq = refl;
  type_eq = refl;
  price_eq = refl;
  qty_eq = refl;
}

pub SameOrder-trans : {o p q : Order} → SameOrder o p → SameOrder p q → SameOrder o q
SameOrder-trans a b = record {
  id_eq = b.id_eq ∙ a.id_eq;
  side_eq = b.side_eq ∙ a.side_eq;
  type_eq = b.type_eq ∙ a.type_eq;
  price_eq = b.price_eq ∙ a.price_eq;
  qty_eq = b.qty_eq ∙ a.qty_eq;
}

-- The status of an order that is being matched says whether something is left of it.
abbrev pub IsLive : Order → Type 0
IsLive o = is_done o ≡ eqb_ℤ (remaining o) (pos 0)

-- The id of the order of a trade that stands on side `s`.
abbrev pub party : Side → Trade → OrderId
party buy t = t.buy_order_id
party sell t = t.sell_order_id

-- A trade of the order `o`, at the price `p`.
pub record IsFill (o : Order) (p : Price) (t : Trade) : Type 0 where
  pub price_eq : t.price ≡ p
  pub some_qty : pos 0 <ℤ t.qty
  pub party_eq : party o.side t ≡ o.id

pub IsFill-SameOrder :
    {o o' : Order} {p : Price} {t : Trade} → SameOrder o o' → IsFill o' p t → IsFill o p t
IsFill-SameOrder {t} e f = record {
  price_eq = f.price_eq;
  some_qty = f.some_qty;
  party_eq = ap (λ s. party s t) (sym e.side_eq) ∙ f.party_eq ∙ e.id_eq;
}

module _ (now : ℕ → Timestamp) (symbol : String) where
  pub SameOrder-fill : (o : Order) (q : Quantity) → SameOrder o (fill o q)
  unfolding fill
  SameOrder-fill o q = record {
    id_eq = refl;
    side_eq = refl;
    type_eq = refl;
    price_eq = refl;
    qty_eq = refl;
  }

  trade_of-IsFill :
      (n : ℕ) (o r : Order) (q : Quantity) (s : Side)
      → o.side ≡ s
      → pos 0 <ℤ q
      → IsFill o r.price (trade_of now symbol n o r q)
  unfolding trade_of
  trade_of-IsFill n o r q buy e h = record { price_eq = rw e; some_qty = rw e h; party_eq = rw e }
  trade_of-IsFill n o r q sell e h = record { price_eq = rw e; some_qty = rw e h; party_eq = rw e }

  pub trade_of-qty : (n : ℕ) (o r : Order) (q : Quantity) → (trade_of now symbol n o r q).qty ≡ q
  unfolding trade_of
  trade_of-qty n o r q = ground arith

  trade_of-fills :
      (p : Price) (n : ℕ) (o r : Order) (q : Quantity)
      → r.price ≡ p
      → pos 0 <ℤ q
      → IsFill o p (trade_of now symbol n o r q)
  trade_of-fills p n o r q e h =
      subst (λ x. IsFill o x (trade_of now symbol n o r q)) e
        (trade_of-IsFill n o r q o.side refl h)

  -- What a run of the loop over the orders `os` of a level at price `p` has done when it ends.
  pub record FillResult (s : Side) (p : Price) (c : Cursor) (os : List Order) (f : Filled)
      : Type 0 where
    pub kept : All (IsResting s p) f.queue
    pub counted : f.total_qty ≡ sum_remaining f.queue
    pub moved : sum_remaining os ≡ sum_remaining f.queue +ℤ sum_qty f.trades
    pub taken : remaining c.incoming ≡ remaining f.cursor.incoming +ℤ sum_qty f.trades
    pub bounded : pos 0 ≤ℤ remaining c.incoming → pos 0 ≤ℤ remaining f.cursor.incoming
    pub ended : (remaining f.cursor.incoming ≤ℤ pos 0) ⊎ (is_empty f.queue ≡ true)
    pub live : IsLive f.cursor.incoming
    pub same : SameOrder c.incoming f.cursor.incoming
    pub fills : All (IsFill c.incoming p) f.trades

  untouched-FillResult :
      (s : Side) (p : Price) (c : Cursor) (total : Quantity) (os : List Order)
      → All (IsResting s p) os
      → total ≡ sum_remaining os
      → IsLive c.incoming
      → (remaining c.incoming ≤ℤ pos 0) ⊎ (is_empty os ≡ true)
      → FillResult s p c os (untouched now symbol c total os)
  untouched-FillResult s p c total os k e v d = record {
    kept = k;
    counted = e;
    moved = omega int_laws;
    taken = omega int_laws;
    bounded = λ h. h;
    ended = d;
    live = v;
    same = SameOrder-refl c.incoming;
    fills = tt;
  }

  fill-IsResting :
      (s : Side) (p : Price) (o : Order) (q : Quantity)
      → IsResting s p o
      → q <ℤ remaining o
      → IsResting s p (fill o q)
  unfolding fill
  fill-IsResting s p o q r h = record {
    side_eq = r.side_eq;
    price_eq = r.price_eq;
    some_left = omega (int_laws, eq→parts (remaining-fill o q));
    not_done = fill-partly o q h;
  }

  pub IsLive-fill : (o : Order) (q : Quantity) → IsLive (fill o q)
  IsLive-fill o q = rw (remaining-fill o q) (is_done-fill o q)

  part_taken-FillResult :
      (s : Side) (p : Price) (c : Cursor) (total : Quantity) (r : Order) (os : List Order)
      → All (IsResting s p) (r ∷ os)
      → total ≡ sum_remaining (r ∷ os)
      → pos 0 <ℤ remaining c.incoming
      → remaining c.incoming <ℤ remaining r
      → FillResult s p c (r ∷ os) (part_taken now symbol c total r os)
  unfolding trade_with
  part_taken-FillResult s p c total r os k e h l =
      let q = remaining c.incoming in
      let t = trade_of-qty c.next_trade_id c.incoming r q in
      let r' = remaining-fill r q in
      let o' = remaining-fill c.incoming q in
      record {
        kept = (fill-IsResting s p r q k.0 l, k.1);
        counted = rw (r', e) (omega int_laws);
        moved = rw (r', t) (omega int_laws);
        taken = rw (o', t) (omega int_laws);
        bounded = λ _. omega (int_laws, eq→parts o');
        ended = inl (omega (int_laws, eq→parts o'));
        live = IsLive-fill c.incoming q;
        same = SameOrder-fill c.incoming q;
        fills = (trade_of-fills p c.next_trade_id c.incoming r q k.0.price_eq h, tt);
      }

  all_taken-FillResult :
      (s : Side) (p : Price) (c : Cursor) (total : Quantity) (r : Order) (os : List Order)
      → All (IsResting s p) (r ∷ os)
      → pos 0 <ℤ remaining c.incoming
      → remaining r ≤ℤ remaining c.incoming
      → FillResult s p
          (cursor_after now symbol c r)
          os
          (fill_level now symbol (cursor_after now symbol c r) (total -ℤ remaining r) os)
      → FillResult s p c (r ∷ os) (all_taken now symbol c total r os)
  unfolding trade_with
  all_taken-FillResult s p c total r os k h l ih =
      let q = remaining r in
      let t = trade_of-qty c.next_trade_id c.incoming r q in
      let o' = remaining-fill c.incoming q in
      let same' = SameOrder-fill c.incoming q in
      record {
        kept = ih.kept;
        counted = ih.counted;
        moved = rw (ih.moved, t) (omega int_laws);
        taken = rw t (omega (int_laws, eq→parts ih.taken, eq→parts o'));
        bounded = λ _. ih.bounded (omega (int_laws, eq→parts o'));
        ended = ih.ended;
        live = ih.live;
        same = SameOrder-trans same' ih.same;
        fills = (
          trade_of-fills p c.next_trade_id c.incoming r q k.0.price_eq k.0.some_left,
          All-map _ _ (λ x. IsFill-SameOrder same') _ ih.fills,
        );
      }

  -- The loop over the orders of a level fills them from the front, keeps the level's count, and ends
  -- with the incoming order filled or the level empty.
  pub fill_level-FillResult :
      (s : Side) (p : Price) (c : Cursor) (total : Quantity) (os : List Order)
      → All (IsResting s p) os
      → total ≡ sum_remaining os
      → IsLive c.incoming
      → FillResult s p c os (fill_level now symbol c total os)
  unfolding fill_level
  fill_level-FillResult s p c total [] k e v = untouched-FillResult s p c total [] k e v (inr refl)
  fill_level-FillResult s p c total (r ∷ os) k e v = elim (round now symbol c total r os) [
    | inl (h, eq) ↦
        subst (FillResult s p c (r ∷ os)) (sym eq)
          (untouched-FillResult s p c total (r ∷ os) k e v (inl h))
    | inr (inl (h, l, eq)) ↦
        subst (FillResult s p c (r ∷ os)) (sym eq) (part_taken-FillResult s p c total r os k e h l)
    | inr (inr (h, l, eq)) ↦ subst (FillResult s p c (r ∷ os)) (sym eq) (
        all_taken-FillResult s p c total r os k h l (
          fill_level-FillResult s p (cursor_after now symbol c r) (total -ℤ remaining r) os k.1
            (rw e (omega int_laws)) (IsLive-fill c.incoming (remaining r))))
  ]
