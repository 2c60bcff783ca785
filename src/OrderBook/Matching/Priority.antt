-- ===== src/OrderBook/Matching/Priority.antt =====
-- The matching loops of src/core/order_book.cpp against a description with no levels: one queue, in
-- the order of price and then of time.
use mathlib.Core.List.{append-nil, map-append}
use orderflow_replay_engine.Prelude.{
  ℕ, ◌≡◌, refl, sym, ap, ◌∙◌, inl, inr, true, false, List, [], ◌∷◌, ◌++◌, map, String, ◌-ℤ◌, ◌<ℤ◌,
  ◌≤ℤ◌, pos, int_laws, arith, All, is_empty, eq_of_parts, subst,
}
use orderflow_replay_engine.Types.{Price, Quantity, Timestamp, Side, buy, sell, Order, remaining}
use orderflow_replay_engine.OrderBook.Levels.{PriceLevel}
use orderflow_replay_engine.OrderBook.Levels.Valid.{IsResting, IsSide, queue}
use orderflow_replay_engine.OrderBook.Matching.{
  Cursor, Filled, Swept, fill, make_trade, trade_of, trade_with, fill_level, sweep,
}
use orderflow_replay_engine.OrderBook.Matching.Steps.{
  remaining-fill, round, part_taken, all_taken, cursor_after,
}
use orderflow_replay_engine.OrderBook.Matching.Fills.{
  IsLive, SameOrder, SameOrder-refl, SameOrder-trans, SameOrder-fill, fill_level-FillResult,
}
use orderflow_replay_engine.OrderBook.Matching.Sweep.{
  visit, front, passed, halted, front_done, is_blocked, is_blocked-SameOrder,
}
use orderflow_replay_engine.OrderBook.Matching.Queue.{
  match_queue, fill_of, prepend, idle, refused, served, cut,
}

module _ (now : ℕ → Timestamp) (symbol : String) where
  fill_of-trade_of :
      (s : Side) (n : ℕ) (o r : Order) (q : Quantity)
      → o.side ≡ s
      → fill_of s (trade_of now symbol n o r q) ≡ record { id = r.id; price = r.price; qty = q }
  unfolding trade_of make_trade
  fill_of-trade_of buy n o r q e = ground arith
  fill_of-trade_of sell n o r q e = ground arith

  -- The state of the queue before and after the loop over a level.
  abbrev FillAgrees : Order → Cursor → List Order → List Order → Filled → Type 0
  FillAgrees o c os tail f =
      match_queue o (remaining c.incoming) (os ++ tail)
      ≡ prepend (map (fill_of o.side) f.trades)
          (match_queue o (remaining f.cursor.incoming) (f.queue ++ tail))

  part_taken-FillAgrees :
      (o : Order) (c : Cursor) (total : Quantity) (r : Order) (os tail : List Order)
      → SameOrder o c.incoming
      → is_blocked o r.price ≡ false
      → pos 0 <ℤ remaining c.incoming
      → remaining c.incoming <ℤ remaining r
      → FillAgrees o c (r ∷ os) tail (part_taken now symbol c total r os)
  unfolding trade_with
  part_taken-FillAgrees o c total r os tail m b h k =
      let q = remaining c.incoming in
      let none : remaining (fill c.incoming q) ≡ pos 0 =
        remaining-fill c.incoming q ∙ eq_of_parts _ _ (omega int_laws) in
      cut o q r (os ++ tail) b h k
      ∙ (rw (
        fill_of-trade_of o.side c.next_trade_id c.incoming r q m.side_eq,
        none,
        idle o (pos 0) (fill r q ∷ os ++ tail) (omega arith),
      ))

  all_taken-FillAgrees :
      (o : Order) (c : Cursor) (total : Quantity) (r : Order) (os tail : List Order)
      → SameOrder o c.incoming
      → is_blocked o r.price ≡ false
      → pos 0 <ℤ remaining c.incoming
      → remaining r ≤ℤ remaining c.incoming
      → FillAgrees o
          (cursor_after now symbol c r)
          os
          tail
          (fill_level now symbol (cursor_after now symbol c r) (total -ℤ remaining r) os)
      → FillAgrees o c (r ∷ os) tail (all_taken now symbol c total r os)
  unfolding trade_with
  all_taken-FillAgrees o c total r os tail m b h k ih =
      let q = remaining r in
      served o (remaining c.incoming) r (os ++ tail) b h k
      ∙ (rw
          (
            fill_of-trade_of o.side c.next_trade_id c.incoming r q m.side_eq,
            ← remaining-fill c.incoming q,
          )
          (ap (prepend (record { id = r.id; price = r.price; qty = q } ∷ [])) ih))

  fill_level-FillAgrees :
      (o : Order) (s : Side) (p : Price) (c : Cursor) (total : Quantity) (os tail : List Order)
      → SameOrder o c.incoming
      → is_blocked o p ≡ false
      → All (IsResting s p) os
      → FillAgrees o c os tail (fill_level now symbol c total os)
  unfolding fill_level
  fill_level-FillAgrees o s p c total [] tail m b k = refl
  fill_level-FillAgrees o s p c total (r ∷ os) tail m b k =
      let b' = ap (is_blocked o) k.0.price_eq ∙ b in
      elim (round now symbol c total r os) [
        | inl (h, eq) ↦ subst (FillAgrees o c (r ∷ os) tail) (sym eq) refl
        | inr (inl (h, l, eq)) ↦
            subst (FillAgrees o c (r ∷ os) tail) (sym eq)
              (part_taken-FillAgrees o c total r os tail m b' h l)
        | inr (inr (h, l, eq)) ↦ subst (FillAgrees o c (r ∷ os) tail) (sym eq) (
            all_taken-FillAgrees o c total r os tail m b' h l (
              fill_level-FillAgrees o s p (cursor_after now symbol c r) (total -ℤ remaining r) os
                tail (SameOrder-trans m (SameOrder-fill now symbol c.incoming (remaining r))) b
                k.1))
      ]

  -- The queue as the loop over the levels leaves it.
  abbrev SweepAgrees : Order → Cursor → List PriceLevel → Swept → Type 0
  SweepAgrees o c ls r = match_queue o (remaining c.incoming) (queue ls) ≡ record {
    fills = map (fill_of o.side) r.trades;
    rest = queue r.levels;
    wanted = remaining r.cursor.incoming;
  }

  blocked_queue :
      (o : Order) (q : Quantity) (s : Side) (p : Price) (os tail : List Order)
      → is_empty os ≡ false
      → All (IsResting s p) os
      → is_blocked o p ≡ true
      → match_queue o q (os ++ tail) ≡ record { fills = []; rest = os ++ tail; wanted = q }
  blocked_queue o q s p [] tail n k b = absurd (ground arith)
  blocked_queue o q s p (r ∷ os) tail n k b =
      refused o q r (os ++ tail) (ap (is_blocked o) k.0.price_eq ∙ b)

  passed-SweepAgrees :
      (o : Order) (c : Cursor) (l : PriceLevel) (ls : List PriceLevel)
      → is_empty (front now symbol c l).queue ≡ true
      → FillAgrees o c l.orders (queue ls) (front now symbol c l)
      → SweepAgrees o
          (front now symbol c l).cursor
          ls
          (sweep now symbol (front now symbol c l).cursor ls)
      → SweepAgrees o c (l ∷ ls) (passed now symbol c l ls)
  passed-SweepAgrees o c l ls n f ih =
      let none : (front now symbol c l).queue ++ queue ls ≡ queue ls =
        ap (λ xs. xs ++ queue ls) (nothing (front now symbol c l).queue n) in
      f ∙ (rw (none, ih, map-append))
    where
      nothing : (xs : List Order) → is_empty xs ≡ true → xs ≡ []
      nothing [] k = refl
      nothing (x ∷ xs) k = absurd (ground arith)

  halted-SweepAgrees :
      (o : Order) (c : Cursor) (l : PriceLevel) (ls : List PriceLevel)
      → remaining (front now symbol c l).cursor.incoming ≤ℤ pos 0
      → FillAgrees o c l.orders (queue ls) (front now symbol c l)
      → SweepAgrees o c (l ∷ ls) (halted now symbol c l ls)
  halted-SweepAgrees o c l ls h f =
      f
      ∙ (rw (
        idle o (remaining (front now symbol c l).cursor.incoming)
            ((front now symbol c l).queue ++ queue ls) h,
        append-nil,
      ))

  sweep-agrees :
      (o : Order) (s : Side) (c : Cursor) (ls : List PriceLevel)
      → SameOrder o c.incoming
      → IsSide s ls
      → IsLive c.incoming
      → SweepAgrees o c ls (sweep now symbol c ls)
  unfolding sweep match_queue
  sweep-agrees o s c [] m v k = refl
  sweep-agrees o s c (l ∷ ls) m v k =
      let f =
        fill_level-FillResult now symbol s l.price c l.total_qty l.orders v.levels.0.resting
          v.levels.0.counted k in
      let open_level = λ (b : is_blocked c.incoming l.price ≡ false).
        fill_level-FillAgrees o s l.price c l.total_qty l.orders (queue ls) m
          (sym (is_blocked-SameOrder l.price m) ∙ b) v.levels.0.resting in
      let P = SweepAgrees o c (l ∷ ls) in
      elim (visit now symbol c l ls
        (front_done now symbol s l.price c l.orders (front now symbol c l) f)) [
          | inl (h, e) ↦ subst P (sym e) (idle o (remaining c.incoming) (queue (l ∷ ls)) h)
          | inr (inl (h, b, e)) ↦ subst P (sym e) (
              blocked_queue o (remaining c.incoming) s l.price l.orders (queue ls)
                v.levels.0.nonempty v.levels.0.resting (sym (is_blocked-SameOrder l.price m) ∙ b))
          | inr (inr (inl (h, b, n, e))) ↦ subst P (sym e) (
              passed-SweepAgrees o c l ls n (open_level b) (
                sweep-agrees o s (front now symbol c l).cursor ls (SameOrder-trans m f.same)
                  (record { levels = v.levels.1; sorted = v.sorted.1 }) f.live))
          | inr (inr (inr (h, b, n, e))) ↦ subst P (sym e) (
              halted-SweepAgrees o c l ls
                (front_done now symbol s l.price c l.orders (front now symbol c l) f n)
                (open_level b))
        ]

-- For a live order and a well formed side of the book, the two nested matching loops over the
-- price levels do what a matching engine with one queue in price-time priority does: the same
-- fills in the same order, the same orders left, and the same quantity still wanted.
pub sweep-match_queue :
    (now : ℕ → Timestamp) (symbol : String) (s : Side) (c : Cursor) (ls : List PriceLevel)
    → IsSide s ls
    → IsLive c.incoming
    → let r = sweep now symbol c ls in
      match_queue c.incoming (remaining c.incoming) (queue ls) ≡ record {
        fills = map (fill_of c.incoming.side) r.trades;
        rest = queue r.levels;
        wanted = remaining r.cursor.incoming;
      }
sweep-match_queue now symbol s c ls v k =
    sweep-agrees now symbol c.incoming s c ls (SameOrder-refl c.incoming) v k
