-- ===== src/OrderBook/Matching/Parties.antt =====
-- The parties of the trades that the matching loops of src/core/order_book.cpp make.
use orderflow_replay_engine.Prelude.{
  ℕ, ◌≡◌, ◌≢◌, min_ℤ, refl, inl, inr, true, false, ◌&&◌, not, List, [], ◌∷◌, map, ltb_ℤ, leb_ℤ, pos,
  arith, All, All-append, Bool-cases, is_empty, String, ◌-ℤ◌, suc,
}
use orderflow_replay_engine.Types.{
  OrderId, Quantity, Timestamp, Side, buy, sell, Order, remaining, Trade, is_done,
}
use orderflow_replay_engine.OrderBook.Levels.{PriceLevel, erase_handle}
use orderflow_replay_engine.OrderBook.Levels.Ids.{count_id}
use orderflow_replay_engine.OrderBook.Matching.{
  Cursor, fill, trade_with, trade_of, fill_level, sweep,
}
use orderflow_replay_engine.OrderBook.Matching.Sweep.{is_blocked}
use orderflow_replay_engine.OrderBook.Matching.Queue.{match_queue}

-- Nothing is taken from an order with an id that none in the queue has.
pub match_queue-others :
    (o : Order) (id : OrderId) (q : Quantity) (rs : List Order)
    → count_id id rs ≡ 0
    → All (λ f. f.id ≢ id) (match_queue o q rs).fills
unfolding match_queue count_id
match_queue-others o id q [] h = tt
match_queue-others o id q (r ∷ rs) h =
    let n : r.id ≢ id = λ e. ground (arith, h, e) in
    let k : count_id id rs ≡ 0 = ground (arith, h) in
    let later = match_queue-others o id (q -ℤ remaining r) rs k in
    elim (Bool-cases (ltb_ℤ (pos 0) q && not (is_blocked o r.price))) [
      | inr a ↦ rw a tt
      | inl a ↦ elim (Bool-cases (leb_ℤ (remaining r) q)) [
        | inl b ↦ rw (a, b) (n, later)
        | inr b ↦ rw (a, b) (n, tt)
      ]
    ]

pub All-unmap {ℓ κ μ} :
    {A : Type ℓ} {B : Type κ} (P : B → Type μ) (f : A → B) (xs : List A)
    → All P (map f xs)
    → All (λ x. P (f x)) xs
All-unmap P f [] h = tt
All-unmap P f (x ∷ xs) h = (h.0, All-unmap P f xs h.1)

module _ (now : ℕ → Timestamp) (symbol : String) where
  abbrev pub IsIn : Trade → Type 0
  IsIn t = t.symbol ≡ symbol

  trade_of-IsIn :
      (s : Side) (n : ℕ) (o r : Order) (q : Quantity)
      → o.side ≡ s
      → IsIn (trade_of now symbol n o r q)
  unfolding trade_of
  trade_of-IsIn buy n o r q e = rw e refl
  trade_of-IsIn sell n o r q e = rw e refl

  fill_level-IsIn :
      (c : Cursor) (total : Quantity) (rs : List Order)
      → All IsIn (fill_level now symbol c total rs).trades
  unfolding fill_level trade_with
  fill_level-IsIn c total [] = tt
  fill_level-IsIn c total (r ∷ rs) =
      let q = min_ℤ (remaining c.incoming) (remaining r) in
      let one = trade_of-IsIn c.incoming.side c.next_trade_id c.incoming r q refl in
      let later =
        fill_level-IsIn
          (record {
            incoming = fill c.incoming q;
            next_trade_id = suc c.next_trade_id;
            orders = erase_handle r.id c.orders;
          })
          (total -ℤ q) rs in
      elim (Bool-cases (ltb_ℤ (pos 0) (remaining c.incoming))) [
        | inr a ↦ rw a tt
        | inl a ↦ elim (Bool-cases (is_done (fill r q))) [
          | inl b ↦ rw (a, b) (one, later)
          | inr b ↦ rw (a, b) (one, tt)
        ]
      ]

  left-IsIn :
      (c : Cursor) (l : PriceLevel) (ls : List PriceLevel) (s : Side)
      → c.incoming.side ≡ s
      → ltb_ℤ (pos 0) (remaining c.incoming) ≡ true
      → is_blocked c.incoming l.price ≡ false
      → is_empty (fill_level now symbol c l.total_qty l.orders).queue ≡ false
      → All IsIn (sweep now symbol (fill_level now symbol c l.total_qty l.orders).cursor ls).trades
      → All IsIn (sweep now symbol c (l ∷ ls)).trades
  unfolding sweep
  left-IsIn c l ls buy e a b n h =
      rw (a, b, n, e) (All-append IsIn _ _ (fill_level-IsIn c l.total_qty l.orders) h)
  left-IsIn c l ls sell e a b n h = rw (a, b, n, e) (fill_level-IsIn c l.total_qty l.orders)

  -- Every trade has the symbol of the book.
  pub sweep-IsIn : (c : Cursor) (ls : List PriceLevel) → All IsIn (sweep now symbol c ls).trades
  unfolding sweep
  sweep-IsIn c [] = tt
  sweep-IsIn c (l ∷ ls) =
      let f = fill_level now symbol c l.total_qty l.orders in
      let later = sweep-IsIn f.cursor ls in
      elim (Bool-cases (ltb_ℤ (pos 0) (remaining c.incoming))) [
        | inr a ↦ rw a tt
        | inl a ↦ elim (Bool-cases (is_blocked c.incoming l.price)) [
          | inl b ↦ rw (a, b) tt
          | inr b ↦ elim (Bool-cases (is_empty f.queue)) [
            | inl n ↦
                rw (a, b, n) (All-append IsIn _ _ (fill_level-IsIn c l.total_qty l.orders) later)
            | inr n ↦ left-IsIn c l ls c.incoming.side refl a b n later
          ]
        ]
      ]
