-- ===== src/OrderBook/Matching/Queue.antt =====
-- A description of matching with no levels, for the loops of src/core/order_book.cpp: one queue, in the order of price and then of time.
use orderflow_replay_engine.Prelude.{
  ◌≡◌, refl, inl, inr, true, false, ◌&&◌, not, List, [], ◌∷◌, ◌++◌, ◌-ℤ◌, ◌<ℤ◌, ◌≤ℤ◌, ltb_ℤ, leb_ℤ,
  pos, arith, Bool-cases, if◌then◌else◌, lt→ltb_ℤ, ge→ltb_ℤ,
}
use orderflow_replay_engine.Types.{
  OrderId, Price, Quantity, Side, buy, sell, Order, remaining, Trade,
}
use orderflow_replay_engine.OrderBook.Matching.{fill}
use orderflow_replay_engine.OrderBook.Matching.Sweep.{is_blocked}

-- What a resting order gives: its id, its price and the quantity.
pub record Fill : Type 0 where
  pub id : OrderId
  pub price : Price
  pub qty : Quantity

-- What is given, what is left of the queue, and what is still wanted.
pub record Match : Type 0 where
  pub fills : List Fill
  pub rest : List Order
  pub wanted : Quantity

-- The queue is served from the front while something is wanted and the limit of `o` allows.
unfoldable pub match_queue : Order → Quantity → List Order → Match
match_queue o q [] = record { fills = []; rest = []; wanted = q }
match_queue o q (r ∷ rs) =
    let more = match_queue o (q -ℤ remaining r) rs in
    if ltb_ℤ (pos 0) q && not (is_blocked o r.price)
    then if leb_ℤ (remaining r) q
      then record more {
        fills = record { id = r.id; price = r.price; qty = remaining r } ∷ more.fills;
      }
      else record {
        fills = record { id = r.id; price = r.price; qty = q } ∷ [];
        rest = fill r q ∷ rs;
        wanted = pos 0;
      }
    else record { fills = []; rest = r ∷ rs; wanted = q }

-- The resting party of a trade, seen from the order that came in on side `s`.
abbrev pub fill_of : Side → Trade → Fill
fill_of buy t = record { id = t.sell_order_id; price = t.price; qty = t.qty }
fill_of sell t = record { id = t.buy_order_id; price = t.price; qty = t.qty }

abbrev pub prepend : List Fill → Match → Match
prepend fs m = record m { fills = fs ++ m.fills }

pub idle :
    (o : Order) (q : Quantity) (rs : List Order)
    → q ≤ℤ pos 0
    → match_queue o q rs ≡ record { fills = []; rest = rs; wanted = q }
unfolding match_queue
idle o q [] h = refl
idle o q (r ∷ rs) h = rw (ge→ltb_ℤ _ _ h)

pub refused :
    (o : Order) (q : Quantity) (r : Order) (rs : List Order)
    → is_blocked o r.price ≡ true
    → match_queue o q (r ∷ rs) ≡ record { fills = []; rest = r ∷ rs; wanted = q }
unfolding match_queue
refused o q r rs b = elim (Bool-cases (ltb_ℤ (pos 0) q)) [ inl h ↦ rw (h, b) | inr h ↦ rw h ]

pub served :
    (o : Order) (q : Quantity) (r : Order) (rs : List Order)
    → is_blocked o r.price ≡ false
    → pos 0 <ℤ q
    → remaining r ≤ℤ q
    → match_queue o q (r ∷ rs)
      ≡ prepend
          (record { id = r.id; price = r.price; qty = remaining r } ∷ [])
          (match_queue o (q -ℤ remaining r) rs)
unfolding match_queue
served o q r rs b h k =
    let k' : leb_ℤ (remaining r) q ≡ true = ground arith in rw (lt→ltb_ℤ _ _ h, b, k')

pub cut :
    (o : Order) (q : Quantity) (r : Order) (rs : List Order)
    → is_blocked o r.price ≡ false
    → pos 0 <ℤ q
    → q <ℤ remaining r
    → match_queue o q (r ∷ rs) ≡ record {
      fills = record { id = r.id; price = r.price; qty = q } ∷ [];
      rest = fill r q ∷ rs;
      wanted = pos 0;
    }
unfolding match_queue
cut o q r rs b h k =
    let k' : leb_ℤ (remaining r) q ≡ false = ground arith in rw (lt→ltb_ℤ _ _ h, b, k')
