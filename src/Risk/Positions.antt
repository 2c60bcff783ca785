-- ===== src/Risk/Positions.antt =====
-- What `on_fill` of src/risk/risk_manager.cpp does to the positions.
use orderflow_replay_engine.Prelude.{
  ◌≡◌, refl, sym, subst, ap, ◌∙◌, arith, ◌⊎◌, ◌<ℤ◌, ◌≤ℤ◌, true, false, some, none, String, pos,
  negsuc, ◌+ℤ◌, ltb_ℤ, eqb_ℤ, eqb_ℤ_refl, abs_ℤ, if◌then◌else◌, lookup, lookup-insert, str_eq,
  str_eq_refl, Bool-cases, inl, inr,
}
use orderflow_replay_engine.Double.{Double, nought}
use orderflow_replay_engine.Types.{Quantity, Side, buy, sell, Position}
use orderflow_replay_engine.Risk.Sides.{
  toward, net_after, signed_qty-net_after, adding-toward, closing-toward, adding-open,
  open_toward-above, open_toward-below, flat-toward, toward_cases, closing-part, closing-all,
  opening-none, opening-some, against-long,
}
use orderflow_replay_engine.Risk.{
  RiskManager, on_fill, get_position, signed_qty, is_adding, fill_position, add_fill, close_fill,
  mark, price_or, empty_position,
}

module _ {ℓ} {W : Type ℓ} ⦃d : Double W⦄ where
  -- The profit of closing `qty` at `fill_price`: a sale closes what was bought, and a purchase what was
  -- sold short.
  abbrev pub profit : Side → Quantity → W → W → W
  profit buy qty fill_price avg =
      d.mul (d.mul (d.sub fill_price avg) (d.of_int qty)) (d.lit (negsuc 0) 1)
  profit sell qty fill_price avg =
      d.mul (d.mul (d.sub fill_price avg) (d.of_int qty)) (d.lit (pos 1) 1)

  -- The average cost of a position that a fill makes larger.
  abbrev pub average_cost : Quantity → W → Position W → Quantity → W
  average_cost qty fill_price p net =
      d.div
        (d.add (d.mul p.avg_price (d.abs (d.of_int p.net_qty))) (d.mul fill_price (d.of_int qty)))
        (d.abs (d.of_int net))

  -- The fill opens the position or makes it larger.
  pub record Extended (side : Side) (qty : Quantity) (fill_price : W) (p q : Position W)
      : Type ℓ where
    pub was : pos 0 ≤ℤ toward side p.net_qty
    pub profit_eq : q.realized_pnl ≡ p.realized_pnl
    pub avg_eq : q.avg_price ≡ average_cost qty fill_price p q.net_qty

  -- The fill closes a part of the position.
  pub record Reduced (side : Side) (qty : Quantity) (fill_price : W) (p q : Position W)
      : Type ℓ where
    pub is_now : toward side q.net_qty <ℤ pos 0
    pub profit_eq : q.realized_pnl ≡ d.add p.realized_pnl (profit side qty fill_price p.avg_price)
    pub avg_eq : q.avg_price ≡ p.avg_price

  -- The fill closes the position.
  pub record Closed (side : Side) (qty : Quantity) (fill_price : W) (p q : Position W)
      : Type ℓ where
    pub was : toward side p.net_qty <ℤ pos 0
    pub is_now : q.net_qty ≡ pos 0
    pub profit_eq : q.realized_pnl ≡ d.add p.realized_pnl (profit side qty fill_price p.avg_price)
    pub avg_eq : q.avg_price ≡ nought

  -- The fill closes the position and opens one on its own side with what is left of it.
  pub record Flipped (side : Side) (fill_price : W) (p q : Position W) : Type ℓ where
    pub was : toward side p.net_qty <ℤ pos 0
    pub is_now : pos 0 <ℤ toward side q.net_qty
    pub profit_eq :
        q.realized_pnl ≡ d.add p.realized_pnl (profit side (abs_ℤ p.net_qty) fill_price p.avg_price)
    pub avg_eq : q.avg_price ≡ fill_price

  -- The position `q` that a fill makes of `p`; `px` is the price at which it is marked.
  pub record IsFilledPosition (side : Side) (qty : Quantity) (fill_price px : W) (p q : Position W)
      : Type ℓ where
    pub net_eq : q.net_qty ≡ net_after side p.net_qty qty
    pub regime :
        Extended side qty fill_price p q
        ⊎ Reduced side qty fill_price p q
        ⊎ Closed side qty fill_price p q
        ⊎ Flipped side fill_price p q
    pub unrealized_eq : q.unrealized_pnl ≡ (
        if eqb_ℤ q.net_qty (pos 0)
        then nought
        else d.mul (d.sub px q.avg_price) (d.of_int q.net_qty))

  extended :
      (side : Side) (qty : Quantity) (fill_price px : W) (p : Position W)
      → pos 0 <ℤ qty
      → pos 0 ≤ℤ toward side p.net_qty
      → Extended side qty fill_price p (mark px (add_fill side qty fill_price p))
  unfolding mark add_fill
  extended side qty fill_price px p h k =
      let n = signed_qty-net_after side p.net_qty qty in
      let e : eqb_ℤ (p.net_qty +ℤ signed_qty side qty) (pos 0) ≡ false =
        ap (λ a. eqb_ℤ a (pos 0)) n
        ∙ open_toward-above side (net_after side p.net_qty qty)
            (adding-open side p.net_qty qty h k) in
      record { was = k; profit_eq = refl; avg_eq = rw e refl }

  -- What a fill of the given quantity against the position realizes.
  against-profit :
      (side : Side) (qty : Quantity) (fill_price : W) (p : Position W)
      → toward side p.net_qty <ℤ pos 0
      → d.mul
          (d.mul (d.sub fill_price p.avg_price) (d.of_int qty))
          (if ltb_ℤ (pos 0) p.net_qty then d.lit (pos 1) 1 else d.lit (negsuc 0) 1)
        ≡ profit side qty fill_price p.avg_price
  against-profit buy qty fill_price p h = rw (against-long buy p.net_qty h) refl
  against-profit sell qty fill_price p h = rw (against-long sell p.net_qty h) refl

  against :
      (side : Side) (qty : Quantity) (fill_price px : W) (p : Position W)
      → toward side p.net_qty <ℤ pos 0
      → let q = mark px (close_fill side qty fill_price p) in
        Reduced side qty fill_price p q
        ⊎ Closed side qty fill_price p q
        ⊎ Flipped side fill_price p q
  unfolding mark close_fill
  against side qty fill_price px p k =
      let net = p.net_qty in
      let new = net_after side net qty in
      let n = signed_qty-net_after side net qty in
      let realized =
        λ (a : Quantity). ap (d.add p.realized_pnl) (against-profit side a fill_price p k) in
      elim (toward_cases side new) [
        | inl h ↦
            let m = closing-part side net qty k (omega (arith, h)) in
            let e : eqb_ℤ (net +ℤ signed_qty side qty) (pos 0) ≡ false =
              ap (λ a. eqb_ℤ a (pos 0)) n ∙ open_toward-below side new h in
            inl (record {
              is_now = subst (λ a. toward side a <ℤ pos 0) (sym n) h;
              profit_eq = rw m (realized qty);
              avg_eq = rw (m, e, opening-none qty) refl;
            })
        | inr (inl z) ↦
            let m = closing-part side net qty k (flat-toward side new z) in
            let e : eqb_ℤ (net +ℤ signed_qty side qty) (pos 0) ≡ true =
              ap (λ a. eqb_ℤ a (pos 0)) (n ∙ z) ∙ eqb_ℤ_refl (pos 0) in
            inr (
              inl (record {
                was = k;
                is_now = n ∙ z;
                profit_eq = rw m (realized qty);
                avg_eq = rw (m, e) refl;
              }))
        | inr (inr h) ↦
            let m = closing-all side net qty k h in
            let e : eqb_ℤ (net +ℤ signed_qty side qty) (pos 0) ≡ false =
              ap (λ a. eqb_ℤ a (pos 0)) n ∙ open_toward-above side new h in
            inr (
              inr (record {
                was = k;
                is_now = subst (λ a. pos 0 <ℤ toward side a) (sym n) h;
                profit_eq = rw m (realized (abs_ℤ net));
                avg_eq = rw (m, e, opening-some side net qty k h) refl;
              }))
      ]

  added_net :
      (side : Side) (qty : Quantity) (fill_price px : W) (p : Position W)
      → (mark px (add_fill side qty fill_price p)).net_qty ≡ net_after side p.net_qty qty
  unfolding mark add_fill
  added_net side qty fill_price px p = signed_qty-net_after side p.net_qty qty

  closed_net :
      (side : Side) (qty : Quantity) (fill_price px : W) (p : Position W)
      → (mark px (close_fill side qty fill_price p)).net_qty ≡ net_after side p.net_qty qty
  unfolding mark close_fill
  closed_net side qty fill_price px p = signed_qty-net_after side p.net_qty qty

  marked_pnl :
      (px : W) (q : Position W)
      → (mark px q).unrealized_pnl ≡ (
          if eqb_ℤ (mark px q).net_qty (pos 0)
          then nought
          else d.mul (d.sub px (mark px q).avg_price) (d.of_int (mark px q).net_qty))
  unfolding mark
  marked_pnl px q = refl

  marked-IsFilledPosition :
      (side : Side) (qty : Quantity) (fill_price px : W) (p : Position W)
      → pos 0 <ℤ qty
      → IsFilledPosition side qty fill_price px p (mark px (fill_position side qty fill_price p))
  unfolding fill_position
  marked-IsFilledPosition side qty fill_price px p h =
      elim (Bool-cases (is_adding side p.net_qty)) [
        | inl e ↦
            rw (fill_position, e)
              (record {
                net_eq = added_net side qty fill_price px p;
                regime = inl (extended side qty fill_price px p h (adding-toward side p.net_qty e));
                unrealized_eq = marked_pnl px (add_fill side qty fill_price p);
              })
        | inr e ↦
            rw (fill_position, e)
              (record {
                net_eq = closed_net side qty fill_price px p;
                regime = inr (against side qty fill_price px p (closing-toward side p.net_qty e));
                unrealized_eq = marked_pnl px (close_fill side qty fill_price p);
              })
      ]

  -- The entry of the symbol after a fill.
  abbrev entry : String → Side → Quantity → W → RiskManager W → Position W
  entry symbol side qty fill_price r =
      mark (price_or (lookup symbol r.market_prices) fill_price)
        (fill_position side qty fill_price (record (get_position r symbol) { symbol = symbol }))

  get_position-on_fill :
      (symbol : String) (side : Side) (qty : Quantity) (fill_price : W) (r : RiskManager W)
      → get_position (on_fill symbol side qty fill_price r) symbol
        ≡ entry symbol side qty fill_price r
  unfolding on_fill get_position
  get_position-on_fill symbol side qty fill_price r =
      let found = lookup-insert symbol symbol (entry symbol side qty fill_price r) r.positions in
      let chosen : (if str_eq symbol symbol
            then some (entry symbol side qty fill_price r)
            else lookup symbol r.positions)
          ≡ some (entry symbol side qty fill_price r) =
        rw (str_eq_refl symbol) refl in
      ap (λ x. elim x [ none ↦ empty_position symbol | some p ↦ p ]) (found ∙ chosen)

  -- The name of the position has no part in it.
  named :
      (symbol : String) (side : Side) (qty : Quantity) (fill_price : W) (p q : Position W)
      → let p' = record p { symbol = symbol } in
        Extended side qty fill_price p' q
          ⊎ Reduced side qty fill_price p' q
          ⊎ Closed side qty fill_price p' q
          ⊎ Flipped side fill_price p' q
        → Extended side qty fill_price p q
          ⊎ Reduced side qty fill_price p q
          ⊎ Closed side qty fill_price p q
          ⊎ Flipped side fill_price p q
  named symbol side qty fill_price p q (inl x) =
      inl (record { was = x.was; profit_eq = x.profit_eq; avg_eq = x.avg_eq })
  named symbol side qty fill_price p q (inr (inl x)) =
      inr (inl (record { is_now = x.is_now; profit_eq = x.profit_eq; avg_eq = x.avg_eq }))
  named symbol side qty fill_price p q (inr (inr (inl x))) = inr (
      inr (
        inl
          (record { was = x.was; is_now = x.is_now; profit_eq = x.profit_eq; avg_eq = x.avg_eq })))
  named symbol side qty fill_price p q (inr (inr (inr x))) = inr (
      inr (
        inr
          (record { was = x.was; is_now = x.is_now; profit_eq = x.profit_eq; avg_eq = x.avg_eq })))

  -- After a fill of a positive quantity, the net position of the symbol has moved by the quantity, up
  -- for a purchase and down for a sale. A fill on the position's own side makes the average cost the one
  -- of both together and realizes nothing; one against it realizes the profit of what it closes,
  -- and leaves the average price if a part stays, 0 if nothing stays, and its own price if it flips
  -- the position. The rest is marked at the last market price, or else at the fill's price.
  pub on_fill-IsFilledPosition :
      (symbol : String) (side : Side) (qty : Quantity) (fill_price : W) (r : RiskManager W)
      → pos 0 <ℤ qty
      → IsFilledPosition side qty fill_price
          (price_or (lookup symbol r.market_prices) fill_price)
          (get_position r symbol)
          (get_position (on_fill symbol side qty fill_price r) symbol)
  on_fill-IsFilledPosition symbol side qty fill_price r h =
      let before = record (get_position r symbol) { symbol = symbol } in
      let px = price_or (lookup symbol r.market_prices) fill_price in
      let m = marked-IsFilledPosition side qty fill_price px before h in
      rw (get_position-on_fill symbol side qty fill_price r) (record {
        net_eq = m.net_eq;
        regime = named symbol side qty fill_price (get_position r symbol) _ m.regime;
        unrealized_eq = m.unrealized_eq;
      })

  -- The positions of the other symbols stay.
  pub on_fill-others :
      (symbol other : String) (side : Side) (qty : Quantity) (fill_price : W) (r : RiskManager W)
      → lookup other (on_fill symbol side qty fill_price r).positions ≡ (
          if str_eq symbol other
          then lookup symbol (on_fill symbol side qty fill_price r).positions
          else lookup other r.positions)
  unfolding on_fill
  on_fill-others symbol other side qty fill_price r =
      rw
        (
          lookup-insert symbol other _ r.positions,
          lookup-insert symbol symbol _ r.positions,
          str_eq_refl symbol,
        )
        refl
