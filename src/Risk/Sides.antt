-- ===== src/Risk/Sides.antt =====
-- The integers in `on_fill` of src/risk/risk_manager.cpp, seen from the side of the fill.
use orderflow_replay_engine.Prelude.{
  ◌≡◌, refl, ◌∙◌, true, false, ◌⊎◌, inl, inr, pos, ◌+ℤ◌, ◌-ℤ◌, ◌<ℤ◌, ◌≤ℤ◌, ltb_ℤ, eqb_ℤ, eqb_ℤ→eq,
  min_ℤ, abs_ℤ, neg_ℤ, lt→ltb_ℤ, ge→ltb_ℤ, lt→eqb_ℤ, eqb_ℤ→ne, eq→parts, Bool, eq_of_parts,
  int_laws, arith, Bool-cases, neg_ℤ_parts,
}
use orderflow_replay_engine.Types.{Quantity, Side, buy, sell}
use orderflow_replay_engine.Risk.{signed_qty, is_adding}

-- A net quantity as it looks from the side of a fill: positive if the fill adds to it.
abbrev pub toward : Side → Quantity → Quantity
toward buy net = net
toward sell net = neg_ℤ net

-- The net quantity after a fill.
abbrev pub net_after : Side → Quantity → Quantity → Quantity
net_after buy net qty = net +ℤ qty
net_after sell net qty = net -ℤ qty

pub signed_qty-net_after :
    (s : Side) (net qty : Quantity) → net +ℤ signed_qty s qty ≡ net_after s net qty
unfolding signed_qty
signed_qty-net_after buy net qty = refl
signed_qty-net_after sell net qty =
    eq_of_parts (net +ℤ neg_ℤ qty) (net -ℤ qty) (omega (int_laws, neg_ℤ_parts qty))

pub adding-toward : (s : Side) (net : Quantity) → is_adding s net ≡ true → pos 0 ≤ℤ toward s net
unfolding is_adding
adding-toward buy net e = ground arith
adding-toward sell net e =
    let k : net ≤ℤ pos 0 = ground arith in omega (int_laws, neg_ℤ_parts net, k)

pub closing-toward : (s : Side) (net : Quantity) → is_adding s net ≡ false → toward s net <ℤ pos 0
unfolding is_adding
closing-toward buy net e = ground arith
closing-toward sell net e =
    let k : pos 0 <ℤ net = ground arith in omega (int_laws, neg_ℤ_parts net, k)

-- Other than 0 on either side.
pub open_above : (a : Quantity) → pos 0 <ℤ a → eqb_ℤ a (pos 0) ≡ false
open_above a h = lt→eqb_ℤ a (pos 0) h

pub open_below : (a : Quantity) → a <ℤ pos 0 → eqb_ℤ a (pos 0) ≡ false
open_below a h = ground arith

pub open_toward-above : (s : Side) (a : Quantity) → pos 0 <ℤ toward s a → eqb_ℤ a (pos 0) ≡ false
open_toward-above buy a h = open_above a h
open_toward-above sell a h = open_below a (omega (int_laws, neg_ℤ_parts a, h))

pub open_toward-below : (s : Side) (a : Quantity) → toward s a <ℤ pos 0 → eqb_ℤ a (pos 0) ≡ false
open_toward-below buy a h = open_below a h
open_toward-below sell a h = open_above a (omega (int_laws, neg_ℤ_parts a, h))

pub flat-toward : (s : Side) (a : Quantity) → a ≡ pos 0 → toward s a ≤ℤ pos 0
flat-toward buy a e = omega (int_laws, eq→parts e)
flat-toward sell a e = omega (int_laws, neg_ℤ_parts a, eq→parts e)

-- A fill that adds leaves the position on its side.
pub adding-open :
    (s : Side) (net qty : Quantity)
    → pos 0 <ℤ qty
    → pos 0 ≤ℤ toward s net
    → pos 0 <ℤ toward s (net_after s net qty)
adding-open buy net qty h k = omega int_laws
adding-open sell net qty h k = omega (int_laws, neg_ℤ_parts net, neg_ℤ_parts (net -ℤ qty), h, k)

-- A net quantity is against the side of a fill, flat, or on it.
pub toward_cases :
    (s : Side) (a : Quantity) → (toward s a <ℤ pos 0) ⊎ (a ≡ pos 0) ⊎ (pos 0 <ℤ toward s a)
toward_cases s a = elim (Bool-cases (eqb_ℤ a (pos 0))) [
  | inl e ↦ inr (inl (eqb_ℤ→eq a (pos 0) e))
  | inr e ↦ sided s a (eqb_ℤ→ne a (pos 0) e)
]
  where
    sided :
        (t : Side) (b : Quantity)
        → (b <ℤ pos 0) ⊎ (pos 0 <ℤ b)
        → (toward t b <ℤ pos 0) ⊎ (b ≡ pos 0) ⊎ (pos 0 <ℤ toward t b)
    sided buy b (inl h) = inl h
    sided buy b (inr h) = inr (inr h)
    sided sell b (inl h) = inr (inr (omega (int_laws, neg_ℤ_parts b, h)))
    sided sell b (inr h) = inl (omega (int_laws, neg_ℤ_parts b, h))

pub abs_ℤ-short : (net : Quantity) → net <ℤ pos 0 → abs_ℤ net ≡ neg_ℤ net
unfolding abs_ℤ
abs_ℤ-short net h = rw (lt→ltb_ℤ net (pos 0) h) refl

pub abs_ℤ-long : (net : Quantity) → pos 0 ≤ℤ net → abs_ℤ net ≡ net
unfolding abs_ℤ
abs_ℤ-long net h = rw (ge→ltb_ℤ net (pos 0) h) refl

-- How much of a position is against a fill.
abs_ℤ-toward :
    (s : Side) (net : Quantity) → toward s net <ℤ pos 0 → abs_ℤ net ≡ neg_ℤ (toward s net)
abs_ℤ-toward buy net h = abs_ℤ-short net h
abs_ℤ-toward sell net h =
    abs_ℤ-long net (omega (int_laws, neg_ℤ_parts net, h))
    ∙ eq_of_parts net (neg_ℤ (neg_ℤ net)) (omega (arith, neg_ℤ_parts net, neg_ℤ_parts (neg_ℤ net)))

toward-net_after :
    (s : Side) (net qty : Quantity) → toward s (net_after s net qty) ≡ toward s net +ℤ qty
toward-net_after buy net qty = refl
toward-net_after sell net qty =
    eq_of_parts (neg_ℤ (net -ℤ qty)) (neg_ℤ net +ℤ qty)
      (omega (int_laws, neg_ℤ_parts net, neg_ℤ_parts (net -ℤ qty)))

-- `closing` where the fill does not go beyond the position, and where it does.
pub closing-part :
    (s : Side) (net qty : Quantity)
    → toward s net <ℤ pos 0
    → toward s (net_after s net qty) ≤ℤ pos 0
    → min_ℤ qty (abs_ℤ net) ≡ qty
unfolding min_ℤ
closing-part s net qty h k =
    let a = toward s net in
    let e = eq→parts (toward-net_after s net qty) in
    let b : ltb_ℤ (neg_ℤ a) qty ≡ false =
      ge→ltb_ℤ (neg_ℤ a) qty (omega (int_laws, neg_ℤ_parts a, e, h, k)) in
    rw (abs_ℤ-toward s net h, b) refl

pub closing-all :
    (s : Side) (net qty : Quantity)
    → toward s net <ℤ pos 0
    → pos 0 <ℤ toward s (net_after s net qty)
    → min_ℤ qty (abs_ℤ net) ≡ abs_ℤ net
unfolding min_ℤ
closing-all s net qty h k =
    let a = toward s net in
    let e = eq→parts (toward-net_after s net qty) in
    let b : ltb_ℤ (neg_ℤ a) qty ≡ true =
      lt→ltb_ℤ (neg_ℤ a) qty (omega (int_laws, neg_ℤ_parts a, e, h, k)) in
    rw (abs_ℤ-toward s net h, b) refl

-- `opening > 0` in the two cases.
pub opening-none : (qty : Quantity) → ltb_ℤ (pos 0) (qty -ℤ qty) ≡ false
opening-none qty = ge→ltb_ℤ (pos 0) (qty -ℤ qty) (omega int_laws)

pub opening-some :
    (s : Side) (net qty : Quantity)
    → toward s net <ℤ pos 0
    → pos 0 <ℤ toward s (net_after s net qty)
    → ltb_ℤ (pos 0) (qty -ℤ abs_ℤ net) ≡ true
opening-some s net qty h k =
    let a = toward s net in
    let e = eq→parts (toward-net_after s net qty) in
    rw (abs_ℤ-toward s net h)
      (lt→ltb_ℤ (pos 0) (qty -ℤ neg_ℤ a) (omega (int_laws, neg_ℤ_parts a, e, h, k)))

-- The sign of a position that is against a fill.
abbrev pub is_long_against : Side → Bool
is_long_against buy = false
is_long_against sell = true

pub against-long :
    (s : Side) (net : Quantity) → toward s net <ℤ pos 0 → ltb_ℤ (pos 0) net ≡ is_long_against s
against-long buy net h = ge→ltb_ℤ (pos 0) net (omega (int_laws, h))
against-long sell net h = lt→ltb_ℤ (pos 0) net (omega (int_laws, neg_ℤ_parts net, h))
