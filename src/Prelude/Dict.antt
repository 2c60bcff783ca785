-- ===== src/Prelude/Dict.antt =====
-- `std::unordered_map<std::string, V>` as an association list; its order of iteration is that of the
-- list.
use Prim.Native.String.{String}
use text.Mathlib.Text.{◌==◌}
use text.Mathlib.TextEquality.{eq_iff}
use text.Mathlib.TextPositions.{eq_refl}
use mathlib.Core.Path.{◌≡◌, refl, subst}
use mathlib.Core.Logic.{inl, inr}
use mathlib.Core.Bool.{Bool, true}
use mathlib.Core.Option.{Option, none, some, some-injective}
use mathlib.Core.List.{List, [], ◌∷◌}
use native.Mathlib.Omega.{arith}
use orderflow_replay_engine.Prelude.Tests.{if◌then◌else◌, if-both, Bool-cases}

abbrev pub str_eq : String → String → Bool
str_eq = ◌==◌

pub str_eq_refl : (s : String) → str_eq s s ≡ true
str_eq_refl s = eq_refl s

pub str_eq→eq : (s t : String) → str_eq s t ≡ true → s ≡ t
str_eq→eq s t h = (eq_iff s t).0 h

module _ {ℓ} {V : Type ℓ} where
  -- `find`: the value of the first entry with the key.
  unfoldable pub lookup : String → List (String × V) → Option V
  lookup key [] = none
  lookup key ((name, found) ∷ rest) =
      let later = lookup key rest in if str_eq name key then some found else later

  -- `map[key] = value`: the entry with the key changes in its place, a new one goes to the end.
  unfoldable pub insert : String → V → List (String × V) → List (String × V)
  insert key value [] = (key, value) ∷ []
  insert key value ((name, found) ∷ rest) =
      let tail = insert key value rest in
      if str_eq name key then (key, value) ∷ rest else (name, found) ∷ tail

  pub lookup-insert :
      (key other : String) (value : V) (entries : List (String × V))
      → lookup other (insert key value entries)
        ≡ (if str_eq key other then some value else lookup other entries)
  unfolding lookup insert
  lookup-insert key other value [] = refl
  lookup-insert key other value ((name, found) ∷ rest) =
      let tail = lookup-insert key other value rest in
      ground (arith, eq_iff name other, eq_iff name key, eq_iff key other, tail)

  -- A property of all the values of a map.
  unfoldable pub AllValues {κ} : (V → Type κ) → List (String × V) → Type κ
  AllValues P [] = Unit
  AllValues P ((k, v) ∷ m) = P v × AllValues P m

  pub AllValues-lookup {κ} :
      (P : V → Type κ) (k : String) (v : V) (m : List (String × V))
      → AllValues P m
      → lookup k m ≡ some v
      → P v
  unfolding lookup AllValues
  AllValues-lookup P k v [] h e = absurd (ground arith)
  AllValues-lookup P k v ((j, w) ∷ m) (h, hs) e = elim (Bool-cases (str_eq j k)) [
    | inl t ↦ let same : some w ≡ some v = rw⁻¹ e (rw t refl) in subst P (some-injective w v same) h
    | inr t ↦ AllValues-lookup P k v m hs (rw⁻¹ e (rw t refl))
  ]

  pub AllValues-insert {κ} :
      (P : V → Type κ) (k : String) (v : V) (m : List (String × V))
      → P v
      → AllValues P m
      → AllValues P (insert k v m)
  unfolding insert AllValues
  AllValues-insert P k v [] p h = (p, tt)
  AllValues-insert P k v ((j, w) ∷ m) p (h, hs) =
      if-both (AllValues P) (str_eq j k) ((k, v) ∷ m) ((j, w) ∷ insert k v m) (p, hs)
        (h, AllValues-insert P k v m p hs)

  pub AllValues-map {κ μ} :
      (P : V → Type κ) (Q : V → Type μ)
      → ((v : V) → P v → Q v)
      → (m : List (String × V)) → AllValues P m
      → AllValues Q m
  unfolding AllValues
  AllValues-map P Q f [] h = tt
  AllValues-map P Q f ((k, v) ∷ m) (h, hs) = (f v h, AllValues-map P Q f m hs)
