-- ===== src/Text/Parts.antt =====
-- What repeated `std::getline` makes of a text that is put together from parts.
use Prim.Native.Char.{Char}
use Prim.Native.String as Str
use Prim.Native.String.append
use orderflow_replay_engine.Prelude.{ℕ, ◌≡◌, refl, ap, Bool, true, false, [], ◌∷◌, String}
use orderflow_replay_engine.Text.{◌<>◌, is_code, parts, onto_first}
use orderflow_replay_engine.Text.Search.{Lacks}

pub parts-append :
    (n : ℕ) (u : String) (c : Char) (r : String)
    → Lacks (is_code n) u
    → is_code n c ≡ true
    → parts n (u <> Str.◌∷◌ c r) ≡ u ∷ parts n r
unfolding parts
parts-append n Str.[] c r h hc = rw (append.nil (Str.◌∷◌ c r), hc) refl
parts-append n (Str.◌∷◌ x u) c r h hc =
    rw (append.cons x u (Str.◌∷◌ c r), h.0) (ap (onto_first x) (parts-append n u c r h.1 hc))

-- The last part, which has a character.
pub parts-last :
    (n : ℕ) (x : Char) (u : String)
    → Lacks (is_code n) (Str.◌∷◌ x u)
    → parts n (Str.◌∷◌ x u) ≡ Str.◌∷◌ x u ∷ []
unfolding parts
parts-last n x Str.[] h = rw h.0 refl
parts-last n x (Str.◌∷◌ y u) h = rw h.0 (ap (onto_first x) (parts-last n y u h.1))

pub Lacks-append : (p : Char → Bool) (u v : String) → Lacks p u → Lacks p v → Lacks p (u <> v)
Lacks-append p Str.[] v hu hv = rw (append.nil v) hv
Lacks-append p (Str.◌∷◌ x u) v hu hv = rw (append.cons x u v) (hu.0, Lacks-append p u v hu.1 hv)

pub Lacks-weaker :
    (p q : Char → Bool)
    → ((c : Char) → p c ≡ false → q c ≡ false)
    → (u : String) → Lacks p u
    → Lacks q u
Lacks-weaker p q f Str.[] h = tt
Lacks-weaker p q f (Str.◌∷◌ x u) h = (f x h.0, Lacks-weaker p q f u h.1)
