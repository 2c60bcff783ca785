-- ===== src/Text/Search.antt =====
-- What the searches of `Text` find in a text that is put together from parts.
use Prim.Native.Char.{Char, char, code}
use Prim.Native.String as Str
use Prim.Native.String.append
use mathlib.Core.Bool.{false≢true}
use text.Mathlib.TextEquality.{Char-path}
use orderflow_replay_engine.Prelude.{
  ℕ, ◌≡◌, refl, sym, ap, ◌∙◌, Bool, true, false, ◌&&◌, ◌==◌, ==_iff, some, String, arith,
  Bool-cases, inl, inr,
}
use orderflow_replay_engine.Text.{◌<>◌, is_code, has_prefix, find_text, after_code, until}

-- The quotation mark.
abbrev pub quote : Char
quote = char 34 tt

-- No character of the text passes the test.
abbrev pub Lacks : (Char → Bool) → String → Type 0
Lacks p Str.[] = Unit
Lacks p (Str.◌∷◌ c s) = (p c ≡ false) × Lacks p s

pub one_char : (c : Char) (s : String) → Str.◌∷◌ c "" <> s ≡ Str.◌∷◌ c s
one_char c s = append.cons c "" s ∙ ap (Str.◌∷◌ c) (append.nil s)

pub until-append :
    (p : Char → Bool) (v : String) (c : Char) (r : String)
    → Lacks p v
    → p c ≡ true
    → until p (v <> Str.◌∷◌ c r) ≡ v
unfolding until
until-append p Str.[] c r h hc = rw (append.nil (Str.◌∷◌ c r), hc) refl
until-append p (Str.◌∷◌ x v) c r h hc =
    rw (append.cons x v (Str.◌∷◌ c r), h.0) (ap (Str.◌∷◌ x) (until-append p v c r h.1 hc))

-- A pattern that starts with a quotation mark is not found where there is none.
pub find_text-skips :
    (p u r : String)
    → Lacks (is_code 34) u
    → find_text (Str.◌∷◌ quote p) (u <> r) ≡ find_text (Str.◌∷◌ quote p) r
unfolding find_text has_prefix
find_text-skips p Str.[] r h = ap (find_text (Str.◌∷◌ quote p)) (append.nil r)
find_text-skips p (Str.◌∷◌ x u) r h = rw (append.cons x u r, h.0) (find_text-skips p u r h.1)

pub find_text-misses :
    (p : String) (c : Char) (r : String)
    → has_prefix p (Str.◌∷◌ c r) ≡ false
    → find_text p (Str.◌∷◌ c r) ≡ find_text p r
unfolding find_text
find_text-misses p c r h = rw h refl

pub find_text-hits :
    (p : String) (c : Char) (r : String)
    → has_prefix p (Str.◌∷◌ c r) ≡ true
    → find_text p (Str.◌∷◌ c r) ≡ some (Str.◌∷◌ c r)
unfolding find_text
find_text-hits p c r h = rw h refl

pub has_prefix-append : (p r : String) → has_prefix p (p <> r) ≡ true
unfolding has_prefix
has_prefix-append Str.[] r = refl
has_prefix-append (Str.◌∷◌ c p) r =
    let e : (code c == code c) ≡ true = ground arith in
    rw (append.cons c p r, e) (has_prefix-append p r)

&&-both : (a b : Bool) → (a && b) ≡ true → (a ≡ true) × (b ≡ true)
&&-both true b h = (refl, h)
&&-both false b h = absurd (false≢true h)

-- Between quotation marks only the text itself is found.
pub has_prefix-quoted :
    (k v r : String)
    → Lacks (is_code 34) k
    → Lacks (is_code 34) v
    → has_prefix (k <> Str.◌∷◌ quote "") (v <> Str.◌∷◌ quote r) ≡ true
    → k ≡ v
unfolding has_prefix
has_prefix-quoted Str.[] Str.[] r hk hv h = refl
has_prefix-quoted Str.[] (Str.◌∷◌ x v) r hk hv h =
    let e : has_prefix ("" <> "\"") (Str.◌∷◌ x v <> Str.◌∷◌ quote r) ≡ false =
      rw (append.nil "\"", append.cons x v (Str.◌∷◌ quote r), hv.0) refl in
    absurd (false≢true (sym e ∙ h))
has_prefix-quoted (Str.◌∷◌ y k) Str.[] r hk hv h =
    let n : is_code (code y) quote ≡ false = ground (arith, hk.0) in
    let e : has_prefix (Str.◌∷◌ y k <> "\"") ("" <> Str.◌∷◌ quote r) ≡ false =
      rw (append.cons y k "\"", append.nil (Str.◌∷◌ quote r), n) refl in
    absurd (false≢true (sym e ∙ h))
has_prefix-quoted (Str.◌∷◌ y k) (Str.◌∷◌ x v) r hk hv h =
    let e : has_prefix (Str.◌∷◌ y k <> "\"") (Str.◌∷◌ x v <> Str.◌∷◌ quote r)
        ≡ (is_code (code y) x && has_prefix (k <> "\"") (v <> Str.◌∷◌ quote r)) =
      rw (append.cons y k "\"", append.cons x v (Str.◌∷◌ quote r)) refl in
    let both = &&-both (is_code (code y) x) _ (sym e ∙ h) in
    let same : y ≡ x = Char-path y x (sym ((==_iff (code x) (code y)).0 both.0)) in
    ap (λ c. Str.◌∷◌ c k) same ∙ ap (Str.◌∷◌ x) (has_prefix-quoted k v r hk.1 hv.1 both.1)

-- After a character that is not in `k`, nothing that is quoted as `k` is found.
pub has_prefix-apart :
    (t : Char → Bool) (k : String) (c : Char) (r : String)
    → Lacks t k
    → t c ≡ true
    → is_code 34 c ≡ false
    → has_prefix (k <> "\"") (Str.◌∷◌ c r) ≡ false
unfolding has_prefix
has_prefix-apart t Str.[] c r hk ht hc = rw hc refl
has_prefix-apart t (Str.◌∷◌ y k) c r hk ht hc = elim (Bool-cases (is_code (code y) c)) [
  | inl e ↦
      let same : c ≡ y = Char-path c y ((==_iff (code c) (code y)).0 e) in
      absurd (false≢true (sym hk.0 ∙ ap t (sym same) ∙ ht))
  | inr e ↦ rw (append.cons y k "\"", e) refl
]

pub after_code-skips :
    (n : ℕ) (u r : String) → Lacks (is_code n) u → after_code n (u <> r) ≡ after_code n r
unfolding after_code
after_code-skips n Str.[] r h = ap (after_code n) (append.nil r)
after_code-skips n (Str.◌∷◌ x u) r h = rw (append.cons x u r, h.0) (after_code-skips n u r h.1)
