-- ===== src/Text.antt =====
-- What the code does with `std::string` beyond comparing and joining: searching, cutting and splitting.
-- A character is compared by its code, and the texts are ASCII.
pub mod Search
pub mod Parts
use Prim.Native.Char.{Char, code}
use Prim.Native.String as Str
pub use Prim.Native.String.{◌++◌ as ◌<>◌}
use orderflow_replay_engine.Prelude.{
  ℕ, zero, suc, Bool, true, false, ◌&&◌, ◌||◌, List, [], ◌∷◌, Option, none, some, String, ◌==◌,
  if◌then◌else◌,
}

abbrev pub is_code : ℕ → Char → Bool
is_code n c = code c == n

unfoldable pub has_prefix : String → String → Bool
has_prefix Str.[] t = true
has_prefix (Str.◌∷◌ p ps) Str.[] = false
has_prefix (Str.◌∷◌ p ps) (Str.◌∷◌ c t) = is_code (code p) c && has_prefix ps t

-- `find`: the text from the first occurrence of the pattern on.
unfoldable pub find_text : String → String → Option String
unfolding has_prefix
find_text p Str.[] = if has_prefix p "" then some "" else none
find_text p (Str.◌∷◌ c t) =
    let later = find_text p t in if has_prefix p (Str.◌∷◌ c t) then some (Str.◌∷◌ c t) else later

-- What comes after the first character with the code `n`.
unfoldable pub after_code : ℕ → String → Option String
after_code n Str.[] = none
after_code n (Str.◌∷◌ c t) = let later = after_code n t in if is_code n c then some t else later

-- Blanks and tabs in front are passed over.
unfoldable pub skip_blanks : String → String
skip_blanks Str.[] = ""
skip_blanks (Str.◌∷◌ c t) =
    let later = skip_blanks t in if is_code 32 c || is_code 9 c then later else Str.◌∷◌ c t

-- The text in front of the first character of which `stops` holds.
unfoldable pub until : (Char → Bool) → String → String
until stops Str.[] = ""
until stops (Str.◌∷◌ c t) = let later = until stops t in if stops c then "" else Str.◌∷◌ c later

-- Repeated `std::getline` with the delimiter `n`: a last part is given only if it is not empty.
abbrev pub onto_first : Char → List String → List String
onto_first c [] = Str.◌∷◌ c "" ∷ []
onto_first c (t ∷ ts) = Str.◌∷◌ c t ∷ ts

unfoldable pub parts : ℕ → String → List String
parts n Str.[] = []
parts n (Str.◌∷◌ c t) =
    let later = parts n t in if is_code n c then "" ∷ later else onto_first c later

abbrev pub is_empty_text : String → Bool
is_empty_text Str.[] = true
is_empty_text (Str.◌∷◌ c t) = false
