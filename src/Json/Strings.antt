-- ===== src/Json/Strings.antt =====
-- `J::str` of src/network/serializer.hpp against a reader of JSON strings.
use Prim.Native.Char.{Char, char, code}
use Prim.Native.String as Str
use Prim.Native.String.append
use text.Mathlib.TextEquality.{Char-path}
use text.Mathlib.TextLemmas.{append_assoc}
use orderflow_replay_engine.Prelude.{
  ◌≡◌, refl, sym, ap, ◌∙◌, ==_iff, true, false, ◌||◌, inl, inr, Option, none, some, String,
  Bool-cases, if◌then◌else◌, Bool, ltb,
}
use orderflow_replay_engine.Text.{◌<>◌, is_code}
use orderflow_replay_engine.Text.Search.{quote, one_char}
use orderflow_replay_engine.Json.{escape, str}

abbrev backslash : Char
backslash = char 92 tt

-- A character in front of what is read.
abbrev pub onto_read : Char → Option (String × String) → Option (String × String)
onto_read c none = none
onto_read c (some (s, rest)) = some (Str.◌∷◌ c s, rest)

-- The character that an escape of two characters stands for.
abbrev pub unescaped : Char → Option Char
unescaped c =
    if is_code 34 c || is_code 92 c || is_code 47 c
    then some c
    else if is_code 98 c
    then some (char 8 tt)
    else if is_code 102 c
    then some (char 12 tt)
    else if is_code 110 c
    then some (char 10 tt)
    else if is_code 114 c
    then some (char 13 tt)
    else if is_code 116 c
    then some (char 9 tt)
    else none

-- The control characters, which must not stand in a JSON string as they are.
abbrev pub is_control : Char → Bool
is_control c = ltb (code c) 32

-- Read up to the closing quotation mark, by the grammar of RFC 8259 without the escapes with a `u`: the
-- text, and what comes after it.
unfoldable pub read_string : String → Option (String × String)
read_string Str.[] = none
read_string (Str.◌∷◌ c Str.[]) = if is_code 34 c then some ("", "") else none
read_string (Str.◌∷◌ c (Str.◌∷◌ e s)) =
    let after = read_string s in
    let next = read_string (Str.◌∷◌ e s) in
    if is_code 34 c
    then some ("", Str.◌∷◌ e s)
    else if is_code 92 c
    then elim (unescaped e) [ none ↦ none | some x ↦ onto_read x after ]
    else if is_control c
    then none
    else onto_read c next

abbrev pub has_control : String → Bool
has_control Str.[] = false
has_control (Str.◌∷◌ c s) = is_control c || has_control s

-- A JSON string at the front of a text, and what comes after it.
unfoldable pub parse_string : String → Option (String × String)
unfolding read_string
parse_string Str.[] = none
parse_string (Str.◌∷◌ c s) = if is_code 34 c then read_string s else none

read_string-closed : (rest : String) → read_string (Str.◌∷◌ quote rest) ≡ some ("", rest)
unfolding read_string
read_string-closed Str.[] = refl
read_string-closed (Str.◌∷◌ e s) = refl

read_string-plain :
    (c : Char) (s : String)
    → is_code 34 c ≡ false
    → is_code 92 c ≡ false
    → is_control c ≡ false
    → read_string (Str.◌∷◌ c s) ≡ onto_read c (read_string s)
unfolding read_string
read_string-plain c Str.[] q b k = rw q refl
read_string-plain c (Str.◌∷◌ e s) q b k = rw (q, b, k) refl

read_string-control :
    (c : Char) (s : String)
    → is_code 34 c ≡ false
    → is_code 92 c ≡ false
    → is_control c ≡ true
    → read_string (Str.◌∷◌ c s) ≡ none
unfolding read_string
read_string-control c Str.[] q b k = rw q refl
read_string-control c (Str.◌∷◌ e s) q b k = rw (q, b, k) refl

-- What is read from a text `s` that is written with `rest` behind it.
abbrev read_back : String → String → Option (String × String)
read_back s rest = if has_control s then none else some (s, rest)

onto_read-back :
    (c : Char) (s rest : String)
    → is_control c ≡ false
    → onto_read c (read_back s rest) ≡ read_back (Str.◌∷◌ c s) rest
onto_read-back c s rest k = elim (Bool-cases (has_control s)) [
  | inl h ↦ rw (k, h) refl
  | inr h ↦ rw (k, h) refl
]

-- A backslash, the character, and the rest.
escaped_lem :
    (c : Char) (t s rest : String)
    → is_control c ≡ false
    → unescaped c ≡ some c
    → read_string t ≡ read_back s rest
    → read_string (Str.◌∷◌ backslash (Str.◌∷◌ c t)) ≡ read_back (Str.◌∷◌ c s) rest
unfolding read_string
escaped_lem c t s rest k u e = rw (read_string, u) (ap (onto_read c) e ∙ onto_read-back c s rest k)

two_chars :
    (a b : Char) (s t : String)
    → (Str.◌∷◌ a (Str.◌∷◌ b "") <> s) <> t ≡ Str.◌∷◌ a (Str.◌∷◌ b (s <> t))
two_chars a b s t =
    append_assoc (Str.◌∷◌ a (Str.◌∷◌ b "")) s t
    ∙ append.cons a (Str.◌∷◌ b "") (s <> t)
    ∙ ap (Str.◌∷◌ a) (one_char b (s <> t))

code-eq : (c x : Char) → is_code (code x) c ≡ true → c ≡ x
code-eq c x h = Char-path c x ((==_iff (code c) (code x)).0 h)

escape-read_string :
    (s rest : String) → read_string (escape s <> Str.◌∷◌ quote rest) ≡ read_back s rest
unfolding escape
escape-read_string Str.[] rest =
    ap read_string (append.nil (Str.◌∷◌ quote rest)) ∙ read_string-closed rest
escape-read_string (Str.◌∷◌ c s) rest =
    let more = escape s <> Str.◌∷◌ quote rest in
    let later = escape-read_string s rest in
    elim (Bool-cases (is_code 34 c)) [
      | inl q ↦ rw q (
          ap read_string (two_chars backslash quote (escape s) (Str.◌∷◌ quote rest))
          ∙ escaped_lem quote more s rest refl refl later
          ∙ ap (λ x. read_back (Str.◌∷◌ x s) rest) (sym (code-eq c quote q)))
      | inr q ↦ elim (Bool-cases (is_code 92 c)) [
        | inl b ↦
            rw (q, b)
              (ap read_string (two_chars backslash backslash (escape s) (Str.◌∷◌ quote rest))
                ∙ escaped_lem backslash more s rest refl refl later
                ∙ ap (λ x. read_back (Str.◌∷◌ x s) rest) (sym (code-eq c backslash b)))
        | inr b ↦ elim (Bool-cases (is_control c)) [
          | inl k ↦
              rw (q, b)
                (ap read_string (append.cons c (escape s) (Str.◌∷◌ quote rest))
                  ∙ read_string-control c more q b k
                  ∙ rw k refl)
          | inr k ↦
              rw (q, b)
                (ap read_string (append.cons c (escape s) (Str.◌∷◌ quote rest))
                  ∙ read_string-plain c more q b k
                  ∙ ap (onto_read c) later
                  ∙ onto_read-back c s rest k)
        ]
      ]
    ]

-- A reader of JSON strings reads back a text that `J::str` has written, with whatever follows it, where
-- the text has no control character; where it has one, the reader refuses what is written.
pub str-parse_string :
    (s rest : String)
    → parse_string (str s <> rest) ≡ (if has_control s then none else some (s, rest))
unfolding str parse_string
str-parse_string s rest =
    let inner : (escape s <> "\"") <> rest ≡ escape s <> Str.◌∷◌ quote rest =
      append_assoc (escape s) "\"" rest ∙ ap (λ t. escape s <> t) (one_char quote rest) in
    let outer : str s <> rest ≡ Str.◌∷◌ quote (escape s <> Str.◌∷◌ quote rest) =
      append_assoc "\"" (escape s <> "\"") rest
      ∙ one_char quote ((escape s <> "\"") <> rest)
      ∙ ap (Str.◌∷◌ quote) inner in
    ap parse_string outer ∙ escape-read_string s rest
