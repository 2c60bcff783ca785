-- ===== src/Engine/Fields/Strings.antt =====
-- `jget` of src/engine_cli.cpp on the objects that a client writes.
use Prim.Native.Char.{Char, char}
use Prim.Native.String as Str
use Prim.Native.String.append
use mathlib.Core.Bool.{false≢true}
use text.Mathlib.TextLemmas.{append_assoc}
use orderflow_replay_engine.Prelude.{
  ◌≡◌, ◌≢◌, refl, sym, ap, ◌∙◌, Bool, true, false, ◌||◌, inl, inr, List, [], ◌∷◌, String,
  Bool-cases, str_eq, str_eq→eq, str_eq_refl, if◌then◌else◌, All, some, arith,
}
use orderflow_replay_engine.Text.{
  ◌<>◌, is_code, has_prefix, find_text, after_code, skip_blanks, until,
}
use orderflow_replay_engine.Text.Search.{
  quote, Lacks, one_char, until-append, find_text-skips, find_text-misses, find_text-hits,
  has_prefix-append, has_prefix-quoted, has_prefix-apart, after_code-skips,
}
use orderflow_replay_engine.Engine.Fields.{ends_value, value_at, value_found, jget}

abbrev comma : Char
comma = char 44 tt

abbrev colon : Char
colon = char 58 tt

abbrev pub closing : Char
closing = char 125 tt

-- The characters that JSON allows between the parts of an object.
abbrev pub is_blank : Char → Bool
is_blank c = is_code 32 c || is_code 9 c || is_code 10 c || is_code 13 c

-- The blanks that `skip_blanks` passes.
abbrev pub is_space : Char → Bool
is_space c = is_code 32 c || is_code 9 c

-- Every character of the text passes the test.
abbrev pub Only : (Char → Bool) → String → Type 0
Only p Str.[] = Unit
Only p (Str.◌∷◌ c s) = (p c ≡ true) × Only p s

-- A value: a text in quotation marks with the blanks behind it, or one without, which has a first
-- character and goes to the comma or brace behind it.
pub data Value : Type 0 where
  quoted : String → String → Value
  bare : Char → String → Value

abbrev pub shown : Value → String
shown (quoted s behind) = s
shown (bare c s) = Str.◌∷◌ c s

-- A field: its name with the blanks before and behind it, and its value with the blanks before it.
pub record Field : Type 0 where
  pub lead : String
  pub name : String
  pub gap : String
  pub space : String
  pub value : Value

abbrev pub value_text : Value → String → String
value_text (quoted s behind) rest = Str.◌∷◌ quote (s <> Str.◌∷◌ quote (behind <> rest))
value_text (bare c s) rest = Str.◌∷◌ c (s <> rest)

-- What stands from the colon on.
abbrev colon_text : Field → String → String
colon_text f rest = Str.◌∷◌ colon (f.space <> value_text f.value rest)

abbrev named_text : Field → String → String
named_text f rest = Str.◌∷◌ quote (f.name <> Str.◌∷◌ quote (f.gap <> colon_text f rest))

abbrev pub field_text : Field → String → String
field_text f rest = f.lead <> named_text f rest

abbrev pub more_text : List Field → String
more_text [] = Str.◌∷◌ closing ""
more_text (f ∷ fs) = Str.◌∷◌ comma (field_text f (more_text fs))

abbrev pub object_text : List Field → String
object_text [] = "{}"
object_text (f ∷ fs) = Str.◌∷◌ (char 123 tt) (field_text f (more_text fs))

-- The value of the first field with the key, and the empty text if there is none.
abbrev pub field_of : String → List Field → String
field_of key [] = ""
field_of key (f ∷ fs) =
    let later = field_of key fs in if str_eq f.name key then shown f.value else later

-- A key with nothing in it that ends a key or a value, and no blank.
pub record IsKey (key : String) : Type 0 where
  pub unquoted : Lacks (is_code 34) key
  pub undivided : Lacks (is_code 58) key
  pub unended : Lacks ends_value key
  pub unspaced : Lacks is_blank key

-- A value that needs no backslash, and is not the key itself in quotation marks.
abbrev pub IsClearOf : String → Value → Type 0
IsClearOf key (quoted s behind) = Lacks (is_code 34) s × (s ≢ key) × Only is_blank behind
IsClearOf key (bare c s) =
    (is_code 34 c ≡ false)
    × (is_space c ≡ false)
    × (ends_value c ≡ false)
    × Lacks (is_code 34) s
    × Lacks ends_value s

-- Between the colon and the value only spaces and tabs stand.
pub record IsField (key : String) (f : Field) : Type 0 where
  pub name : Lacks (is_code 34) f.name
  pub value : IsClearOf key f.value
  pub lead : Only is_blank f.lead
  pub gap : Only is_blank f.gap
  pub space : Only is_space f.space

Only-Lacks :
    (p q : Char → Bool)
    → ((c : Char) → p c ≡ true → q c ≡ false)
    → (u : String) → Only p u
    → Lacks q u
Only-Lacks p q f Str.[] h = tt
Only-Lacks p q f (Str.◌∷◌ c u) h = (f c h.0, Only-Lacks p q f u h.1)

blank-unquoted : (u : String) → Only is_blank u → Lacks (is_code 34) u
blank-unquoted = Only-Lacks is_blank (is_code 34) (λ c h. ground (arith, h))

blank-undivided : (u : String) → Only is_blank u → Lacks (is_code 58) u
blank-undivided = Only-Lacks is_blank (is_code 58) (λ c h. ground (arith, h))

space-unquoted : (u : String) → Only is_space u → Lacks (is_code 34) u
space-unquoted = Only-Lacks is_space (is_code 34) (λ c h. ground (arith, h))

skip_blanks-space : (u r : String) → Only is_space u → skip_blanks (u <> r) ≡ skip_blanks r
unfolding skip_blanks
skip_blanks-space Str.[] r h = ap skip_blanks (append.nil r)
skip_blanks-space (Str.◌∷◌ c u) r h = rw (append.cons c u r, h.0) (skip_blanks-space u r h.1)

module _ (key : String) (plain : IsKey key) where
  -- The text that is looked for, with its first character in front.
  abbrev pattern : String
  pattern = Str.◌∷◌ quote (key <> "\"")

  jget-pattern : (body : String) → jget body key ≡ value_found (find_text pattern body)
  unfolding jget
  jget-pattern body = ap (λ p. value_found (find_text p body)) (one_char quote (key <> "\""))

  jget-same : (s t : String) → find_text pattern s ≡ find_text pattern t → jget s key ≡ jget t key
  jget-same s t e = jget-pattern s ∙ ap value_found e ∙ sym (jget-pattern t)

  jget-misses :
      (c : Char) (r : String)
      → has_prefix pattern (Str.◌∷◌ c r) ≡ false
      → jget (Str.◌∷◌ c r) key ≡ jget r key
  jget-misses c r h = jget-same (Str.◌∷◌ c r) r (find_text-misses pattern c r h)

  jget-skips : (u r : String) → Lacks (is_code 34) u → jget (u <> r) key ≡ jget r key
  jget-skips u r h = jget-same (u <> r) r (find_text-skips (key <> "\"") u r h)

  jget-empty : jget "" key ≡ ""
  unfolding find_text has_prefix value_found
  jget-empty = jget-pattern ""

  has_prefix-other :
      (c : Char) (r : String) → is_code 34 c ≡ false → has_prefix pattern (Str.◌∷◌ c r) ≡ false
  unfolding has_prefix
  has_prefix-other c r h = rw h refl

  -- A text that starts with blanks and a character that the key has not.
  has_prefix-blanks :
      (t : Char → Bool) (u : String) (c : Char) (r : String)
      → Only is_blank u
      → Lacks t key
      → t c ≡ true
      → is_code 34 c ≡ false
      → has_prefix (key <> "\"") (u <> Str.◌∷◌ c r) ≡ false
  has_prefix-blanks t Str.[] c r hu hk ht hc =
      ap (has_prefix (key <> "\"")) (append.nil (Str.◌∷◌ c r)) ∙ has_prefix-apart t key c r hk ht hc
  has_prefix-blanks t (Str.◌∷◌ x u) c r hu hk ht hc =
      ap (has_prefix (key <> "\"")) (append.cons x u (Str.◌∷◌ c r))
      ∙ has_prefix-apart is_blank key x (u <> Str.◌∷◌ c r) plain.unspaced hu.0
          (blank-unquoted (Str.◌∷◌ x u) hu).0

  -- Another text in quotation marks is passed over, with the blanks behind it.
  jget-passes :
      (t : Char → Bool) (s u : String) (c : Char) (r : String)
      → Lacks t key
      → t c ≡ true
      → is_code 34 c ≡ false
      → Lacks (is_code 34) s
      → s ≢ key
      → Only is_blank u
      → jget (Str.◌∷◌ quote (s <> Str.◌∷◌ quote (u <> Str.◌∷◌ c r))) key ≡ jget r key
  unfolding has_prefix
  jget-passes t s u c r hk ht hc hs n hu =
      let behind = u <> Str.◌∷◌ c r in
      let front = s <> Str.◌∷◌ quote behind in
      let other : has_prefix (key <> "\"") front ≡ false =
        elim (Bool-cases (has_prefix (key <> "\"") front)) [
          | inl e ↦ absurd (n (sym (has_prefix-quoted key s behind plain.unquoted hs e)))
          | inr e ↦ e
        ] in
      jget-misses quote front other
      ∙ jget-skips s (Str.◌∷◌ quote behind) hs
      ∙ jget-misses quote behind (has_prefix-blanks t u c r hu hk ht hc)
      ∙ jget-skips u (Str.◌∷◌ c r) (blank-unquoted u hu)
      ∙ jget-misses c r (has_prefix-other c r hc)

  -- The value of the field that is looked for.
  value_at-text :
      (v : Value) (c : Char) (r : String)
      → IsClearOf key v
      → ends_value c ≡ true
      → value_at (skip_blanks (value_text v (Str.◌∷◌ c r))) ≡ shown v
  unfolding value_at skip_blanks until
  value_at-text (quoted s behind) c r h hc =
      until-append (is_code 34) s quote (behind <> Str.◌∷◌ c r) h.0 refl
  value_at-text (bare x s) c r h hc =
      rw (h.1, h.0, h.2) (ap (Str.◌∷◌ x) (until-append ends_value s c r h.4 hc))

  -- What is taken from a text with the key in quotation marks at its front.
  value_found-key :
      (f : Field) (c : Char) (r : String)
      → IsField key f
      → ends_value c ≡ true
      → value_found
          (some (Str.◌∷◌ quote (key <> Str.◌∷◌ quote (f.gap <> colon_text f (Str.◌∷◌ c r)))))
        ≡ shown f.value
  unfolding value_found after_code
  value_found-key f c r h hc =
      let value = colon_text f (Str.◌∷◌ c r) in
      rw
        (
          value_found,
          after_code-skips 58 key (Str.◌∷◌ quote (f.gap <> value)) plain.undivided,
          after_code-skips 58 f.gap value (blank-undivided f.gap h.gap),
        )
        (ap value_at (skip_blanks-space f.space (value_text f.value (Str.◌∷◌ c r)) h.space)
          ∙ value_at-text f.value c r h.value hc)

  jget-finds :
      (f : Field) (c : Char) (r : String)
      → IsField key f
      → ends_value c ≡ true
      → f.name ≡ key
      → jget (field_text f (Str.◌∷◌ c r)) key ≡ shown f.value
  unfolding has_prefix
  jget-finds f c r h hc same =
      let value = f.gap <> colon_text f (Str.◌∷◌ c r) in
      let joined : (key <> "\"") <> value ≡ key <> Str.◌∷◌ quote value =
        append_assoc key "\"" value ∙ ap (λ s. key <> s) (one_char quote value) in
      let here : has_prefix (key <> "\"") (key <> Str.◌∷◌ quote value) ≡ true =
        ap (has_prefix (key <> "\"")) (sym joined) ∙ has_prefix-append (key <> "\"") value in
      jget-skips f.lead (named_text f (Str.◌∷◌ c r)) (blank-unquoted f.lead h.lead)
      ∙ ap (λ j. jget (Str.◌∷◌ quote (j <> Str.◌∷◌ quote value)) key) same
      ∙ jget-pattern (Str.◌∷◌ quote (key <> Str.◌∷◌ quote value))
      ∙ ap value_found (find_text-hits pattern quote (key <> Str.◌∷◌ quote value) here)
      ∙ value_found-key f c r h hc

  jget-value :
      (v : Value) (c : Char) (r : String)
      → IsClearOf key v
      → ends_value c ≡ true
      → is_code 34 c ≡ false
      → jget (value_text v (Str.◌∷◌ c r)) key ≡ jget r key
  jget-value (quoted s behind) c r h hc hq =
      jget-passes ends_value s behind c r plain.unended hc hq h.0 h.1 h.2
  jget-value (bare x s) c r h hc hq =
      jget-misses x (s <> Str.◌∷◌ c r) (has_prefix-other x (s <> Str.◌∷◌ c r) h.0)
      ∙ jget-skips s (Str.◌∷◌ c r) h.3
      ∙ jget-misses c r (has_prefix-other c r hq)

  -- A field with another name is passed over.
  jget-ignores :
      (f : Field) (c : Char) (r : String)
      → IsField key f
      → f.name ≢ key
      → ends_value c ≡ true
      → is_code 34 c ≡ false
      → jget (field_text f (Str.◌∷◌ c r)) key ≡ jget r key
  jget-ignores f c r h n hc hq =
      let value = value_text f.value (Str.◌∷◌ c r) in
      jget-skips f.lead (named_text f (Str.◌∷◌ c r)) (blank-unquoted f.lead h.lead)
      ∙ jget-passes (is_code 58) f.name f.gap colon (f.space <> value) plain.undivided refl refl
          h.name n h.gap
      ∙ jget-skips f.space value (space-unquoted f.space h.space)
      ∙ jget-value f.value c r h.value hc hq

  field-jget :
      (f : Field) (c : Char) (r : String)
      → IsField key f
      → ends_value c ≡ true
      → is_code 34 c ≡ false
      → jget (field_text f (Str.◌∷◌ c r)) key
        ≡ (if str_eq f.name key then shown f.value else jget r key)
  field-jget f c r h hc hq = elim (Bool-cases (str_eq f.name key)) [
    | inl e ↦ rw e (jget-finds f c r h hc (str_eq→eq f.name key e))
    | inr e ↦
        let n : f.name ≢ key =
          λ p. false≢true (sym e ∙ ap (λ j. str_eq j key) p ∙ str_eq_refl key) in
        rw e (jget-ignores f c r h n hc hq)
  ]

  more-jget :
      (f : Field) (fs : List Field)
      → All (IsField key) (f ∷ fs)
      → jget (field_text f (more_text fs)) key ≡ field_of key (f ∷ fs)
  more-jget f [] h =
      field-jget f closing "" h.0 refl refl
      ∙ ap (λ s. if str_eq f.name key then shown f.value else s) jget-empty
  more-jget f (g ∷ fs) h =
      field-jget f comma (field_text g (more_text fs)) h.0 refl refl
      ∙ ap (λ s. if str_eq f.name key then shown f.value else s) (more-jget g fs h.1)

  -- What the engine takes for the value of a key in the text of an object is the value of the first
  -- field with the key, quoted or not, and the empty text where there is none. Blanks may stand around
  -- names and values, but between a colon and its value only spaces and tabs, and a value without
  -- quotation marks goes to the comma or brace behind it, with the blanks there. The key has no quotation
  -- mark, colon, comma, brace or blank; names and values have no quotation mark in them; a value without
  -- quotation marks has a first character, and no comma, brace or line feed; and no value is the key
  -- in quotation marks.
  pub jget-object_text :
      (fs : List Field) → All (IsField key) fs → jget (object_text fs) key ≡ field_of key fs
  unfolding has_prefix
  jget-object_text [] h =
      jget-misses (char 123 tt) (Str.◌∷◌ closing "") refl ∙ jget-misses closing "" refl ∙ jget-empty
  jget-object_text (f ∷ fs) h =
      jget-misses (char 123 tt) (field_text f (more_text fs)) refl ∙ more-jget f fs h
