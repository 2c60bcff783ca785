-- ===== src/Engine/Fields.antt =====
-- `jget` of src/engine_cli.cpp: the value of a key in a JSON text, as the engine looks it up.
pub mod Strings
use Prim.Native.Char.{Char}
use Prim.Native.String as Str
use orderflow_replay_engine.Prelude.{Bool, ◌||◌, Option, none, some, String, if◌then◌else◌}
use orderflow_replay_engine.Text.{◌<>◌, is_code, find_text, after_code, skip_blanks, until}

-- The characters of "}\n", which end a value that is not quoted.
abbrev pub ends_value : Char → Bool
ends_value c = is_code 44 c || is_code 125 c || is_code 10 c

-- The value at the start of a text.
unfoldable pub value_at : String → String
value_at Str.[] = ""
value_at (Str.◌∷◌ c s) =
    if is_code 34 c then until (is_code 34) s else until ends_value (Str.◌∷◌ c s)

-- From what `find` gives for the key: what follows the colon after it.
unfoldable pub value_found : Option String → String
unfolding after_code skip_blanks value_at
value_found none = ""
value_found (some s) = elim (after_code 58 s) [ none ↦ "" | some t ↦ value_at (skip_blanks t) ]

unfoldable pub jget : String → String → String
unfolding find_text value_found
jget body key = value_found (find_text ("\"" <> key <> "\"") body)
