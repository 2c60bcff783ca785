-- ===== src/Json/Examples.antt =====
-- Texts as src/network/serializer.hpp writes them.
use orderflow_replay_engine.Prelude.{◌≡◌, some}
use orderflow_replay_engine.Text.{◌<>◌}
use orderflow_replay_engine.Json.{str}
use orderflow_replay_engine.Json.Strings.{parse_string, str-parse_string}

str-parse_string_example :
    parse_string (str "say \"no\" \\" <> ",\"id\":1") ≡ some ("say \"no\" \\", ",\"id\":1")
str-parse_string_example = str-parse_string "say \"no\" \\" ",\"id\":1"
