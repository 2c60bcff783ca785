-- ===== src/Engine/Examples.antt =====
-- Some lines for the engine of src/engine_cli.cpp, and the theorems at them.
use Prim.Native.Char.{char}
use mathlib.Core.Bool.{false≢true}
use orderflow_replay_engine.Prelude.{
  ◌≡◌, ◌≢◌, refl, arith, length, ap, List, [], ◌∷◌, none, some, String, ℤ, pos, str_eq,
  if◌then◌else◌,
}
use orderflow_replay_engine.Double.{Double, ticks_double}
use orderflow_replay_engine.Engine.{Engine, Host, Clock}
use orderflow_replay_engine.Engine.Fields.{jget}
use orderflow_replay_engine.Engine.Fields.Strings.{
  Field, quoted, bare, object_text, IsKey, jget-object_text,
}
use orderflow_replay_engine.Engine.Commands.{globals, new_engine, serve}
use orderflow_replay_engine.Engine.Running.{IsServing}
use orderflow_replay_engine.Engine.Served.{serve-IsServing}
use orderflow_replay_engine.Text.{find_text, has_prefix, after_code, skip_blanks, until}
use orderflow_replay_engine.Types.{MarketDataTick}
use orderflow_replay_engine.Engine.Fields.{value_found, value_at}
use orderflow_replay_engine.Engine.Orders.{step_count, step_from}
use orderflow_replay_engine.Engine.Limits.{Leaks, risk_limits-leak}
use orderflow_replay_engine.Engine.Feed.{given, IsHeld, step_from-count}
use orderflow_replay_engine.Engine.Logs.Bounds.{IsLogged, serve-IsLogged}

instance abbrev ticks : Double ℤ
ticks = ticks_double

abbrev some_host : Host ℤ
some_host = record {
  stod = λ s. if str_eq s "100" then some (pos 1_000_000) else none;
  stoi = λ s. if str_eq s "5" then some (pos 5) else none;
  stoll = λ s. if str_eq s "20" then some (pos 20) else none;
  stoull = λ s. if str_eq s "1" then some 1 else none;
  sort_samples = λ xs. xs;
  sort_ticks = λ ts. ts;
  draws = λ seed volatility. record {
    noise = λ i. pos 0;
    bid_qty = λ i. pos 100;
    ask_qty = λ i. pos 200;
    last_qty = λ i. pos 300;
  };
  shown = λ x. "0.0000";
}

abbrev some_clock : Clock
some_clock = record {
  snapshot = pos 1;
  submit = record {
    start = pos 1;
    rate_check = pos 2;
    approval = pos 3;
    stamp = pos 4;
    trade = λ n. pos 5;
    finish = pos 6;
  };
  step = λ i. (pos 7, pos 8);
  replay = λ i. record {
    start = pos 1;
    tick_start = pos 1;
    tick_finish = pos 2;
    snapshot = pos 3;
    finish = pos 9;
  };
  replay_submit = λ id. record {
    start = pos 1;
    rate_check = pos 2;
    approval = pos 3;
    stamp = pos 4;
    trade = λ n. pos 5;
    finish = pos 6;
  };
  replay_elapsed = pos 10;
}

abbrev some_lines : List (Clock × String)
some_lines =
    (some_clock, "order {\"symbol\":\"AAPL\",\"side\":\"SELL\",\"price\":100,\"qty\":20}")
    ∷ (some_clock, "order {\"side\":\"BUY\",\"price\":100,\"qty\":20}")
    ∷ (some_clock, "")
    ∷ (some_clock, "reset")
    ∷ []

serve-IsServing_example : IsServing (serve some_host some_lines (new_engine some_host)).0
serve-IsServing_example = serve-IsServing some_host some_lines

serve-IsLogged_example : IsLogged (serve some_host some_lines (new_engine some_host)).0
serve-IsLogged_example = serve-IsLogged some_host some_lines

-- {"side": "BUY", "qty": 20}, as Python writes it.
abbrev some_fields : List Field
some_fields =
    record { lead = ""; name = "side"; gap = ""; space = " "; value = quoted "BUY" "" }
    ∷ record { lead = " "; name = "qty"; gap = ""; space = " "; value = bare (char 50 tt) "0" }
    ∷ []

qty-IsKey : IsKey "qty"
qty-IsKey = record {
  unquoted = (refl, (refl, (refl, tt)));
  undivided = (refl, (refl, (refl, tt)));
  unended = (refl, (refl, (refl, tt)));
  unspaced = (refl, (refl, (refl, tt)));
}

buy_is_not_qty : ◌≢◌ {A = String} "BUY" "qty"
buy_is_not_qty p = false≢true (ap (λ s. str_eq s "qty") p)

some_text : object_text some_fields ≡ "{\"side\": \"BUY\", \"qty\": 20}"
some_text = refl

jget-object_text_example : jget (object_text some_fields) "qty" ≡ "20"
jget-object_text_example = jget-object_text "qty" qty-IsKey some_fields (
  record {
    name = (refl, (refl, (refl, (refl, tt))));
    value = ((refl, (refl, (refl, tt))), buy_is_not_qty, tt);
    lead = tt;
    gap = tt;
    space = (refl, tt);
  },
  (
    record {
      name = (refl, (refl, (refl, tt)));
      value = (refl, refl, refl, (refl, tt), (refl, tt));
      lead = (refl, tt);
      gap = tt;
      space = (refl, tt);
    },
    tt,
  ),
)

-- Limits of which the first can be read and the second cannot.
abbrev half_limits : String
half_limits = "{\"max_order_qty\":\"20\",\"max_position\":\"many\"}"

reads_qty : some_host.stoll (jget half_limits "max_order_qty") ≡ some (pos 20)
unfolding jget find_text has_prefix value_found after_code skip_blanks value_at until
reads_qty = refl

reads_no_position : some_host.stoll (jget half_limits "max_position") ≡ none
unfolding jget find_text has_prefix value_found after_code skip_blanks value_at until
reads_no_position = refl

risk_limits-leak_example : Leaks some_host half_limits globals (pos 20)
risk_limits-leak_example =
    risk_limits-leak some_host half_limits globals (pos 20) reads_qty reads_no_position

-- What `jget` makes of a text with a quotation mark in it: it ends at the mark, behind the backslash.
escaped_cut : jget "{\"client_id\":\"a\\\"b\"}" "client_id" ≡ "a\\"
unfolding jget find_text has_prefix value_found after_code skip_blanks value_at until
escaped_cut = refl

-- And of a value that is the key itself.
key_as_value : jget "{\"client_id\":\"qty\",\"price\":3,\"qty\":5}" "qty" ≡ "3"
unfolding jget find_text has_prefix value_found after_code skip_blanks value_at until
key_as_value = refl

abbrev one_tick : MarketDataTick
one_tick = record {
  timestamp = pos 5;
  symbol = "AAPL";
  bid_price = pos 2;
  bid_qty = pos 1;
  ask_price = pos 3;
  ask_qty = pos 1;
  last_price = pos 2;
  last_qty = pos 0;
}

abbrev fed : Engine ℤ
fed = record globals { tick_feed = one_tick ∷ [] }

step_from-count_example :
    IsHeld (pos 5) (length (step_from some_clock (step_count some_host.stoi "5") 0 fed).1)
step_from-count_example =
    step_from-count some_clock some_host.stoi "5" (pos 5) fed (given refl refl) (omega arith)
