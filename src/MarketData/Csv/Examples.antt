-- ===== src/MarketData/Csv/Examples.antt =====
-- A file of two rows for `parse_csv` of src/journal/journal.cpp.
use Prim.Native.Char.{Char, char, code}
use Prim.Native.String as Str
use orderflow_replay_engine.Prelude.{
  ℕ, ◌+◌, ◌*◌, ◌-◌, ◌≡◌, refl, Bool, ◌&&◌, leb, List, [], ◌∷◌, map, Option, none, some, String, pos,
  ℤ, ◌*ℤ◌, if◌then◌else◌,
}
use orderflow_replay_engine.Text.{is_code, parts}
use orderflow_replay_engine.Text.Search.{Lacks}
use orderflow_replay_engine.Types.{MarketDataTick}
use orderflow_replay_engine.Double.{Double, ticks_double, to_price}
use orderflow_replay_engine.MarketData.Csv.{tick_of_columns, tick_of_line, parse_csv}
use orderflow_replay_engine.MarketData.Csv.Rows.{
  Columns, Row, tick_row, other_row, Reads, is_tick, is_other, lines_text, row_text, parse_csv-rows,
}

instance abbrev ticks : Double ℤ
ticks = ticks_double

abbrev is_digit : Char → Bool
is_digit c = leb 48 (code c) && leb (code c) 57

-- The number of the digits at the front, behind those already read.
abbrev digits_from : ℕ → String → ℕ
digits_from n Str.[] = n
digits_from n (Str.◌∷◌ c s) =
    let later = digits_from (n * 10 + (code c - 48)) s in if is_digit c then later else n

-- An exception where no digit stands first, and where the number is beyond `int64_t`.
abbrev digits_stoll : String → Option ℤ
digits_stoll Str.[] = none
digits_stoll (Str.◌∷◌ c s) =
    let n = digits_from 0 (Str.◌∷◌ c s) in
    if is_digit c && leb n 9_223_372_036_854_775_807 then some (pos n) else none

-- The same for whole numbers of dollars.
abbrev digits_stod : String → Option ℤ
digits_stod s = elim (digits_stoll s) [ none ↦ none | some n ↦ some (n *ℤ pos 10000) ]

beyond_int64 : digits_stoll "9223372036854775808" ≡ none
beyond_int64 = refl

abbrev first_tick : MarketDataTick
first_tick = record {
  timestamp = pos 5;
  symbol = "AAPL";
  bid_price = pos 20_000;
  bid_qty = pos 1;
  ask_price = pos 30_000;
  ask_qty = pos 1;
  last_price = pos 20_000;
  last_qty = pos 0;
}

abbrev first_columns : Columns
first_columns = record {
  timestamp = "5";
  symbol = "AAPL";
  bid_price = "2";
  bid_qty = "1";
  ask_price = "3";
  ask_qty = "1";
  last_price = "2";
  more = [];
}

abbrev two_rows : List Row
two_rows = other_row "4,AAPL" ∷ tick_row first_tick first_columns ∷ []

broken_row : tick_of_line digits_stoll digits_stod "4,AAPL" ≡ none
unfolding tick_of_line parts tick_of_columns
broken_row = refl

two_dollars : to_price (pos 20_000) ≡ pos 20_000
unfolding to_price ◌*ℤ◌
two_dollars = refl

three_dollars : to_price (pos 30_000) ≡ pos 30_000
unfolding to_price ◌*ℤ◌
three_dollars = refl

first_row : Reads digits_stoll digits_stod first_tick first_columns
unfolding ◌*ℤ◌
first_row = record {
  timestamp_eq = refl;
  symbol_eq = refl;
  bid_price_eq = (pos 20_000, refl, two_dollars);
  bid_qty_eq = refl;
  ask_price_eq = (pos 30_000, refl, three_dollars);
  ask_qty_eq = refl;
  last_price_eq = (pos 20_000, refl, two_dollars);
  last_qty_eq = refl;
  plain = (
    (refl, tt),
    (
      (refl, (refl, (refl, (refl, tt)))),
      ((refl, tt), ((refl, tt), ((refl, tt), ((refl, tt), ((refl, tt), tt))))),
    ),
  );
  full = (char 50 tt, "", refl);
}

six_plain : Lacks (is_code 10) "header"
six_plain = (refl, (refl, (refl, (refl, (refl, (refl, tt))))))

plain_row : Lacks (is_code 10) "4,AAPL"
plain_row = (refl, (refl, (refl, (refl, (refl, (refl, tt))))))

parse_csv-rows_example :
    parse_csv digits_stoll digits_stod (some (lines_text ("header" ∷ map row_text two_rows)))
    ≡ first_tick ∷ []
parse_csv-rows_example =
    parse_csv-rows digits_stoll digits_stod "header" two_rows six_plain
      (is_other plain_row broken_row, (is_tick first_row, tt))
