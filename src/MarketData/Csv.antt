-- ===== src/MarketData/Csv.antt =====
-- `MarketDataParser::parse_csv` of src/journal/journal.cpp, on the contents of the file. The conversions
-- of texts to numbers are arguments, where `none` is an exception: `std::stoll` has one for a text that
-- is no number, and for a number that is no `int64_t`.
pub mod Rows
mod Examples
use Prim.Native.String as Str
use orderflow_replay_engine.Prelude.{
  List, [], ◌∷◌, Option, none, some, String, ℤ, pos, if◌then◌else◌,
}
use orderflow_replay_engine.Text.{parts, is_empty_text}
use orderflow_replay_engine.Double.{Double, to_price}
use orderflow_replay_engine.Types.{MarketDataTick, Quantity}

-- A conversion that throws ends the line.
infixl 5 ◌>>=◌
abbrev pub ◌>>=◌ {ℓ κ} : {A : Type ℓ} {B : Type κ} → Option A → (A → Option B) → Option B
none >>= f = none
some a >>= f = f a

-- The lines after the first.
abbrev pub without_header : List String → List String
without_header [] = []
without_header (l ∷ ls) = ls

module _ {ℓ} {W : Type ℓ} ⦃d : Double W⦄ (stoll : String → Option ℤ)
    (stod : String → Option W) where
  -- The eighth column, or 0 if there are only seven.
  unfoldable pub last_qty_of : List String → Option Quantity
  last_qty_of [] = some (pos 0)
  last_qty_of (col ∷ cols) = stoll col

  -- The tick of the columns, unless there are fewer than seven or a conversion throws.
  unfoldable pub tick_of_columns : List String → Option MarketDataTick
  unfolding last_qty_of
  tick_of_columns (c₀ ∷ c₁ ∷ c₂ ∷ c₃ ∷ c₄ ∷ c₅ ∷ c₆ ∷ more) = do
    timestamp ← stoll c₀
    bid_price ← stod c₂
    bid_qty ← stoll c₃
    ask_price ← stod c₄
    ask_qty ← stoll c₅
    last_price ← stod c₆
    last_qty ← last_qty_of more
    some (record {
      timestamp = timestamp;
      symbol = c₁;
      bid_price = to_price bid_price;
      bid_qty = bid_qty;
      ask_price = to_price ask_price;
      ask_qty = ask_qty;
      last_price = to_price last_price;
      last_qty = last_qty;
    })
  tick_of_columns cols = none

  unfoldable pub tick_of_line : String → Option MarketDataTick
  unfolding parts tick_of_columns
  tick_of_line line = if is_empty_text line then none else tick_of_columns (parts 44 line)

  -- The loop over the lines: a line that gives no tick is skipped.
  unfoldable pub ticks_of : List String → List MarketDataTick
  unfolding tick_of_line
  ticks_of [] = []
  ticks_of (line ∷ lines) = elim (tick_of_line line) [
    | none ↦ ticks_of lines
    | some t ↦ t ∷ ticks_of lines
  ]

  -- There are no ticks if the file cannot be opened.
  unfoldable pub parse_csv : Option String → List MarketDataTick
  unfolding ticks_of parts
  parse_csv none = []
  parse_csv (some text) = ticks_of (without_header (parts 10 text))
