-- ===== src/MarketData/Csv/Rows.antt =====
-- `parse_csv` of src/journal/journal.cpp on a file, row by row.
use Prim.Native.Char.{Char, char}
use Prim.Native.String as Str
use Prim.Native.String.append
use orderflow_replay_engine.Prelude.{
  ◌≡◌, refl, sym, ap, ◌∙◌, Bool, false, ◌||◌, List, [], ◌∷◌, map, Option, none, some, String, ℤ,
  pos, All, All-map, subst, arith,
}
use orderflow_replay_engine.Text.{◌<>◌, is_code, is_empty_text, parts}
use orderflow_replay_engine.Text.Search.{Lacks}
use orderflow_replay_engine.Text.Parts.{parts-append, parts-last, Lacks-append, Lacks-weaker}
use orderflow_replay_engine.Double.{Double, to_price}
use orderflow_replay_engine.Types.{MarketDataTick, Price, Quantity}
use orderflow_replay_engine.MarketData.Csv.{
  tick_of_columns, tick_of_line, ticks_of, parse_csv, last_qty_of, without_header,
}

abbrev comma : Char
comma = char 44 tt

abbrev line_feed : Char
line_feed = char 10 tt

abbrev pub divides : Char → Bool
divides c = is_code 44 c || is_code 10 c

-- The texts of a row's columns; behind the first seven there may be more.
pub record Columns : Type 0 where
  pub timestamp : String
  pub symbol : String
  pub bid_price : String
  pub bid_qty : String
  pub ask_price : String
  pub ask_qty : String
  pub last_price : String
  pub more : List String

abbrev later_columns : Columns → List String
later_columns c =
    c.symbol ∷ c.bid_price ∷ c.bid_qty ∷ c.ask_price ∷ c.ask_qty ∷ c.last_price ∷ c.more

abbrev pub columns_of : Columns → List String
columns_of c = c.timestamp ∷ later_columns c

-- A row of the file: a tick with the texts of its columns, or a line that is something else.
pub data Row : Type 0 where
  tick_row : MarketDataTick → Columns → Row
  other_row : String → Row

-- The columns, with a comma between them.
abbrev pub columns_text : List String → String
columns_text [] = ""
columns_text (c ∷ []) = c
columns_text (c ∷ e ∷ cs) = c <> Str.◌∷◌ comma (columns_text (e ∷ cs))

-- The lines, with a line feed after each.
abbrev pub lines_text : List String → String
lines_text [] = ""
lines_text (l ∷ ls) = l <> Str.◌∷◌ line_feed (lines_text ls)

lines_text-parts : (ls : List String) → All (Lacks (is_code 10)) ls → parts 10 (lines_text ls) ≡ ls
unfolding parts
lines_text-parts [] h = refl
lines_text-parts (l ∷ ls) h =
    parts-append 10 l line_feed (lines_text ls) h.0 refl ∙ ap (λ r. l ∷ r) (lines_text-parts ls h.1)

-- The last column is not empty.
abbrev EndsFull : List String → Type 0
EndsFull [] = Unit
EndsFull (c ∷ []) = (x : Char) × (s : String) × (c ≡ Str.◌∷◌ x s)
EndsFull (c ∷ e ∷ cs) = EndsFull (e ∷ cs)

columns_text-parts :
    (cs : List String) → All (Lacks (is_code 44)) cs → EndsFull cs → parts 44 (columns_text cs) ≡ cs
unfolding parts
columns_text-parts [] h f = refl
columns_text-parts (c ∷ []) h (x, s, e) =
    ap (parts 44) e
    ∙ parts-last 44 x s (subst (Lacks (is_code 44)) e h.0)
    ∙ ap (λ a. a ∷ []) (sym e)
columns_text-parts (c ∷ e ∷ cs) h f =
    parts-append 44 c comma (columns_text (e ∷ cs)) h.0 refl
    ∙ ap (λ r. c ∷ r) (columns_text-parts (e ∷ cs) h.1 f)

columns_text-Lacks :
    (p : Char → Bool) (cs : List String)
    → p comma ≡ false
    → All (Lacks p) cs
    → Lacks p (columns_text cs)
columns_text-Lacks p [] hc h = tt
columns_text-Lacks p (c ∷ []) hc h = h.0
columns_text-Lacks p (c ∷ e ∷ cs) hc h =
    Lacks-append p c (Str.◌∷◌ comma (columns_text (e ∷ cs))) h.0
      (hc, columns_text-Lacks p (e ∷ cs) hc h.1)

no_comma : (u : String) → Lacks divides u → Lacks (is_code 44) u
no_comma = Lacks-weaker divides (is_code 44) (λ c h. ground (arith, h))

no_line_feed : (u : String) → Lacks divides u → Lacks (is_code 10) u
no_line_feed = Lacks-weaker divides (is_code 10) (λ c h. ground (arith, h))

append_comma-full : (u r : String) → is_empty_text (u <> Str.◌∷◌ comma r) ≡ false
append_comma-full Str.[] r = rw (append.nil (Str.◌∷◌ comma r)) refl
append_comma-full (Str.◌∷◌ x u) r = rw (append.cons x u (Str.◌∷◌ comma r)) refl

abbrev pub row_text : Row → String
row_text (tick_row t c) = columns_text (columns_of c)
row_text (other_row s) = s

-- The ticks of the rows.
abbrev pub ticks_in : List Row → List MarketDataTick
ticks_in [] = []
ticks_in (tick_row t c ∷ rows) = t ∷ ticks_in rows
ticks_in (other_row s ∷ rows) = ticks_in rows

module _ {ℓ} {W : Type ℓ} ⦃d : Double W⦄ (stoll : String → Option ℤ)
    (stod : String → Option W) where
  -- The text is converted, and the price is made of the number.
  abbrev pub IsPrice : String → Price → Type ℓ
  IsPrice text p = (x : W) × (stod text ≡ some x) × (to_price x ≡ p)

  -- The quantity of the eighth column, or 0 if there is none.
  abbrev pub IsLastQty : List String → Quantity → Type 0
  IsLastQty [] q = q ≡ pos 0
  IsLastQty (text ∷ more) q = stoll text ≡ some q

  -- The columns say the tick, as the conversions read them; no column has a comma or a line feed in
  -- it, and the last is not empty.
  pub record Reads (t : MarketDataTick) (c : Columns) : Type ℓ where
    pub timestamp_eq : stoll c.timestamp ≡ some t.timestamp
    pub symbol_eq : c.symbol ≡ t.symbol
    pub bid_price_eq : IsPrice c.bid_price t.bid_price
    pub bid_qty_eq : stoll c.bid_qty ≡ some t.bid_qty
    pub ask_price_eq : IsPrice c.ask_price t.ask_price
    pub ask_qty_eq : stoll c.ask_qty ≡ some t.ask_qty
    pub last_price_eq : IsPrice c.last_price t.last_price
    pub last_qty_eq : IsLastQty c.more t.last_qty
    pub plain : All (Lacks divides) (columns_of c)
    pub full : EndsFull (columns_of c)

  -- A line of something else has no line feed, and gives no tick.
  pub data IsRow : Row → Type ℓ where
    is_tick : {t : MarketDataTick} {c : Columns} → Reads t c → IsRow (tick_row t c)
    is_other :
        {s : String} → Lacks (is_code 10) s → tick_of_line stoll stod s ≡ none → IsRow (other_row s)

  last_qty_of-reads :
      (more : List String) (q : Quantity) → IsLastQty more q → last_qty_of stoll stod more ≡ some q
  unfolding last_qty_of
  last_qty_of-reads [] q h = ap some (sym h)
  last_qty_of-reads (text ∷ more) q h = h

  columns_of-tick :
      (t : MarketDataTick) (c : Columns)
      → Reads t c
      → tick_of_columns stoll stod (columns_of c) ≡ some t
  unfolding tick_of_columns
  columns_of-tick t c r =
      let (b, be, bp) = r.bid_price_eq in
      let (a, ae, ap) = r.ask_price_eq in
      let (l, le, lp) = r.last_price_eq in
      rw
        (
          r.timestamp_eq,
          be,
          r.bid_qty_eq,
          ae,
          r.ask_qty_eq,
          le,
          last_qty_of-reads c.more t.last_qty r.last_qty_eq,
          r.symbol_eq,
          bp,
          ap,
          lp,
        )
        refl

  row-tick :
      (t : MarketDataTick) (c : Columns)
      → Reads t c
      → tick_of_line stoll stod (columns_text (columns_of c)) ≡ some t
  unfolding tick_of_line
  row-tick t c r =
      let cs = columns_of c in
      let commas = All-map (Lacks divides) (Lacks (is_code 44)) no_comma cs r.plain in
      rw (append_comma-full c.timestamp (columns_text (later_columns c))) (
        ap (tick_of_columns stoll stod) (columns_text-parts cs commas r.full)
        ∙ columns_of-tick t c r)

  row-one_line : (row : Row) → IsRow row → Lacks (is_code 10) (row_text row)
  row-one_line (tick_row t c) (is_tick r) =
      columns_text-Lacks (is_code 10) (columns_of c) refl
        (All-map (Lacks divides) (Lacks (is_code 10)) no_line_feed (columns_of c) r.plain)
  row-one_line (other_row s) (is_other h n) = h

  rows-one_line : (rows : List Row) → All IsRow rows → All (Lacks (is_code 10)) (map row_text rows)
  rows-one_line [] h = tt
  rows-one_line (row ∷ rows) h = (row-one_line row h.0, rows-one_line rows h.1)

  rows-ticks :
      (rows : List Row) → All IsRow rows → ticks_of stoll stod (map row_text rows) ≡ ticks_in rows
  unfolding ticks_of
  rows-ticks [] h = refl
  rows-ticks (tick_row t c ∷ rows) (is_tick r, h) =
      rw (ticks_of, row-tick t c r) (ap (λ ts. t ∷ ts) (rows-ticks rows h))
  rows-ticks (other_row s ∷ rows) (is_other k n, h) = rw (ticks_of, n) (rows-ticks rows h)

  -- A file of a header and rows, each with a line feed behind it, gives the ticks that its columns say,
  -- all and in their order: seven columns or more, each converted without an exception. A row from which
  -- no tick can be made is skipped and does not disturb the others.
  pub parse_csv-rows :
      (header : String) (rows : List Row)
      → Lacks (is_code 10) header
      → All IsRow rows
      → parse_csv stoll stod (some (lines_text (header ∷ map row_text rows))) ≡ ticks_in rows
  unfolding parse_csv
  parse_csv-rows header rows hh h =
      ap (λ ls. ticks_of stoll stod (without_header ls))
        (lines_text-parts (header ∷ map row_text rows) (hh, rows-one_line rows h))
      ∙ rows-ticks rows h
