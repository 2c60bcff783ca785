-- ===== src/Journal/Session.antt =====
-- A session of `BinaryJournal` of src/journal/journal.cpp: what its methods write, and what is read
-- from the file afterwards.
use mathlib.Core.List.{append_assoc, append-nil}
use Prim.Native.String as Str
use orderflow_replay_engine.Prelude.{
  ℕ, zero, suc, ◌+◌, ◌<◌, ◌%◌, ◌≡◌, refl, sym, ◌∙◌, ap, true, List, [], ◌∷◌, ◌++◌, map, length,
  length-append, All, String, arith,
}
use orderflow_replay_engine.Types.{Timestamp, Order, Trade, MarketDataTick}
use orderflow_replay_engine.Journal.{
  JournalRecordType, trade, tick, session_start, session_end, type_byte, to_bytes, word64, checksum,
  Record, record_bytes, Writer, magic, open_write, write_record, order_payload, trade_payload,
  tick_payload, text_field, write_order, write_trade, write_tick, write_session_start,
  write_session_end,
}
use orderflow_replay_engine.Journal.Reader.{reading, open_read, read_all}
use orderflow_replay_engine.Journal.Bytes.{length-to_bytes}
use orderflow_replay_engine.Journal.RoundTrip.{
  read_all-end, IsReadable, stored_with, bytes_of, read_all-bytes_of,
}

-- A call of one of the writing methods.
pub data Entry : Type 0 where
  an_order : JournalRecordType → Order → Entry
  a_trade : Trade → Entry
  a_tick : MarketDataTick → Entry
  a_start an_end : Timestamp → Entry

abbrev pub write_entry : Entry → Writer → Writer
write_entry (an_order type o) w = write_order type o w
write_entry (a_trade t) w = write_trade t w
write_entry (a_tick t) w = write_tick t w
write_entry (a_start now) w = write_session_start now w
write_entry (an_end now) w = write_session_end now w

abbrev pub write_entries : List Entry → Writer → Writer
write_entries [] w = w
write_entries (e ∷ es) w = write_entries es (write_entry e w)

-- The record that a call leaves in the file.
abbrev pub record_of : Entry → Record
record_of (an_order type o) = record { type = type_byte type; payload = order_payload o }
record_of (a_trade t) = record { type = type_byte trade; payload = trade_payload t }
record_of (a_tick t) = record { type = type_byte tick; payload = tick_payload t }
record_of (a_start now) = record {
  type = type_byte session_start;
  payload = to_bytes 8 (word64 now);
}
record_of (an_end now) = record { type = type_byte session_end; payload = to_bytes 8 (word64 now) }

type_byte-lt : (t : JournalRecordType) → type_byte t < 256
type_byte-lt JournalRecordType.order_new = omega arith
type_byte-lt JournalRecordType.order_cancel = omega arith
type_byte-lt JournalRecordType.order_modify = omega arith
type_byte-lt JournalRecordType.trade = omega arith
type_byte-lt JournalRecordType.tick = omega arith
type_byte-lt JournalRecordType.snapshot = omega arith
type_byte-lt JournalRecordType.session_start = omega arith
type_byte-lt JournalRecordType.session_end = omega arith

length-text_field : (n : ℕ) (s : String) → length (text_field n s) ≡ suc n
unfolding text_field
length-text_field zero s = refl
length-text_field (suc n) Str.[] = omega (arith, length-text_field n Str.[])
length-text_field (suc n) (Str.◌∷◌ c s) =
    ground (arith, length-text_field n Str.[], length-text_field n s)

-- The sizes of the packed structures, in bytes.
pub length-order_payload : (o : Order) → length (order_payload o) ≡ 83
unfolding order_payload
length-order_payload o = simp (length-append, length-to_bytes, length-text_field) (omega arith)

pub length-trade_payload : (t : Trade) → length (trade_payload t) ≡ 64
unfolding trade_payload
length-trade_payload t = simp (length-append, length-to_bytes, length-text_field) (omega arith)

pub length-tick_payload : (t : MarketDataTick) → length (tick_payload t) ≡ 72
unfolding tick_payload
length-tick_payload t = simp (length-append, length-to_bytes, length-text_field) (omega arith)

record_of-IsReadable : (e : Entry) → IsReadable (record_of e)
record_of-IsReadable (an_order t o) = record {
  type_lt = type_byte-lt t;
  size_le = omega (arith, length-order_payload o);
}
record_of-IsReadable (a_trade t) = record {
  type_lt = type_byte-lt trade;
  size_le = omega (arith, length-trade_payload t);
}
record_of-IsReadable (a_tick t) = record {
  type_lt = type_byte-lt tick;
  size_le = omega (arith, length-tick_payload t);
}
record_of-IsReadable (a_start now) = record {
  type_lt = type_byte-lt session_start;
  size_le = omega (arith, length-to_bytes 8 (word64 now));
}
record_of-IsReadable (an_end now) = record {
  type_lt = type_byte-lt session_end;
  size_le = omega (arith, length-to_bytes 8 (word64 now));
}

records_of-IsReadable : (es : List Entry) → All IsReadable (map record_of es)
records_of-IsReadable [] = tt
records_of-IsReadable (e ∷ es) = (record_of-IsReadable e, records_of-IsReadable es)

record_bytes-stored_with :
    (r : Record) → r.type < 256 → record_bytes r ≡ stored_with (checksum r.payload) r
unfolding record_bytes
record_bytes-stored_with r h =
    let e : r.type % 256 ≡ r.type = omega (arith, h) in rw e (simp append_assoc refl)

-- A writer that is open at these bytes, after so many records.
abbrev writing : List ℕ → ℕ → Writer
writing bs n = record { is_open = true; bytes = bs; records_written = n }

write_entry-writing :
    (e : Entry) (bs : List ℕ) (n : ℕ)
    → write_entry e (writing bs n) ≡ writing (bs ++ record_bytes (record_of e)) (suc n)
unfolding write_order write_trade write_tick write_session_start write_session_end write_record
write_entry-writing (an_order t o) bs n = refl
write_entry-writing (a_trade t) bs n = refl
write_entry-writing (a_tick t) bs n = refl
write_entry-writing (a_start now) bs n = refl
write_entry-writing (an_end now) bs n = refl

write_entries-writing :
    (es : List Entry) (bs : List ℕ) (n : ℕ)
    → write_entries es (writing bs n) ≡ writing (bs ++ bytes_of (map record_of es)) (n + length es)
write_entries-writing [] bs n = let e : n + 0 ≡ n = omega arith in rw (append-nil bs, e) refl
write_entries-writing (e ∷ es) bs n =
    let r = record_of e in
    let stored = record_bytes-stored_with r (record_of-IsReadable e).type_lt in
    let rest = write_entries-writing es (bs ++ record_bytes r) (suc n) in
    let whole : bs ++ record_bytes r ++ bytes_of (map record_of es)
        ≡ bs ++ bytes_of (map record_of (e ∷ es)) =
      append_assoc bs (record_bytes r) (bytes_of (map record_of es))
      ∙ ap (λ xs. bs ++ (xs ++ bytes_of (map record_of es))) stored in
    let more : suc n + length es ≡ n + length (e ∷ es) = omega arith in
    ap (write_entries es) (write_entry-writing e bs n)
    ∙ rest
    ∙ ap (λ xs. writing xs (suc n + length es)) whole
    ∙ ap (writing (bs ++ bytes_of (map record_of (e ∷ es)))) more

open_read-magic : (bs : List ℕ) → (open_read true (magic ++ bs)).0 ≡ reading bs
unfolding open_read
open_read-magic bs = refl

module _ (stale : List ℕ → ℕ) (w : Writer) (es : List Entry) where
  abbrev pub written : Writer
  written = write_entries es (open_write true w).0

  -- Whatever is written to a journal that was opened, the file that is read back has exactly these
  -- records, in their order, and `records_written` has grown by their number.
  pub session_read :
      (read_all stale (open_read true written.bytes).0 ≡ map record_of es)
      × (written.records_written ≡ w.records_written + length es)
  unfolding open_write
  session_read =
      let e = write_entries-writing es magic w.records_written in
      let rs = map record_of es in
      let file : written.bytes ≡ magic ++ bytes_of rs = ap (λ x. x.bytes) e in
      (
        ap (λ bs. read_all stale (open_read true bs).0) file
            ∙ ap (read_all stale) (open_read-magic (bytes_of rs))
            ∙ ap (λ bs. read_all stale (reading bs)) (sym (append-nil (bytes_of rs)))
            ∙ read_all-bytes_of stale rs [] (records_of-IsReadable es)
            ∙ ap (λ xs. rs ++ xs) (read_all-end stale)
            ∙ append-nil rs,
        ap (λ x. x.records_written) e,
      )
