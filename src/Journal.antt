-- ===== src/Journal.antt =====
-- src/journal/journal.hpp and src/journal/journal.cpp, `class BinaryJournal`. A file is the list of its
-- bytes, each a number below 256, and the bytes of a text are the codes of its characters, which are
-- ASCII. Integers are written as the host holds them, the lowest byte first.
pub mod Reader
pub mod Bytes
pub mod Session
pub mod Damage
pub mod RoundTrip
pub mod Reading
mod Examples
use Prim.Native.Nat.{bit_and, bit_xor}
use Prim.Native.Char.{code}
use Prim.Native.String as Str
use orderflow_replay_engine.Prelude.{
  ℕ, zero, suc, ◌+◌, ◌-◌, ◌*◌, ◌/◌, ◌%◌, ◌^◌, Bool, true, false, not, ◌&&◌, ◌||◌, List, [], ◌∷◌,
  ◌++◌, Option, none, some, String, ℤ, pos, negsuc, ltb, ◌==◌, if◌then◌else◌, length, take, drop,
}
use orderflow_replay_engine.Types.{
  Timestamp, Side, buy, sell, OrderType, limit, market, ioc, fok, OrderStatus, Order, Trade,
  MarketDataTick,
}

pub data JournalRecordType : Type 0 where
  order_new order_cancel order_modify trade tick snapshot session_start session_end :
      JournalRecordType

-- The number of a record's type.
abbrev pub type_byte : JournalRecordType → ℕ
type_byte order_new = 1
type_byte order_cancel = 2
type_byte order_modify = 3
type_byte trade = 4
type_byte tick = 5
type_byte snapshot = 6
type_byte session_start = 7
type_byte session_end = 8

-- `n` bytes of an integer, and the integer of some bytes.
unfoldable pub to_bytes : ℕ → ℕ → List ℕ
to_bytes zero v = []
to_bytes (suc n) v = v % 256 ∷ to_bytes n (v / 256)

unfoldable pub from_bytes : List ℕ → ℕ
from_bytes [] = 0
from_bytes (b ∷ bs) = b + 256 * from_bytes bs

-- The bits of an `int64_t`.
abbrev pub word64 : ℤ → ℕ
word64 (pos n) = n % 2 ^ 64
word64 (negsuc n) = 2 ^ 64 - 1 - n % 2 ^ 64

-- `uint32_t`, and its negation
abbrev pub wrap32 : ℕ → ℕ
wrap32 n = n % 2 ^ 32

abbrev pub neg32 : ℕ → ℕ
neg32 n = (2 ^ 32 - n % 2 ^ 32) % 2 ^ 32

-- The inner loop of `checksum`, with `n` passes to go.
unfoldable pub crc_bits : ℕ → ℕ → ℕ
crc_bits zero crc = crc
crc_bits (suc n) crc =
    crc_bits n (wrap32 (bit_xor (crc / 2) (bit_and 0xEDB88320 (neg32 (bit_and crc 1)))))

unfoldable pub crc_from : ℕ → List ℕ → ℕ
unfolding crc_bits
crc_from crc [] = crc
crc_from crc (b ∷ bs) = crc_from (crc_bits 8 (wrap32 (bit_xor crc b))) bs

unfoldable pub checksum : List ℕ → ℕ
unfolding crc_from
checksum bs = wrap32 (bit_xor (crc_from 0xFFFFFFFF bs) 0xFFFFFFFF)

-- `BinaryJournal::Record`. The type is the byte of the file, which is cast and not tested.
pub record Record : Type 0 where
  pub type : ℕ
  pub payload : List ℕ

-- What `write_record` puts into the file.
unfoldable pub record_bytes : Record → List ℕ
record_bytes r =
    r.type % 256 ∷ to_bytes 4 (length r.payload) ++ r.payload ++ to_bytes 4 (checksum r.payload)

-- The journal while it is written to.
pub record Writer : Type 0 where
  pub is_open : Bool
  pub bytes : List ℕ
  pub records_written : ℕ

-- `magic`, "HFTJ\x01\x00"
abbrev pub magic : List ℕ
magic = 72 ∷ 70 ∷ 84 ∷ 74 ∷ 1 ∷ 0 ∷ []

-- `open_write`; `opens` is whether the file system lets the file be opened.
unfoldable pub open_write : Bool → Writer → Writer × Bool
open_write true w = (record w { is_open = true; bytes = magic }, true)
open_write false w = (w, false)

unfoldable pub write_record : JournalRecordType → List ℕ → Writer → Writer
write_record type data_bytes w = if not w.is_open then w else record w {
  bytes = w.bytes ++ record_bytes (record { type = type_byte type; payload = data_bytes });
  records_written = suc w.records_written;
}

-- `strncpy` of at most `n` characters into a field of zeros with `suc n` bytes.
unfoldable pub text_field : ℕ → String → List ℕ
text_field zero s = 0 ∷ []
text_field (suc n) Str.[] = 0 ∷ text_field n Str.[]
text_field (suc n) (Str.◌∷◌ c s) =
    if code c == 0 then 0 ∷ text_field n Str.[] else code c % 256 ∷ text_field n s

abbrev pub side_byte : Side → ℕ
side_byte buy = 0
side_byte sell = 1

abbrev pub order_type_byte : OrderType → ℕ
order_type_byte limit = 0
order_type_byte market = 1
order_type_byte ioc = 2
order_type_byte fok = 3

abbrev pub status_byte : OrderStatus → ℕ
status_byte OrderStatus.pending = 0
status_byte OrderStatus.new = 1
status_byte OrderStatus.partially_filled = 2
status_byte OrderStatus.filled = 3
status_byte OrderStatus.cancelled = 4
status_byte OrderStatus.rejected = 5
status_byte OrderStatus.expired = 6

-- `JournalOrderRecord`, packed
unfoldable pub order_payload : Order → List ℕ
order_payload o =
    to_bytes 8 o.id
    ++ to_bytes 8 (word64 o.price)
    ++ to_bytes 8 (word64 o.qty)
    ++ to_bytes 8 (word64 o.timestamp)
    ++ (side_byte o.side ∷ order_type_byte o.type ∷ status_byte o.status ∷ [])
    ++ text_field 15 o.symbol
    ++ text_field 31 o.client_id

-- `JournalTradeRecord`
unfoldable pub trade_payload : Trade → List ℕ
trade_payload t =
    to_bytes 8 t.trade_id
    ++ to_bytes 8 t.buy_order_id
    ++ to_bytes 8 t.sell_order_id
    ++ to_bytes 8 (word64 t.price)
    ++ to_bytes 8 (word64 t.qty)
    ++ to_bytes 8 (word64 t.timestamp)
    ++ text_field 15 t.symbol

-- `JournalTickRecord`
unfoldable pub tick_payload : MarketDataTick → List ℕ
tick_payload t =
    to_bytes 8 (word64 t.timestamp)
    ++ to_bytes 8 (word64 t.bid_price)
    ++ to_bytes 8 (word64 t.bid_qty)
    ++ to_bytes 8 (word64 t.ask_price)
    ++ to_bytes 8 (word64 t.ask_qty)
    ++ to_bytes 8 (word64 t.last_price)
    ++ to_bytes 8 (word64 t.last_qty)
    ++ text_field 15 t.symbol

unfoldable pub write_order : JournalRecordType → Order → Writer → Writer
write_order type o w = write_record type (order_payload o) w

unfoldable pub write_trade : Trade → Writer → Writer
write_trade t w = write_record trade (trade_payload t) w

unfoldable pub write_tick : MarketDataTick → Writer → Writer
write_tick t w = write_record tick (tick_payload t) w

-- `now` is the reading of the clock.
unfoldable pub write_session_start : Timestamp → Writer → Writer
write_session_start now w = write_record session_start (to_bytes 8 (word64 now)) w

unfoldable pub write_session_end : Timestamp → Writer → Writer
write_session_end now w = write_record session_end (to_bytes 8 (word64 now)) w
