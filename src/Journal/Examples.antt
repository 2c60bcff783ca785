-- ===== src/Journal/Examples.antt =====
-- A session of src/journal/journal.cpp with three records, and the theorems at it.
use orderflow_replay_engine.Prelude.{
  ℕ, ◌+◌, ◌≡◌, ◌≢◌, refl, List, [], ◌∷◌, ◌++◌, map, length, true, false, pos, arith, ◌==◌,
  if◌then◌else◌,
}
use orderflow_replay_engine.Types.{Side, limit, Order, OrderStatus}
use orderflow_replay_engine.Journal.{order_new, Record, Writer, to_bytes, checksum}
use orderflow_replay_engine.Journal.Reader.{reading, open_read, read_loop, read_all}
use orderflow_replay_engine.Journal.Reading.{read_loop-enough}
use orderflow_replay_engine.Journal.RoundTrip.{IsReadable, headed, stored_with, bytes_of}
use orderflow_replay_engine.Journal.Session.{
  Entry, an_order, a_start, record_of, written, session_read,
}
use orderflow_replay_engine.Journal.Damage.{read_all-corrupted, read_all-cut}

abbrev stale_zero : List ℕ → ℕ
stale_zero bs = 0

abbrev closed : Writer
closed = record { is_open = false; bytes = []; records_written = 0 }

abbrev some_order : Order
some_order = record {
  id = 7;
  symbol = "AAPL";
  side = Side.buy;
  type = limit;
  price = pos 1000;
  qty = pos 30;
  filled_qty = pos 0;
  status = OrderStatus.new;
  timestamp = pos 5;
  client_id = "c";
}

abbrev two_entries : List Entry
two_entries = a_start (pos 1) ∷ an_order order_new some_order ∷ []

session_read_example :
    (read_all stale_zero (open_read true (written stale_zero closed two_entries).bytes).0
      ≡ map record_of two_entries)
    × ((written stale_zero closed two_entries).records_written ≡ 0 + length two_entries)
session_read_example = session_read stale_zero closed two_entries

abbrev small_record : Record
small_record = record { type = 5; payload = 1 ∷ 2 ∷ 3 ∷ [] }

small_record-IsReadable : IsReadable small_record
small_record-IsReadable = record { type_lt = omega arith; size_le = omega arith }

abbrev small_file : List ℕ
small_file = bytes_of (small_record ∷ [])

small_size : length small_file ≡ 12
unfolding to_bytes checksum
small_size = refl

read_loop-enough_example :
    read_loop stale_zero 20 (reading small_file) ≡ read_loop stale_zero 30 (reading small_file)
read_loop-enough_example =
    read_loop-enough stale_zero 20 30 (reading small_file) (omega (arith, small_size))
      (omega (arith, small_size))

wrong : checksum (1 ∷ 2 ∷ 3 ∷ []) ≢ 0
unfolding checksum
wrong h = absurd (omega arith)

-- The check value of this checksum, of the digits from 1 to 9.
check_value : checksum (49 ∷ 50 ∷ 51 ∷ 52 ∷ 53 ∷ 54 ∷ 55 ∷ 56 ∷ 57 ∷ []) ≡ 0xCBF43926
unfolding checksum
check_value = refl

read_all-corrupted_example :
    read_all stale_zero (reading (small_file ++ (stored_with 0 small_record ++ (9 ∷ []))))
    ≡ small_record ∷ []
read_all-corrupted_example =
    read_all-corrupted stale_zero (small_record ∷ []) small_record 0 (9 ∷ [])
      (small_record-IsReadable, tt) small_record-IsReadable (omega arith) wrong

read_all-cut_example :
    read_all stale_zero (reading (small_file ++ headed small_record (8 ∷ [])))
    ≡ (small_record ∷ []) ++ (if checksum (1 ∷ 2 ∷ 3 ∷ []) == 0 then small_record ∷ [] else [])
read_all-cut_example =
    read_all-cut stale_zero (small_record ∷ []) small_record (8 ∷ []) (small_record-IsReadable, tt)
      small_record-IsReadable (omega arith)
