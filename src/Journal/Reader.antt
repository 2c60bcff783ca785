-- ===== src/Journal/Reader.antt =====
-- src/journal/journal.cpp, the part of `class BinaryJournal` that reads.
use orderflow_replay_engine.Prelude.{
  ℕ, zero, suc, ◌^◌, Bool, true, false, not, ◌||◌, List, [], ◌∷◌, Option, none, some, ltb, ◌==◌,
  if◌then◌else◌, length, take, drop,
}
use orderflow_replay_engine.Journal.{Record, Writer, checksum, from_bytes}

-- The `ifstream`: the bytes ahead, and the two error bits that reading can set.
pub record Reader : Type 0 where
  pub is_open : Bool
  pub ahead : List ℕ
  pub eof : Bool
  pub fail : Bool

-- A file that is open at these bytes.
abbrev pub reading : List ℕ → Reader
reading bs = record { is_open = true; ahead = bs; eof = false; fail = false }

-- `rfile_.read(…, n)`: a stream with an error bit gives nothing, and one that ends gives what there
-- is; both set the fail bit.
unfoldable pub read : ℕ → Reader → Reader × List ℕ
read n f =
    let got = take n f.ahead in
    if f.eof || f.fail
    then (record f { fail = true }, [])
    else if ltb (length got) n
    then (record f { ahead = []; eof = true; fail = true }, got)
    else (record f { ahead = drop n f.ahead }, got)

-- `open_read`: the magic header is read and not tested.
unfoldable pub open_read : Bool → List ℕ → Reader × Bool
unfolding read
open_read true file = ((read 6 (reading file)).0, true)
open_read false file = (record (reading []) { is_open = false; fail = true }, false)

-- `close`: both streams, of which at most one is open.
abbrev close : Writer → Reader → Writer × Reader
close w f = (record w { is_open = false }, record f { is_open = false })

-- `resize(n)`, and the bytes that were read over its zeros
unfoldable pub resized : ℕ → List ℕ → List ℕ
resized zero bs = []
resized (suc n) [] = 0 ∷ resized n []
resized (suc n) (b ∷ bs) = b ∷ resized n bs

-- One pass of the loop of `read_all`, from its last step to its first: the verification, the payload,
-- the size, the type, the test of the loop. `stale` is what is in `crc_stored`, which nothing sets
-- before the file is read, when fewer than four bytes are read into it.
module _ (stale : List ℕ → ℕ) where
  unfoldable pub verify : ℕ → List ℕ → Reader × List ℕ → Option (Record × Reader)
  verify type payload x =
      let crc_stored = if x.0.fail then stale x.1 else from_bytes x.1 in
      if not (checksum payload == crc_stored)
      then none
      else some (record { type = type; payload = payload }, x.0)

  unfoldable pub read_payload : ℕ → ℕ → Reader → Option (Record × Reader)
  read_payload type psz f = let x = read psz f in verify type (resized psz x.1) (read 4 x.0)

  unfoldable pub read_size : ℕ → Reader × List ℕ → Option (Record × Reader)
  read_size type x =
      if x.0.fail || ltb (2 ^ 20) (from_bytes x.1)
      then none
      else read_payload type (from_bytes x.1) x.0

  unfoldable pub read_type : Reader × List ℕ → Option (Record × Reader)
  read_type x = if x.0.eof then none else read_size (from_bytes x.1) (read 4 x.0)

  unfoldable pub read_record : Reader → Option (Record × Reader)
  read_record f = if f.eof || f.fail then none else read_type (read 1 f)

  -- The loop, with fuel.
  unfoldable pub read_loop : ℕ → Reader → List Record
  read_loop zero f = []
  read_loop (suc fuel) f = elim (read_record f) [ none ↦ [] | some (r, f') ↦ r ∷ read_loop fuel f' ]

  -- Every pass but the last takes a byte of the file.
  unfoldable pub read_all : Reader → List Record
  read_all f = if not f.is_open then [] else read_loop (suc (length f.ahead)) f
