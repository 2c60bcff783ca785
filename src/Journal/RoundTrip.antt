-- ===== src/Journal/RoundTrip.antt =====
-- What `BinaryJournal` of src/journal/journal.cpp writes, `read_all` reads back.
use mathlib.Core.List.{append_assoc}
use orderflow_replay_engine.Prelude.{
  ℕ, suc, ◌+◌, ◌-◌, ◌^◌, ◌<◌, ◌≤◌, ◌≡◌, refl, sym, ◌∙◌, ap, false, none, some, List, [], ◌∷◌, ◌++◌,
  length, arith, ltb, length-append, All, if◌then◌else◌, ◌==◌, ==_iff, not,
}
use orderflow_replay_engine.Journal.{to_bytes, from_bytes, checksum, Record}
use orderflow_replay_engine.Journal.Reader.{
  reading, read, resized, read_record, read_type, read_size, read_payload, verify, read_loop,
  read_all,
}
use orderflow_replay_engine.Journal.Reading.{read_loop-enough}
use orderflow_replay_engine.Journal.Bytes.{
  length-to_bytes, from_bytes-to_bytes, read-append, resized-length,
}

-- A record that `read_all` takes: its type is a byte, and its payload is at most a megabyte.
pub record IsReadable (r : Record) : Type 0 where
  pub type_lt : r.type < 256
  pub size_le : length r.payload ≤ 2 ^ 20

-- A record as bytes, with `tail` in place of its checksum.
abbrev pub headed : Record → List ℕ → List ℕ
headed r tail = (r.type ∷ []) ++ (to_bytes 4 (length r.payload) ++ (r.payload ++ tail))

-- A record as bytes, with the checksum `c` in place of its own.
abbrev pub stored_with : ℕ → Record → List ℕ
stored_with c r = headed r (to_bytes 4 c)

checksum-lt : (bs : List ℕ) → checksum bs < 2 ^ 32
unfolding checksum
checksum-lt bs = omega arith

-- The bytes of some records, one after the other.
abbrev pub bytes_of : List Record → List ℕ
bytes_of [] = []
bytes_of (r ∷ rs) = stored_with (checksum r.payload) r ++ bytes_of rs

module _ (stale : List ℕ → ℕ) where
  verify-reading :
      (r : Record) (c : ℕ) (more : List ℕ)
      → c < 2 ^ 32
      → verify stale r.type r.payload (reading more, to_bytes 4 c)
        ≡ (if not (checksum r.payload == c) then none else some (r, reading more))
  unfolding verify
  verify-reading r c more h = rw (from_bytes-to_bytes c h) refl

  read_type-reading :
      (t : ℕ) (bs : List ℕ)
      → read_type stale (reading bs, t ∷ []) ≡ read_size stale t (read 4 (reading bs))
  unfolding read_type from_bytes
  read_type-reading t bs = let e : t + 0 ≡ t = omega arith in rw e refl

  read_size-reading :
      (r : Record) (bs : List ℕ)
      → length r.payload ≤ 2 ^ 20
      → read_size stale r.type (reading bs, to_bytes 4 (length r.payload))
        ≡ read_payload stale r.type (length r.payload) (reading bs)
  unfolding read_size
  read_size-reading r bs h =
      let e = from_bytes-to_bytes (length r.payload) (omega (arith, h)) in
      let fits : ltb (2 ^ 20) (length r.payload) ≡ false = ground arith in rw (e, fits) refl

  -- One pass of the loop over a record whose payload is whole: it comes to what is in the place of
  -- the checksum.
  pub read_record-headed :
      (r : Record) (tail : List ℕ)
      → IsReadable r
      → read_record stale (reading (headed r tail))
        ≡ verify stale r.type r.payload (read 4 (reading tail))
  unfolding read_record read_payload
  read_record-headed r tail v =
      let size = to_bytes 4 (length r.payload) in
      let after = r.payload ++ tail in
      ap (read_type stale) (read-append 1 (r.type ∷ []) (size ++ after) refl)
      ∙ read_type-reading r.type (size ++ after)
      ∙ ap (read_size stale r.type)
          (read-append 4 size after (sym (length-to_bytes 4 (length r.payload))))
      ∙ read_size-reading r after v.size_le
      ∙ ap (λ x. verify stale r.type (resized (length r.payload) x.1) (read 4 x.0))
          (read-append (length r.payload) r.payload tail refl)
      ∙ ap (λ xs. verify stale r.type xs (read 4 (reading tail))) (resized-length r.payload)

  pub read_record-stored :
      (c : ℕ) (r : Record) (more : List ℕ)
      → IsReadable r
      → c < 2 ^ 32
      → read_record stale (reading (stored_with c r ++ more))
        ≡ (if not (checksum r.payload == c) then none else some (r, reading more))
  read_record-stored c r more v h =
      let crc = to_bytes 4 c in
      let split : stored_with c r ++ more ≡ headed r (crc ++ more) = simp append_assoc refl in
      ap (λ bs. read_record stale (reading bs)) split
      ∙ read_record-headed r (crc ++ more) v
      ∙ ap (verify stale r.type r.payload) (read-append 4 crc more (sym (length-to_bytes 4 c)))
      ∙ verify-reading r c more h

  record_passes :
      (r : Record) (more : List ℕ)
      → IsReadable r
      → read_record stale (reading (stored_with (checksum r.payload) r ++ more))
        ≡ some (r, reading more)
  record_passes r more v =
      read_record-stored (checksum r.payload) r more v (checksum-lt r.payload)
      ∙ (rw ((==_iff (checksum r.payload) (checksum r.payload)).1 refl) refl)

  -- The loop takes the records that are in front, with a pass for each.
  pub read_loop-bytes_of :
      (n : ℕ) (rs : List Record) (more : List ℕ)
      → All IsReadable rs
      → read_loop stale (length rs + n) (reading (bytes_of rs ++ more))
        ≡ rs ++ read_loop stale n (reading more)
  unfolding read_loop
  read_loop-bytes_of n [] more v = let e : 0 + n ≡ n = omega arith in rw e refl
  read_loop-bytes_of n (r ∷ rs) more (v, vs) =
      let e : suc (length rs) + n ≡ suc (length rs + n) = omega arith in
      let split : bytes_of (r ∷ rs) ++ more
          ≡ stored_with (checksum r.payload) r ++ (bytes_of rs ++ more) =
        append_assoc (stored_with (checksum r.payload) r) (bytes_of rs) more in
      rw (e, split, read_loop, record_passes r (bytes_of rs ++ more) v)
        (ap (λ xs. r ∷ xs) (read_loop-bytes_of n rs more vs))

  bytes_of-long :
      (rs : List Record) (more : List ℕ) → length rs + length more ≤ length (bytes_of rs ++ more)
  bytes_of-long [] more = omega arith
  bytes_of-long (r ∷ rs) more =
      let whole = length-append (bytes_of (r ∷ rs)) more in
      let first = length-append (stored_with (checksum r.payload) r) (bytes_of rs) in
      let rest = length-append (bytes_of rs) more in
      omega (arith, whole, first, rest, bytes_of-long rs more)

  -- A file that starts with some readable records gives these first; what comes after them is read
  -- by as many passes as are needed.
  pub read_all-bytes_of :
      (rs : List Record) (more : List ℕ)
      → All IsReadable rs
      → read_all stale (reading (bytes_of rs ++ more)) ≡ rs ++ read_all stale (reading more)
  unfolding read_all
  read_all-bytes_of rs more v =
      let whole = length (bytes_of rs ++ more) in
      let room = bytes_of-long rs more in
      let fuel : suc whole ≡ length rs + (suc whole - length rs) = omega (arith, room) in
      ap (λ k. read_loop stale k (reading (bytes_of rs ++ more))) fuel
      ∙ read_loop-bytes_of (suc whole - length rs) rs more v
      ∙ ap (λ xs. rs ++ xs)
          (read_loop-enough stale (suc whole - length rs) (suc (length more)) (reading more)
            (omega (arith, room)) (omega arith))

  pub read_all-end : read_all stale (reading []) ≡ []
  unfolding read_all read_loop read_record read_type read
  read_all-end = refl
