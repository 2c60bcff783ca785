-- ===== src/Journal/Reading.antt =====
-- The loop of `read_all` of src/journal/journal.cpp ends: every pass takes a byte of the file.
use orderflow_replay_engine.Prelude.{
  ℕ, zero, suc, ◌<◌, ◌≤◌, ◌^◌, ◌≡◌, refl, sym, subst, ap, ◌∙◌, inl, inr, Bool, false, ◌||◌, not,
  List, [], ◌∷◌, Option, none, some, length, drop, ltb, ◌==◌, arith, if◌then◌else◌, if-both,
  if-each, Option-cases,
}
use orderflow_replay_engine.Journal.{Record, checksum, from_bytes}
use orderflow_replay_engine.Journal.Reader.{
  Reader, resized, read, verify, read_payload, read_size, read_type, read_record, read_loop,
}

drop-shorter : (n : ℕ) (bs : List ℕ) → length (drop n bs) ≤ length bs
drop-shorter zero bs = omega arith
drop-shorter (suc n) [] = omega arith
drop-shorter (suc n) (b ∷ bs) = omega (arith, drop-shorter n bs)

read-shorter : (n : ℕ) (f : Reader) → length (read n f).0.ahead ≤ length f.ahead
unfolding read
read-shorter n f = ground (arith, drop-shorter n f.ahead)

-- Reading one byte takes it, unless the file ends.
one_byte-shorter :
    (bs : List ℕ) (is_open : Bool)
    → let f : Reader = record { is_open = is_open; ahead = bs; eof = false; fail = false } in
      (read 1 f).0.eof ≡ false → length (read 1 f).0.ahead < length bs
unfolding read
one_byte-shorter [] is_open k = absurd (ground arith)
one_byte-shorter (b ∷ bs) is_open k = omega arith

taken :
    (f : Reader)
    → (f.eof || f.fail) ≡ false
    → (read 1 f).0.eof ≡ false
    → length (read 1 f).0.ahead < length f.ahead
taken f h k =
    let e : f.eof ≡ false = ground arith in
    let l : f.fail ≡ false = ground arith in
    let same : f ≡ record { is_open = f.is_open; ahead = f.ahead; eof = false; fail = false } =
      ap (λ x. record { is_open = f.is_open; ahead = f.ahead; eof = x; fail = f.fail }) e
      ∙ ap (λ x. record { is_open = f.is_open; ahead = f.ahead; eof = false; fail = x }) l in
    subst (λ g. (read 1 g).0.eof ≡ false → length (read 1 g).0.ahead < length g.ahead) (sym same)
      (one_byte-shorter f.ahead f.is_open) k

-- A pass that gives a record leaves fewer bytes than `n`.
unfoldable pub LeavesBelow : ℕ → Option (Record × Reader) → Type 0
LeavesBelow n none = Unit
LeavesBelow n (some (r, f)) = length f.ahead < n

module _ (stale : List ℕ → ℕ) where
  verify-LeavesBelow :
      (n t : ℕ) (bs : List ℕ) (x : Reader × List ℕ)
      → length x.0.ahead < n
      → LeavesBelow n (verify stale t bs x)
  unfolding verify LeavesBelow
  verify-LeavesBelow n t bs x h =
      let crc = if x.0.fail then stale x.1 else from_bytes x.1 in
      if-both (LeavesBelow n) (not (checksum bs == crc)) none
        (some (record { type = t; payload = bs }, x.0)) tt h

  read_payload-LeavesBelow :
      (n t psz : ℕ) (f : Reader) → length f.ahead < n → LeavesBelow n (read_payload stale t psz f)
  unfolding read_payload
  read_payload-LeavesBelow n t psz f h =
      let x = read psz f in
      verify-LeavesBelow n t (resized psz x.1) (read 4 x.0)
        (omega (arith, h, read-shorter psz f, read-shorter 4 x.0))

  read_size-LeavesBelow :
      (n t : ℕ) (x : Reader × List ℕ) → length x.0.ahead < n → LeavesBelow n (read_size stale t x)
  unfolding read_size LeavesBelow
  read_size-LeavesBelow n t x h =
      if-both (LeavesBelow n) (x.0.fail || ltb (2 ^ 20) (from_bytes x.1)) none
        (read_payload stale t (from_bytes x.1) x.0) tt
        (read_payload-LeavesBelow n t (from_bytes x.1) x.0 h)

  read_record-LeavesBelow : (f : Reader) → LeavesBelow (length f.ahead) (read_record stale f)
  unfolding read_record read_type LeavesBelow
  read_record-LeavesBelow f =
      let x = read 1 f in
      if-each (LeavesBelow (length f.ahead)) (f.eof || f.fail) none (read_type stale x) (λ h. tt)
        (λ h.
          if-each (LeavesBelow (length f.ahead)) x.0.eof none
            (read_size stale (from_bytes x.1) (read 4 x.0)) (λ k. tt)
            (λ k.
              read_size-LeavesBelow (length f.ahead) (from_bytes x.1) (read 4 x.0)
                (omega (arith, taken f h k, read-shorter 4 x.0))))

  -- With any two amounts of fuel above the number of the bytes ahead, the loop gives the same list of
  -- records.
  pub read_loop-enough :
      (n m : ℕ) (f : Reader)
      → length f.ahead < n
      → length f.ahead < m
      → read_loop stale n f ≡ read_loop stale m f
  unfolding read_loop LeavesBelow
  read_loop-enough zero m f h k = absurd (omega arith)
  read_loop-enough (suc n) zero f h k = absurd (omega arith)
  read_loop-enough (suc n) (suc m) f h k = elim (Option-cases (read_record stale f)) [
    | inl e ↦ rw (e, read_loop) refl
    | inr ((r, f'), e) ↦
        let b : length f'.ahead < length f.ahead =
          subst (LeavesBelow (length f.ahead)) e (read_record-LeavesBelow f) in
        let rest = read_loop-enough n m f' (omega (arith, h, b)) (omega (arith, k, b)) in
        rw (e, read_loop) (ap (λ rs. r ∷ rs) rest)
  ]
