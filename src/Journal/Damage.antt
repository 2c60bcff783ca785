-- ===== src/Journal/Damage.antt =====
-- What `read_all` of src/journal/journal.cpp makes of a file that is damaged.
use mathlib.Core.List.{append-nil}
use orderflow_replay_engine.Prelude.{
  ℕ, zero, suc, ◌<◌, ◌≤◌, ◌^◌, ◌≡◌, ◌≢◌, refl, ◌∙◌, ap, inl, inr, true, false, List, [], ◌∷◌, ◌++◌,
  none, some, length, take, All, arith, ltb, ◌==◌, ==_iff, if◌then◌else◌, Bool-cases,
}
use orderflow_replay_engine.Journal.{Record, checksum}
use orderflow_replay_engine.Journal.Reader.{
  Reader, reading, read, verify, read_record, read_loop, read_all,
}
use orderflow_replay_engine.Journal.RoundTrip.{
  IsReadable, headed, stored_with, bytes_of, read_record-headed, read_record-stored,
  read_all-bytes_of,
}

take-all : (n : ℕ) (xs : List ℕ) → length xs ≤ n → take n xs ≡ xs
take-all zero [] h = refl
take-all (suc n) [] h = refl
take-all zero (x ∷ xs) h = absurd (omega arith)
take-all (suc n) (x ∷ xs) h = ap (λ ys. x ∷ ys) (take-all n xs (omega (arith, h)))

module _ (stale : List ℕ → ℕ) where
  read_all-none :
      (bs : List ℕ) → read_record stale (reading bs) ≡ none → read_all stale (reading bs) ≡ []
  unfolding read_all read_loop
  read_all-none bs e = rw (read_loop, e) refl

  -- Where the stored checksum of a record is not that of its payload, reading ends: the records in
  -- front of it are given, and nothing of what follows.
  pub read_all-corrupted :
      (rs : List Record) (r : Record) (c : ℕ) (more : List ℕ)
      → All IsReadable rs
      → IsReadable r
      → c < 2 ^ 32
      → checksum r.payload ≢ c
      → read_all stale (reading (bytes_of rs ++ (stored_with c r ++ more))) ≡ rs
  read_all-corrupted rs r c more vs v h n =
      let differs : (checksum r.payload == c) ≡ false =
        elim (Bool-cases (checksum r.payload == c)) [
          | inl e ↦ absurd (n ((==_iff (checksum r.payload) c).0 e))
          | inr e ↦ e
        ] in
      read_all-bytes_of stale rs (stored_with c r ++ more) vs
      ∙ ap (λ xs. rs ++ xs)
          (read_all-none (stored_with c r ++ more)
            (read_record-stored stale c r more v h ∙ (rw differs refl)))
      ∙ append-nil rs

  -- A stream at whose end the bytes `bs` were read.
  abbrev ended : Reader
  ended = record { is_open = true; ahead = []; eof = true; fail = true }

  read-short : (bs : List ℕ) → length bs < 4 → read 4 (reading bs) ≡ (ended, bs)
  unfolding read
  read-short bs h =
      let short : ltb (length bs) 4 ≡ true = ground arith in
      rw (take-all 4 bs (omega (arith, h)), short) refl

  read_loop-ended : (n : ℕ) → read_loop stale n ended ≡ []
  unfolding read_loop read_record
  read_loop-ended zero = refl
  read_loop-ended (suc n) = refl

  read_all-last :
      (bs : List ℕ) (r : Record)
      → read_record stale (reading bs) ≡ some (r, ended)
      → read_all stale (reading bs) ≡ r ∷ []
  unfolding read_all read_loop
  read_all-last bs r e = rw (read_loop, e) (ap (λ rs. r ∷ rs) (read_loop-ended (length bs)))

  -- Of a file that is cut off inside the checksum of its last record, that record is given just if
  -- its checksum is the stale number: which number this is, the code leaves open.
  pub read_all-cut :
      (rs : List Record) (r : Record) (cut : List ℕ)
      → All IsReadable rs
      → IsReadable r
      → length cut < 4
      → read_all stale (reading (bytes_of rs ++ headed r cut))
        ≡ rs ++ (if checksum r.payload == stale cut then r ∷ [] else [])
  unfolding verify
  read_all-cut rs r cut vs v h =
      let last =
        read_record-headed stale r cut v ∙ ap (verify stale r.type r.payload) (read-short cut h) in
      read_all-bytes_of stale rs (headed r cut) vs
      ∙ ap (λ xs. rs ++ xs)
          (elim (Bool-cases (checksum r.payload == stale cut)) [
            | inl e ↦ read_all-last (headed r cut) r (last ∙ (rw e refl)) ∙ (rw e refl)
            | inr e ↦ read_all-none (headed r cut) (last ∙ (rw e refl)) ∙ (rw e refl)
          ])
