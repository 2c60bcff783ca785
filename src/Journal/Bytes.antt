-- ===== src/Journal/Bytes.antt =====
-- The bytes of integers, and what `read` gives of a file that is long enough, in
-- src/journal/journal.cpp.
use orderflow_replay_engine.Prelude.{
  ℕ, zero, suc, ◌^◌, ◌<◌, ◌≡◌, refl, ap, inl, inr, List, [], ◌∷◌, ◌++◌, length, take, drop, arith,
  ltb, Bool-cases,
}
use orderflow_replay_engine.Journal.{to_bytes, from_bytes}
use orderflow_replay_engine.Journal.Reader.{reading, read, resized}

pub length-to_bytes : (n v : ℕ) → length (to_bytes n v) ≡ n
unfolding to_bytes
length-to_bytes zero v = refl
length-to_bytes (suc n) v = omega (arith, length-to_bytes n _)

pub from_bytes-to_bytes : (v : ℕ) → v < 2 ^ 32 → from_bytes (to_bytes 4 v) ≡ v
unfolding from_bytes to_bytes
from_bytes-to_bytes v h = omega arith

module _ {ℓ} {A : Type ℓ} where
  take-append : (xs ys : List A) → take (length xs) (xs ++ ys) ≡ xs
  take-append [] ys = refl
  take-append (x ∷ xs) ys = ap (λ zs. x ∷ zs) (take-append xs ys)

  drop-append : (xs ys : List A) → drop (length xs) (xs ++ ys) ≡ ys
  drop-append [] ys = refl
  drop-append (x ∷ xs) ys = drop-append xs ys

-- Reading as many bytes as are in front of the others gives these, and leaves the others.
pub read-append :
    (n : ℕ) (xs ys : List ℕ) → n ≡ length xs → read n (reading (xs ++ ys)) ≡ (reading ys, xs)
unfolding read
read-append n xs ys e =
    rw (e, take-append xs ys, drop-append xs ys)
      (elim (Bool-cases (ltb (length xs) (length xs))) [
        | inl k ↦ absurd (ground arith)
        | inr k ↦ rw k refl
      ])

pub resized-length : (xs : List ℕ) → resized (length xs) xs ≡ xs
unfolding resized
resized-length [] = refl
resized-length (x ∷ xs) = ap (λ zs. x ∷ zs) (resized-length xs)
