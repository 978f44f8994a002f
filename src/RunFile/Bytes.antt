-- ===== src/RunFile/Bytes.antt =====
-- Integers as bytes, and the exact reads of distinct/run.rs.
use proofframe.Prelude.{
  ℕ, zero, suc, ◌+◌, ◌*◌, ◌/◌, ◌<◌, ◌≡◌, refl, sym, ap, false, List, [], ◌∷◌, ◌++◌, length,
  length-append, take, drop, arith, ltb,
}
use proofframe.Error.{ok}
use proofframe.RunFile.{to_le_bytes, from_le_bytes}
use proofframe.RunFile.Cursor.{read_exact_partition}

-- how many values n bytes have
abbrev pub bound : ℕ → ℕ
bound zero = 1
bound (suc n) = 256 * bound n

pub length-to_le_bytes : (n x : ℕ) → length (to_le_bytes n x) ≡ n
unfolding to_le_bytes
length-to_le_bytes zero x = refl
length-to_le_bytes (suc n) x = ap suc (length-to_le_bytes n (x / 256))

pub from_le_bytes-to_le_bytes : (n x : ℕ) → x < bound n → from_le_bytes (to_le_bytes n x) ≡ x
unfolding to_le_bytes from_le_bytes
from_le_bytes-to_le_bytes zero x l = omega (arith, l)
from_le_bytes-to_le_bytes (suc n) x l =
    omega (arith, l, from_le_bytes-to_le_bytes n (x / 256) (omega (arith, l)))

pub take-append : (xs ys : List ℕ) → take (length xs) (xs ++ ys) ≡ xs
take-append [] ys = refl
take-append (x ∷ xs) ys = ap (λ r. x ∷ r) (take-append xs ys)

pub drop-append : (xs ys : List ℕ) → drop (length xs) (xs ++ ys) ≡ ys
drop-append [] ys = refl
drop-append (x ∷ xs) ys = drop-append xs ys

pub enough : (n a b : ℕ) → a ≡ n + b → ltb a n ≡ false
enough n a b e = ground arith

pub read_exact_partition-append :
    (n : ℕ) (xs rest : List ℕ) → length xs ≡ n → read_exact_partition n (xs ++ rest) ≡ ok (xs, rest)
unfolding read_exact_partition
read_exact_partition-append n xs rest long =
    let first : take n (xs ++ rest) ≡ xs = rw (sym long) (take-append xs rest) in
    let second : drop n (xs ++ rest) ≡ rest = rw (sym long) (drop-append xs rest) in
    rw
      (
        enough n (length (xs ++ rest)) (length rest) (rw (sym long) (length-append xs rest)),
        first,
        second,
      )
      refl
