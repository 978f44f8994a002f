-- ===== src/Ratio/Powers.antt =====
-- Powers of two, and comparisons of products.
use Prim.Native.Nat.{lt, eq, gt, compare}
use native.Mathlib.Nat.{mul-lt-mul_of_pos_right, mul_assoc, mul_left_comm, mul-div_cancel}
use proofframe.Prelude.{
  ℕ, zero, suc, ◌+◌, ◌*◌, ◌/◌, ◌%◌, ◌≤◌, ◌<◌, ◌≡◌, sym, ap, ◌∙◌, ◌⊎◌, inl, inr, arith, ◌==◌,
  Bool-cases,
}
use proofframe.Ratio.{pow2, trailing_zeros}

pub compare_lt : (a b : ℕ) → a < b → compare a b ≡ lt
compare_lt a b h = ground arith

pub compare_gt : (a b : ℕ) → b < a → compare a b ≡ gt
compare_gt a b h = ground arith

pub compare_eq : (a b : ℕ) → a ≡ b → compare a b ≡ eq
compare_eq a b h = ground arith

trichotomy : (a b : ℕ) → (a < b) ⊎ ((b < a) ⊎ (a ≡ b))
trichotomy a b = ground arith

pub compare_scale : (a b k : ℕ) → 0 < k → compare (a * k) (b * k) ≡ compare a b
compare_scale a b k positive = elim (trichotomy a b) [
  | inl less ↦
      compare_lt (a * k) (b * k) (mul-lt-mul_of_pos_right less positive) ∙ sym (compare_lt a b less)
  | inr (inl greater) ↦
      compare_gt (a * k) (b * k) (mul-lt-mul_of_pos_right greater positive)
      ∙ sym (compare_gt a b greater)
  | inr (inr same) ↦ compare_eq (a * k) (b * k) (ap (λ x. x * k) same) ∙ sym (compare_eq a b same)
]

pub pow2_pos : (n : ℕ) → 0 < pow2 n
unfolding pow2
pow2_pos zero = omega arith
pow2_pos (suc n) = omega (arith, pow2_pos n)

pub pow2_add : (m n : ℕ) → pow2 (m + n) ≡ pow2 m * pow2 n
unfolding pow2
pow2_add zero n = let first : 0 + n ≡ n = omega arith in rw first (omega arith)
pow2_add (suc m) n =
    let first : suc m + n ≡ suc (m + n) = omega arith in
    rw first (ap (λ p. 2 * p) (pow2_add m n) ∙ sym (mul_assoc 2 (pow2 m) (pow2 n)))

-- The trailing zeros are factors of two.
factors_of_two : (fuel c x : ℕ) → c ≤ trailing_zeros fuel x → (y : ℕ) × (x ≡ y * pow2 c)
unfolding trailing_zeros pow2
factors_of_two fuel zero x few = (x, omega arith)
factors_of_two zero (suc c) x few = absurd (omega (arith, few))
factors_of_two (suc fuel) (suc c) x few = elim (Bool-cases (x % 2 == 0)) [
  | inl even ↦
      let more : suc c ≤ suc (trailing_zeros fuel (x / 2)) = rw even at few in
      let (y, half) = factors_of_two fuel c (x / 2) (omega (arith, more)) in
      let twice : x ≡ 2 * (x / 2) = ground arith in
      (y, twice ∙ ap (λ h. 2 * h) half ∙ mul_left_comm 2 y (pow2 c))
  | inr odd ↦ let none_left : suc c ≤ 0 = rw odd at few in absurd (omega (arith, none_left))
]

pub trailing_zeros-divides : (fuel c x : ℕ) → c ≤ trailing_zeros fuel x → x / pow2 c * pow2 c ≡ x
trailing_zeros-divides fuel c x few =
    let (y, product) = factors_of_two fuel c x few in
    ap (λ z. z / pow2 c * pow2 c) product
    ∙ ap (λ z. z * pow2 c) (mul-div_cancel y (pow2_pos c))
    ∙ sym product
