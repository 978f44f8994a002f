-- ===== src/Ratio/Compare.antt =====
-- The comparison of execution/dataset_state.rs is exact: nothing is rounded.
use Prim.Native.Nat.{Ordering, gt, compare}
use native.Mathlib.Nat.{mul-le-mul_left, mul_assoc, mul-pos, div-le_self, suc-mul, zero-mul}
use proofframe.Prelude.{
  ℕ, zero, suc, ◌+◌, ◌-◌, ◌*◌, ◌/◌, ◌%◌, ◌^◌, ◌≤◌, ◌<◌, ◌≡◌, refl, sym, ap, ap₂, ◌∙◌, ◌⊎◌, inl, inr,
  true, false, min, arith, leb, ltb, ◌==◌, ==_iff, Bool-cases, if◌then◌else◌, leb→le,
}
use proofframe.Ratio.{
  pow2, trailing_zeros, is_negative, one_bits, zero_or_more, exponent_bits, compare_shifted,
  compare_normal, compare_fraction_to_bound,
}
use proofframe.Ratio.Powers.{
  compare_lt, compare_gt, compare_scale, pow2_pos, pow2_add, trailing_zeros-divides,
}

-- An f64 that is no more than one is `significand * scale / 2 ^ 1075`.
abbrev pub significand : ℕ → ℕ
significand bits = if exponent_bits bits == 0 then bits % 2 ^ 52 else 2 ^ 52 + bits % 2 ^ 52

abbrev pub scale : ℕ → ℕ
scale bits = pow2 (if exponent_bits bits == 0 then 1 else exponent_bits bits)

-- the comparison of the fraction with that number, multiplied out
abbrev pub exact_compare : ℕ → ℕ → ℕ → Ordering
exact_compare numerator denominator bits =
    compare (numerator * pow2 1075) (denominator * (significand bits * scale bits))

-- A ratio that a contract may set: from zero, of either sign, to one.
abbrev pub IsRatio : ℕ → Type 0
IsRatio bits = (bits ≤ one_bits) ⊎ (bits ≡ 2 ^ 63)

pow2_128 : pow2 128 ≡ 2 ^ 128
unfolding pow2
pow2_128 = refl

above_none : (n : ℕ) → zero_or_more (suc n) ≡ gt
above_none n = ground arith

pow2_52 : pow2 52 ≡ 2 ^ 52
unfolding pow2
pow2_52 = refl

-- A count that is not zero is above a bound that is this small.
large : (n k x : ℕ) → 128 ≤ k → 0 < x → x < 2 ^ 128 → zero_or_more n ≡ compare (n * pow2 k) x
large zero k x many positive small = sym (compare_lt (0 * pow2 k) x (omega (arith, positive)))
large (suc n) k x many positive small =
    let power : pow2 128 * pow2 (k - 128) ≡ pow2 k =
      sym (pow2_add 128 (k - 128)) ∙ ap pow2 (omega (arith, many)) in
    let least : pow2 128 * 1 ≤ pow2 128 * pow2 (k - 128) =
      mul-le-mul_left (pow2 128) (omega (arith, pow2_pos (k - 128))) in
    above_none n
    ∙ sym (
        compare_gt (suc n * pow2 k) x
          (omega (arith, small, pow2_128, power, least, suc-mul n (pow2 k))))

compare_shifted_lem :
    (n d t k : ℕ)
    → 0 < d * t
    → d * t < 2 ^ 128
    → compare_shifted n d t k ≡ compare (n * pow2 k) (d * t)
unfolding compare_shifted
compare_shifted_lem n d t k positive small = elim (Bool-cases (leb 128 k)) [
  | inl many ↦ rw many (large n k (d * t) (leb→le 128 k many) positive small)
  | inr few ↦ elim (Bool-cases (ltb (n * pow2 k) (2 ^ 128))) [
    | inl fits ↦ rw (few, fits)
    | inr over ↦
        rw (few, over) (sym (compare_gt (n * pow2 k) (d * t) (ground (arith, small, over))))
  ]
]

factor_positive : (t p s : ℕ) → t * p ≡ s → 0 < s → 0 < t
factor_positive zero p s whole positive = omega (arith, whole, positive, zero-mul p)
factor_positive (suc t) p s whole positive = omega arith

product_small : (d t : ℕ) → d < 2 ^ 64 → t < 2 ^ 53 → d * t < 2 ^ 128
product_small d t hd ht =
    let first : d * t ≤ d * 2 ^ 53 = mul-le-mul_left d (omega (arith, ht)) in
    omega (arith, first, hd)

compare_normal_lem :
    (n d s k : ℕ)
    → 0 < d
    → d < 2 ^ 64
    → 0 < s
    → s < 2 ^ 53
    → compare_normal n d s k ≡ compare (n * pow2 k) (d * s)
unfolding compare_normal
compare_normal_lem n d s k positive fits some_bits few_bits =
    let c : ℕ = min (trailing_zeros 64 s) k in
    let t : ℕ = s / pow2 c in
    let whole : t * pow2 c ≡ s = trailing_zeros-divides 64 c s (omega arith) in
    let shifted : pow2 (k - c) * pow2 c ≡ pow2 k =
      sym (pow2_add (k - c) c) ∙ ap pow2 (omega arith) in
    let t_small : t < 2 ^ 53 = omega (arith, div-le_self s (pow2 c), few_bits) in
    let t_positive : 0 < t = factor_positive t (pow2 c) s whole some_bits in
    compare_shifted_lem n d t (k - c) (mul-pos positive t_positive) (product_small d t fits t_small)
    ∙ sym (compare_scale (n * pow2 (k - c)) (d * t) (pow2 c) (pow2_pos c))
    ∙ ap₂ compare (mul_assoc n (pow2 (k - c)) (pow2 c) ∙ ap (λ p. n * p) shifted)
        (mul_assoc d t (pow2 c) ∙ ap (λ p. d * p) whole)

-- Zero, of either sign.
compare_zero :
    (n d bits : ℕ)
    → bits % 2 ^ 52 ≡ 0
    → exponent_bits bits ≡ 0
    → compare n 0 ≡ exact_compare n d bits
compare_zero n d bits mantissa exponent =
    sym (compare_scale n 0 (pow2 1075) (pow2_pos 1075))
    ∙ ap (compare (n * pow2 1075)) (rw (exponent, mantissa) (omega arith))

compare_one : (n d : ℕ) → compare n d ≡ exact_compare n d one_bits
compare_one n d =
    let whole : 2 ^ 52 * pow2 1023 ≡ pow2 1075 =
      ap (λ p. p * pow2 1023) (sym pow2_52) ∙ sym (pow2_add 52 1023) in
    sym (compare_scale n d (pow2 1075) (pow2_pos 1075))
    ∙ ap (λ p. compare (n * pow2 1075) (d * p)) (sym whole)

-- The bounds between the least normal number and one.
compare_between :
    (n d bits : ℕ)
    → 0 < d
    → d < 2 ^ 64
    → bits < one_bits
    → (exponent_bits bits == 0) ≡ false
    → compare_normal n d (2 ^ 52 + bits % 2 ^ 52) (1075 - exponent_bits bits)
      ≡ exact_compare n d bits
compare_between n d bits positive fits below normal =
    let e : ℕ = exponent_bits bits in
    let s : ℕ = 2 ^ 52 + bits % 2 ^ 52 in
    let small : e < 1023 = omega (arith, below) in
    let whole : pow2 (1075 - e) * pow2 e ≡ pow2 1075 =
      sym (pow2_add (1075 - e) e) ∙ ap pow2 (omega (arith, small)) in
    compare_normal_lem n d s (1075 - e) positive fits (omega arith) (omega arith)
    ∙ sym (compare_scale (n * pow2 (1075 - e)) (d * s) (pow2 e) (pow2_pos e))
    ∙ ap₂ compare (mul_assoc n (pow2 (1075 - e)) (pow2 e) ∙ ap (λ p. n * p) whole)
        (mul_assoc d s (pow2 e))
    ∙ rw normal refl

some_rows : (d : ℕ) → 0 < d → (d == 0) ≡ false
some_rows d positive = ground arith

plus : (bits : ℕ) → bits < one_bits → is_negative bits ≡ false
plus bits below = ground arith

not_zero : (bits : ℕ) → 0 < bits → (bits == 0) ≡ false
not_zero bits some_bits = ground arith

not_one : (bits : ℕ) → bits < one_bits → leb one_bits bits ≡ false
not_one bits below = ground arith

pow2_1 : pow2 1 ≡ 2
unfolding pow2
pow2_1 = refl

compare_subnormal :
    (n d bits : ℕ)
    → 0 < d
    → d < 2 ^ 64
    → 0 < bits
    → bits < 2 ^ 52
    → zero_or_more n ≡ exact_compare n d bits
compare_subnormal n d bits positive fits some_bits below =
    let t : ℕ = bits % 2 ^ 52 * pow2 1 in
    let doubled : t ≡ bits % 2 ^ 52 * 2 = ap (λ p. bits % 2 ^ 52 * p) pow2_1 in
    let exponent : exponent_bits bits ≡ 0 = omega (arith, below) in
    large n 1075 (d * t) (omega arith) (mul-pos positive (omega (arith, doubled, some_bits, below)))
      (product_small d t fits (omega (arith, doubled, below)))
    ∙ rw exponent refl

-- which branch a bound above zero and below one takes
branch_subnormal :
    (n d bits : ℕ)
    → 0 < d
    → 0 < bits
    → bits < one_bits
    → (exponent_bits bits == 0) ≡ true
    → compare_fraction_to_bound n d bits ≡ zero_or_more n
unfolding compare_fraction_to_bound
branch_subnormal n d bits positive some_bits below small =
    rw (some_rows d positive, plus bits below, not_zero bits some_bits, not_one bits below, small)

branch_normal :
    (n d bits : ℕ)
    → 0 < d
    → 0 < bits
    → bits < one_bits
    → (exponent_bits bits == 0) ≡ false
    → compare_fraction_to_bound n d bits
      ≡ compare_normal n d (2 ^ 52 + bits % 2 ^ 52) (1075 - exponent_bits bits)
unfolding compare_fraction_to_bound
branch_normal n d bits positive some_bits below normal =
    rw (some_rows d positive, plus bits below, not_zero bits some_bits, not_one bits below, normal)

-- the bounds above zero and below one
compare_inside :
    (n d bits : ℕ)
    → 0 < d
    → d < 2 ^ 64
    → 0 < bits
    → bits < one_bits
    → compare_fraction_to_bound n d bits ≡ exact_compare n d bits
compare_inside n d bits positive fits some_bits below =
    elim (Bool-cases (exponent_bits bits == 0)) [
      | inl small ↦
          let exponent : exponent_bits bits ≡ 0 = (==_iff (exponent_bits bits) 0).0 small in
          branch_subnormal n d bits positive some_bits below small
          ∙ compare_subnormal n d bits positive fits some_bits (omega (arith, exponent, below))
      | inr normal ↦
          branch_normal n d bits positive some_bits below normal
          ∙ compare_between n d bits positive fits below normal
    ]

-- For counts in u64 over rows that are not none, and a bound that is a ratio, the comparison is that of
-- the exact fraction with the exact number that the bound stands for: nothing is rounded, and neither
-- the shortcuts nor an overflow of u128 change the answer.
pub compare_fraction_to_bound-exact :
    (numerator denominator bits : ℕ)
    → 0 < denominator
    → denominator < 2 ^ 64
    → IsRatio bits
    → compare_fraction_to_bound numerator denominator bits
      ≡ exact_compare numerator denominator bits
unfolding compare_fraction_to_bound
compare_fraction_to_bound-exact n d bits positive fits (inr minus_zero) =
    rw (minus_zero, some_rows d positive) (compare_zero n d (2 ^ 63) refl refl)
compare_fraction_to_bound-exact n d bits positive fits (inl ratio) = elim (Bool-cases (bits == 0)) [
  | inl zero_bound ↦
      rw ((==_iff bits 0).0 zero_bound, some_rows d positive) (compare_zero n d 0 refl refl)
  | inr some_bound ↦ elim (Bool-cases (bits == one_bits)) [
    | inl whole ↦ rw ((==_iff bits one_bits).0 whole, some_rows d positive) (compare_one n d)
    | inr part ↦ compare_inside n d bits positive fits (ground arith) (ground (arith, ratio))
  ]
]
