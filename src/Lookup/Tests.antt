-- ===== src/Lookup/Tests.antt =====
-- Buckets of concrete sizes, with the two functions of base/bits.h by halving.
use partition_alloc.Base.{
  ℕ, zero, suc, ◌-◌, ◌*◌, ◌/◌, ◌^◌, ◌≤◌, ◌<◌, ◌≡◌, refl, ap, ◌∙◌, inl, inr, ◌==◌, some, Returns,
  Bool-cases, arith,
}
use partition_alloc.Lookup.{get_index_for_denser_buckets, get_index}
use partition_alloc.Lookup.Index.{IsCountlZero, IsBucketOf}
use partition_alloc.Lookup.Denser.{get_index_for_denser_buckets-IsBucketOf, pow_next}
use partition_alloc.Lookup.Neutral.{IsLog2Ceiling, Fits, get_index-Fits}

-- The number of bits of a number below 2 ^ fuel.
abbrev width : ℕ → ℕ → ℕ
width zero n = 0
width (suc fuel) zero = 0
width (suc fuel) (suc n) = suc (width fuel (suc n / 2))

width_lem :
    (fuel n : ℕ)
    → 0 < n
    → n < 2 ^ fuel
    → (width fuel n ≤ fuel)
      × ((0 < width fuel n) × ((2 ^ width fuel n ≤ 2 * n) × (n < 2 ^ width fuel n)))
width_lem zero n h less = absurd (omega arith)
width_lem (suc fuel) zero h less = absurd (omega arith)
width_lem (suc fuel) (suc n) h less = elim (Bool-cases (suc n / 2 == 0)) [
  | inl last ↦
      let one : n ≡ 0 = ground (arith, last) in
      let none_left : width fuel (suc n / 2) ≡ 0 =
        ap (width fuel) (ground (arith, last)) ∙ width_zero fuel in
      let power = ap (λ k. 2 ^ suc k) none_left in
      (omega arith, (omega arith, (omega arith, omega arith)))
  | inr more ↦
      let (few, (some_bit, (low, high))) =
        width_lem fuel (suc n / 2) (ground (arith, more))
          (omega (arith, pow_next fuel (suc fuel) refl)) in
      let power = pow_next (width fuel (suc n / 2)) (suc (width fuel (suc n / 2))) refl in
      (omega arith, (omega arith, (omega arith, omega arith)))
]
  where
    width_zero : (fuel : ℕ) → width fuel 0 ≡ 0
    width_zero zero = refl
    width_zero (suc fuel) = refl

abbrev leading_zeros : ℕ → ℕ
leading_zeros n = 64 - width 64 n

abbrev ceiling : ℕ → ℕ
ceiling n = width 64 (n - 1)

leading_zeros-IsCountlZero : IsCountlZero leading_zeros
leading_zeros-IsCountlZero = record {
  all_zero = refl;
  leading = λ n h less.
      let (few, (some_bit, (low, high))) = width_lem 64 n h less in
      let back : 64 - leading_zeros n ≡ width 64 n = omega arith in
      let half = pow_next (63 - leading_zeros n) (width 64 n) (omega arith) in
      (omega arith, (omega arith, omega (arith, ap (λ k. 2 ^ k) back)));
}

ceiling-bounds : (n : ℕ) → 0 < n → n ≤ 2 ^ 31 → (n ≤ 2 ^ ceiling n) × (2 ^ ceiling n < 2 * n)
ceiling-bounds zero h less = absurd (omega arith)
ceiling-bounds (suc zero) h less = (omega arith, omega arith)
ceiling-bounds (suc (suc n)) h less =
    let (few, (some_bit, (low, high))) = width_lem 64 (suc n) (omega arith) (omega arith) in
    let same : ceiling (suc (suc n)) ≡ width 64 (suc n) = ap (width 64) (minus n) in
    let power = ap (λ k. 2 ^ k) same in (omega arith, omega arith)
  where
    minus : (n : ℕ) → suc (suc n) - 1 ≡ suc n
    minus n = omega arith

ceiling-IsLog2Ceiling : IsLog2Ceiling ceiling
ceiling-IsLog2Ceiling = record {
  reaches = λ n h less. (ceiling-bounds n h less).0;
  least = λ n h less. (ceiling-bounds n h less).1;
}

get_index_for_denser_buckets-IsBucketOf_example :
    Returns (IsBucketOf 1400) (get_index_for_denser_buckets leading_zeros ceiling 1400)
get_index_for_denser_buckets-IsBucketOf_example =
    get_index_for_denser_buckets-IsBucketOf leading_zeros ceiling leading_zeros-IsCountlZero 1400
      (omega arith)

get_index-Fits_example : Returns (Fits 1400) (get_index leading_zeros ceiling 1400)
get_index-Fits_example =
    get_index-Fits leading_zeros ceiling leading_zeros-IsCountlZero ceiling-IsLog2Ceiling 1400
      (omega arith)

-- 1.4 * 2 ^ 10 goes to the bucket of 1.5 * 2 ^ 10 bytes, or to that of 2 ^ 11.
denser_test : get_index_for_denser_buckets leading_zeros ceiling 1433 ≡ some 35
unfolding get_index_for_denser_buckets
denser_test = refl

get_index_test : get_index leading_zeros ceiling 1433 ≡ some 39
unfolding get_index
get_index_test = refl
