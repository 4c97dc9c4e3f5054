-- ===== src/SlotSpan/Number.antt =====
-- GetSlotNumber of src/partition_alloc/partition_bucket.h, which divides by the size of the slots
-- through the reciprocal that PartitionBucket::Init computes.
use native.Mathlib.Nat.{
  mod-eq_of_lt, div-le_self, div-mul-le_self, lt-div-mul-add, div-eq_of_lt-le, mul-le-mul_right,
  mul-le-mul_left, mul-le-mul, mul_assoc,
}
use native.Mathlib.Decide.{dec_lt}
use partition_alloc.Lookup.{max_bucketed}
use partition_alloc.Base.{ℕ, ◌+◌, ◌-◌, ◌*◌, ◌/◌, ◌%◌, ◌^◌, ◌≤◌, ◌<◌, ◌≡◌, ap, ◌∙◌, arith}

abbrev pub reciprocal_shift : ℕ
reciprocal_shift = 42

abbrev pub reciprocal_mask : ℕ
reciprocal_mask = 2 ^ reciprocal_shift - 1

-- `slot_size_reciprocal`, as Init sets it.
abbrev pub slot_size_reciprocal : ℕ → ℕ
slot_size_reciprocal slot_size = reciprocal_mask / slot_size + 1

-- The product is one of uint64_t.
unfoldable pub get_slot_number : ℕ → ℕ → ℕ
get_slot_number slot_size offset_in_slot_span =
    offset_in_slot_span * slot_size_reciprocal slot_size % 2 ^ 64 / 2 ^ reciprocal_shift

one_more : (k n : ℕ) → (k + 1) * n ≡ k * n + n
one_more k n = grind arith

swap_factors : (q a b : ℕ) → q * a * b ≡ q * b * a
swap_factors q a b = grind arith

split_sum : (x a b : ℕ) → x * (a + b) ≡ x * a + x * b
split_sum x a b = grind arith

below_of : (a b : ℕ) → (b ≤ a → ⊥) → a < b
below_of a b h = elim (dec_lt a b) [ yes p ↦ p | no p ↦ absurd (h (omega arith)) ]

regroup : (q a b : ℕ) → q * (a * b) ≡ q * b * a
regroup q a b = grind arith

-- The product of the size with its reciprocal is just above the power of two.
module _ (size x : ℕ) (pos : 0 < size) (small : size ≤ 983040) (inside : x ≤ 983040) where
  abbrev power : ℕ
  power = 4398046511104

  abbrev recip : ℕ
  recip = slot_size_reciprocal size

  recip_above : power ≤ recip * size
  recip_above =
      omega
        (arith, one_more (reciprocal_mask / size) size, lt-div-mul-add {a = reciprocal_mask} pos)

  recip_below : recip * size < power + size
  recip_below =
      omega (arith, one_more (reciprocal_mask / size) size, div-mul-le_self reciprocal_mask size)

  recip-le : recip ≤ power
  recip-le = omega (arith, div-le_self reciprocal_mask size)

  no_overflow : x * recip < 18446744073709551616
  no_overflow = omega (arith, mul-le-mul inside recip-le)

  lower : x / size * power ≤ x * recip
  lower = omega (
    arith,
    mul-le-mul_left (x / size) recip_above,
    regroup (x / size) recip size,
    mul-le-mul_right recip (div-mul-le_self x size),
  )

  -- If the product reached the next multiple, it would exceed its own bound.
  not_reached : (x / size + 1) * power ≤ x * recip → ⊥
  not_reached h =
      let scaled : (x / size + 1) * power * size ≤ x * recip * size = mul-le-mul_right size h in
      let next : (x + 1) * power ≤ (x / size + 1) * size * power =
        mul-le-mul_right power
          (omega (arith, one_more (x / size) size, lt-div-mul-add {a = x} pos)) in
      let bound : x * (recip * size) ≤ x * (power + size) =
        mul-le-mul_left x (omega (arith, recip_below)) in
      omega (
        arith,
        scaled,
        next,
        bound,
        swap_factors (x / size + 1) power size,
        mul_assoc x recip size,
        one_more x power,
        split_sum x power size,
        mul-le-mul inside small,
      )

  upper : x * recip < (x / size + 1) * power
  upper = below_of _ _ not_reached

-- For slots and offsets up to the largest bucket, the product with the reciprocal does not overflow,
-- and shifting it right gives the quotient of the division.
pub get_slot_number-div :
    (slot_size offset_in_slot_span : ℕ)
    → 0 < slot_size
    → slot_size ≤ max_bucketed
    → offset_in_slot_span ≤ max_bucketed
    → get_slot_number slot_size offset_in_slot_span ≡ offset_in_slot_span / slot_size
unfolding get_slot_number
get_slot_number-div size x pos small inside =
    let whole : x * slot_size_reciprocal size % 2 ^ 64 ≡ x * slot_size_reciprocal size =
      mod-eq_of_lt (no_overflow size x pos small inside) in
    ap (λ n. n / 2 ^ reciprocal_shift) whole
    ∙ div-eq_of_lt-le {k = x / size} (2 ^ reciprocal_shift) (lower size x pos small inside)
        (upper size x pos small inside)
