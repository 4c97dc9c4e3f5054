-- ===== src/Lookup/Index.antt =====
-- GetIndexForDenserBuckets: the bucket of a size is the smallest that is large enough.
use native.Mathlib.Nat.{mod-lt, div-add-mod, le-div_iff_mul-le, div-lt_iff_lt-mul}
use partition_alloc.Base.{
  ℕ, zero, suc, ◌+◌, ◌-◌, ◌*◌, ◌/◌, ◌%◌, ◌^◌, ◌≤◌, ◌<◌, ◌≡◌, ap, subst, inl, inr, ◌⊎◌, arith,
}
use partition_alloc.Lookup.{num_buckets, max_bucketed, one_if_not_zero}
use partition_alloc.Lookup.Table.{
  valid_buckets, size_at, size_at-increases, up_to, above, entry_at, EntryIsRight,
}

-- CountlZero: the number of zero bits before the first bit that is set.
pub record IsCountlZero (countl_zero : ℕ → ℕ) : Type 0 where
  pub all_zero : countl_zero 0 ≡ 64
  pub leading :
      (n : ℕ)
      → 0 < n
      → n < 2 ^ 64
      → (countl_zero n ≤ 63) × ((2 ^ (63 - countl_zero n) ≤ n) × (n < 2 ^ (64 - countl_zero n)))

-- The smallest bucket that is large enough.
pub record IsSmallest (size index : ℕ) : Type 0 where
  pub valid : index < valid_buckets
  pub enough : size ≤ size_at index
  pub least : (j : ℕ) → j < index → size_at j < size

-- The bucket of a size, or the sentinel.
abbrev pub IsBucketOf : ℕ → ℕ → Type 0
IsBucketOf size index =
    (size ≤ max_bucketed → IsSmallest size index) × (max_bucketed < size → index ≡ num_buckets)

-- The sizes grow from one bucket to any later one.
pub size_at-grows : (k j : ℕ) → j + k < valid_buckets → size_at j ≤ size_at (j + k)
size_at-grows zero j h = omega (arith, ap size_at (same j))
  where
    same : (j : ℕ) → j + 0 ≡ j
    same j = omega arith
size_at-grows (suc k) j h = omega (
  arith,
  size_at-grows k j (omega arith),
  size_at-increases (j + k) (omega arith),
  ap size_at (one_more j k),
)
  where
    one_more : (j k : ℕ) → j + k + 1 ≡ j + suc k
    one_more j k = omega arith

-- What the entries say, for a size in their range.
pub IsSmallest-entry :
    (e d size : ℕ)
    → EntryIsRight e d
    → above e d < size
    → size ≤ up_to e d
    → IsSmallest size (entry_at e d)
IsSmallest-entry e d size r low high = record {
  valid = r.valid;
  enough = omega (arith, r.enough);
  least = λ j h. below j h (entry_at e d) r.valid r.least h;
}
  where
    below :
        (j : ℕ)
        → j < entry_at e d
        → (i : ℕ) → i < valid_buckets
        → (i ≡ 0) ⊎ (size_at (i - 1) ≤ above e d)
        → j < i
        → size_at j < size
    below j h i v (inl first) less = absurd (omega arith)
    below j h i v (inr small) less =
        let gap : j + (i - 1 - j) ≡ i - 1 = omega arith in
        let grows = size_at-grows (i - 1 - j) j (omega arith) in
        let same = ap size_at gap in omega arith

-- The units of a size of an order: eight to fifteen, and a remainder.
pub record Units (u size : ℕ) : Type 0 where
  pub eight : 8 ≤ size / u
  pub sixteen : size / u < 16
  pub parts : u * (size / u) + size % u ≡ size
  pub small : size % u < u

pub size-Units : (u size : ℕ) → 0 < u → u * 8 ≤ size → size < u * 16 → Units u size
size-Units u size hu low high = record {
  eight = (le-div_iff_mul-le hu).1 (omega arith);
  sixteen = (div-lt_iff_lt-mul hu).1 (omega arith);
  parts = div-add-mod size u;
  small = mod-lt size hu;
}

abbrev pub entry_of : ℕ → ℕ → ℕ
entry_of u size = size / u - 8 + one_if_not_zero (size % u)

abbrev pub low_end : ℕ → ℕ → ℕ
low_end u zero = 8 * u - 1
low_end u (suc d) = (8 + d) * u

one_unit : (d u : ℕ) → ((8 + d) * u ≡ u * (8 + d)) × (u * (8 + suc d) ≡ u * (8 + d) + u)
one_unit d u = (grind arith, grind arith)

in_range_whole :
    (u d size : ℕ) → 0 < u → u * (8 + d) ≡ size → (low_end u d < size) × (size ≤ (8 + d) * u)
in_range_whole u zero size h e = (omega arith, omega arith)
in_range_whole u (suc d) size h e =
    let here = one_unit d u in let there = one_unit (suc d) u in (omega arith, omega arith)

in_range_part :
    (u d r size : ℕ)
    → 0 < r
    → r < u
    → u * (8 + d) + r ≡ size
    → (low_end u (suc d) < size) × (size ≤ (8 + suc d) * u)
in_range_part u d r size h less e =
    let here = one_unit d u in let there = one_unit (suc d) u in (omega arith, omega arith)

-- A size is in the range of its entry.
pub in_range :
    (u size : ℕ)
    → 0 < u
    → Units u size
    → (low_end u (entry_of u size) < size) × (size ≤ (8 + entry_of u size) * u)
in_range u size h k = go (size / u - 8) (size % u) (omega (arith, k.eight)) k.small k.parts
  where
    go :
        (d r : ℕ)
        → size / u ≡ 8 + d
        → r < u
        → (u * (size / u) + r ≡ size)
        → (low_end u (d + one_if_not_zero r) < size) × (size ≤ (8 + (d + one_if_not_zero r)) * u)
    go d zero q less parts =
        let whole : u * (8 + d) ≡ size = omega (arith, parts, ap (λ n. u * n) q) in
        let same : d ≡ d + 0 = omega arith in
        subst (λ n. (low_end u n < size) × (size ≤ (8 + n) * u)) same
          (in_range_whole u d size h whole)
    go d (suc r) q less parts =
        let whole : u * (8 + d) + suc r ≡ size = omega (arith, parts, ap (λ n. u * n) q) in
        let same : suc d ≡ d + 1 = omega arith in
        subst (λ n. (low_end u n < size) × (size ≤ (8 + n) * u)) same
          (in_range_part u d (suc r) size (omega arith) less whole)
