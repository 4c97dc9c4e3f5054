-- ===== src/Lookup/Denser.antt =====
-- GetIndexForDenserBuckets, order by order.
use native.Mathlib.Nat.{pow-le-pow_right, pow-suc}
use partition_alloc.Base.{
  ℕ, zero, suc, ◌+◌, ◌-◌, ◌*◌, ◌/◌, ◌%◌, ◌^◌, ◌≤◌, ◌<◌, ◌≡◌, refl, sym, ap, ◌∙◌, subst, inl, inr,
  false, ◌&&◌, ◌==◌, leb, some, ◌>>=◌, check, Returns, get_elem?, Bool-cases, leb_of, arith,
}
use partition_alloc.Lookup.{
  bucket_sizes, num_buckets, max_bucketed, bits_per_size_t, num_buckets_per_order,
  order_index_shift, order_sub_index_mask, one_if_not_zero, get_index_for_denser_buckets,
}
use partition_alloc.Lookup.Table.{
  table, index_at, bucket_index_lookup-table, get_elem?-table, index_at-small, index_at-large,
  up_to, above, entry_at-EntryIsRight,
}
use partition_alloc.Lookup.Index.{
  IsCountlZero, IsBucketOf, IsSmallest-entry, Units, size-Units, entry_of, in_range, low_end,
}

-- The position in the table.
abbrev key : ℕ → ℕ → ℕ
key order size =
    order * num_buckets_per_order
    + size / 2 ^ order_index_shift order % num_buckets_per_order
    + one_if_not_zero (size % (order_sub_index_mask order + 1))

get_index-key :
    (countl_zero log2_ceiling : ℕ → ℕ) (size k : ℕ)
    → key (bits_per_size_t - countl_zero size) size ≡ k
    → k < 521
    → index_at k ≤ num_buckets
    → get_index_for_denser_buckets countl_zero log2_ceiling size ≡ some (index_at k)
unfolding get_index_for_denser_buckets
get_index-key countl_zero log2_ceiling size k e inside low =
    ap
      (λ o. o >>= λ lookup.
        get_elem? lookup (key (bits_per_size_t - countl_zero size) size) >>= λ index.
        check (leb index num_buckets) (some index))
      bucket_index_lookup-table
    ∙ (ap (λ n. get_elem? table n >>= λ index. check (leb index num_buckets) (some index)) e
        ∙ (ap (λ o. o >>= λ index. check (leb index num_buckets) (some index))
              (get_elem?-table k inside)
            ∙ ap (λ c. check c (some (index_at k))) (leb_of _ _ low)))

one_if_not_zero-le : (n : ℕ) → one_if_not_zero n ≤ 1
one_if_not_zero-le zero = omega arith
one_if_not_zero-le (suc n) = omega arith

-- The bucket at a position of the table.
abbrev Leads : ℕ → ℕ → Type 0
Leads size k = (k < 521) × ((index_at k ≤ num_buckets) × IsBucketOf size (index_at k))

key-small : (order size : ℕ) → order ≤ 4 → key order size < 41
key-small order size h =
    let low = one_if_not_zero-le (size % (order_sub_index_mask order + 1)) in omega arith

Leads-small : (order size : ℕ) → order ≤ 4 → size < 16 → Leads size (key order size)
unfolding bucket_sizes
Leads-small order size h less =
    let first = index_at-small (key order size) (key-small order size h) in
    (
      omega (arith, key-small order size h),
      (
        omega (arith, first),
        (
          λ low. record {
            valid = omega (arith, first);
            enough = rw first (omega arith);
            least = λ j below. absurd (omega (arith, first));
          },
          λ high. absurd (omega arith),
        ),
      ),
    )

-- Orders above the buckets.
Leads-large :
    (order size : ℕ) → 20 < order → order ≤ 64 → max_bucketed < size → Leads size (key order size)
Leads-large order size h top high =
    let low = one_if_not_zero-le (size % (order_sub_index_mask order + 1)) in
    let d = key order size - 168 in
    let same : 168 + d ≡ key order size = omega arith in
    let none_there : index_at (key order size) ≡ num_buckets =
      ap index_at (sym same) ∙ index_at-large d (omega arith) in
    (omega arith, (omega (arith, none_there), (λ l. absurd (omega arith), λ g. none_there)))

pow_le : (i j : ℕ) → i ≤ j → 2 ^ i ≤ 2 ^ j
pow_le i j h = pow-le-pow_right {n = 2} (omega arith) {i = i} {j = j} h

pub pow_next : (n m : ℕ) → m ≡ suc n → 2 ^ m ≡ 2 * 2 ^ n
pow_next n m e = omega (arith, ap (λ k. 2 ^ k) e, pow-suc 2 n)

pow_four : (e : ℕ) → 2 ^ (e + 4) ≡ 8 * 2 ^ (e + 1)
pow_four e = omega (
  arith,
  pow_next (e + 3) (e + 4) (omega arith),
  pow_next (e + 2) (e + 3) (omega arith),
  pow_next (e + 1) (e + 2) (omega arith),
)

pow_five : (e : ℕ) → 2 ^ (e + 5) ≡ 16 * 2 ^ (e + 1)
pow_five e = omega (arith, pow_next (e + 4) (e + 5) (omega arith), pow_four e)

-- The position of a size of order e + 5.
key-middle :
    (e size : ℕ)
    → 0 < 2 ^ (e + 1)
    → Units (2 ^ (e + 1)) size
    → key (e + 5) size ≡ (e + 5) * 8 + entry_of (2 ^ (e + 1)) size
key-middle e size some_unit k =
    let shift : order_index_shift (e + 5) ≡ e + 1 = omega arith in
    let mask : order_sub_index_mask (e + 5) + 1 ≡ 2 ^ (e + 1) = omega (arith, pow_five e) in
    let index : size / 2 ^ order_index_shift (e + 5) % 8 ≡ size / 2 ^ (e + 1) - 8 =
      ap (λ n. size / 2 ^ n % 8) shift ∙ units_mod (size / 2 ^ (e + 1)) k.eight k.sixteen in
    let rest = ap (λ n. one_if_not_zero (size % n)) mask in omega (arith, index, rest)
  where
    units_mod : (q : ℕ) → 8 ≤ q → q < 16 → q % 8 ≡ q - 8
    units_mod q low high = omega arith

entry_of-le : (u size : ℕ) → Units u size → entry_of u size ≤ 8
entry_of-le u size k = omega (arith, k.sixteen, one_if_not_zero-le (size % u))

-- The last position of the last order.
Leads-last : (size : ℕ) → max_bucketed < size → (k : ℕ) → k ≡ 168 → Leads size k
Leads-last size high k e =
    let none_there : index_at k ≡ num_buckets = ap index_at e ∙ index_at-large 0 (omega arith) in
    (omega arith, (omega (arith, none_there), (λ l. absurd (omega arith), λ g. none_there)))

Leads-entry :
    (e d size : ℕ)
    → e < 16
    → d < 9
    → (e == 15 && d == 8) ≡ false
    → above e d < size
    → size ≤ up_to e d
    → Leads size ((e + 5) * 8 + d)
Leads-entry e d size he hd inner low high =
    let r = entry_at-EntryIsRight e d he hd inner in
    (
      omega arith,
      (
        omega (arith, r.valid),
        (λ l. IsSmallest-entry e d size r low high, λ g. absurd (omega (arith, r.small))),
      ),
    )

-- A size of order e + 5.
Leads-middle :
    (e size : ℕ) → e < 16 → 2 ^ (e + 4) ≤ size → size < 2 ^ (e + 5) → Leads size (key (e + 5) size)
Leads-middle e size he low high =
    let u = 2 ^ (e + 1) in
    let some_unit : 0 < u = omega (arith, pow_le 0 (e + 1) (omega arith)) in
    let k = size-Units u size some_unit (omega (arith, pow_four e)) (omega (arith, pow_five e)) in
    let range = in_range u size some_unit k in
    let few = entry_of-le u size k in
    let d = entry_of u size in
    subst (Leads size) (sym (key-middle e size some_unit k))
      (elim (Bool-cases (e == 15 && d == 8)) [
        | inl last ↦
            Leads-last size
              (last_size e d size (ground (arith, last)) (ground (arith, last)) range.0)
              ((e + 5) * 8 + d) (ground (arith, last))
        | inr inner ↦
            Leads-entry e d size he (omega arith) inner (above_low e d size range.0) range.1
      ])
  where
    last_size :
        (e d size : ℕ) → e ≡ 15 → d ≡ 8 → low_end (2 ^ (e + 1)) d < size → max_bucketed < size
    last_size e d size he hd h =
        subst (λ n. low_end (2 ^ (15 + 1)) n < size) hd
          (subst (λ n. low_end (2 ^ (n + 1)) d < size) he h)

    above_low : (e d size : ℕ) → low_end (2 ^ (e + 1)) d < size → above e d < size
    above_low e zero size h = h
    above_low e (suc d) size h = h

-- The order of a size is one of these.
Leads-order :
    (order size : ℕ)
    → 0 < order
    → order ≤ 64
    → 2 ^ (order - 1) ≤ size
    → size < 2 ^ order
    → Leads size (key order size)
Leads-order order size some_bit top low high = elim (Bool-cases (leb order 4)) [
  | inl small ↦
      Leads-small order size (ground (arith, small))
        (omega (arith, high, pow_le order 4 (ground (arith, small))))
  | inr other ↦ elim (Bool-cases (leb order 20)) [
    | inl middle ↦
        let e = order - 5 in
        let same : e + 5 ≡ order = ground (arith, other) in
        let below : e + 4 ≡ order - 1 = ground (arith, other) in
        subst (λ o. Leads size (key o size)) same
          (Leads-middle e size (ground (arith, middle)) (omega (arith, low, ap (λ n. 2 ^ n) below))
            (omega (arith, high, ap (λ n. 2 ^ n) same)))
    | inr large ↦
        Leads-large order size (ground (arith, large)) top
          (omega (arith, low, pow_le 20 (order - 1) (ground (arith, large))))
  ]
]

-- If CountlZero counts the leading zeros, GetIndexForDenserBuckets fails no check, and leads each size
-- below 2 ^ 64 to the smallest bucket that is large enough, or to the sentinel where the size is above
-- the largest bucket.
pub get_index_for_denser_buckets-IsBucketOf :
    (countl_zero log2_ceiling : ℕ → ℕ)
    → IsCountlZero countl_zero
    → (size : ℕ) → size < 2 ^ 64
    → Returns (IsBucketOf size) (get_index_for_denser_buckets countl_zero log2_ceiling size)
get_index_for_denser_buckets-IsBucketOf countl_zero log2_ceiling counts size h =
    let order = bits_per_size_t - countl_zero size in
    let (inside, (low, is_bucket)) = leads size h in
    subst (Returns (IsBucketOf size))
      (sym (get_index-key countl_zero log2_ceiling size (key order size) refl inside low)) is_bucket
  where
    leads : (size : ℕ) → size < 2 ^ 64 → Leads size (key (bits_per_size_t - countl_zero size) size)
    leads zero h =
        Leads-small (bits_per_size_t - countl_zero 0) 0 (omega (arith, counts.all_zero))
          (omega arith)
    leads (suc n) h =
        let (top, (low, high)) = counts.leading (suc n) (omega arith) h in
        let one_less : bits_per_size_t - countl_zero (suc n) - 1 ≡ 63 - countl_zero (suc n) =
          omega arith in
        Leads-order (bits_per_size_t - countl_zero (suc n)) (suc n) (omega arith) (omega arith)
          (omega (arith, low, ap (λ k. 2 ^ k) one_less)) high
