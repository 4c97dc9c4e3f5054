-- ===== src/Lookup/Neutral.antt =====
-- GetIndexForNeutralBuckets and GetIndex: the bucket of a size is large enough.
use partition_alloc.Base.{
  ℕ, ◌+◌, ◌-◌, ◌*◌, ◌/◌, ◌%◌, ◌^◌, ◌≤◌, ◌<◌, ◌≡◌, refl, ap, ◌∙◌, inl, inr, ◌⊎◌, ◌&&◌, ◌==◌, ltb,
  leb, if◌then◌else◌, Option, none, some, ◌>>=◌, check, Returns, >>=-Returns, if-Returns,
  Bool-cases, leb_of, ltb_of, arith,
}
use partition_alloc.Lookup.{
  num_buckets, max_bucketed, alignment, num_buckets_per_order, get_index_for_denser_buckets,
  get_index_for_neutral_buckets, round_up_to_odd, round_up_to_power_of_two, round_up_size,
  get_index, high_threshold_for_alternate_distribution,
}
use partition_alloc.Lookup.Table.{valid_buckets, size_at}
use partition_alloc.Lookup.Index.{IsCountlZero, IsSmallest, IsBucketOf, size_at-grows}
use partition_alloc.Lookup.Denser.{get_index_for_denser_buckets-IsBucketOf}

-- Log2Ceiling: the least power of two that is large enough.
pub record IsLog2Ceiling (log2_ceiling : ℕ → ℕ) : Type 0 where
  pub reaches : (n : ℕ) → 0 < n → n ≤ 2 ^ 31 → n ≤ 2 ^ log2_ceiling n
  pub least : (n : ℕ) → 0 < n → n ≤ 2 ^ 31 → 2 ^ log2_ceiling n < 2 * n

-- A bucket that is large enough, or the sentinel for a size above the largest bucket.
abbrev pub Fits : ℕ → ℕ → Type 0
Fits size index =
    (size ≤ max_bucketed → (index < valid_buckets) × (size ≤ size_at index))
    × (max_bucketed < size → index ≡ num_buckets)

-- The index after rounding.
abbrev rounded : ℕ → ℕ → ℕ → ℕ
rounded size index last =
    if ltb (alignment * num_buckets_per_order) size && ltb index last
    then round_up_to_odd index
    else index

round_up_to_odd-le : (i : ℕ) → (i ≤ round_up_to_odd i) × (round_up_to_odd i ≤ i + 1)
round_up_to_odd-le i = elim (Bool-cases (i % 2 == 0)) [
  | inl even ↦ rw even (omega arith, omega arith)
  | inr odd ↦ rw odd (omega arith, omega arith)
]

-- Rounding stays below the last bucket.
rounded-le :
    (size index last : ℕ)
    → (index ≤ rounded size index last)
      × ((rounded size index last ≡ index)
          ⊎ ((rounded size index last ≤ index + 1) × (index < last)))
rounded-le size index last =
    elim (Bool-cases (ltb (alignment * num_buckets_per_order) size && ltb index last)) [
      | inl both ↦
          let odd = round_up_to_odd-le index in rw both (odd.0, inr (odd.1, ground (arith, both)))
      | inr not_both ↦ rw not_both (omega arith, inl refl)
    ]

rounded-Fits :
    (size index last : ℕ)
    → IsBucketOf size index
    → last < valid_buckets
    → Fits size (rounded size index last)
rounded-Fits size index last b valid =
    let (up, by_one) = rounded-le size index last in
    (
      λ l. fits (rounded size index last) (b.0 l) up by_one,
      λ g. stays (rounded size index last) (b.1 g) by_one,
    )
  where
    fits :
        (r : ℕ)
        → IsSmallest size index
        → index ≤ r
        → (r ≡ index) ⊎ ((r ≤ index + 1) × (index < last))
        → (r < valid_buckets) × (size ≤ size_at r)
    fits r s up (inl same) = (omega (arith, s.valid), omega (arith, s.enough, ap size_at same))
    fits r s up (inr (one, below)) =
        let gap : index + (r - index) ≡ r = omega arith in
        let grows = size_at-grows (r - index) index (omega arith) in
        (omega arith, omega (arith, s.enough, ap size_at gap))

    stays :
        (r : ℕ)
        → index ≡ num_buckets
        → (r ≡ index) ⊎ ((r ≤ index + 1) × (index < last))
        → r ≡ num_buckets
    stays r e (inl same) = same ∙ e
    stays r e (inr (one, below)) = absurd (omega arith)

-- The choice of RoundUpSize, from the next power of two on.
pub choose_size :
    (p size : ℕ)
    → size ≤ p
    → p < 2 * size
    → Returns
        (λ n. (size ≤ n) × (n < 2 * size))
        (check
          (leb size p)
          (check (ltb (p / 2) size) (some (if leb size (p / 2 * 5 / 4) then p / 2 * 5 / 4 else p))))
choose_size p size up down =
    rw (leb_of size p up, ltb_of (p / 2) size (omega arith))
      (elim (Bool-cases (leb size (p / 2 * 5 / 4))) [
        | inl fits ↦ rw fits (ground (arith, fits), omega arith)
        | inr larger ↦ rw larger (up, down)
      ])

module _ (countl_zero log2_ceiling : ℕ → ℕ) (counts : IsCountlZero countl_zero)
    (ceils : IsLog2Ceiling log2_ceiling) where
  get_index_for_neutral_buckets-Fits :
      (size : ℕ)
      → size < 2 ^ 64
      → Returns (Fits size) (get_index_for_neutral_buckets countl_zero log2_ceiling size)
  unfolding get_index_for_neutral_buckets
  get_index_for_neutral_buckets-Fits size h =
      >>=-Returns (IsBucketOf size) (Fits size)
        (get_index_for_denser_buckets countl_zero log2_ceiling size)
        (λ index. get_index_for_denser_buckets countl_zero log2_ceiling max_bucketed >>= λ last.
          some (rounded size index last))
        (get_index_for_denser_buckets-IsBucketOf countl_zero log2_ceiling counts size h)
        λ index b.
          >>=-Returns (IsBucketOf max_bucketed) (Fits size)
            (get_index_for_denser_buckets countl_zero log2_ceiling max_bucketed)
            (λ last. some (rounded size index last))
            (get_index_for_denser_buckets-IsBucketOf countl_zero log2_ceiling counts max_bucketed
              (omega arith))
            λ last c. rounded-Fits size index last b (c.0 (omega arith)).valid

  -- RoundUpSize gives a size that is large enough, and less than twice as large.
  round_up_size-Returns :
      (size : ℕ)
      → 0 < size
      → size ≤ 2 ^ 31
      → Returns (λ n. (size ≤ n) × (n < 2 * size)) (round_up_size countl_zero log2_ceiling size)
  unfolding round_up_size round_up_to_power_of_two
  round_up_size-Returns size some_byte small =
      let same : size % 2 ^ 32 ≡ size = omega arith in
      let up = ceils.reaches size some_byte small in
      rw (same, leb_of size (2 ^ log2_ceiling size) up)
        (choose_size (2 ^ log2_ceiling size) size up (ceils.least size some_byte small))

  -- If CountlZero counts the leading zeros and Log2Ceiling rounds up, GetIndex fails no check, and leads
  -- each size below 2 ^ 64 to a bucket that is large enough, or to the sentinel where the size is above
  -- the largest bucket.
  pub get_index-Fits :
      (size : ℕ) → size < 2 ^ 64 → Returns (Fits size) (get_index countl_zero log2_ceiling size)
  unfolding get_index
  get_index-Fits size h =
      if-Returns (Fits size)
        (ltb (2 ^ 8) size && ltb size high_threshold_for_alternate_distribution)
        (round_up_size countl_zero log2_ceiling size
          >>= get_index_for_neutral_buckets countl_zero log2_ceiling)
        (get_index_for_neutral_buckets countl_zero log2_ceiling size)
        (λ between.
          >>=-Returns (λ n. (size ≤ n) × (n < 2 * size)) (Fits size)
            (round_up_size countl_zero log2_ceiling size)
            (get_index_for_neutral_buckets countl_zero log2_ceiling)
            (round_up_size-Returns size (ground (arith, between)) (ground (arith, between)))
            λ n r.
              larger n r (ground (arith, between))
                (get_index_for_neutral_buckets countl_zero log2_ceiling n)
                (get_index_for_neutral_buckets-Fits n (ground (arith, between, r.1))))
        (λ outside. get_index_for_neutral_buckets-Fits size h)
    where
      larger :
          (n : ℕ)
          → (size ≤ n) × (n < 2 * size)
          → size < high_threshold_for_alternate_distribution
          → (o : Option ℕ) → Returns (Fits n) o
          → Returns (Fits size) o
      larger n r low none k = k
      larger n (up, down) low (some i) k =
          let inside = k.0 (omega arith) in
          (λ l. (inside.0, omega (arith, inside.1)), λ g. absurd (omega arith))
