-- ===== src/Lookup.antt =====
-- BucketIndexLookup of src/partition_alloc/partition_bucket_lookup.h: the sizes of the buckets, the
-- table that is computed when the program is compiled, and the bucket of a size, in a build with 64-bit
-- pointers, kAlignment 16 and pages of 4096 bytes. The two functions of base/bits.h that are used are
-- parameters. A mask of n low bits is the remainder modulo 2 ^ n.
pub mod Table
pub mod Index
pub mod Denser
pub mod Neutral
mod Tests
use partition_alloc.Base.{
  ℕ, zero, suc, ◌+◌, ◌-◌, ◌*◌, ◌/◌, ◌%◌, ◌^◌, Bool, true, false, ◌&&◌, ◌==◌, ltb, leb,
  if◌then◌else◌, Option, none, some, ◌>>=◌, check, List, [], ◌∷◌, ◌++◌, length, get_elem?,
}

abbrev pub alignment : ℕ
alignment = 16

abbrev pub bits_per_size_t : ℕ
bits_per_size_t = 64

abbrev pub min_bucketed_order : ℕ
min_bucketed_order = 5

abbrev pub max_bucketed_order : ℕ
max_bucketed_order = 20

abbrev pub num_bucketed_orders : ℕ
num_bucketed_orders = max_bucketed_order - min_bucketed_order + 1

abbrev pub num_buckets_per_order_bits : ℕ
num_buckets_per_order_bits = 3

abbrev pub num_buckets_per_order : ℕ
num_buckets_per_order = 2 ^ num_buckets_per_order_bits

abbrev pub num_buckets : ℕ
num_buckets = num_bucketed_orders * num_buckets_per_order

abbrev pub smallest_bucket : ℕ
smallest_bucket = 2 ^ (min_bucketed_order - 1)

abbrev pub max_bucket_spacing : ℕ
max_bucket_spacing = 2 ^ (max_bucketed_order - 1 - num_buckets_per_order_bits)

abbrev pub max_bucketed : ℕ
max_bucketed = 2 ^ (max_bucketed_order - 1) + (num_buckets_per_order - 1) * max_bucket_spacing

abbrev pub invalid_bucket_size : ℕ
invalid_bucket_size = 1

-- kHighThresholdForAlternateDistribution: MaxRegularSlotSpanSize, four partition pages of 2 ^ 14 bytes.
abbrev pub high_threshold_for_alternate_distribution : ℕ
high_threshold_for_alternate_distribution = 4 * 2 ^ 14

-- InitBucketSizes: the inner loop over the buckets of an order, and the outer one.
pub sizes_of_order : ℕ → ℕ → ℕ → List ℕ
sizes_of_order zero current_size current_increment = []
sizes_of_order (suc rounds) current_size current_increment =
    let rest = sizes_of_order rounds (current_size + current_increment) current_increment in
    if current_size % alignment == 0 then current_size ∷ rest else rest

pub sizes_from : ℕ → ℕ → ℕ → List ℕ
unfolding sizes_of_order
sizes_from zero current_size current_increment = []
sizes_from (suc orders) current_size current_increment =
    sizes_of_order num_buckets_per_order current_size current_increment
    ++ sizes_from orders (current_size + num_buckets_per_order * current_increment)
        (current_increment * 2)

abbrev pub repeat : ℕ → ℕ → List ℕ
repeat zero x = []
repeat (suc n) x = x ∷ repeat n x

abbrev pub padded : List ℕ → List ℕ
padded xs = xs ++ repeat (num_buckets - length xs) invalid_bucket_size

unfoldable pub bucket_sizes : List ℕ
unfolding sizes_from
bucket_sizes =
    padded
      (sizes_from num_bucketed_orders smallest_bucket (smallest_bucket / num_buckets_per_order))

-- The entries of one order and the index after them; a failed check is `none`.
pub entries_of_order : List ℕ → ℕ → ℕ → ℕ → ℕ → Option (List ℕ × ℕ)
entries_of_order sizes zero size current_increment bucket_index = some ([], bucket_index)
entries_of_order sizes (suc rounds) size current_increment bucket_index =
    get_elem? sizes bucket_index >>= λ bucket_size.
    let unaligned = not_zero (size % alignment) in
    let next_index = if unaligned then bucket_index else bucket_index + 1 in
    entries_of_order sizes rounds (size + current_increment) current_increment next_index
    >>= λ rest.
        check (if unaligned then ltb size bucket_size else bucket_size == size)
          (some (bucket_index ∷ rest.0, rest.1))
  where
    not_zero : ℕ → Bool
    not_zero n = ltb 0 n

-- The normal buckets, from an order on.
pub entries_from : List ℕ → ℕ → ℕ → ℕ → Option (List ℕ × ℕ)
unfolding entries_of_order
entries_from sizes zero order bucket_index = some ([], bucket_index)
entries_from sizes (suc orders) order bucket_index =
    let size = 2 ^ (order - 1) in
    entries_of_order sizes num_buckets_per_order size (size / num_buckets_per_order) bucket_index
    >>= λ here.
        entries_from sizes orders (order + 1) here.1 >>= λ rest. some (here.0 ++ rest.0, rest.1)

-- The constructor.
unfoldable pub bucket_index_lookup : Option (List ℕ)
unfolding entries_from bucket_sizes
bucket_index_lookup =
    entries_from bucket_sizes num_bucketed_orders min_bucketed_order 0 >>= λ normal.
    check (ltb normal.1 num_buckets) (
      some (
        repeat (min_bucketed_order * num_buckets_per_order) 0
        ++ (normal.0
            ++ repeat ((bits_per_size_t - max_bucketed_order) * num_buckets_per_order + 1)
                num_buckets)))

abbrev pub order_index_shift : ℕ → ℕ
order_index_shift order = order - (num_buckets_per_order_bits + 1)

abbrev pub order_sub_index_mask : ℕ → ℕ
order_sub_index_mask order = (2 ^ order - 1) / 2 ^ (num_buckets_per_order_bits + 1)

abbrev pub one_if_not_zero : ℕ → ℕ
one_if_not_zero zero = 0
one_if_not_zero (suc n) = 1

abbrev pub round_up_to_odd : ℕ → ℕ
round_up_to_odd size = (if size % 2 == 0 then 1 else 0) + size

-- base::bits::CountlZero on 64 bits and base::bits::Log2Ceiling.
module _ (countl_zero log2_ceiling : ℕ → ℕ) where
  pub get_index_for_denser_buckets : ℕ → Option ℕ
  unfolding bucket_index_lookup
  get_index_for_denser_buckets size =
      let order = bits_per_size_t - countl_zero size in
      let order_index = size / 2 ^ order_index_shift order % num_buckets_per_order in
      let sub_order_index = size % (order_sub_index_mask order + 1) in
      bucket_index_lookup >>= λ lookup.
      get_elem? lookup
        (order * num_buckets_per_order + order_index + one_if_not_zero sub_order_index)
      >>= λ index. check (leb index num_buckets) (some index)

  pub get_index_for_neutral_buckets : ℕ → Option ℕ
  unfolding get_index_for_denser_buckets
  get_index_for_neutral_buckets size = get_index_for_denser_buckets size >>= λ index.
      get_index_for_denser_buckets max_bucketed >>= λ last. some (
        if ltb (alignment * num_buckets_per_order) size && ltb index last
        then round_up_to_odd index
        else index)

  pub round_up_to_power_of_two : ℕ → Option ℕ
  round_up_to_power_of_two size =
      let n = 2 ^ log2_ceiling (size % 2 ^ 32) in check (leb size n) (some n)

  pub round_up_size : ℕ → Option ℕ
  unfolding round_up_to_power_of_two
  round_up_size size = round_up_to_power_of_two size >>= λ next_power.
      let prev_power = next_power / 2 in
      check (leb size next_power) (
        check (ltb prev_power size)
          (some (if leb size (prev_power * 5 / 4) then prev_power * 5 / 4 else next_power)))

  pub get_index : ℕ → Option ℕ
  unfolding get_index_for_neutral_buckets round_up_size
  get_index size =
      if ltb (2 ^ 8) size && ltb size high_threshold_for_alternate_distribution
      then round_up_size size >>= get_index_for_neutral_buckets
      else get_index_for_neutral_buckets size
