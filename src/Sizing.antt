-- ===== src/Sizing.antt =====
-- The slot spans of a bucket: PartitionBucket::Init, ComputeSystemPagesPerSlotSpan and
-- InitCanStoreRawSize of src/partition_alloc/partition_bucket.cc, with system pages of 4 KiB. The
-- doubles are ratios of numbers below 2 ^ 17 that are only compared, so they are compared by cross
-- multiplication; 2% of a page are 81.92 bytes, and 5% are 204.8.
pub mod Bounds
mod Tests
use partition_alloc.Base.{
  ◌>>=◌, ℕ, zero, suc, ◌+◌, ◌-◌, ◌*◌, ◌/◌, ◌%◌, ◌^◌, Bool, true, false, not, ◌&&◌, ◌||◌, ltb, leb,
  ◌==◌, if◌then◌else◌, Option, none, some,
}
use partition_alloc.SlotSpan.{Geometry, system_page_size, align_up_page, get_slots_per_span}
use partition_alloc.SuperPage.{partition_page_size, get_pages_per_slot_span}

abbrev pub num_system_pages_per_partition_page : ℕ
num_system_pages_per_partition_page = 4

abbrev pub max_partition_pages_per_regular_slot_span : ℕ
max_partition_pages_per_regular_slot_span = 4

-- MaxRegularSlotSpanSize
abbrev pub max_regular_slot_span_size : ℕ
max_regular_slot_span_size = max_partition_pages_per_regular_slot_span * partition_page_size

-- kThreadCacheLargeSizeThreshold
abbrev pub large_size_threshold : ℕ
large_size_threshold = 2 ^ 15

-- The first loop of ComputeSystemPagesPerSlotSpanPreferSmall, over `n` partition page counts.
pub first_small : ℕ → ℕ → ℕ → Option ℕ
first_small zero partition_page_count slot_size = none
first_small (suc n) partition_page_count slot_size =
    let waste = partition_page_count * partition_page_size % slot_size in
    let rest = first_small n (partition_page_count + 1) slot_size in
    if leb waste 81 then some (partition_page_count * num_system_pages_per_partition_page) else rest

pub record Best : Type 0 where
  pub best_count : ℕ
  pub best_waste : ℕ

pub better : ℕ → ℕ → Best → Best
better system_page_count slot_size b =
    let waste = system_page_count * system_page_size % slot_size in
    if ltb waste b.best_waste
    then record { best_count = system_page_count; best_waste = waste }
    else b

-- The inner of the two nested loops, over `n` slacks.
pub slack_loop : ℕ → ℕ → ℕ → ℕ → Best → Best
unfolding better
slack_loop zero slack partition_page_count slot_size b = b
slack_loop (suc n) slack partition_page_count slot_size b =
    slack_loop n (slack + 1) partition_page_count slot_size
      (better (partition_page_count * num_system_pages_per_partition_page - slack) slot_size b)

pub count_loop : ℕ → ℕ → ℕ → Best → Best
unfolding slack_loop
count_loop zero partition_page_count slot_size b = b
count_loop (suc n) partition_page_count slot_size b =
    count_loop n (partition_page_count + 1) slot_size
      (slack_loop partition_page_count 0 partition_page_count slot_size b)

abbrev pub or_best : ℕ → Option ℕ → ℕ
or_best best none = best
or_best best (some count) = count

-- Its result is a uint8_t.
pub compute_prefer_small : ℕ → ℕ
unfolding first_small count_loop
compute_prefer_small slot_size =
    if ltb max_regular_slot_span_size slot_size
    then align_up_page slot_size / system_page_size % 2 ^ 8
    else or_best
        (count_loop max_partition_pages_per_regular_slot_span 1 slot_size
          (record { best_count = 0; best_waste = 2 ^ 64 - 1 })).best_count
        (first_small max_partition_pages_per_regular_slot_span 1 slot_size)
      % 2 ^ 8

-- The best pages so far, and their ratio of waste.
pub record Ratio : Type 0 where
  pub best_pages : ℕ
  pub waste : ℕ
  pub page_size : ℕ

-- The waste of `i` pages, with 8 bytes for each page that is left unfaulted.
pub waste_of : ℕ → ℕ → ℕ
waste_of i slot_size =
    let page_size = i * system_page_size in
    let remainder = i % num_system_pages_per_partition_page in
    page_size
    - page_size / slot_size * slot_size
    + 8 * (if remainder == 0 then 0 else num_system_pages_per_partition_page - remainder)

pub ratio_loop : ℕ → ℕ → ℕ → Ratio → Ratio
unfolding waste_of
ratio_loop zero i slot_size b = b
ratio_loop (suc n) i slot_size b =
    let page_size = i * system_page_size in
    let waste = waste_of i slot_size in
    ratio_loop n (i + 1) slot_size (
      if ltb (waste * b.page_size) (b.waste * page_size)
      then record { best_pages = i; waste = waste; page_size = page_size }
      else b)

-- ComputeSystemPagesPerSlotSpanInternal: fourteen rounds, from three pages to sixteen. `none` is a
-- failed check.
pub compute_internal : ℕ → Option ℕ
unfolding ratio_loop
compute_internal slot_size =
    let best =
      (ratio_loop 14 (num_system_pages_per_partition_page - 1) slot_size
        (record { best_pages = 0; waste = 1; page_size = 1 })).best_pages in
    if ltb max_regular_slot_span_size slot_size
    then if not (slot_size % system_page_size == 0)
        || ltb 255 (slot_size / system_page_size % 2 ^ 16)
      then none
      else some (slot_size / system_page_size % 2 ^ 16)
    else if best == 0
        || ltb (num_system_pages_per_partition_page * max_partition_pages_per_regular_slot_span)
            best
    then none
    else some (best % 2 ^ 8)

pub compute_system_pages_per_slot_span : ℕ → Bool → Option ℕ
unfolding compute_prefer_small compute_internal
compute_system_pages_per_slot_span slot_size prefer_smaller_slot_spans =
    let system_page_count = compute_prefer_small slot_size in
    let waste = system_page_count * system_page_size % slot_size in
    if prefer_smaller_slot_spans && leb waste 204
    then some system_page_count
    else compute_internal slot_size

-- InitCanStoreRawSize, on the geometry so far.
pub init_can_store_raw_size : Bool → Geometry → Option Geometry
init_can_store_raw_size use_small_single_slot_spans g =
    let stores = λ (b : Bool). record g { can_store_raw_size = b } in
    if leb g.slot_size max_regular_slot_span_size
    then some (
        stores (
          (use_small_single_slot_spans && ltb large_size_threshold g.slot_size)
          && (get_slots_per_span g == 1 && ltb 1 (get_pages_per_slot_span g))))
    else if not (g.slot_size % system_page_size == 0) || not (get_slots_per_span g == 1)
    then none
    else some (stores true)

-- Init, where `prefer_smaller_slot_spans` is PREFER_SMALLER_SLOT_SPANS of the build.
unfoldable pub init : Bool → Bool → ℕ → Option Geometry
unfolding compute_system_pages_per_slot_span init_can_store_raw_size
init prefer_smaller_slot_spans use_small_single_slot_spans new_slot_size = do
  pages ← compute_system_pages_per_slot_span new_slot_size prefer_smaller_slot_spans
  init_can_store_raw_size use_small_single_slot_spans (record {
    slot_size = new_slot_size;
    num_system_pages_per_slot_span = pages;
    can_store_raw_size = false;
  })
