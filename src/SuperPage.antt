-- ===== src/SuperPage.antt =====
-- How PartitionBucket gets a new slot span (src/partition_alloc/partition_bucket.cc): AllocNewSlotSpan,
-- AllocNewSuperPageSpan, AllocNewSuperPage, InitializeSuperPage and InitializeSlotSpan, under the
-- root's lock, in a build without DCHECKs, a free slot bitmap and shadow metadata. The DCHECKs on
-- the pages, the spans and the sizes are written out all the same; those of FromAddr are not. Addresses
-- are numbers; a partition page is known by its number, the address divided by 2 ^ 14.
pub mod Invariant
pub mod Metadata
pub mod Begin
pub mod Grow
pub mod Place
pub mod Carve
pub mod Find
mod Tests
use partition_alloc.Base.{
  ◌>>=◌, ℕ, zero, suc, ◌+◌, ◌-◌, ◌*◌, ◌/◌, ◌%◌, ◌^◌, Bool, true, false, not, ◌&&◌, ◌||◌, ltb, leb,
  ◌==◌, if◌then◌else◌, Option, none, some, [],
}
use partition_alloc.Pool.{Pool, super_page_size, reserve}
use partition_alloc.SlotSpan.{
  max_slots_per_slot_span, SlotSpan, Geometry, get_slots_per_span, get_bytes_per_span, reset,
}
use partition_alloc.Bucket.{update}

abbrev pub partition_page_size : ℕ
partition_page_size = 2 ^ 14

-- kSuperPageSize / PartitionPageSize()
abbrev pub num_partition_pages_per_super_page : ℕ
num_partition_pages_per_super_page = 2 ^ 7

abbrev pub max_slot_span_metadata_offset : ℕ
max_slot_span_metadata_offset = 2 ^ 6 - 1

abbrev pub offset_tag_normal_buckets : ℕ
offset_tag_normal_buckets = 2 ^ 16 - 2

-- base::bits::AlignUp
unfoldable pub align_up : ℕ → ℕ → ℕ
align_up x alignment = (x + (alignment - 1)) / alignment * alignment

-- get_pages_per_slot_span
abbrev pub get_pages_per_slot_span : Geometry → ℕ
get_pages_per_slot_span g = (g.num_system_pages_per_slot_span + 3) / 4

-- PartitionPageMetadata, less the slot span, which the store of the spans holds.
pub record PageMetadata : Type 0 where
  pub slot_span_metadata_offset : ℕ
  pub is_valid : Bool
  pub has_valid_span_after_this : Bool

-- A page of metadata that the system has just committed is zero.
abbrev pub zeroed : PageMetadata
zeroed = record {
  slot_span_metadata_offset = 0;
  is_valid = false;
  has_valid_span_after_this = false;
}

-- An entry of PartitionSuperPageExtentEntry, less the count of its spans that are not empty. `next` is
-- a super page.
pub record Extent : Type 0 where
  pub number_of_consecutive_super_pages : ℕ
  pub next : Option ℕ

-- The part of PartitionRoot that hands out pages, with the pool that it takes super pages from, the
-- reservation offset table by the number of the super page, the extents by the address of theirs,
-- and the metadata by the number of the partition page.
pub record Pages : Type 0 where
  pub pool : Pool
  pub next_super_page : ℕ
  pub next_partition_page : ℕ
  pub next_partition_page_end : ℕ
  pub total_size_of_super_pages : ℕ
  pub first_extent : Option ℕ
  pub current_extent : Option ℕ
  pub extents : ℕ → Extent
  pub reservation_offsets : ℕ → ℕ
  pub metadata : ℕ → PageMetadata

-- How a call ends: with a value, with a null pointer, in a crash that reports that the memory is used
-- up, or at a failed check.
pub data Outcome {ℓ} (A : Type ℓ) : Type ℓ where
  ok : A → Pages → Outcome A
  null : Pages → Outcome A
  out_of_memory : Outcome A
  crash : Outcome A

-- InitializeSuperPage, before it looks at the extents. The pages of metadata are committed by the
-- system.
pub begin_super_page : ℕ → ℕ → Pages → Pages
begin_super_page super_page requested_address p =
    let next_super_page = super_page + super_page_size in
    record p {
      next_super_page =
          if not (requested_address == 0) && not (requested_address == super_page)
          then 0
          else next_super_page;
      next_partition_page = super_page + partition_page_size;
      next_partition_page_end = next_super_page - partition_page_size;
      total_size_of_super_pages = p.total_size_of_super_pages + super_page_size;
      extents =
          update p.extents super_page
            (record { number_of_consecutive_super_pages = 0; next = none });
      reservation_offsets =
          update p.reservation_offsets (super_page / super_page_size) offset_tag_normal_buckets;
      metadata = λ page.
          if page / num_partition_pages_per_super_page == super_page / super_page_size
          then zeroed
          else p.metadata page;
    }

-- An extent of one super page, whose entry was cleared before.
abbrev pub count_one : ℕ → (ℕ → Extent) → (ℕ → Extent)
count_one super_page extents =
    update extents super_page
      (record (extents super_page) { number_of_consecutive_super_pages = 1 })

-- What follows on the current and the first extent, where a new one is linked behind the current one.
-- `none` is a failed check.
pub link_extent : ℕ → Pages → Option ℕ → Option ℕ → Option Pages
link_extent super_page p none (some first) = none
link_extent super_page p none none = some (record p {
  first_extent = some super_page;
  current_extent = some super_page;
  extents = count_one super_page p.extents;
})
link_extent super_page p (some current) first =
    if (p.extents current).number_of_consecutive_super_pages == 0
    then none
    else some (record p {
      current_extent = some super_page;
      extents =
          count_one super_page
            (update p.extents current (record (p.extents current) { next = some super_page }));
    })

pub add_extent : ℕ → Pages → Option Pages
unfolding link_extent
add_extent super_page p = link_extent super_page p p.current_extent p.first_extent

-- The current extent takes one more super page, whose payload has to lie in it.
pub grow_extent : ℕ → Pages → Option Pages
grow_extent super_page p = elim p.current_extent [
  | none ↦ none
  | some current ↦
      let extent = p.extents current in
      let number = (extent.number_of_consecutive_super_pages + 1) % 2 ^ 16 in
      if extent.number_of_consecutive_super_pages == 0
      then none
      else if ltb current (super_page + partition_page_size)
          && ltb (super_page + partition_page_size) (current + number * super_page_size)
      then some (record p {
        extents =
            update p.extents current (record extent { number_of_consecutive_super_pages = number });
      })
      else none
]

pub initialize_super_page : ℕ → ℕ → Pages → Option Pages
unfolding begin_super_page add_extent grow_extent
initialize_super_page super_page requested_address p =
    let begun = begin_super_page super_page requested_address p in
    if super_page == requested_address
    then grow_extent super_page begun
    else add_extent super_page begun

-- The loop of AllocNewSuperPageSpan, which passes no requested address on.
pub initialize_loop : ℕ → ℕ → Pages → Option Pages
initialize_loop zero super_page p = some p
initialize_loop (suc count) super_page p =
    initialize_super_page super_page 0 p >>= initialize_loop count (super_page + super_page_size)

abbrev pub or_crash : ℕ → Option Pages → Outcome ℕ
or_crash super_page none = crash
or_crash super_page (some q) = ok super_page q

pub initialize_span : ℕ → ℕ → Pages → Outcome ℕ
unfolding initialize_loop
initialize_span super_page super_page_count p =
    or_crash super_page (initialize_loop super_page_count super_page p)

-- What AllocNewSuperPageSpan does with the answer of ReserveMemoryFromPool, of which 0 is a failure.
pub with_reserved : ℕ → Bool → Pages → Pool × ℕ → Outcome ℕ
unfolding initialize_span
with_reserved super_page_count return_null p (pool, super_page) =
    let q = record p { pool = pool } in
    if super_page == 0
    then if return_null then null q else out_of_memory
    else initialize_span super_page super_page_count q

pub alloc_new_super_page_span : ℕ → Bool → Pages → Outcome ℕ
unfolding with_reserved
alloc_new_super_page_span super_page_count return_null p =
    if super_page_count == 0
    then crash
    else if ltb ((2 ^ 64 - 1) / super_page_size) super_page_count
    then crash
    else with_reserved super_page_count return_null p
        (reserve p.pool p.next_super_page (super_page_count * super_page_size))

-- AllocNewSuperPage returns where the payload begins.
abbrev pub payload_of : Outcome ℕ → Outcome ℕ
payload_of (ok super_page q) = ok (super_page + partition_page_size) q
payload_of (null q) = null q
payload_of out_of_memory = out_of_memory
payload_of crash = crash

pub alloc_new_super_page : Bool → Pages → Outcome ℕ
unfolding alloc_new_super_page_span
alloc_new_super_page return_null p = payload_of (alloc_new_super_page_span 1 return_null p)

-- The pages that an alignment leaves out. `none` is the failed check that they are not in use.
pub mark_gap : ℕ → ℕ → (ℕ → PageMetadata) → Option (ℕ → PageMetadata)
mark_gap zero page m = some m
mark_gap (suc n) page m =
    let rest =
      mark_gap n (page + 1)
        (update m page (record (m page) { has_valid_span_after_this = true })) in
    if (m page).is_valid then none else rest

-- The loop of InitializeSlotSpan over the `n` pages of the span from its page `i` on.
pub set_offsets : ℕ → ℕ → ℕ → (ℕ → PageMetadata) → (ℕ → PageMetadata)
set_offsets zero i page m = m
set_offsets (suc n) i page m =
    set_offsets n (i + 1) page (
      update m (page + i)
        (record (m (page + i)) { slot_span_metadata_offset = i; is_valid = true }))

-- The slot span that InitializeSlotSpan places, which is then reset. Its raw size lies in metadata
-- that is zero.
unfoldable pub new_slot_span : Geometry → SlotSpan
unfolding reset
new_slot_span g = reset (record {
  bucket = g;
  freelist = [];
  num_allocated_slots = 0;
  num_unprovisioned_slots = 0;
  marked_full = false;
  freelist_is_sorted = true;
  in_empty_cache = false;
  empty_cache_index = 0;
  raw_size = 0;
})

abbrev pub reservation_size : Geometry → ℕ
reservation_size g = get_pages_per_slot_span g * partition_page_size

-- The end of AllocNewSlotSpan, where the pages of the gap are marked.
pub place_span : Geometry → ℕ → Pages → Option (ℕ → PageMetadata) → Outcome ℕ
unfolding set_offsets
place_span g start p none = crash
place_span g start p (some m) =
    let count = get_pages_per_slot_span g in
    if get_slots_per_span g == 0
      || (ltb max_slots_per_slot_span (get_slots_per_span g)
          || ltb (max_slot_span_metadata_offset + 1) count)
    then crash
    else ok start (record p {
      next_partition_page = start + reservation_size g;
      metadata = set_offsets count 0 (start / partition_page_size) m;
    })

-- AllocNewSlotSpan, from the gap on.
unfoldable pub carve : Geometry → ℕ → Pages → Outcome ℕ
unfolding mark_gap place_span
carve g start p =
    let first = p.next_partition_page / partition_page_size in
    place_span g start p (mark_gap (start / partition_page_size - first) first p.metadata)

-- Where the next span may start.
abbrev pub adjusted_next_partition_page : ℕ → Pages → ℕ
adjusted_next_partition_page slot_span_alignment p =
    align_up p.next_partition_page slot_span_alignment

-- Does the span not fit in what is left of the super page?
unfoldable pub needs_super_page : Geometry → ℕ → Pages → Bool
needs_super_page g slot_span_alignment p =
    ltb p.next_partition_page_end
      (adjusted_next_partition_page slot_span_alignment p + reservation_size g)

-- AllocNewSlotSpan, where AllocNewSuperPage was called.
unfoldable pub carve_new : Geometry → ℕ → Outcome ℕ → Outcome ℕ
unfolding needs_super_page carve
carve_new g slot_span_alignment (ok payload q) =
    if needs_super_page g slot_span_alignment q
    then crash
    else carve g (adjusted_next_partition_page slot_span_alignment q) q
carve_new g slot_span_alignment (null q) = null q
carve_new g slot_span_alignment out_of_memory = out_of_memory
carve_new g slot_span_alignment crash = crash

-- AllocNewSlotSpan returns where the span starts.
unfoldable pub alloc_new_slot_span : Geometry → ℕ → Bool → Pages → Outcome ℕ
unfolding alloc_new_super_page carve_new
alloc_new_slot_span g slot_span_alignment return_null p =
    if not (p.next_partition_page % partition_page_size == 0)
      || (not (p.next_partition_page_end % partition_page_size == 0)
          || ltb num_partition_pages_per_super_page (get_pages_per_slot_span g))
    then crash
    else if needs_super_page g slot_span_alignment p
    then carve_new g slot_span_alignment (alloc_new_super_page return_null p)
    else carve g (adjusted_next_partition_page slot_span_alignment p) p

-- The checks of SlotSpanMetadata::FromAddr on the page of the address and the first page of its span.
pub checked_first : PageMetadata → PageMetadata → ℕ → Option ℕ
checked_first at first page =
    if at.is_valid && (first.is_valid && first.slot_span_metadata_offset == 0)
    then some page
    else none

-- SlotSpanMetadata::FromAddr: the page that the metadata of the span with this address stands in.
-- `none` is a failed check.
unfoldable pub from_addr : (ℕ → PageMetadata) → ℕ → Option ℕ
unfolding checked_first
from_addr m address =
    let page = address / partition_page_size in
    let first = page - (m page).slot_span_metadata_offset in checked_first (m page) (m first) first
