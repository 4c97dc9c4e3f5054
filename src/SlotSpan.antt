-- ===== src/SlotSpan.antt =====
-- SlotSpanMetadata of src/partition_alloc/partition_page.h and partition_page.cc, and the slots that
-- ProvisionMoreSlotsAndAllocOne of partition_bucket.cc adds to one, in a build with lazy commit,
-- system pages of 4 KiB and no DCHECKs, in which a PA_DCHECK does nothing. A slot is its number in the span; the freelist is the list that its
-- entries chain, the head first. A failed PA_CHECK and a null dereference are `none`.
pub mod States
pub mod Provision
pub mod Number
pub mod Sorting
mod Tests
use partition_alloc.Base.{
  ℕ, zero, suc, ◌+◌, ◌-◌, ◌*◌, ◌/◌, ◌%◌, Bool, true, false, not, ◌&&◌, ◌||◌, ltb, leb, ◌==◌,
  if◌then◌else◌, Option, none, some, List, [], ◌∷◌, ◌++◌,
}

abbrev pub system_page_size : ℕ
system_page_size = 4096

-- kMaxSlotsPerSlotSpan: a partition page of 16 KiB over the smallest slot of 16 bytes.
abbrev pub max_slots_per_slot_span : ℕ
max_slots_per_slot_span = 1024

-- base::bits::AlignUp to a system page.
abbrev pub align_up_page : ℕ → ℕ
align_up_page n = (n + (system_page_size - 1)) / system_page_size * system_page_size

-- The fields of PartitionBucket that do not change, which a span reads through `bucket`.
pub record Geometry : Type 0 where
  pub slot_size : ℕ
  pub num_system_pages_per_slot_span : ℕ
  pub can_store_raw_size : Bool

abbrev pub get_bytes_per_span : Geometry → ℕ
get_bytes_per_span g = g.num_system_pages_per_slot_span * system_page_size

-- GetSlotNumber(get_bytes_per_span()), as a division; SlotSpan.Number has the multiplication.
abbrev pub get_slots_per_span : Geometry → ℕ
get_slots_per_span g = get_bytes_per_span g / g.slot_size

abbrev pub is_direct_mapped : Geometry → Bool
is_direct_mapped g = g.num_system_pages_per_slot_span == 0

pub record SlotSpan : Type 0 where
  pub bucket : Geometry
  pub freelist : List ℕ
  pub num_allocated_slots : ℕ
  pub num_unprovisioned_slots : ℕ
  pub marked_full : Bool
  pub freelist_is_sorted : Bool
  pub in_empty_cache : Bool
  pub empty_cache_index : ℕ
  pub raw_size : ℕ

abbrev pub is_nil {ℓ} : {A : Type ℓ} → List A → Bool
is_nil [] = true
is_nil (x ∷ xs) = false

pub get_provisioned_size : SlotSpan → ℕ
get_provisioned_size s =
    (get_slots_per_span s.bucket - s.num_unprovisioned_slots) * s.bucket.slot_size

pub get_freelist_length : SlotSpan → ℕ
get_freelist_length s =
    get_slots_per_span s.bucket - s.num_unprovisioned_slots - s.num_allocated_slots

unfoldable pub is_active : SlotSpan → Bool
is_active s =
    ltb 0 s.num_allocated_slots && (not (is_nil s.freelist) || not (s.num_unprovisioned_slots == 0))

unfoldable pub is_full : SlotSpan → Bool
is_full s = s.num_allocated_slots == get_slots_per_span s.bucket

unfoldable pub is_empty : SlotSpan → Bool
is_empty s = (s.num_allocated_slots == 0) && not (is_nil s.freelist)

unfoldable pub is_decommitted : SlotSpan → Bool
is_decommitted s = (s.num_allocated_slots == 0) && is_nil s.freelist

pub set_freelist_head : List ℕ → SlotSpan → SlotSpan
set_freelist_head xs s = record s { freelist = xs; freelist_is_sorted = false }

unfoldable pub pop_for_alloc : SlotSpan → Option (ℕ × SlotSpan)
pop_for_alloc s = elim s.freelist [
  | [] ↦ none
  | x ∷ xs ↦ some (x, record s { freelist = xs; num_allocated_slots = s.num_allocated_slots + 1 })
]

abbrev head_is : ℕ → List ℕ → Bool
head_is x [] = false
head_is x (y ∷ ys) = x == y

-- `Free`, up to the slow path.
pub free_slot : ℕ → SlotSpan → Option SlotSpan
unfolding set_freelist_head
free_slot x s =
    if head_is x s.freelist
    then none
    else if s.num_allocated_slots == 0
    then none
    else some (
        set_freelist_head (x ∷ s.freelist)
          (record s { num_allocated_slots = s.num_allocated_slots - 1 }))

-- Does `Free` or `AppendFreeList` go on to FreeSlowPath?
abbrev pub needs_slow_path : SlotSpan → Bool
needs_slow_path s = s.marked_full || (s.num_allocated_slots == 0)

-- `AppendFreeList`, up to the slow path, with the freed slots from head to tail.
pub append_free_list : List ℕ → ℕ → SlotSpan → SlotSpan
unfolding set_freelist_head
append_free_list xs number_of_freed s =
    set_freelist_head (xs ++ s.freelist)
      (record s { num_allocated_slots = s.num_allocated_slots - number_of_freed })

-- `Reset`, less the count of the super page's spans.
unfoldable pub reset : SlotSpan → SlotSpan
reset s = record s { num_unprovisioned_slots = get_slots_per_span s.bucket }

abbrev pub dirty_size : SlotSpan → ℕ
dirty_size s =
    align_up_page ((get_slots_per_span s.bucket - s.num_unprovisioned_slots) * s.bucket.slot_size)

-- What `Decommit` does to the span.
unfoldable pub decommit : SlotSpan → SlotSpan
unfolding set_freelist_head
decommit s = record (set_freelist_head [] s) { num_unprovisioned_slots = 0 }

-- The loop of ProvisionMoreSlotsAndAllocOne that chains the slots which end before `commit_end`.
-- Addresses are offsets in the span, whose start is aligned to a page.
pub provision_loop : ℕ → ℕ → ℕ → ℕ → ℕ → List ℕ
provision_loop zero size next_slot_end commit_end number = []
provision_loop (suc fuel) size next_slot_end commit_end number =
    let rest = provision_loop fuel size (next_slot_end + size) commit_end (number + 1) in
    if leb next_slot_end commit_end then number ∷ rest else []

abbrev pub commit_end : SlotSpan → ℕ
commit_end s = align_up_page (s.bucket.slot_size * s.num_allocated_slots + s.bucket.slot_size)

abbrev pub slots_to_provision : SlotSpan → ℕ
slots_to_provision s =
    (commit_end s - s.bucket.slot_size * s.num_allocated_slots) / s.bucket.slot_size

-- ProvisionMoreSlotsAndAllocOne, where the pages could be committed: the slot that it returns, and
-- the span. A page holds at most as many slots as it has bytes, and a slot spans as many pages as
-- it needs, so the commit limit bounds the rounds of the loop.
unfoldable pub provision_more_slots_and_alloc_one : SlotSpan → ℕ × SlotSpan
unfolding provision_loop
provision_more_slots_and_alloc_one s =
    let size = s.bucket.slot_size in
    let n = s.num_allocated_slots in
    (
      n,
      record s {
        num_allocated_slots = n + 1;
        num_unprovisioned_slots = s.num_unprovisioned_slots - slots_to_provision s;
        freelist =
            provision_loop (suc (commit_end s)) size (size * n + size + size) (commit_end s)
              (n + 1);
        freelist_is_sorted = true;
      },
    )
