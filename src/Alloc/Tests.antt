-- ===== src/Alloc/Tests.antt =====
-- An allocation from a concrete bucket.
use partition_alloc.Base.{◌*◌, ◌==◌, true, false, if◌then◌else◌, none, [], ◌∷◌}
use partition_alloc.SlotSpan.{SlotSpan, Geometry}
use partition_alloc.SlotSpan.States.{decommitted}
use partition_alloc.Bucket.{Spans}
use partition_alloc.Pool.{super_page_size}
use partition_alloc.SuperPage.{zeroed}
use partition_alloc.Alloc.{Flags, State}

abbrev two_slots : Geometry
two_slots = record {
  slot_size = 2048;
  num_system_pages_per_slot_span = 1;
  can_store_raw_size = false;
}

abbrev asleep : SlotSpan
asleep = record {
  bucket = two_slots;
  freelist = [];
  num_allocated_slots = 0;
  num_unprovisioned_slots = 0;
  marked_full = false;
  freelist_is_sorted = true;
  in_empty_cache = false;
  empty_cache_index = 0;
  raw_size = 0;
}

-- Span 1 is full, span 3 is empty, and the others are decommitted.
abbrev store : Spans
store x =
    if x == 1
    then record asleep { num_allocated_slots = 2 }
    else if x == 3
    then record asleep { freelist = 0 ∷ 1 ∷ [] }
    else asleep

-- Four super pages from number 8 on, none of which is in use.
abbrev state : State
state = record {
  bucket = record {
    active = 1 ∷ [];
    empty = 2 ∷ 3 ∷ [];
    decommitted = 4 ∷ [];
    num_full_slot_spans = 0;
  };
  root = record {
    spans = store;
    ring = λ i. none;
    ring_index = 0;
    ring_size = 16;
    empty_slot_spans_dirty_bytes = 4096;
    total_size_of_committed_pages = 8192;
    max_empty_slot_spans_dirty_bytes_shift = 3;
    nonempty_slot_spans = 1;
  };
  pages = record {
    pool = record {
      alloc_bitset = λ i. false;
      bit_hint = 0;
      total_bits = 4;
      address_begin = 8 * super_page_size;
    };
    next_super_page = 0;
    next_partition_page = 0;
    next_partition_page_end = 0;
    total_size_of_super_pages = 0;
    first_extent = none;
    current_extent = none;
    extents = λ x. record { number_of_consecutive_super_pages = 0; next = none };
    reservation_offsets = λ i. 0;
    metadata = λ y. zeroed;
  };
}

abbrev plain : Flags
plain = record { fast_path_or_return_null = false; return_null = false }
