-- ===== src/Bucket/Tests.antt =====
-- A bucket on concrete lists.
use partition_alloc.Base.{
  ℕ, ◌≡◌, ◌≤◌, ◌<◌, ◌⊎◌, refl, Bool, true, false, Option, none, some, [], ◌∷◌, ◌==◌, if◌then◌else◌,
  arith,
}
use partition_alloc.SlotSpan.{SlotSpan, is_active, is_empty, is_decommitted}
use partition_alloc.Bucket.{
  max_empty_slot_span_ring_size, Spans, Bucket, Root, set_new_active_slot_span,
  maintain_active_list, place, is_usable, shrink_empty_slot_spans_ring, register_empty,
  free_slow_path,
}
use partition_alloc.Bucket.Sweep.{
  SetsActive, Maintains, set_new_active_slot_span-SetsActive, maintain_active_list-Maintains,
}
use partition_alloc.Bucket.Entries.{Inv}
use partition_alloc.Bucket.Ring.{shrink_lem, register_empty-Inv}
use partition_alloc.Bucket.Dirty.{
  IsCovered, Shrinks, ring_dirty, shrink_empty_slot_spans_ring-Shrinks,
}
use partition_alloc.Bucket.Free.{Ends, free_slow_path-Ends}
use partition_alloc.Bucket.Retire.{LeavesHead, free_slow_path-LeavesHead}

abbrev full_span : SlotSpan
full_span = record {
  bucket = record {
    slot_size = 2048;
    num_system_pages_per_slot_span = 1;
    can_store_raw_size = false;
  };
  freelist = [];
  num_allocated_slots = 2;
  num_unprovisioned_slots = 0;
  marked_full = false;
  freelist_is_sorted = false;
  in_empty_cache = false;
  empty_cache_index = 0;
  raw_size = 0;
}

-- Span 0 is full, 1 is empty, 2 has a slot to provision, 3 a free one, and the others are
-- decommitted.
abbrev store : Spans
store x =
    if x == 0
    then full_span
    else if x == 1
    then record full_span { freelist = 0 ∷ 1 ∷ []; num_allocated_slots = 0 }
    else if x == 2
    then record full_span { num_allocated_slots = 1; num_unprovisioned_slots = 1 }
    else if x == 3
    then record full_span { freelist = 1 ∷ []; num_allocated_slots = 1 }
    else record full_span { num_allocated_slots = 0 }

abbrev lists : Bucket
lists = record {
  active = 0 ∷ 1 ∷ 2 ∷ 4 ∷ 3 ∷ 5 ∷ [];
  empty = [];
  decommitted = 6 ∷ [];
  num_full_slot_spans = 0;
}

abbrev bucket_of : Option (Bucket × Spans × Bool) → Option (Bucket × Bool)
bucket_of none = none
bucket_of (some (b, s, found)) = some (b, found)

sweeps :
    bucket_of (set_new_active_slot_span lists store)
    ≡ some (
      record {
        active = 3 ∷ 2 ∷ 5 ∷ [];
        empty = 1 ∷ [];
        decommitted = 4 ∷ 6 ∷ [];
        num_full_slot_spans = 1;
      },
      true,
    )
unfolding set_new_active_slot_span place is_usable is_active is_empty is_decommitted
sweeps = refl

set_new_active_slot_span-SetsActive_example :
    SetsActive lists store (set_new_active_slot_span lists store)
set_new_active_slot_span-SetsActive_example =
    set_new_active_slot_span-SetsActive lists store (omega arith)

maintain_active_list-Maintains_example : Maintains lists store (maintain_active_list lists store)
maintain_active_list-Maintains_example = maintain_active_list-Maintains lists store (omega arith)

-- The ring holds no span yet.
abbrev root : Root
root = record {
  spans = store;
  ring = λ i. none;
  ring_index = 3;
  ring_size = 16;
  empty_slot_spans_dirty_bytes = 0;
  total_size_of_committed_pages = 65536;
  max_empty_slot_spans_dirty_bytes_shift = 2;
  nonempty_slot_spans = 4;
}

out_of_cache : (x : ℕ) → (store x).in_empty_cache ≡ false
out_of_cache x = ground arith

root-Inv : Inv root
root-Inv = record {
  ring = record {
    cached = λ i x h. cc;
    indexed = λ i x h. cc;
    held = λ x h. cc (h, out_of_cache x);
  };
  index_in = omega arith;
  size_in = omega arith;
}

register_empty-Inv_example : Inv (register_empty 1 root)
register_empty-Inv_example = register_empty-Inv 1 root root-Inv

shrink_lem_example :
    let r' = shrink_empty_slot_spans_ring 0 (register_empty 1 root) in
    Inv r'
    × ((r'.empty_slot_spans_dirty_bytes ≤ 0)
        ⊎ ((j : ℕ) → j < max_empty_slot_span_ring_size → r'.ring j ≡ none))
shrink_lem_example = shrink_lem 0 (register_empty 1 root) (register_empty-Inv 1 root root-Inv)

-- The empty span 1 is the one entry of the ring, and its page is counted.
counted-IsCovered : IsCovered (register_empty 1 root)
unfolding register_empty is_empty
counted-IsCovered = record { ring = unfold ring_dirty in omega arith; small = omega arith }

shrink_empty_slot_spans_ring-Shrinks_example :
    Shrinks 0 (register_empty 1 root) (shrink_empty_slot_spans_ring 0 (register_empty 1 root))
shrink_empty_slot_spans_ring-Shrinks_example =
    shrink_empty_slot_spans_ring-Shrinks 0 (register_empty 1 root)
      (register_empty-Inv 1 root root-Inv) counted-IsCovered

free_slow_path-Ends_example : Ends (free_slow_path 1 lists root)
free_slow_path-Ends_example =
    free_slow_path-Ends 1 lists root (record { marked_counted = λ h. cc; room = omega arith })
      root-Inv

-- The empty span 1 is the head here.
abbrev headed : Bucket
headed = record lists { active = 1 ∷ 0 ∷ 2 ∷ 3 ∷ [] }

free_slow_path-LeavesHead_example : LeavesHead 1 (free_slow_path 1 headed root)
free_slow_path-LeavesHead_example =
    free_slow_path-LeavesHead 1 headed root
      (record { marked_counted = λ h. cc; room = omega arith }) root-Inv refl
