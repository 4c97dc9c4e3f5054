-- ===== src/SlotSpan/Tests.antt =====
-- A slot span on concrete inputs.
use partition_alloc.Base.{◌+◌, ◌/◌, ◌≡◌, refl, true, false, some, [], ◌∷◌, arith}
use partition_alloc.SlotSpan.{
  Geometry, SlotSpan, is_active, is_full, is_empty, is_decommitted, get_freelist_length,
  pop_for_alloc, free_slot, provision_more_slots_and_alloc_one,
}
use partition_alloc.SlotSpan.States.{
  IsValid, committed, one_if, one_state, get_freelist_length_lem, frees, call, call-IsValid,
  pop-free,
}
use partition_alloc.SlotSpan.Sorting.{SortsFreelist, sort_freelist, sort_freelist-SortsFreelist}
use partition_alloc.SlotSpan.Number.{get_slot_number, get_slot_number-div}
use partition_alloc.SlotSpan.Provision.{Provisioned, provision-Provisioned}

-- Four pages of slots of 1280 bytes: twelve slots.
abbrev geometry : Geometry
geometry = record {
  slot_size = 1280;
  num_system_pages_per_slot_span = 4;
  can_store_raw_size = false;
}

-- Slots 0 and 2 are allocated, 1 and 3 are free, and the others have not been provisioned.
abbrev used : SlotSpan
used = record {
  bucket = geometry;
  freelist = 1 ∷ 3 ∷ [];
  num_allocated_slots = 2;
  num_unprovisioned_slots = 8;
  marked_full = false;
  freelist_is_sorted = true;
  in_empty_cache = false;
  empty_cache_index = 0;
  raw_size = 0;
}

abbrev unused : SlotSpan
unused = record used { freelist = []; num_allocated_slots = 3; num_unprovisioned_slots = 9 }

used-IsValid : IsValid used
used-IsValid = committed (omega arith) (omega arith) (omega arith)

-- From slot 3 at offset 3840 to the end of the second page.
provision_three : provision_more_slots_and_alloc_one unused ≡ (
  3,
  record unused { freelist = 4 ∷ 5 ∷ []; num_allocated_slots = 4; num_unprovisioned_slots = 6 },
)
unfolding provision_more_slots_and_alloc_one
provision_three = refl

one_state_example :
    one_if (is_active used)
      + one_if (is_full used)
      + one_if (is_empty used)
      + one_if (is_decommitted used)
    ≡ 1
one_state_example = one_state used used-IsValid

get_freelist_length_example : get_freelist_length used ≡ 2
get_freelist_length_example =
    get_freelist_length_lem used used-IsValid (unfold is_decommitted in refl)

call-IsValid_example :
    IsValid (record used {
      freelist = 2 ∷ 1 ∷ 3 ∷ [];
      num_allocated_slots = 1;
      freelist_is_sorted = false;
    })
unfolding call free_slot
call-IsValid_example = call-IsValid (frees 2) used used-IsValid refl

pop-free_example :
    pop_for_alloc (record used {
      freelist = 2 ∷ 1 ∷ 3 ∷ [];
      num_allocated_slots = 1;
      freelist_is_sorted = false;
    })
    ≡ some (2, record used { freelist_is_sorted = false })
unfolding free_slot
pop-free_example = pop-free 2 used refl

provision-Provisioned_example : Provisioned unused
provision-Provisioned_example =
    provision-Provisioned unused (omega arith) (omega arith) (omega arith)

-- The slots 2, 1 and 3 of a span of which only the first is in use.
abbrev freed : SlotSpan
freed = record used { freelist = 2 ∷ 1 ∷ 3 ∷ []; num_allocated_slots = 1 }

sort_freelist-SortsFreelist_example : SortsFreelist freed (sort_freelist freed)
sort_freelist-SortsFreelist_example =
    sort_freelist-SortsFreelist freed (omega arith)
      (omega arith, refl, (omega arith, refl, (omega arith, refl, tt)))

-- The fourth slot of 1280 bytes.
get_slot_number-div_example : get_slot_number 1280 5000 ≡ 5000 / 1280
get_slot_number-div_example =
    get_slot_number-div 1280 5000 (omega arith) (omega arith) (omega arith)
