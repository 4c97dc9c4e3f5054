-- ===== src/Metadata/Tests.antt =====
-- The calls of in_slot_metadata.h on concrete words.
use Prim.Native.Nat.{bit_and}
use partition_alloc.Base.{◌+◌, ◌*◌, ◌^◌, ◌≡◌, refl, true, false, none, some, arith, []}
use partition_alloc.Metadata.{
  InSlotMetadata, returns, crash, construct, acquire, release, release_from_allocator, ptr_count,
  unprotected_ptr_count, dangling_bit, clear_allocated, check_dangling_pointers_on_free,
  pop_quarantine_request, release_common,
}
use partition_alloc.Metadata.Refine.{
  frees, call, spec, view, view_result, call_refines, decode, is_unheld,
}
use partition_alloc.Metadata.Steps.{Slot, Step, Reach, here, next, fresh, one_if, count_detected}
use partition_alloc.Metadata.Protocol.{reclaimed_once}

-- A slot that is freed while one raw_ptr points to it.
abbrev dangling : InSlotMetadata
dangling = record { count = 2 + 2 ^ 33; events = [] }

-- The masks 1..31 and 35..63 select what the quotients do.
ptr_mask : bit_and 0xdead_beef_1234_5678 0xffff_fffe ≡ ptr_count 0xdead_beef_1234_5678 * 2
ptr_mask = refl

unprotected_mask :
    bit_and 0xdead_beef_1234_5678 0xffff_fff8_0000_0000
    ≡ unprotected_ptr_count 0xdead_beef_1234_5678 * 2 ^ 35
unprotected_mask = refl

double_free : release_from_allocator dangling ≡ crash
unfolding release_from_allocator
double_free = refl

quarantine_request :
    pop_quarantine_request (record { count = 2 ^ 34 + 1; events = [] })
    ≡ returns (record { count = 1; events = [] }, true)
unfolding pop_quarantine_request
quarantine_request = refl

call_refines_example :
    view_result (call frees (record { count = 3; events = [] }))
    ≡ spec frees (view (record { count = 3; events = [] }))
call_refines_example = call_refines frees (record { count = 3; events = [] }) (omega arith)

-- A pointer is taken, the memory freed under it, and the pointer released before the freeing thread
-- gets to its second access.
abbrev referenced : Slot
referenced = record { meta = record { count = 3; events = [] }; pending = none; reclaimed = 0 }

abbrev freed : Slot
freed = record { meta = record { count = 2; events = [] }; pending = some 3; reclaimed = 0 }

abbrev gone : Slot
gone = record { meta = record { count = 0; events = [] }; pending = some 3; reclaimed = 1 }

overtaken : Reach (fresh false) gone
unfolding fresh construct acquire release clear_allocated release_common
overtaken =
    next {t = freed}
      (next {t = referenced} (next here (Step.acquires _ refl refl))
        (Step.frees_referenced refl refl refl))
      (Step.releases _ true refl)

-- The second access then writes to the word of a slot that has been reclaimed.
late_write : (check_dangling_pointers_on_free 3 gone.meta).count ≡ 2 ^ 32
unfolding check_dangling_pointers_on_free
late_write = refl

reclaimed_once_example :
    (gone.reclaimed ≡ one_if (is_unheld (decode gone.meta.count)))
    × (count_detected gone.meta.events ≡ dangling_bit gone.meta.count)
reclaimed_once_example = reclaimed_once false overtaken
