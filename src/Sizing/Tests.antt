-- ===== src/Sizing/Tests.antt =====
-- The slot spans of concrete buckets.
use partition_alloc.Base.{◌≡◌, refl, true, false, some, Returns, arith}
use partition_alloc.Lookup.Table.{size_at}
use partition_alloc.Sizing.{init}
use partition_alloc.Sizing.Bounds.{Sized, init-Sized}

-- The eleventh bucket.
init-Sized_example : Returns (Sized (size_at 10)) (init false true (size_at 10))
init-Sized_example = init-Sized false true 10 (omega arith)

pages_of_320 :
    init false true 320
    ≡ some (record {
      slot_size = 320;
      num_system_pages_per_slot_span = 15;
      can_store_raw_size = false;
    })
unfolding init
pages_of_320 = refl
