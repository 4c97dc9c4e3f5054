-- ===== src/SuperPage/Tests.antt =====
-- Super pages and slot spans on concrete inputs.
use partition_alloc.Base.{◌*◌, ◌^◌, refl, true, false, none, arith}
use partition_alloc.SlotSpan.{Geometry}
use partition_alloc.Pool.{Pool, super_page_size}
use partition_alloc.Pool.Single.{anywhere}
use partition_alloc.SuperPage.{Pages, zeroed, alloc_new_slot_span}
use partition_alloc.SuperPage.Invariant.{Ready, Fits, untouched, unlinked}
use partition_alloc.SuperPage.Carve.{Carved, alloc_new_slot_span-Carved}
use partition_alloc.SuperPage.Find.{FindsSpans, alloc_new_slot_span-FindsSpans}

-- Four super pages from number 8 on.
abbrev four : Pool
four = record {
  alloc_bitset = λ i. false;
  bit_hint = 0;
  total_bits = 4;
  address_begin = 8 * super_page_size;
}

abbrev fresh : Pages
fresh = record {
  pool = four;
  next_super_page = 0;
  next_partition_page = 0;
  next_partition_page_end = 0;
  total_size_of_super_pages = 0;
  first_extent = none;
  current_extent = none;
  extents = λ x. record { number_of_consecutive_super_pages = 0; next = none };
  reservation_offsets = λ i. 0;
  metadata = λ y. zeroed;
}

-- Sixteen pages of 4 KiB for slots of 4096 bytes.
abbrev sixteen_pages : Geometry
sixteen_pages = record {
  slot_size = 4096;
  num_system_pages_per_slot_span = 16;
  can_store_raw_size = false;
}

fresh-Ready : Ready 8 fresh
fresh-Ready = record {
  stands = record {
    valid = record { hint_full = λ i u. absurd (omega arith) };
    space = omega arith;
    base_pos = omega arith;
    base_eq = refl;
  };
  asks = anywhere refl;
  current = untouched refl refl;
  extents_linked = unlinked refl refl;
  unowned = λ b page h at. refl;
}

sixteen_pages-Fits : Fits sixteen_pages (2 ^ 16)
sixteen_pages-Fits = record {
  some_slots = omega arith;
  few_slots = omega arith;
  some_pages = omega arith;
  few_pages = omega arith;
  unit = 4;
  unit_pos = omega arith;
  unit_eq = refl;
  times = 32;
  times_eq = refl;
  room = omega arith;
}

alloc_new_slot_span-Carved_example :
    Carved 8 sixteen_pages
      (2 ^ 16)
      true
      fresh
      (alloc_new_slot_span sixteen_pages (2 ^ 16) true fresh)
alloc_new_slot_span-Carved_example =
    alloc_new_slot_span-Carved 8 sixteen_pages (2 ^ 16) true fresh sixteen_pages-Fits fresh-Ready

alloc_new_slot_span-FindsSpans_example :
    FindsSpans sixteen_pages fresh (alloc_new_slot_span sixteen_pages (2 ^ 16) true fresh)
alloc_new_slot_span-FindsSpans_example =
    alloc_new_slot_span-FindsSpans 8 sixteen_pages (2 ^ 16) true fresh sixteen_pages-Fits
      fresh-Ready
