-- ===== src/Pool/Tests.antt =====
-- The pool on concrete bitsets.
use partition_alloc.Base.{
  ◌+◌, ◌*◌, ◌^◌, ◌≡◌, ◌≢◌, refl, false, ◌||◌, ltb, ◌==◌, arith, List, [], ◌∷◌, some,
}
use partition_alloc.Pool.{
  Pool, unset, initialize, find_chunk, finish_find, search_chunk, find_loop, scan,
  try_reserve_chunk, bit_of, free_chunk, super_page_size, largest_run_loop,
}
use partition_alloc.Pool.Find.{IsValid, FirstFit, find_chunk-FirstFit}
use partition_alloc.Pool.Reserve.{
  Attempt, try_reserve_chunk-Attempt, free_chunk-find_chunk, Call, reserves, unreserves, run,
  run-initialize-IsValid,
}

-- Eight super pages; 0, 1 and 3 are in use.
abbrev busy : Pool
busy = record {
  alloc_bitset = λ i. ltb i 2 || (i == 3);
  bit_hint = 2;
  total_bits = 8;
  address_begin = 2 ^ 32;
}

busy-IsValid : IsValid busy
busy-IsValid = record { hint_full = λ i h. ground arith }

find_two : (find_chunk busy (2 * super_page_size)).1 ≡ 2 ^ 32 + 4 * super_page_size
unfolding find_chunk finish_find search_chunk find_loop scan
find_two = refl

find_five : (find_chunk busy (5 * super_page_size)).1 ≡ 0
unfolding find_chunk finish_find search_chunk find_loop scan
find_five = refl

largest_run : largest_run_loop 6 2 busy.alloc_bitset 0 0 ≡ 4
unfolding largest_run_loop
largest_run = refl

find_chunk-FirstFit_example : FirstFit busy 2 (find_chunk busy (2 * super_page_size))
find_chunk-FirstFit_example =
    find_chunk-FirstFit busy (2 * super_page_size) busy-IsValid (omega arith)

try_reserve_chunk-Attempt_example :
    Attempt busy
      (bit_of busy (2 ^ 32 + 2 * super_page_size))
      1
      (try_reserve_chunk busy (2 ^ 32 + 2 * super_page_size) super_page_size)
try_reserve_chunk-Attempt_example =
    try_reserve_chunk-Attempt busy (2 ^ 32 + 2 * super_page_size) super_page_size

found_two : (find_chunk busy (2 * super_page_size)).1 ≢ 0
found_two = rw find_two (omega arith)

free_chunk-find_chunk_example :
    let (q, address) = find_chunk busy (2 * super_page_size) in
    (free_chunk q address (2 * super_page_size)).alloc_bitset ≡ busy.alloc_bitset
free_chunk-find_chunk_example =
    free_chunk-find_chunk busy (2 * super_page_size) busy-IsValid (omega arith) (omega arith)
      found_two

abbrev small : Pool
small = record { alloc_bitset = λ i. false; bit_hint = 0; total_bits = 4; address_begin = 2 ^ 32 }

initialized : initialize unset (2 ^ 32) (4 * super_page_size) ≡ some small
unfolding initialize
initialized = refl

abbrev calls : List Call
calls =
    reserves 0 super_page_size
    ∷ reserves 0 (2 * super_page_size)
    ∷ unreserves (2 ^ 32) super_page_size
    ∷ []

run-initialize-IsValid_example : IsValid (run small calls)
run-initialize-IsValid_example =
    run-initialize-IsValid unset (2 ^ 32) (4 * super_page_size) calls initialized (omega arith)
