-- ===== src/Pool.antt =====
-- AddressPoolManager::Pool of src/partition_alloc/address_pool_manager.cc, in a 64-bit build without
-- DCHECKs: a bitset with one bit for each super page. The bitset is a function; each method holds
-- the pool's lock throughout, so it is one step. An address is a uintptr_t, and 0 is a failure.
pub mod Scan
pub mod Find
pub mod Reserve
pub mod Single
mod Tests
use partition_alloc.Base.{
  ℕ, zero, suc, ◌+◌, ◌-◌, ◌*◌, ◌/◌, ◌%◌, ◌^◌, min, Bool, true, false, not, ◌&&◌, ◌||◌, ltb, leb,
  ◌==◌, if◌then◌else◌, Option, none, some,
}

abbrev pub super_page_size : ℕ
super_page_size = 2 ^ 21

-- kMaxSuperPagesInPool, where kPoolMaxSize is 16 GiB.
abbrev pub max_super_pages_in_pool : ℕ
max_super_pages_in_pool = 2 ^ 13

pub record Pool : Type 0 where
  pub alloc_bitset : ℕ → Bool
  pub bit_hint : ℕ
  pub total_bits : ℕ
  pub address_begin : ℕ

-- The constexpr constructor.
pub unset : Pool
unset = record { alloc_bitset = λ i. false; bit_hint = 0; total_bits = 0; address_begin = 0 }

-- `none` is a failed PA_CHECK.
pub initialize : Pool → ℕ → ℕ → Option Pool
initialize p ptr size =
    if ptr == 0
    then none
    else if not (ptr % super_page_size == 0)
    then none
    else if not (size % super_page_size == 0)
    then none
    else if ltb max_super_pages_in_pool (size / super_page_size)
    then none
    else some (record {
      address_begin = ptr;
      total_bits = size / super_page_size;
      alloc_bitset = λ i. false;
      bit_hint = 0;
    })

pub is_initialized : Pool → Bool
is_initialized p = not (p.address_begin == 0)

pub reset : Pool → Pool
reset p = record p { address_begin = 0 }

pub get_used_super_pages : Pool → ℕ → Bool
get_used_super_pages p = p.alloc_bitset

pub get_base_address : Pool → ℕ
get_base_address p = p.address_begin

-- The loops `for (i = beg; i < beg + n; ++i)` that set and reset bits.
pub set_bits : ℕ → ℕ → (ℕ → Bool) → ℕ → Bool
set_bits zero beg bits = bits
set_bits (suc n) beg bits = set_bits n (beg + 1) (λ i. if i == beg then true else bits i)

pub reset_bits : ℕ → ℕ → (ℕ → Bool) → ℕ → Bool
reset_bits zero beg bits = bits
reset_bits (suc n) beg bits = reset_bits n (beg + 1) (λ i. if i == beg then false else bits i)

-- The variables `beg_bit`, `bit_hint_` and `found` of FindChunk.
pub record Search : Type 0 where
  pub beg : ℕ
  pub hint : ℕ
  pub found : Bool

-- The body of the inner loop of FindChunk.
pub visit : (ℕ → Bool) → ℕ → Search → Search
visit bits curr s =
    if bits curr
    then record {
      beg = curr + 1;
      hint = if s.hint == curr then s.hint + 1 else s.hint;
      found = false;
    }
    else s

-- The inner loop, over the `n` bits from `curr` on.
pub scan : (ℕ → Bool) → ℕ → ℕ → Search → Search
unfolding visit
scan bits zero curr s = s
scan bits (suc n) curr s = scan bits n (curr + 1) (visit bits curr s)

pub data Found : Type 0 where
  chunk : ℕ → ℕ → Found
  no_chunk : ℕ → Found
  out_of_fuel : Found

-- The outer loop. A chunk is found with its first bit and the hint; a failure leaves a hint too.
pub find_loop : ℕ → (ℕ → Bool) → ℕ → ℕ → ℕ → ℕ → ℕ → Found
find_loop zero bits total need beg curr hint = out_of_fuel
find_loop (suc fuel) bits total need beg curr hint =
    let s = scan bits (beg + need - curr) curr (record { beg = beg; hint = hint; found = true }) in
    let rest = find_loop fuel bits total need s.beg (beg + need) s.hint in
    if ltb total (beg + need) then no_chunk hint else if s.found then chunk s.beg s.hint else rest

-- What the end of FindChunk does with the search's outcome.
pub finish_find : Pool → ℕ → Found → Pool × ℕ
finish_find p need (chunk beg hint) = (
  record p {
    alloc_bitset = set_bits need beg p.alloc_bitset;
    bit_hint = if hint == beg then beg + need else hint;
  },
  p.address_begin + beg * super_page_size,
)
finish_find p need (no_chunk hint) = (record p { bit_hint = hint }, 0)
finish_find p need out_of_fuel = (p, 0)

-- The outer loop moves `beg` up in each round, and stops before it passes `total_bits`.
pub search_chunk : Pool → ℕ → Found
search_chunk p need =
    find_loop (suc p.total_bits) p.alloc_bitset p.total_bits need p.bit_hint p.bit_hint p.bit_hint

pub find_chunk : Pool → ℕ → Pool × ℕ
find_chunk p requested_size =
    let need = requested_size / super_page_size in finish_find p need (search_chunk p need)

-- Is any of the `n` bits from `beg` on set?
pub any_set : ℕ → ℕ → (ℕ → Bool) → Bool
any_set zero beg bits = false
any_set (suc n) beg bits = bits beg || any_set n (beg + 1) bits

-- `(address - address_begin_) / kSuperPageSize`, with the wrap of uintptr_t.
pub bit_of : Pool → ℕ → ℕ
bit_of p address = (address + 2 ^ 64 - p.address_begin) % 2 ^ 64 / super_page_size

pub try_reserve_chunk : Pool → ℕ → ℕ → Pool × Bool
try_reserve_chunk p address requested_size =
    let beg = bit_of p address in
    let need = requested_size / super_page_size in
    if ltb p.total_bits (beg + need)
    then (p, false)
    else if any_set need beg p.alloc_bitset
    then (p, false)
    else (record p { alloc_bitset = set_bits need beg p.alloc_bitset }, true)

pub free_chunk : Pool → ℕ → ℕ → Pool
free_chunk p address free_size =
    let beg = bit_of p address in
    record p {
      alloc_bitset = reset_bits (free_size / super_page_size) beg p.alloc_bitset;
      bit_hint = min p.bit_hint beg;
    }

-- AddressPoolManager::Reserve, on the pool of the handle.
pub reserve : Pool → ℕ → ℕ → Pool × ℕ
reserve p requested_address size =
    let (q, is_available) = try_reserve_chunk p requested_address size in
    if requested_address == 0
    then find_chunk p size
    else if is_available
    then (q, requested_address)
    else find_chunk q size

-- AddressPoolManager::UnreserveAndDecommit, less the decommit, which the operating system does.
pub unreserve : Pool → ℕ → ℕ → Pool
unreserve p address size = free_chunk p address size

-- The loop of GetStats over the `n` bits from `i` on.
pub largest_run_loop : ℕ → ℕ → (ℕ → Bool) → ℕ → ℕ → ℕ
largest_run_loop zero i pages current_run largest_run =
    if ltb largest_run current_run then current_run else largest_run
largest_run_loop (suc n) i pages current_run largest_run =
    largest_run_loop n (i + 1) pages (if pages i then 0 else current_run + 1)
      (if pages i && ltb largest_run current_run then current_run else largest_run)

pub count_set : ℕ → (ℕ → Bool) → ℕ
count_set zero pages = 0
count_set (suc n) pages = count_set n pages + (if pages n then 1 else 0)

pub record PoolStats : Type 0 where
  pub usage : ℕ
  pub largest_available_reservation : ℕ

pub get_stats : Pool → PoolStats
get_stats p = record {
  usage = count_set max_super_pages_in_pool p.alloc_bitset;
  largest_available_reservation =
      largest_run_loop (p.total_bits - p.bit_hint) p.bit_hint p.alloc_bitset 0 0;
}
