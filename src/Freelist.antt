-- ===== src/Freelist.antt =====
-- EncodedNextFreelistEntry of src/partition_alloc/encoded_next_freelist.h, on a little-endian 64-bit
-- machine with HAS_FREELIST_SHADOW_ENTRY and DCHECKs, without memory tagging and the free slot
-- bitmap. The memory is a function from the address of a slot to the two words at its start; the
-- null pointer is 0. A call of FreelistCorruptionDetected, which does not return, is `crash`.
pub mod Chain
pub mod Corrupt
mod Tests
use partition_alloc.Base.{
  ℕ, zero, suc, ◌+◌, ◌-◌, ◌*◌, ◌/◌, ◌%◌, ◌^◌, Bool, true, false, not, ◌&&◌, ◌||◌, ◌==◌, leb,
  if◌then◌else◌, List, [], ◌∷◌,
}

pub record Entry : Type 0 where
  pub encoded_next : ℕ
  pub shadow : ℕ

abbrev pub Memory : Type 0
Memory = ℕ → Entry

pub data Result {ℓ} (A : Type ℓ) : Type ℓ where
  value : A → Result A
  crash : Result A

-- ReverseBytes: the last byte comes first.
pub transform : ℕ → ℕ
transform a =
    a / 2 ^ 56
    + a / 2 ^ 48 % 2 ^ 8 * 2 ^ 8
    + a / 2 ^ 40 % 2 ^ 8 * 2 ^ 16
    + a / 2 ^ 32 % 2 ^ 8 * 2 ^ 24
    + a / 2 ^ 24 % 2 ^ 8 * 2 ^ 32
    + a / 2 ^ 16 % 2 ^ 8 * 2 ^ 40
    + a / 2 ^ 8 % 2 ^ 8 * 2 ^ 48
    + a % 2 ^ 8 * 2 ^ 56

-- The bits of a word, negated.
abbrev pub inverted : ℕ → ℕ
inverted a = 2 ^ 64 - 1 - a

abbrev pub write : Memory → ℕ → Entry → Memory
write m here e a = if a == here then e else m a

abbrev pub make_entry : ℕ → Entry
unfolding transform
make_entry next = record { encoded_next = transform next; shadow = inverted (transform next) }

pub emplace_and_init_null : ℕ → Memory → Memory
unfolding make_entry
emplace_and_init_null here m = write m here (make_entry 0)

pub emplace_and_init_for_thread_cache : ℕ → ℕ → Memory → Memory
unfolding make_entry
emplace_and_init_for_thread_cache here next m = write m here (make_entry next)

-- What `address & kSuperPageBaseMask` and `address & kSuperPageOffsetMask` tell.
abbrev pub super_page : ℕ → ℕ
super_page a = a / 2 ^ 21

abbrev pub super_page_offset : ℕ → ℕ
super_page_offset a = a % 2 ^ 21

abbrev pub partition_page_size : ℕ
partition_page_size = 2 ^ 14

pub set_next : ℕ → ℕ → Memory → Result Memory
unfolding make_entry
set_next here entry m =
    if not (entry == 0) && not (super_page here == super_page entry)
    then crash
    else value (write m here (make_entry entry))

pub clear_for_allocation : ℕ → Memory → Memory × ℕ
clear_for_allocation here m = (write m here (record { encoded_next = 0; shadow = 0 }), here)

pub is_encoded_next_ptr_zero : ℕ → Memory → Bool
is_encoded_next_ptr_zero here m = (m here).encoded_next == 0

pub is_well_formed : Bool → ℕ → ℕ → Memory → Bool
is_well_formed for_thread_cache here next m =
    let shadow_ptr_ok = inverted (m here).encoded_next == (m here).shadow in
    let not_in_metadata = leb partition_page_size (super_page_offset next) in
    let same_super_page = super_page here == super_page next in
    if for_thread_cache
    then shadow_ptr_ok && not_in_metadata
    else shadow_ptr_ok && same_super_page && not_in_metadata

pub get_next_internal : Bool → Bool → ℕ → Memory → Result ℕ
unfolding is_encoded_next_ptr_zero transform is_well_formed
get_next_internal crash_on_corruption for_thread_cache here m =
    if is_encoded_next_ptr_zero here m
    then value 0
    else if is_well_formed for_thread_cache here (transform (m here).encoded_next) m
    then value (transform (m here).encoded_next)
    else if crash_on_corruption
    then crash
    else value 0

pub get_next : ℕ → Memory → Result ℕ
unfolding get_next_internal
get_next here m = get_next_internal true false here m

pub get_next_for_thread_cache : Bool → ℕ → Memory → Result ℕ
unfolding get_next_internal
get_next_for_thread_cache crash_on_corruption here m =
    get_next_internal crash_on_corruption true here m

-- How CheckFreeList ends: with the entries that it visited, with a crash, or, on a cycle, not at all.
pub data Check : Type 0 where
  visits : List ℕ → Check
  corrupted : Check
  runs_on : Check

abbrev pub visit_first : ℕ → Check → Check
visit_first here (visits xs) = visits (here ∷ xs)
visit_first here corrupted = corrupted
visit_first here runs_on = runs_on

pub check_free_list : ℕ → ℕ → Memory → Check
unfolding get_next
check_free_list zero here m = runs_on
check_free_list (suc fuel) here m = if here == 0 then visits [] else elim (get_next here m) [
  | value next ↦ visit_first here (check_free_list fuel next m)
  | crash ↦ corrupted
]
