-- ===== src/Metadata.antt =====
-- InSlotMetadata of src/partition_alloc/in_slot_metadata.h: the 64-bit atomic word of a slot under
-- BackupRefPtr, in a build with ENABLE_DANGLING_RAW_PTR_CHECKS (which has no cookie, so that
-- CheckCookieIfSupported and ClearCookieIfSupported do nothing) and DCHECKs.
-- `count & Mask(lo, hi)` is written by quotient and remainder; `fetch_add` and `fetch_sub` wrap at
-- 2 ^ 64. A failed PA_CHECK, PA_DCHECK or PA_IMMEDIATE_CRASH is `crash`. The callbacks to the
-- embedder, which get the address of the metadata, are appended to `events`.
pub mod Refine
pub mod Steps
pub mod Protocol
mod Tests
use partition_alloc.Base.{
  ℕ, ◌+◌, ◌-◌, ◌/◌, ◌%◌, ◌^◌, Bool, true, false, not, ◌&&◌, ◌||◌, List, [], ◌∷◌, ◌++◌, ◌==◌,
  if◌then◌else◌,
}

pub data Event : Type 0 where
  dangling_detected dangling_released unretained_dangling : Event

pub record InSlotMetadata : Type 0 where
  pub count : ℕ
  pub events : List Event

pub data Outcome {ℓ} (A : Type ℓ) : Type ℓ where
  returns : A → Outcome A
  crash : Outcome A

-- PA_CHECK and PA_DCHECK.
abbrev pub check {ℓ} : {A : Type ℓ} → Bool → Outcome A → Outcome A
check true k = k
check false k = crash

abbrev pub word_mod : ℕ
word_mod = 2 ^ 64

-- kMemoryHeldByAllocatorBit, kDanglingRawPtrDetectedBit, kNeedsMac11MallocSizeHackBit,
-- kRequestQuarantineBit.
abbrev pub memory_held_by_allocator_bit : ℕ
memory_held_by_allocator_bit = 2 ^ 0

abbrev pub dangling_raw_ptr_detected_bit : ℕ
dangling_raw_ptr_detected_bit = 2 ^ 32

abbrev pub needs_mac11_malloc_size_hack_bit : ℕ
needs_mac11_malloc_size_hack_bit = 2 ^ 33

abbrev pub request_quarantine_bit : ℕ
request_quarantine_bit = 2 ^ 34

-- kPtrInc and kUnprotectedPtrInc.
abbrev pub ptr_inc : ℕ
ptr_inc = 2 ^ 1

abbrev pub unprotected_ptr_inc : ℕ
unprotected_ptr_inc = 2 ^ 35

-- The fields of the word: `(count & mask) >> lo`.
abbrev pub is_allocated : ℕ → ℕ
is_allocated c = c % 2

abbrev pub ptr_count : ℕ → ℕ
ptr_count c = c / 2 % 2 ^ 31

abbrev pub dangling_bit : ℕ → ℕ
dangling_bit c = c / 2 ^ 32 % 2

abbrev pub mac11_bit : ℕ → ℕ
mac11_bit c = c / 2 ^ 33 % 2

abbrev pub quarantine_bit : ℕ → ℕ
quarantine_bit c = c / 2 ^ 34 % 2

abbrev pub unprotected_ptr_count : ℕ → ℕ
unprotected_ptr_count c = c / 2 ^ 35 % 2 ^ 29

-- kMaxPtrCount and kMaxUnprotectedPtrCount, as values of their fields: `Mask(1, 30)`, `Mask(35, 62)`.
abbrev pub max_ptr_count : ℕ
max_ptr_count = 2 ^ 30 - 1

abbrev pub max_unprotected_ptr_count : ℕ
max_unprotected_ptr_count = 2 ^ 28 - 1

-- The word operations: `fetch_add`, `fetch_sub`, `fetch_or` and `fetch_and(~bit)` of one bit.
abbrev pub add_word : ℕ → ℕ → ℕ
add_word c n = (c + n) % word_mod

abbrev pub sub_word : ℕ → ℕ → ℕ
sub_word c n = (c + word_mod - n) % word_mod

abbrev pub set_bit : ℕ → ℕ → ℕ
set_bit c bit = if c / bit % 2 == 1 then c else c + bit

abbrev pub clear_bit : ℕ → ℕ → ℕ
clear_bit c bit = if c / bit % 2 == 1 then c - bit else c

pub emit : Event → InSlotMetadata → InSlotMetadata
emit e m = record m { events = m.events ++ (e ∷ []) }

-- The constructor.
pub construct : Bool → InSlotMetadata
construct needs_mac11 = record {
  count =
      memory_held_by_allocator_bit + (if needs_mac11 then needs_mac11_malloc_size_hack_bit else 0);
  events = [];
}

pub acquire : InSlotMetadata → Outcome InSlotMetadata
acquire m =
    check (not (ptr_count m.count == max_ptr_count))
      (returns (record m { count = add_word m.count ptr_inc }))

pub acquire_from_unprotected_ptr : InSlotMetadata → Outcome InSlotMetadata
acquire_from_unprotected_ptr m =
    check (not (unprotected_ptr_count m.count == max_unprotected_ptr_count))
      (returns (record m { count = add_word m.count unprotected_ptr_inc }))

-- The memory is held by the allocator, a raw_ptr, or a raw_ptr without dangling detection.
abbrev pub is_held : ℕ → Bool
is_held c =
    not (is_allocated c == 0) || (not (ptr_count c == 0) || not (unprotected_ptr_count c == 0))

-- The Boolean is the source's result: reclaim the allocation.
pub release_common : InSlotMetadata → ℕ → InSlotMetadata × Bool
release_common m c = if is_held c then (m, false) else (m, true)

-- The report of a released dangling pointer, decided on the old value of the word.
pub report_released : ℕ → List Event → List Event
report_released old events =
    if dangling_bit old == 1 then events ++ (dangling_released ∷ []) else events

pub release : InSlotMetadata → Outcome (InSlotMetadata × Bool)
unfolding report_released
release m = check (not (ptr_count m.count == 0)) (
    let c = sub_word m.count ptr_inc in
    let events = report_released m.count m.events in
    returns (release_common (record { count = c; events = events }) c))

pub release_from_unprotected_ptr : InSlotMetadata → Outcome (InSlotMetadata × Bool)
release_from_unprotected_ptr m = check (not (unprotected_ptr_count m.count == 0)) (
    let c = sub_word m.count unprotected_ptr_inc in
    returns (release_common (record m { count = c }) c))

-- `count` is the value that the caller loaded; the word may have changed since.
pub check_dangling_pointers_on_free : ℕ → InSlotMetadata → InSlotMetadata
unfolding emit
check_dangling_pointers_on_free count m =
    if ptr_count count == 0
    then m
    else if dangling_bit m.count == 1
    then m
    else emit dangling_detected (record m { count = set_bit m.count dangling_raw_ptr_detected_bit })

pub pre_release_from_allocator : InSlotMetadata → InSlotMetadata
unfolding check_dangling_pointers_on_free
pre_release_from_allocator m = check_dangling_pointers_on_free m.count m

-- The first atomic access of ReleaseFromAllocator, and what its old value decides.
pub clear_allocated : InSlotMetadata → InSlotMetadata
clear_allocated m = record m { count = clear_bit m.count memory_held_by_allocator_bit }

pub release_from_allocator : InSlotMetadata → Outcome (InSlotMetadata × Bool)
unfolding clear_allocated check_dangling_pointers_on_free
release_from_allocator m = check (is_allocated m.count == 1) (
    returns (
      if (ptr_count m.count == 0) && (unprotected_ptr_count m.count == 0)
      then (clear_allocated m, true)
      else (check_dangling_pointers_on_free m.count (clear_allocated m), false)))

pub is_alive_with_no_known_refs : InSlotMetadata → Bool
is_alive_with_no_known_refs m =
    (is_allocated m.count == 1)
    && ((ptr_count m.count == 0) && (unprotected_ptr_count m.count == 0))

pub is_alive : InSlotMetadata → Bool
is_alive m = is_allocated m.count == 1

pub report_if_dangling : InSlotMetadata → InSlotMetadata
unfolding is_alive emit
report_if_dangling m = if is_alive m then m else emit unretained_dangling m

pub set_quarantine_request : InSlotMetadata → Outcome InSlotMetadata
set_quarantine_request m =
    check (is_allocated m.count == 1)
      (returns (record m { count = set_bit m.count request_quarantine_bit }))

pub pop_quarantine_request : InSlotMetadata → Outcome (InSlotMetadata × Bool)
pop_quarantine_request m = check (is_allocated m.count == 1) (
    returns
      (record m { count = clear_bit m.count request_quarantine_bit }, quarantine_bit m.count == 1))

pub initialize_for_gwp_asan : InSlotMetadata → InSlotMetadata
initialize_for_gwp_asan m = record m { count = ptr_inc + memory_held_by_allocator_bit }

pub can_be_reused_by_gwp_asan : InSlotMetadata → Bool
can_be_reused_by_gwp_asan m = (ptr_count m.count == 1) && (unprotected_ptr_count m.count == 0)

pub needs_mac11_malloc_size_hack : InSlotMetadata → Bool
needs_mac11_malloc_size_hack m = mac11_bit m.count == 1
