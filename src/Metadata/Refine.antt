-- ===== src/Metadata/Refine.antt =====
-- The word of in_slot_metadata.h against the counters that it packs.
use partition_alloc.Base.{
  ℕ, ◌+◌, ◌-◌, ◌^◌, ◌≤◌, ◌<◌, ◌≡◌, Bool, false, ◌&&◌, ◌||◌, ◌==◌, List, [], ◌∷◌, ◌++◌, inl, inr,
  Bool-cases, ap, ◌∙◌, if◌then◌else◌, arith,
}
use partition_alloc.Metadata.{
  Event, dangling_detected, dangling_released, pre_release_from_allocator, InSlotMetadata, Outcome,
  returns, crash, is_allocated, ptr_count, dangling_bit, mac11_bit, quarantine_bit,
  unprotected_ptr_count, max_ptr_count, max_unprotected_ptr_count, word_mod, add_word, sub_word,
  ptr_inc, unprotected_ptr_inc, set_bit, clear_bit, acquire, acquire_from_unprotected_ptr, release,
  release_from_unprotected_ptr, release_from_allocator, release_common,
}

-- What the word stands for.
pub record Refs : Type 0 where
  pub allocated : ℕ
  pub ptrs : ℕ
  pub dangling : ℕ
  pub mac11 : ℕ
  pub quarantine : ℕ
  pub unprotected : ℕ

abbrev pub decode : ℕ → Refs
decode c = record {
  allocated = is_allocated c;
  ptrs = ptr_count c;
  dangling = dangling_bit c;
  mac11 = mac11_bit c;
  quarantine = quarantine_bit c;
  unprotected = unprotected_ptr_count c;
}

-- A word of 64 bits whose two counters are within their limits.
pub record IsValid (c : ℕ) : Type 0 where
  pub word : c < word_mod
  pub ptrs_le : ptr_count c ≤ max_ptr_count
  pub unprotected_le : unprotected_ptr_count c ≤ max_unprotected_ptr_count

pub add_ptr-decode :
    (c : ℕ)
    → IsValid c
    → ptr_count c < max_ptr_count
    → decode (add_word c ptr_inc) ≡ record (decode c) { ptrs = ptr_count c + 1 }
add_ptr-decode c v h = ground arith

pub add_unprotected-decode :
    (c : ℕ)
    → IsValid c
    → unprotected_ptr_count c < max_unprotected_ptr_count
    → decode (add_word c unprotected_ptr_inc)
      ≡ record (decode c) { unprotected = unprotected_ptr_count c + 1 }
add_unprotected-decode c v h = ground arith

pub sub_ptr-decode :
    (c : ℕ)
    → IsValid c
    → 0 < ptr_count c
    → decode (sub_word c ptr_inc) ≡ record (decode c) { ptrs = ptr_count c - 1 }
sub_ptr-decode c v h = ground arith

pub sub_unprotected-decode :
    (c : ℕ)
    → IsValid c
    → 0 < unprotected_ptr_count c
    → decode (sub_word c unprotected_ptr_inc)
      ≡ record (decode c) { unprotected = unprotected_ptr_count c - 1 }
sub_unprotected-decode c v h = ground arith

pub set_dangling-decode :
    (c : ℕ) → IsValid c → decode (set_bit c (2 ^ 32)) ≡ record (decode c) { dangling = 1 }
set_dangling-decode c v = ground arith

pub clear_allocated-decode :
    (c : ℕ) → decode (clear_bit c (2 ^ 0)) ≡ record (decode c) { allocated = 0 }
clear_allocated-decode c = ground arith

-- What a holder of the counters sees of the metadata.
pub record View : Type 0 where
  pub refs : Refs
  pub events : List Event

abbrev pub view : InSlotMetadata → View
view m = record { refs = decode m.count; events = m.events }

abbrev pub view_result : Outcome (InSlotMetadata × Bool) → Outcome (View × Bool)
view_result (returns (m, b)) = returns (view m, b)
view_result crash = crash

-- The calls that change the counters.
pub data Action : Type 0 where
  acquires acquires_unprotected releases releases_unprotected frees pre_frees : Action

abbrev no_reclaim : Outcome InSlotMetadata → Outcome (InSlotMetadata × Bool)
no_reclaim (returns m) = returns (m, false)
no_reclaim crash = crash

-- A call by the code; the Boolean says whether the caller is to reclaim the slot.
pub call : Action → InSlotMetadata → Outcome (InSlotMetadata × Bool)
unfolding acquire acquire_from_unprotected_ptr release release_from_unprotected_ptr
    release_from_allocator pre_release_from_allocator
call acquires m = no_reclaim (acquire m)
call acquires_unprotected m = no_reclaim (acquire_from_unprotected_ptr m)
call releases m = release m
call releases_unprotected m = release_from_unprotected_ptr m
call frees m = release_from_allocator m
call pre_frees m = returns (pre_release_from_allocator m, false)

-- Nothing holds the slot.
abbrev pub is_unheld : Refs → Bool
is_unheld r = (r.allocated == 0) && ((r.ptrs == 0) && (r.unprotected == 0))

-- The first report of a dangling pointer.
abbrev detect : View → View
detect v =
    if (v.refs.ptrs == 0) || (v.refs.dangling == 1)
    then v
    else let r = v.refs in
      let e = v.events in
      record { refs = record r { dangling = 1 }; events = e ++ (dangling_detected ∷ []) }

abbrev pub settle : View → Outcome (View × Bool)
settle v = returns (v, is_unheld v.refs)

-- What the calls do, on the counters.
pub spec : Action → View → Outcome (View × Bool)
spec acquires v =
    let r = v.refs in
    if r.ptrs == max_ptr_count
    then crash
    else returns (record v { refs = record r { ptrs = r.ptrs + 1 } }, false)
spec acquires_unprotected v =
    let r = v.refs in
    if r.unprotected == max_unprotected_ptr_count
    then crash
    else returns (record v { refs = record r { unprotected = r.unprotected + 1 } }, false)
spec releases v =
    let r = v.refs in
    if r.ptrs == 0
    then crash
    else settle (record {
      refs = record r { ptrs = r.ptrs - 1 };
      events = if r.dangling == 1 then v.events ++ (dangling_released ∷ []) else v.events;
    })
spec releases_unprotected v =
    let r = v.refs in
    if r.unprotected == 0
    then crash
    else settle (record v { refs = record r { unprotected = r.unprotected - 1 } })
spec frees v =
    let r = v.refs in
    if r.allocated == 0
    then crash
    else settle (detect (record v { refs = record r { allocated = 0 } }))
spec pre_frees v = returns (detect v, false)

pub release_common-settle :
    (m : InSlotMetadata) → view_result (returns (release_common m m.count)) ≡ settle (view m)
unfolding release_common
release_common-settle m = ground arith

module _ (m : InSlotMetadata) (v : IsValid m.count) where
  acquires_refines : view_result (call acquires m) ≡ spec acquires (view m)
  unfolding call spec
  acquires_refines = ground (arith, add_ptr-decode m.count v)

  acquires_unprotected_refines :
      view_result (call acquires_unprotected m) ≡ spec acquires_unprotected (view m)
  unfolding call spec
  acquires_unprotected_refines = ground (arith, add_unprotected-decode m.count v)

  releases_refines : view_result (call releases m) ≡ spec releases (view m)
  unfolding call spec
  releases_refines = elim (Bool-cases (ptr_count m.count == 0)) [
    | inl z ↦ rw z
    | inr p ↦ rw p (release_common-settle _ ∙ ap settle (ground (arith, sub_ptr-decode m.count v)))
  ]

  releases_unprotected_refines :
      view_result (call releases_unprotected m) ≡ spec releases_unprotected (view m)
  unfolding call spec
  releases_unprotected_refines = elim (Bool-cases (unprotected_ptr_count m.count == 0)) [
    | inl z ↦ rw z
    | inr p ↦
        rw p
          (release_common-settle _ ∙ ap settle (ground (arith, sub_unprotected-decode m.count v)))
  ]

  frees_refines : view_result (call frees m) ≡ spec frees (view m)
  unfolding call spec
  frees_refines = ground (arith, clear_allocated-decode m.count)

  pre_frees_refines : view_result (call pre_frees m) ≡ spec pre_frees (view m)
  unfolding call spec
  pre_frees_refines = ground (arith, set_dangling-decode m.count v)

-- For Acquire, Release, their variants for unprotected pointers, ReleaseFromAllocator and
-- PreReleaseFromAllocator on a valid word, the code's result, seen through the counters, is the one
-- that `spec` gives for them: the same crashes, the same new counters and flags, the same reports, and
-- the same decision to reclaim.
pub call_refines :
    (a : Action) (m : InSlotMetadata) → IsValid m.count → view_result (call a m) ≡ spec a (view m)
call_refines acquires m v = acquires_refines m v
call_refines acquires_unprotected m v = acquires_unprotected_refines m v
call_refines releases m v = releases_refines m v
call_refines releases_unprotected m v = releases_unprotected_refines m v
call_refines frees m v = frees_refines m v
call_refines pre_frees m v = pre_frees_refines m v

pub acquire-IsValid :
    (m : InSlotMetadata) {m' : InSlotMetadata}
    → IsValid m.count
    → acquire m ≡ returns m'
    → IsValid m'.count
unfolding acquire
acquire-IsValid m v e = ground (arith, add_ptr-decode m.count v)

pub acquire_from_unprotected_ptr-IsValid :
    (m : InSlotMetadata) {m' : InSlotMetadata}
    → IsValid m.count
    → acquire_from_unprotected_ptr m ≡ returns m'
    → IsValid m'.count
unfolding acquire_from_unprotected_ptr
acquire_from_unprotected_ptr-IsValid m v e = ground (arith, add_unprotected-decode m.count v)
