-- ===== src/Metadata/Protocol.antt =====
-- The threads that share one slot of in_slot_metadata.h, as a sequence of accesses to its word.
-- Each access is one atomic operation: the thread that frees makes two, and the others may come in
-- between.
use native.Mathlib.Nat.{zero-add, add-zero}
use partition_alloc.Base.{
  ℕ, ◌+◌, ◌<◌, ◌≡◌, sym, subst, inl, inr, Bool-cases, ap, ◌∙◌, Bool, true, false, ◌&&◌, Option,
  none, some, ◌==◌, arith, List,
}
use partition_alloc.Metadata.{
  Event, dangling_detected, dangling_released, InSlotMetadata, returns, is_allocated, ptr_count,
  dangling_bit, unprotected_ptr_count, max_ptr_count, max_unprotected_ptr_count, acquire,
  acquire_from_unprotected_ptr, release, release_from_unprotected_ptr, clear_allocated,
  check_dangling_pointers_on_free, release_common, report_released, add_word, sub_word, ptr_inc,
  unprotected_ptr_inc,
}
use partition_alloc.Metadata.Refine.{
  IsValid, Refs, decode, is_unheld, add_ptr-decode, add_unprotected-decode, sub_ptr-decode,
  sub_unprotected-decode, set_dangling-decode, clear_allocated-decode,
}
use partition_alloc.Metadata.Steps.{
  Slot, one_if, released, Step, Reach, fresh, count_detected, count_detected-append, Inv, fresh-Inv,
  Inv-of, add_ptr-IsValid, add_unprotected-IsValid, sub_ptr-IsValid, sub_unprotected-IsValid,
  clear_allocated-IsValid, set_dangling-IsValid, returns-injective, acquires, acquires_unprotected,
  releases, releases_unprotected, pre_frees, frees_unreferenced, frees_referenced, checks, here,
  next,
}

-- What a call that returned has done.
acquire-returns :
    (m : InSlotMetadata) {m' : InSlotMetadata}
    → IsValid m.count
    → acquire m ≡ returns m'
    → (ptr_count m.count < max_ptr_count) × (m' ≡ record m { count = add_word m.count ptr_inc })
unfolding acquire
acquire-returns m v e = elim (Bool-cases (ptr_count m.count == max_ptr_count)) [
  | inl full ↦ cc (rw full at e)
  | inr room ↦ (ground (arith, v.ptrs_le), sym (returns-injective (rw room at e)))
]

acquire_from_unprotected_ptr-returns :
    (m : InSlotMetadata) {m' : InSlotMetadata}
    → IsValid m.count
    → acquire_from_unprotected_ptr m ≡ returns m'
    → (unprotected_ptr_count m.count < max_unprotected_ptr_count)
      × (m' ≡ record m { count = add_word m.count unprotected_ptr_inc })
unfolding acquire_from_unprotected_ptr
acquire_from_unprotected_ptr-returns m v e =
    elim (Bool-cases (unprotected_ptr_count m.count == max_unprotected_ptr_count)) [
      | inl full ↦ cc (rw full at e)
      | inr room ↦ (ground (arith, v.unprotected_le), sym (returns-injective (rw room at e)))
    ]

-- An acquisition keeps a held slot held.
ptrs-unheld : (r : Refs) → one_if (is_unheld (record r { ptrs = r.ptrs + 1 })) ≡ 0
ptrs-unheld r = ground arith

unprotected-unheld :
    (r : Refs) → one_if (is_unheld (record r { unprotected = r.unprotected + 1 })) ≡ 0
unprotected-unheld r = ground arith

once_held : {s : Slot} → Inv s → is_unheld (decode s.meta.count) ≡ false → s.reclaimed ≡ 0
once_held v h = v.once ∙ ap one_if h

acquires-Inv :
    {s : Slot} (m : InSlotMetadata)
    → Inv s
    → is_unheld (decode s.meta.count) ≡ false
    → acquire s.meta ≡ returns m
    → Inv (record s { meta = m })
acquires-Inv {s} m v h e =
    let (room, eq) = acquire-returns s.meta v.valid e in
    subst (λ m. Inv (record s { meta = m })) (sym eq)
      (Inv-of _ _ (add_ptr-IsValid s.meta.count v.valid room)
        (add_ptr-decode s.meta.count v.valid room)
        (once_held v h ∙ sym (ptrs-unheld (decode s.meta.count))) v.reported)

acquires_unprotected-Inv :
    {s : Slot} (m : InSlotMetadata)
    → Inv s
    → is_unheld (decode s.meta.count) ≡ false
    → acquire_from_unprotected_ptr s.meta ≡ returns m
    → Inv (record s { meta = m })
acquires_unprotected-Inv {s} m v h e =
    let (room, eq) = acquire_from_unprotected_ptr-returns s.meta v.valid e in
    subst (λ m. Inv (record s { meta = m })) (sym eq)
      (Inv-of _ _ (add_unprotected-IsValid s.meta.count v.valid room)
        (add_unprotected-decode s.meta.count v.valid room)
        (once_held v h ∙ sym (unprotected-unheld (decode s.meta.count))) v.reported)

release_common-eq :
    (m : InSlotMetadata) → release_common m m.count ≡ (m, is_unheld (decode m.count))
unfolding release_common
release_common-eq m = ground arith

release-returns :
    (m : InSlotMetadata) {r : InSlotMetadata × Bool}
    → release m ≡ returns r
    → let m1 = released m in (0 < ptr_count m.count) × (r ≡ (m1, is_unheld (decode m1.count)))
unfolding release
release-returns m e = elim (Bool-cases (ptr_count m.count == 0)) [
  | inl none_left ↦ cc (rw none_left at e)
  | inr left ↦
      (ground arith, sym (returns-injective (rw left at e)) ∙ release_common-eq (released m))
]

release_from_unprotected_ptr-returns :
    (m : InSlotMetadata) {r : InSlotMetadata × Bool}
    → release_from_unprotected_ptr m ≡ returns r
    → let m1 = record m { count = sub_word m.count unprotected_ptr_inc } in
      (0 < unprotected_ptr_count m.count) × (r ≡ (m1, is_unheld (decode m1.count)))
unfolding release_from_unprotected_ptr
release_from_unprotected_ptr-returns m e = elim (Bool-cases (unprotected_ptr_count m.count == 0)) [
  | inl none_left ↦ cc (rw none_left at e)
  | inr left ↦ (
    ground arith,
    sym (returns-injective (rw left at e))
        ∙ release_common-eq (record m { count = sub_word m.count unprotected_ptr_inc }),
  )
]

-- What is still referenced has not been reclaimed.
ptrs-held : (r : Refs) → 0 < r.ptrs → one_if (is_unheld r) ≡ 0
ptrs-held r h = ground arith

unprotected-held : (r : Refs) → 0 < r.unprotected → one_if (is_unheld r) ≡ 0
unprotected-held r h = ground arith

allocated-held : (r : Refs) → r.allocated ≡ 1 → one_if (is_unheld r) ≡ 0
allocated-held r h = ground arith

count_detected-released :
    (old : ℕ) (es : List Event) → count_detected (report_released old es) ≡ count_detected es
unfolding report_released
count_detected-released old es = ground (arith, count_detected-append es dangling_released)

releases-Inv :
    {s : Slot} (m : InSlotMetadata) (b : Bool)
    → Inv s
    → release s.meta ≡ returns (m, b)
    → Inv (record s { meta = m; reclaimed = s.reclaimed + one_if b })
releases-Inv {s} m b v e =
    let c = s.meta.count in
    let (left, eq) = release-returns s.meta e in
    let zero = v.once ∙ ptrs-held (decode c) left in
    let d = sub_ptr-decode c v.valid left in
    subst
      (λ (r : InSlotMetadata × Bool).
        Inv (record s { meta = r.0; reclaimed = s.reclaimed + one_if r.1 }))
      (sym eq)
      (Inv-of _ _ (sub_ptr-IsValid c v.valid left) d
        (rw zero (zero-add _ ∙ ap (λ (r : Refs). one_if (is_unheld r)) d))
        (count_detected-released c s.meta.events ∙ v.reported))

releases_unprotected-Inv :
    {s : Slot} (m : InSlotMetadata) (b : Bool)
    → Inv s
    → release_from_unprotected_ptr s.meta ≡ returns (m, b)
    → Inv (record s { meta = m; reclaimed = s.reclaimed + one_if b })
releases_unprotected-Inv {s} m b v e =
    let c = s.meta.count in
    let (left, eq) = release_from_unprotected_ptr-returns s.meta e in
    let zero = v.once ∙ unprotected-held (decode c) left in
    let d = sub_unprotected-decode c v.valid left in
    subst
      (λ (r : InSlotMetadata × Bool).
        Inv (record s { meta = r.0; reclaimed = s.reclaimed + one_if r.1 }))
      (sym eq)
      (Inv-of _ _ (sub_unprotected-IsValid c v.valid left) d
        (rw zero (zero-add _ ∙ ap (λ (r : Refs). one_if (is_unheld r)) d)) v.reported)

-- The allocator's hold is the last one exactly if the counters are zero.
cleared-unheld :
    (r : Refs) → is_unheld (record r { allocated = 0 }) ≡ (r.ptrs == 0) && (r.unprotected == 0)
cleared-unheld r = ground arith

frees-Inv :
    (s : Slot) (p : Option ℕ) (b : Bool)
    → Inv s
    → is_allocated s.meta.count ≡ 1
    → (ptr_count s.meta.count == 0) && (unprotected_ptr_count s.meta.count == 0) ≡ b
    → Inv
        (record { meta = clear_allocated s.meta; pending = p; reclaimed = s.reclaimed + one_if b })
unfolding clear_allocated
frees-Inv s p b v a u =
    let c = s.meta.count in
    let zero = v.once ∙ allocated-held (decode c) a in
    Inv-of _ _ (clear_allocated-IsValid c v.valid) (clear_allocated-decode c)
      (rw zero (zero-add _ ∙ ap one_if (sym (cleared-unheld (decode c) ∙ u)))) v.reported

check-Inv :
    (s : Slot) (old : ℕ)
    → Inv s
    → Inv (record s { meta = check_dangling_pointers_on_free old s.meta; pending = none })
unfolding check_dangling_pointers_on_free
check-Inv s old v =
    let c = s.meta.count in
    elim (Bool-cases (ptr_count old == 0)) [
      | inl none_left ↦
          rw (none_left, check_dangling_pointers_on_free)
            (record { valid = v.valid; once = v.once; reported = v.reported })
      | inr left ↦ elim (Bool-cases (dangling_bit c == 1)) [
        | inl again ↦
            rw (left, again, check_dangling_pointers_on_free)
              (record { valid = v.valid; once = v.once; reported = v.reported })
        | inr first ↦
            rw (left, first, check_dangling_pointers_on_free)
              (Inv-of _ _ (rw first at (set_dangling-IsValid c v.valid))
                (rw first at (set_dangling-decode c v.valid)) v.once
                (ground (arith, count_detected-append s.meta.events dangling_detected, v.reported)))
      ]
    ]

Step-Inv : {s t : Slot} → Step s t → Inv s → Inv t
Step-Inv (acquires m h e) v = acquires-Inv m v h e
Step-Inv (acquires_unprotected m h e) v = acquires_unprotected-Inv m v h e
Step-Inv (releases m b e) v = releases-Inv m b v e
Step-Inv (releases_unprotected m b e) v = releases_unprotected-Inv m b v e
Step-Inv (pre_frees a p) v = record { valid = v.valid; once = v.once; reported = v.reported }
Step-Inv {s} (frees_unreferenced a p u) v = frees-Inv s s.pending true v a u
Step-Inv {s} (frees_referenced a p u) v =
    subst
      (λ (n : ℕ).
        Inv (record { meta = clear_allocated s.meta; pending = some s.meta.count; reclaimed = n }))
      (add-zero s.reclaimed) (frees-Inv s (some s.meta.count) false v a u)
Step-Inv {s} (checks old p) v = check-Inv s old v

Reach-Inv : {s t : Slot} → Inv s → Reach s t → Inv t
Reach-Inv v here = v
Reach-Inv v (next r st) = Step-Inv st (Reach-Inv v r)

-- However the accesses of the threads to a fresh slot are interleaved, the calls told to reclaim it
-- number one if neither the allocator nor a pointer of either kind holds it, and none before; and
-- the dangling pointer has been reported once if the dangling bit is set, and never if not.
pub reclaimed_once :
    (mac11 : Bool) {s : Slot}
    → Reach (fresh mac11) s
    → (s.reclaimed ≡ one_if (is_unheld (decode s.meta.count)))
      × (count_detected s.meta.events ≡ dangling_bit s.meta.count)
reclaimed_once mac11 r = let v = Reach-Inv (fresh-Inv mac11) r in (v.once, v.reported)
