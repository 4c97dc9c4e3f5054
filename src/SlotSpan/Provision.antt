-- ===== src/SlotSpan/Provision.antt =====
-- How many slots ProvisionMoreSlotsAndAllocOne adds.
use native.Mathlib.Nat.{le-div_iff_mul-le, div-mul-le_self, lt-div-mul-add}
use partition_alloc.Base.{
  ℕ, zero, suc, ◌+◌, ◌-◌, ◌*◌, ◌≤◌, ◌<◌, ◌≡◌, refl, ap, List, [], ◌∷◌, length, arith,
}
use partition_alloc.SlotSpan.{
  SlotSpan, get_slots_per_span, get_bytes_per_span, provision_loop,
  provision_more_slots_and_alloc_one, slots_to_provision, commit_end,
}
use partition_alloc.SlotSpan.States.{IsValid, committed}

-- The `k` slots from `number` on.
abbrev pub slots_from : ℕ → ℕ → List ℕ
slots_from number zero = []
slots_from number (suc k) = number ∷ slots_from (number + 1) k

length-slots_from : (number k : ℕ) → length (slots_from number k) ≡ k
length-slots_from number zero = refl
length-slots_from number (suc k) = omega (arith, length-slots_from (number + 1) k)

-- The loop adds each whole slot from `next` to the limit, in order.
provision_loop_lem :
    (fuel size limit next number k : ℕ)
    → 0 < size
    → next + k * size ≤ limit
    → limit < next + k * size + size
    → k < fuel
    → provision_loop fuel size (next + size) limit number ≡ slots_from number k
unfolding provision_loop
provision_loop_lem zero size limit next number k pos lo hi f = absurd (omega arith)
provision_loop_lem (suc fuel) size limit next number zero pos lo hi f = ground arith
provision_loop_lem (suc fuel) size limit next number (suc k) pos lo hi f =
    ground (arith, provision_loop_lem fuel size limit (next + size) (number + 1) k pos)

le-mul_pos : (k size : ℕ) → 0 < size → k ≤ k * size
le-mul_pos k zero pos = elim pos [ ]
le-mul_pos k (suc size) pos = grind arith

mul_pred : (k size : ℕ) → 1 ≤ k → (k - 1) * size + size ≡ k * size
mul_pred zero size pos = elim pos [ ]
mul_pred (suc k) size pos = grind arith

-- The pages committed for one more slot end inside the span.
commit_end-le :
    (s : SlotSpan)
    → s.bucket.slot_size * s.num_allocated_slots + s.bucket.slot_size ≤ get_bytes_per_span s.bucket
    → commit_end s ≤ get_bytes_per_span s.bucket
commit_end-le s h = omega arith

module _ (s : SlotSpan) (pos : 0 < s.bucket.slot_size)
    (books : s.num_allocated_slots + s.num_unprovisioned_slots ≡ get_slots_per_span s.bucket)
    (left : 0 < s.num_unprovisioned_slots) where
  -- The next slot lies inside the span.
  next_fits :
      s.bucket.slot_size * s.num_allocated_slots + s.bucket.slot_size ≤ get_bytes_per_span s.bucket
  next_fits = omega (
    arith,
    (le-div_iff_mul-le {k = s.bucket.slot_size} {x = s.num_allocated_slots + 1}
          {y = get_bytes_per_span s.bucket} pos).0
        (omega arith),
  )

  -- At least the slot that is returned is provisioned.
  pub slots_to_provision-pos : 1 ≤ slots_to_provision s
  slots_to_provision-pos = (le-div_iff_mul-le {k = s.bucket.slot_size} {x = 1} pos).1 (omega arith)

  -- And no more than the span has left.
  pub slots_to_provision-le : slots_to_provision s ≤ s.num_unprovisioned_slots
  slots_to_provision-le =
      let size = s.bucket.slot_size in
      let k = slots_to_provision s in
      omega (
        arith,
        (le-div_iff_mul-le {k = size} {x = k + s.num_allocated_slots}
              {y = get_bytes_per_span s.bucket} pos).1
            (omega (
              arith,
              div-mul-le_self (commit_end s - size * s.num_allocated_slots) size,
              commit_end-le s next_fits,
            )),
      )

  provisioned :
      (provision_more_slots_and_alloc_one s).1.freelist
      ≡ slots_from (s.num_allocated_slots + 1) (slots_to_provision s - 1)
  unfolding provision_more_slots_and_alloc_one
  provisioned =
      let size = s.bucket.slot_size in
      let n = s.num_allocated_slots in
      let k = slots_to_provision s in
      provision_loop_lem (suc (commit_end s)) size (commit_end s) (size * n + size) (n + 1) (k - 1)
        pos
        (omega (
          arith,
          mul_pred k size slots_to_provision-pos,
          div-mul-le_self (commit_end s - size * n) size,
        ))
        (omega (
          arith,
          mul_pred k size slots_to_provision-pos,
          lt-div-mul-add {a = commit_end s - size * n} pos,
        ))
        (omega (arith, le-mul_pos k size pos, div-mul-le_self (commit_end s - size * n) size))

  length-provisioned :
      length (provision_more_slots_and_alloc_one s).1.freelist + 1 ≡ slots_to_provision s
  length-provisioned = omega (
    arith,
    slots_to_provision-pos,
    ap length provisioned,
    length-slots_from (s.num_allocated_slots + 1) (slots_to_provision s - 1),
  )

-- What ProvisionMoreSlotsAndAllocOne leaves behind.
pub record Provisioned (s : SlotSpan) : Type 0 where
  -- It returns the first slot that was never used.
  pub returned : (provision_more_slots_and_alloc_one s).0 ≡ s.num_allocated_slots
  -- The slots after it go to the freelist, in order.
  pub freelist :
      (provision_more_slots_and_alloc_one s).1.freelist
      ≡ slots_from (s.num_allocated_slots + 1) (slots_to_provision s - 1)
  -- With the returned slot, they are those of the committed pages.
  pub added : length (provision_more_slots_and_alloc_one s).1.freelist + 1 ≡ slots_to_provision s
  -- The count of the unprovisioned slots does not wrap.
  pub no_wrap : slots_to_provision s ≤ s.num_unprovisioned_slots
  pub valid : IsValid (provision_more_slots_and_alloc_one s).1

-- On a span of slots of positive size with an empty freelist, whose slots are all allocated or
-- unprovisioned and some are unprovisioned, provisioning returns the first unprovisioned slot, puts
-- each other slot of the committed pages that is whole on the freelist, in order, takes no more slots than
-- the span has left, and keeps its books.
pub provision-Provisioned :
    (s : SlotSpan)
    → 0 < s.bucket.slot_size
    → s.num_allocated_slots + s.num_unprovisioned_slots ≡ get_slots_per_span s.bucket
    → 0 < s.num_unprovisioned_slots
    → Provisioned s
unfolding provision_more_slots_and_alloc_one
provision-Provisioned s pos books left =
    let enough = slots_to_provision-pos s pos books left in
    let added = length-provisioned s pos books left in
    let no_wrap = slots_to_provision-le s pos books left in
    record {
      returned = refl;
      freelist = provisioned s pos books left;
      added = added;
      no_wrap = no_wrap;
      valid = committed (omega arith) (omega arith) (omega arith);
    }
