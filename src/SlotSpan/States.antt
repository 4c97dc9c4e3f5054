-- ===== src/SlotSpan/States.antt =====
-- The states of a slot span: what its three counts say, and which operations keep them right.
use partition_alloc.Base.{
  ℕ, ◌+◌, ◌≤◌, ◌<◌, ◌≡◌, refl, inl, inr, Bool, true, false, leb, if◌then◌else◌, Option, none, some,
  List, [], ◌∷◌, length, length-append, arith, Bool-cases, subst, leb→le, some-injective,
}
use partition_alloc.SlotSpan.{
  SlotSpan, get_slots_per_span, is_active, is_full, is_empty, is_decommitted, is_nil,
  get_freelist_length, pop_for_alloc, free_slot, append_free_list, decommit,
}

-- Every provisioned slot is allocated or on the freelist, or the span is decommitted and has none.
pub data IsValid (s : SlotSpan) : Type 0 where
  committed :
      0 < get_slots_per_span s.bucket
      → s.num_allocated_slots + length s.freelist + s.num_unprovisioned_slots
        ≡ get_slots_per_span s.bucket
      → s.num_unprovisioned_slots < get_slots_per_span s.bucket
      → IsValid s
  decommitted :
      0 < get_slots_per_span s.bucket
      → s.num_allocated_slots ≡ 0
      → s.freelist ≡ []
      → s.num_unprovisioned_slots ≡ 0
      → IsValid s

abbrev pub one_if : Bool → ℕ
one_if b = if b then 1 else 0

length-pos : (xs : List ℕ) → is_nil xs ≡ false → 0 < length xs
length-pos [] e = cc
length-pos (x ∷ xs) e = omega arith

length-zero : (xs : List ℕ) → is_nil xs ≡ true → length xs ≡ 0
length-zero [] e = refl
length-zero (x ∷ xs) e = cc

-- The four tests of a slot span are exclusive and exhaustive: a valid span passes exactly one.
pub one_state :
    (s : SlotSpan)
    → IsValid s
    → one_if (is_active s) + one_if (is_full s) + one_if (is_empty s) + one_if (is_decommitted s)
      ≡ 1
unfolding is_active is_full is_empty is_decommitted
one_state s (committed pos sum room) = ground (arith, length-pos s.freelist, length-zero s.freelist)
one_state s (decommitted pos none_allocated none_free all_provisioned) =
    ground (arith, length-pos s.freelist, length-zero s.freelist)

-- GetFreelistLength, which counts by subtraction, is the length of the freelist of a valid span that
-- is not decommitted.
pub get_freelist_length_lem :
    (s : SlotSpan)
    → IsValid s
    → is_decommitted s ≡ false
    → get_freelist_length s ≡ length s.freelist
unfolding get_freelist_length is_decommitted
get_freelist_length_lem s (committed pos sum room) live = omega arith
get_freelist_length_lem s (decommitted pos a f u) live = ground arith

pub pop_for_alloc-IsValid :
    (s : SlotSpan) {x : ℕ} {t : SlotSpan} → IsValid s → pop_for_alloc s ≡ some (x, t) → IsValid t
unfolding pop_for_alloc
pop_for_alloc-IsValid s (committed pos sum room) e =
    committed (ground arith) (ground arith) (ground arith)
pop_for_alloc-IsValid s (decommitted pos a f u) e = ground arith

free_slot-IsValid :
    (x : ℕ) (s : SlotSpan) {t : SlotSpan} → IsValid s → free_slot x s ≡ some t → IsValid t
unfolding free_slot
free_slot-IsValid x s (committed pos sum room) e =
    committed (ground arith) (ground arith) (ground arith)
free_slot-IsValid x s (decommitted pos a f u) e = ground arith

append_free_list-IsValid :
    (xs : List ℕ) (s : SlotSpan)
    → IsValid s
    → length xs ≤ s.num_allocated_slots
    → IsValid (append_free_list xs (length xs) s)
unfolding append_free_list
append_free_list-IsValid xs s (committed pos sum room) h =
    committed pos (omega (arith, length-append xs s.freelist)) room
append_free_list-IsValid [] s (decommitted pos a f u) h = decommitted pos (omega arith) f u
append_free_list-IsValid (x ∷ xs) s (decommitted pos a f u) h = absurd (omega arith)

decommit-IsValid :
    (s : SlotSpan)
    → IsValid s
    → is_empty s ≡ true
    → IsValid (decommit s) × (is_decommitted (decommit s) ≡ true)
unfolding decommit is_empty is_decommitted
decommit-IsValid s (committed pos sum room) e =
    (decommitted pos (ground arith) refl refl, ground arith)
decommit-IsValid s (decommitted pos a f u) e = (decommitted pos a refl refl, ground arith)

-- The calls on a span that is handed out of and given back to.
pub data Call : Type 0 where
  pops : Call
  frees : ℕ → Call
  appends : List ℕ → Call
  decommits : Call

-- `none` where the call does not apply or the code crashes. A caller frees only what is allocated, and
-- decommits only an empty span.
unfoldable pub call : Call → SlotSpan → Option SlotSpan
unfolding pop_for_alloc free_slot append_free_list is_empty decommit
call pops s = elim (pop_for_alloc s) [ none ↦ none | some (x, t) ↦ some t ]
call (frees x) s = free_slot x s
call (appends xs) s =
    if leb (length xs) s.num_allocated_slots then some (append_free_list xs (length xs) s) else none
call decommits s = if is_empty s then some (decommit s) else none

-- Allocating from the freelist, freeing one slot or a list of slots, and decommitting keep the books:
-- the allocated, the free and the unprovisioned slots still make up the span, or it is decommitted.
pub call-IsValid :
    (c : Call) (s : SlotSpan) {t : SlotSpan} → IsValid s → call c s ≡ some t → IsValid t
unfolding call
call-IsValid pops s v e = popped (pop_for_alloc s) refl e
  where
    popped :
        {t : SlotSpan} (r : Option (ℕ × SlotSpan))
        → pop_for_alloc s ≡ r
        → Path (Option SlotSpan) (elim r [ none ↦ none | some (x, t) ↦ some t ]) (some t)
        → IsValid t
    popped none p e = cc
    popped (some (x, u)) p e = subst IsValid (some-injective e) (pop_for_alloc-IsValid s v p)
call-IsValid (frees x) s v e = free_slot-IsValid x s v e
call-IsValid (appends xs) s v e = elim (Bool-cases (leb (length xs) s.num_allocated_slots)) [
  | inl fits ↦
      subst IsValid (some-injective (rw fits at e))
        (append_free_list-IsValid xs s v (leb→le _ _ fits))
  | inr over ↦ cc (rw over at e)
]
call-IsValid decommits s v e = elim (Bool-cases (is_empty s)) [
  | inl yes_empty ↦
      subst IsValid (some-injective (rw yes_empty at e)) (decommit-IsValid s v yes_empty).0
  | inr not_empty ↦ cc (rw not_empty at e)
]

-- A slot that has been freed is the next one to be handed out, and the span is then as it was but for
-- the mark that its freelist is sorted.
pub pop-free :
    (x : ℕ) (s : SlotSpan) {t : SlotSpan}
    → free_slot x s ≡ some t
    → pop_for_alloc t ≡ some (x, record s { freelist_is_sorted = false })
unfolding free_slot pop_for_alloc
pop-free x s e = ground arith
