-- ===== src/Alloc/Empty.antt =====
-- The loop of SlowPathAlloc over the empty spans, and the spans that it leaves.
use partition_alloc.Base.{
  ℕ, ◌+◌, ◌-◌, ◌*◌, ◌/◌, ◌≤◌, ◌<◌, ◌≡◌, refl, sym, ap, ◌∙◌, inl, inr, Bool, true, false, not, ◌||◌,
  List, [], ◌∷◌, arith, Bool-cases, if_true, if_false, subst, ltb_not,
}
use partition_alloc.SlotSpan.{
  SlotSpan, Geometry, get_slots_per_span, is_nil, is_empty, is_decommitted, dirty_size, reset,
}
use partition_alloc.SlotSpan.States.{IsValid, committed, decommitted}
use partition_alloc.Bucket.{Root, Spans}
use partition_alloc.Bucket.Visit.{push_all, before, from}
use partition_alloc.SuperPage.{new_slot_span}
use partition_alloc.Alloc.{Taken, takes, none_left, rejected, reuse, take_empty}
use partition_alloc.Alloc.Lists.{All}
use partition_alloc.Alloc.Hand.{Good, IsBare}

-- Has the span not been decommitted?
abbrev pub keeps_slots : Spans → ℕ → Bool
keeps_slots spans x = not (is_nil (spans x).freelist)

-- A span of the list of empty spans, which may have been decommitted since.
pub record IsIdle (r : Root) (x : ℕ) : Type 0 where
  pub idle : is_empty (r.spans x) || is_decommitted (r.spans x) ≡ true
  pub covered :
      is_nil (r.spans x).freelist ≡ false → dirty_size (r.spans x) ≤ r.empty_slot_spans_dirty_bytes

-- The empty spans that were decommitted go to the other list, up to the first that was not, which is
-- taken.
abbrev pub TakesFirst : Root → List ℕ → List ℕ → Taken → Type 0
TakesFirst r xs ys (takes x rest kept r') =
    (from (keeps_slots r.spans) xs ≡ x ∷ rest)
    × (kept ≡ push_all (before (keeps_slots r.spans) xs) ys)
    × (r' ≡ reuse x r)
TakesFirst r xs ys (none_left kept) = (from (keeps_slots r.spans) xs ≡ []) × (kept ≡ push_all xs ys)
TakesFirst r xs ys rejected = ⊥

passed-TakesFirst :
    (r : Root) (x : ℕ) (xs ys : List ℕ) (o : Taken)
    → keeps_slots r.spans x ≡ false
    → TakesFirst r xs (x ∷ ys) o
    → TakesFirst r (x ∷ xs) ys o
passed-TakesFirst r x xs ys (takes z rest dec r') e h = rw e h
passed-TakesFirst r x xs ys (none_left dec) e h = rw e h
passed-TakesFirst r x xs ys rejected e h = h

pub bare_decommitted :
    (s : SlotSpan)
    → is_nil s.freelist ≡ true
    → (is_empty s || is_decommitted s) ≡ true
    → is_decommitted s ≡ true
unfolding is_empty is_decommitted
bare_decommitted s e h = ground arith

pub take_empty-TakesFirst :
    (xs ys : List ℕ) (r : Root) → All (IsIdle r) xs → TakesFirst r xs ys (take_empty xs ys r)
unfolding take_empty
take_empty-TakesFirst [] ys r h = (refl, refl)
take_empty-TakesFirst (x ∷ xs) ys r h =
    let s = r.spans x in
    let ih = take_empty-TakesFirst xs (x ∷ ys) r h.1 in
    subst (TakesFirst r (x ∷ xs) ys) (sym (if_false _ _ _ (ap not h.0.idle)))
      (elim (Bool-cases (is_nil s.freelist)) [
        | inr slots ↦
            let kept : keeps_slots r.spans x ≡ true = ap not slots in
            subst (TakesFirst r (x ∷ xs) ys)
              (sym (if_true _ _ _ kept ∙ if_false _ _ _ (ltb_not _ _ (h.0.covered slots))))
              (if_true _ _ _ kept, ap (λ zs. push_all zs ys) (sym (if_true _ _ _ kept)), refl)
        | inl bare ↦
            let none_kept : keeps_slots r.spans x ≡ false = ap not bare in
            subst (TakesFirst r (x ∷ xs) ys)
              (sym (
                if_false _ _ _ none_kept
                ∙ if_false _ _ _ (ap not (bare_decommitted s bare h.0.idle))))
              (passed-TakesFirst r x xs ys _ none_kept ih)
      ])

pub some_slots : (s : SlotSpan) → IsValid s → 0 < get_slots_per_span s.bucket
some_slots s (committed pos sum room) = pos
some_slots s (decommitted pos a f u) = pos

frontier_zero :
    (n size : ℕ) → 0 < size → (size * (n - n) + 4095) / 4096 * 4096 < size * (n - n) + size
frontier_zero n size pos = let none_left : n - n ≡ 0 = omega arith in rw none_left (omega arith)

pub nil_of : (xs : List ℕ) → is_nil xs ≡ true → xs ≡ []
nil_of [] e = refl
nil_of (x ∷ xs) e = cc

decommitted_facts :
    (s : SlotSpan)
    → is_decommitted s ≡ true
    → (s.num_allocated_slots ≡ 0) × (is_nil s.freelist ≡ true)
unfolding is_decommitted
decommitted_facts s h = (ground arith, ground arith)

pub reset-IsBare : (s : SlotSpan) → Good s → is_decommitted s ≡ true → IsBare (reset s)
unfolding reset
reset-IsBare s g h =
    let facts = decommitted_facts s h in
    record {
      bare = nil_of s.freelist facts.1;
      sum = omega (arith, facts.0);
      left = some_slots s g.valid;
      size_pos = g.size_pos;
      frontier = frontier_zero (get_slots_per_span s.bucket) s.bucket.slot_size g.size_pos;
    }

pub new_slot_span-IsBare :
    (g : Geometry) → 0 < get_slots_per_span g → 0 < g.slot_size → IsBare (new_slot_span g)
unfolding new_slot_span
new_slot_span-IsBare g some_left pos = record {
  bare = refl;
  sum = omega arith;
  left = some_left;
  size_pos = pos;
  frontier = frontier_zero (get_slots_per_span g) g.slot_size pos;
}
