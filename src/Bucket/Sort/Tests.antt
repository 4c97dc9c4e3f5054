-- ===== src/Bucket/Sort/Tests.antt =====
-- SortActiveSlotSpans with an insertion sort.
use mathlib.Core.List.Perm as Perm
use mathlib.Core.List.{Perm}
use partition_alloc.Base.{
  ℕ, ◌≡◌, sym, inl, inr, Bool, true, false, ◌==◌, if◌then◌else◌, List, [], ◌∷◌, Bool-cases, if_true,
  if_false, subst,
}
use partition_alloc.Bucket.{Bucket, Spans}
use partition_alloc.Bucket.Sort.{
  IsStrictWeakOrder, NoneBefore, Sorted, StdSort, Sorts, sort_active_slot_spans,
  sort_active_slot_spans-Sorts,
}

insert : (ℕ → ℕ → Bool) → ℕ → List ℕ → List ℕ
insert less x [] = x ∷ []
insert less x (y ∷ ys) = if less x y then x ∷ y ∷ ys else y ∷ insert less x ys

insert_all : (ℕ → ℕ → Bool) → List ℕ → List ℕ
insert_all less [] = []
insert_all less (x ∷ xs) = insert less x (insert_all less xs)

module _ (less : ℕ → ℕ → Bool) (o : IsStrictWeakOrder less) where
  insert-Perm : (x : ℕ) (ys : List ℕ) → Perm (insert less x ys) (x ∷ ys)
  unfolding insert
  insert-Perm x [] = Perm.rfl
  insert-Perm x (y ∷ ys) = elim (Bool-cases (less x y)) [
    | inl here ↦ subst (λ zs. Perm zs (x ∷ y ∷ ys)) (sym (if_true _ _ _ here)) Perm.rfl
    | inr later ↦
        subst (λ zs. Perm zs (x ∷ y ∷ ys)) (sym (if_false _ _ _ later))
          (Perm.trans (Perm.cons y (insert-Perm x ys)) (Perm.swap x y ys))
  ]

  -- What stands behind `y` is not before what precedes `y`.
  before_all :
      (x y : ℕ) (ys : List ℕ) → less x y ≡ true → NoneBefore less y ys → NoneBefore less x ys
  before_all x y [] h k = tt
  before_all x y (z ∷ zs) h k = (
    elim (Bool-cases (less z x)) [
      | inr fine ↦ fine
      | inl wrong ↦ cc (o.transitive z x y wrong h, k.0)
    ],
    before_all x y zs h k.1,
  )

  asymmetric : (x y : ℕ) → less x y ≡ true → less y x ≡ false
  asymmetric x y h = elim (Bool-cases (less y x)) [
    | inr fine ↦ fine
    | inl wrong ↦ cc (o.transitive x y x h wrong, o.irreflexive x)
  ]

  NoneBefore-insert :
      (x y : ℕ) (ys : List ℕ)
      → less x y ≡ false
      → NoneBefore less y ys
      → NoneBefore less y (insert less x ys)
  unfolding insert
  NoneBefore-insert x y [] h k = (h, tt)
  NoneBefore-insert x y (z ∷ zs) h k = elim (Bool-cases (less x z)) [
    | inl here ↦ subst (NoneBefore less y) (sym (if_true _ _ _ here)) (h, k)
    | inr later ↦
        subst (NoneBefore less y) (sym (if_false _ _ _ later)) (k.0, NoneBefore-insert x y zs h k.1)
  ]

  insert-Sorted : (x : ℕ) (ys : List ℕ) → Sorted less ys → Sorted less (insert less x ys)
  unfolding insert
  insert-Sorted x [] s = (tt, tt)
  insert-Sorted x (y ∷ ys) s = elim (Bool-cases (less x y)) [
    | inl here ↦
        subst (Sorted less) (sym (if_true _ _ _ here))
          ((asymmetric x y here, before_all x y ys here s.0), s)
    | inr later ↦
        subst (Sorted less) (sym (if_false _ _ _ later))
          (NoneBefore-insert x y ys later s.0, insert-Sorted x ys s.1)
  ]

  insert_all-Sorts : (xs : List ℕ) → Perm (insert_all less xs) xs × Sorted less (insert_all less xs)
  unfolding insert_all
  insert_all-Sorts [] = (Perm.rfl, tt)
  insert_all-Sorts (x ∷ xs) =
      let h = insert_all-Sorts xs in
      (
        Perm.trans (insert-Perm x (insert_all less xs)) (Perm.cons x h.0),
        insert-Sorted x (insert_all less xs) h.1,
      )

insertion : StdSort
insertion = record { sort = insert_all; sorts = insert_all-Sorts }

-- Span 1 has two free slots, span 2 one, and the others none.
abbrev store : Spans
store x = record {
  bucket = record {
    slot_size = 2048;
    num_system_pages_per_slot_span = 2;
    can_store_raw_size = false;
  };
  freelist = if x == 1 then 0 ∷ 1 ∷ [] else if x == 2 then 0 ∷ [] else [];
  num_allocated_slots = if x == 1 then 2 else if x == 2 then 3 else 4;
  num_unprovisioned_slots = 0;
  marked_full = false;
  freelist_is_sorted = true;
  in_empty_cache = false;
  empty_cache_index = 0;
  raw_size = 0;
}

abbrev lists : Bucket
lists = record { active = 1 ∷ 3 ∷ 2 ∷ []; empty = []; decommitted = []; num_full_slot_spans = 0 }

sort_active_slot_spans-Sorts_example :
    Sorts store lists (sort_active_slot_spans insertion store lists)
sort_active_slot_spans-Sorts_example = sort_active_slot_spans-Sorts insertion store lists
