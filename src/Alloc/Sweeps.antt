-- ===== src/Alloc/Sweeps.antt =====
-- What SetNewActiveSlotSpan leaves to the rest of SlowPathAlloc.
use partition_alloc.Base.{
  ℕ, ◌≤◌, ◌<◌, ◌≡◌, refl, sym, ◌∙◌, inl, inr, Bool, true, false, ◌||◌, if◌then◌else◌, List, [], ◌∷◌,
  ◌++◌, arith, Bool-cases, subst,
}
use mathlib.Core.List.{head-eq_of_cons-eq}
use partition_alloc.SlotSpan.{
  SlotSpan, Geometry, is_nil, is_active, is_empty, is_decommitted, dirty_size,
}
use partition_alloc.SlotSpan.States.{IsValid, committed, decommitted}
use partition_alloc.Bucket.{Bucket, Spans, mark_full}
use partition_alloc.Bucket.Free.{HasRoom}
use partition_alloc.Bucket.Visit.{keep, before, from, Tests, tests_of, is_active_of_is_usable}
use partition_alloc.Bucket.Sweep.{Swept, first, others, new_active}
use partition_alloc.SuperPage.{partition_page_size}
use partition_alloc.SuperPage.Invariant.{Ready, Fits}
use partition_alloc.Alloc.{State, swept_state}
use partition_alloc.Alloc.Lists.{
  All, All-push_all, All-from, from-head, All-keep, keep-All, All-before, All-reordered, All-both,
  All-map,
}
use partition_alloc.Alloc.Hand.{Good, HasSlot, stocked, unstocked, Good-IsBare}
use partition_alloc.Alloc.Empty.{IsIdle}
use partition_alloc.Alloc.Choose.{Sound}

-- What holds of a bucket, the root and the pages between two calls: the spans on the three lists have
-- right books, the empty list has empty spans and such as were decommitted since, the decommitted list
-- has decommitted ones, and the dirty bytes cover every empty span.
pub record Sane (base : ℕ) (g : Geometry) (st : State) : Type 0 where
  pub room : HasRoom st.bucket
  pub good_active : All (λ x. Good (st.root.spans x)) st.bucket.active
  pub good_empty : All (λ x. Good (st.root.spans x)) st.bucket.empty
  pub good_decommitted : All (λ x. Good (st.root.spans x)) st.bucket.decommitted
  pub idle : All (IsIdle st.root) st.bucket.empty
  pub covered :
      All
        (λ x.
          is_empty (st.root.spans x) ≡ true
          → dirty_size (st.root.spans x) ≤ st.root.empty_slot_spans_dirty_bytes)
        st.bucket.active
  pub slept : All (λ x. is_decommitted (st.root.spans x) ≡ true) st.bucket.decommitted
  pub size_pos : 0 < g.slot_size
  pub fits : Fits g partition_page_size
  pub ready : Ready base st.pages

IsValid-mark_full : (s : SlotSpan) → IsValid s → IsValid (mark_full s)
IsValid-mark_full s (committed pos sum room) = committed pos sum room
IsValid-mark_full s (decommitted pos a f u) = decommitted pos a f u

Good-mark_full : (s : SlotSpan) → Good s → Good (mark_full s)
Good-mark_full s g = record {
  valid = IsValid-mark_full s g.valid;
  size_pos = g.size_pos;
  frontier = g.frontier;
}

-- A property that the mark does not touch.
through_marks :
    (P : SlotSpan → Type 0) (c : Bool) (s s' : SlotSpan)
    → s' ≡ (if c then mark_full s else s)
    → ((t : SlotSpan) → P t → P (mark_full t))
    → P s
    → P s'
through_marks P true s s' e f h = subst P (sym e) (f s h)
through_marks P false s s' e f h = subst P (sym e) h

HasSlot-of-active : (s : SlotSpan) → Good s → is_active s ≡ true → HasSlot s
unfolding is_active
HasSlot-of-active s g h = elim (Bool-cases (is_nil s.freelist)) [
  | inr slots ↦ stocked g slots
  | inl bare ↦ unstocked (Good-IsBare s g (nil_of s.freelist bare) (ground (arith, bare)))
]
  where
    nil_of : (xs : List ℕ) → is_nil xs ≡ true → xs ≡ []
    nil_of [] e = refl
    nil_of (x ∷ xs) e = cc

-- The head of the new active list is active.
head_active :
    (spans : Spans) (ys kept : List ℕ) (x : ℕ) (next : List ℕ)
    → ((y : ℕ) (rest : List ℕ) → ys ≡ y ∷ rest → is_active (spans y) ≡ true)
    → All (λ y. is_active (spans y) ≡ true) kept
    → first ys ++ (kept ++ others ys) ≡ x ∷ next
    → is_active (spans x) ≡ true
head_active spans [] [] x next h k e = cc
head_active spans [] (z ∷ zs) x next h k e =
    subst (λ w. is_active (spans w) ≡ true) (head-eq_of_cons-eq e) k.0
head_active spans (y ∷ ys) kept x next h k e =
    subst (λ w. is_active (spans w) ≡ true) (head-eq_of_cons-eq e) (h y ys refl)

module _ (base : ℕ) (g : Geometry) (st : State) (b : Bucket) (spans : Spans) (v : Sane base g st)
    (w : Swept
      (tests_of st.root.spans)
      (before (tests_of st.root.spans).usable st.bucket.active)
      (new_active (tests_of st.root.spans) st.bucket.active)
      st.bucket
      b
      st.root.spans
      spans) where
  abbrev tests : Tests
  tests = tests_of st.root.spans

  abbrev seen : List ℕ
  seen = before tests.usable st.bucket.active

  marked :
      (P : SlotSpan → Type 0) (x : ℕ)
      → ((s : SlotSpan) → P s → P (mark_full s))
      → P (st.root.spans x)
      → P (spans x)
  marked P x f h = through_marks P _ (st.root.spans x) (spans x) (w.marks x) f h

  All-marked :
      (P : SlotSpan → Type 0) (xs : List ℕ)
      → ((s : SlotSpan) → P s → P (mark_full s))
      → All (λ x. P (st.root.spans x)) xs
      → All (λ x. P (spans x)) xs
  All-marked P xs f h = All-map _ _ xs (λ x. marked P x f) h

  books_seen : All (λ x. Good (st.root.spans x)) seen
  books_seen = All-before _ tests.usable st.bucket.active v.good_active

  books_empty : All (λ x. Good (spans x)) b.empty
  books_empty = subst (All (λ x. Good (spans x))) (sym w.empty_list) (
      All-marked Good _ Good-mark_full (
        All-push_all (λ x. Good (st.root.spans x)) _ st.bucket.empty
          (All-keep _ tests.empty seen books_seen) v.good_empty))

  books_decommitted : All (λ x. Good (spans x)) b.decommitted
  books_decommitted = subst (All (λ x. Good (spans x))) (sym w.decommitted_list) (
      All-marked Good _ Good-mark_full (
        All-push_all (λ x. Good (st.root.spans x)) _ st.bucket.decommitted
          (All-keep _ tests.decommitted seen books_seen) v.good_decommitted))

  swept_slept : All (λ x. is_decommitted (spans x) ≡ true) b.decommitted
  unfolding is_decommitted
  swept_slept = subst (All (λ x. is_decommitted (spans x) ≡ true)) (sym w.decommitted_list) (
      All-marked (λ s. is_decommitted s ≡ true) _ (λ s h. h)
        (All-push_all (λ x. is_decommitted (st.root.spans x) ≡ true) _ st.bucket.decommitted
          (keep-All tests.decommitted seen) v.slept))

  IsIdle-marked : (x : ℕ) → IsIdle st.root x → IsIdle (record st.root { spans = spans }) x
  unfolding is_empty is_decommitted
  IsIdle-marked x h = record {
    idle = marked (λ s. is_empty s || is_decommitted s ≡ true) x (λ s e. e) h.idle;
    covered =
        marked
          (λ s. is_nil s.freelist ≡ false → dirty_size s ≤ st.root.empty_slot_spans_dirty_bytes) x
          (λ s f. f) h.covered;
  }

  swept-IsIdle : All (IsIdle (record st.root { spans = spans })) b.empty
  swept-IsIdle = subst (All (IsIdle (record st.root { spans = spans }))) (sym w.empty_list) (
      All-map _ _ _ IsIdle-marked (
        All-push_all (IsIdle st.root) _ st.bucket.empty
          (All-both (λ x. is_empty (st.root.spans x) ≡ true)
            (λ x.
              is_empty (st.root.spans x) ≡ true
              → dirty_size (st.root.spans x) ≤ st.root.empty_slot_spans_dirty_bytes)
            (IsIdle st.root) _ (λ x e f. record { idle = rw e refl; covered = λ slots. f e })
            (keep-All tests.empty seen)
            (All-keep _ tests.empty seen (All-before _ tests.usable st.bucket.active v.covered)))
          v.idle))

  swept_head :
      (x : ℕ) (next : List ℕ)
      → b.active ≡ x ∷ next
      → HasSlot (spans x) × (is_active (spans x) ≡ true)
  unfolding is_active
  swept_head x next e =
      let at : new_active tests st.bucket.active ≡ x ∷ next = sym w.active_list ∙ e in
      let good = subst (All (λ y. Good (st.root.spans y))) at (
        All-reordered (λ y. Good (st.root.spans y)) _ _
          (All-from _ tests.usable st.bucket.active v.good_active)
          (All-keep _ tests.active seen books_seen)) in
      let active =
        head_active st.root.spans (from tests.usable st.bucket.active) (keep tests.active seen) x
          next
          (λ y rest f.
            is_active_of_is_usable (st.root.spans y)
              (from-head tests.usable st.bucket.active y rest f))
          (keep-All tests.active seen) at in
      let still = marked (λ s. is_active s ≡ true) x (λ s f. f) active in
      (HasSlot-of-active (spans x) (marked Good x Good-mark_full good.0) still, still)

  -- The swept lists serve the rest of SlowPathAlloc.
  pub swept_state-Sound : Sound base g (swept_state st b spans)
  swept_state-Sound = record {
    head = swept_head;
    good_empty = books_empty;
    idle = swept-IsIdle;
    good_decommitted = books_decommitted;
    slept = swept_slept;
    size_pos = v.size_pos;
    fits = v.fits;
    ready = v.ready;
  }
