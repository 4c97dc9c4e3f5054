-- ===== src/Bucket/Visit.antt =====
-- What the walks over the active list of a bucket do with one span, said by filters.
use mathlib.Core.List.{append-nil}
use partition_alloc.Base.{
  ℕ, ◌+◌, ◌%◌, ◌<◌, ◌≡◌, refl, sym, ◌∙◌, inl, inr, Bool, true, false, not, ◌&&◌, ◌||◌, ◌==◌,
  if◌then◌else◌, Option, none, some, List, [], ◌∷◌, ◌++◌, length, arith, Bool-cases,
}
use partition_alloc.SlotSpan.{SlotSpan, is_active, is_empty, is_decommitted}
use partition_alloc.Bucket.{Spans, Walk, update, place, mark_full, full_mod, is_usable}

-- The elements that pass a test, in order.
abbrev pub keep {ℓ} : {A : Type ℓ} → (A → Bool) → List A → List A
keep p [] = []
keep p (x ∷ xs) = if p x then x ∷ keep p xs else keep p xs

-- The elements of `xs`, put one by one on the head of `ys`.
abbrev pub push_all {ℓ} : {A : Type ℓ} → List A → List A → List A
push_all [] ys = ys
push_all (x ∷ xs) ys = push_all xs (x ∷ ys)

abbrev pub contains : ℕ → List ℕ → Bool
contains y [] = false
contains y (x ∷ xs) = (y == x) || contains y xs

-- The part of a list before the first element that passes a test, and the rest.
abbrev pub before : (ℕ → Bool) → List ℕ → List ℕ
before p [] = []
before p (x ∷ xs) = if p x then [] else x ∷ before p xs

abbrev pub from : (ℕ → Bool) → List ℕ → List ℕ
from p [] = []
from p (x ∷ xs) = if p x then x ∷ xs else from p xs

-- The tests of the states, for every span of the store.
pub record Tests : Type 0 where
  pub active : ℕ → Bool
  pub empty : ℕ → Bool
  pub decommitted : ℕ → Bool
  pub usable : ℕ → Bool

abbrev pub tests_of : Spans → Tests
tests_of spans = record {
  active = λ x. is_active (spans x);
  empty = λ x. is_empty (spans x);
  decommitted = λ x. is_decommitted (spans x);
  usable = λ x. is_usable (spans x);
}

-- In none of the three states: full.
abbrev pub is_stuck : Tests → ℕ → Bool
is_stuck t x = not (t.active x || (t.empty x || t.decommitted x))

pub record Agrees (t : Tests) (spans : Spans) : Type 0 where
  pub active : (x : ℕ) → is_active (spans x) ≡ t.active x
  pub empty : (x : ℕ) → is_empty (spans x) ≡ t.empty x
  pub decommitted : (x : ℕ) → is_decommitted (spans x) ≡ t.decommitted x
  pub usable : (x : ℕ) → is_usable (spans x) ≡ t.usable x

-- Each span that was visited has gone to the list of its state, in the order of the walk; the full
-- ones are marked and counted, and no other span has changed.
pub record Walked (t : Tests) (xs : List ℕ) (w w' : Walk) : Type 0 where
  pub kept : w'.kept ≡ w.kept ++ keep t.active xs
  pub empty : w'.empty ≡ push_all (keep t.empty xs) w.empty
  pub decommitted : w'.decommitted ≡ push_all (keep t.decommitted xs) w.decommitted
  pub full : w'.num_full_slot_spans ≡ w.num_full_slot_spans + length (keep (is_stuck t) xs)
  pub marked :
      (y : ℕ)
      → w'.spans y
        ≡ (if contains y (keep (is_stuck t) xs) then mark_full (w.spans y) else w.spans y)

-- The states are exclusive.
exclusive :
    (s : SlotSpan)
    → (is_active s && (is_empty s || is_decommitted s) ≡ false)
      × (is_empty s && is_decommitted s ≡ false)
unfolding is_active is_empty is_decommitted
exclusive s = ground arith

-- A mark leaves a test alone that does not read it.
update-test :
    (p : SlotSpan → Bool) (spans : Spans) (x y : ℕ)
    → ((s : SlotSpan) → p (mark_full s) ≡ p s)
    → p (update spans x (mark_full (spans x)) y) ≡ p (spans y)
update-test p spans x y h = elim (Bool-cases (y == x)) [
  | inl same ↦ let e : y ≡ x = ground arith in rw (same, e) (h (spans x))
  | inr other ↦ rw other
]

Agrees-mark :
    (t : Tests) (spans : Spans) (x : ℕ)
    → Agrees t spans
    → Agrees t (update spans x (mark_full (spans x)))
unfolding is_active is_empty is_decommitted is_usable
Agrees-mark t spans x a = record {
  active = λ y. update-test is_active spans x y (λ s. refl) ∙ a.active y;
  empty = λ y. update-test is_empty spans x y (λ s. refl) ∙ a.empty y;
  decommitted = λ y. update-test is_decommitted spans x y (λ s. refl) ∙ a.decommitted y;
  usable = λ y. update-test is_usable spans x y (λ s. refl) ∙ a.usable y;
}

-- One visit, for a count that cannot overflow.
abbrev pub Visited : Tests → ℕ → Walk → Option Walk → Type 0
Visited t x w none = ⊥
Visited t x w (some w') = Agrees t w'.spans × Walked t (x ∷ []) w w'

-- The walk's tests of one span, as the values of `t`.
record Says (t : Tests) (x : ℕ) (va ve vd : Bool) : Type 0 where
  active : t.active x ≡ va
  empty : t.empty x ≡ ve
  decommitted : t.decommitted x ≡ vd

Walked-one :
    (t : Tests) (x : ℕ) (w w' : Walk) (va ve vd : Bool)
    → Says t x va ve vd
    → w'.kept ≡ w.kept ++ (if va then x ∷ [] else [])
    → w'.empty ≡ (if ve then x ∷ w.empty else w.empty)
    → w'.decommitted ≡ (if vd then x ∷ w.decommitted else w.decommitted)
    → w'.num_full_slot_spans ≡ w.num_full_slot_spans + (if va || (ve || vd) then 0 else 1)
    → ((y : ℕ)
        → w'.spans y
          ≡ (if not (va || (ve || vd)) && (y == x) then mark_full (w.spans y) else w.spans y))
    → Walked t (x ∷ []) w w'
Walked-one t x w w' va ve vd says k e d f m = record {
  kept = rw says.active k;
  empty = rw says.empty (ground (arith, e));
  decommitted = rw says.decommitted (ground (arith, d));
  full = rw (says.active, says.empty, says.decommitted) (ground (arith, f));
  marked = λ y. rw (says.active, says.empty, says.decommitted) (ground (arith, m y));
}

pub place-Visited :
    (t : Tests) (x : ℕ) (w : Walk)
    → Agrees t w.spans
    → w.num_full_slot_spans + 1 < full_mod
    → Visited t x w (place x w)
unfolding place
place-Visited t x w a room = elim (Bool-cases (is_active (w.spans x))) [
  | inl act ↦ rw act (
    a,
    Walked-one t x w _ true false false
        (record {
          active = sym (a.active x) ∙ act;
          empty = sym (a.empty x) ∙ ground (arith, exclusive (w.spans x));
          decommitted = sym (a.decommitted x) ∙ ground (arith, exclusive (w.spans x));
        })
        refl refl refl (omega arith) (λ y. refl),
  )
  | inr idle ↦ elim (Bool-cases (is_empty (w.spans x))) [
    | inl emp ↦
        rw (idle, emp)
          (
            a,
            Walked-one t x w _ false true false
                (record {
                  active = sym (a.active x) ∙ idle;
                  empty = sym (a.empty x) ∙ emp;
                  decommitted = sym (a.decommitted x) ∙ ground (arith, exclusive (w.spans x));
                })
                (sym (append-nil w.kept)) refl refl (omega arith) (λ y. refl),
          )
    | inr unempty ↦ elim (Bool-cases (is_decommitted (w.spans x))) [
      | inl dec ↦
          rw (idle, unempty, dec)
            (
              a,
              Walked-one t x w _ false false true
                  (record {
                    active = sym (a.active x) ∙ idle;
                    empty = sym (a.empty x) ∙ unempty;
                    decommitted = sym (a.decommitted x) ∙ dec;
                  })
                  (sym (append-nil w.kept)) refl refl (omega arith) (λ y. refl),
            )
      | inr stuck ↦
          let count : (w.num_full_slot_spans + 1) % full_mod ≡ w.num_full_slot_spans + 1 =
            omega arith in
          let positive : (w.num_full_slot_spans + 1 == 0) ≡ false = ground arith in
          rw (idle, unempty, stuck, count, positive)
            (
              Agrees-mark t w.spans x a,
              Walked-one t x w _ false false false
                  (record {
                    active = sym (a.active x) ∙ idle;
                    empty = sym (a.empty x) ∙ unempty;
                    decommitted = sym (a.decommitted x) ∙ stuck;
                  })
                  (sym (append-nil w.kept)) refl refl refl (λ y. ground arith),
            )
    ]
  ]
]

pub is_active_of_is_usable : (s : SlotSpan) → is_usable s ≡ true → is_active s ≡ true
unfolding is_usable
is_active_of_is_usable s h = ground arith
