-- ===== src/Bucket/Entries.antt =====
-- The entries of the ring of empty slot spans, and DecommitIfPossible, which takes one out.
use partition_alloc.Base.{
  ℕ, ◌≤◌, ◌<◌, ◌≡◌, ◌≢◌, refl, sym, ◌∙◌, ap, inl, inr, true, false, ◌==◌, Option, none, some,
  some-injective, arith, Bool-cases,
}
use partition_alloc.SlotSpan.{is_empty, decommit}
use partition_alloc.Bucket.{
  Spans, Root, update, decommit_span, leave_cache, decommit_if_possible,
  max_empty_slot_span_ring_size, enter_cache,
}

-- A span knows its place: the ring holds at an index exactly the span that says it is there.
pub record IsRing (ring : ℕ → Option ℕ) (spans : Spans) : Type 0 where
  pub cached : (i x : ℕ) → ring i ≡ some x → (spans x).in_empty_cache ≡ true
  pub indexed : (i x : ℕ) → ring i ≡ some x → (spans x).empty_cache_index ≡ i
  pub held : (x : ℕ) → (spans x).in_empty_cache ≡ true → ring ((spans x).empty_cache_index) ≡ some x

-- The ring and its index.
pub record Inv (r : Root) : Type 0 where
  pub ring : IsRing r.ring r.spans
  pub index_in : r.ring_index < r.ring_size
  pub size_in : r.ring_size ≤ max_empty_slot_span_ring_size

-- Two stores with the same places.
abbrev pub SamePlaces : Spans → Spans → Type 0
SamePlaces s s' =
    (x : ℕ)
    → ((s' x).in_empty_cache ≡ (s x).in_empty_cache)
      × ((s' x).empty_cache_index ≡ (s x).empty_cache_index)

pub IsRing-same :
    (ring : ℕ → Option ℕ) (s s' : Spans) → SamePlaces s s' → IsRing ring s → IsRing ring s'
IsRing-same ring s s' e v = record {
  cached = λ i x h. (e x).0 ∙ v.cached i x h;
  indexed = λ i x h. (e x).1 ∙ v.indexed i x h;
  held = λ x h. ap ring (e x).1 ∙ v.held x (sym (e x).0 ∙ h);
}

pub eq_of_test : (a b : ℕ) → (a == b) ≡ true → a ≡ b
eq_of_test a b h = ground arith

test_of_ne : (a b : ℕ) → a ≢ b → (a == b) ≡ false
test_of_ne a b h = ground arith

pub ne_of_test : (a b : ℕ) → (a == b) ≡ false → a ≢ b
ne_of_test a b h = ground arith

-- What is left in the ring when a span has left it.
left_entry :
    (ring : ℕ → Option ℕ) (s : Spans) (x i y : ℕ)
    → IsRing ring s
    → update ring (s x).empty_cache_index none i ≡ some y
    → (ring i ≡ some y) × ((y == x) ≡ false)
left_entry ring s x i y v e = elim (Bool-cases (i == (s x).empty_cache_index)) [
  | inl gone ↦ cc (rw gone at e)
  | inr kept ↦
      let entry = rw kept at e in
      (
        entry,
        test_of_ne y x λ same. ne_of_test _ _ kept (sym (v.indexed i x (entry ∙ ap some same))),
      )
]

-- A span leaves the ring together with its entry.
IsRing-leave :
    (ring : ℕ → Option ℕ) (s : Spans) (x : ℕ)
    → (s x).in_empty_cache ≡ true
    → IsRing ring s
    → IsRing (update ring (s x).empty_cache_index none) (update s x (leave_cache (s x)))
IsRing-leave ring s x h v = record {
  cached =
      λ i y e. let (entry, other) = left_entry ring s x i y v e in rw other (v.cached i y entry);
  indexed =
      λ i y e. let (entry, other) = left_entry ring s x i y v e in rw other (v.indexed i y entry);
  held = λ y e. elim (Bool-cases (y == x)) [
    | inl same ↦ cc (rw same at e)
    | inr other ↦
        let in_cache = rw other at e in
        let entry = v.held y in_cache in
        rw
          (
            other,
            test_of_ne (s y).empty_cache_index (s x).empty_cache_index λ same_index.
                ne_of_test y x other (some-injective (sym entry ∙ ap ring same_index ∙ v.held x h)),
          )
          entry
  ];
}

-- A span that is not in the ring takes an entry that is free.
pub IsRing-enter :
    (ring : ℕ → Option ℕ) (s : Spans) (x k : ℕ)
    → (s x).in_empty_cache ≡ false
    → ring k ≡ none
    → IsRing ring s
    → IsRing (update ring k (some x)) (update s x (enter_cache k (s x)))
IsRing-enter ring s x k out free v = record {
  cached = λ i y e. elim (Bool-cases (y == x)) [
    | inl same ↦ rw same
    | inr other ↦ rw other (v.cached i y (old i y other e))
  ];
  indexed = λ i y e. elim (Bool-cases (y == x)) [
    | inl same ↦ rw same (here i y e (eq_of_test y x same))
    | inr other ↦ rw other (v.indexed i y (old i y other e))
  ];
  held = λ y e. elim (Bool-cases (y == x)) [
    | inl same ↦ rw (same, eq_refl k) (ap some (sym (eq_of_test y x same)))
    | inr other ↦
        let entry = v.held y (rw other at e) in
        rw
          (
            other,
            test_of_ne (s y).empty_cache_index k
                λ same_index. cc (sym entry ∙ ap ring same_index ∙ free),
          )
          entry
  ];
}
  where
    eq_refl : (n : ℕ) → (n == n) ≡ true
    eq_refl n = ground arith

    old : (i y : ℕ) → (y == x) ≡ false → update ring k (some x) i ≡ some y → ring i ≡ some y
    old i y other e = elim (Bool-cases (i == k)) [
      | inl new ↦ absurd (ne_of_test y x other (sym (some-injective (rw new at e))))
      | inr kept ↦ rw kept at e
    ]

    here : (i y : ℕ) → update ring k (some x) i ≡ some y → y ≡ x → k ≡ i
    here i y e same = elim (Bool-cases (i == k)) [
      | inl new ↦ sym (eq_of_test i k new)
      | inr kept ↦ cc (out, v.cached i x ((rw kept at e) ∙ ap some same))
    ]

pub decommit_span-SamePlaces : (x : ℕ) (r : Root) → SamePlaces r.spans (decommit_span x r).spans
unfolding decommit_span decommit
decommit_span-SamePlaces x r y = elim (Bool-cases (y == x)) [
  | inl same ↦
      let e = eq_of_test y x same in
      rw same (
        ap (λ z. (r.spans z).in_empty_cache) (sym e),
        ap (λ z. (r.spans z).empty_cache_index) (sym e),
      )
  | inr other ↦ rw other (refl, refl)
]

ring-decommit_span : (x : ℕ) (r : Root) → (decommit_span x r).ring ≡ r.ring
unfolding decommit_span
ring-decommit_span x r = refl

pub decommit_if_possible-IsRing :
    (x : ℕ) (r : Root)
    → (r.spans x).in_empty_cache ≡ true
    → IsRing r.ring r.spans
    → IsRing (decommit_if_possible x r).ring (decommit_if_possible x r).spans
unfolding decommit_if_possible
decommit_if_possible-IsRing x r h v =
    let left = record r { spans = update r.spans x (leave_cache (r.spans x)) } in
    elim (Bool-cases (is_empty (left.spans x))) [
      | inl empty_span ↦ rw empty_span (
          IsRing-same _ left.spans _ (decommit_span-SamePlaces x left)
            (IsRing-leave r.ring r.spans x h v))
      | inr in_use ↦ rw in_use (IsRing-leave r.ring r.spans x h v)
    ]
