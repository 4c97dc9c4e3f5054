-- ===== src/Bucket/Dirty.antt =====
-- The dirty bytes of the empty spans in the ring, which ShrinkEmptySlotSpansRing counts down.
use partition_alloc.Base.{
  ℕ, zero, suc, ◌+◌, ◌^◌, ◌≤◌, ◌<◌, ◌≡◌, ◌≢◌, refl, sym, ◌∙◌, ap, ◌⊎◌, inl, inr, false, ltb, ◌==◌,
  if◌then◌else◌, Option, none, some, arith, Bool-cases, Option-cases,
}
use partition_alloc.SlotSpan.{SlotSpan, is_empty, dirty_size}
use partition_alloc.Bucket.{
  Spans, Root, update, size_minus, decommit_span, leave_cache, decommit_if_possible, clear_entry,
  next_index, shrink_loop, shrink_empty_slot_spans_ring, max_empty_slot_span_ring_size,
}
use partition_alloc.Bucket.Entries.{
  IsRing, Inv, eq_of_test, ne_of_test, decommit_if_possible-IsRing,
}
use partition_alloc.Bucket.Ring.{shrink_lem, next_in}

-- What a span in the ring counts for: its dirty bytes, unless it is in use again.
abbrev pub weight : SlotSpan → ℕ
weight s = if is_empty s then dirty_size s else 0

abbrev pub weight_at : Spans → Option ℕ → ℕ
weight_at spans none = 0
weight_at spans (some x) = weight (spans x)

pub sum_below : ℕ → (ℕ → ℕ) → ℕ
sum_below zero f = 0
sum_below (suc n) f = sum_below n f + f n

-- The dirty bytes of the empty spans in the ring.
unfoldable pub ring_dirty : Root → ℕ
unfolding sum_below
ring_dirty r = sum_below max_empty_slot_span_ring_size (λ j. weight_at r.spans (r.ring j))

-- The root has counted the empty spans of the ring, in a size_t.
pub record IsCovered (r : Root) : Type 0 where
  pub ring : ring_dirty r ≤ r.empty_slot_spans_dirty_bytes
  pub small : r.empty_slot_spans_dirty_bytes < 2 ^ 64

sum_below_same :
    (n : ℕ) (f g : ℕ → ℕ) → ((j : ℕ) → j < n → g j ≡ f j) → sum_below n g ≡ sum_below n f
unfolding sum_below
sum_below_same zero f g h = refl
sum_below_same (suc n) f g h =
    omega (arith, h n (omega arith), sum_below_same n f g (λ j u. h j (omega (arith, u))))

sum_below_drop :
    (n i : ℕ) (f g : ℕ → ℕ)
    → ((j : ℕ) → j ≢ i → g j ≡ f j)
    → g i ≡ 0
    → i < n
    → sum_below n g + f i ≡ sum_below n f
unfolding sum_below
sum_below_drop zero i f g h e u = absurd (omega (arith, u))
sum_below_drop (suc n) i f g h e u = elim (Bool-cases (n == i)) [
  | inl same ↦
      let last = eq_of_test n i same in
      omega (
        arith,
        sum_below_same n f g (λ j k. h j (λ q. absurd (omega (arith, q, k, last)))),
        ap g last,
        ap f last,
        e,
      )
  | inr other ↦ omega (
    arith,
    h n (ne_of_test n i other),
    sum_below_drop n i f g h e (omega (arith, u, ne_of_test n i other)),
  )
]

-- Dirty bytes and ring go down together.
record Falls (r r' : Root) : Type 0 where
  covered : IsCovered r'
  balance :
      r'.empty_slot_spans_dirty_bytes + ring_dirty r
      ≡ r.empty_slot_spans_dirty_bytes + ring_dirty r'

spans_left :
    (x : ℕ) (r : Root) → update r.spans x (leave_cache (r.spans x)) x ≡ leave_cache (r.spans x)
spans_left x r = ground arith

size_minus_lem : (a b : ℕ) → b ≤ a → a < 2 ^ 64 → size_minus a b + b ≡ a
size_minus_lem a b h u = omega (arith, h, u)

-- The count after `Decommit`, if it is called.
abbrev less_if_empty : ℕ → SlotSpan → ℕ
less_if_empty d s = if is_empty s then size_minus d (dirty_size s) else d

bytes-decommit_if_possible :
    (x : ℕ) (r : Root)
    → (decommit_if_possible x r).empty_slot_spans_dirty_bytes
      ≡ less_if_empty r.empty_slot_spans_dirty_bytes (update r.spans x (leave_cache (r.spans x)) x)
unfolding decommit_if_possible decommit_span
bytes-decommit_if_possible x r =
    let left = record r { spans = update r.spans x (leave_cache (r.spans x)) } in
    elim (Bool-cases (is_empty (left.spans x))) [
      | inl empty_span ↦ rw empty_span refl
      | inr in_use ↦ rw in_use refl
    ]

less_if_empty_lem :
    (d : ℕ) (s : SlotSpan) → weight s ≤ d → d < 2 ^ 64 → less_if_empty d s + weight s ≡ d
less_if_empty_lem d s h u = elim (Bool-cases (is_empty s)) [
  | inl empty_span ↦ rw empty_span (size_minus_lem d (dirty_size s) (rw empty_span at h) u)
  | inr in_use ↦ rw in_use (omega arith)
]

leave_cache_lem : (d : ℕ) (s : SlotSpan) → less_if_empty d (leave_cache s) ≡ less_if_empty d s
unfolding is_empty
leave_cache_lem d s = refl

decommit_if_possible_bytes :
    (x : ℕ) (r : Root)
    → weight (r.spans x) ≤ r.empty_slot_spans_dirty_bytes
    → r.empty_slot_spans_dirty_bytes < 2 ^ 64
    → (decommit_if_possible x r).empty_slot_spans_dirty_bytes + weight (r.spans x)
      ≡ r.empty_slot_spans_dirty_bytes
decommit_if_possible_bytes x r h u =
    let d = r.empty_slot_spans_dirty_bytes in
    omega (
      arith,
      bytes-decommit_if_possible x r,
      ap (less_if_empty d) (spans_left x r),
      leave_cache_lem d (r.spans x),
      less_if_empty_lem d (r.spans x) h u,
    )

-- A span that another one's decommit leaves alone.
decommit_if_possible_others :
    (x y : ℕ) (r : Root) → (y == x) ≡ false → (decommit_if_possible x r).spans y ≡ r.spans y
unfolding decommit_if_possible decommit_span
decommit_if_possible_others x y r other =
    let left = record r { spans = update r.spans x (leave_cache (r.spans x)) } in
    elim (Bool-cases (is_empty (left.spans x))) [
      | inl empty_span ↦ rw (empty_span, other) refl
      | inr in_use ↦ rw (in_use, other) refl
    ]

ring-decommit_if_possible :
    (x : ℕ) (r : Root)
    → (decommit_if_possible x r).ring ≡ update r.ring (r.spans x).empty_cache_index none
unfolding decommit_if_possible decommit_span
ring-decommit_if_possible x r =
    let left = record r { spans = update r.spans x (leave_cache (r.spans x)) } in
    elim (Bool-cases (is_empty (left.spans x))) [
      | inl empty_span ↦ rw empty_span refl
      | inr in_use ↦ rw in_use refl
    ]

cleared_here : (ring : ℕ → Option ℕ) (i : ℕ) → update ring i none i ≡ none
cleared_here ring i = ground arith

cleared_there : (ring : ℕ → Option ℕ) (i j : ℕ) → j ≢ i → update ring i none j ≡ ring j
cleared_there ring i j h = ground (arith, h)

-- What the entry at `j` counts for.
abbrev weight_in : Root → ℕ → ℕ
weight_in r j = weight_at r.spans (r.ring j)

ring_dirty_drop :
    (i : ℕ) (r r' : Root)
    → ((j : ℕ) → j ≢ i → weight_in r' j ≡ weight_in r j)
    → weight_in r' i ≡ 0
    → i < max_empty_slot_span_ring_size
    → ring_dirty r' + weight_in r i ≡ ring_dirty r
unfolding ring_dirty
ring_dirty_drop i r r' kept gone inside =
    sum_below_drop max_empty_slot_span_ring_size i (weight_in r) (weight_in r') kept gone inside

-- The count and the sum over the ring, before and after.
module _ (r r' : Root) (w : ℕ) (c : IsCovered r) (sum : ring_dirty r' + w ≡ ring_dirty r) where
  room : w ≤ r.empty_slot_spans_dirty_bytes
  room = let covered = c.ring in omega (arith, sum, covered)

  together : r'.empty_slot_spans_dirty_bytes + w ≡ r.empty_slot_spans_dirty_bytes → Falls r r'
  together bytes =
      let covered = c.ring in
      let small = c.small in
      record {
        covered = record {
          ring = omega (arith, sum, covered, bytes);
          small = omega (arith, bytes, small);
        };
        balance = omega (arith, sum, bytes);
      }

-- The entry that DecommitIfPossible takes out is the only one that counts for something else.
module _ (i x : ℕ) (r : Root) (v : IsRing r.ring r.spans) (at : r.ring i ≡ some x) where
  ring_is : (decommit_if_possible x r).ring ≡ update r.ring i none
  ring_is = ring-decommit_if_possible x r ∙ ap (λ k. update r.ring k none) (v.indexed i x at)

  gone : weight_in (decommit_if_possible x r) i ≡ 0
  gone =
      ap (λ ring. weight_at (decommit_if_possible x r).spans (ring i)) ring_is
      ∙ ap (weight_at (decommit_if_possible x r).spans) (cleared_here r.ring i)

  same_weight :
      (j : ℕ) (o : Option ℕ)
      → j ≢ i
      → r.ring j ≡ o
      → weight_at (decommit_if_possible x r).spans o ≡ weight_at r.spans o
  same_weight j none h e = refl
  same_weight j (some y) h e = elim (Bool-cases (y == x)) [
    | inr other ↦ ap weight (decommit_if_possible_others x y r other)
    | inl same ↦ absurd (
        h (
          sym (v.indexed j y e)
          ∙ (ap (λ z. (r.spans z).empty_cache_index) (eq_of_test y x same) ∙ v.indexed i x at)))
  ]

  kept : (j : ℕ) → j ≢ i → weight_in (decommit_if_possible x r) j ≡ weight_in r j
  kept j h =
      ap (λ ring. weight_at (decommit_if_possible x r).spans (ring j)) ring_is
      ∙ (ap (weight_at (decommit_if_possible x r).spans) (cleared_there r.ring i j h)
          ∙ same_weight j (r.ring j) h refl)

  decommit_if_possible-Falls :
      i < max_empty_slot_span_ring_size → IsCovered r → Falls r (decommit_if_possible x r)
  decommit_if_possible-Falls inside c =
      let dropped : ring_dirty (decommit_if_possible x r) + weight (r.spans x) ≡ ring_dirty r =
        ap (λ w. ring_dirty (decommit_if_possible x r) + w) (sym (ap (weight_at r.spans) at))
        ∙ ring_dirty_drop i r (decommit_if_possible x r) kept gone inside in
      together r (decommit_if_possible x r) (weight (r.spans x)) c dropped
        (decommit_if_possible_bytes x r (room r (decommit_if_possible x r) _ c dropped) c.small)

clear_entry-Falls :
    (i : ℕ) (r : Root)
    → IsRing r.ring r.spans
    → i < max_empty_slot_span_ring_size
    → IsCovered r
    → Falls r (clear_entry i r) × IsRing (clear_entry i r).ring (clear_entry i r).spans
unfolding clear_entry
clear_entry-Falls i r v inside c = elim (Option-cases (r.ring i)) [
  | inl e ↦ rw (e, clear_entry) (record { covered = c; balance = refl }, v)
  | inr (x, e) ↦
      rw (e, clear_entry)
        (
          decommit_if_possible-Falls i x r v e inside c,
          decommit_if_possible-IsRing x r (v.cached i x e) v,
        )
]

abbrev bytes : Root → ℕ
bytes r = r.empty_slot_spans_dirty_bytes

added : (a b c a' b' c' : ℕ) → b + a' ≡ a + b' → c + b' ≡ b + c' → c + a' ≡ a + c'
added a b c a' b' c' h k = omega (arith, h, k)

Falls-trans : (a b c : Root) → Falls a b → Falls b c → Falls a c
Falls-trans a b c p q = record {
  covered = q.covered;
  balance = added (bytes a) (bytes b) (bytes c) _ _ _ p.balance q.balance;
}

shrink_loop-Falls :
    (rounds limit i : ℕ) (r : Root)
    → IsRing r.ring r.spans
    → i < max_empty_slot_span_ring_size
    → IsCovered r
    → Falls r (shrink_loop rounds limit i r)
unfolding shrink_loop
shrink_loop-Falls zero limit i r v inside c = record { covered = c; balance = refl }
shrink_loop-Falls (suc rounds) limit i r v inside c =
    elim (Bool-cases (ltb limit r.empty_slot_spans_dirty_bytes)) [
      | inr low ↦ rw low (record { covered = c; balance = refl })
      | inl high ↦
          let (down, ring) = clear_entry-Falls i r v inside c in
          rw high (
            Falls-trans r (clear_entry i r) _ down (
              shrink_loop-Falls rounds limit (next_index max_empty_slot_span_ring_size i)
                (clear_entry i r) ring (next_in i inside) down.covered))
    ]

-- What ShrinkEmptySlotSpansRing leaves.
pub record Shrinks (limit : ℕ) (r r' : Root) : Type 0 where
  pub ring : Inv r'
  pub covered : IsCovered r'
  pub balance :
      r'.empty_slot_spans_dirty_bytes + ring_dirty r
      ≡ r.empty_slot_spans_dirty_bytes + ring_dirty r'
  pub enough :
      (r'.empty_slot_spans_dirty_bytes ≤ limit)
      ⊎ ((j : ℕ) → j < max_empty_slot_span_ring_size → r'.ring j ≡ none)

-- On a right ring whose empty spans have been counted as dirty, ShrinkEmptySlotSpansRing leaves such a
-- ring; it takes off the count exactly the dirty bytes of the empty spans that left the ring, without
-- wrapping around, and ends with a count of at most `limit` or with an empty ring.
pub shrink_empty_slot_spans_ring-Shrinks :
    (limit : ℕ) (r : Root)
    → Inv r
    → IsCovered r
    → Shrinks limit r (shrink_empty_slot_spans_ring limit r)
unfolding shrink_empty_slot_spans_ring
shrink_empty_slot_spans_ring-Shrinks limit r v c =
    let ended = shrink_lem limit r v in
    let down =
      shrink_loop-Falls max_empty_slot_span_ring_size limit r.ring_index r v.ring
        (omega (arith, v.index_in, v.size_in)) c in
    record { ring = ended.0; covered = down.covered; balance = down.balance; enough = ended.1 }
