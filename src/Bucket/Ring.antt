-- ===== src/Bucket/Ring.antt =====
-- The ring of empty slot spans: RegisterEmpty, DecommitIfPossible and ShrinkEmptySlotSpansRing.
use partition_alloc.Base.{
  ℕ, zero, suc, min, ◌+◌, ◌-◌, ◌/◌, ◌^◌, ◌%◌, ◌≤◌, ◌<◌, ◌≡◌, ◌≢◌, refl, sym, ◌∙◌, ap, subst, ◌⊎◌,
  inl, inr, false, ltb, ◌==◌, Option, none, arith, Bool-cases, Option-cases, ltb→le,
}
use partition_alloc.SlotSpan.{dirty_size, is_empty}
use partition_alloc.Bucket.{
  Root, update, decommit_span, leave_cache, decommit_if_possible, clear_entry, next_index,
  shrink_loop, shrink_empty_slot_spans_ring, max_empty_slot_span_ring_size, enter_ring, limit_dirty,
  register_empty,
}
use partition_alloc.Bucket.Entries.{
  IsRing, Inv, eq_of_test, ne_of_test, IsRing-enter, decommit_span-SamePlaces,
  decommit_if_possible-IsRing,
}

-- An entry that was free stays free, and the ring's size and index stay.
record Shrunk (r r' : Root) : Type 0 where
  index : r'.ring_index ≡ r.ring_index
  size : r'.ring_size ≡ r.ring_size
  free : (j : ℕ) → r.ring j ≡ none → r'.ring j ≡ none

Shrunk-trans : (a b c : Root) → Shrunk a b → Shrunk b c → Shrunk a c
Shrunk-trans a b c p q = record {
  index = q.index ∙ p.index;
  size = q.size ∙ p.size;
  free = λ j e. q.free j (p.free j e);
}

Shrunk-refl : (r : Root) → Shrunk r r
Shrunk-refl r = record { index = refl; size = refl; free = λ j e. e }

update-none : (ring : ℕ → Option ℕ) (k j : ℕ) → ring j ≡ none → update ring k none j ≡ none
update-none ring k j e = ground (arith, e)

update_self : (ring : ℕ → Option ℕ) (k : ℕ) → update ring k none k ≡ none
update_self ring k = ground arith

decommit_if_possible-Shrunk :
    (x : ℕ) (r : Root)
    → Shrunk r (decommit_if_possible x r)
      × ((decommit_if_possible x r).ring (r.spans x).empty_cache_index ≡ none)
unfolding decommit_if_possible decommit_span
decommit_if_possible-Shrunk x r =
    let i = (r.spans x).empty_cache_index in
    let left = record r { spans = update r.spans x (leave_cache (r.spans x)) } in
    elim (Bool-cases (is_empty (left.spans x))) [
      | inl empty_span ↦
          rw empty_span (
            record { index = refl; size = refl; free = update-none r.ring i },
            update_self r.ring i,
          )
      | inr in_use ↦
          rw in_use (
            record { index = refl; size = refl; free = update-none r.ring i },
            update_self r.ring i,
          )
    ]

-- What clearing an entry gives.
record Cleared (i : ℕ) (r r' : Root) : Type 0 where
  shrunk : Shrunk r r'
  gone : r'.ring i ≡ none
  ring : IsRing r'.ring r'.spans

clear_entry-Cleared : (i : ℕ) (r : Root) → IsRing r.ring r.spans → Cleared i r (clear_entry i r)
unfolding clear_entry
clear_entry-Cleared i r v = elim (Option-cases (r.ring i)) [
  | inl e ↦ rw (e, clear_entry) (record { shrunk = Shrunk-refl r; gone = e; ring = v })
  | inr (x, e) ↦
      let (shrunk, gone) = decommit_if_possible-Shrunk x r in
      rw (e, clear_entry)
        (record {
          shrunk = shrunk;
          gone = ap (decommit_if_possible x r).ring (sym (v.indexed i x e)) ∙ gone;
          ring = decommit_if_possible-IsRing x r (v.cached i x e) v;
        })
]

-- The distance from `i` to `j` round the ring.
abbrev distance : ℕ → ℕ → ℕ
distance i j = (j + max_empty_slot_span_ring_size - i) % max_empty_slot_span_ring_size

record Looped (rounds limit i : ℕ) (r r' : Root) : Type 0 where
  shrunk : Shrunk r r'
  ring : IsRing r'.ring r'.spans
  enough :
      (r'.empty_slot_spans_dirty_bytes ≤ limit)
      ⊎ ((j : ℕ) → j < max_empty_slot_span_ring_size → distance i j < rounds → r'.ring j ≡ none)

pub next_in :
    (i : ℕ)
    → i < max_empty_slot_span_ring_size
    → next_index max_empty_slot_span_ring_size i < max_empty_slot_span_ring_size
next_in i h = ground arith

closer :
    (i j rounds : ℕ)
    → i < max_empty_slot_span_ring_size
    → j < max_empty_slot_span_ring_size
    → j ≢ i
    → distance i j < suc rounds
    → distance (next_index max_empty_slot_span_ring_size i) j < rounds
closer i j rounds h u ne d = ground arith

shrink_loop-Looped :
    (rounds limit i : ℕ) (r : Root)
    → i < max_empty_slot_span_ring_size
    → IsRing r.ring r.spans
    → Looped rounds limit i r (shrink_loop rounds limit i r)
unfolding shrink_loop
shrink_loop-Looped zero limit i r h v = record {
  shrunk = Shrunk-refl r;
  ring = v;
  enough = inr λ j u d. absurd (omega arith);
}
shrink_loop-Looped (suc rounds) limit i r h v =
    let next = next_index max_empty_slot_span_ring_size i in
    let cleared = clear_entry-Cleared i r v in
    let rest = shrink_loop-Looped rounds limit next (clear_entry i r) (next_in i h) cleared.ring in
    elim (Bool-cases (ltb limit r.empty_slot_spans_dirty_bytes)) [
      | inr low ↦
          rw low (record { shrunk = Shrunk-refl r; ring = v; enough = inl (ltb→le _ _ low) })
      | inl high ↦ rw high (record {
        shrunk = Shrunk-trans r (clear_entry i r) _ cleared.shrunk rest.shrunk;
        ring = rest.ring;
        enough = elim rest.enough [
          | inl low ↦ inl low
          | inr empty ↦ inr λ j u d. elim (Bool-cases (j == i)) [
            | inl here ↦
                subst (λ k. (shrink_loop rounds limit next (clear_entry i r)).ring k ≡ none)
                  (sym (eq_of_test j i here)) (rest.shrunk.free i cleared.gone)
            | inr there ↦ empty j u (closer i j rounds h u (ne_of_test j i there) d)
          ]
        ];
      })
    ]

-- On a right ring, ShrinkEmptySlotSpansRing leaves a right one, and ends with at most `limit` dirty
-- bytes in empty spans, or with an empty ring.
pub shrink_lem :
    (limit : ℕ) (r : Root)
    → Inv r
    → let r' = shrink_empty_slot_spans_ring limit r in
      Inv r'
      × ((r'.empty_slot_spans_dirty_bytes ≤ limit)
          ⊎ ((j : ℕ) → j < max_empty_slot_span_ring_size → r'.ring j ≡ none))
unfolding shrink_empty_slot_spans_ring
shrink_lem limit r v =
    let l =
      shrink_loop-Looped max_empty_slot_span_ring_size limit r.ring_index r
        (omega (arith, v.index_in, v.size_in)) v.ring in
    (
      record {
        ring = l.ring;
        index_in = omega (arith, l.shrunk.index, l.shrunk.size, v.index_in);
        size_in = omega (arith, l.shrunk.size, v.size_in);
      },
      elim l.enough [ inl low ↦ inl low | inr empty ↦ inr λ j u. empty j u (omega arith) ],
    )

decommit_if_possible-out :
    (x y : ℕ) (r : Root)
    → (r.spans y).in_empty_cache ≡ false
    → ((decommit_if_possible x r).spans y).in_empty_cache ≡ false
unfolding decommit_if_possible
decommit_if_possible-out x y r out =
    let left = record r { spans = update r.spans x (leave_cache (r.spans x)) } in
    let gone : (left.spans y).in_empty_cache ≡ false = left_out in
    elim (Bool-cases (is_empty (left.spans x))) [
      | inl empty_span ↦ rw empty_span ((decommit_span-SamePlaces x left y).0 ∙ gone)
      | inr in_use ↦ rw in_use gone
    ]
  where
    left_out : (update r.spans x (leave_cache (r.spans x)) y).in_empty_cache ≡ false
    left_out = elim (Bool-cases (y == x)) [ inl same ↦ rw same | inr other ↦ rw other out ]

clear_entry-out :
    (i y : ℕ) (r : Root)
    → (r.spans y).in_empty_cache ≡ false
    → ((clear_entry i r).spans y).in_empty_cache ≡ false
unfolding clear_entry
clear_entry-out i y r out = elim (Option-cases (r.ring i)) [
  | inl e ↦ rw (e, clear_entry) out
  | inr (x, e) ↦ rw (e, clear_entry) (decommit_if_possible-out x y r out)
]

enter_ring-Inv :
    (x : ℕ) (r : Root)
    → Inv r
    → (r.spans x).in_empty_cache ≡ false
    → r.ring r.ring_index ≡ none
    → Inv (enter_ring x r)
unfolding enter_ring
enter_ring-Inv x r v out free = record {
  ring = IsRing-enter r.ring r.spans x r.ring_index out free v.ring;
  index_in = ground (arith, v.index_in);
  size_in = v.size_in;
}

limit_dirty-Inv : (r : Root) → Inv r → Inv (limit_dirty r)
unfolding limit_dirty
limit_dirty-Inv r v =
    let most = r.total_size_of_committed_pages / 2 ^ r.max_empty_slot_spans_dirty_bytes_shift in
    elim (Bool-cases (ltb most r.empty_slot_spans_dirty_bytes)) [
      | inl high ↦ rw high (shrink_lem (min (r.empty_slot_spans_dirty_bytes / 2) most) r v).0
      | inr low ↦ rw low v
    ]

-- RegisterEmpty, on whatever span, leaves a right ring right: every entry is the span that says that
-- it is there, also after the entry in the way and the ones over the limit have been decommitted.
pub register_empty-Inv : (x : ℕ) (r : Root) → Inv r → Inv (register_empty x r)
unfolding register_empty
register_empty-Inv x r v = elim (Bool-cases (r.spans x).in_empty_cache) [
  | inl cached ↦ rw cached counted-Inv
  | inr out ↦
      let c = clear_entry-Cleared r.ring_index counted v.ring in
      let cleared = clear_entry r.ring_index counted in
      rw out (
        limit_dirty-Inv _ (
          enter_ring-Inv x cleared
            (record {
              ring = c.ring;
              index_in = omega (arith, c.shrunk.index, c.shrunk.size, v.index_in);
              size_in = omega (arith, c.shrunk.size, v.size_in);
            })
            (clear_entry-out r.ring_index x counted out) (ap cleared.ring c.shrunk.index ∙ c.gone)))
]
  where
    counted : Root
    counted = record r {
      empty_slot_spans_dirty_bytes = r.empty_slot_spans_dirty_bytes + dirty_size (r.spans x);
      nonempty_slot_spans = r.nonempty_slot_spans - 1;
    }

    counted-Inv : Inv counted
    counted-Inv = record { ring = v.ring; index_in = v.index_in; size_in = v.size_in }
