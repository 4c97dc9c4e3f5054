-- ===== src/Bucket/Free.antt =====
-- FreeSlowPath: a span that was full or has become empty changes lists.
use partition_alloc.Base.{
  ◌>>=◌, ℕ, ◌+◌, ◌<◌, ◌≡◌, refl, sym, ◌∙◌, ap, inl, inr, Bool, true, false, ◌==◌, if◌then◌else◌,
  Option, none, some, length, arith, Bool-cases,
}
use partition_alloc.SlotSpan.{SlotSpan, is_direct_mapped}
use partition_alloc.Bucket.{
  Spans, Bucket, Root, update, mark_full, full_mod, set_new_active_slot_span, FreeResult, done,
  unmaps, crash, reactivate, replace_head, retire, free_slow_path, clear_raw_size, head_is,
  register_empty,
}
use partition_alloc.Bucket.Sweep.{SetsActive, set_new_active_slot_span-SetsActive}
use partition_alloc.Bucket.Entries.{Inv, IsRing-same, SamePlaces, eq_of_test}
use partition_alloc.Bucket.Ring.{register_empty-Inv}

Inv-same :
    (r : Root) (spans : Spans) → SamePlaces r.spans spans → Inv r → Inv (record r { spans = spans })
Inv-same r spans e v = record {
  ring = IsRing-same r.ring r.spans spans e v.ring;
  index_in = v.index_in;
  size_in = v.size_in;
}

-- The count of full spans is positive while a span is marked, and cannot overflow.
pub record Counts (x : ℕ) (b : Bucket) (r : Root) : Type 0 where
  pub marked_counted : (r.spans x).marked_full ≡ true → 0 < b.num_full_slot_spans
  pub room : b.num_full_slot_spans + length b.active < full_mod

abbrev pub HasRoom : Bucket → Type 0
HasRoom b = b.num_full_slot_spans + length b.active < full_mod

abbrev pub Keeps : Option (Bucket × Root) → Type 0
Keeps none = ⊥
Keeps (some (b, r)) = HasRoom b × Inv r

update-SamePlaces :
    (spans : Spans) (x : ℕ) (s : SlotSpan)
    → (s.in_empty_cache ≡ (spans x).in_empty_cache)
      × (s.empty_cache_index ≡ (spans x).empty_cache_index)
    → SamePlaces spans (update spans x s)
update-SamePlaces spans x s h y = elim (Bool-cases (y == x)) [
  | inl same ↦
      let e = sym (eq_of_test y x same) in
      rw same
        (h.0 ∙ ap (λ z. (spans z).in_empty_cache) e, h.1 ∙ ap (λ z. (spans z).empty_cache_index) e)
  | inr other ↦ rw other (refl, refl)
]

pub reactivate-Keeps :
    (x : ℕ) (b : Bucket) (r : Root) → Counts x b r → Inv r → Keeps (reactivate x b r)
unfolding reactivate
reactivate-Keeps x b r c v = elim (Bool-cases (r.spans x).marked_full) [
  | inr unmarked ↦ rw unmarked (c.room, v)
  | inl marked ↦
      let positive : (b.num_full_slot_spans == 0) ≡ false =
        ground (arith, c.marked_counted marked) in
      rw (marked, positive)
        (
          omega (arith, c.marked_counted marked, c.room),
          Inv-same r _
              (update-SamePlaces r.spans x (record (r.spans x) { marked_full = false })
                (refl, refl))
              v,
        )
]

Swept-SamePlaces :
    (s s' : SlotSpan) (b : Bool)
    → s' ≡ (if b then mark_full s else s)
    → (s'.in_empty_cache ≡ s.in_empty_cache) × (s'.empty_cache_index ≡ s.empty_cache_index)
Swept-SamePlaces s s' b e = ground (arith, e)

abbrev pub KeepsRing : Option (Bucket × Root) → Type 0
KeepsRing none = ⊥
KeepsRing (some (b, r)) = Inv r

replace_head-KeepsRing :
    (x : ℕ) (b : Bucket) (r : Root) → HasRoom b → Inv r → KeepsRing (replace_head x b r)
unfolding replace_head
replace_head-KeepsRing x b r room v = elim (Bool-cases (head_is x b.active)) [
  | inr other ↦ rw other v
  | inl head ↦ rw head (
      finish (set_new_active_slot_span b r.spans)
        (set_new_active_slot_span-SetsActive b r.spans room))
]
  where
    finish :
        (o : Option (Bucket × Spans × Bool))
        → SetsActive b r.spans o
        → KeepsRing (o >>= (λ t. some (t.0, record r { spans = t.1 })))
    finish none h = h
    finish (some (b', spans', found)) h =
        Inv-same r spans' (λ y. Swept-SamePlaces (r.spans y) (spans' y) _ (h.0.marks y)) v

-- What FreeSlowPath may end with.
abbrev pub Ends : FreeResult → Type 0
Ends (done b r) = Inv r
Ends (unmaps b r) = Inv r
Ends crash = ⊥

clear_raw_size-places :
    (s : SlotSpan)
    → ((clear_raw_size s).in_empty_cache ≡ s.in_empty_cache)
      × ((clear_raw_size s).empty_cache_index ≡ s.empty_cache_index)
clear_raw_size-places s = ground arith

pub retire-Ends : (x : ℕ) (b : Bucket) (r : Root) → HasRoom b → Inv r → Ends (retire x b r)
unfolding retire
retire-Ends x b r room v = elim (Bool-cases (is_direct_mapped (r.spans x).bucket)) [
  | inl direct ↦ rw direct v
  | inr bucketed ↦ rw bucketed (finish (replace_head x b r) (replace_head-KeepsRing x b r room v))
]
  where
    finish :
        (o : Option (Bucket × Root))
        → KeepsRing o
        → Ends (elim o [
          | none ↦ crash
          | some (b', r') ↦ done b' (
              register_empty x
                (record r' { spans = update r'.spans x (clear_raw_size (r'.spans x)) }))
        ])
    finish none h = h
    finish (some (b', r')) h =
        register_empty-Inv x _
          (Inv-same r' _ (update-SamePlaces r'.spans x _ (clear_raw_size-places (r'.spans x))) h)

-- Where a marked span is counted as full and the count has room, FreeSlowPath passes its PA_CHECKs,
-- and leaves the ring of empty spans right, whether the span has gone back to the active list, has
-- been retired to the ring, or is handed over to be unmapped.
pub free_slow_path-Ends :
    (x : ℕ) (b : Bucket) (r : Root) → Counts x b r → Inv r → Ends (free_slow_path x b r)
unfolding free_slow_path
free_slow_path-Ends x b r c v = finish (reactivate x b r) (reactivate-Keeps x b r c v)
  where
    finish :
        (o : Option (Bucket × Root))
        → Keeps o
        → Ends (elim o [
          | none ↦ crash
          | some (b', r') ↦
              if (r'.spans x).num_allocated_slots == 0 then retire x b' r' else done b' r'
        ])
    finish none h = h
    finish (some (b', r')) h = elim (Bool-cases ((r'.spans x).num_allocated_slots == 0)) [
      | inl unused ↦ rw unused (retire-Ends x b' r' h.0 h.1)
      | inr used ↦ rw used h.1
    ]
