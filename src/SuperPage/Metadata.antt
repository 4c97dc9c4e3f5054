-- ===== src/SuperPage/Metadata.antt =====
-- The two loops over the metadata of partition pages.
use partition_alloc.Base.{
  ℕ, zero, suc, ◌+◌, ◌-◌, ◌≤◌, ◌<◌, ◌≡◌, refl, ◌∙◌, ap, inl, inr, true, false, ◌==◌, if◌then◌else◌,
  some, arith, Bool-cases, if_true, if_false, ◌||◌, ltb, ◌/◌,
}
use partition_alloc.Bucket.{update}
use partition_alloc.Pool.Find.{in_range}
use partition_alloc.SlotSpan.{max_slots_per_slot_span, Geometry, get_slots_per_span}
use partition_alloc.SuperPage.{
  PageMetadata, mark_gap, set_offsets, Pages, ok, partition_page_size,
  max_slot_span_metadata_offset, get_pages_per_slot_span, reservation_size, carve, place_span,
}
use partition_alloc.SuperPage.Invariant.{Fits}

abbrev pub Metadata : Type 0
Metadata = ℕ → PageMetadata

-- Which pages belong to a span, and which page of it they are.
abbrev pub SameSpans : Metadata → Metadata → Type 0
SameSpans m m' =
    (y : ℕ)
    → ((m' y).is_valid ≡ (m y).is_valid)
      × ((m' y).slot_span_metadata_offset ≡ (m y).slot_span_metadata_offset)

update-SameSpans :
    (m : Metadata) (page : ℕ)
    → SameSpans m (update m page (record (m page) { has_valid_span_after_this = true }))
update-SameSpans m page y = elim (Bool-cases (y == page)) [
  | inl same ↦
      let e : page ≡ y = ground arith in
      rw same (ap (λ z. (m z).is_valid) e, ap (λ z. (m z).slot_span_metadata_offset) e)
  | inr other ↦ rw other (refl, refl)
]

-- The check of a gap that no span uses does not fail, and the marks change no span.
pub mark_gap-SameSpans :
    (n page : ℕ) (m : Metadata)
    → ((y : ℕ) → page ≤ y → y < page + n → (m y).is_valid ≡ false)
    → (m' : Metadata) × (mark_gap n page m ≡ some m') × SameSpans m m'
unfolding mark_gap
mark_gap-SameSpans zero page m free = (m, refl, λ y. (refl, refl))
mark_gap-SameSpans (suc n) page m free =
    let marked = update m page (record (m page) { has_valid_span_after_this = true }) in
    let same = update-SameSpans m page in
    let (m', e, h) =
      mark_gap-SameSpans n (page + 1) marked
        (λ y l u. (same y).0 ∙ free y (omega arith) (omega arith)) in
    (
      m',
      if_false _ _ _ (free page (omega arith) (omega arith)) ∙ e,
      λ y. ((h y).0 ∙ (same y).0, (h y).1 ∙ (same y).1),
    )

abbrev pub page_of_span : ℕ → PageMetadata → PageMetadata
page_of_span i x = record x { slot_span_metadata_offset = i; is_valid = true }

-- Each page of the span holds how far it is from the first one, and no other page changes.
pub set_offsets_lem :
    (n i page : ℕ) (m : Metadata) (y : ℕ)
    → set_offsets n i page m y
      ≡ (if in_range (page + i) n y then page_of_span (y - page) (m y) else m y)
unfolding set_offsets
set_offsets_lem zero i page m y = ground arith
set_offsets_lem (suc n) i page m y =
    set_offsets_lem n (i + 1) page (update m (page + i) (page_of_span i (m (page + i)))) y
    ∙ elim (Bool-cases (y == page + i)) [
      | inl same ↦
          let e : page + i ≡ y = ground arith in
          let past : in_range (page + (i + 1)) n y ≡ false = ground arith in
          let inside : in_range (page + i) (suc n) y ≡ true = ground arith in
          let at : i ≡ y - page = omega arith in rw (same, past, inside) (cc (at, e))
      | inr other ↦ rw other (ground arith)
    ]

-- The `count` pages from `page` on, which belonged to no span, have become a span; the others are as
-- they were.
pub record Placed (count page : ℕ) (m m' : Metadata) : Type 0 where
  pub free_before : (y : ℕ) → page ≤ y → y < page + count → (m y).is_valid ≡ false
  pub found :
      (y : ℕ)
      → page ≤ y
      → y < page + count
      → ((m' y).is_valid ≡ true) × ((m' y).slot_span_metadata_offset ≡ y - page)
  pub others :
      (y : ℕ)
      → in_range page count y ≡ false
      → ((m' y).is_valid ≡ (m y).is_valid)
        × ((m' y).slot_span_metadata_offset ≡ (m y).slot_span_metadata_offset)

pub set_offsets-Placed :
    (count page : ℕ) (m m1 : Metadata)
    → SameSpans m m1
    → ((y : ℕ) → page ≤ y → y < page + count → (m y).is_valid ≡ false)
    → Placed count page m (set_offsets count 0 page m1)
set_offsets-Placed count page m m1 same free = record {
  free_before = free;
  found = λ y l u.
      let inside : in_range (page + 0) count y ≡ true = ground arith in
      let e = set_offsets_lem count 0 page m1 y ∙ if_true _ _ _ inside in
      (
        ap (λ (x : PageMetadata). x.is_valid) e,
        ap (λ (x : PageMetadata). x.slot_span_metadata_offset) e,
      );
  others = λ y h.
      let outside : in_range (page + 0) count y ≡ false = ground arith in
      let e = set_offsets_lem count 0 page m1 y ∙ if_false _ _ _ outside in
      (
        ap (λ (x : PageMetadata). x.is_valid) e ∙ (same y).0,
        ap (λ (x : PageMetadata). x.slot_span_metadata_offset) e ∙ (same y).1,
      );
}

-- The pages from the next one up to the end of the span belong to no span.
pub record Room (g : Geometry) (start : ℕ) (p : Pages) : Type 0 where
  pub behind : p.next_partition_page / partition_page_size ≤ start / partition_page_size
  pub free :
      (y : ℕ)
      → p.next_partition_page / partition_page_size ≤ y
      → y < start / partition_page_size + get_pages_per_slot_span g
      → (p.metadata y).is_valid ≡ false

abbrev pub after_carve : Geometry → ℕ → Pages → Metadata → Pages
after_carve g start p m = record p {
  next_partition_page = start + reservation_size g;
  metadata = m;
}

-- Where there is room for the span, the end of AllocNewSlotSpan fails no check and makes it.
pub carve-Placed :
    (g : Geometry) (alignment start : ℕ) (p : Pages)
    → Fits g alignment
    → Room g start p
    → (m : Metadata) × (carve g start p ≡ ok start (after_carve g start p m))
      × Placed (get_pages_per_slot_span g) (start / partition_page_size) p.metadata m
unfolding carve place_span
carve-Placed g alignment start p f r =
    let page = start / partition_page_size in
    let first = p.next_partition_page / partition_page_size in
    let (m1, e1, same) =
      mark_gap-SameSpans (page - first) first p.metadata
        (λ y l u. r.free y l (omega (arith, r.behind, f.some_pages))) in
    let passes : (get_slots_per_span g == 0
          || (ltb max_slots_per_slot_span (get_slots_per_span g)
              || ltb (max_slot_span_metadata_offset + 1) (get_pages_per_slot_span g)))
        ≡ false =
      ground (arith, f.some_slots, f.few_slots, f.few_pages) in
    (
      set_offsets (get_pages_per_slot_span g) 0 page m1,
      ap (place_span g start p) e1 ∙ if_false _ _ _ passes,
      set_offsets-Placed (get_pages_per_slot_span g) page p.metadata m1 same
          (λ y l u. r.free y (omega (arith, r.behind)) u),
    )
