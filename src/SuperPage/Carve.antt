-- ===== src/SuperPage/Carve.antt =====
-- AllocNewSlotSpan as a whole: where the new span lies, and which span an address belongs to.
use native.Mathlib.Nat.{mul_assoc}
use partition_alloc.Base.{
  ℕ, ◌+◌, ◌-◌, ◌*◌, ◌/◌, ◌%◌, ◌≤◌, ◌≡◌, refl, sym, ap, ◌∙◌, inl, inr, Bool, true, false, not, ◌||◌,
  ltb, ◌==◌, arith, Bool-cases, if_true, if_false, subst, ltb→le, ltb_not,
}
use partition_alloc.SlotSpan.{Geometry}
use partition_alloc.SuperPage.{
  Pages, PageMetadata, Outcome, ok, null, out_of_memory, crash, zeroed, partition_page_size,
  align_up, num_partition_pages_per_super_page, get_pages_per_slot_span, carve,
  adjusted_next_partition_page, needs_super_page, carve_new, alloc_new_slot_span,
}
use partition_alloc.SuperPage.Invariant.{page_at, Current, untouched, within, Ready, Fits}
use partition_alloc.SuperPage.Begin.{Grown, AllUsed}
use partition_alloc.SuperPage.Grow.{Grows, alloc_new_super_page-Grows}
use partition_alloc.SuperPage.Place.{
  align_up-Aligns, align_up-begin, KeepsSpans, Carves, start_at, carved, carved-Carves,
}

-- What AllocNewSlotSpan may end with, where a failed check is none of it.
abbrev pub Carved : ℕ → Geometry → ℕ → Bool → Pages → Outcome ℕ → Type 0
Carved base g alignment return_null p (ok start q) = Carves base g alignment p start q
Carved base g alignment return_null p (null q) =
    (return_null ≡ true)
    × (needs_super_page g alignment p ≡ true)
    × AllUsed p.pool
    × Ready base q
    × (q.next_partition_page ≡ p.next_partition_page)
    × (q.metadata ≡ p.metadata)
Carved base g alignment return_null p out_of_memory =
    (return_null ≡ false) × (needs_super_page g alignment p ≡ true) × AllUsed p.pool
Carved base g alignment return_null p crash = ⊥

-- Where the span fits between the next page and the end.
fitting-Carved :
    (base : ℕ) (g : Geometry) (alignment : ℕ) (return_null : Bool) (p0 p : Pages)
    → Fits g alignment
    → Ready base p
    → KeepsSpans p0.metadata p.metadata
    → needs_super_page g alignment p ≡ false
    → Current base p
    → Carved base g alignment return_null p0 (carve g (adjusted_next_partition_page alignment p) p)
unfolding needs_super_page
fitting-Carved base g alignment return_null p0 p f v keeps fits (untouched e h) =
    absurd (omega (arith, ltb→le _ _ fits, h, f.some_pages))
fitting-Carved base g alignment return_null p0 p f v keeps fits
      (within b t used l u at end_at free) =
    let a =
      align_up-Aligns p.next_partition_page alignment (omega (arith, f.unit_pos, f.unit_eq)) in
    let n = a.times * f.unit in
    let pages : align_up p.next_partition_page alignment ≡ n * partition_page_size =
      a.times_eq ∙ ap (λ x. a.times * x) f.unit_eq ∙ sym (mul_assoc a.times f.unit _) in
    let fits_in = ltb→le _ _ fits in
    let k = n - (base + b) * num_partition_pages_per_super_page in
    let at_k : start_at base b k ≡ align_up p.next_partition_page alignment =
      omega (arith, pages, a.above, at) in
    let place : t ≤ k = omega (arith, pages, a.above, at) in
    let room : k + get_pages_per_slot_span g ≤ 127 = omega (arith, pages, fits_in, end_at) in
    subst (λ x. Carved base g alignment return_null p0 (carve g x p)) at_k
      (subst (Carved base g alignment return_null p0)
        (sym (carved base g alignment f p b t k v used at end_at free l place room).1)
        (carved-Carves base g alignment f p b t k v used at end_at free l place room p0 a.times
          keeps (at_k ∙ a.times_eq)))

same_valid :
    (m m' : PageMetadata)
    → m' ≡ m
    → (m'.is_valid ≡ m.is_valid)
      × (m.is_valid ≡ true → m'.slot_span_metadata_offset ≡ m.slot_span_metadata_offset)
same_valid m m' e = (
  ap (λ (x : PageMetadata). x.is_valid) e,
  λ h. ap (λ (x : PageMetadata). x.slot_span_metadata_offset) e,
)

zeroed_valid :
    (m m' : PageMetadata)
    → m.is_valid ≡ false
    → m' ≡ zeroed
    → (m'.is_valid ≡ m.is_valid)
      × (m.is_valid ≡ true → m'.slot_span_metadata_offset ≡ m.slot_span_metadata_offset)
zeroed_valid m m' free e = (ap (λ (x : PageMetadata). x.is_valid) e ∙ sym free, λ h. cc)

Grown-KeepsSpans :
    (base b : ℕ) (p q : Pages) → Ready base p → Grown base b p q → KeepsSpans p.metadata q.metadata
Grown-KeepsSpans base b p q v g y =
    elim (Bool-cases (y / num_partition_pages_per_super_page == base + b)) [
      | inl new ↦
          let at : y / num_partition_pages_per_super_page ≡ base + b = ground arith in
          zeroed_valid (p.metadata y) (q.metadata y) (v.unowned b y g.free_before at)
            (g.metadata y ∙ if_true _ _ _ new)
      | inr other ↦ same_valid (p.metadata y) (q.metadata y) (g.metadata y ∙ if_false _ _ _ other)
    ]

-- A span fits in a super page that has just been taken.
Grown-has_room :
    (base b : ℕ) (g : Geometry) (alignment : ℕ) (p q : Pages)
    → Fits g alignment
    → Grown base b p q
    → needs_super_page g alignment q ≡ false
unfolding needs_super_page
Grown-has_room base b g alignment p q f h =
    let start =
      align_up-begin ((base + b) * f.times) alignment q.next_partition_page
        (omega (arith, f.unit_pos, f.unit_eq))
        (omega (
          arith,
          h.next_at,
          mul_assoc (base + b) f.times alignment,
          ap (λ x. (base + b) * x) f.times_eq,
        )) in
    ltb_not _ _ (
      omega (
        arith,
        start,
        h.end_at,
        mul_assoc (base + b) f.times alignment,
        ap (λ x. (base + b) * x) f.times_eq,
        f.unit_eq,
        f.room,
      ))

grown-Carved :
    (base : ℕ) (g : Geometry) (alignment : ℕ) (return_null : Bool) (p : Pages) (o : Outcome ℕ)
    → Fits g alignment
    → Ready base p
    → needs_super_page g alignment p ≡ true
    → Grows base return_null p o
    → Carved base g alignment return_null p (carve_new g alignment o)
unfolding carve_new
grown-Carved base g alignment return_null p (ok payload q) f v needs (b, h) =
    let fits = Grown-has_room base b g alignment p q f h in
    subst (Carved base g alignment return_null p) (sym (if_false _ _ _ fits)) (
      fitting-Carved base g alignment return_null p q f h.ready (Grown-KeepsSpans base b p q v h)
        fits h.ready.current)
grown-Carved base g alignment return_null p (null q) f v needs (e, used, ready, same, kept) =
    (e, needs, used, ready, same, kept)
grown-Carved base g alignment return_null p out_of_memory f v needs (e, used) = (e, needs, used)
grown-Carved base g alignment return_null p crash f v needs h = h

whole_page : (x n : ℕ) → x ≡ n * partition_page_size → not (x % partition_page_size == 0) ≡ false
whole_page x n e = let rest : x % partition_page_size ≡ 0 = omega arith in ground arith

whole_pages :
    (base : ℕ) (p : Pages)
    → Current base p
    → (not (p.next_partition_page % partition_page_size == 0) ≡ false)
      × (not (p.next_partition_page_end % partition_page_size == 0) ≡ false)
whole_pages base p (untouched e h) = rw (e, h) (refl, refl)
whole_pages base p (within b t used l u at end_at free) =
    (whole_page _ (page_at (base + b) t) at, whole_page _ (page_at (base + b) 127) end_at)

-- On the pages of a root that are ready, and for a geometry and an alignment that fit in a super page,
-- AllocNewSlotSpan fails no check. It makes a span that is aligned, lies between the first and the
-- last page of a super page in use, and is made of pages that belonged to no span; every other page
-- belongs to the span it belonged to, and the pages are ready again. Only where the super page has no
-- room left for the span and the pool has no free super page, it returns a null pointer if that was
-- asked for, with the pages ready and as they were, and else runs out of memory.
pub alloc_new_slot_span-Carved :
    (base : ℕ) (g : Geometry) (alignment : ℕ) (return_null : Bool) (p : Pages)
    → Fits g alignment
    → Ready base p
    → Carved base g alignment return_null p (alloc_new_slot_span g alignment return_null p)
unfolding alloc_new_slot_span
alloc_new_slot_span-Carved base g alignment return_null p f v =
    let whole = whole_pages base p v.current in
    let passes : (not (p.next_partition_page % partition_page_size == 0)
          || (not (p.next_partition_page_end % partition_page_size == 0)
              || ltb num_partition_pages_per_super_page (get_pages_per_slot_span g)))
        ≡ false =
      ground (arith, whole.0, whole.1, f.few_pages) in
    subst (Carved base g alignment return_null p) (sym (if_false _ _ _ passes))
      (elim (Bool-cases (needs_super_page g alignment p)) [
        | inl needs ↦ subst (Carved base g alignment return_null p) (sym (if_true _ _ _ needs)) (
            grown-Carved base g alignment return_null p _ f v needs
              (alloc_new_super_page-Grows base return_null p v))
        | inr fits ↦ subst (Carved base g alignment return_null p) (sym (if_false _ _ _ fits)) (
            fitting-Carved base g alignment return_null p p f v (λ y. (refl, λ h. refl)) fits
              v.current)
      ])
