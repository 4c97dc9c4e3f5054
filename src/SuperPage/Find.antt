-- ===== src/SuperPage/Find.antt =====
-- The span that an address belongs to, across calls of AllocNewSlotSpan.
use partition_alloc.Base.{
  ℕ, ◌+◌, ◌-◌, ◌/◌, ◌≤◌, ◌<◌, ◌≡◌, sym, ap, ◌∙◌, inl, inr, Bool, true, some, arith, Bool-cases,
  subst,
}
use partition_alloc.SlotSpan.{Geometry}
use partition_alloc.Pool.Find.{in_range}
use partition_alloc.SuperPage.{
  Pages, PageMetadata, Outcome, ok, null, out_of_memory, crash, partition_page_size,
  get_pages_per_slot_span, reservation_size, alloc_new_slot_span, checked_first, from_addr,
}
use partition_alloc.SuperPage.Invariant.{Ready, Fits}
use partition_alloc.SuperPage.Metadata.{Metadata}
use partition_alloc.SuperPage.Place.{Carves}
use partition_alloc.SuperPage.Carve.{Carved, alloc_new_slot_span-Carved}

-- What it takes of the metadata for an address to lead to the page `first`.
record Leads (m : Metadata) (page first : ℕ) : Type 0 where
  valid : (m page).is_valid ≡ true
  first_eq : page - (m page).slot_span_metadata_offset ≡ first
  first_valid : (m first).is_valid ≡ true
  first_offset : (m first).slot_span_metadata_offset ≡ 0

checked_first_of :
    (at first : PageMetadata) (page : ℕ)
    → at.is_valid ≡ true
    → first.is_valid ≡ true
    → first.slot_span_metadata_offset ≡ 0
    → checked_first at first page ≡ some page
unfolding checked_first
checked_first_of at first page valid first_valid first_offset = ground arith

checked_first-facts :
    (at first : PageMetadata) (page f : ℕ)
    → checked_first at first page ≡ some f
    → (at.is_valid ≡ true)
      × (page ≡ f)
      × (first.is_valid ≡ true)
      × (first.slot_span_metadata_offset ≡ 0)
unfolding checked_first
checked_first-facts at first page f e = (ground arith, ground arith, ground arith, ground arith)

from_addr-eq_of :
    (m : Metadata) (address first : ℕ)
    → Leads m (address / partition_page_size) first
    → from_addr m address ≡ some first
unfolding from_addr
from_addr-eq_of m address first h =
    ap (λ f. checked_first (m (address / partition_page_size)) (m f) f) h.first_eq
    ∙ checked_first_of (m (address / partition_page_size)) (m first) first h.valid h.first_valid
        h.first_offset

from_addr-Leads :
    (m : Metadata) (address first : ℕ)
    → from_addr m address ≡ some first
    → Leads m (address / partition_page_size) first
unfolding from_addr
from_addr-Leads m address first e =
    let page = address / partition_page_size in
    let h =
      checked_first-facts (m page) (m (page - (m page).slot_span_metadata_offset)) _ first e in
    record {
      valid = h.0;
      first_eq = h.1;
      first_valid = subst (λ x. (m x).is_valid ≡ true) h.1 h.2;
      first_offset = subst (λ x. (m x).slot_span_metadata_offset ≡ 0) h.1 h.3;
    }

-- A page that belonged to a span is none of those of a new one, and is as it was.
unchanged :
    (base : ℕ) (g : Geometry) (alignment : ℕ) (p q : Pages) (start y : ℕ)
    → Carves base g alignment p start q
    → (p.metadata y).is_valid ≡ true
    → ((q.metadata y).is_valid ≡ true)
      × ((q.metadata y).slot_span_metadata_offset ≡ (p.metadata y).slot_span_metadata_offset)
unchanged base g alignment p q start y c valid =
    elim (Bool-cases (in_range c.page (get_pages_per_slot_span g) y)) [
      | inl inside ↦ cc (valid, c.free_before y (ground arith) (ground arith))
      | inr outside ↦ ((c.others y outside).0 ∙ valid, (c.others y outside).1 valid)
    ]

kept-Leads :
    (base : ℕ) (g : Geometry) (alignment : ℕ) (p q : Pages) (start page first : ℕ)
    → Carves base g alignment p start q
    → Leads p.metadata page first
    → Leads q.metadata page first
kept-Leads base g alignment p q start page first c h =
    let at = unchanged base g alignment p q start page c h.valid in
    let at_first = unchanged base g alignment p q start first c h.first_valid in
    record {
      valid = at.0;
      first_eq = ap (λ o. page - o) at.1 ∙ h.first_eq;
      first_valid = at_first.0;
      first_offset = at_first.1 ∙ h.first_offset;
    }

new-Leads :
    (base : ℕ) (g : Geometry) (alignment : ℕ) (p q : Pages) (start page : ℕ)
    → Fits g alignment
    → (c : Carves base g alignment p start q) → c.page ≤ page
    → page < c.page + get_pages_per_slot_span g
    → Leads q.metadata page c.page
new-Leads base g alignment p q start page f c l u =
    let at = c.found page l u in
    let at_first = c.found c.page (omega arith) (omega (arith, f.some_pages)) in
    record {
      valid = at.0;
      first_eq = omega (arith, at.1);
      first_valid = at_first.0;
      first_offset = omega (arith, at_first.1);
    }

-- Which span each address belongs to, where a new one has been made at `start`.
pub record Finds (g : Geometry) (p : Pages) (start : ℕ) (q : Pages) : Type 0 where
  pub new :
      (address : ℕ)
      → start ≤ address
      → address < start + reservation_size g
      → from_addr q.metadata address ≡ some (start / partition_page_size)
  pub old :
      (address first : ℕ)
      → from_addr p.metadata address ≡ some first
      → from_addr q.metadata address ≡ some first

Carves-Finds :
    (base : ℕ) (g : Geometry) (alignment : ℕ) (p q : Pages) (start : ℕ)
    → Fits g alignment
    → Carves base g alignment p start q
    → Finds g p start q
Carves-Finds base g alignment p q start f c =
    let at : start / partition_page_size ≡ c.page = omega (arith, c.page_eq) in
    record {
      new = λ address l u.
          from_addr-eq_of q.metadata address c.page (
            new-Leads base g alignment p q start (address / partition_page_size) f c
              (omega (arith, c.page_eq)) (omega (arith, c.page_eq)))
          ∙ ap (λ x. some x) (sym at);
      old = λ address first e. from_addr-eq_of q.metadata address first (
          kept-Leads base g alignment p q start (address / partition_page_size) first c
            (from_addr-Leads p.metadata address first e));
    }

abbrev pub FindsSpans : Geometry → Pages → Outcome ℕ → Type 0
FindsSpans g p (ok start q) = Finds g p start q
FindsSpans g p (null q) =
    (address : ℕ) → from_addr q.metadata address ≡ from_addr p.metadata address
FindsSpans g p out_of_memory = Unit {0}
FindsSpans g p crash = ⊥

Carved-FindsSpans :
    (base : ℕ) (g : Geometry) (alignment : ℕ) (return_null : Bool) (p : Pages) (o : Outcome ℕ)
    → Fits g alignment
    → Carved base g alignment return_null p o
    → FindsSpans g p o
Carved-FindsSpans base g alignment return_null p (ok start q) f c =
    Carves-Finds base g alignment p q start f c
Carved-FindsSpans base g alignment return_null p (null q) f c =
    λ address. ap (λ m. from_addr m address) c.5
Carved-FindsSpans base g alignment return_null p out_of_memory f c = tt
Carved-FindsSpans base g alignment return_null p crash f c = c

-- On pages that are ready, and for a geometry and an alignment that fit in a super page, FromAddr leads
-- from every address of the span that AllocNewSlotSpan makes to its first page, and from every address
-- of an earlier span to where it led before; a null pointer leaves every answer of FromAddr as it was.
pub alloc_new_slot_span-FindsSpans :
    (base : ℕ) (g : Geometry) (alignment : ℕ) (return_null : Bool) (p : Pages)
    → Fits g alignment
    → Ready base p
    → FindsSpans g p (alloc_new_slot_span g alignment return_null p)
alloc_new_slot_span-FindsSpans base g alignment return_null p f v =
    Carved-FindsSpans base g alignment return_null p _ f
      (alloc_new_slot_span-Carved base g alignment return_null p f v)
