-- ===== src/SuperPage/Place.antt =====
-- The end of AllocNewSlotSpan, from the gap on, where there is room for the span.
use native.Mathlib.Nat.{div-mul-le_self, lt-div-mul-add, div-eq_of_lt-le}
use partition_alloc.Base.{
  ℕ, ◌+◌, ◌-◌, ◌*◌, ◌/◌, ◌≤◌, ◌<◌, ◌≡◌, ◌≢◌, refl, sym, ap, ◌∙◌, inl, inr, true, false, arith,
  Bool-cases,
}
use partition_alloc.SlotSpan.{Geometry}
use partition_alloc.Pool.Find.{in_range}
use partition_alloc.SuperPage.{
  Pages, ok, partition_page_size, align_up, num_partition_pages_per_super_page,
  get_pages_per_slot_span, reservation_size, carve,
}
use partition_alloc.SuperPage.Invariant.{
  page_at, Current, within, Linked, unlinked, linked, Unowned, Ready, Fits,
}
use partition_alloc.SuperPage.Metadata.{Metadata, Placed, Room, after_carve, carve-Placed}

-- The multiple of the alignment that AlignUp finds.
pub record Aligns (x a y : ℕ) : Type 0 where
  pub times : ℕ
  pub times_eq : y ≡ times * a
  pub above : x ≤ y
  pub near : y < x + a

pub align_up-Aligns : (x a : ℕ) → 0 < a → Aligns x a (align_up x a)
unfolding align_up
align_up-Aligns x a pos = record {
  times = (x + (a - 1)) / a;
  times_eq = refl;
  above = omega (arith, lt-div-mul-add {a = x + (a - 1)} pos);
  near = omega (arith, div-mul-le_self (x + (a - 1)) a);
}

mul_one-more : (m a : ℕ) → (m + 1) * a ≡ m * a + a
mul_one-more m a = grind arith

mul_two-more : (m a : ℕ) → (m + 1 + 1) * a ≡ m * a + a + a
mul_two-more m a = grind arith

-- One partition page behind a multiple of the alignment.
pub align_up-begin :
    (m a x : ℕ)
    → partition_page_size ≤ a
    → x ≡ m * a + partition_page_size
    → align_up x a ≡ m * a + a
unfolding align_up
align_up-begin m a x h e =
    ap (λ k. k * a)
      (div-eq_of_lt-le {k = m + 1} a (omega (arith, mul_one-more m a, e))
        (omega (arith, mul_two-more m a, e)))
    ∙ mul_one-more m a

-- Which pages belong to a span, and how far those that do are from its first one.
abbrev pub KeepsSpans : Metadata → Metadata → Type 0
KeepsSpans m m' =
    (y : ℕ)
    → ((m' y).is_valid ≡ (m y).is_valid)
      × ((m y).is_valid ≡ true → (m' y).slot_span_metadata_offset ≡ (m y).slot_span_metadata_offset)

-- A new span of the geometry `g` at `start`, in the pages `q` that were `p`.
pub record Carves (base : ℕ) (g : Geometry) (alignment : ℕ) (p : Pages) (start : ℕ) (q : Pages)
    : Type 0 where
  -- It starts at a page and at a multiple of the alignment.
  pub page : ℕ
  pub page_eq : start ≡ page * partition_page_size
  pub times : ℕ
  pub times_eq : start ≡ times * alignment
  -- It lies in a super page of the pool that is in use, without the first and the last page.
  pub super_page : ℕ
  pub in_use : q.pool.alloc_bitset super_page ≡ true
  pub place : ℕ
  pub page_place : page ≡ page_at (base + super_page) place
  pub after_first : 1 ≤ place
  pub before_last : place + get_pages_per_slot_span g ≤ 127
  -- The next span comes behind it.
  pub next : q.next_partition_page ≡ start + reservation_size g
  -- Its pages belonged to no span, and now say how far they are from the first one.
  pub free_before :
      (y : ℕ) → page ≤ y → y < page + get_pages_per_slot_span g → (p.metadata y).is_valid ≡ false
  pub found :
      (y : ℕ)
      → page ≤ y
      → y < page + get_pages_per_slot_span g
      → ((q.metadata y).is_valid ≡ true) × ((q.metadata y).slot_span_metadata_offset ≡ y - page)
  -- Every other page belongs to the span it belonged to.
  pub others :
      (y : ℕ)
      → in_range page (get_pages_per_slot_span g) y ≡ false
      → ((q.metadata y).is_valid ≡ (p.metadata y).is_valid)
        × ((p.metadata y).is_valid ≡ true
            → (q.metadata y).slot_span_metadata_offset ≡ (p.metadata y).slot_span_metadata_offset)
  pub ready : Ready base q

page_lem : (x n : ℕ) → x ≡ n * partition_page_size → x / partition_page_size ≡ n
page_lem x n e = omega arith

in_range-le : (n c y : ℕ) → in_range n c y ≡ true → n ≤ y
in_range-le n c y h = ground arith

in_range-lt : (n c y : ℕ) → in_range n c y ≡ true → y < n + c
in_range-lt n c y h = ground arith

-- A page of a super page that is free is not among those of one that is in use.
outside_free :
    (n c t count y : ℕ)
    → c ≢ n
    → y / num_partition_pages_per_super_page ≡ c
    → t + count ≤ 127
    → in_range (page_at n t) count y ≡ false
outside_free n c t count y h e l = elim (Bool-cases (in_range (page_at n t) count y)) [
  | inr out ↦ out
  | inl inside ↦ absurd (
      h (
        omega (
          arith,
          in_range-le (page_at n t) count y inside,
          in_range-lt (page_at n t) count y inside,
        )))
]

Linked-carved :
    (g : Geometry) (start : ℕ) (p : Pages) (m : Metadata)
    → Linked p
    → Linked (after_carve g start p m)
Linked-carved g start p m (unlinked e h) = unlinked e h
Linked-carved g start p m (linked b used e h) = linked b used e h

-- The address of the page `k` of the super page `b` of the pool.
abbrev pub start_at : ℕ → ℕ → ℕ → ℕ
start_at base b k = page_at (base + b) k * partition_page_size

module _ (base : ℕ) (g : Geometry) (alignment : ℕ) (f : Fits g alignment) (p : Pages) (b t k : ℕ)
    (v : Ready base p) (used : p.pool.alloc_bitset b ≡ true)
    (at : p.next_partition_page ≡ page_at (base + b) t * partition_page_size)
    (end_at : p.next_partition_page_end ≡ page_at (base + b) 127 * partition_page_size)
    (free : (page : ℕ)
      → page_at (base + b) t ≤ page
      → page < page_at (base + b) 127
      → (p.metadata page).is_valid ≡ false)
    (above_first : 1 ≤ t) (place : t ≤ k) (room : k + get_pages_per_slot_span g ≤ 127) where
  here-Room : Room g (start_at base b k) p
  here-Room = record {
    behind = omega (arith, at);
    free = λ y l u. free y (omega (arith, at)) (omega arith);
  }

  pub carved :
      (m : Metadata) × (carve g (start_at base b k) p
        ≡ ok (start_at base b k) (after_carve g (start_at base b k) p m))
      × Placed (get_pages_per_slot_span g) ((start_at base b k) / partition_page_size) p.metadata m
  carved = carve-Placed g alignment (start_at base b k) p f here-Room

  -- The first page of the span.
  here_page : ℕ
  here_page = (start_at base b k) / partition_page_size

  here_page-at : here_page ≡ page_at (base + b) k
  unfolding here_page
  here_page-at = omega arith

  page_eq_here : (start_at base b k) ≡ here_page * partition_page_size
  unfolding here_page
  page_eq_here = omega arith

  carved-Unowned : Unowned base (after_carve g (start_at base b k) p carved.0)
  unfolding here_page
  carved-Unowned c y not_used at_c =
      let apart : base + c ≢ base + b =
        λ e. let same : c ≡ b = omega arith in cc (not_used, used) in
      let out =
        outside_free (base + b) (base + c) k (get_pages_per_slot_span g) y apart at_c room in
      (carved.2.others y (ap (λ n. in_range n (get_pages_per_slot_span g) y) here_page-at ∙ out)).0
      ∙ v.unowned c y not_used at_c

  carved-Current : Current base (after_carve g (start_at base b k) p carved.0)
  unfolding here_page
  carved-Current =
      within b (k + get_pages_per_slot_span g) used (omega (arith, f.some_pages)) room (omega arith)
        end_at
        (λ y l u. (carved.2.others y (ground (arith, here_page-at))).0 ∙ free y (omega arith) u)

  carved-Ready : Ready base (after_carve g (start_at base b k) p carved.0)
  carved-Ready = record {
    stands = v.stands;
    asks = v.asks;
    current = carved-Current;
    extents_linked = Linked-carved g (start_at base b k) p carved.0 v.extents_linked;
    unowned = carved-Unowned;
  }

  -- The span, seen from pages `p0` that the super page was taken in between.
  pub carved-Carves :
      (p0 : Pages) (times : ℕ)
      → KeepsSpans p0.metadata p.metadata
      → (start_at base b k) ≡ times * alignment
      → Carves base g alignment p0
          (start_at base b k)
          (after_carve g (start_at base b k) p carved.0)
  unfolding here_page
  carved-Carves p0 times keeps e = record {
    page = here_page;
    page_eq = page_eq_here;
    times = times;
    times_eq = e;
    super_page = b;
    in_use = used;
    place = k;
    page_place = here_page-at;
    after_first = omega (arith, place, above_first);
    before_last = room;
    next = refl;
    free_before = λ y l u. sym (keeps y).0 ∙ carved.2.free_before y l u;
    found = carved.2.found;
    others = λ y out.
        let kept = carved.2.others y out in (kept.0 ∙ (keeps y).0, λ h. kept.1 ∙ (keeps y).1 h);
    ready = carved-Ready;
  }
