-- ===== src/Sizing/Bounds.antt =====
-- The slot spans of every bucket can be made: what AllocNewSlotSpan needs of a geometry.
use native.Mathlib.Nat.{mul_assoc}
use partition_alloc.Base.{
  ℕ, ◌*◌, ◌≤◌, ◌<◌, ◌≡◌, refl, sym, ap, ◌∙◌, Bool, true, false, ◌&&◌, ltb, leb, ◌==◌, Option, none,
  some, arith, Returns,
}
use partition_alloc.Lookup.Table.{all_below, all_below-get, size_at, valid_buckets}
use partition_alloc.Lookup.{bucket_sizes}
use partition_alloc.SlotSpan.{Geometry, get_slots_per_span}
use partition_alloc.SuperPage.{partition_page_size, get_pages_per_slot_span}
use partition_alloc.SuperPage.Invariant.{Fits}
use partition_alloc.Sizing.{init}

-- The bounds, tested.
bounded : ℕ → Geometry → Bool
bounded size g =
    (g.slot_size == size && ltb 0 (get_slots_per_span g))
    && (leb (get_slots_per_span g) 1024
        && (leb 1 (get_pages_per_slot_span g) && leb (get_pages_per_slot_span g) 63))

inits : Bool → Bool → ℕ → Bool
unfolding init bounded
inits prefer use_small i = elim (init prefer use_small (size_at i)) [
  | none ↦ false
  | some g ↦ bounded (size_at i) g
]

all_init : (prefer use_small : Bool) → all_below valid_buckets (inits prefer use_small) ≡ true
unfolding inits bucket_sizes
all_init true true = refl
all_init true false = refl
all_init false true = refl
all_init false false = refl

-- The slots of a bucket and its spans: they have the size of the bucket, and a span fits behind every
-- alignment up to half a super page.
pub record Sized (size : ℕ) (g : Geometry) : Type 0 where
  pub slot_size_eq : g.slot_size ≡ size
  pub fits :
      (unit times : ℕ)
      → 1 ≤ unit
      → unit ≤ 64
      → times * unit ≡ 128
      → Fits g (unit * partition_page_size)

bounded-Sized : (size : ℕ) (g : Geometry) → bounded size g ≡ true → Sized size g
unfolding bounded
bounded-Sized size g h = record {
  slot_size_eq = ground (arith, h);
  fits = λ unit times l u e. record {
    some_slots = ground (arith, h);
    few_slots = ground (arith, h);
    some_pages = ground (arith, h);
    few_pages = ground (arith, h);
    unit = unit;
    unit_pos = l;
    unit_eq = refl;
    times = times;
    times_eq = sym (mul_assoc times unit partition_page_size) ∙ ap (λ x. x * partition_page_size) e;
    room = ground (arith, h);
  };
}

-- In a build of either kind and whether or not small spans of a single slot are in use, Init of each of
-- the 111 buckets fails no check, and gives slots of the size of the bucket and spans that hold from 1
-- to 1024 of them and fit in a super page behind every alignment from a partition page to half a super
-- page.
pub init-Sized :
    (prefer_smaller_slot_spans use_small_single_slot_spans : Bool) (i : ℕ)
    → i < valid_buckets
    → Returns
        (Sized (size_at i))
        (init prefer_smaller_slot_spans use_small_single_slot_spans (size_at i))
unfolding init inits
init-Sized prefer use_small i h =
    answer (size_at i) (init prefer use_small (size_at i))
      (all_below-get valid_buckets (inits prefer use_small) (all_init prefer use_small) i h)
  where
    answer :
        (size : ℕ) (o : Option Geometry)
        → (elim o [ none ↦ false | some g ↦ bounded size g ]) ≡ true
        → Returns (Sized size) o
    answer size none e = cc
    answer size (some g) e = bounded-Sized size g e
