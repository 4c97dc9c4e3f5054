-- ===== src/Bucket/Sort.antt =====
-- SortActiveSlotSpans and CompareSlotSpans of src/partition_alloc/partition_bucket.cc. std::sort is a
-- parameter, with what the standard says of it.
-- The sentinel at the head of a list stands for the empty list.
mod Tests
use mathlib.Core.List.{Perm}
use partition_alloc.Base.{
  ℕ, zero, suc, ◌+◌, ◌≤◌, ◌<◌, ◌≡◌, refl, ap, ◌⊎◌, inl, inr, Bool, true, false, not, ◌&&◌, ltb,
  ◌==◌, if◌then◌else◌, List, [], ◌∷◌, ◌++◌, length, arith,
}
use partition_alloc.SlotSpan.{SlotSpan, get_freelist_length}
use partition_alloc.Bucket.{Bucket, Spans}

-- kMaxSlotSpansToSort
abbrev pub max_slot_spans_to_sort : ℕ
max_slot_spans_to_sort = 200

-- The comparison of two tuples: whether the freelist is empty, its length, the unprovisioned slots.
pub precedes : ℕ → ℕ → ℕ → ℕ → Bool
precedes la ua lb ub =
    if not (la == 0) && (lb == 0)
    then true
    else if (la == 0) && not (lb == 0)
    then false
    else if ltb la lb
    then true
    else if ltb lb la
    then false
    else ltb ua ub

pub compare_slot_spans : SlotSpan → SlotSpan → Bool
unfolding precedes
compare_slot_spans a b =
    precedes (get_freelist_length a) a.num_unprovisioned_slots (get_freelist_length b)
      b.num_unprovisioned_slots

-- What std::sort requires of a comparison.
pub record IsStrictWeakOrder (less : ℕ → ℕ → Bool) : Type 0 where
  pub irreflexive : (x : ℕ) → less x x ≡ false
  pub transitive : (x y z : ℕ) → less x y ≡ true → less y z ≡ true → less x z ≡ true
  pub incomparable :
      (x y z : ℕ)
      → less x y ≡ false
      → less y x ≡ false
      → less y z ≡ false
      → less z y ≡ false
      → less x z ≡ false

abbrev pub NoneBefore : (ℕ → ℕ → Bool) → ℕ → List ℕ → Type 0
NoneBefore less x [] = Unit {0}
NoneBefore less x (y ∷ ys) = (less y x ≡ false) × NoneBefore less x ys

-- No element precedes one that stands before it.
abbrev pub Sorted : (ℕ → ℕ → Bool) → List ℕ → Type 0
Sorted less [] = Unit {0}
Sorted less (x ∷ xs) = NoneBefore less x xs × Sorted less xs

-- std::sort: for a strict weak order, it leaves a sorted permutation.
pub record StdSort : Type 0 where
  pub sort : (ℕ → ℕ → Bool) → List ℕ → List ℕ
  pub sorts :
      (less : ℕ → ℕ → Bool)
      → IsStrictWeakOrder less
      → (xs : List ℕ) → Perm (sort less xs) xs × Sorted less (sort less xs)

-- The array of the first loop, which holds at most `n` spans, and the overflow.
pub collect : ℕ → List ℕ → List ℕ × List ℕ
collect zero xs = ([], xs)
collect (suc n) [] = ([], [])
collect (suc n) (x ∷ xs) = let (array, overflow) = collect n xs in (x ∷ array, overflow)

-- The last loop, which inserts the spans of the array at the head, the last one first.
pub relink : List ℕ → List ℕ → List ℕ
relink [] head = head
relink (x ∷ xs) head = x ∷ relink xs head

pub sort_active_slot_spans : StdSort → Spans → Bucket → Bucket
unfolding collect relink compare_slot_spans
sort_active_slot_spans std spans b =
    let (array, overflow) = collect max_slot_spans_to_sort b.active in
    let less = λ (x : ℕ) (y : ℕ). compare_slot_spans (spans x) (spans y) in
    record b { active = relink (std.sort less array) overflow }

precedes-irreflexive : (l u : ℕ) → precedes l u l u ≡ false
unfolding precedes
precedes-irreflexive l u = ground arith

precedes_trans :
    (la ua lb ub lc uc : ℕ)
    → precedes la ua lb ub ≡ true
    → precedes lb ub lc uc ≡ true
    → precedes la ua lc uc ≡ true
unfolding precedes
precedes_trans la ua lb ub lc uc h k = ground (arith, h, k)

precedes-incomparable :
    (la ua lb ub lc uc : ℕ)
    → precedes la ua lb ub ≡ false
    → precedes lb ub la ua ≡ false
    → precedes lb ub lc uc ≡ false
    → precedes lc uc lb ub ≡ false
    → precedes la ua lc uc ≡ false
unfolding precedes
precedes-incomparable la ua lb ub lc uc h k l m = ground (arith, h, k, l, m)

rank-IsStrictWeakOrder : (l u : ℕ → ℕ) → IsStrictWeakOrder (λ x y. precedes (l x) (u x) (l y) (u y))
rank-IsStrictWeakOrder l u = record {
  irreflexive = λ x. precedes-irreflexive (l x) (u x);
  transitive = λ x y z. precedes_trans (l x) (u x) (l y) (u y) (l z) (u z);
  incomparable = λ x y z. precedes-incomparable (l x) (u x) (l y) (u y) (l z) (u z);
}

compare-IsStrictWeakOrder :
    (spans : Spans) → IsStrictWeakOrder (λ x y. compare_slot_spans (spans x) (spans y))
unfolding compare_slot_spans
compare-IsStrictWeakOrder spans =
    rank-IsStrictWeakOrder (λ x. get_freelist_length (spans x))
      (λ x. (spans x).num_unprovisioned_slots)

collect_lem :
    (n : ℕ) (xs : List ℕ)
    → ((collect n xs).0 ++ (collect n xs).1 ≡ xs)
      × (length (collect n xs).0 ≤ n)
      × (((collect n xs).1 ≡ []) ⊎ (length (collect n xs).0 ≡ n))
unfolding collect
collect_lem zero xs = (refl, omega arith, inr refl)
collect_lem (suc n) [] = (refl, omega arith, inl refl)
collect_lem (suc n) (x ∷ xs) =
    let (joined, few, all) = collect_lem n xs in
    (
      ap {B = List ℕ} (λ zs. x ∷ zs) joined,
      omega (arith, few),
      elim all [ inl e ↦ inl e | inr e ↦ inr (omega (arith, e)) ],
    )

relink_lem : (xs ys : List ℕ) → relink xs ys ≡ xs ++ ys
unfolding relink
relink_lem [] ys = refl
relink_lem (x ∷ xs) ys = ap {B = List ℕ} (λ zs. x ∷ zs) (relink_lem xs ys)

-- The first spans of the active list, up to 200, in the order of CompareSlotSpans, and the others.
pub record Sorts (spans : Spans) (b b' : Bucket) : Type 0 where
  pub array : List ℕ
  pub overflow : List ℕ
  pub split : array ++ overflow ≡ b.active
  pub few : length array ≤ max_slot_spans_to_sort
  pub most : (overflow ≡ []) ⊎ (length array ≡ max_slot_spans_to_sort)
  pub front : List ℕ
  pub same : Perm front array
  pub in_order : Sorted (λ x y. compare_slot_spans (spans x) (spans y)) front
  pub result : b' ≡ record b { active = front ++ overflow }

-- Whatever std::sort does, if it sorts by every strict weak order, SortActiveSlotSpans puts the spans of
-- the active list that it has room for, the first 200 or all, in the order of CompareSlotSpans, leaves
-- those behind them in their places, loses none and changes nothing else.
pub sort_active_slot_spans-Sorts :
    (std : StdSort) (spans : Spans) (b : Bucket)
    → Sorts spans b (sort_active_slot_spans std spans b)
unfolding sort_active_slot_spans
sort_active_slot_spans-Sorts std spans b =
    let c = collect_lem max_slot_spans_to_sort b.active in
    let less = λ (x : ℕ) (y : ℕ). compare_slot_spans (spans x) (spans y) in
    let array = (collect max_slot_spans_to_sort b.active).0 in
    let overflow = (collect max_slot_spans_to_sort b.active).1 in
    let sorted = std.sorts less (compare-IsStrictWeakOrder spans) array in
    record {
      array = array;
      overflow = overflow;
      split = c.0;
      few = c.1;
      most = c.2;
      front = std.sort less array;
      same = sorted.0;
      in_order = sorted.1;
      result =
          ap {B = Bucket} (λ xs. record b { active = xs })
            (relink_lem (std.sort less array) overflow);
    }
