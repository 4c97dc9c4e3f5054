-- ===== src/Bucket/Sweep.antt =====
-- What the walks over the active list of a bucket do, said by filters.
use mathlib.Core.List.{append-nil, append_assoc}
use partition_alloc.Base.{
  ◌>>=◌, ℕ, ◌+◌, ◌≤◌, ◌<◌, ◌≡◌, refl, sym, ◌∙◌, ap, inl, inr, Bool, true, false, not, if◌then◌else◌,
  Option, none, some, List, [], ◌∷◌, ◌++◌, length, arith, Bool-cases,
}
use partition_alloc.SlotSpan.{SlotSpan, is_nil}
use partition_alloc.Bucket.{
  Spans, Bucket, Walk, place, mark_full, full_mod, is_usable, walk_to_usable, walk_all, begin_walk,
  end_walk, reattach, set_new_active_slot_span, maintain_active_list,
}
use partition_alloc.Bucket.Visit.{
  keep, push_all, contains, before, from, Tests, tests_of, is_stuck, Agrees, Walked, Visited,
  place-Visited,
}

keep-cons {ℓ} :
    {A : Type ℓ} (p : A → Bool) (x : A) (xs : List A)
    → keep p (x ∷ []) ++ keep p xs ≡ keep p (x ∷ xs)
keep-cons p x xs = ground arith

push_all-keep-cons {ℓ} :
    {A : Type ℓ} (p : A → Bool) (x : A) (xs ys : List A)
    → push_all (keep p xs) (push_all (keep p (x ∷ [])) ys) ≡ push_all (keep p (x ∷ xs)) ys
push_all-keep-cons p x xs ys = ground arith

length-keep-cons {ℓ} :
    {A : Type ℓ} (p : A → Bool) (x : A) (xs : List A)
    → length (keep p (x ∷ [])) + length (keep p xs) ≡ length (keep p (x ∷ xs))
length-keep-cons p x xs = ground arith

length-keep-le {ℓ} : {A : Type ℓ} (p : A → Bool) (xs : List A) → length (keep p xs) ≤ length xs
length-keep-le p [] = omega arith
length-keep-le p (x ∷ xs) = ground (arith, length-keep-le p xs)

marked-cons :
    (p : ℕ → Bool) (x y : ℕ) (xs : List ℕ) (s s1 s2 : SlotSpan)
    → s1 ≡ (if contains y (keep p (x ∷ [])) then mark_full s else s)
    → s2 ≡ (if contains y (keep p xs) then mark_full s1 else s1)
    → s2 ≡ (if contains y (keep p (x ∷ xs)) then mark_full s else s)
marked-cons p x y xs s s1 s2 e e' = ground arith

Walked-cons :
    (t : Tests) (x : ℕ) (xs : List ℕ) (w w1 w2 : Walk)
    → Walked t (x ∷ []) w w1
    → Walked t xs w1 w2
    → Walked t (x ∷ xs) w w2
Walked-cons t x xs w w1 w2 a b = record {
  kept =
      b.kept
      ∙ ap (λ k. k ++ keep t.active xs) a.kept
      ∙ append_assoc w.kept (keep t.active (x ∷ [])) (keep t.active xs)
      ∙ ap (λ k. w.kept ++ k) (keep-cons t.active x xs);
  empty =
      b.empty ∙ ap (push_all (keep t.empty xs)) a.empty ∙ push_all-keep-cons t.empty x xs w.empty;
  decommitted =
      b.decommitted
      ∙ ap (push_all (keep t.decommitted xs)) a.decommitted
      ∙ push_all-keep-cons t.decommitted x xs w.decommitted;
  full = omega (arith, a.full, b.full, length-keep-cons (is_stuck t) x xs);
  marked = λ y. marked-cons (is_stuck t) x y xs _ _ _ (a.marked y) (b.marked y);
}

Walked-nil : (t : Tests) (w : Walk) → Walked t [] w w
Walked-nil t w = record {
  kept = sym (append-nil w.kept);
  empty = refl;
  decommitted = refl;
  full = omega arith;
  marked = λ y. refl;
}

abbrev WalksAll : Tests → List ℕ → Walk → Option Walk → Type 0
WalksAll t xs w none = ⊥
WalksAll t xs w (some w') = Walked t xs w w'

walk_all-Walked :
    (t : Tests) (xs : List ℕ) (w : Walk)
    → Agrees t w.spans
    → w.num_full_slot_spans + length xs < full_mod
    → WalksAll t xs w (walk_all xs w)
unfolding walk_all
walk_all-Walked t [] w a room = Walked-nil t w
walk_all-Walked t (x ∷ xs) w a room =
    visited (place x w) (place-Visited t x w a (omega arith))
      λ w1 a1 room1. walk_all-Walked t xs w1 a1 room1
  where
    joined :
        (w1 : Walk) (r : Option Walk)
        → Walked t (x ∷ []) w w1
        → WalksAll t xs w1 r
        → WalksAll t (x ∷ xs) w r
    joined w1 none v rest = rest
    joined w1 (some w2) v rest = Walked-cons t x xs w w1 w2 v rest

    visited :
        (r : Option Walk)
        → Visited t x w r
        → ((w1 : Walk)
            → Agrees t w1.spans
            → w1.num_full_slot_spans + length xs < full_mod
            → WalksAll t xs w1 (walk_all xs w1))
        → WalksAll t (x ∷ xs) w (r >>= walk_all xs)
    visited none v rec = v
    visited (some w1) (a1, v) rec =
        joined w1 (walk_all xs w1) v
          (rec w1 a1 (omega (arith, v.full, length-keep-le (is_stuck t) (x ∷ []))))

abbrev WalksTo : Tests → List ℕ → Walk → Option (Walk × List ℕ) → Type 0
WalksTo t xs w none = ⊥
WalksTo t xs w (some (w', rest)) = Walked t (before t.usable xs) w w' × (rest ≡ from t.usable xs)

walk_to_usable-Walked :
    (t : Tests) (xs : List ℕ) (w : Walk)
    → Agrees t w.spans
    → w.num_full_slot_spans + length xs < full_mod
    → WalksTo t xs w (walk_to_usable xs w)
unfolding walk_to_usable
walk_to_usable-Walked t [] w a room = (Walked-nil t w, refl)
walk_to_usable-Walked t (x ∷ xs) w a room = elim (Bool-cases (is_usable (w.spans x))) [
  | inl stops ↦
      let here : t.usable x ≡ true = sym (a.usable x) ∙ stops in
      rw (stops, here) (Walked-nil t w, refl)
  | inr goes ↦
      let on : t.usable x ≡ false = sym (a.usable x) ∙ goes in
      rw goes (
        visited (place x w) (place-Visited t x w a (omega arith)) on
          λ w1 a1 room1. walk_to_usable-Walked t xs w1 a1 room1)
]
  where
    joined :
        (w1 : Walk) (r : Option (Walk × List ℕ))
        → Walked t (x ∷ []) w w1
        → t.usable x ≡ false
        → WalksTo t xs w1 r
        → WalksTo t (x ∷ xs) w r
    joined w1 none v on rest = rest
    joined w1 (some (w2, _)) v on (rest, e) = rw on (Walked-cons t x _ w w1 w2 v rest, e)

    visited :
        (r : Option Walk)
        → Visited t x w r
        → t.usable x ≡ false
        → ((w1 : Walk)
            → Agrees t w1.spans
            → w1.num_full_slot_spans + length xs < full_mod
            → WalksTo t xs w1 (walk_to_usable xs w1))
        → WalksTo t (x ∷ xs) w (r >>= walk_to_usable xs)
    visited none v on rec = v
    visited (some w1) (a1, v) on rec =
        joined w1 (walk_to_usable xs w1) v on
          (rec w1 a1 (omega (arith, v.full, length-keep-le (is_stuck t) (x ∷ []))))

-- The store agrees with its own tests.
Agrees-self : (spans : Spans) → Agrees (tests_of spans) spans
Agrees-self spans = record {
  active = λ x. refl;
  empty = λ x. refl;
  decommitted = λ x. refl;
  usable = λ x. refl;
}

-- What SetNewActiveSlotSpan and MaintainActiveList make of the bucket and the store, when the walk has
-- visited `seen` and `active` is the new active list.
pub record Swept (t : Tests) (seen active : List ℕ) (b b' : Bucket) (spans spans' : Spans)
    : Type 0 where
  pub active_list : b'.active ≡ active
  pub empty_list : b'.empty ≡ push_all (keep t.empty seen) b.empty
  pub decommitted_list : b'.decommitted ≡ push_all (keep t.decommitted seen) b.decommitted
  pub full_count : b'.num_full_slot_spans ≡ b.num_full_slot_spans + length (keep (is_stuck t) seen)
  pub marks :
      (y : ℕ)
      → spans' y ≡ (if contains y (keep (is_stuck t) seen) then mark_full (spans y) else spans y)

-- A list, taken apart after its head.
abbrev pub first : List ℕ → List ℕ
first [] = []
first (x ∷ xs) = x ∷ []

abbrev pub others : List ℕ → List ℕ
others [] = []
others (x ∷ xs) = xs

-- A usable span comes first, and then the active ones that were passed over.
abbrev pub new_active : Tests → List ℕ → List ℕ
new_active t xs =
    first (from t.usable xs) ++ (keep t.active (before t.usable xs) ++ others (from t.usable xs))

reattach_lem : (kept xs : List ℕ) → reattach kept xs ≡ first xs ++ (kept ++ others xs)
reattach_lem kept [] = sym (append-nil kept)
reattach_lem kept (x ∷ xs) = refl

abbrev pub SetsActive : Bucket → Spans → Option (Bucket × Spans × Bool) → Type 0
SetsActive b spans none = ⊥
SetsActive b spans (some (b', spans', found)) =
    let t = tests_of spans in
    Swept t (before t.usable b.active) (new_active t b.active) b b' spans spans'
    × (found ≡ not (is_nil (new_active t b.active)))

Swept-sides :
    (t : Tests) (seen active : List ℕ) (b : Bucket) (spans : Spans) (w : Walk)
    → Walked t seen (begin_walk b spans) w
    → Swept t seen active b (end_walk active w) spans w.spans
Swept-sides t seen active b spans w v = record {
  active_list = refl;
  empty_list = v.empty;
  decommitted_list = v.decommitted;
  full_count = v.full;
  marks = v.marked;
}

-- Where the count of full spans has room, SetNewActiveSlotSpan passes its PA_CHECK. It passes over the
-- spans before the first active one that has a freelist: the active ones stay in the active list, in
-- their order and behind that span, the empty and the decommitted ones go to the heads of their lists
-- in the order of the walk, and the full ones are marked, counted and dropped. It changes no other
-- span, and returns whether the new active list has a span.
pub set_new_active_slot_span-SetsActive :
    (b : Bucket) (spans : Spans)
    → b.num_full_slot_spans + length b.active < full_mod
    → SetsActive b spans (set_new_active_slot_span b spans)
unfolding set_new_active_slot_span
set_new_active_slot_span-SetsActive b spans room =
    finish (walk_to_usable b.active (begin_walk b spans)) (
      walk_to_usable-Walked (tests_of spans) b.active (begin_walk b spans) (Agrees-self spans) room)
  where
    finish :
        (r : Option (Walk × List ℕ))
        → WalksTo (tests_of spans) b.active (begin_walk b spans) r
        → SetsActive b spans (
            r >>= λ p.
            let active = reattach p.0.kept p.1 in
            some (end_walk active p.0, p.0.spans, not (is_nil active)))
    finish none v = v
    finish (some (w, rest)) (v, e) =
        rw
          (
            v.kept,
            e,
            reattach_lem (keep (tests_of spans).active (before (tests_of spans).usable b.active))
                (from (tests_of spans).usable b.active),
          )
          (Swept-sides _ _ _ b spans w v, refl)

abbrev pub Maintains : Bucket → Spans → Option (Bucket × Spans) → Type 0
Maintains b spans none = ⊥
Maintains b spans (some (b', spans')) =
    let t = tests_of spans in Swept t b.active (keep t.active b.active) b b' spans spans'

-- Where the count of full spans has room, MaintainActiveList passes its PA_CHECK. It leaves the active
-- spans in the active list, in their order, moves the empty and the decommitted ones to the heads of
-- their lists in the order of the walk, marks, counts and drops the full ones, and changes no other
-- span.
pub maintain_active_list-Maintains :
    (b : Bucket) (spans : Spans)
    → b.num_full_slot_spans + length b.active < full_mod
    → Maintains b spans (maintain_active_list b spans)
unfolding maintain_active_list
maintain_active_list-Maintains b spans room =
    finish (walk_all b.active (begin_walk b spans))
      (walk_all-Walked (tests_of spans) b.active (begin_walk b spans) (Agrees-self spans) room)
  where
    finish :
        (r : Option Walk)
        → WalksAll (tests_of spans) b.active (begin_walk b spans) r
        → Maintains b spans (r >>= λ w. some (end_walk w.kept w, w.spans))
    finish none v = v
    finish (some w) v = rw v.kept (Swept-sides _ _ _ b spans w v)
