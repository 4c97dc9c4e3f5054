-- ===== src/Bucket/Retire.antt =====
-- The head of the active list after FreeSlowPath of partition_page.cc.
use mathlib.Core.List.{head-eq_of_cons-eq}
use partition_alloc.Base.{
  ◌>>=◌, ℕ, ◌≡◌, refl, ◌∙◌, ap, subst, inl, inr, Bool, true, false, ◌==◌, if◌then◌else◌, Option,
  none, some, List, [], ◌∷◌, ◌++◌, arith, Bool-cases,
}
use partition_alloc.SlotSpan.{SlotSpan, is_active, is_direct_mapped}
use partition_alloc.Bucket.{
  Spans, Bucket, Root, update, is_usable, set_new_active_slot_span, FreeResult, done, unmaps, crash,
  reactivate, replace_head, retire, free_slow_path, clear_raw_size, head_is, register_empty,
}
use partition_alloc.Bucket.Sweep.{
  SetsActive, set_new_active_slot_span-SetsActive, first, others, new_active,
}
use partition_alloc.Bucket.Visit.{keep, before, from, tests_of}
use partition_alloc.Bucket.Entries.{Inv, eq_of_test}
use partition_alloc.Bucket.Free.{Counts, HasRoom, Keeps, reactivate-Keeps, Ends, retire-Ends}

idle : (s : SlotSpan) → s.num_allocated_slots ≡ 0 → is_active s ≡ false
unfolding is_active
idle s h = ground (arith, h)

-- An active span is not the span `x`, which is not.
apart :
    (spans : Spans) (x y : ℕ)
    → is_active (spans x) ≡ false
    → is_active (spans y) ≡ true
    → (y == x) ≡ false
apart spans x y h k = elim (Bool-cases (y == x)) [
  | inr other ↦ other
  | inl same ↦
      let e : is_active (spans y) ≡ is_active (spans x) =
        ap (λ z. is_active (spans z)) (eq_of_test y x same) in
      cc
]

head-keep :
    (spans : Spans) (x : ℕ) (xs : List ℕ)
    → is_active (spans x) ≡ false
    → head_is x (keep (tests_of spans).active xs) ≡ false
head-keep spans x [] h = refl
head-keep spans x (y ∷ ys) h = elim (Bool-cases (is_active (spans y))) [
  | inr out ↦ rw out (head-keep spans x ys h)
  | inl kept ↦ rw kept (apart spans x y h kept)
]

head-from :
    (spans : Spans) (x : ℕ) (ys kept : List ℕ) (xs : List ℕ)
    → is_active (spans x) ≡ false
    → head_is x kept ≡ false
    → from (tests_of spans).usable xs ≡ ys
    → head_is x (first ys ++ (kept ++ others ys)) ≡ false
unfolding is_usable
head-from spans x [] [] xs h k e = refl
head-from spans x [] (z ∷ zs) xs h k e = k
head-from spans x (y ∷ ys) kept [] h k e = cc
head-from spans x (y ∷ ys) kept (z ∷ zs) h k e = elim (Bool-cases (is_usable (spans z))) [
  | inl usable ↦
      let same : z ≡ y = head-eq_of_cons-eq (rw usable at e) in
      let busy : is_active (spans z) ≡ true = ground (arith, usable) in
      apart spans x y h (subst (λ w. is_active (spans w) ≡ true) same busy)
  | inr unusable ↦ head-from spans x (y ∷ ys) kept zs h k (rw unusable at e)
]

head-new_active :
    (spans : Spans) (x : ℕ) (xs : List ℕ)
    → is_active (spans x) ≡ false
    → head_is x (new_active (tests_of spans) xs) ≡ false
head-new_active spans x xs h =
    head-from spans x (from (tests_of spans).usable xs)
      (keep (tests_of spans).active (before (tests_of spans).usable xs)) xs h
      (head-keep spans x (before (tests_of spans).usable xs) h) refl

abbrev Unheaded : ℕ → Option (Bucket × Root) → Type 0
Unheaded x none = Unit {0}
Unheaded x (some (b, r)) = head_is x b.active ≡ false

replace_head-Unheaded :
    (x : ℕ) (b : Bucket) (r : Root)
    → HasRoom b
    → (r.spans x).num_allocated_slots ≡ 0
    → Unheaded x (replace_head x b r)
unfolding replace_head
replace_head-Unheaded x b r room unused = elim (Bool-cases (head_is x b.active)) [
  | inr other ↦ rw other other
  | inl head ↦ rw head (
      finish (set_new_active_slot_span b r.spans)
        (set_new_active_slot_span-SetsActive b r.spans room))
]
  where
    finish :
        (o : Option (Bucket × Spans × Bool))
        → SetsActive b r.spans o
        → Unheaded x (o >>= (λ t. some (t.0, record r { spans = t.1 })))
    finish none h = tt
    finish (some (b', spans', found)) h =
        ap (head_is x) h.0.active_list
        ∙ head-new_active r.spans x b.active (idle (r.spans x) unused)

-- After the call, `x` is not the head of the active list.
abbrev pub LeavesHead : ℕ → FreeResult → Type 0
LeavesHead x (done b r) = head_is x b.active ≡ false
LeavesHead x (unmaps b r) = Unit {0}
LeavesHead x crash = ⊥

retire-LeavesHead :
    (x : ℕ) (b : Bucket) (r : Root)
    → HasRoom b
    → (r.spans x).num_allocated_slots ≡ 0
    → Ends (retire x b r)
    → LeavesHead x (retire x b r)
unfolding retire
retire-LeavesHead x b r room unused ends = elim (Bool-cases (is_direct_mapped (r.spans x).bucket)) [
  | inl direct ↦ rw direct tt
  | inr bucketed ↦
      rw bucketed (
        finish (replace_head x b r) (replace_head-Unheaded x b r room unused) (rw bucketed at ends))
]
  where
    finish :
        (o : Option (Bucket × Root))
        → Unheaded x o
        → Ends (elim o [
          | none ↦ crash
          | some (b', r') ↦ done b' (
              register_empty x
                (record r' { spans = update r'.spans x (clear_raw_size (r'.spans x)) }))
        ])
        → LeavesHead x (elim o [
          | none ↦ crash
          | some (b', r') ↦ done b' (
              register_empty x
                (record r' { spans = update r'.spans x (clear_raw_size (r'.spans x)) }))
        ])
    finish none h e = e
    finish (some (b', r')) h e = h

abbrev Allocates : ℕ → ℕ → Option (Bucket × Root) → Type 0
Allocates x n none = Unit {0}
Allocates x n (some (b, r)) = (r.spans x).num_allocated_slots ≡ n

reactivate-Allocates :
    (x : ℕ) (b : Bucket) (r : Root) → Allocates x (r.spans x).num_allocated_slots (reactivate x b r)
unfolding reactivate
reactivate-Allocates x b r = ground arith

-- FreeSlowPath of a span of a bucket without an allocated slot does not leave it the head of the
-- active list, whatever it was before, and passes its PA_CHECKs, where a marked span is counted as full, the count has room
-- and the ring is right.
pub free_slow_path-LeavesHead :
    (x : ℕ) (b : Bucket) (r : Root)
    → Counts x b r
    → Inv r
    → (r.spans x).num_allocated_slots ≡ 0
    → LeavesHead x (free_slow_path x b r)
unfolding free_slow_path
free_slow_path-LeavesHead x b r c v unused =
    finish (reactivate x b r) (reactivate-Keeps x b r c v) (reactivate-Allocates x b r)
  where
    finish :
        (o : Option (Bucket × Root))
        → Keeps o
        → Allocates x (r.spans x).num_allocated_slots o
        → LeavesHead x (elim o [
          | none ↦ crash
          | some (b', r') ↦
              if (r'.spans x).num_allocated_slots == 0 then retire x b' r' else done b' r'
        ])
    finish none h a = h
    finish (some (b', r')) h a =
        let zero_left : (r'.spans x).num_allocated_slots ≡ 0 = a ∙ unused in
        let test : ((r'.spans x).num_allocated_slots == 0) ≡ true = ground arith in
        rw test (retire-LeavesHead x b' r' h.0 zero_left (retire-Ends x b' r' h.0 h.1))
