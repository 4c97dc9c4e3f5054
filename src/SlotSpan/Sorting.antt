-- ===== src/SlotSpan/Sorting.antt =====
-- SortFreelist of src/partition_alloc/partition_page.cc. The free slots are bits by their numbers.
use mathlib.Core.List.Perm as Perm
use mathlib.Core.List.{Perm, perm_middle, append-nil}
use native.Mathlib.Decide.{dec_lt}
use partition_alloc.Base.{
  ℕ, zero, suc, ◌+◌, ◌-◌, ◌≤◌, ◌<◌, ◌≡◌, refl, sym, subst, inl, inr, Bool, true, false, ltb, ◌==◌,
  if◌then◌else◌, Option, none, some, List, [], ◌∷◌, ◌++◌, length, arith, Bool-cases, if_true,
  if_false,
}
use partition_alloc.SlotSpan.{
  SlotSpan, max_slots_per_slot_span, get_slots_per_span, set_freelist_head,
}

abbrev pub with_free_slot : ℕ → (ℕ → Bool) → ℕ → Bool
with_free_slot x bits y = if y == x then true else bits y

-- The first loop, which sets the bit of each slot of the freelist.
pub mark_free : List ℕ → (ℕ → Bool) → ℕ → Bool
mark_free [] bits = bits
mark_free (x ∷ xs) bits = mark_free xs (with_free_slot x bits)

-- The second loop, which chains the marked slots from `slot_number` on.
pub chain_free : ℕ → ℕ → (ℕ → Bool) → List ℕ
chain_free zero slot_number bits = []
chain_free (suc rounds) slot_number bits =
    let rest = chain_free rounds (slot_number + 1) bits in
    if bits slot_number then slot_number ∷ rest else rest

abbrev pub num_provisioned_slots : SlotSpan → ℕ
num_provisioned_slots s = get_slots_per_span s.bucket - s.num_unprovisioned_slots

abbrev pub relinked : SlotSpan → SlotSpan
relinked s =
    set_freelist_head (chain_free (num_provisioned_slots s) 0 (mark_free s.freelist (λ x. false))) s

pub sort_freelist : SlotSpan → Option SlotSpan
unfolding mark_free chain_free set_freelist_head
sort_freelist s =
    if ltb max_slots_per_slot_span (num_provisioned_slots s)
    then none
    else some
        (record (if ltb 1 (length s.freelist) then relinked s else s) { freelist_is_sorted = true })

-- Each slot is below `n`, and its bit is clear when the first loop comes to it.
abbrev pub Fresh : ℕ → (ℕ → Bool) → List ℕ → Type 0
Fresh n bits [] = Unit {0}
Fresh n bits (x ∷ xs) = (x < n) × (bits x ≡ false) × Fresh n (with_free_slot x bits) xs

-- The slots are at least `n` and ascend.
abbrev pub Ascending : ℕ → List ℕ → Type 0
Ascending n [] = Unit {0}
Ascending n (x ∷ xs) = (n ≤ x) × Ascending (x + 1) xs

Ascending-lower : (n : ℕ) (xs : List ℕ) → Ascending (n + 1) xs → Ascending n xs
Ascending-lower n [] h = tt
Ascending-lower n (x ∷ xs) h = (omega (arith, h.0), h.1)

chain_free-Ascending : (k n : ℕ) (bits : ℕ → Bool) → Ascending n (chain_free k n bits)
unfolding chain_free
chain_free-Ascending zero n bits = tt
chain_free-Ascending (suc k) n bits =
    let ih = chain_free-Ascending k (n + 1) bits in
    elim (Bool-cases (bits n)) [
      | inl free ↦ subst (Ascending n) (sym (if_true _ _ _ free)) (omega arith, ih)
      | inr used ↦ subst (Ascending n) (sym (if_false _ _ _ used)) (Ascending-lower n _ ih)
    ]

-- A bit below the loop does not change the chain_free.
chain_below :
    (k n x : ℕ) (bits : ℕ → Bool)
    → x < n
    → chain_free k n (with_free_slot x bits) ≡ chain_free k n bits
unfolding chain_free
chain_below zero n x bits h = refl
chain_below (suc k) n x bits h = ground (arith, chain_below k (n + 1) x bits (omega arith))

chain_here :
    (k x : ℕ) (bits : ℕ → Bool)
    → bits x ≡ false
    → chain_free (suc k) x (with_free_slot x bits) ≡ x ∷ chain_free (suc k) x bits
unfolding chain_free
chain_here k x bits clear = ground (arith, clear, chain_below k (x + 1) x bits (omega arith))

chain_later :
    (k n x : ℕ) (bits : ℕ → Bool)
    → n < x
    → chain_free (suc k) n (with_free_slot x bits) ≡ (
        if bits n
        then n ∷ chain_free k (n + 1) (with_free_slot x bits)
        else chain_free k (n + 1) (with_free_slot x bits))
unfolding chain_free
chain_later k n x bits low = ground (arith, low)

chain_set :
    (k n x : ℕ) (bits : ℕ → Bool)
    → n ≤ x
    → x < n + k
    → bits x ≡ false
    → Perm (chain_free k n (with_free_slot x bits)) (x ∷ chain_free k n bits)
unfolding chain_free
chain_set zero n x bits low high clear = absurd (omega (arith, low, high))
chain_set (suc k) n x bits low high clear = elim (dec_lt n x) [
  | no here ↦
      let same : x ≡ n = omega (arith, low, here) in
      subst
        (λ m. Perm (chain_free (suc k) m (with_free_slot x bits)) (x ∷ chain_free (suc k) m bits))
        same (rw (chain_here k x bits clear) Perm.rfl)
  | yes later ↦
      let ih = chain_set k (n + 1) x bits (omega (arith, later)) (omega (arith, high)) clear in
      rw (chain_later k n x bits later) (elim (Bool-cases (bits n)) [
        | inl free ↦ rw free (Perm.trans (Perm.cons n ih) (Perm.swap x n _))
        | inr used ↦ rw used ih
      ])
]

-- Every slot of a fresh list is chained, once, with those that were marked before.
chain_free-mark_free :
    (k : ℕ) (xs : List ℕ) (bits : ℕ → Bool)
    → Fresh k bits xs
    → Perm (chain_free k 0 (mark_free xs bits)) (xs ++ chain_free k 0 bits)
unfolding mark_free
chain_free-mark_free k [] bits h = Perm.rfl
chain_free-mark_free k (x ∷ xs) bits h =
    Perm.trans (chain_free-mark_free k xs (with_free_slot x bits) h.2) (
      Perm.trans
        (Perm.append (Perm.rfl {l = xs})
          (chain_set k 0 x bits (omega arith) (omega (arith, h.0)) h.1))
        (perm_middle xs (chain_free k 0 bits)))

chain_nothing : (k n : ℕ) → chain_free k n (λ x. false) ≡ []
unfolding chain_free
chain_nothing zero n = refl
chain_nothing (suc k) n = chain_nothing k (n + 1)

-- The freelist in the order of the slots, and nothing else but the mark.
pub record SortsFreelist (s : SlotSpan) (r : Option SlotSpan) : Type 0 where
  pub sorted : List ℕ
  pub ascending : Ascending 0 sorted
  pub same : Perm sorted s.freelist
  pub result : r ≡ some (record s { freelist = sorted; freelist_is_sorted = true })

module _ (s : SlotSpan) (few : num_provisioned_slots s ≤ max_slots_per_slot_span) where
  sort_many :
      ltb 1 (length s.freelist) ≡ true
      → sort_freelist s
        ≡ some (record s {
          freelist = chain_free (num_provisioned_slots s) 0 (mark_free s.freelist (λ x. false));
          freelist_is_sorted = true;
        })
  unfolding sort_freelist set_freelist_head
  sort_many h = ground (arith, h, few)

  sort_few :
      ltb 1 (length s.freelist) ≡ false
      → sort_freelist s ≡ some (record s { freelist = s.freelist; freelist_is_sorted = true })
  unfolding sort_freelist
  sort_few h = ground (arith, h, few)

short-Ascending : (xs : List ℕ) → ltb 1 (length xs) ≡ false → Ascending 0 xs
short-Ascending [] h = tt
short-Ascending (x ∷ []) h = (omega arith, tt)
short-Ascending (x ∷ y ∷ ys) h = absurd (ground (arith, h))

-- For a span of at most 1024 provisioned slots whose freelist has only such slots and none twice,
-- SortFreelist passes its PA_CHECK and leaves the same freelist in ascending order, marked as sorted,
-- and the rest of the span as it was.
pub sort_freelist-SortsFreelist :
    (s : SlotSpan)
    → num_provisioned_slots s ≤ max_slots_per_slot_span
    → Fresh (num_provisioned_slots s) (λ x. false) s.freelist
    → SortsFreelist s (sort_freelist s)
unfolding sort_freelist set_freelist_head
sort_freelist-SortsFreelist s few fresh = elim (Bool-cases (ltb 1 (length s.freelist))) [
  | inl many ↦ record {
    sorted = chain_free (num_provisioned_slots s) 0 (mark_free s.freelist (λ x. false));
    ascending =
        chain_free-Ascending (num_provisioned_slots s) 0 (mark_free s.freelist (λ x. false));
    same = chained;
    result = sort_many s few many;
  }
  | inr one ↦ record {
    sorted = s.freelist;
    ascending = short-Ascending s.freelist one;
    same = Perm.rfl;
    result = sort_few s few one;
  }
]
  where
    chained :
        Perm (chain_free (num_provisioned_slots s) 0 (mark_free s.freelist (λ x. false))) s.freelist
    chained =
        subst (Perm (chain_free (num_provisioned_slots s) 0 (mark_free s.freelist (λ x. false))))
          (rw (chain_nothing (num_provisioned_slots s) 0, append-nil s.freelist) refl)
          (chain_free-mark_free (num_provisioned_slots s) s.freelist (λ x. false) fresh)
