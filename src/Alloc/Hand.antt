-- ===== src/Alloc/Hand.antt =====
-- The end of SlowPathAlloc: what is made of the span that has been chosen.
use native.Mathlib.Nat.{div-mul-le_self, lt-div-mul-add}
use partition_alloc.Base.{
  ℕ, ◌+◌, ◌-◌, ◌*◌, ◌<◌, ◌≡◌, refl, sym, ap, ◌⊎◌, inl, inr, Bool, true, false, not, leb, ltb, ◌==◌,
  if◌then◌else◌, Option, none, some, List, [], ◌∷◌, arith, Bool-cases, ==_self, leb_of, ltb_of,
  ==_of, if_true, if_false, subst,
}
use partition_alloc.SlotSpan.{
  SlotSpan, get_slots_per_span, align_up_page, is_nil, is_full, pop_for_alloc, commit_end,
  slots_to_provision, provision_more_slots_and_alloc_one,
}
use partition_alloc.SlotSpan.States.{IsValid, committed, decommitted, pop_for_alloc-IsValid}
use partition_alloc.SlotSpan.Provision.{provision-Provisioned, slots_to_provision-le}
use partition_alloc.Bucket.{update}
use partition_alloc.Alloc.{
  Flags, Commits, State, Result, slot, null_slot, exhausted, failed, may_provision, no_memory,
  hand_over, provision_slot, popped_or, hand_out,
}

abbrev provisioned_size : SlotSpan → ℕ
provisioned_size s = s.bucket.slot_size * (get_slots_per_span s.bucket - s.num_unprovisioned_slots)

-- The books of the span are right, and its committed pages hold no whole slot that is unprovisioned.
pub record Good (s : SlotSpan) : Type 0 where
  pub valid : IsValid s
  pub size_pos : 0 < s.bucket.slot_size
  pub frontier :
      0 < s.num_unprovisioned_slots
      → align_up_page (provisioned_size s) < provisioned_size s + s.bucket.slot_size

-- The slot `i` was free in the span, which has handed it out since.
pub record Hands (before : SlotSpan) (i : ℕ) (after : SlotSpan) : Type 0 where
  pub was_free :
      ((rest : List ℕ) × (before.freelist ≡ i ∷ rest))
      ⊎ ((before.freelist ≡ [])
          × (i ≡ before.num_allocated_slots)
          × (i < get_slots_per_span before.bucket))
  pub counted : after.num_allocated_slots ≡ before.num_allocated_slots + 1
  pub same_bucket : after.bucket ≡ before.bucket
  pub good : Good after

abbrev pub popped : ℕ → List ℕ → SlotSpan → SlotSpan
popped i rest s = record s { freelist = rest; num_allocated_slots = s.num_allocated_slots + 1 }

pub pop-Hands :
    (s : SlotSpan) (i : ℕ) (rest : List ℕ)
    → Good s
    → s.freelist ≡ i ∷ rest
    → (pop_for_alloc s ≡ some (i, popped i rest s)) × Hands s i (popped i rest s)
unfolding pop_for_alloc
pop-Hands s i rest g e =
    let pops : pop_for_alloc s ≡ some (i, popped i rest s) =
      ap {B = Option (ℕ × SlotSpan)}
        (λ xs. elim xs [
          | [] ↦ none
          | y ∷ ys ↦
              some (y, record s { freelist = ys; num_allocated_slots = s.num_allocated_slots + 1 })
        ])
        e in
    (
      pops,
      record {
        was_free = inl (rest, e);
        counted = refl;
        same_bucket = refl;
        good = record {
          valid = pop_for_alloc-IsValid s g.valid pops;
          size_pos = g.size_pos;
          frontier = g.frontier;
        };
      },
    )

-- With an empty freelist and slots left, each slot is allocated or unprovisioned.
books :
    (s : SlotSpan)
    → IsValid s
    → s.freelist ≡ []
    → 0 < s.num_unprovisioned_slots
    → s.num_allocated_slots + s.num_unprovisioned_slots ≡ get_slots_per_span s.bucket
books s (committed pos sum room) e left = ground arith
books s (decommitted pos a f u) e left = absurd (omega arith)

mul_sum : (a n k : ℕ) → a * (n + k) ≡ a * n + k * a
mul_sum a n k = grind arith

-- Every slot of the span is allocated or unprovisioned, and some are left.
pub record IsBare (s : SlotSpan) : Type 0 where
  pub bare : s.freelist ≡ []
  pub sum : s.num_allocated_slots + s.num_unprovisioned_slots ≡ get_slots_per_span s.bucket
  pub left : 0 < s.num_unprovisioned_slots
  pub size_pos : 0 < s.bucket.slot_size
  pub frontier : align_up_page (provisioned_size s) < provisioned_size s + s.bucket.slot_size

-- A span that a slot can be had from.
pub data HasSlot (s : SlotSpan) : Type 0 where
  stocked : Good s → is_nil s.freelist ≡ false → HasSlot s
  unstocked : IsBare s → HasSlot s

pub Good-IsBare :
    (s : SlotSpan) → Good s → s.freelist ≡ [] → 0 < s.num_unprovisioned_slots → IsBare s
Good-IsBare s g e left = record {
  bare = e;
  sum = books s g.valid e left;
  left = left;
  size_pos = g.size_pos;
  frontier = g.frontier left;
}

module _ (s : SlotSpan) (g : IsBare s) where
  -- The first slot that is not provisioned ends behind the committed pages.
  behind :
      align_up_page (s.bucket.slot_size * s.num_allocated_slots)
      < s.bucket.slot_size * s.num_allocated_slots + s.bucket.slot_size
  behind =
      let count : get_slots_per_span s.bucket - s.num_unprovisioned_slots ≡ s.num_allocated_slots =
        omega (arith, g.sum) in
      subst
        (λ n. align_up_page (s.bucket.slot_size * n) < s.bucket.slot_size * n + s.bucket.slot_size)
        count g.frontier

  may_provision_lem : may_provision s ≡ true
  unfolding may_provision is_full
  may_provision_lem =
      let bare : is_nil s.freelist ≡ true = ap is_nil g.bare in
      let some_left : not (s.num_unprovisioned_slots == 0) ≡ true = ground (arith, g.left) in
      let few : leb s.num_unprovisioned_slots (get_slots_per_span s.bucket) ≡ true =
        leb_of _ _ (omega (arith, g.sum)) in
      let counted : (s.num_unprovisioned_slots + s.num_allocated_slots
            == get_slots_per_span s.bucket)
          ≡ true =
        ==_of _ _ (omega (arith, g.sum)) in
      let part : not (s.num_allocated_slots == get_slots_per_span s.bucket) ≡ true =
        ground (arith, g.sum) in
      let start = s.bucket.slot_size * s.num_allocated_slots in
      let fits : ltb (align_up_page start) (start + s.bucket.slot_size) ≡ true =
        ltb_of _ _ behind in
      let grows : ltb (align_up_page start) (commit_end s) ≡ true =
        ltb_of _ _ (omega (arith, behind)) in
      rw (some_left, few, counted, bare, part, fits, grows) refl

  -- The limit of the committed pages lies in the first slot that is left.
  frontier_after :
      align_up_page (
        s.bucket.slot_size
        * (get_slots_per_span s.bucket - (s.num_unprovisioned_slots - slots_to_provision s)))
      < s.bucket.slot_size
          * (get_slots_per_span s.bucket - (s.num_unprovisioned_slots - slots_to_provision s))
        + s.bucket.slot_size
  frontier_after =
      let size = s.bucket.slot_size in
      let n = s.num_allocated_slots in
      let k = slots_to_provision s in
      let count : n + k ≡ get_slots_per_span s.bucket - (s.num_unprovisioned_slots - k) =
        omega (arith, g.sum, slots_to_provision-le s g.size_pos g.sum g.left) in
      let product : size * (n + k) ≡ size * n + k * size = mul_sum size n k in
      subst (λ m. align_up_page (size * m) < size * m + size) count
        (omega (
          arith,
          product,
          div-mul-le_self (commit_end s - size * n) size,
          lt-div-mul-add {a = commit_end s - size * n} g.size_pos,
        ))

  provision-Hands :
      Hands s (provision_more_slots_and_alloc_one s).0 (provision_more_slots_and_alloc_one s).1
  unfolding provision_more_slots_and_alloc_one
  provision-Hands =
      let done = provision-Provisioned s g.size_pos g.sum g.left in
      record {
        was_free = inr (g.bare, refl, omega (arith, g.sum, g.left));
        counted = refl;
        same_bucket = refl;
        good = record { valid = done.valid; size_pos = g.size_pos; frontier = λ h. frontier_after };
      }

-- What is made of the span `x` of the state: a slot of it is handed out, and nothing else changes; or
-- none is, only where a page is needed that the system does not commit.
abbrev pub HandsOut : Flags → Commits → ℕ → Bool → State → Result → Type 0
HandsOut flags commits x zeroed st (slot y i z st') =
    (y ≡ x)
    × (z ≡ zeroed)
    × Hands (st.root.spans x) i (st'.root.spans x)
    × (st'
        ≡ record st { root = record st.root { spans = update st.root.spans x (st'.root.spans x) } })
HandsOut flags commits x zeroed st (null_slot st') =
    (flags.return_null ≡ true) × (commits ≡ false) × ((st.root.spans x).freelist ≡ []) × (st' ≡ st)
HandsOut flags commits x zeroed st exhausted =
    (flags.return_null ≡ false) × (commits ≡ false) × ((st.root.spans x).freelist ≡ [])
HandsOut flags commits x zeroed st failed = ⊥

update_self {ℓ} : {A : Type ℓ} (f : ℕ → A) (i : ℕ) (v : A) → update f i v i ≡ v
update_self f i v = if_true _ _ _ (==_self i)

hand_over-HandsOut :
    (flags : Flags) (commits : Commits) (x : ℕ) (zeroed : Bool) (st : State) (i : ℕ) (s : SlotSpan)
    → Hands (st.root.spans x) i s
    → HandsOut flags commits x zeroed st (hand_over x zeroed st (i, s))
hand_over-HandsOut flags commits x zeroed st i s h =
    let at = update_self st.root.spans x s in
    (
      refl,
      refl,
      subst (Hands (st.root.spans x) i) (sym at) h,
      ap {B = State} (λ t. record st { root = record st.root { spans = update st.root.spans x t } })
          (sym at),
    )

no_memory-HandsOut :
    (flags : Flags) (x : ℕ) (zeroed : Bool) (st : State)
    → (st.root.spans x).freelist ≡ []
    → HandsOut flags false x zeroed st (no_memory flags st)
unfolding no_memory
no_memory-HandsOut flags x zeroed st e = elim (Bool-cases flags.return_null) [
  | inl asked ↦
      subst (HandsOut flags false x zeroed st) (sym (if_true _ _ _ asked)) (asked, refl, e, refl)
  | inr not_asked ↦
      subst (HandsOut flags false x zeroed st) (sym (if_false _ _ _ not_asked)) (not_asked, refl, e)
]

provision-HandsOut :
    (flags : Flags) (commits : Commits) (x : ℕ) (zeroed : Bool) (st : State)
    → IsBare (st.root.spans x)
    → HandsOut flags commits x zeroed st (provision_slot flags commits x zeroed st)
unfolding provision_slot
provision-HandsOut flags commits x zeroed st g =
    let may : not (may_provision (st.root.spans x)) ≡ false =
      ap not (may_provision_lem (st.root.spans x) g) in
    subst (HandsOut flags commits x zeroed st) (sym (if_false _ _ _ may)) (answer commits)
  where
    answer :
        (c : Commits)
        → HandsOut flags c x zeroed st (
            if c
            then hand_over x zeroed st (provision_more_slots_and_alloc_one (st.root.spans x))
            else no_memory flags st)
    answer true =
        hand_over-HandsOut flags true x zeroed st _ _ (provision-Hands (st.root.spans x) g)
    answer false = no_memory-HandsOut flags x zeroed st g.bare

bare_pop : (s : SlotSpan) → s.freelist ≡ [] → pop_for_alloc s ≡ none
unfolding pop_for_alloc
bare_pop s e =
    ap {B = Option (ℕ × SlotSpan)}
      (λ xs. elim xs [
        | [] ↦ none
        | y ∷ ys ↦
            some (y, record s { freelist = ys; num_allocated_slots = s.num_allocated_slots + 1 })
      ])
      e

pub List-cases : (xs : List ℕ) → is_nil xs ≡ false → (y : ℕ) × (ys : List ℕ) × (xs ≡ y ∷ ys)
List-cases [] e = cc
List-cases (y ∷ ys) e = (y, ys, refl)

-- From a span with a slot to be had, the end of SlowPathAlloc hands out a slot and fails no check.
pub hand_out-HandsOut :
    (flags : Flags) (commits : Commits) (x : ℕ) (zeroed : Bool) (st : State)
    → HasSlot (st.root.spans x)
    → HandsOut flags commits x zeroed st (hand_out flags commits x zeroed st)
unfolding hand_out
hand_out-HandsOut flags commits x zeroed st (unstocked g) =
    subst (λ o. HandsOut flags commits x zeroed st (popped_or flags commits x zeroed st o))
      (sym (bare_pop (st.root.spans x) g.bare)) (provision-HandsOut flags commits x zeroed st g)
hand_out-HandsOut flags commits x zeroed st (stocked g e) =
    let (i, rest, at) = List-cases (st.root.spans x).freelist e in
    let h = pop-Hands (st.root.spans x) i rest g at in
    subst (λ o. HandsOut flags commits x zeroed st (popped_or flags commits x zeroed st o))
      (sym h.0) (hand_over-HandsOut flags commits x zeroed st i _ h.1)
