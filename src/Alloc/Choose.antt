-- ===== src/Alloc/Choose.antt =====
-- Which span SlowPathAlloc chooses.
use partition_alloc.Base.{
  ==_self, ℕ, ◌/◌, ◌<◌, ◌≡◌, refl, sym, ap, ◌∙◌, inl, inr, Bool, true, false, not, ◌&&◌, ◌==◌, List,
  [], ◌∷◌, arith, Bool-cases, if_true, if_false, subst,
}
use partition_alloc.SlotSpan.{
  SlotSpan, Geometry, get_slots_per_span, is_nil, is_active, is_decommitted, reset,
}
use partition_alloc.Bucket.{Root, Spans, update}
use partition_alloc.Bucket.Visit.{push_all, before, from}
use partition_alloc.SuperPage.{
  Outcome, ok, null, out_of_memory, crash, partition_page_size, new_slot_span,
}
use partition_alloc.SuperPage.Invariant.{Ready, Fits}
use partition_alloc.SuperPage.Begin.{AllUsed}
use partition_alloc.SuperPage.Place.{Carves}
use partition_alloc.SuperPage.Carve.{Carved, alloc_new_slot_span-Carved}
use partition_alloc.Alloc.{
  Flags, State, Choice, chosen, gives_up, no_span, exhausts, fails, Taken, takes, none_left,
  rejected, reuse, take_decommitted, choose_taken, choose_made, choose_new, choose_swept,
}
use partition_alloc.Alloc.Lists.{All, All-push_all, All-from, from-head}
use partition_alloc.Alloc.Hand.{Good, HasSlot, stocked, unstocked}
use partition_alloc.Alloc.Empty.{
  keeps_slots, IsIdle, TakesFirst, bare_decommitted, take_empty-TakesFirst, some_slots, nil_of,
  reset-IsBare, new_slot_span-IsBare,
}

-- Where the span that SlowPathAlloc takes comes from, and in what state the lists are then: the head of
-- the active list; the first empty span that was not decommitted; the last span that was decommitted;
-- or a new one, only where the three lists are empty.
pub data Origin (base : ℕ) (g : Geometry) (flags : Flags) (st : State) (x : ℕ) (next : List ℕ)
    (zeroed : Bool) (s : SlotSpan) (st' : State) : Type 0 where
  found :
      st.bucket.active ≡ x ∷ next
      → zeroed ≡ false
      → s ≡ st.root.spans x
      → st' ≡ st
      → Origin base g flags st x next zeroed s st'
  emptied :
      (rest : List ℕ)
      → st.bucket.active ≡ []
      → from (keeps_slots st.root.spans) st.bucket.empty ≡ x ∷ rest
      → next ≡ []
      → zeroed ≡ false
      → s ≡ st.root.spans x
      → st'.bucket.empty ≡ rest
      → st'.bucket.decommitted
        ≡ push_all (before (keeps_slots st.root.spans) st.bucket.empty) st.bucket.decommitted
      → st'.root ≡ reuse x st.root
      → Origin base g flags st x next zeroed s st'
  recommitted :
      (rest : List ℕ)
      → st.bucket.active ≡ []
      → from (keeps_slots st.root.spans) st.bucket.empty ≡ []
      → flags.fast_path_or_return_null ≡ false
      → push_all st.bucket.empty st.bucket.decommitted ≡ x ∷ rest
      → next ≡ []
      → zeroed ≡ true
      → s ≡ reset (st.root.spans x)
      → st'.bucket.empty ≡ []
      → st'.bucket.decommitted ≡ rest
      → Origin base g flags st x next zeroed s st'
  made :
      (start : ℕ)
      → st.bucket.active ≡ []
      → st.bucket.empty ≡ []
      → st.bucket.decommitted ≡ []
      → flags.fast_path_or_return_null ≡ false
      → Carves base g partition_page_size st.pages start st'.pages
      → x ≡ start / partition_page_size
      → next ≡ []
      → zeroed ≡ true
      → s ≡ new_slot_span g
      → Origin base g flags st x next zeroed s st'

-- No slot is left but those of spans that have to be committed or made.
abbrev pub NothingReady : State → Type 0
NothingReady st = (st.bucket.active ≡ []) × (from (keeps_slots st.root.spans) st.bucket.empty ≡ [])

-- Neither the bucket has a span, nor the pool a super page.
abbrev pub NothingLeft : State → Type 0
NothingLeft st =
    (st.bucket.active ≡ [])
    × (st.bucket.empty ≡ [])
    × (st.bucket.decommitted ≡ [])
    × AllUsed st.pages.pool

abbrev pub Chooses : ℕ → Geometry → Flags → State → Choice → Type 0
Chooses base g flags st (chosen x next zeroed st') =
    HasSlot (st'.root.spans x) × Origin base g flags st x next zeroed (st'.root.spans x) st'
Chooses base g flags st (gives_up st') = (flags.fast_path_or_return_null ≡ true) × NothingReady st
Chooses base g flags st (no_span st') =
    (flags.return_null ≡ true) × (st'.bucket.active ≡ []) × NothingLeft st
Chooses base g flags st exhausts = (flags.return_null ≡ false) × NothingLeft st
Chooses base g flags st fails = ⊥

-- What holds of the lists of a bucket that SetNewActiveSlotSpan has swept.
pub record Sound (base : ℕ) (g : Geometry) (st : State) : Type 0 where
  pub head :
      (x : ℕ) (next : List ℕ)
      → st.bucket.active ≡ x ∷ next
      → HasSlot (st.root.spans x) × (is_active (st.root.spans x) ≡ true)
  pub good_empty : All (λ x. Good (st.root.spans x)) st.bucket.empty
  pub idle : All (IsIdle st.root) st.bucket.empty
  pub good_decommitted : All (λ x. Good (st.root.spans x)) st.bucket.decommitted
  pub slept : All (λ x. is_decommitted (st.root.spans x) ≡ true) st.bucket.decommitted
  pub size_pos : 0 < g.slot_size
  pub fits : Fits g partition_page_size
  pub ready : Ready base st.pages

update_self : (f : Spans) (i : ℕ) (v : SlotSpan) → update f i v i ≡ v
update_self f i v = if_true _ _ _ (==_self i)

choose_new-Chooses :
    (base : ℕ) (g : Geometry) (flags : Flags) (st : State)
    → Sound base g st
    → st.bucket.active ≡ []
    → st.bucket.empty ≡ []
    → st.bucket.decommitted ≡ []
    → Chooses base g flags st (choose_new g flags partition_page_size st)
unfolding choose_new
choose_new-Chooses base g flags st v a e d = elim (Bool-cases flags.fast_path_or_return_null) [
  | inl fast ↦
      subst (Chooses base g flags st) (sym (if_true _ _ _ fast))
        (fast, (a, ap (from (keeps_slots st.root.spans)) e))
  | inr slow ↦ subst (Chooses base g flags st) (sym (if_false _ _ _ slow)) (
      answer slow _ (
        alloc_new_slot_span-Carved base g partition_page_size flags.return_null st.pages v.fits
          v.ready))
]
  where
    answer :
        flags.fast_path_or_return_null ≡ false
        → (o : Outcome ℕ) → Carved base g partition_page_size flags.return_null st.pages o
        → Chooses base g flags st (choose_made g st o)
    answer slow (ok start q) c =
        let x = start / partition_page_size in
        let at = update_self st.root.spans x (new_slot_span g) in
        (
          subst HasSlot (sym at) (unstocked (new_slot_span-IsBare g v.fits.some_slots v.size_pos)),
          made start a e d slow c refl refl refl at,
        )
    answer slow (null q) c = (c.0, a, (a, e, d, c.2))
    answer slow out_of_memory c = (c.0, (a, e, d, c.2))
    answer slow crash c = c

-- Where no empty span kept its slots, all of them were decommitted.
idle_slept :
    (r : Root) (xs : List ℕ)
    → All (IsIdle r) xs
    → from (keeps_slots r.spans) xs ≡ []
    → All (λ x. is_decommitted (r.spans x) ≡ true) xs
idle_slept r [] h e = tt
idle_slept r (x ∷ xs) h e = elim (Bool-cases (is_nil (r.spans x).freelist)) [
  | inl bare ↦ (
    bare_decommitted (r.spans x) bare h.0.idle,
    idle_slept r xs h.1 (sym (if_false _ _ _ (ap not bare)) ∙ e),
  )
  | inr slots ↦ cc (sym (if_true _ _ _ (ap not slots)) ∙ e)
]

push_all-ne-nil : (xs : List ℕ) (y : ℕ) (ys : List ℕ) → push_all xs (y ∷ ys) ≡ [] → ⊥
push_all-ne-nil [] y ys e = cc
push_all-ne-nil (x ∷ xs) y ys e = push_all-ne-nil xs x (y ∷ ys) e

push_all_some : (xs ys : List ℕ) → not (is_nil xs && is_nil ys) ≡ true → push_all xs ys ≡ [] → ⊥
push_all_some [] [] h e = cc
push_all_some [] (y ∷ ys) h e = cc
push_all_some (x ∷ xs) ys h e = push_all-ne-nil xs x ys e

-- A decommitted span is used again.
recommit-Chooses :
    (base : ℕ) (g : Geometry) (flags : Flags) (st : State) (dec : List ℕ)
    → Sound base g st
    → st.bucket.active ≡ []
    → not (is_nil st.bucket.empty && is_nil st.bucket.decommitted) ≡ true
    → from (keeps_slots st.root.spans) st.bucket.empty ≡ []
    → push_all st.bucket.empty st.bucket.decommitted ≡ dec
    → All (λ x. Good (st.root.spans x)) dec
    → All (λ x. is_decommitted (st.root.spans x) ≡ true) dec
    → Chooses base g flags st (choose_taken flags st (none_left dec))
unfolding choose_taken take_decommitted
recommit-Chooses base g flags st [] v a some_left e k good slept =
    absurd (push_all_some st.bucket.empty st.bucket.decommitted some_left k)
recommit-Chooses base g flags st (x ∷ xs) v a some_left e k good slept =
    elim (Bool-cases flags.fast_path_or_return_null) [
      | inl fast ↦ subst (Chooses base g flags st) (sym (if_true _ _ _ fast)) (fast, (a, e))
      | inr slow ↦
          let s = st.root.spans x in
          let at = update_self st.root.spans x (reset s) in
          let slots : (get_slots_per_span s.bucket == 0) ≡ false =
            ground (arith, some_slots s good.0.valid) in
          let may : not (is_decommitted s && not (get_slots_per_span s.bucket == 0)) ≡ false =
            rw (slept.0, slots) refl in
          subst (Chooses base g flags st) (sym (if_false _ _ _ slow ∙ if_false _ _ _ may)) (
            subst HasSlot (sym at) (unstocked (reset-IsBare s good.0 slept.0)),
            recommitted xs a e slow k refl refl at refl refl,
          )
    ]

taken-Chooses :
    (base : ℕ) (g : Geometry) (flags : Flags) (st : State) (x : ℕ) (rest dec : List ℕ)
    → Sound base g st
    → st.bucket.active ≡ []
    → from (keeps_slots st.root.spans) st.bucket.empty ≡ x ∷ rest
    → dec ≡ push_all (before (keeps_slots st.root.spans) st.bucket.empty) st.bucket.decommitted
    → Chooses base g flags st (choose_taken flags st (takes x rest dec (reuse x st.root)))
unfolding choose_taken reuse
taken-Chooses base g flags st x rest dec v a e k =
    let good =
      subst (All (λ y. Good (st.root.spans y))) e
        (All-from _ (keeps_slots st.root.spans) st.bucket.empty v.good_empty) in
    let kept = from-head (keeps_slots st.root.spans) st.bucket.empty x rest e in
    let slots : is_nil (st.root.spans x).freelist ≡ false = ground (arith, kept) in
    (stocked good.0 slots, emptied rest a e refl refl refl refl k refl)

choose_taken-Chooses :
    (base : ℕ) (g : Geometry) (flags : Flags) (st : State) (o : Taken)
    → Sound base g st
    → st.bucket.active ≡ []
    → not (is_nil st.bucket.empty && is_nil st.bucket.decommitted) ≡ true
    → TakesFirst st.root st.bucket.empty st.bucket.decommitted o
    → Chooses base g flags st (choose_taken flags st o)
choose_taken-Chooses base g flags st (takes x rest dec r') v a some_left (e, k, same) =
    subst (λ r. Chooses base g flags st (choose_taken flags st (takes x rest dec r))) (sym same)
      (taken-Chooses base g flags st x rest dec v a e k)
choose_taken-Chooses base g flags st (none_left dec) v a some_left (e, k) =
    let good =
      All-push_all (λ x. Good (st.root.spans x)) st.bucket.empty st.bucket.decommitted v.good_empty
        v.good_decommitted in
    let slept =
      All-push_all (λ x. is_decommitted (st.root.spans x) ≡ true) st.bucket.empty
        st.bucket.decommitted (idle_slept st.root st.bucket.empty v.idle e) v.slept in
    recommit-Chooses base g flags st dec v a some_left e (sym k)
      (subst (All (λ x. Good (st.root.spans x))) (sym k) good)
      (subst (All (λ x. is_decommitted (st.root.spans x) ≡ true)) (sym k) slept)
choose_taken-Chooses base g flags st rejected v a some_left h = absurd h

both_nil :
    (xs ys : List ℕ)
    → not (is_nil xs && is_nil ys) ≡ false
    → (is_nil xs ≡ true) × (is_nil ys ≡ true)
both_nil xs ys h = (ground arith, ground arith)

-- What is left of SlowPathAlloc's choice, once the active list has been swept.
pub choose_swept-Chooses :
    (base : ℕ) (g : Geometry) (flags : Flags) (st : State) (xs : List ℕ)
    → Sound base g st
    → st.bucket.active ≡ xs
    → Chooses base g flags st (choose_swept g flags partition_page_size st xs)
unfolding choose_swept
choose_swept-Chooses base g flags st (x ∷ xs) v e =
    let (usable, active) = v.head x xs e in
    subst (Chooses base g flags st) (sym (if_true _ _ _ active)) (usable, found e refl refl refl)
choose_swept-Chooses base g flags st [] v e =
    elim (Bool-cases (not (is_nil st.bucket.empty && is_nil st.bucket.decommitted))) [
      | inl lists ↦ subst (Chooses base g flags st) (sym (if_true _ _ _ lists)) (
          choose_taken-Chooses base g flags st _ v e lists
            (take_empty-TakesFirst st.bucket.empty st.bucket.decommitted st.root v.idle))
      | inr bare ↦ subst (Chooses base g flags st) (sym (if_false _ _ _ bare)) (
          choose_new-Chooses base g flags st v e
            (nil_of _ (both_nil st.bucket.empty st.bucket.decommitted bare).0)
            (nil_of _ (both_nil st.bucket.empty st.bucket.decommitted bare).1))
    ]
