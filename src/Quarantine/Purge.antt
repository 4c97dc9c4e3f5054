-- ===== src/Quarantine/Purge.antt =====
-- The two loops of lightweight_quarantine.cc that dequarantine.
use partition_alloc.Base.{
  ℕ, ◌+◌, ◌≤◌, ◌<◌, ◌≡◌, refl, sym, ap, ◌∙◌, ◌⊎◌, inl, inr, Bool, true, false, ltb, leb, Option,
  none, some, List, [], ◌∷◌, ◌++◌, length, Bool-cases, ltb→lt, ltb→le, leb→le, arith,
}
use mathlib.Core.List.{append_assoc, append-nil}
use partition_alloc.Quarantine.{
  QuarantineSlot, Purging, take_out, purge_loop, deferred_loop, size_mod, max_free_times_per_purge,
}

abbrev pub total : List QuarantineSlot → ℕ
total [] = 0
total (x ∷ xs) = x.usable_size + total xs

abbrev pub starts : List QuarantineSlot → List ℕ
starts [] = []
starts (x ∷ xs) = x.slot_start ∷ starts xs

-- Each slot of `out` was taken while the slots left, itself among them, were over the target.
abbrev pub Needed : ℕ → List QuarantineSlot → List QuarantineSlot → Type 0
Needed target [] kept = Unit {0}
Needed target (x ∷ xs) kept = (target < total (x ∷ xs) + total kept) × Needed target xs kept

-- The newest slots `out` are taken out of `xs`, in order, and `kept` are left.
pub record Purged (locked : Bool) (target : ℕ) (xs : List QuarantineSlot) (p p' : Purging)
    : Type 0 where
  pub out : List QuarantineSlot
  pub kept : List QuarantineSlot
  pub split : xs ≡ out ++ kept
  pub slots : p'.slots ≡ kept
  pub size : p'.size ≡ total kept
  pub gone : p'.gone ≡ p.gone ++ starts out
  pub freed_count : p'.freed_count ≡ p.freed_count + length out
  pub freed_size : p'.freed_size_in_bytes ≡ p.freed_size_in_bytes + total out
  pub needed : Needed target out kept
  pub within :
      (total kept ≤ target) ⊎ ((locked ≡ true) × (p'.freed_count ≡ max_free_times_per_purge))
  pub few : locked ≡ true → p'.freed_count ≤ max_free_times_per_purge

abbrev pub Purges : Bool → ℕ → List QuarantineSlot → Purging → Option Purging → Type 0
Purges locked target xs p none = ⊥
Purges locked target xs p (some p') = Purged locked target xs p p'

abbrev Ready : Bool → Purging → Type 0
Ready locked p = locked ≡ true → p.freed_count < max_free_times_per_purge

pub total-append : (xs ys : List QuarantineSlot) → total (xs ++ ys) ≡ total xs + total ys
total-append [] ys = omega arith
total-append (x ∷ xs) ys = omega (arith, total-append xs ys)

-- Nothing is taken out.
Purged-none :
    (locked : Bool) (target : ℕ) (xs : List QuarantineSlot) (p : Purging)
    → p.slots ≡ xs
    → p.size ≡ total xs
    → total xs ≤ target
    → Ready locked p
    → Purged locked target xs p p
Purged-none locked target xs p same sized fits ready = record {
  out = [];
  kept = xs;
  split = refl;
  slots = same;
  size = sized;
  gone = sym (append-nil p.gone);
  freed_count = omega arith;
  freed_size = omega arith;
  needed = tt;
  within = inl fits;
  few = λ l. omega (arith, ready l);
}

-- One slot is taken out, and then nothing, at the limit of the locked loop.
Purged-last :
    (target : ℕ) (x : QuarantineSlot) (xs : List QuarantineSlot) (p : Purging)
    → p.size ≡ total (x ∷ xs)
    → total (x ∷ xs) < size_mod
    → target < p.size
    → p.freed_count + 1 ≡ max_free_times_per_purge
    → Purged true target (x ∷ xs) p (take_out x xs p)
Purged-last target x xs p sized small over last = record {
  out = x ∷ [];
  kept = xs;
  split = refl;
  slots = refl;
  size = omega arith;
  gone = refl;
  freed_count = omega arith;
  freed_size = omega arith;
  needed = (omega arith, tt);
  within = inr (refl, last);
  few = λ l. omega arith;
}

-- One slot is taken out, and then the rest.
Purged-cons :
    (locked : Bool) (target : ℕ) (x : QuarantineSlot) (xs : List QuarantineSlot) (p p' : Purging)
    → p.size ≡ total (x ∷ xs)
    → target < p.size
    → Purged locked target xs (take_out x xs p) p'
    → Purged locked target (x ∷ xs) p p'
Purged-cons locked target x xs p p' sized over r =
    let sum : total xs ≡ total r.out + total r.kept =
      ap total r.split ∙ total-append r.out r.kept in
    record {
      out = x ∷ r.out;
      kept = r.kept;
      split = ap {B = List QuarantineSlot} (λ ys. x ∷ ys) r.split;
      slots = r.slots;
      size = r.size;
      gone = r.gone ∙ append_assoc p.gone (x.slot_start ∷ []) (starts r.out);
      freed_count = omega (arith, r.freed_count);
      freed_size = omega (arith, r.freed_size);
      needed = (omega arith, r.needed);
      within = r.within;
      few = r.few;
    }

pub purge_loop-Purges :
    (target : ℕ) (xs : List QuarantineSlot) (p : Purging)
    → p.slots ≡ xs
    → p.size ≡ total xs
    → total xs < size_mod
    → Purges false target xs p (purge_loop target xs p)
unfolding purge_loop
purge_loop-Purges target [] p same sized small = elim (Bool-cases (ltb target p.size)) [
  | inl over ↦ absurd (omega (arith, ltb→lt _ _ over))
  | inr fits ↦ rw fits (Purged-none false target [] p same sized (omega arith) (λ l. cc))
]
purge_loop-Purges target (x ∷ xs) p same sized small = elim (Bool-cases (ltb target p.size)) [
  | inl over ↦ rw over (
      step (purge_loop target xs (take_out x xs p)) (ltb→lt _ _ over)
        (purge_loop-Purges target xs (take_out x xs p) refl (omega arith) (omega arith)))
  | inr fits ↦
      rw fits
        (Purged-none false target (x ∷ xs) p same sized (omega (arith, ltb→le _ _ fits)) (λ l. cc))
]
  where
    step :
        (o : Option Purging)
        → target < p.size
        → Purges false target xs (take_out x xs p) o
        → Purges false target (x ∷ xs) p o
    step none over h = h
    step (some p') over h = Purged-cons false target x xs p p' sized over h

pub deferred_loop-Purges :
    (target : ℕ) (xs : List QuarantineSlot) (p : Purging)
    → p.slots ≡ xs
    → p.size ≡ total xs
    → total xs < size_mod
    → p.freed_count < max_free_times_per_purge
    → Purges true target xs p (deferred_loop target xs p)
unfolding deferred_loop
deferred_loop-Purges target [] p same sized small ready = elim (Bool-cases (ltb target p.size)) [
  | inl over ↦ absurd (omega (arith, ltb→lt _ _ over))
  | inr fits ↦ rw fits (Purged-none true target [] p same sized (omega arith) (λ l. ready))
]
deferred_loop-Purges target (x ∷ xs) p same sized small ready =
    elim (Bool-cases (ltb target p.size)) [
      | inl over ↦
          let more = ltb→lt _ _ over in
          elim (Bool-cases (leb max_free_times_per_purge (p.freed_count + 1))) [
            | inl last ↦
                rw (over, last)
                  (Purged-last target x xs p sized small more (omega (arith, leb→le _ _ last)))
            | inr early ↦
                rw (over, early)
                  (step (deferred_loop target xs (take_out x xs p)) more (
                    deferred_loop-Purges target xs (take_out x xs p) refl (omega arith)
                      (omega arith) (ground (arith, early))))
          ]
      | inr fits ↦ rw fits (
          Purged-none true target (x ∷ xs) p same sized (omega (arith, ltb→le _ _ fits))
            (λ l. ready))
    ]
  where
    step :
        (o : Option Purging)
        → target < p.size
        → Purges true target xs (take_out x xs p) o
        → Purges true target (x ∷ xs) p o
    step none over h = h
    step (some p') over h = Purged-cons true target x xs p p' sized over h
