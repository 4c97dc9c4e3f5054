-- ===== src/Quarantine/Capacity.antt =====
-- Purge of lightweight_quarantine.cc, and what both purges do to a branch.
use mathlib.Core.List.{append-nil}
use partition_alloc.Base.{
  ℕ, ◌+◌, ◌%◌, ◌≤◌, ◌<◌, ◌≡◌, refl, sym, ap, ◌∙◌, subst, ◌⊎◌, inl, inr, Bool, true, false, Option,
  none, some, List, [], ◌∷◌, ◌++◌, length, length-append, arith,
}
use partition_alloc.Quarantine.{
  QuarantineSlot, Branch, Purging, begin_purge, end_purge, purge_internal, purge, sub_size,
  size_mod, max_free_times_per_purge, purge_loop, deferred_loop,
}
use partition_alloc.Quarantine.Purge.{
  total, starts, Needed, Purged, Purges, total-append, purge_loop-Purges, deferred_loop-Purges,
}

-- The branch knows the size of what it holds, and the root counts it beside what the other branches
-- hold, `other_size` bytes in `other_count` slots.
pub record Books (other_size other_count : ℕ) (b : Branch) : Type 0 where
  pub size : b.branch_size_in_bytes ≡ total b.slots
  pub small : total b.slots < size_mod
  pub root_size : b.stats.size_in_bytes ≡ (other_size + total b.slots) % size_mod
  pub root_count : b.stats.count ≡ (other_count + length b.slots) % size_mod

-- A purge of `b` to the target, which took out the slots `out`.
pub record Emptied (locked : Bool) (target other_size other_count : ℕ) (b b' : Branch)
    : Type 0 where
  pub out : List QuarantineSlot
  pub split : b.slots ≡ out ++ b'.slots
  pub freed : b'.freed ≡ b.freed ++ starts out
  pub needed : Needed target out b'.slots
  pub within :
      (total b'.slots ≤ target) ⊎ ((locked ≡ true) × (length out ≡ max_free_times_per_purge))
  pub few : locked ≡ true → length out ≤ max_free_times_per_purge
  pub capacity : b'.branch_capacity_in_bytes ≡ b.branch_capacity_in_bytes
  pub books : Books other_size other_count b'

abbrev pub Empties : Bool → ℕ → ℕ → ℕ → Branch → Option Branch → Type 0
Empties locked target other_size other_count b none = ⊥
Empties locked target other_size other_count b (some b') =
    Emptied locked target other_size other_count b b'

left_over : (other k m : ℕ) → sub_size ((other + (k + m)) % size_mod) k ≡ (other + m) % size_mod
left_over other k m = omega arith

Emptied-end_purge :
    (locked : Bool) (target other_size other_count : ℕ) (b : Branch) (p : Purging)
    → Books other_size other_count b
    → Purged locked target b.slots (begin_purge b) p
    → Emptied locked target other_size other_count b (end_purge b p)
Emptied-end_purge locked target other_size other_count b p v r =
    let sum : total b.slots ≡ total r.out + total p.slots =
      ap total r.split
      ∙ total-append r.out r.kept
      ∙ ap (λ s. total r.out + total s) (sym r.slots) in
    let long : length b.slots ≡ length r.out + length p.slots =
      ap length r.split
      ∙ length-append r.out r.kept
      ∙ ap (λ s. length r.out + length s) (sym r.slots) in
    let bytes : p.freed_size_in_bytes ≡ total r.out = omega (arith, r.freed_size) in
    let slots : p.freed_count ≡ length r.out = omega (arith, r.freed_count) in
    record {
      out = r.out;
      split = r.split ∙ ap {B = List QuarantineSlot} (λ s. r.out ++ s) (sym r.slots);
      freed = ap {B = List ℕ} (λ s. b.freed ++ s) r.gone;
      needed = subst (Needed target r.out) (sym r.slots) r.needed;
      within = ground (arith, r.within, r.freed_count, ap total r.slots);
      few = λ l. omega (arith, r.few l, r.freed_count);
      capacity = refl;
      books = record {
        size = r.size ∙ ap total (sym r.slots);
        small = omega arith;
        root_size =
            rw (v.root_size, bytes, sum) (left_over other_size (total r.out) (total p.slots));
        root_count =
            rw (v.root_count, slots, long) (left_over other_count (length r.out) (length p.slots));
      };
    }

pub purge_internal-Empties :
    (locked : Bool) (target other_size other_count : ℕ) (b : Branch)
    → Books other_size other_count b
    → Empties locked target other_size other_count b (purge_internal locked target b)
unfolding purge_internal
purge_internal-Empties true target other_size other_count b v =
    finish (deferred_loop target b.slots (begin_purge b))
      (deferred_loop-Purges target b.slots (begin_purge b) refl v.size v.small (omega arith))
  where
    finish :
        (o : Option Purging)
        → Purges true target b.slots (begin_purge b) o
        → Empties true target other_size other_count b
            (elim o [ none ↦ none | some p ↦ some (end_purge b p) ])
    finish none h = h
    finish (some p) h = Emptied-end_purge true target other_size other_count b p v h
purge_internal-Empties false target other_size other_count b v =
    finish (purge_loop target b.slots (begin_purge b))
      (purge_loop-Purges target b.slots (begin_purge b) refl v.size v.small)
  where
    finish :
        (o : Option Purging)
        → Purges false target b.slots (begin_purge b) o
        → Empties false target other_size other_count b
            (elim o [ none ↦ none | some p ↦ some (end_purge b p) ])
    finish none h = h
    finish (some p) h = Emptied-end_purge false target other_size other_count b p v h

-- Every slot that the branch holds has at least one byte.
abbrev pub Sized : List QuarantineSlot → Type 0
Sized [] = Unit {0}
Sized (x ∷ xs) = (0 < x.usable_size) × Sized xs

none-total : (xs : List QuarantineSlot) → Sized xs → total xs ≤ 0 → xs ≡ []
none-total [] s h = refl
none-total (x ∷ xs) s h = absurd (omega (arith, s.0))

Sized-tail : (out kept : List QuarantineSlot) → Sized (out ++ kept) → Sized kept
Sized-tail [] kept s = s
Sized-tail (x ∷ out) kept s = Sized-tail out kept s.1

-- What Purge leaves behind.
pub record Drained (other_size other_count : ℕ) (b b' : Branch) : Type 0 where
  pub slots : b'.slots ≡ []
  pub size : b'.branch_size_in_bytes ≡ 0
  pub freed : b'.freed ≡ b.freed ++ starts b.slots
  pub root_size : b'.stats.size_in_bytes ≡ other_size % size_mod
  pub root_count : b'.stats.count ≡ other_count % size_mod

abbrev pub Drains : ℕ → ℕ → Branch → Option Branch → Type 0
Drains other_size other_count b none = ⊥
Drains other_size other_count b (some b') = Drained other_size other_count b b'

-- Where the books are right and every slot has a byte, Purge never fails its check: it frees every
-- slot of the branch, from the end of the vector on, and leaves the branch empty, at size 0, and the root's
-- statistics at what the other branches hold.
pub purge-Drains :
    (other_size other_count : ℕ) (b : Branch)
    → Books other_size other_count b
    → Sized b.slots
    → Drains other_size other_count b (purge b)
unfolding purge
purge-Drains other_size other_count b v sized =
    finish (purge_internal false 0 b) (purge_internal-Empties false 0 other_size other_count b v)
  where
    finish :
        (o : Option Branch)
        → Empties false 0 other_size other_count b o
        → Drains other_size other_count b o
    finish none h = h
    finish (some b') e =
        let small : total b'.slots ≤ 0 = elim e.within [ inl h ↦ h | inr h ↦ cc ] in
        let gone : b'.slots ≡ [] =
          none-total b'.slots (Sized-tail e.out b'.slots (subst Sized e.split sized)) small in
        let all : b.slots ≡ e.out =
          e.split ∙ ap {B = List QuarantineSlot} (λ s. e.out ++ s) gone ∙ append-nil e.out in
        record {
          slots = gone;
          size = omega (arith, e.books.size);
          freed = e.freed ∙ ap {B = List ℕ} (λ s. b.freed ++ starts s) (sym all);
          root_size = omega (arith, e.books.root_size);
          root_count = omega (arith, e.books.root_count, ap length gone);
        }
