-- ===== src/Quarantine/Insert.antt =====
-- Quarantine of lightweight_quarantine.cc.
use mathlib.Core.List.Perm as Perm
use mathlib.Core.List.{Perm}
use partition_alloc.Base.{
  ℕ, ◌-◌, ◌≤◌, ◌<◌, ◌≡◌, ◌⊎◌, Bool, true, false, Option, none, some, List, [], ◌∷◌, ◌++◌, length,
}
use partition_alloc.Quarantine.{QuarantineSlot, Branch, add_size, max_free_times_per_purge}
use partition_alloc.Quarantine.Purge.{starts, Needed}
use partition_alloc.Quarantine.Capacity.{Books}

-- The slot is held: the slots `out` went to make room for it, `kept` stayed.
pub record Held (other_size other_count : ℕ) (x : QuarantineSlot) (b b' : Branch) : Type 0 where
  pub out : List QuarantineSlot
  pub kept : List QuarantineSlot
  pub split : b.slots ≡ out ++ kept
  pub slots : Perm b'.slots (x ∷ kept)
  pub freed : b'.freed ≡ b.freed ++ starts out
  pub needed : Needed (b.branch_capacity_in_bytes - x.usable_size) out kept
  pub within :
      (b'.branch_size_in_bytes ≤ b.branch_capacity_in_bytes)
      ⊎ ((b.lock_required ≡ true) × (length out ≡ max_free_times_per_purge))
  pub few : b.lock_required ≡ true → length out ≤ max_free_times_per_purge
  pub books : Books other_size other_count b'

-- Quarantine frees the slot at once, or holds it.
pub data Quarantined (other_size other_count : ℕ) (x : QuarantineSlot) (b : Branch)
    (r : Branch × Bool) : Type 0 where
  missed :
      b.branch_capacity_in_bytes < x.usable_size
      → r.1 ≡ false
      → r.0.slots ≡ b.slots
      → r.0.freed ≡ b.freed ++ (x.slot_start ∷ [])
      → r.0.stats.quarantine_miss_count ≡ add_size b.stats.quarantine_miss_count 1
      → Books other_size other_count r.0
      → Quarantined other_size other_count x b r
  held :
      x.usable_size ≤ b.branch_capacity_in_bytes
      → r.1 ≡ true
      → Held other_size other_count x b r.0
      → Quarantined other_size other_count x b r

abbrev pub Quarantines : ℕ → ℕ → QuarantineSlot → Branch → Option (Branch × Bool) → Type 0
Quarantines other_size other_count x b none = ⊥
Quarantines other_size other_count x b (some r) = Quarantined other_size other_count x b r
