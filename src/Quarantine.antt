-- ===== src/Quarantine.antt =====
-- LightweightQuarantineBranch and LightweightQuarantineRoot of
-- src/partition_alloc/lightweight_quarantine.cc: slots that wait before they are freed. The vector
-- `slots_` is a list, its last entry first. FreeNoHooksImmediate belongs to the root, and `freed` is
-- the log of the slots it was called with; a number of RandUint32 is an argument. A quantity of type
-- size_t wraps at 2 ^ 64. A failed check that an entry is left is `none`; the checks on addresses, which
-- belong to the root, are left out. A branch with `lock_required_` set frees after the lock is
-- released; here a call runs to its end before the next one.
pub mod Purge
pub mod Capacity
pub mod Insert
mod Tests
use partition_alloc.Base.{
  ℕ, zero, suc, ◌+◌, ◌-◌, ◌%◌, ◌^◌, Bool, true, false, ltb, leb, if◌then◌else◌, Option, none, some,
  List, [], ◌∷◌, ◌++◌, length, ◌==◌,
}

pub record QuarantineSlot : Type 0 where
  pub slot_start : ℕ
  pub usable_size : ℕ

-- The statistics of the root, which its branches share.
pub record Stats : Type 0 where
  pub size_in_bytes : ℕ
  pub count : ℕ
  pub cumulative_count : ℕ
  pub cumulative_size_in_bytes : ℕ
  pub quarantine_miss_count : ℕ

pub record Branch : Type 0 where
  pub lock_required : Bool
  pub slots : List QuarantineSlot
  pub branch_size_in_bytes : ℕ
  pub branch_capacity_in_bytes : ℕ
  pub stats : Stats
  pub freed : List ℕ

abbrev pub size_mod : ℕ
size_mod = 2 ^ 64

abbrev pub add_size : ℕ → ℕ → ℕ
add_size a b = (a + b) % size_mod

abbrev pub sub_size : ℕ → ℕ → ℕ
sub_size a b = (a + size_mod - b % size_mod) % size_mod

abbrev pub max_free_times_per_purge : ℕ
max_free_times_per_purge = 1024

-- CreateBranch, on the root's statistics and log.
pub create_branch : Bool → ℕ → Stats → List ℕ → Branch
create_branch locked capacity stats freed = record {
  lock_required = locked;
  slots = [];
  branch_size_in_bytes = 0;
  branch_capacity_in_bytes = capacity;
  stats = stats;
  freed = freed;
}

abbrev has_start : ℕ → List QuarantineSlot → Bool
has_start a [] = false
has_start a (x ∷ xs) = if x.slot_start == a then true else has_start a xs

pub is_quarantined : ℕ → Branch → Bool
is_quarantined slot_start b = has_start slot_start b.slots

pub set_capacity_in_bytes : ℕ → Branch → Branch
set_capacity_in_bytes capacity b = record b { branch_capacity_in_bytes = capacity }

-- The variables of the two loops that dequarantine; `gone` are the slots taken out, in order.
pub record Purging : Type 0 where
  pub slots : List QuarantineSlot
  pub size : ℕ
  pub gone : List ℕ
  pub freed_count : ℕ
  pub freed_size_in_bytes : ℕ

-- The body of both loops, on the last entry of the vector.
abbrev pub take_out : QuarantineSlot → List QuarantineSlot → Purging → Purging
take_out x xs p = record {
  slots = xs;
  size = sub_size p.size x.usable_size;
  gone = p.gone ++ (x.slot_start ∷ []);
  freed_count = p.freed_count + 1;
  freed_size_in_bytes = p.freed_size_in_bytes + x.usable_size;
}

-- The loop of PurgeInternal; `none` is the failed check that an entry is left.
pub purge_loop : ℕ → List QuarantineSlot → Purging → Option Purging
purge_loop target [] p = if ltb target p.size then none else some p
purge_loop target (x ∷ xs) p =
    let rest = purge_loop target xs (take_out x xs p) in if ltb target p.size then rest else some p

-- The loop of PurgeInternalWithDefferedFree, which stops at 1024 entries.
pub deferred_loop : ℕ → List QuarantineSlot → Purging → Option Purging
deferred_loop target [] p = if ltb target p.size then none else some p
deferred_loop target (x ∷ xs) p =
    let q = take_out x xs p in
    let rest = deferred_loop target xs q in
    if ltb target p.size
    then if leb max_free_times_per_purge q.freed_count then some q else rest
    else some p

abbrev pub begin_purge : Branch → Purging
begin_purge b = record {
  slots = b.slots;
  size = b.branch_size_in_bytes;
  gone = [];
  freed_count = 0;
  freed_size_in_bytes = 0;
}

-- What both purges write back, with the slots freed at once or by BatchFree.
abbrev pub end_purge : Branch → Purging → Branch
end_purge b p = record b {
  slots = p.slots;
  branch_size_in_bytes = p.size;
  stats = record b.stats {
    size_in_bytes = sub_size b.stats.size_in_bytes p.freed_size_in_bytes;
    count = sub_size b.stats.count p.freed_count;
  };
  freed = b.freed ++ p.gone;
}

pub purge_internal : Bool → ℕ → Branch → Option Branch
unfolding purge_loop deferred_loop
purge_internal locked target b =
    elim (if locked
      then deferred_loop target b.slots (begin_purge b)
      else purge_loop target b.slots (begin_purge b)) [
        | none ↦ none
        | some p ↦ some (end_purge b p)
      ]

pub purge : Branch → Option Branch
unfolding purge_internal
purge b = purge_internal false 0 b

-- The list `x ∷ xs` with its head and the entry at `k` exchanged.
pub swap_head : ℕ → QuarantineSlot → List QuarantineSlot → QuarantineSlot × List QuarantineSlot
swap_head k x [] = (x, [])
swap_head zero x (y ∷ ys) = (x, y ∷ ys)
swap_head (suc zero) x (y ∷ ys) = (y, x ∷ ys)
swap_head (suc (suc k)) x (y ∷ ys) = let (z, zs) = swap_head (suc k) x ys in (z, y ∷ zs)

-- The entry is pushed and exchanged with the one at `random % slots_.size()`, counted from the
-- other end of the list.
pub insert_shuffled : ℕ → QuarantineSlot → List QuarantineSlot → List QuarantineSlot
unfolding swap_head
insert_shuffled random x xs =
    let (z, zs) = swap_head (length xs - random % (length xs + 1)) x xs in z ∷ zs

-- The end of QuarantineInternal.
pub put_entry : ℕ → QuarantineSlot → Branch → Branch
unfolding insert_shuffled
put_entry random x b = record b {
  slots = insert_shuffled random x b.slots;
  branch_size_in_bytes = add_size b.branch_size_in_bytes x.usable_size;
  stats = record b.stats {
    size_in_bytes = add_size b.stats.size_in_bytes x.usable_size;
    count = add_size b.stats.count 1;
    cumulative_count = add_size b.stats.cumulative_count 1;
    cumulative_size_in_bytes = add_size b.stats.cumulative_size_in_bytes x.usable_size;
  };
}

-- The object is too large for the branch, and is freed at once.
pub miss : QuarantineSlot → Branch → Branch
miss x b = record b {
  freed = b.freed ++ (x.slot_start ∷ []);
  stats = record b.stats { quarantine_miss_count = add_size b.stats.quarantine_miss_count 1 };
}

pub quarantine : ℕ → QuarantineSlot → Branch → Option (Branch × Bool)
unfolding put_entry miss purge_internal
quarantine random x b =
    if ltb b.branch_capacity_in_bytes x.usable_size
    then some (miss x b, false)
    else elim (purge_internal b.lock_required (b.branch_capacity_in_bytes - x.usable_size) b) [
      | none ↦ none
      | some b' ↦ some (put_entry random x b', true)
    ]
