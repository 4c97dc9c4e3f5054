-- ===== src/Quarantine/Tests.antt =====
-- A quarantine branch on concrete slots.
use partition_alloc.Base.{ℕ, ◌≡◌, refl, Bool, true, false, Option, none, some, List, [], ◌∷◌, arith}
use partition_alloc.Quarantine.{
  QuarantineSlot, Branch, quarantine, purge, insert_shuffled, put_entry, purge_internal, swap_head,
  purge_loop, deferred_loop, miss,
}
use partition_alloc.Quarantine.Capacity.{Books, Drains, purge-Drains}

abbrev slot : ℕ → ℕ → QuarantineSlot
slot a n = record { slot_start = a; usable_size = n }

-- Three slots of a branch of 100 bytes, whose root also serves other branches.
abbrev three : Branch
three = record {
  lock_required = true;
  slots = slot 300 40 ∷ slot 200 30 ∷ slot 100 20 ∷ [];
  branch_size_in_bytes = 90;
  branch_capacity_in_bytes = 100;
  stats = record {
    size_in_bytes = 190;
    count = 5;
    cumulative_count = 9;
    cumulative_size_in_bytes = 400;
    quarantine_miss_count = 1;
  };
  freed = 50 ∷ [];
}

three-Books : Books 100 2 three
three-Books = record { size = refl; small = omega arith; root_size = refl; root_count = refl }

abbrev outcome : Option (Branch × Bool) → Option (List QuarantineSlot × List ℕ × Bool)
outcome none = none
outcome (some (b, ok)) = some (b.slots, b.freed, ok)

-- A slot of 50 bytes drives out the newest one, and is exchanged with the oldest.
makes_room :
    outcome (quarantine 0 (slot 400 50) three)
    ≡ some (slot 100 20 ∷ slot 200 30 ∷ slot 400 50 ∷ [], 50 ∷ 300 ∷ [], true)
unfolding quarantine put_entry purge_internal insert_shuffled swap_head deferred_loop purge_loop
makes_room = refl

too_large : outcome (quarantine 0 (slot 400 101) three) ≡ some (three.slots, 50 ∷ 400 ∷ [], false)
unfolding quarantine miss
too_large = refl

purge-Drains_example : Drains 100 2 three (purge three)
purge-Drains_example =
    purge-Drains 100 2 three three-Books (omega arith, (omega arith, (omega arith, tt)))
