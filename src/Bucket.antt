-- ===== src/Bucket.antt =====
-- The lists of PartitionBucket (src/partition_alloc/partition_bucket.cc), FreeSlowPath and
-- RegisterEmpty of partition_page.cc, and the ring of empty slot spans of partition_root.cc, under
-- the root's lock, in a build with lazy commit and without DCHECKs: a PA_DCHECK does nothing, and
-- `none` and `crash` are a failed PA_CHECK. A slot span is an index into the store `spans`; a
-- chain through `next_slot_span` is the list of its spans, and the active list that holds only the
-- sentinel is `[]`.
pub mod Visit
pub mod Sweep
pub mod Entries
pub mod Ring
pub mod Dirty
pub mod Free
pub mod Retire
pub mod Sort
mod Tests
use partition_alloc.Base.{
  ◌>>=◌, ℕ, zero, suc, ◌+◌, ◌-◌, ◌*◌, ◌/◌, ◌%◌, ◌^◌, min, Bool, true, false, not, ◌&&◌, ◌||◌, ltb,
  leb, ◌==◌, if◌then◌else◌, Option, none, some, List, [], ◌∷◌, ◌++◌,
}
use partition_alloc.SlotSpan.{
  SlotSpan, is_active, is_empty, is_decommitted, is_nil, dirty_size, decommit, is_direct_mapped,
}

abbrev pub Spans : Type 0
Spans = ℕ → SlotSpan

abbrev pub update {ℓ} : {A : Type ℓ} → (ℕ → A) → ℕ → A → ℕ → A
update f i v j = if j == i then v else f j

pub record Bucket : Type 0 where
  pub active : List ℕ
  pub empty : List ℕ
  pub decommitted : List ℕ
  pub num_full_slot_spans : ℕ

-- The state of a walk over the active list: the active spans met so far, and what the walk changes.
pub record Walk : Type 0 where
  pub kept : List ℕ
  pub empty : List ℕ
  pub decommitted : List ℕ
  pub num_full_slot_spans : ℕ
  pub spans : Spans

-- `num_full_slot_spans` is a field of 24 bits.
abbrev pub full_mod : ℕ
full_mod = 2 ^ 24

abbrev pub mark_full : SlotSpan → SlotSpan
mark_full s = record s { marked_full = true }

-- What both walks do with a span: keep it, or move it to the list of its state. `none` is the
-- failed check that the count of full spans did not overflow.
pub place : ℕ → Walk → Option Walk
place x w =
    if is_active (w.spans x)
    then some (record w { kept = w.kept ++ (x ∷ []) })
    else if is_empty (w.spans x)
    then some (record w { empty = x ∷ w.empty })
    else if is_decommitted (w.spans x)
    then some (record w { decommitted = x ∷ w.decommitted })
    else if (w.num_full_slot_spans + 1) % full_mod == 0
    then none
    else some (record w {
      num_full_slot_spans = (w.num_full_slot_spans + 1) % full_mod;
      spans = update w.spans x (mark_full (w.spans x));
    })

abbrev pub begin_walk : Bucket → Spans → Walk
begin_walk b spans = record {
  kept = [];
  empty = b.empty;
  decommitted = b.decommitted;
  num_full_slot_spans = b.num_full_slot_spans;
  spans = spans;
}

-- The test that ends the walk of SetNewActiveSlotSpan: an active span with a freelist.
pub is_usable : SlotSpan → Bool
unfolding is_active
is_usable s = is_active s && not (is_nil s.freelist)

-- The walk of SetNewActiveSlotSpan: the rest of the list from the usable span on, if there is one.
pub walk_to_usable : List ℕ → Walk → Option (Walk × List ℕ)
walk_to_usable [] w = some (w, [])
walk_to_usable (x ∷ xs) w =
    let rest = place x w >>= walk_to_usable xs in
    if is_usable (w.spans x) then some (w, x ∷ xs) else rest

abbrev pub end_walk : List ℕ → Walk → Bucket
end_walk active w = record {
  active = active;
  empty = w.empty;
  decommitted = w.decommitted;
  num_full_slot_spans = w.num_full_slot_spans;
}

-- Re-attach the spans that are to be provisioned, past the usable one.
abbrev pub reattach : List ℕ → List ℕ → List ℕ
reattach kept [] = kept
reattach kept (x ∷ xs) = x ∷ (kept ++ xs)

unfoldable pub set_new_active_slot_span : Bucket → Spans → Option (Bucket × Spans × Bool)
unfolding walk_to_usable
set_new_active_slot_span b spans = do
  (w, rest) ← walk_to_usable b.active (begin_walk b spans)
  let active = reattach w.kept rest
  some (end_walk active w, w.spans, not (is_nil active))

-- The walk of MaintainActiveList.
pub walk_all : List ℕ → Walk → Option Walk
walk_all [] w = some w
walk_all (x ∷ xs) w = place x w >>= walk_all xs

pub maintain_active_list : Bucket → Spans → Option (Bucket × Spans)
unfolding walk_all
maintain_active_list b spans = do
  w ← walk_all b.active (begin_walk b spans)
  some (end_walk w.kept w, w.spans)

-- kMaxEmptySlotSpanRingSize
abbrev pub max_empty_slot_span_ring_size : ℕ
max_empty_slot_span_ring_size = 1024

-- The part of PartitionRoot that these operations use. `nonempty_slot_spans` is the count that the
-- span's super page extent keeps.
pub record Root : Type 0 where
  pub spans : Spans
  pub ring : ℕ → Option ℕ
  pub ring_index : ℕ
  pub ring_size : ℕ
  pub empty_slot_spans_dirty_bytes : ℕ
  pub total_size_of_committed_pages : ℕ
  pub max_empty_slot_spans_dirty_bytes_shift : ℕ
  pub nonempty_slot_spans : ℕ

-- A subtraction of two size_t.
abbrev pub size_minus : ℕ → ℕ → ℕ
size_minus a b = (a + 2 ^ 64 - b % 2 ^ 64) % 2 ^ 64

-- `Decommit`. The pages are given back by the operating system.
pub decommit_span : ℕ → Root → Root
decommit_span x r =
    let size = dirty_size (r.spans x) in
    record r {
      empty_slot_spans_dirty_bytes = size_minus r.empty_slot_spans_dirty_bytes size;
      total_size_of_committed_pages = size_minus r.total_size_of_committed_pages size;
      spans = update r.spans x (decommit (r.spans x));
    }

abbrev pub leave_cache : SlotSpan → SlotSpan
leave_cache s = record s { in_empty_cache = false }

pub decommit_if_possible : ℕ → Root → Root
unfolding decommit_span
decommit_if_possible x r =
    let i = (r.spans x).empty_cache_index in
    let left = record r { spans = update r.spans x (leave_cache (r.spans x)) } in
    let done = if is_empty (left.spans x) then decommit_span x left else left in
    record done { ring = update done.ring i none }

-- The entry of the ring at `i`, if there is one, is decommitted.
pub clear_entry : ℕ → Root → Root
unfolding decommit_if_possible
clear_entry i r = elim (r.ring i) [ none ↦ r | some x ↦ decommit_if_possible x r ]

abbrev pub next_index : ℕ → ℕ → ℕ
next_index size i = if i + 1 == size then 0 else i + 1

-- The loop of ShrinkEmptySlotSpansRing, which ends at the latest when it is back where it started.
pub shrink_loop : ℕ → ℕ → ℕ → Root → Root
shrink_loop zero limit i r = r
shrink_loop (suc rounds) limit i r =
    let rest =
      shrink_loop rounds limit (next_index max_empty_slot_span_ring_size i) (clear_entry i r) in
    if ltb limit r.empty_slot_spans_dirty_bytes then rest else r

pub shrink_empty_slot_spans_ring : ℕ → Root → Root
shrink_empty_slot_spans_ring limit r =
    shrink_loop max_empty_slot_span_ring_size limit r.ring_index r

pub decommit_empty_slot_spans : Root → Root
unfolding shrink_empty_slot_spans_ring
decommit_empty_slot_spans r = shrink_empty_slot_spans_ring 0 r

abbrev pub enter_cache : ℕ → SlotSpan → SlotSpan
enter_cache i s = record s { empty_cache_index = i; in_empty_cache = true }

-- The span takes the current entry of the ring.
pub enter_ring : ℕ → Root → Root
enter_ring x r = record r {
  ring = update r.ring r.ring_index (some x);
  spans = update r.spans x (enter_cache r.ring_index (r.spans x));
  ring_index = next_index r.ring_size r.ring_index;
}

-- The end of RegisterEmpty: not too much memory in empty spans.
pub limit_dirty : Root → Root
unfolding shrink_empty_slot_spans_ring
limit_dirty r =
    let most = r.total_size_of_committed_pages / 2 ^ r.max_empty_slot_spans_dirty_bytes_shift in
    if ltb most r.empty_slot_spans_dirty_bytes
    then shrink_empty_slot_spans_ring (min (r.empty_slot_spans_dirty_bytes / 2) most) r
    else r

pub register_empty : ℕ → Root → Root
unfolding clear_entry enter_ring limit_dirty
register_empty x r =
    let counted = record r {
      empty_slot_spans_dirty_bytes = r.empty_slot_spans_dirty_bytes + dirty_size (r.spans x);
      nonempty_slot_spans = r.nonempty_slot_spans - 1;
    } in
    if (r.spans x).in_empty_cache
    then counted
    else limit_dirty (enter_ring x (clear_entry counted.ring_index counted))

-- `unmaps` is a direct map, which is handed over to PartitionDirectUnmap.
pub data FreeResult : Type 0 where
  done : Bucket → Root → FreeResult
  unmaps : Bucket → Root → FreeResult
  crash : FreeResult

-- The first part of FreeSlowPath: a full span becomes the head of the active list.
pub reactivate : ℕ → Bucket → Root → Option (Bucket × Root)
reactivate x b r =
    if not (r.spans x).marked_full
    then some (b, r)
    else if b.num_full_slot_spans == 0
    then none
    else some (
      record b { active = x ∷ b.active; num_full_slot_spans = b.num_full_slot_spans - 1 },
      record r { spans = update r.spans x (record (r.spans x) { marked_full = false }) },
    )

abbrev pub head_is : ℕ → List ℕ → Bool
head_is x [] = false
head_is x (y ∷ ys) = y == x

-- A head that has become empty is replaced.
pub replace_head : ℕ → Bucket → Root → Option (Bucket × Root)
unfolding set_new_active_slot_span
replace_head x b r =
    if head_is x b.active
    then set_new_active_slot_span b r.spans >>= (λ t. some (t.0, record r { spans = t.1 }))
    else some (b, r)

abbrev pub clear_raw_size : SlotSpan → SlotSpan
clear_raw_size s = if s.bucket.can_store_raw_size then record s { raw_size = 0 } else s

-- The second part of FreeSlowPath, for a span with no allocated slot.
pub retire : ℕ → Bucket → Root → FreeResult
unfolding replace_head register_empty
retire x b r =
    if is_direct_mapped (r.spans x).bucket then unmaps b r else elim (replace_head x b r) [
      | none ↦ crash
      | some (b', r') ↦
          done b' (
            register_empty x
              (record r' { spans = update r'.spans x (clear_raw_size (r'.spans x)) }))
    ]

pub free_slow_path : ℕ → Bucket → Root → FreeResult
unfolding reactivate retire
free_slow_path x b r = elim (reactivate x b r) [
  | none ↦ crash
  | some (b', r') ↦ if (r'.spans x).num_allocated_slots == 0 then retire x b' r' else done b' r'
]
