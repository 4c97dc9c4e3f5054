-- ===== src/Alloc.antt =====
-- How a partition gets a slot: AllocFromBucket of src/partition_alloc/partition_root.h and SlowPathAlloc
-- of partition_bucket.cc, for a bucket that is not the sentinel of the direct maps, under the root's
-- lock, in a build with lazy commit and without DCHECKs. Those at the beginning of
-- ProvisionMoreSlotsAndAllocOne and those of SuperPage are written out all the same. The span of a slot is known by the number of its
-- first partition page, a slot by its number in the span.
pub mod Lists
pub mod Hand
pub mod Empty
pub mod Choose
pub mod Sweeps
pub mod Serve
mod Tests
use partition_alloc.Base.{
  ℕ, ◌+◌, ◌-◌, ◌*◌, ◌/◌, Bool, true, false, not, ◌&&◌, ◌||◌, ltb, leb, ◌==◌, if◌then◌else◌, Option,
  none, some, List, [], ◌∷◌,
}
use partition_alloc.SlotSpan.{
  SlotSpan, Geometry, get_slots_per_span, align_up_page, is_nil, is_active, is_full, is_empty,
  is_decommitted, reset, dirty_size, pop_for_alloc, commit_end, provision_more_slots_and_alloc_one,
}
use partition_alloc.Bucket.{Bucket, Root, update, set_new_active_slot_span, Spans}
use partition_alloc.SuperPage.{
  Pages, Outcome, ok, null, out_of_memory, crash, partition_page_size, new_slot_span,
  alloc_new_slot_span,
}

-- AllocFlags::kFastPathOrReturnNull and AllocFlags::kReturnNull
pub record Flags : Type 0 where
  pub fast_path_or_return_null : Bool
  pub return_null : Bool

-- What a call changes: the lists of the bucket, the spans and the counts of the root, its pages.
pub record State : Type 0 where
  pub bucket : Bucket
  pub root : Root
  pub pages : Pages

-- A slot of a span, with what the call says of its memory (is it zeroed?); a null pointer; a crash that
-- reports that the memory is used up; or a failed check.
pub data Result : Type 0 where
  slot : ℕ → ℕ → Bool → State → Result
  null_slot : State → Result
  exhausted : Result
  failed : Result

-- Can the system commit the pages? It is asked at most once in a call.
abbrev pub Commits : Type 0
Commits = Bool

-- The DCHECKs at the beginning of ProvisionMoreSlotsAndAllocOne.
pub may_provision : SlotSpan → Bool
unfolding is_full
may_provision s =
    let n = s.num_allocated_slots in
    let start = s.bucket.slot_size * n in
    let next = start + s.bucket.slot_size in
    (not (s.num_unprovisioned_slots == 0)
      && leb s.num_unprovisioned_slots (get_slots_per_span s.bucket))
    && ((s.num_unprovisioned_slots + n == get_slots_per_span s.bucket)
        && ((is_nil s.freelist && not (is_full s))
            && (ltb (align_up_page start) next && ltb (align_up_page start) (commit_end s))))

-- Where the pages cannot be committed, or a span cannot be had.
pub no_memory : Flags → State → Result
no_memory flags st = if flags.return_null then null_slot st else exhausted

-- The slot and the span that holds it now.
abbrev pub hand_over : ℕ → Bool → State → ℕ × SlotSpan → Result
hand_over x zeroed st (i, s) =
    slot x i zeroed (record st { root = record st.root { spans = update st.root.spans x s } })

-- The slot that ProvisionMoreSlotsAndAllocOne returns, of the span `x`.
pub provision_slot : Flags → Commits → ℕ → Bool → State → Result
unfolding may_provision no_memory
provision_slot flags commits x zeroed st =
    if not (may_provision (st.root.spans x))
    then failed
    else if commits
    then hand_over x zeroed st (provision_more_slots_and_alloc_one (st.root.spans x))
    else no_memory flags st

abbrev pub popped_or : Flags → Commits → ℕ → Bool → State → Option (ℕ × SlotSpan) → Result
popped_or flags commits x zeroed st (some t) = hand_over x zeroed st t
popped_or flags commits x zeroed st none = provision_slot flags commits x zeroed st

-- The end of SlowPathAlloc: a slot of the span `x`, popped or provisioned.
pub hand_out : Flags → Commits → ℕ → Bool → State → Result
unfolding provision_slot pop_for_alloc
hand_out flags commits x zeroed st =
    popped_or flags commits x zeroed st (pop_for_alloc (st.root.spans x))

-- `SetRawSize`, where the bucket stores it.
abbrev pub with_raw_size : ℕ → SlotSpan → SlotSpan
with_raw_size raw_size s =
    if s.bucket.can_store_raw_size then record s { raw_size = raw_size } else s

-- The span becomes the head of the active list, behind which `next` comes.
pub activate : ℕ → ℕ → List ℕ → State → State
activate raw_size x next st = record st {
  bucket = record st.bucket { active = x ∷ next };
  root = record st.root {
    spans = update st.root.spans x (with_raw_size raw_size (st.root.spans x));
  };
}

-- The span that a slot is taken from, with what its next_slot_span leads to and whether its memory is
-- zeroed; the early return; no span; or the end.
pub data Choice : Type 0 where
  chosen : ℕ → List ℕ → Bool → State → Choice
  gives_up : State → Choice
  no_span : State → Choice
  exhausts : Choice
  fails : Choice

-- What the loop over the empty spans ends with: a span, with the rest of its list, the decommitted ones
-- and the root; the decommitted ones where no span is left; or a failed check.
pub data Taken : Type 0 where
  takes : ℕ → List ℕ → List ℕ → Root → Taken
  none_left : List ℕ → Taken
  rejected : Taken

-- An empty span is used again.
pub reuse : ℕ → Root → Root
reuse x r = record r {
  empty_slot_spans_dirty_bytes = r.empty_slot_spans_dirty_bytes - dirty_size (r.spans x);
  nonempty_slot_spans = r.nonempty_slot_spans + 1;
}

pub take_empty : List ℕ → List ℕ → Root → Taken
unfolding is_empty is_decommitted reuse
take_empty [] decommitted r = none_left decommitted
take_empty (x ∷ xs) decommitted r =
    let s = r.spans x in
    let rest = take_empty xs (x ∷ decommitted) r in
    if not (is_empty s || is_decommitted s)
    then rejected
    else if not (is_nil s.freelist)
    then if ltb r.empty_slot_spans_dirty_bytes (dirty_size s)
      then rejected
      else takes x xs decommitted (reuse x r)
    else if not (is_decommitted s)
    then rejected
    else rest

-- Reset of a span, with the count of its super page.
abbrev pub reset_span : ℕ → SlotSpan → Root → Root
reset_span x s r = record r {
  spans = update r.spans x s;
  nonempty_slot_spans = r.nonempty_slot_spans + 1;
}

-- The head of the decommitted list is used again.
pub take_decommitted : Flags → State → List ℕ → Choice
unfolding is_decommitted reset
take_decommitted flags st [] = fails
take_decommitted flags st (x ∷ xs) =
    let s = st.root.spans x in
    if flags.fast_path_or_return_null
    then gives_up st
    else if not (is_decommitted s && not (get_slots_per_span s.bucket == 0))
    then fails
    else chosen x [] true (record st {
      bucket = record st.bucket { decommitted = xs };
      root = reset_span x (reset s) st.root;
    })

-- "Second, look in our lists of empty and decommitted slot spans."
pub choose_taken : Flags → State → Taken → Choice
unfolding take_decommitted
choose_taken flags st (takes x empty decommitted r) =
    chosen x [] false (record st {
      bucket = record st.bucket { empty = empty; decommitted = decommitted };
      root = r;
    })
choose_taken flags st (none_left decommitted) =
    take_decommitted flags
      (record st { bucket = record st.bucket { empty = []; decommitted = decommitted } })
      decommitted
choose_taken flags st rejected = fails

-- What is made of the answer of AllocNewSlotSpan.
pub choose_made : Geometry → State → Outcome ℕ → Choice
unfolding new_slot_span
choose_made g st (ok start q) =
    let x = start / partition_page_size in
    chosen x [] true (record st { root = reset_span x (new_slot_span g) st.root; pages = q })
choose_made g st (null q) = no_span (record st { pages = q })
choose_made g st out_of_memory = exhausts
choose_made g st crash = fails

-- "Third. If we get here, we need a brand new slot span."
pub choose_new : Geometry → Flags → ℕ → State → Choice
unfolding choose_made
choose_new g flags slot_span_alignment st =
    if flags.fast_path_or_return_null
    then gives_up st
    else choose_made g st (alloc_new_slot_span g slot_span_alignment flags.return_null st.pages)

-- What SetNewActiveSlotSpan has left. An active list that is not empty has a span to take.
pub choose_swept : Geometry → Flags → ℕ → State → List ℕ → Choice
unfolding is_active take_empty choose_taken choose_new
choose_swept g flags slot_span_alignment st (x ∷ xs) =
    if is_active (st.root.spans x) then chosen x xs false st else fails
choose_swept g flags slot_span_alignment st [] =
    if not (is_nil st.bucket.empty && is_nil st.bucket.decommitted)
    then choose_taken flags st (take_empty st.bucket.empty st.bucket.decommitted st.root)
    else choose_new g flags slot_span_alignment st

abbrev pub swept_state : State → Bucket → Spans → State
swept_state st b spans = record st { bucket = b; root = record st.root { spans = spans } }

-- SlowPathAlloc, up to the span. An alignment above a partition page goes straight to a new span.
pub choose_span : Geometry → Flags → ℕ → State → Choice
unfolding set_new_active_slot_span choose_swept choose_new
choose_span g flags slot_span_alignment st =
    if ltb partition_page_size slot_span_alignment
    then choose_new g flags slot_span_alignment st
    else elim (set_new_active_slot_span st.bucket st.root.spans) [
      | none ↦ fails
      | some (b, spans, found) ↦
          choose_swept g flags slot_span_alignment (swept_state st b spans) b.active
    ]

-- The rest of SlowPathAlloc. Where there is no span, the active list has to be empty.
pub serve : Flags → Commits → ℕ → Choice → Result
unfolding hand_out activate no_memory
serve flags commits raw_size (chosen x next zeroed st) =
    hand_out flags commits x zeroed (activate raw_size x next st)
serve flags commits raw_size (gives_up st) = null_slot st
serve flags commits raw_size (no_span st) =
    if not (is_nil st.bucket.active) then failed else no_memory flags st
serve flags commits raw_size exhausts = exhausted
serve flags commits raw_size fails = failed

pub slow_path_alloc : Geometry → Flags → Commits → ℕ → ℕ → State → Result
unfolding choose_span serve
slow_path_alloc g flags commits raw_size slot_span_alignment st =
    serve flags commits raw_size (choose_span g flags slot_span_alignment st)

-- The fast path of AllocFromBucket, on the head of the active list.
pub pop_fast : ℕ → State → SlotSpan → Result
unfolding pop_for_alloc
pop_fast x st s = elim (pop_for_alloc s) [
  | none ↦ failed
  | some t ↦ if s.bucket.can_store_raw_size then failed else hand_over x false st t
]

-- AllocFromBucket. The sentinel, which stands for an empty active list, has no freelist.
pub alloc_from_head : Geometry → Flags → Commits → ℕ → ℕ → State → List ℕ → Result
unfolding pop_fast slow_path_alloc
alloc_from_head g flags commits raw_size slot_span_alignment st [] =
    slow_path_alloc g flags commits raw_size slot_span_alignment st
alloc_from_head g flags commits raw_size slot_span_alignment st (x ∷ xs) =
    let s = st.root.spans x in
    if s.marked_full
    then failed
    else if leb slot_span_alignment partition_page_size && not (is_nil s.freelist)
    then pop_fast x st s
    else slow_path_alloc g flags commits raw_size slot_span_alignment st

pub alloc_from_bucket : Geometry → Flags → Commits → ℕ → ℕ → State → Result
unfolding alloc_from_head
alloc_from_bucket g flags commits raw_size slot_span_alignment st =
    alloc_from_head g flags commits raw_size slot_span_alignment st st.bucket.active
