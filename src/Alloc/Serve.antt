-- ===== src/Alloc/Serve.antt =====
-- SlowPathAlloc and AllocFromBucket as a whole, for a request with no particular alignment.
use partition_alloc.Base.{ℕ, ◌≡◌, ◌⊎◌, Bool, true, false, List, ◌∷◌, Returns}
use partition_alloc.SlotSpan.{SlotSpan, Geometry, is_nil}
use partition_alloc.Bucket.{Bucket, Spans, update, set_new_active_slot_span}
use partition_alloc.Alloc.{
  Flags, Commits, State, Result, slot, null_slot, exhausted, failed, with_raw_size, swept_state,
}
use partition_alloc.Alloc.Hand.{Hands}
use partition_alloc.Alloc.Choose.{Origin, NothingReady, NothingLeft}

-- The memory is used up: the system does not commit a page that is needed, or no span can be had.
abbrev pub UsedUp : Commits → State → Type 0
UsedUp commits st = (commits ≡ false) ⊎ NothingLeft st

-- What SlowPathAlloc may end with, from the lists as they were swept.
abbrev pub Serves : ℕ → Geometry → Flags → Commits → ℕ → State → Result → Type 0
Serves base g flags commits raw_size st (slot x i zeroed st') =
    (next : List ℕ) × (s : SlotSpan) × (taken : State) × Origin base g flags st x next zeroed s
      taken
    × Hands (with_raw_size raw_size s) i (st'.root.spans x)
    × (st'.bucket ≡ record taken.bucket { active = x ∷ next })
    × (st'.pages ≡ taken.pages)
Serves base g flags commits raw_size st (null_slot st') =
    ((flags.fast_path_or_return_null ≡ true) × NothingReady st)
    ⊎ ((flags.return_null ≡ true) × UsedUp commits st)
Serves base g flags commits raw_size st exhausted = (flags.return_null ≡ false) × UsedUp commits st
Serves base g flags commits raw_size st failed = ⊥

-- SlowPathAlloc on the lists that SetNewActiveSlotSpan leaves, which does not fail.
abbrev pub SlowServes : ℕ → Geometry → Flags → Commits → ℕ → State → Result → Type 0
SlowServes base g flags commits raw_size st r =
    Returns {A = Bucket × Spans × Bool}
      (λ t. Serves base g flags commits raw_size (swept_state st t.0 t.1) r)
      (set_new_active_slot_span st.bucket st.root.spans)

-- The head of the active list was not marked full, and a span of a bucket that stores raw sizes does not
-- stand there with a freelist.
pub record Heads (st : State) : Type 0 where
  pub unmarked :
      (x : ℕ) (next : List ℕ) → st.bucket.active ≡ x ∷ next → (st.root.spans x).marked_full ≡ false
  pub unstored :
      (x : ℕ) (next : List ℕ)
      → st.bucket.active ≡ x ∷ next
      → is_nil (st.root.spans x).freelist ≡ false
      → (st.root.spans x).bucket.can_store_raw_size ≡ false

-- What AllocFromBucket may end with: the fast path takes a slot of the head of the active list and
-- changes nothing but its span; the slow path is taken only where the head has no freelist.
pub data Allocates (base : ℕ) (g : Geometry) (flags : Flags) (commits : Commits) (raw_size : ℕ)
    (st : State) (r : Result) : Type 0 where
  fast :
      (x : ℕ) (next : List ℕ) (i : ℕ) (s : SlotSpan)
      → st.bucket.active ≡ x ∷ next
      → Hands (st.root.spans x) i s
      → r
        ≡ slot x i false (record st { root = record st.root { spans = update st.root.spans x s } })
      → Allocates base g flags commits raw_size st r
  slow :
      ((x : ℕ) (next : List ℕ)
        → st.bucket.active ≡ x ∷ next
        → is_nil (st.root.spans x).freelist ≡ true)
      → SlowServes base g flags commits raw_size st r
      → Allocates base g flags commits raw_size st r
