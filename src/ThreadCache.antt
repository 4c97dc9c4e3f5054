-- ===== src/ThreadCache.antt =====
-- ThreadCache of src/partition_alloc/thread_cache.cc and thread_cache.h: the per-thread cache of slots,
-- in a build without statistics. The DCHECKs on counts, memory and the head of a freelist are written
-- out, for a build that has them. A freelist is the list of the addresses of its
-- slots; the words that link it are those of EmplaceAndInitForThreadCache in the module Freelist. The
-- answers of the central allocator, AllocFromBucket on its fast path and RawFreeLocked, are a function
-- of the calls that were made before, which `history` lists, the newest first. A failed check is
-- `none`; the poisoning of freed memory and the checks on the encoded words are left out. A
-- slot that is put in while the cache has it would make a cycle of the freelist, which is no list: the
-- theorems say where they exclude it.
pub mod Sums
pub mod Clear
pub mod Ledger
pub mod Steps
pub mod Put
pub mod FillBucket
pub mod Get
pub mod Once
pub mod Sessions
pub mod Calls
pub mod RoundTrip
pub mod Purge
mod Tests
use partition_alloc.Base.{
  ℕ, zero, suc, ◌+◌, ◌-◌, ◌*◌, ◌/◌, ◌%◌, ◌^◌, max, Bool, true, false, not, ◌||◌, ◌==◌, ltb, leb,
  if◌then◌else◌, Option, none, some, ◌>>=◌, check, List, [], ◌∷◌, length, get_elem?, set,
}

pub data CentralCall : Type 0 where
  took : ℕ → ℕ → CentralCall  -- a slot of a bucket, by AllocFromBucket
  gave : ℕ → CentralCall  -- RawFreeLocked

abbrev pub History : Type 0
History = List CentralCall

-- What AllocFromBucket answers after the calls so far, for a bucket; `none` is 0.
abbrev pub Central : Type 0
Central = History → ℕ → Option ℕ

-- ThreadCache::Bucket.
pub record CacheBucket : Type 0 where
  pub slots : List ℕ
  pub count : ℕ  -- uint8_t
  pub limit : ℕ  -- uint8_t
  pub slot_size : ℕ

pub record Cache : Type 0 where
  pub buckets : List CacheBucket
  pub cached_memory : ℕ  -- uint32_t
  pub should_purge : Bool
  pub is_in_thread_cache : Bool
  pub history : History

abbrev pub u8_mod : ℕ
u8_mod = 2 ^ 8

abbrev pub u32_mod : ℕ
u32_mod = 2 ^ 32

abbrev pub batch_fill_ratio : ℕ
batch_fill_ratio = 8

-- CachedMemory.
pub memory_of : List CacheBucket → ℕ
memory_of [] = 0
memory_of (b ∷ bs) = b.count * b.slot_size + memory_of bs

pub put_in_bucket : ℕ → CacheBucket → CacheBucket
put_in_bucket slot_start b = record b {
  slots = slot_start ∷ b.slots;
  count = (b.count + 1) % u8_mod;
}

-- The loop of FillBucket, over the rounds left.
pub record Fill : Type 0 where
  pub bucket : CacheBucket
  pub history : History
  pub allocated_slots : ℕ

pub fill_loop : Central → ℕ → ℕ → Fill → Fill
unfolding put_in_bucket
fill_loop central index zero f = f
fill_loop central index (suc rounds) f = elim (central f.history index) [
  | none ↦ f
  | some a ↦ fill_loop central index rounds (record {
    bucket = put_in_bucket a f.bucket;
    history = took index a ∷ f.history;
    allocated_slots = f.allocated_slots + 1;
  })
]

abbrev pub fill_count : CacheBucket → ℕ
fill_count b = max 1 (b.limit / batch_fill_ratio)

pub fill : Central → ℕ → CacheBucket → History → Fill
unfolding fill_loop
fill central index b h =
    fill_loop central index (fill_count b) (record { bucket = b; history = h; allocated_slots = 0 })

pub fill_bucket : Central → ℕ → Cache → Option Cache
unfolding fill
fill_bucket central index t = get_elem? t.buckets index >>= λ b.
    let f = fill central index b t.history in
    some (record t {
      buckets = set t.buckets index f.bucket;
      cached_memory = (t.cached_memory + f.allocated_slots * b.slot_size) % u32_mod;
      history = f.history;
    })

-- The first `limit` entries and the rest; `none` is a step past the end.
pub cut : ℕ → List ℕ → Option (List ℕ × List ℕ)
cut zero xs = some ([], xs)
cut (suc limit) [] = none
cut (suc limit) (x ∷ xs) = elim (cut limit xs) [
  | none ↦ none
  | some (kept, freed) ↦ some (x ∷ kept, freed)
]

-- FreeAfter, which frees a list from its head on.
pub free_after : List ℕ → History → History
free_after [] h = h
free_after (x ∷ xs) h = free_after xs (gave x ∷ h)

-- ClearBucketHelper on the bucket at `index`.
abbrev pub is_low : CacheBucket → ℕ → Bool
is_low b limit = (b.count == 0) || leb b.count limit

abbrev pub freed_memory : CacheBucket → ℕ → ℕ
freed_memory b limit = (b.count - limit % u8_mod) * b.slot_size

abbrev pub cleared : Cache → ℕ → CacheBucket → ℕ → List ℕ → List ℕ → Cache
cleared t index b limit kept freed = record t {
  buckets = set t.buckets index (record b { slots = kept; count = limit % u8_mod });
  cached_memory = t.cached_memory - freed_memory b limit;
  history = free_after freed t.history;
}

pub clear_bucket : ℕ → ℕ → Cache → Option Cache
unfolding cut free_after memory_of
clear_bucket index limit t = get_elem? t.buckets index >>= λ b.
    if is_low b limit
    then some t
    else (cut limit b.slots >>= λ p. check (leb (freed_memory b limit) t.cached_memory) (
        let t' = cleared t index b limit p.0 p.1 in
        check (t'.cached_memory == memory_of t'.buckets) (some t')))

pub purge_loop : ℕ → ℕ → Cache → Option Cache
unfolding clear_bucket
purge_loop zero index t = some t
purge_loop (suc rounds) index t = clear_bucket index 0 t >>= λ t'. purge_loop rounds (index + 1) t'

-- PurgeInternal.
pub purge_internal : Cache → Option Cache
unfolding purge_loop
purge_internal t = purge_loop (length t.buckets) 0 (record t { should_purge = false })

-- The reentrancy guard.
abbrev pub guarded {ℓ} : {A : Type ℓ} → Cache → Option A → Option A
guarded t k = check (not t.is_in_thread_cache) k

pub purge : Cache → Option Cache
unfolding purge_internal
purge t = guarded t (purge_internal t)

unfoldable pub set_should_purge : Cache → Cache
set_should_purge t = record t { should_purge = true }

abbrev is_nil : List ℕ → Bool
is_nil [] = true
is_nil (x ∷ xs) = false

-- The parts of MaybePutInCache.
abbrev pub put_at : ℕ → CacheBucket → ℕ → Cache → Cache
put_at index b slot_start t = record t {
  buckets = set t.buckets index (put_in_bucket slot_start b);
  cached_memory = (t.cached_memory + b.slot_size) % u32_mod;
}

pub trim : ℕ → CacheBucket → Cache → Option Cache
unfolding clear_bucket
trim index b t =
    if ltb b.limit ((b.count + 1) % u8_mod) then clear_bucket index (b.limit / 2) t else some t

pub purge_if_asked : Cache → Option Cache
unfolding purge_internal
purge_if_asked t = if t.should_purge then purge_internal t else some t

-- Returns the slot size; `largest` is `largest_active_bucket_index_`.
pub maybe_put_in_cache : ℕ → ℕ → ℕ → Cache → Option (Cache × Option ℕ)
unfolding trim purge_if_asked
maybe_put_in_cache largest slot_start index t = guarded t (
    if ltb largest index
    then some (t, none)
    else (get_elem? t.buckets index >>= λ b. check (not (b.count == 0) || is_nil b.slots) (
        trim index b (put_at index b slot_start t) >>= λ t'.
        purge_if_asked t' >>= λ t''. some (t'', some b.slot_size))))

-- The end of GetFromCache, on a bucket whose freelist is `x ∷ rest`.
abbrev pub popped : ℕ → CacheBucket → List ℕ → Cache → Cache
popped index b rest t = record t {
  buckets = set t.buckets index (record b { slots = rest; count = b.count - 1 });
  cached_memory = t.cached_memory - b.slot_size;
}

-- Does the freelist `rest` of a slot lead back to it?
abbrev pub leads_back : ℕ → List ℕ → Bool
leads_back x [] = false
leads_back x (y ∷ ys) = x == y

pub pop_entry : ℕ → CacheBucket → List ℕ → Cache → Option (Cache × Option ℕ)
pop_entry index b [] t = some (t, none)
pop_entry index b (x ∷ rest) t = check (not (leads_back x rest)) (
    check (not (b.count == 0)) (
      check (not (b.count - 1 == 0) || is_nil rest)
        (check (leb b.slot_size t.cached_memory) (some (popped index b rest t, some x)))))

pub fill_if_empty : Central → ℕ → CacheBucket → Cache → Option Cache
unfolding fill_bucket
fill_if_empty central index b t =
    if is_nil b.slots then check (b.count == 0) (fill_bucket central index t) else some t

-- Returns the address of the slot; `none` is 0.
pub get_from_cache : Central → ℕ → ℕ → Cache → Option (Cache × Option ℕ)
unfolding fill_if_empty pop_entry
get_from_cache central largest index t = guarded t (
    if ltb largest index
    then some (t, none)
    else (get_elem? t.buckets index >>= λ b. fill_if_empty central index b t >>= λ t'.
        get_elem? t'.buckets index >>= λ b'. pop_entry index b' b'.slots t'))

-- Another thread changes a limit, in SetThreadCacheMultiplier.
unfoldable pub set_limit : ℕ → ℕ → Cache → Cache
set_limit index limit t = elim (get_elem? t.buckets index) [
  | none ↦ t
  | some b ↦ record t { buckets = set t.buckets index (record b { limit = limit }) }
]
