-- ===== src/Registry.antt =====
-- ThreadCacheRegistry of src/partition_alloc/thread_cache.cc and thread_cache.h: all the thread caches,
-- the limits of their buckets, and the periodic purge. The linked list of the caches is a List, the
-- newest first; a time is a number of microseconds. The product of kSmallBucketBaseCount and the
-- multiplier, which is computed in floating point, is a parameter of what uses it.
pub mod Links
pub mod Limits
pub mod Periodic
mod Tests
use partition_alloc.Base.{
  ℕ, zero, suc, ◌+◌, ◌-◌, ◌*◌, ◌/◌, ◌%◌, min, max, Bool, true, false, ◌==◌, ltb, leb, if◌then◌else◌,
  Option, none, some, ◌>>=◌, check, List, [], ◌∷◌, length, get_elem?, set, map,
}
use partition_alloc.ThreadCache.{Cache, purge, set_should_purge, set_limit, u8_mod}

pub record Registry : Type 0 where
  pub caches : List Cache
  pub min_purge_interval : ℕ
  pub max_purge_interval : ℕ
  pub default_purge_interval : ℕ
  pub min_cached_memory_for_purging_bytes : ℕ
  pub periodic_purge_next_interval : ℕ
  pub is_purging_configured : Bool

-- A bucket of the root: whether active_slot_spans_head is set, and its slot size.
pub record RootBucket : Type 0 where
  pub has_head : Bool
  pub slot_size : ℕ

abbrev pub min_limit : ℕ
min_limit = 1

abbrev pub max_limit : ℕ
max_limit = u8_mod - 1 - 1

abbrev pub clamp : ℕ → ℕ → ℕ → ℕ
clamp value low high = if ltb value low then low else if ltb high value then high else value

-- The loop of SetGlobalLimits, for one bucket.
pub global_limit : ℕ → RootBucket → ℕ
global_limit initial_value b =
    if b.has_head
    then clamp
        (if leb b.slot_size 128
          then initial_value
          else if leb b.slot_size 256
          then initial_value / 2
          else if leb b.slot_size 512
          then initial_value / 4
          else initial_value / 8)
        min_limit max_limit
      % u8_mod
    else 0

abbrev pub set_global_limits : ℕ → List RootBucket → List ℕ
set_global_limits initial_value bs = map (global_limit initial_value) bs

-- The inner loop of SetThreadCacheMultiplier, from an index on.
abbrev pub store_limits : ℕ → List ℕ → Cache → Cache
store_limits index [] t = t
store_limits index (limit ∷ limits) t = store_limits (index + 1) limits (set_limit index limit t)

pub set_thread_cache_multiplier : ℕ → List RootBucket → Registry → Registry
unfolding global_limit
set_thread_cache_multiplier initial_value bs r = record r {
  caches = map (store_limits 0 (set_global_limits initial_value bs)) r.caches;
}

pub set_purging_configuration : ℕ → ℕ → ℕ → ℕ → Registry → Option Registry
set_purging_configuration min_interval max_interval default_interval min_bytes r =
    check (leb min_interval default_interval) (
      check (leb default_interval max_interval) (
        some (record r {
          min_purge_interval = min_interval;
          max_purge_interval = max_interval;
          default_purge_interval = default_interval;
          min_cached_memory_for_purging_bytes = min_bytes;
          is_purging_configured = true;
        })))

abbrev pub is_at : Option ℕ → ℕ → Bool
is_at none i = false
is_at (some j) i = j == i

-- The loop of PurgeAll, from an index on.
abbrev pub ask_others : Option ℕ → ℕ → List Cache → List Cache
ask_others current i [] = []
ask_others current i (t ∷ ts) =
    (if is_at current i then t else set_should_purge t) ∷ ask_others current (i + 1) ts

-- `current` is where the cache of the calling thread stands, if it has one.
abbrev pub purge_current : Option ℕ → List Cache → Option (List Cache)
purge_current none ts = some ts
purge_current (some i) ts = get_elem? ts i >>= λ t. purge t >>= λ t'. some (set ts i t')

pub purge_all : Option ℕ → List Cache → Option (List Cache)
purge_all current ts = purge_current current ts >>= λ ts'. some (ask_others current 0 ts')

abbrev pub cached_memory_of : List Cache → ℕ
cached_memory_of [] = 0
cached_memory_of (t ∷ ts) = t.cached_memory + cached_memory_of ts

pub next_interval : ℕ → Registry → ℕ
next_interval cached r =
    let interval =
      if ltb (10 * r.min_cached_memory_for_purging_bytes) cached
      then min r.default_purge_interval (r.periodic_purge_next_interval / 2)
      else if ltb (2 * r.min_cached_memory_for_purging_bytes) cached
      then max r.min_purge_interval (r.periodic_purge_next_interval / 2)
      else if ltb cached r.min_cached_memory_for_purging_bytes
      then min r.max_purge_interval (r.periodic_purge_next_interval * 2)
      else r.periodic_purge_next_interval in
    clamp interval r.min_purge_interval r.max_purge_interval

abbrev pub no_caches : List Cache → Bool
no_caches [] = true
no_caches (t ∷ ts) = false

pub run_periodic_purge : Option ℕ → Registry → Option Registry
unfolding purge_all next_interval
run_periodic_purge current r = check r.is_purging_configured (
    if no_caches r.caches
    then some r
    else (purge_all current r.caches >>= λ ts. some (record r {
      caches = ts;
      periodic_purge_next_interval = next_interval (cached_memory_of r.caches) r;
    })))
