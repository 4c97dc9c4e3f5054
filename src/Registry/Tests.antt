-- ===== src/Registry/Tests.antt =====
-- A registry of two caches, the second of which belongs to the calling thread.
use partition_alloc.Base.{◌≡◌, refl, true, false, some, [], ◌∷◌, get_elem?, arith}
use partition_alloc.ThreadCache.{CacheBucket, Cache, memory_of}
use partition_alloc.ThreadCache.Sums.{memory_of-sum}
use partition_alloc.ThreadCache.Ledger.{CacheIsValid}
use partition_alloc.Registry.{
  set_global_limits, Registry, RootBucket, global_limit, set_global_limits,
  set_thread_cache_multiplier, set_purging_configuration, run_periodic_purge,
}
use partition_alloc.Registry.Limits.{
  with_limits, LimitsAgree, global_limit-LimitsAgree, set_thread_cache_multiplier-Keeps,
}
use partition_alloc.Registry.Periodic.{
  Outcome, Ordered, run_periodic_purge-Outcome, set_purging_configuration-Ordered,
}

abbrev bucket : CacheBucket
bucket = record { slots = 16 ∷ 32 ∷ []; count = 2; limit = 64; slot_size = 16 }

abbrev cache : Cache
cache = record {
  buckets = bucket ∷ [];
  cached_memory = 32;
  should_purge = false;
  is_in_thread_cache = false;
  history = [];
}

memory_test : 32 ≡ memory_of cache.buckets
memory_test = omega (arith, memory_of-sum cache.buckets)

cache-CacheIsValid : CacheIsValid cache
cache-CacheIsValid = record {
  cached = memory_test;
  buckets = (
    record { counted = refl; low = omega arith; limited = omega arith; small = omega arith },
    tt,
  );
  few = omega arith;
  idle = refl;
}

abbrev unconfigured : Registry
unconfigured = record {
  caches = cache ∷ cache ∷ [];
  min_purge_interval = 0;
  max_purge_interval = 0;
  default_purge_interval = 0;
  min_cached_memory_for_purging_bytes = 0;
  periodic_purge_next_interval = 2000000;
  is_purging_configured = false;
}

abbrev registry : Registry
registry = record unconfigured {
  min_purge_interval = 1000000;
  max_purge_interval = 60000000;
  default_purge_interval = 2000000;
  min_cached_memory_for_purging_bytes = 512000;
  is_purging_configured = true;
}

abbrev small_bucket : RootBucket
small_bucket = record { has_head = true; slot_size = 16 }

abbrev large_bucket : RootBucket
large_bucket = record { has_head = true; slot_size = 4096 }

global_limit-LimitsAgree_example :
    LimitsAgree small_bucket large_bucket
      (global_limit 128 small_bucket)
      (global_limit 128 large_bucket)
global_limit-LimitsAgree_example = global_limit-LimitsAgree 128 small_bucket large_bucket

set_thread_cache_multiplier-Keeps_example :
    let cache' = record cache {
      buckets = with_limits (set_global_limits 128 (small_bucket ∷ [])) cache.buckets;
    } in
    (get_elem? (set_thread_cache_multiplier 128 (small_bucket ∷ []) registry).caches 1
      ≡ some cache')
    × CacheIsValid cache'
set_thread_cache_multiplier-Keeps_example =
    set_thread_cache_multiplier-Keeps 128 (small_bucket ∷ []) registry 1 cache refl
      cache-CacheIsValid

run_periodic_purge-Outcome_example :
    Outcome (some 1) registry (run_periodic_purge (some 1) registry)
run_periodic_purge-Outcome_example =
    run_periodic_purge-Outcome (some 1) registry (λ configured. omega arith)
      (cache, (refl, cache-CacheIsValid))

configured : set_purging_configuration 1000000 60000000 2000000 512000 unconfigured ≡ some registry
unfolding set_purging_configuration
configured = refl

ordered : Ordered registry
ordered =
    set_purging_configuration-Ordered 1000000 60000000 2000000 512000 unconfigured registry
      configured

limits_test : set_global_limits 128 (small_bucket ∷ large_bucket ∷ []) ≡ 128 ∷ 16 ∷ []
unfolding global_limit
limits_test = refl
