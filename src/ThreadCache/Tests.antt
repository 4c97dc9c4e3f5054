-- ===== src/ThreadCache/Tests.antt =====
-- A thread cache of two buckets, the second of which is near its limit.
use partition_alloc.Base.{
  ℕ, ◌+◌, ◌*◌, ◌≡◌, refl, false, Option, some, ◌>>=◌, Returns, List, [], ◌∷◌, length, arith,
}
use partition_alloc.ThreadCache.{
  CacheBucket, Cache, Central, memory_of, clear_bucket, maybe_put_in_cache, get_from_cache, purge,
  fill_if_empty,
}
use partition_alloc.ThreadCache.Clear.{Cleared, clear_bucket-Cleared}
use partition_alloc.ThreadCache.Ledger.{CacheIsValid}
use partition_alloc.ThreadCache.Put.{Put, maybe_put_in_cache-Put}
use partition_alloc.ThreadCache.Get.{NoneTwice, Got, get_from_cache-Got}
use partition_alloc.ThreadCache.Sessions.{
  Call, put, get, purge_now, ask_purge, new_limit, Session, CallsAreValid, run,
}
use partition_alloc.ThreadCache.Calls.{Runs, run-Accounted}
use partition_alloc.ThreadCache.RoundTrip.{get_from_cache-maybe_put_in_cache}
use partition_alloc.ThreadCache.Purge.{Purged, purge-Purged}

-- The n-th slot that the central allocator hands out.
abbrev fresh : Central
fresh h index = some (4096 * (index + 1) + 64 * length h)

abbrev small : CacheBucket
small = record { slots = 16 ∷ 32 ∷ []; count = 2; limit = 2; slot_size = 16 }

abbrev large : CacheBucket
large = record { slots = []; count = 0; limit = 64; slot_size = 32 }

abbrev two_buckets : Cache
two_buckets = record {
  buckets = small ∷ large ∷ [];
  cached_memory = 32;
  should_purge = false;
  is_in_thread_cache = false;
  history = [];
}

memory_test : 32 ≡ memory_of two_buckets.buckets
unfolding memory_of
memory_test = refl

two_buckets-CacheIsValid : CacheIsValid two_buckets
two_buckets-CacheIsValid = record {
  cached = memory_test;
  buckets = (
    record { counted = refl; low = omega arith; limited = omega arith; small = omega arith },
    (record { counted = refl; low = omega arith; limited = omega arith; small = omega arith }, tt),
  );
  few = omega arith;
  idle = refl;
}

clear_bucket-Cleared_example :
    Returns (Cleared 0 1 small two_buckets) (clear_bucket 0 1 two_buckets)
clear_bucket-Cleared_example =
    clear_bucket-Cleared 0 1 small two_buckets refl refl memory_test (omega arith)

maybe_put_in_cache-Put_example :
    Returns (Put 1 48 0 two_buckets) (maybe_put_in_cache 1 48 0 two_buckets)
maybe_put_in_cache-Put_example =
    maybe_put_in_cache-Put 1 48 0 two_buckets two_buckets-CacheIsValid (omega arith)

get_from_cache-Got_example : Returns (Got 1 1 two_buckets) (get_from_cache fresh 1 1 two_buckets)
unfolding fill_if_empty
get_from_cache-Got_example =
    get_from_cache-Got fresh 1 1 two_buckets two_buckets-CacheIsValid (omega arith)
      (λ x. ground arith)

get_from_cache-maybe_put_in_cache_example :
    Returns
      (λ (r : Cache × Option ℕ).
        Returns
          (λ (r' : Cache × Option ℕ). (r'.1 ≡ some 8192) × (r'.0 ≡ two_buckets))
          (get_from_cache fresh 1 1 r.0))
      (maybe_put_in_cache 1 8192 1 two_buckets)
get_from_cache-maybe_put_in_cache_example =
    get_from_cache-maybe_put_in_cache 1 8192 1 large two_buckets two_buckets-CacheIsValid refl refl
      (omega arith) refl refl fresh

purge-Purged_example : Returns (Purged two_buckets) (purge two_buckets)
purge-Purged_example = purge-Purged two_buckets two_buckets-CacheIsValid

abbrev calls : List Call
calls = put 48 0 ∷ new_limit 1 8 ∷ get 1 ∷ ask_purge ∷ put 64 1 ∷ get 0 ∷ purge_now ∷ []

abbrev session : Session
session = record { cache = two_buckets; put_in = []; handed_out = [] }

calls-AreValid : CallsAreValid fresh 1 calls session
unfolding CallsAreValid fill_if_empty
calls-AreValid =
    (refl, (omega arith, (λ x. ground arith, (tt, (refl, (λ x. ground arith, (tt, tt)))))))

session-NoneTwice : NoneTwice session.cache
session-NoneTwice x = ground arith

run-Accounted_example : Returns (Runs session) (run fresh 1 calls session)
run-Accounted_example =
    run-Accounted fresh 1 calls session two_buckets-CacheIsValid session-NoneTwice (omega arith)
      calls-AreValid

-- The first put is over the limit and frees two slots; the second is followed by the purge that was
-- asked for.
run_test : (run fresh 1 calls session >>= λ s. some s.handed_out) ≡ some (4416 ∷ 8320 ∷ [])
unfolding run
run_test = refl
