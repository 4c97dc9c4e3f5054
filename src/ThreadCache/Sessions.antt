-- ===== src/ThreadCache/Sessions.antt =====
-- The calls that a thread cache gets, by its own thread and by the others, in any order, and what is right
-- of them.
use partition_alloc.Base.{
  ℕ, ◌+◌, ◌≤◌, ◌≡◌, refl, Option, none, some, ◌>>=◌, List, [], ◌∷◌, length, get_elem?, set, arith,
  sum_of-set, length-set,
}
use partition_alloc.ThreadCache.{
  CacheBucket, Cache, Central, maybe_put_in_cache, get_from_cache, purge, set_limit,
  set_should_purge,
}
use partition_alloc.ThreadCache.Sums.{weight, memory_of-sum, AllValid-get, AllValid-set}
use partition_alloc.ThreadCache.Ledger.{
  occurrences, held, took_count, gave_count, CacheIsValid, nothing, Keeps,
}
use partition_alloc.ThreadCache.Steps.{Keeps-refl}
use partition_alloc.ThreadCache.Get.{OnResult, Refills}

pub data Call : Type 0 where
  put : ℕ → ℕ → Call  -- MaybePutInCache of a slot and a bucket index
  get : ℕ → Call  -- GetFromCache of a bucket index
  purge_now : Call  -- Purge
  ask_purge : Call  -- SetShouldPurge, by another thread
  new_limit : ℕ → ℕ → Call  -- SetThreadCacheMultiplier, by another thread: a bucket index, a limit

-- The cache, the slots that it took and those that it handed out.
pub record Session : Type 0 where
  pub cache : Cache
  pub put_in : List ℕ
  pub handed_out : List ℕ

abbrev pub listed : Option ℕ → ℕ → List ℕ → List ℕ
listed none slot xs = xs
listed (some size) slot xs = slot ∷ xs

abbrev pub added : Option ℕ → List ℕ → List ℕ
added none xs = xs
added (some slot) xs = slot ∷ xs

unfoldable pub call : Central → ℕ → Call → Session → Option Session
unfolding maybe_put_in_cache get_from_cache purge set_should_purge set_limit
call central largest (put slot index) s = maybe_put_in_cache largest slot index s.cache >>= λ r.
    some (record s { cache = r.0; put_in = listed r.1 slot s.put_in })
call central largest (get index) s = get_from_cache central largest index s.cache >>= λ r.
    some (record s { cache = r.0; handed_out = added r.1 s.handed_out })
call central largest purge_now s = purge s.cache >>= λ t. some (record s { cache = t })
call central largest ask_purge s = some (record s { cache = set_should_purge s.cache })
call central largest (new_limit index limit) s =
    some (record s { cache = set_limit index limit s.cache })

unfoldable pub run : Central → ℕ → List Call → Session → Option Session
unfolding call
run central largest [] s = some s
run central largest (c ∷ cs) s = call central largest c s >>= λ s'. run central largest cs s'

-- A slot that is put in is not in the cache, a get that refills a bucket leaves no slot twice in it before
-- it takes one, and a limit of a bucket is at most 254.
abbrev pub CallIsValid : Central → Call → Session → Type 0
CallIsValid central (put slot index) s = held slot s.cache.buckets ≡ 0
CallIsValid central (get index) s = Refills central index s.cache
CallIsValid central purge_now s = Unit {0}
CallIsValid central ask_purge s = Unit {0}
CallIsValid central (new_limit index limit) s = limit ≤ 254

-- Each call, in the session that the calls before it have left.
unfoldable pub CallsAreValid : Central → ℕ → List Call → Session → Type 0
unfolding call
CallsAreValid central largest [] s = Unit {0}
CallsAreValid central largest (c ∷ cs) s =
    CallIsValid central c s
    × OnResult (λ s'. CallsAreValid central largest cs s') (call central largest c s)

-- Between two points of a session, no slot is lost and none is doubled.
pub record Accounted (s s' : Session) : Type 0 where
  pub valid : CacheIsValid s'.cache
  pub size : length s'.cache.buckets ≡ length s.cache.buckets
  pub balance :
      (x : ℕ)
      → held x s'.cache.buckets
          + gave_count x s'.cache.history
          + took_count x s.cache.history
          + occurrences x s'.handed_out
          + occurrences x s.put_in
        ≡ held x s.cache.buckets
          + gave_count x s.cache.history
          + took_count x s'.cache.history
          + occurrences x s'.put_in
          + occurrences x s.handed_out

pub set_should_purge-Keeps :
    (t : Cache) → CacheIsValid t → Keeps nothing nothing t (set_should_purge t)
unfolding set_should_purge
set_should_purge-Keeps t v = record {
  valid = record { cached = v.cached; buckets = v.buckets; few = v.few; idle = v.idle };
  size = refl;
  balance = λ x. refl;
}

limit_changed-Keeps :
    (index limit : ℕ) (b : CacheBucket) (t : Cache)
    → CacheIsValid t
    → limit ≤ 254
    → get_elem? t.buckets index ≡ some b
    → Keeps nothing nothing t
        (record t { buckets = set t.buckets index (record b { limit = limit }) })
limit_changed-Keeps index limit b t v low at =
    let c = record b { limit = limit } in
    let b_valid = AllValid-get t.buckets index v.buckets at in
    let change = sum_of-set weight t.buckets index b c at in
    let before = memory_of-sum t.buckets in
    let after = memory_of-sum (set t.buckets index c) in
    let same = length-set t.buckets index c in
    let cached = v.cached in
    record {
      valid = record {
        cached = omega arith;
        buckets = AllValid-set t.buckets index c v.buckets (record {
          counted = b_valid.counted;
          low = b_valid.low;
          limited = low;
          small = b_valid.small;
        });
        few = omega (arith, v.few);
        idle = v.idle;
      };
      size = same;
      balance = λ x.
          let moved = sum_of-set (λ b. occurrences x b.slots) t.buckets index b c at in omega arith;
    }

pub set_limit-Keeps :
    (index limit : ℕ) (t : Cache)
    → CacheIsValid t
    → limit ≤ 254
    → Keeps nothing nothing t (set_limit index limit t)
unfolding set_limit
set_limit-Keeps index limit t v low = go (get_elem? t.buckets index) refl
  where
    go :
        (o : Option CacheBucket)
        → get_elem? t.buckets index ≡ o
        → Keeps nothing nothing t (elim o [
          | none ↦ t
          | some b ↦ record t { buckets = set t.buckets index (record b { limit = limit }) }
        ])
    go none at = Keeps-refl t v
    go (some b) at = limit_changed-Keeps index limit b t v low at
