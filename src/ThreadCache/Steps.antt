-- ===== src/ThreadCache/Steps.antt =====
-- Steps that keep the books of a thread cache, and their composition.
use partition_alloc.Base.{
  ℕ, ◌≤◌, ◌≡◌, refl, ap, ◌∙◌, false, not, Option, none, some, check, Returns, get_elem?, arith,
}
use partition_alloc.ThreadCache.{CacheBucket, Cache, clear_bucket, guarded}
use partition_alloc.ThreadCache.Sums.{BucketIsValid, AllValid-get, AllValid-set}
use partition_alloc.ThreadCache.Clear.{Cleared, clear_bucket-Cleared}
use partition_alloc.ThreadCache.Ledger.{
  CacheIsValid, nothing, Keeps, Cleared-Balanced, Cleared-CacheIsValid,
}

pub Keeps-refl : (t : Cache) → CacheIsValid t → Keeps nothing nothing t t
Keeps-refl t v = record { valid = v; size = refl; balance = λ x. refl }

pub Keeps-trans :
    (gain loss : ℕ → ℕ) (a b c : Cache)
    → Keeps gain loss a b
    → Keeps nothing nothing b c
    → Keeps gain loss a c
Keeps-trans gain loss a b c h k = record {
  valid = k.valid;
  size = k.size ∙ h.size;
  balance = λ x. omega (arith, h.balance x, k.balance x);
}

-- A valid bucket may also be one of 255.
pub wider : (b : CacheBucket) → BucketIsValid 254 b → BucketIsValid 255 b
wider b v = record {
  counted = v.counted;
  low = omega (arith, v.low);
  limited = v.limited;
  small = v.small;
}

pub Cleared-Keeps :
    (index limit : ℕ) (b : CacheBucket) (t t' : Cache)
    → CacheIsValid t
    → get_elem? t.buckets index ≡ some b
    → limit ≤ 254
    → Cleared index limit b t t'
    → Keeps nothing nothing t t'
Cleared-Keeps index limit b t t' v at low c =
    let k =
      Cleared-CacheIsValid index limit b t t'
        (λ d d_valid. AllValid-set t.buckets index d v.buckets d_valid)
        (wider b (AllValid-get t.buckets index v.buckets at)) (omega arith) v.few v.idle c in
    record { valid = k.0; size = k.1; balance = Cleared-Balanced index limit b t t' at c }

-- ClearBucket of a valid cache.
pub clear_bucket-Cleared_valid :
    (index limit : ℕ) (b : CacheBucket) (t : Cache)
    → CacheIsValid t
    → get_elem? t.buckets index ≡ some b
    → limit ≤ 254
    → Returns (Cleared index limit b t) (clear_bucket index limit t)
clear_bucket-Cleared_valid index limit b t v at low =
    clear_bucket-Cleared index limit b t at (AllValid-get t.buckets index v.buckets at).counted
      v.cached (omega arith)

-- After a step that kept the books, one that changes nothing else.
pub Keeps-after :
    (gain loss : ℕ → ℕ) (t t' : Cache) (o : Option Cache)
    → Keeps gain loss t t'
    → Returns (Keeps nothing nothing t') o
    → Returns (Keeps gain loss t) o
Keeps-after gain loss t t' none k h = h
Keeps-after gain loss t t' (some t'') k h = Keeps-trans gain loss t t' t'' k h

pub guarded_idle {ℓ} :
    {A : Type ℓ} (t : Cache) (k : Option A) → t.is_in_thread_cache ≡ false → guarded t k ≡ k
guarded_idle t k e = ap (λ c. check (not c) k) e
