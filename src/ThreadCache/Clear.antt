-- ===== src/ThreadCache/Clear.antt =====
-- ClearBucket and PurgeInternal of thread_cache.cc: what they free, and that their checks hold.
use mathlib.Core.List.{append-nil}
use partition_alloc.Base.{
  ==_of, leb_of, ℕ, zero, suc, ◌+◌, ◌-◌, ◌*◌, ◌%◌, min, ◌≤◌, ◌<◌, ◌≡◌, refl, sym, ap, inl, inr,
  ◌==◌, leb, Bool-cases, Option, none, some, ◌>>=◌, check, Returns, List, [], ◌∷◌, ◌++◌, length,
  get_elem?, set, arith, sum_of-set, set_same,
}
use partition_alloc.ThreadCache.{
  CacheBucket, Cache, memory_of, cut, free_after, is_low, freed_memory, cleared, clear_bucket,
  u8_mod,
}
use partition_alloc.ThreadCache.Sums.{weight, memory_of-sum}

-- The first `limit` entries of a list that has as many.
pub cut_lem :
    (limit : ℕ) (xs : List ℕ)
    → limit ≤ length xs
    → Returns (λ (p : List ℕ × List ℕ). (xs ≡ p.0 ++ p.1) × (length p.0 ≡ limit)) (cut limit xs)
unfolding cut
cut_lem zero xs h = (refl, refl)
cut_lem (suc limit) [] h = absurd (omega arith)
cut_lem (suc limit) (x ∷ xs) h = finish (cut limit xs) (cut_lem limit xs (omega arith))
  where
    finish :
        (o : Option (List ℕ × List ℕ))
        → Returns (λ (p : List ℕ × List ℕ). (xs ≡ p.0 ++ p.1) × (length p.0 ≡ limit)) o
        → Returns
            (λ (p : List ℕ × List ℕ). (x ∷ xs ≡ p.0 ++ p.1) × (length p.0 ≡ suc limit))
            (elim o [ none ↦ none | some (kept, freed) ↦ some (x ∷ kept, freed) ])
    finish none k = k
    finish (some (kept, freed)) k = (ap {B = List ℕ} (λ ys. x ∷ ys) k.0, omega (arith, k.1))

-- The bucket `b` at `index` has become `b'`: its oldest slots have been freed.
pub record Cleared (index limit : ℕ) (b : CacheBucket) (t t' : Cache) : Type 0 where
  pub kept : List ℕ
  pub freed : List ℕ
  pub split : b.slots ≡ kept ++ freed
  pub few : length kept ≡ min b.count limit
  pub buckets :
      t'.buckets ≡ set t.buckets index (record b { slots = kept; count = min b.count limit })
  pub history : t'.history ≡ free_after freed t.history
  pub cached : t'.cached_memory ≡ memory_of t'.buckets
  pub should_purge : t'.should_purge ≡ t.should_purge
  pub guard : t'.is_in_thread_cache ≡ t.is_in_thread_cache

weight-split :
    (limit count size : ℕ) → limit ≤ count → (count - limit) * size + limit * size ≡ count * size
weight-split limit count size h = grind arith

-- Nothing is freed.
Cleared-none :
    (index limit : ℕ) (b : CacheBucket) (t : Cache)
    → get_elem? t.buckets index ≡ some b
    → b.count ≡ length b.slots
    → t.cached_memory ≡ memory_of t.buckets
    → b.count ≤ limit
    → Cleared index limit b t t
unfolding free_after
Cleared-none index limit b t at counted cached low =
    let all : min b.count limit ≡ b.count = omega arith in
    record {
      kept = b.slots;
      freed = [];
      split = sym (append-nil b.slots);
      few = omega arith;
      buckets = rw all (sym (set_same t.buckets index b at));
      history = refl;
      cached = cached;
      should_purge = refl;
      guard = refl;
    }

-- What the two checks at the end of ClearBucket compare.
cleared_memory :
    (index limit : ℕ) (b : CacheBucket) (t : Cache) (kept freed : List ℕ)
    → get_elem? t.buckets index ≡ some b
    → t.cached_memory ≡ memory_of t.buckets
    → limit < u8_mod
    → limit < b.count
    → (freed_memory b limit ≤ t.cached_memory)
      × (t.cached_memory - freed_memory b limit
          ≡ memory_of (cleared t index b limit kept freed).buckets)
cleared_memory index limit b t kept freed at cached small more =
    let c = record b { slots = kept; count = limit % u8_mod } in
    let whole : limit % u8_mod ≡ limit = omega arith in
    let change = sum_of-set weight t.buckets index b c at in
    let before = memory_of-sum t.buckets in
    let after = memory_of-sum (set t.buckets index c) in
    let parts = weight-split (limit % u8_mod) b.count b.slot_size (omega arith) in
    (omega arith, omega arith)

Cleared-cut :
    (index limit : ℕ) (b : CacheBucket) (t : Cache) (kept freed : List ℕ)
    → get_elem? t.buckets index ≡ some b
    → t.cached_memory ≡ memory_of t.buckets
    → limit < u8_mod
    → limit < b.count
    → b.slots ≡ kept ++ freed
    → length kept ≡ limit
    → Cleared index limit b t (cleared t index b limit kept freed)
Cleared-cut index limit b t kept freed at cached small more split long =
    let same : limit % u8_mod ≡ min b.count limit = omega arith in
    record {
      kept = kept;
      freed = freed;
      split = split;
      few = omega arith;
      buckets = rw same refl;
      history = refl;
      cached = (cleared_memory index limit b t kept freed at cached small more).1;
      should_purge = refl;
      guard = refl;
    }

-- ClearBucket, where the count of the bucket and the memory of the cache are right and the limit is
-- below 256, fails no check, keeps the newest slots up to the limit and frees the others.
pub clear_bucket-Cleared :
    (index limit : ℕ) (b : CacheBucket) (t : Cache)
    → get_elem? t.buckets index ≡ some b
    → b.count ≡ length b.slots
    → t.cached_memory ≡ memory_of t.buckets
    → limit < u8_mod
    → Returns (Cleared index limit b t) (clear_bucket index limit t)
unfolding clear_bucket
clear_bucket-Cleared index limit b t at counted cached small =
    rw at (elim (Bool-cases (is_low b limit)) [
      | inl low ↦ rw low (Cleared-none index limit b t at counted cached (ground (arith, low)))
      | inr high ↦ rw high (
          finish (ground (arith, high)) (cut limit b.slots)
            (cut_lem limit b.slots (ground (arith, high))))
    ])
  where
    finish :
        limit < b.count
        → (o : Option (List ℕ × List ℕ))
        → Returns (λ (p : List ℕ × List ℕ). (b.slots ≡ p.0 ++ p.1) × (length p.0 ≡ limit)) o
        → Returns (Cleared index limit b t) (
            o >>= λ p. check (leb (freed_memory b limit) t.cached_memory) (
              let t' = cleared t index b limit p.0 p.1 in
              check (t'.cached_memory == memory_of t'.buckets) (some t')))
    finish more none h = h
    finish more (some (kept, freed)) (split, long) =
        let m = cleared_memory index limit b t kept freed at cached small more in
        rw (leb_of _ _ m.0, ==_of _ _ m.1)
          (Cleared-cut index limit b t kept freed at cached small more split long)
