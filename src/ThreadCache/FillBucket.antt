-- ===== src/ThreadCache/FillBucket.antt =====
-- FillBucket: the slots that the central allocator hands out are in the books.
use partition_alloc.Base.{
  ℕ, zero, suc, ◌+◌, ◌-◌, ◌*◌, ◌%◌, ◌≤◌, ◌≡◌, refl, ap, ◌∙◌, none, some, Returns, ◌∷◌, get_elem?,
  set, arith, sum_of-set, length-set,
}
use partition_alloc.ThreadCache.{
  CacheBucket, Cache, History, Central, took, memory_of, put_in_bucket, Fill, fill_loop, fill_count,
  fill, fill_bucket, u8_mod, u32_mod,
}
use partition_alloc.ThreadCache.Sums.{
  sum_of-le, weight, memory_of-sum, BucketIsValid, AllValid-get, AllValid-set,
}
use partition_alloc.ThreadCache.Ledger.{
  occurrences, took_count, gave_count, CacheIsValid, nothing, Keeps,
}

-- What a number of rounds of the loop has done.
pub record Filled (rounds : ℕ) (f g : Fill) : Type 0 where
  pub valid : BucketIsValid 254 g.bucket
  pub size : g.bucket.slot_size ≡ f.bucket.slot_size
  pub limit : g.bucket.limit ≡ f.bucket.limit
  pub counted : g.bucket.count + f.allocated_slots ≡ f.bucket.count + g.allocated_slots
  pub few : g.allocated_slots ≤ f.allocated_slots + rounds
  pub took_all :
      (x : ℕ)
      → occurrences x g.bucket.slots + took_count x f.history
        ≡ occurrences x f.bucket.slots + took_count x g.history
  pub gave_none : (x : ℕ) → gave_count x g.history ≡ gave_count x f.history

-- One round.
abbrev filled_with : ℕ → ℕ → Fill → Fill
unfolding put_in_bucket
filled_with index a f = record {
  bucket = put_in_bucket a f.bucket;
  history = took index a ∷ f.history;
  allocated_slots = f.allocated_slots + 1;
}

filled_with-BucketIsValid :
    (index a rounds : ℕ) (f : Fill)
    → rounds ≤ 253
    → BucketIsValid (254 - suc rounds) f.bucket
    → BucketIsValid (254 - rounds) (filled_with index a f).bucket
unfolding put_in_bucket filled_with
filled_with-BucketIsValid index a rounds f h v =
    let one : (f.bucket.count + 1) % u8_mod ≡ f.bucket.count + 1 = omega (arith, v.low) in
    record {
      counted = omega (arith, one, v.counted);
      low = omega (arith, one, v.low);
      limited = v.limited;
      small = v.small;
    }

Filled-none : (rounds : ℕ) (f : Fill) → BucketIsValid 254 f.bucket → Filled rounds f f
Filled-none rounds f v = record {
  valid = v;
  size = refl;
  limit = refl;
  counted = refl;
  few = omega arith;
  took_all = λ x. refl;
  gave_none = λ x. refl;
}

-- A round that finds a slot, before the others.
Filled-more :
    (index a rounds : ℕ) (f g : Fill)
    → Filled rounds (filled_with index a f) g
    → f.bucket.count ≤ 253
    → Filled (suc rounds) f g
unfolding put_in_bucket filled_with
Filled-more index a rounds f g k low = record {
  valid = k.valid;
  size = k.size;
  limit = k.limit;
  counted = omega (arith, k.counted);
  few = omega (arith, k.few);
  took_all = λ x. omega (arith, k.took_all x);
  gave_none = k.gave_none;
}

fill_loop-Filled :
    (central : Central) (index rounds : ℕ) (f : Fill)
    → rounds ≤ 254
    → BucketIsValid (254 - rounds) f.bucket
    → Filled rounds f (fill_loop central index rounds f)
unfolding fill_loop
fill_loop-Filled central index zero f h v = Filled-none zero f v
fill_loop-Filled central index (suc rounds) f h v =
    elim (central f.history index)
      as (λ o.
        Filled (suc rounds) f
          (elim o [ none ↦ f | some a ↦ fill_loop central index rounds (filled_with index a f) ])) [
            | none ↦ Filled-none (suc rounds) f (record {
              counted = v.counted;
              low = omega (arith, v.low);
              limited = v.limited;
              small = v.small;
            })
            | some a ↦
                Filled-more index a rounds f
                  (fill_loop central index rounds (filled_with index a f))
                  (fill_loop-Filled central index rounds (filled_with index a f) (omega arith)
                    (filled_with-BucketIsValid index a rounds f (omega arith) v))
                  (omega (arith, v.low))
          ]

more_slots : (count more size : ℕ) → (count + more) * size ≡ count * size + more * size
more_slots count more size = grind arith

abbrev empty_fill : CacheBucket → History → Fill
empty_fill b h = record { bucket = b; history = h; allocated_slots = 0 }

fill-Filled :
    (central : Central) (index : ℕ) (b : CacheBucket) (h : History)
    → BucketIsValid 254 b
    → b.count ≡ 0
    → Filled (fill_count b) (empty_fill b h) (fill central index b h)
unfolding fill
fill-Filled central index b h v empty =
    let limited = v.limited in
    fill_loop-Filled central index (fill_count b) (empty_fill b h) (omega arith)
      (record { counted = v.counted; low = omega arith; limited = v.limited; small = v.small })

abbrev filled_cache : ℕ → CacheBucket → Fill → Cache → Cache
filled_cache index b f t = record t {
  buckets = set t.buckets index f.bucket;
  cached_memory = (t.cached_memory + f.allocated_slots * b.slot_size) % u32_mod;
  history = f.history;
}

cached_memory-Filled :
    (index : ℕ) (b : CacheBucket) (f : Fill) (t : Cache)
    → CacheIsValid t
    → get_elem? t.buckets index ≡ some b
    → Filled (fill_count b) (empty_fill b t.history) f
    → (filled_cache index b f t).cached_memory ≡ memory_of (set t.buckets index f.bucket)
cached_memory-Filled index b f t v at k =
    let bs = set t.buckets index f.bucket in
    let change = sum_of-set weight t.buckets index b f.bucket at in
    let count : f.bucket.count ≡ b.count + f.allocated_slots = omega (arith, k.counted) in
    let same : weight f.bucket ≡ (b.count + f.allocated_slots) * b.slot_size =
      ap (λ n. n * f.bucket.slot_size) count ∙ ap (λ s. (b.count + f.allocated_slots) * s) k.size in
    let parts = more_slots b.count f.allocated_slots b.slot_size in
    let before = memory_of-sum t.buckets in
    let after = memory_of-sum bs in
    let bound = sum_of-le bs (AllValid-set t.buckets index f.bucket v.buckets k.valid) in
    let long = length-set t.buckets index f.bucket in
    let few = v.few in let cached = v.cached in omega arith

Filled-Keeps :
    (index : ℕ) (b : CacheBucket) (f : Fill) (t : Cache)
    → CacheIsValid t
    → get_elem? t.buckets index ≡ some b
    → Filled (fill_count b) (empty_fill b t.history) f
    → Keeps nothing nothing t (filled_cache index b f t)
Filled-Keeps index b f t v at k =
    let same = length-set t.buckets index f.bucket in
    record {
      valid = record {
        cached = cached_memory-Filled index b f t v at k;
        buckets = AllValid-set t.buckets index f.bucket v.buckets k.valid;
        few = omega (arith, v.few);
        idle = v.idle;
      };
      size = same;
      balance = λ x.
          let change = sum_of-set (λ b. occurrences x b.slots) t.buckets index b f.bucket at in
          omega (arith, k.took_all x, k.gave_none x);
    }

-- FillBucket of an empty bucket.
pub fill_bucket-Keeps :
    (central : Central) (index : ℕ) (b : CacheBucket) (t : Cache)
    → CacheIsValid t
    → get_elem? t.buckets index ≡ some b
    → b.count ≡ 0
    → Returns (Keeps nothing nothing t) (fill_bucket central index t)
unfolding fill_bucket
fill_bucket-Keeps central index b t v at empty = rw at (
    Filled-Keeps index b (fill central index b t.history) t v at
      (fill-Filled central index b t.history (AllValid-get t.buckets index v.buckets at) empty))
