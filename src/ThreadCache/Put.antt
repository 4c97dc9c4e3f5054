-- ===== src/ThreadCache/Put.antt =====
-- MaybePutInCache: a slot that the cache accepts is in its books.
use partition_alloc.Base.{
  ℕ, ◌+◌, ◌*◌, ◌/◌, ◌%◌, ◌≤◌, ◌<◌, ◌≡◌, refl, sym, ap, ◌∙◌, subst, inl, inr, Bool, true, false, not,
  ◌||◌, ◌==◌, ltb, Bool-cases, if◌then◌else◌, Option, none, some, ◌>>=◌, Returns, >>=-Returns, [],
  ◌∷◌, length, get_elem?, set, some-injective, arith, sum_of-set, get_elem?-set_self,
  get_elem?-below, set-set, length-set,
}
use partition_alloc.ThreadCache.{
  CacheBucket, Cache, memory_of, put_in_bucket, clear_bucket, put_at, trim, purge_if_asked,
  maybe_put_in_cache, is_nil, u8_mod,
}
use partition_alloc.ThreadCache.Sums.{
  sum_of-le, weight, memory_of-sum, BucketIsValid, AllValid, AllValid-get, AllValid-set,
}
use partition_alloc.ThreadCache.Clear.{Cleared, clear_bucket-Cleared}
use partition_alloc.ThreadCache.Ledger.{
  occurrences, CacheIsValid, Balanced, nothing, just, Keeps, Cleared-Balanced, Cleared-CacheIsValid,
}
use partition_alloc.ThreadCache.Steps.{Keeps-refl, Keeps-after, guarded_idle}
use partition_alloc.ThreadCache.Purge.{purge_if_asked-Keeps}

-- The bucket after PutInBucket has one slot more, with no wrap-around.
put_in_bucket-BucketIsValid :
    (slot : ℕ) (b : CacheBucket) → BucketIsValid 254 b → BucketIsValid 255 (put_in_bucket slot b)
unfolding put_in_bucket
put_in_bucket-BucketIsValid slot b v =
    let one : (b.count + 1) % u8_mod ≡ b.count + 1 = omega (arith, v.low) in
    record {
      counted = omega (arith, one, v.counted);
      low = omega (arith, one, v.low);
      limited = v.limited;
      small = v.small;
    }

count-put_in_bucket :
    (slot : ℕ) (b : CacheBucket) → b.count + 1 ≤ 254 → (put_in_bucket slot b).count ≤ 254
unfolding put_in_bucket
count-put_in_bucket slot b h = omega arith

one_more : (count size : ℕ) → (count + 1) * size ≡ count * size + size
one_more count size = grind arith

cached_memory-put_at :
    (index slot : ℕ) (b : CacheBucket) (t : Cache)
    → CacheIsValid t
    → get_elem? t.buckets index ≡ some b
    → (put_at index b slot t).cached_memory ≡ memory_of (put_at index b slot t).buckets
unfolding put_in_bucket
cached_memory-put_at index slot b t v at =
    let b_valid = AllValid-get t.buckets index v.buckets at in
    let c = put_in_bucket slot b in
    let one : c.count ≡ b.count + 1 = omega (arith, b_valid.low) in
    let more : weight c ≡ weight b + b.slot_size =
      ap (λ n. n * b.slot_size) one ∙ one_more b.count b.slot_size in
    let change = sum_of-set weight t.buckets index b c at in
    let before = memory_of-sum t.buckets in
    let after = memory_of-sum (set t.buckets index c) in
    let bound = sum_of-le t.buckets v.buckets in
    let cached = v.cached in let few = v.few in let small = b_valid.small in omega arith

put_at-Balanced :
    (index slot : ℕ) (b : CacheBucket) (t : Cache)
    → get_elem? t.buckets index ≡ some b
    → Balanced (just slot) nothing t (put_at index b slot t)
unfolding put_in_bucket
put_at-Balanced index slot b t at x =
    let change =
      sum_of-set (λ b. occurrences x b.slots) t.buckets index b (put_in_bucket slot b) at in
    omega arith

-- A cut after the put.
put_at-clear_bucket :
    (index slot limit : ℕ) (b : CacheBucket) (t : Cache)
    → CacheIsValid t
    → get_elem? t.buckets index ≡ some b
    → limit ≤ 254
    → Returns (Keeps (just slot) nothing t) (clear_bucket index limit (put_at index b slot t))
put_at-clear_bucket index slot limit b t v at low =
    finish (clear_bucket index limit (put_at index b slot t)) (
      clear_bucket-Cleared index limit c (put_at index b slot t) there full.counted cached
        (omega arith))
  where
    c : CacheBucket
    c = put_in_bucket slot b

    there : get_elem? (set t.buckets index c) index ≡ some c
    there = get_elem?-set_self t.buckets index b c at

    full : BucketIsValid 255 c
    full = put_in_bucket-BucketIsValid slot b (AllValid-get t.buckets index v.buckets at)

    cached : (put_at index b slot t).cached_memory ≡ memory_of (put_at index b slot t).buckets
    cached = cached_memory-put_at index slot b t v at

    finish :
        (o : Option Cache)
        → Returns (Cleared index limit c (put_at index b slot t)) o
        → Returns (Keeps (just slot) nothing t) o
    finish none h = h
    finish (some t') k =
        let same = length-set t.buckets index c in
        let r =
          Cleared-CacheIsValid index limit c (put_at index b slot t) t'
            (λ d d_valid.
              subst AllValid (sym (set-set t.buckets index c d))
                (AllValid-set t.buckets index d v.buckets d_valid))
            full (omega arith) (omega (arith, v.few)) v.idle k in
        record {
          valid = r.0;
          size = r.1 ∙ same;
          balance = λ x.
              let first = put_at-Balanced index slot b t at x in
              let second = Cleared-Balanced index limit c (put_at index b slot t) t' there k x in
              omega arith;
        }

-- No cut after the put.
pub put_at-Keeps :
    (index slot : ℕ) (b : CacheBucket) (t : Cache)
    → CacheIsValid t
    → get_elem? t.buckets index ≡ some b
    → b.count + 1 ≤ b.limit
    → Keeps (just slot) nothing t (put_at index b slot t)
put_at-Keeps index slot b t v at low =
    let b_valid = AllValid-get t.buckets index v.buckets at in
    let full = put_in_bucket-BucketIsValid slot b b_valid in
    let same = length-set t.buckets index (put_in_bucket slot b) in
    record {
      valid = record {
        cached = cached_memory-put_at index slot b t v at;
        buckets = AllValid-set t.buckets index (put_in_bucket slot b) v.buckets (record {
          counted = full.counted;
          low = count-put_in_bucket slot b (omega (arith, b_valid.limited));
          limited = full.limited;
          small = full.small;
        });
        few = omega (arith, v.few);
        idle = v.idle;
      };
      size = same;
      balance = put_at-Balanced index slot b t at;
    }

-- The put and the cut that follows it when the bucket is over its limit.
trim-Keeps :
    (index slot : ℕ) (b : CacheBucket) (t : Cache)
    → CacheIsValid t
    → get_elem? t.buckets index ≡ some b
    → Returns (Keeps (just slot) nothing t) (trim index b (put_at index b slot t))
unfolding trim
trim-Keeps index slot b t v at =
    let b_valid = AllValid-get t.buckets index v.buckets at in
    let low = b_valid.low in
    let limited = b_valid.limited in
    elim (Bool-cases (ltb b.limit ((b.count + 1) % u8_mod))) [
      | inl over ↦ rw over (put_at-clear_bucket index slot (b.limit / 2) b t v at (omega arith))
      | inr within ↦ rw within (put_at-Keeps index slot b t v at (ground (arith, within)))
    ]

-- What a put leaves: the books, and the slot size of the bucket when the cache takes the slot.
pub record Put (largest slot index : ℕ) (t : Cache) (r : Cache × Option ℕ) : Type 0 where
  pub keeps : Keeps (if ltb largest index then nothing else just slot) nothing t r.0
  pub refused : ltb largest index ≡ true → r.1 ≡ none
  pub size :
      (b : CacheBucket)
      → get_elem? t.buckets index ≡ some b
      → ltb largest index ≡ false
      → r.1 ≡ some b.slot_size

-- The freelist is empty when the count is 0.
pub count_check :
    (b : CacheBucket) → BucketIsValid 254 b → (not (b.count == 0) || is_nil b.slots) ≡ true
count_check b v =
    elim b.slots as (λ s. length s ≡ length b.slots → (not (b.count == 0) || is_nil s) ≡ true) [
      | [] ↦ λ e. ground (arith, v.counted)
      | x ∷ rest ↦ λ e. ground (arith, v.counted)
    ]
      refl

not_both : {c : Bool} → c ≡ false → c ≡ true → ⊥
not_both e f = cc

active_taken :
    (largest slot index : ℕ) (b : CacheBucket) (t : Cache)
    → CacheIsValid t
    → ltb largest index ≡ false
    → get_elem? t.buckets index ≡ some b
    → Returns (Put largest slot index t) (
        trim index b (put_at index b slot t) >>= λ t'.
        purge_if_asked t' >>= λ t''. some (t'', some b.slot_size))
active_taken largest slot index b t v active at =
    >>=-Returns (Keeps (just slot) nothing t) (Put largest slot index t)
      (trim index b (put_at index b slot t))
      (λ t'. purge_if_asked t' >>= λ t''. some (t'', some b.slot_size))
      (trim-Keeps index slot b t v at)
      λ t' k.
        >>=-Returns (Keeps (just slot) nothing t) (Put largest slot index t) (purge_if_asked t')
          (λ t''. some (t'', some b.slot_size))
          (Keeps-after (just slot) nothing t t' (purge_if_asked t') k
            (purge_if_asked-Keeps t' k.valid))
          λ t'' k'. record {
            keeps = rw active k';
            refused = λ above. absurd (not_both active above);
            size = λ b' at' same. (ap (λ c. some c.slot_size) (some-injective (sym at ∙ at')));
          }

-- MaybePutInCache of a valid cache: no check fails.
pub maybe_put_in_cache-Put :
    (largest slot index : ℕ) (t : Cache)
    → CacheIsValid t
    → largest < length t.buckets
    → Returns (Put largest slot index t) (maybe_put_in_cache largest slot index t)
unfolding maybe_put_in_cache
maybe_put_in_cache-Put largest slot index t v inside =
    rw (guarded_idle t _ v.idle) (elim (Bool-cases (ltb largest index)) [
      | inl above ↦ rw above (record {
        keeps = rw above (Keeps-refl t v);
        refused = λ same. refl;
        size = λ b at active. absurd (not_both active above);
      })
      | inr active ↦
          let (b, at) = get_elem?-below t.buckets index (ground (arith, active)) in
          rw (active, at, count_check b (AllValid-get t.buckets index v.buckets at))
            (active_taken largest slot index b t v active at)
    ])
