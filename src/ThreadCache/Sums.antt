-- ===== src/ThreadCache/Sums.antt =====
-- Sums over the buckets of a thread cache, and what one write changes.
use partition_alloc.Base.{
  ℕ, zero, suc, ◌*◌, ◌^◌, subst, ◌≤◌, ◌≡◌, refl, some, List, [], ◌∷◌, length, get_elem?, set,
  some-injective, arith, sum_of,
}
use partition_alloc.ThreadCache.{CacheBucket, memory_of}

abbrev pub weight : CacheBucket → ℕ
weight b = b.count * b.slot_size

pub memory_of-sum : (bs : List CacheBucket) → memory_of bs ≡ sum_of weight bs
unfolding memory_of
memory_of-sum [] = refl
memory_of-sum (b ∷ bs) = omega (arith, memory_of-sum bs)

-- A bucket whose count is right, with at most `most` slots.
pub record BucketIsValid (most : ℕ) (b : CacheBucket) : Type 0 where
  pub counted : b.count ≡ length b.slots
  pub low : b.count ≤ most
  pub limited : b.limit ≤ 254
  pub small : b.slot_size ≤ 2 ^ 15

abbrev pub AllValid : List CacheBucket → Type 0
AllValid [] = Unit {0}
AllValid (b ∷ bs) = BucketIsValid 254 b × AllValid bs

pub AllValid-get :
    (bs : List CacheBucket) (i : ℕ) {b : CacheBucket}
    → AllValid bs
    → get_elem? bs i ≡ some b
    → BucketIsValid 254 b
AllValid-get [] i v e = cc
AllValid-get (a ∷ bs) zero v e = subst (BucketIsValid 254) (some-injective e) v.0
AllValid-get (a ∷ bs) (suc i) v e = AllValid-get bs i v.1 e

pub AllValid-set :
    (bs : List CacheBucket) (i : ℕ) (c : CacheBucket)
    → AllValid bs
    → BucketIsValid 254 c
    → AllValid (set bs i c)
AllValid-set [] i c v h = tt
AllValid-set (a ∷ bs) zero c v h = (h, v.1)
AllValid-set (a ∷ bs) (suc i) c v h = (v.0, AllValid-set bs i c v.1 h)

pub weight-le : (most : ℕ) (b : CacheBucket) → BucketIsValid most b → weight b ≤ most * 2 ^ 15
weight-le most b v = grind (arith, v.low, v.small)

pub sum_of-le :
    (bs : List CacheBucket) → AllValid bs → sum_of weight bs ≤ length bs * (254 * 2 ^ 15)
sum_of-le [] v = omega arith
sum_of-le (b ∷ bs) v = omega (arith, weight-le 254 b v.0, sum_of-le bs v.1)
