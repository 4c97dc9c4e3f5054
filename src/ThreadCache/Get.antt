-- ===== src/ThreadCache/Get.antt =====
-- GetFromCache: a slot that the cache hands out leaves its books.
use partition_alloc.Base.{
  ℕ, zero, suc, ◌+◌, ◌-◌, ◌*◌, ◌≤◌, ◌<◌, ◌≡◌, refl, sym, ap, ◌∙◌, subst, inl, inr, true, false, not,
  ◌||◌, ◌==◌, ltb, ==_of, leb_of, Bool-cases, Option, none, some, ◌>>=◌, Returns, >>=-Returns,
  some->>=, List, [], ◌∷◌, length, get_elem?, set, some-injective, arith, sum_of-set,
  get_elem?-below, length-set,
}
use partition_alloc.ThreadCache.{
  CacheBucket, Cache, Central, popped, pop_entry, fill_bucket, fill_if_empty, get_from_cache,
  leads_back, is_nil,
}
use partition_alloc.ThreadCache.Sums.{
  weight, memory_of-sum, BucketIsValid, AllValid-get, AllValid-set,
}
use partition_alloc.ThreadCache.Ledger.{occurrences, held, CacheIsValid, nothing, just, Keeps}
use partition_alloc.ThreadCache.Steps.{Keeps-refl, guarded_idle}
use partition_alloc.ThreadCache.FillBucket.{fill_bucket-Keeps}

-- No slot is twice in the cache.
abbrev pub NoneTwice : Cache → Type 0
NoneTwice t = (x : ℕ) → held x t.buckets ≤ 1

-- A property of the result, if there is one.
abbrev pub OnResult {ℓ} : {A : Type ℓ} → (A → Type 0) → Option A → Type 0
OnResult P none = Unit {0}
OnResult P (some a) = P a

-- Before and after the refill, no slot is twice in the cache.
abbrev pub Refills : Central → ℕ → Cache → Type 0
Refills central index t =
    OnResult (λ b. OnResult NoneTwice (fill_if_empty central index b t)) (get_elem? t.buckets index)

-- A freelist is part of the cache.
pub occurrences-held :
    (x index : ℕ) (b : CacheBucket) (bs : List CacheBucket)
    → get_elem? bs index ≡ some b
    → occurrences x b.slots ≤ held x bs
occurrences-held x index b bs at =
    omega (arith, sum_of-set (λ b. occurrences x b.slots) bs index b (record b { slots = [] }) at)

-- The head of a freelist does not lead back to itself.
abbrev Apart : List ℕ → Type 0
Apart [] = Unit {0}
Apart (x ∷ rest) = leads_back x rest ≡ false

pub leads_back-absent : (x : ℕ) (xs : List ℕ) → occurrences x xs ≡ 0 → leads_back x xs ≡ false
leads_back-absent x [] h = refl
leads_back-absent x (y ∷ ys) h = ground (arith, h)

Apart-once : (xs : List ℕ) → ((x : ℕ) → occurrences x xs ≤ 1) → Apart xs
Apart-once [] h = tt
Apart-once (x ∷ rest) h = leads_back-absent x rest (rest_of x rest (h x))
  where
    rest_of : (x : ℕ) (xs : List ℕ) → occurrences x (x ∷ xs) ≤ 1 → occurrences x xs ≡ 0
    rest_of x xs h = ground (arith, h)

NoneTwice-Apart :
    (index : ℕ) (b : CacheBucket) (t : Cache)
    → get_elem? t.buckets index ≡ some b
    → NoneTwice t
    → Apart b.slots
NoneTwice-Apart index b t at once =
    Apart-once b.slots λ x. omega (arith, once x, occurrences-held x index b t.buckets at)

pub Returns-both {ℓ} :
    {A : Type ℓ} (P Q : A → Type 0) (o : Option A)
    → Returns P o
    → OnResult Q o
    → Returns (λ a. P a × Q a) o
Returns-both P Q none h k = h
Returns-both P Q (some a) h k = (h, k)

-- The slot that a call hands out.
abbrev pub handed : Option ℕ → ℕ → ℕ
handed none = nothing
handed (some a) = just a

-- What a get leaves: the books; and it takes the newest slot of a bucket that has one.
pub record Got (largest index : ℕ) (t : Cache) (r : Cache × Option ℕ) : Type 0 where
  pub keeps : Keeps nothing (handed r.1) t r.0
  pub newest :
      (b : CacheBucket) (x : ℕ) (rest : List ℕ)
      → get_elem? t.buckets index ≡ some b
      → b.slots ≡ x ∷ rest
      → ltb largest index ≡ false
      → r.1 ≡ some x

one_less : (count size : ℕ) → 1 ≤ count → (count - 1) * size + size ≡ count * size
one_less zero size h = absurd (omega arith)
one_less (suc count) size h = grind arith

popped-Keeps :
    (index x : ℕ) (b : CacheBucket) (rest : List ℕ) (t : Cache)
    → CacheIsValid t
    → get_elem? t.buckets index ≡ some b
    → b.slots ≡ x ∷ rest
    → (b.slot_size ≤ t.cached_memory) × Keeps nothing (just x) t (popped index b rest t)
popped-Keeps index x b rest t v at full =
    let c = record b { slots = rest; count = b.count - 1 } in
    let b_valid = AllValid-get t.buckets index v.buckets at in
    let counted : b.count ≡ suc (length rest) = b_valid.counted ∙ ap length full in
    let less = one_less b.count b.slot_size (omega arith) in
    let change = sum_of-set weight t.buckets index b c at in
    let before = memory_of-sum t.buckets in
    let after = memory_of-sum (set t.buckets index c) in
    let same = length-set t.buckets index c in
    let cached = v.cached in
    (
      omega arith,
      record {
        valid = record {
          cached = omega arith;
          buckets = AllValid-set t.buckets index c v.buckets (record {
            counted = omega arith;
            low = omega (arith, b_valid.low);
            limited = b_valid.limited;
            small = b_valid.small;
          });
          few = omega (arith, v.few);
          idle = v.idle;
        };
        size = same;
        balance = λ y.
            let moved = sum_of-set (λ b. occurrences y b.slots) t.buckets index b c at in
            let had = ap (occurrences y) full in omega arith;
      },
    )

-- No check fails on a bucket that has a slot.
pub pop_entry_full :
    (index x : ℕ) (b : CacheBucket) (rest : List ℕ) (t : Cache)
    → CacheIsValid t
    → get_elem? t.buckets index ≡ some b
    → b.slots ≡ x ∷ rest
    → leads_back x rest ≡ false
    → pop_entry index b (x ∷ rest) t ≡ some (popped index b rest t, some x)
unfolding pop_entry
pop_entry_full index x b rest t v at e apart =
    let b_valid = AllValid-get t.buckets index v.buckets at in
    let counted : b.count ≡ suc (length rest) = b_valid.counted ∙ ap length e in
    let (enough, k) = popped-Keeps index x b rest t v at e in
    rw
      (
        apart,
        ==_not b.count 0 (omega arith),
        rest_check (b.count - 1) rest (omega arith),
        leb_of _ _ enough,
      )
      refl
  where
    rest_check : (n : ℕ) (xs : List ℕ) → n ≡ length xs → (not (n == 0) || is_nil xs) ≡ true
    rest_check n [] h = ground (arith, h)
    rest_check n (y ∷ ys) h = ground (arith, h)

    ==_not : (n m : ℕ) → m < n → (n == m) ≡ false
    ==_not n m h = ground (arith, h)

-- The slot of a list that a get takes is the first.
abbrev Popped : Cache → List ℕ → Cache × Option ℕ → Type 0
Popped t slots r =
    Keeps nothing (handed r.1) t r.0 × ((x : ℕ) (rest : List ℕ) → slots ≡ x ∷ rest → r.1 ≡ some x)

pop_entry-Popped :
    (index : ℕ) (b : CacheBucket) (slots : List ℕ) (t : Cache)
    → CacheIsValid t
    → get_elem? t.buckets index ≡ some b
    → b.slots ≡ slots
    → Apart slots
    → Returns (Popped t slots) (pop_entry index b slots t)
unfolding pop_entry
pop_entry-Popped index b [] t v at e apart = (Keeps-refl t v, λ x rest. cc)
pop_entry-Popped index b (x ∷ rest) t v at e apart =
    subst (Returns (Popped t (x ∷ rest))) (sym (pop_entry_full index x b rest t v at e apart))
      ((popped-Keeps index x b rest t v at e).1, λ y ys same. ap some (head_of x y rest ys same))
  where
    head_of : (x y : ℕ) (xs ys : List ℕ) → x ∷ xs ≡ y ∷ ys → x ≡ y
    head_of x y xs ys same = cc

-- A bucket that has a slot is not filled.
abbrev Ready : CacheBucket → Cache → Cache → Type 0
Ready b t t' = Keeps nothing nothing t t' × ((x : ℕ) (rest : List ℕ) → b.slots ≡ x ∷ rest → t' ≡ t)

fill_if_empty-Ready :
    (central : Central) (index : ℕ) (b : CacheBucket) (t : Cache)
    → CacheIsValid t
    → get_elem? t.buckets index ≡ some b
    → Returns (Ready b t) (fill_if_empty central index b t)
unfolding fill_if_empty
fill_if_empty-Ready central index b t v at = elim (Bool-cases (is_nil b.slots)) [
  | inl empty ↦
      let none_left = empty_count b (AllValid-get t.buckets index v.buckets at) empty in
      rw (empty, ==_of b.count 0 none_left)
        (filled empty (fill_bucket central index t)
          (fill_bucket-Keeps central index b t v at none_left))
  | inr full ↦ rw full (Keeps-refl t v, λ x rest e. refl)
]
  where
    length-nil : (xs : List ℕ) → is_nil xs ≡ true → length xs ≡ 0
    length-nil [] h = refl
    length-nil (x ∷ xs) h = cc

    empty_count : (b : CacheBucket) → BucketIsValid 254 b → is_nil b.slots ≡ true → b.count ≡ 0
    empty_count b v e = v.counted ∙ length-nil b.slots e

    filled :
        is_nil b.slots ≡ true
        → (o : Option Cache) → Returns (Keeps nothing nothing t) o
        → Returns (Ready b t) o
    filled empty none h = h
    filled empty (some t') k =
        (k, λ x rest e. absurd (omega (arith, length-nil b.slots empty, ap length e)))

get_active :
    (central : Central) (largest index : ℕ) (b : CacheBucket) (t : Cache)
    → CacheIsValid t
    → index < length t.buckets
    → get_elem? t.buckets index ≡ some b
    → OnResult NoneTwice (fill_if_empty central index b t)
    → Returns (Got largest index t) (
        fill_if_empty central index b t >>= λ t'.
        get_elem? t'.buckets index >>= λ b'. pop_entry index b' b'.slots t')
get_active central largest index b t v inside at once =
    >>=-Returns (λ t'. Ready b t t' × NoneTwice t') (Got largest index t)
      (fill_if_empty central index b t)
      (λ t'. get_elem? t'.buckets index >>= λ b'. pop_entry index b' b'.slots t')
      (Returns-both (Ready b t) NoneTwice (fill_if_empty central index b t)
        (fill_if_empty-Ready central index b t v at) once)
      λ t' (ready, distinct).
        let (b', at') = get_elem?-below t'.buckets index (omega (arith, ready.0.size)) in
        rw at' (
          taken t' ready b' at' (pop_entry index b' b'.slots t') (
            pop_entry-Popped index b' b'.slots t' ready.0.valid at' refl
              (NoneTwice-Apart index b' t' at' distinct)))
  where
    taken :
        (t' : Cache)
        → Ready b t t'
        → (b' : CacheBucket) → get_elem? t'.buckets index ≡ some b'
        → (o : Option (Cache × Option ℕ)) → Returns (Popped t' b'.slots) o
        → Returns (Got largest index t) o
    taken t' ready b' at' none h = h
    taken t' ready b' at' (some r) p = record {
      keeps = record {
        valid = p.0.valid;
        size = p.0.size ∙ ready.0.size;
        balance = λ x. omega (arith, p.0.balance x, ready.0.balance x);
      };
      newest = λ c x rest here e active.
          let same = ready.1 x rest (ap (λ d. d.slots) (some-injective (sym at ∙ here)) ∙ e) in
          let b_same : b' ≡ c =
            some-injective (sym at' ∙ ap (λ u. get_elem? u.buckets index) same ∙ here) in
          p.1 x rest (ap (λ d. d.slots) b_same ∙ e);
    }

-- GetFromCache of a valid cache that no slot is twice in: no check fails.
pub get_from_cache-Got :
    (central : Central) (largest index : ℕ) (t : Cache)
    → CacheIsValid t
    → largest < length t.buckets
    → Refills central index t
    → Returns (Got largest index t) (get_from_cache central largest index t)
unfolding get_from_cache
get_from_cache-Got central largest index t v inside once =
    rw (guarded_idle t _ v.idle) (elim (Bool-cases (ltb largest index)) [
      | inl above ↦ rw above (record {
        keeps = Keeps-refl t v;
        newest = λ b x rest at e active. absurd (ne (sym above ∙ active));
      })
      | inr active ↦
          let (b, at) = get_elem?-below t.buckets index (ground (arith, active)) in
          rw active (
            some->>= (Got largest index t) (get_elem? t.buckets index) b
              (λ b. fill_if_empty central index b t >>= λ t'.
                get_elem? t'.buckets index >>= λ b'. pop_entry index b' b'.slots t')
              at
              (get_active central largest index b t v (ground (arith, active)) at (
                subst (OnResult (λ b. OnResult NoneTwice (fill_if_empty central index b t))) at
                  once)))
    ])
  where
    ne : true ≡ false → ⊥
    ne e = cc
