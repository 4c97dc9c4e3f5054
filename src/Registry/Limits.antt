-- ===== src/Registry/Limits.antt =====
-- The limits that SetGlobalLimits computes, and what storing them does to the caches.
use partition_alloc.Base.{
  ◌∙◌, refl, ap, inl, inr, none, set, sym, Option-cases, ℕ, zero, suc, ◌+◌, ◌/◌, ◌%◌, ◌≤◌, ◌≡◌, sym,
  ap, subst, Bool, true, false, leb, if◌then◌else◌, some, List, [], ◌∷◌, map, get_elem?,
  some-injective, arith,
}
use partition_alloc.ThreadCache.{CacheBucket, Cache, set_limit}
use partition_alloc.ThreadCache.Ledger.{CacheIsValid, Keeps, nothing}
use partition_alloc.ThreadCache.Steps.{Keeps-refl, Keeps-trans}
use partition_alloc.ThreadCache.Sessions.{set_limit-Keeps}
use partition_alloc.Registry.{
  Registry, RootBucket, min_limit, max_limit, clamp, global_limit, set_global_limits, store_limits,
  set_thread_cache_multiplier,
}

-- What the limits of two buckets are to satisfy.
pub record LimitsAgree (b c : RootBucket) (limit_b limit_c : ℕ) : Type 0 where
  pub low : limit_b ≤ max_limit
  pub used : b.has_head ≡ true → min_limit ≤ limit_b
  pub unused : b.has_head ≡ false → limit_b ≡ 0
  pub fewer : b.has_head ≡ true → c.has_head ≡ true → b.slot_size ≤ c.slot_size → limit_c ≤ limit_b

clamped : ℕ → ℕ → ℕ
clamped initial_value size =
    clamp
      (if leb size 128
        then initial_value
        else if leb size 256
        then initial_value / 2
        else if leb size 512
        then initial_value / 4
        else initial_value / 8)
      min_limit max_limit
    % 256

clamped-low : (v size : ℕ) → (clamped v size ≤ 254) × (1 ≤ clamped v size)
unfolding clamped
clamped-low v size = (ground arith, ground arith)

clamped-antitone : (v s s' : ℕ) → s ≤ s' → clamped v s' ≤ clamped v s
unfolding clamped
clamped-antitone v s s' h = ground (arith, h)

limit_of : Bool → ℕ → ℕ → ℕ
unfolding clamped
limit_of has_head v size = if has_head then clamped v size else 0

limit_of-low : (has_head : Bool) (v size : ℕ) → limit_of has_head v size ≤ max_limit
unfolding limit_of
limit_of-low true v size = (clamped-low v size).0
limit_of-low false v size = omega arith

-- The limits of two buckets are from 1 to 254, or 0 for a bucket that is not in use, and the larger
-- slots have no larger limit, whatever the multiplier.
pub global_limit-LimitsAgree :
    (initial_value : ℕ) (b c : RootBucket)
    → LimitsAgree b c (global_limit initial_value b) (global_limit initial_value c)
unfolding global_limit limit_of clamped
global_limit-LimitsAgree v b c = record {
  low = limit_of-low b.has_head v b.slot_size;
  used =
      λ e. subst (λ h. min_limit ≤ limit_of h v b.slot_size) (sym e) (clamped-low v b.slot_size).1;
  unused = λ e. ap (λ h. limit_of h v b.slot_size) e;
  fewer = λ e f h.
      subst (λ x. limit_of c.has_head v c.slot_size ≤ limit_of x v b.slot_size) (sym e)
        (subst (λ x. limit_of x v c.slot_size ≤ clamped v b.slot_size) (sym f)
          (clamped-antitone v b.slot_size c.slot_size h));
}

abbrev AllLow : List ℕ → Type 0
AllLow [] = Unit {0}
AllLow (limit ∷ limits) = (limit ≤ 254) × AllLow limits

set_global_limits-AllLow : (v : ℕ) (bs : List RootBucket) → AllLow (set_global_limits v bs)
set_global_limits-AllLow v [] = tt
set_global_limits-AllLow v (b ∷ bs) =
    ((global_limit-LimitsAgree v b b).low, set_global_limits-AllLow v bs)

store_limits-Keeps :
    (index : ℕ) (limits : List ℕ) (t : Cache)
    → CacheIsValid t
    → AllLow limits
    → Keeps nothing nothing t (store_limits index limits t)
store_limits-Keeps index [] t v low = Keeps-refl t v
store_limits-Keeps index (limit ∷ limits) t v low =
    let k = set_limit-Keeps index limit t v low.0 in
    Keeps-trans nothing nothing t (set_limit index limit t)
      (store_limits (index + 1) limits (set_limit index limit t)) k
      (store_limits-Keeps (index + 1) limits (set_limit index limit t) k.valid low.1)

-- The buckets with new limits.
abbrev pub with_limits : List ℕ → List CacheBucket → List CacheBucket
with_limits [] bs = bs
with_limits (limit ∷ limits) [] = []
with_limits (limit ∷ limits) (b ∷ bs) = record b { limit = limit } ∷ with_limits limits bs

-- One limit, in the list of buckets.
relimit : ℕ → ℕ → List CacheBucket → List CacheBucket
relimit index limit [] = []
relimit zero limit (b ∷ bs) = record b { limit = limit } ∷ bs
relimit (suc index) limit (b ∷ bs) = b ∷ relimit index limit bs

relimit_all : ℕ → List ℕ → List CacheBucket → List CacheBucket
relimit_all index [] bs = bs
relimit_all index (limit ∷ limits) bs = relimit_all (index + 1) limits (relimit index limit bs)

relimit_found :
    (index limit : ℕ) (b : CacheBucket) (bs : List CacheBucket)
    → get_elem? bs index ≡ some b
    → set bs index (record b { limit = limit }) ≡ relimit index limit bs
unfolding relimit
relimit_found index limit b [] at = cc
relimit_found zero limit b (c ∷ bs) at =
    ap {A = CacheBucket} {B = List CacheBucket} (λ b. record b { limit = limit } ∷ bs)
      (sym (some-injective at))
relimit_found (suc index) limit b (c ∷ bs) at =
    ap {B = List CacheBucket} (λ cs. c ∷ cs) (relimit_found index limit b bs at)

relimit-none :
    (index limit : ℕ) (bs : List CacheBucket)
    → get_elem? bs index ≡ none
    → bs ≡ relimit index limit bs
unfolding relimit
relimit-none index limit [] at = refl
relimit-none zero limit (c ∷ bs) at = cc
relimit-none (suc index) limit (c ∷ bs) at =
    ap {B = List CacheBucket} (λ cs. c ∷ cs) (relimit-none index limit bs at)

set_limit-relimit :
    (index limit : ℕ) (t : Cache)
    → set_limit index limit t ≡ record t { buckets = relimit index limit t.buckets }
unfolding set_limit
set_limit-relimit index limit t = elim (Option-cases (get_elem? t.buckets index)) [
  | inl missing ↦
      rw (missing, set_limit)
        (ap (λ cs. record t { buckets = cs }) (relimit-none index limit t.buckets missing))
  | inr (b, at) ↦
      rw (at, set_limit)
        (ap (λ cs. record t { buckets = cs }) (relimit_found index limit b t.buckets at))
]

store_limits-relimit_all :
    (index : ℕ) (limits : List ℕ) (t : Cache)
    → store_limits index limits t ≡ record t { buckets = relimit_all index limits t.buckets }
unfolding relimit_all
store_limits-relimit_all index [] t = refl
store_limits-relimit_all index (limit ∷ limits) t =
    ap (store_limits (index + 1) limits) (set_limit-relimit index limit t)
    ∙ store_limits-relimit_all (index + 1) limits
        (record t { buckets = relimit index limit t.buckets })

relimit_all_behind :
    (index : ℕ) (limits : List ℕ) (b : CacheBucket) (bs : List CacheBucket)
    → relimit_all (suc index) limits (b ∷ bs) ≡ b ∷ relimit_all index limits bs
unfolding relimit_all relimit
relimit_all_behind index [] b bs = refl
relimit_all_behind index (limit ∷ limits) b bs =
    ap (λ i. relimit_all i limits (b ∷ relimit index limit bs)) (shifted index)
    ∙ relimit_all_behind (index + 1) limits b (relimit index limit bs)
  where
    shifted : (index : ℕ) → suc index + 1 ≡ suc (index + 1)
    shifted index = omega arith

relimit_all-nil : (index : ℕ) (limits : List ℕ) → relimit_all index limits [] ≡ []
unfolding relimit_all relimit
relimit_all-nil index [] = refl
relimit_all-nil index (limit ∷ limits) = relimit_all-nil (index + 1) limits

relimit_all-with_limits :
    (limits : List ℕ) (bs : List CacheBucket) → relimit_all 0 limits bs ≡ with_limits limits bs
unfolding relimit_all relimit
relimit_all-with_limits [] bs = refl
relimit_all-with_limits (limit ∷ limits) [] = relimit_all-nil 1 limits
relimit_all-with_limits (limit ∷ limits) (b ∷ bs) =
    relimit_all_behind 0 limits (record b { limit = limit }) bs
    ∙ ap (λ cs. record b { limit = limit } ∷ cs) (relimit_all-with_limits limits bs)

get_elem?-map :
    (f : Cache → Cache) (ts : List Cache) (i : ℕ) (t : Cache)
    → get_elem? ts i ≡ some t
    → get_elem? (map f ts) i ≡ some (f t)
get_elem?-map f [] i t at = cc
get_elem?-map f (u ∷ ts) zero t at = ap (λ u. some (f u)) (some-injective at)
get_elem?-map f (u ∷ ts) (suc i) t at = get_elem?-map f ts i t at

-- SetThreadCacheMultiplier gives each bucket of every cache the global limit of the bucket of that
-- index, whatever the multiplier, changes nothing else of the cache, so that the slots stay, and
-- leaves a valid cache valid.
pub set_thread_cache_multiplier-Keeps :
    (initial_value : ℕ) (bs : List RootBucket) (r : Registry) (i : ℕ) (t : Cache)
    → get_elem? r.caches i ≡ some t
    → CacheIsValid t
    → let t' = record t { buckets = with_limits (set_global_limits initial_value bs) t.buckets } in
      (get_elem? (set_thread_cache_multiplier initial_value bs r).caches i ≡ some t')
      × CacheIsValid t'
unfolding set_thread_cache_multiplier
set_thread_cache_multiplier-Keeps v bs r i t at valid =
    let limits = set_global_limits v bs in
    let stored =
      store_limits-relimit_all 0 limits t
      ∙ ap (λ cs. record t { buckets = cs }) (relimit_all-with_limits limits t.buckets) in
    (
      get_elem?-map (store_limits 0 limits) r.caches i t at ∙ ap some stored,
      subst CacheIsValid stored
          (store_limits-Keeps 0 limits t valid (set_global_limits-AllLow v bs)).valid,
    )
