-- ===== src/ThreadCache/Ledger.antt =====
-- The books of a thread cache: where each slot is, and what the calls of the central allocator say.
use partition_alloc.Base.{
  ℕ, ◌+◌, min, ◌≤◌, ◌≡◌, refl, sym, ap, ◌∙◌, subst, Bool, false, ◌==◌, if◌then◌else◌, some, List,
  [], ◌∷◌, ◌++◌, length, get_elem?, set, arith, sum_of, sum_of-set, length-set,
}
use partition_alloc.ThreadCache.{CacheBucket, Cache, History, took, gave, memory_of, free_after}
use partition_alloc.ThreadCache.Sums.{BucketIsValid, AllValid}
use partition_alloc.ThreadCache.Clear.{Cleared}

abbrev pub one_if : Bool → ℕ
one_if b = if b then 1 else 0

abbrev pub occurrences : ℕ → List ℕ → ℕ
occurrences x [] = 0
occurrences x (y ∷ ys) = one_if (y == x) + occurrences x ys

abbrev pub held : ℕ → List CacheBucket → ℕ
held x bs = sum_of (λ b. occurrences x b.slots) bs

abbrev pub took_count : ℕ → History → ℕ
took_count x [] = 0
took_count x (took index y ∷ h) = one_if (y == x) + took_count x h
took_count x (gave y ∷ h) = took_count x h

abbrev pub gave_count : ℕ → History → ℕ
gave_count x [] = 0
gave_count x (took index y ∷ h) = gave_count x h
gave_count x (gave y ∷ h) = one_if (y == x) + gave_count x h

occurrences-append :
    (x : ℕ) (ys zs : List ℕ) → occurrences x (ys ++ zs) ≡ occurrences x ys + occurrences x zs
occurrences-append x [] zs = omega arith
occurrences-append x (y ∷ ys) zs = omega (arith, occurrences-append x ys zs)

pub gave_count-free_after :
    (x : ℕ) (ys : List ℕ) (h : History)
    → gave_count x (free_after ys h) ≡ occurrences x ys + gave_count x h
unfolding free_after
gave_count-free_after x [] h = omega arith
gave_count-free_after x (y ∷ ys) h = omega (arith, gave_count-free_after x ys (gave y ∷ h))

pub took_count-free_after :
    (x : ℕ) (ys : List ℕ) (h : History) → took_count x (free_after ys h) ≡ took_count x h
unfolding free_after
took_count-free_after x [] h = refl
took_count-free_after x (y ∷ ys) h = took_count-free_after x ys (gave y ∷ h)

-- The counts of the buckets and the cached memory are right, and no operation is under way.
pub record CacheIsValid (t : Cache) : Type 0 where
  pub cached : t.cached_memory ≡ memory_of t.buckets
  pub buckets : AllValid t.buckets
  pub few : length t.buckets ≤ 128
  pub idle : t.is_in_thread_cache ≡ false

-- What is held, and was given back, is what was held before, was taken since, and was put in; of
-- each slot `gain x` were put in and `loss x` handed out.
abbrev pub Balanced : (ℕ → ℕ) → (ℕ → ℕ) → Cache → Cache → Type 0
Balanced gain loss t t' =
    (x : ℕ)
    → held x t'.buckets + gave_count x t'.history + took_count x t.history + loss x
      ≡ held x t.buckets + gave_count x t.history + took_count x t'.history + gain x

abbrev pub nothing : ℕ → ℕ
nothing x = 0

abbrev pub just : ℕ → ℕ → ℕ
just a x = one_if (a == x)

pub record Keeps (gain loss : ℕ → ℕ) (t t' : Cache) : Type 0 where
  pub valid : CacheIsValid t'
  pub size : length t'.buckets ≡ length t.buckets
  pub balance : Balanced gain loss t t'

pub Cleared-Balanced :
    (index limit : ℕ) (b : CacheBucket) (t t' : Cache)
    → get_elem? t.buckets index ≡ some b
    → Cleared index limit b t t'
    → Balanced nothing nothing t t'
Cleared-Balanced index limit b t t' at c x =
    let d = record b { slots = c.kept; count = min b.count limit } in
    let change = sum_of-set (λ b. occurrences x b.slots) t.buckets index b d at in
    let parts = ap (occurrences x) c.split ∙ occurrences-append x c.kept c.freed in
    let now = ap (held x) c.buckets in
    let gives = ap (gave_count x) c.history ∙ gave_count-free_after x c.freed t.history in
    let takes = ap (took_count x) c.history ∙ took_count-free_after x c.freed t.history in
    omega arith

-- A bucket that may hold one slot too many is valid again after a cut.
pub Cleared-CacheIsValid :
    (index limit : ℕ) (b : CacheBucket) (t t' : Cache)
    → ((c : CacheBucket) → BucketIsValid 254 c → AllValid (set t.buckets index c))
    → BucketIsValid 255 b
    → min b.count limit ≤ 254
    → length t.buckets ≤ 128
    → t.is_in_thread_cache ≡ false
    → Cleared index limit b t t'
    → CacheIsValid t' × (length t'.buckets ≡ length t.buckets)
Cleared-CacheIsValid index limit b t t' others v low few idle c =
    let d = record b { slots = c.kept; count = min b.count limit } in
    let same : length t'.buckets ≡ length t.buckets =
      ap length c.buckets ∙ length-set t.buckets index d in
    let d_valid : BucketIsValid 254 d = record {
      counted = sym c.few;
      low = low;
      limited = v.limited;
      small = v.small;
    } in
    (
      record {
        cached = c.cached;
        buckets = subst AllValid (sym c.buckets) (others d d_valid);
        few = omega arith;
        idle = c.guard ∙ idle;
      },
      same,
    )
