-- ===== src/ThreadCache/Purge.antt =====
-- Purge: every bucket is emptied, and every slot goes back to the central allocator.
use partition_alloc.Base.{
  ℕ, zero, suc, ◌+◌, ◌*◌, min, ◌<◌, ◌≡◌, refl, sym, ap, ◌∙◌, subst, inl, inr, ◌⊎◌, true, false,
  Option, none, some, Returns, >>=-Returns, if◌then◌else◌, List, [], ◌∷◌, length, get_elem?, set,
  some-injective, arith, sum_of, get_elem?-set_self, get_elem?-below, get_elem?-set_ne,
  get_elem?-inside,
}
use partition_alloc.ThreadCache.{
  CacheBucket, Cache, clear_bucket, purge_loop, purge_internal, purge_if_asked, purge,
}
use partition_alloc.ThreadCache.Sums.{weight, memory_of-sum, AllValid-get}
use partition_alloc.ThreadCache.Clear.{Cleared}
use partition_alloc.ThreadCache.Ledger.{
  CacheIsValid, Keeps, nothing, occurrences, held, gave_count, took_count,
}
use partition_alloc.ThreadCache.Steps.{
  Keeps-refl, Keeps-trans, guarded_idle, Cleared-Keeps, clear_bucket-Cleared_valid,
}

-- The buckets below an index are empty.
abbrev EmptyBelow : ℕ → List CacheBucket → Type 0
EmptyBelow n bs = (j : ℕ) (b : CacheBucket) → j < n → get_elem? bs j ≡ some b → b.slots ≡ []

split_below : (j n : ℕ) → j < n + 1 → (j < n) ⊎ (j ≡ n)
split_below j n h = ground arith

EmptyBelow-Cleared :
    (index : ℕ) (b : CacheBucket) (t t' : Cache)
    → get_elem? t.buckets index ≡ some b
    → Cleared index 0 b t t'
    → EmptyBelow index t.buckets
    → EmptyBelow (index + 1) t'.buckets
EmptyBelow-Cleared index b t t' at c below j d h here =
    let e = record b { slots = c.kept; count = min b.count 0 } in
    let moved : get_elem? (set t.buckets index e) j ≡ some d =
      ap (λ bs. get_elem? bs j) (sym c.buckets) ∙ here in
    elim (split_below j index h) [
      | inl less ↦ below j d less (
          sym (get_elem?-set_ne t.buckets index j e (λ same. absurd (omega (arith, less, same))))
          ∙ moved)
      | inr same ↦
          let self = get_elem?-set_self t.buckets index b e at in
          let d_is : d ≡ e =
            some-injective (sym moved ∙ ap (get_elem? (set t.buckets index e)) same ∙ self) in
          ap (λ x. x.slots) d_is ∙ length-nil c.kept (omega (arith, c.few))
    ]
  where
    length-nil : (xs : List ℕ) → length xs ≡ 0 → xs ≡ []
    length-nil [] e = refl
    length-nil (x ∷ xs) e = absurd (omega (arith, e))

-- The books are kept, and the buckets below an index are empty.
abbrev Emptied : ℕ → Cache → Cache → Type 0
Emptied n t t' = Keeps nothing nothing t t' × EmptyBelow n t'.buckets

clear_bucket-Emptied :
    (index : ℕ) (t : Cache)
    → CacheIsValid t
    → index < length t.buckets
    → EmptyBelow index t.buckets
    → Returns (Emptied (index + 1) t) (clear_bucket index 0 t)
clear_bucket-Emptied index t v inside below =
    let (b, at) = get_elem?-below t.buckets index inside in
    finish b at (clear_bucket index 0 t) (clear_bucket-Cleared_valid index 0 b t v at (omega arith))
  where
    finish :
        (b : CacheBucket)
        → get_elem? t.buckets index ≡ some b
        → (o : Option Cache) → Returns (Cleared index 0 b t) o
        → Returns (Emptied (index + 1) t) o
    finish b at none h = h
    finish b at (some t') c = (
      Cleared-Keeps index 0 b t t' v at (omega arith) c,
      EmptyBelow-Cleared index b t t' at c below,
    )

Emptied-after :
    (n : ℕ) (t t' : Cache) (o : Option Cache)
    → Keeps nothing nothing t t'
    → Returns (Emptied n t') o
    → Returns (Emptied n t) o
Emptied-after n t t' none k h = h
Emptied-after n t t' (some t'') k h = (Keeps-trans nothing nothing t t' t'' k h.0, h.1)

purge_loop-Emptied :
    (rounds index : ℕ) (t : Cache)
    → CacheIsValid t
    → index + rounds ≡ length t.buckets
    → EmptyBelow index t.buckets
    → Returns (Emptied (length t.buckets) t) (purge_loop rounds index t)
unfolding purge_loop
purge_loop-Emptied zero index t v whole below =
    (Keeps-refl t v, λ j b h. below j b (omega (arith, h, whole)))
purge_loop-Emptied (suc rounds) index t v whole below =
    >>=-Returns (Emptied (index + 1) t) (Emptied (length t.buckets) t) (clear_bucket index 0 t)
      (λ t'. purge_loop rounds (index + 1) t') (clear_bucket-Emptied index t v (omega arith) below)
      λ t' k. Emptied-after (length t.buckets) t t' (purge_loop rounds (index + 1) t') k.0 (
        subst (λ n. Returns (Emptied n t') (purge_loop rounds (index + 1) t')) k.0.size
          (purge_loop-Emptied rounds (index + 1) t' k.0.valid (omega (arith, k.0.size)) k.1))

-- PurgeInternal of a valid cache.
purge_internal-Emptied :
    (t : Cache) → CacheIsValid t → Returns (Emptied (length t.buckets) t) (purge_internal t)
unfolding purge_internal
purge_internal-Emptied t v =
    let t' = record t { should_purge = false } in
    let k : Keeps nothing nothing t t' = record {
      valid = record { cached = v.cached; buckets = v.buckets; few = v.few; idle = v.idle };
      size = refl;
      balance = λ x. refl;
    } in
    Emptied-after (length t.buckets) t t' (purge_loop (length t.buckets) 0 t') k (
      purge_loop-Emptied (length t.buckets) 0 t' k.valid (omega arith)
        λ j b h. absurd (omega arith))

purge_internal-Keeps :
    (t : Cache) → CacheIsValid t → Returns (Keeps nothing nothing t) (purge_internal t)
purge_internal-Keeps t v = first (purge_internal t) (purge_internal-Emptied t v)
  where
    first :
        (o : Option Cache)
        → Returns (Emptied (length t.buckets) t) o
        → Returns (Keeps nothing nothing t) o
    first none h = h
    first (some t') h = h.0

pub purge_if_asked-Keeps :
    (t : Cache) → CacheIsValid t → Returns (Keeps nothing nothing t) (purge_if_asked t)
unfolding purge_if_asked
purge_if_asked-Keeps t v =
    elim t.should_purge
      as (λ c. Returns (Keeps nothing nothing t) (if c then purge_internal t else some t)) [
        | true ↦ purge_internal-Keeps t v
        | false ↦ Keeps-refl t v
      ]

pub purge-Keeps : (t : Cache) → CacheIsValid t → Returns (Keeps nothing nothing t) (purge t)
unfolding purge
purge-Keeps t v =
    subst (Returns (Keeps nothing nothing t)) (sym (guarded_idle t (purge_internal t) v.idle))
      (purge_internal-Keeps t v)

-- What a purge leaves.
pub record Purged (t t' : Cache) : Type 0 where
  pub valid : CacheIsValid t'
  pub empty : (j : ℕ) (b : CacheBucket) → get_elem? t'.buckets j ≡ some b → b.slots ≡ []
  pub memory : t'.cached_memory ≡ 0
  pub returned :
      (x : ℕ)
      → gave_count x t'.history + took_count x t.history
        ≡ held x t.buckets + gave_count x t.history + took_count x t'.history

-- A sum over empty buckets.
sum_of-empty :
    (w : CacheBucket → ℕ) (bs : List CacheBucket)
    → ((j : ℕ) (b : CacheBucket) → get_elem? bs j ≡ some b → w b ≡ 0)
    → sum_of w bs ≡ 0
sum_of-empty w [] h = refl
sum_of-empty w (b ∷ bs) h = omega (arith, h 0 b refl, sum_of-empty w bs (λ j c at. h (suc j) c at))

Emptied-Purged : (t t' : Cache) → Emptied (length t.buckets) t t' → Purged t t'
Emptied-Purged t t' (k, below) = record {
  valid = k.valid;
  empty = none_left;
  memory =
      k.valid.cached
      ∙ memory_of-sum t'.buckets
      ∙ sum_of-empty weight t'.buckets (λ j b at. no_weight j b at);
  returned = λ x. omega (arith, k.balance x, no_slot x);
}
  where
    none_left : (j : ℕ) (b : CacheBucket) → get_elem? t'.buckets j ≡ some b → b.slots ≡ []
    none_left j b at = below j b (omega (arith, get_elem?-inside t'.buckets j b at, k.size)) at

    no_weight : (j : ℕ) (b : CacheBucket) → get_elem? t'.buckets j ≡ some b → weight b ≡ 0
    no_weight j b at =
        let zero_count : b.count ≡ 0 =
          (AllValid-get t'.buckets j k.valid.buckets at).counted ∙ ap length (none_left j b at) in
        omega (arith, ap (λ n. n * b.slot_size) zero_count)

    no_slot : (x : ℕ) → held x t'.buckets ≡ 0
    no_slot x =
        sum_of-empty (λ b. occurrences x b.slots) t'.buckets
          (λ j b at. ap (occurrences x) (none_left j b at))

-- Purge of a valid cache fails no check, leaves every bucket empty and no cached memory, and gives
-- every slot that was held to the central allocator, once.
pub purge-Purged : (t : Cache) → CacheIsValid t → Returns (Purged t) (purge t)
unfolding purge
purge-Purged t v =
    subst (Returns (Purged t)) (sym (guarded_idle t (purge_internal t) v.idle))
      (finish (purge_internal t) (purge_internal-Emptied t v))
  where
    finish : (o : Option Cache) → Returns (Emptied (length t.buckets) t) o → Returns (Purged t) o
    finish none h = h
    finish (some t') h = Emptied-Purged t t' h
