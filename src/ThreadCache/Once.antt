-- ===== src/ThreadCache/Once.antt =====
-- That no slot is twice in the cache, from call to call.
use partition_alloc.Base.{
  ℕ, zero, suc, not, ◌+◌, ◌-◌, ◌/◌, ◌%◌, ◌≤◌, ◌≡◌, refl, ap, inl, inr, Bool, true, false, ◌==◌, ltb,
  leb, ◌||◌, if◌then◌else◌, Bool-cases, Option, none, some, ◌>>=◌, check, Returns, List, [], ◌∷◌,
  get_elem?, sum_of-set, arith,
}
use partition_alloc.ThreadCache.{
  u8_mod, cleared, freed_memory, memory_of, leads_back, is_nil, CacheBucket, Cache, Central,
  free_after, is_low, cut, clear_bucket, purge_loop, purge_internal, purge, trim, purge_if_asked,
  put_at, maybe_put_in_cache, popped, pop_entry, fill_if_empty, get_from_cache, set_limit,
}
use partition_alloc.ThreadCache.Ledger.{
  occurrences, held, took_count, gave_count, took_count-free_after, gave_count-free_after, Balanced,
  nothing,
}
use partition_alloc.ThreadCache.Get.{NoneTwice, OnResult, Refills}

pub OnResult-bind {ℓ ℓ'} :
    {A : Type ℓ} {B : Type ℓ'} (P : A → Type 0) (Q : B → Type 0) (o : Option A) (f : A → Option B)
    → OnResult P o
    → ((a : A) → P a → OnResult Q (f a))
    → OnResult Q (o >>= f)
OnResult-bind P Q none f h k = tt
OnResult-bind P Q (some a) f h k = k a h

pub Returns-OnResult {ℓ} : {A : Type ℓ} (P : A → Type 0) (o : Option A) → Returns P o → OnResult P o
Returns-OnResult P none h = tt
Returns-OnResult P (some a) h = h

OnResult-check {ℓ} :
    {A : Type ℓ} (Q : A → Type 0) (c : Bool) (o : Option A) → OnResult Q o → OnResult Q (check c o)
OnResult-check Q true o h = h
OnResult-check Q false o h = tt

OnResult-checks {ℓ} :
    {A : Type ℓ} (Q : A → Type 0) (c c' d d' : Bool) (a : A)
    → Q a
    → OnResult Q (check c (check c' (check d (check d' (some a)))))
OnResult-checks Q c c' d d' a h = OnResult-check Q c (check c' (check d (check d' (some a)))) (
    OnResult-check Q c' (check d (check d' (some a)))
      (OnResult-check Q d (check d' (some a)) (OnResult-check Q d' (some a) h)))

OnResult-if {ℓ} :
    {A : Type ℓ} (Q : A → Type 0) (c : Bool) (o o' : Option A)
    → OnResult Q o
    → OnResult Q o'
    → OnResult Q (if c then o else o')
OnResult-if Q true o o' h k = h
OnResult-if Q false o o' h k = k

-- A result is the result.
OnResult-self : {A : Type 0} (o : Option A) → OnResult (λ a. o ≡ some a) o
OnResult-self none = tt
OnResult-self (some a) = refl

-- Slots may have been given back, and none were taken.
abbrev pub Given : Cache → Cache → Type 0
Given t t' =
    (x : ℕ)
    → (took_count x t'.history ≡ took_count x t.history)
      × (gave_count x t.history ≤ gave_count x t'.history)

Given-refl : (t : Cache) → Given t t
Given-refl t x = (refl, omega arith)

Given-trans : (a b c : Cache) → Given a b → Given b c → Given a c
Given-trans a b c h k x =
    let (p, q) = h x in let (p', q') = k x in (omega (arith, p, p'), omega (arith, q, q'))

clear_bucket-Given : (index limit : ℕ) (t : Cache) → OnResult (Given t) (clear_bucket index limit t)
unfolding clear_bucket
clear_bucket-Given index limit t =
    OnResult-bind (λ b. get_elem? t.buckets index ≡ some b) (Given t) (get_elem? t.buckets index) _
      (OnResult-self (get_elem? t.buckets index))
      λ b at. elim (Bool-cases (is_low b limit)) [
        | inl low ↦ rw low (Given-refl t)
        | inr high ↦ rw high (
            OnResult-bind (λ p. cut limit b.slots ≡ some p) (Given t) (cut limit b.slots) _
              (OnResult-self (cut limit b.slots))
              λ p is.
                let t' = cleared t index b limit p.0 p.1 in
                OnResult-check (Given t) (leb (freed_memory b limit) t.cached_memory)
                  (check (t'.cached_memory == memory_of t'.buckets) (some t'))
                  (OnResult-check (Given t) (t'.cached_memory == memory_of t'.buckets) (some t')
                    (freed p.1)))
      ]
  where
    freed :
        (xs : List ℕ) (x : ℕ)
        → (took_count x (free_after xs t.history) ≡ took_count x t.history)
          × (gave_count x t.history ≤ gave_count x (free_after xs t.history))
    freed xs x =
        (took_count-free_after x xs t.history, omega (arith, gave_count-free_after x xs t.history))

-- After a step that gave slots back, another one.
Given-after :
    (a b : Cache) (o : Option Cache) → Given a b → OnResult (Given b) o → OnResult (Given a) o
Given-after a b none h k = tt
Given-after a b (some c) h k = Given-trans a b c h k

purge_loop-Given : (rounds index : ℕ) (t : Cache) → OnResult (Given t) (purge_loop rounds index t)
unfolding purge_loop
purge_loop-Given zero index t = Given-refl t
purge_loop-Given (suc rounds) index t =
    OnResult-bind (Given t) (Given t) (clear_bucket index 0 t) _ (clear_bucket-Given index 0 t)
      λ t' h. Given-after t t' _ h (purge_loop-Given rounds (index + 1) t')

purge_internal-Given : (t : Cache) → OnResult (Given t) (purge_internal t)
unfolding purge_internal
purge_internal-Given t = purge_loop-Given _ 0 (record t { should_purge = false })

pub purge-Given : (t : Cache) → OnResult (Given t) (purge t)
unfolding purge
purge-Given t = OnResult-check (Given t) _ _ (purge_internal-Given t)

trim-Given : (index : ℕ) (b : CacheBucket) (t : Cache) → OnResult (Given t) (trim index b t)
unfolding trim
trim-Given index b t = elim (Bool-cases (ltb b.limit ((b.count + 1) % u8_mod))) [
  | inl over ↦ rw over (clear_bucket-Given index (b.limit / 2) t)
  | inr within ↦ rw within (Given-refl t)
]

purge_if_asked-Given : (t : Cache) → OnResult (Given t) (purge_if_asked t)
unfolding purge_if_asked
purge_if_asked-Given t = go t.should_purge
  where
    go : (asked : Bool) → OnResult (Given t) (if asked then purge_internal t else some t)
    go true = purge_internal-Given t
    go false = Given-refl t

pub maybe_put_in_cache-Given :
    (largest slot index : ℕ) (t : Cache)
    → OnResult (λ (r : Cache × Option ℕ). Given t r.0) (maybe_put_in_cache largest slot index t)
unfolding maybe_put_in_cache
maybe_put_in_cache-Given largest slot index t = OnResult-check Q (not t.is_in_thread_cache) _ (
    OnResult-if Q (ltb largest index) _ _ (Given-refl t) (
      OnResult-bind (λ b. get_elem? t.buckets index ≡ some b) Q (get_elem? t.buckets index) _
        (OnResult-self (get_elem? t.buckets index))
        λ b at. OnResult-check Q _ _ (
          OnResult-bind (Given t) Q (trim index b (put_at index b slot t)) _
            (trim-Given index b (put_at index b slot t))
            λ t' h.
              OnResult-bind (Given t) Q (purge_if_asked t') _
                (Given-after t t' _ h (purge_if_asked-Given t')) λ t'' k. k)))
  where
    Q : Cache × Option ℕ → Type 0
    Q r = Given t r.0

-- A pop takes one slot out.
pop_entry-NoneTwice :
    (index : ℕ) (b : CacheBucket) (slots : List ℕ) (t : Cache)
    → get_elem? t.buckets index ≡ some b
    → b.slots ≡ slots
    → NoneTwice t
    → OnResult (λ (r : Cache × Option ℕ). NoneTwice r.0) (pop_entry index b slots t)
unfolding pop_entry
pop_entry-NoneTwice index b [] t at e once = once
pop_entry-NoneTwice index b (x ∷ rest) t at e once =
    OnResult-checks Q (not (leads_back x rest)) (not (b.count == 0))
      (not (b.count - 1 == 0) || is_nil rest) (leb b.slot_size t.cached_memory)
      (popped index b rest t, some x)
      λ y. omega (
        arith,
        once y,
        ap (occurrences y) e,
        sum_of-set (λ b. occurrences y b.slots) t.buckets index b
            (record b { slots = rest; count = b.count - 1 }) at,
      )
  where
    Q : Cache × Option ℕ → Type 0
    Q r = NoneTwice r.0

pub get_from_cache-NoneTwice :
    (central : Central) (largest index : ℕ) (t : Cache)
    → NoneTwice t
    → Refills central index t
    → OnResult (λ (r : Cache × Option ℕ). NoneTwice r.0) (get_from_cache central largest index t)
unfolding get_from_cache
get_from_cache-NoneTwice central largest index t once refills =
    OnResult-check Q (not t.is_in_thread_cache) _ (
      OnResult-if Q (ltb largest index) _ _ once (
        OnResult-bind (λ b. OnResult NoneTwice (fill_if_empty central index b t)) Q
          (get_elem? t.buckets index) _ refills
          λ b filled.
            OnResult-bind NoneTwice Q (fill_if_empty central index b t) _ filled λ t' once'.
              OnResult-bind (λ b'. get_elem? t'.buckets index ≡ some b') Q
                (get_elem? t'.buckets index) _ (OnResult-self (get_elem? t'.buckets index))
                λ b' at. pop_entry-NoneTwice index b' b'.slots t' at refl once'))
  where
    Q : Cache × Option ℕ → Type 0
    Q r = NoneTwice r.0

-- Where none were taken, the cache has at most what it had and what was put in.
pub held-Given :
    (gain : ℕ → ℕ) (t t' : Cache)
    → Balanced gain nothing t t'
    → Given t t'
    → (x : ℕ) → held x t'.buckets ≤ held x t.buckets + gain x
held-Given gain t t' balance given x = let (p, q) = given x in omega (arith, balance x, p, q)

pub history-set_limit :
    (index limit : ℕ) (t : Cache) → (set_limit index limit t).history ≡ t.history
unfolding set_limit
history-set_limit index limit t = ground arith
