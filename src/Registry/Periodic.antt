-- ===== src/Registry/Periodic.antt =====
-- PurgeAll and RunPeriodicPurge.
use partition_alloc.Base.{
  ℕ, zero, suc, ◌+◌, ◌≤◌, ◌≡◌, refl, sym, ap, ◌∙◌, subst, Bool, true, false, ◌==◌, leb,
  if◌then◌else◌, Option, none, some, ◌>>=◌, check, Returns, >>=-Returns, some->>=, List, [], ◌∷◌,
  get_elem?, set, length, length-set, get_elem?-set_self, get_elem?-set_ne, ◌≢◌, some-injective,
  arith,
}
use partition_alloc.ThreadCache.{Cache, purge, set_should_purge}
use partition_alloc.ThreadCache.Ledger.{CacheIsValid}
use partition_alloc.ThreadCache.Purge.{Purged, purge-Purged}
use partition_alloc.Registry.{
  Registry, clamp, is_at, ask_others, purge_current, purge_all, cached_memory_of, next_interval,
  no_caches, run_periodic_purge, set_purging_configuration,
}

-- The cache of the calling thread, if it has one, is valid.
abbrev pub CurrentIsValid : Option ℕ → List Cache → Type 0
CurrentIsValid none ts = Unit {0}
CurrentIsValid (some i) ts = (t : Cache) × ((get_elem? ts i ≡ some t) × CacheIsValid t)

-- What PurgeAll leaves: every cache is there, that of the calling thread is empty, and the others are
-- as before but have been asked.
pub record Asked (current : Option ℕ) (ts ts' : List Cache) : Type 0 where
  pub size : length ts' ≡ length ts
  pub emptied :
      (i : ℕ) (t : Cache)
      → current ≡ some i
      → get_elem? ts i ≡ some t
      → Returns (Purged t) (get_elem? ts' i)
  pub asked :
      (i : ℕ) (t : Cache)
      → get_elem? ts i ≡ some t
      → is_at current i ≡ false
      → get_elem? ts' i ≡ some (set_should_purge t)

clamp-bounds :
    (value low high : ℕ) → low ≤ high → (low ≤ clamp value low high) × (clamp value low high ≤ high)
clamp-bounds value low high h = (ground (arith, h), ground (arith, h))

ask_others-asked :
    (current : Option ℕ) (n : ℕ) (ts : List Cache) (i : ℕ) (t : Cache)
    → get_elem? ts i ≡ some t
    → is_at current (n + i) ≡ false
    → get_elem? (ask_others current n ts) i ≡ some (set_should_purge t)
ask_others-asked current n [] i t at other = cc
ask_others-asked current n (t ∷ ts) zero u at other =
    let here : is_at current n ≡ false = ap (is_at current) (here_is n) ∙ other in
    ap (λ c. some (if c then t else set_should_purge t)) here
    ∙ ap (λ t. some (set_should_purge t)) (some-injective at)
  where
    here_is : (n : ℕ) → n ≡ n + 0
    here_is n = omega arith
ask_others-asked current n (t ∷ ts) (suc i) u at other =
    ask_others-asked current (n + 1) ts i u at (ap (is_at current) (next_is n i) ∙ other)
  where
    next_is : (n i : ℕ) → n + 1 + i ≡ n + suc i
    next_is n i = omega arith

length-ask_others :
    (current : Option ℕ) (n : ℕ) (ts : List Cache) → length (ask_others current n ts) ≡ length ts
length-ask_others current n [] = refl
length-ask_others current n (t ∷ ts) = omega (arith, length-ask_others current (n + 1) ts)

-- The cache of the calling thread is left alone by the loop.
ask_others-current :
    (j n : ℕ) (ts : List Cache) (i : ℕ)
    → j ≡ n + i
    → get_elem? (ask_others (some j) n ts) i ≡ get_elem? ts i
ask_others-current j n [] i e = refl
ask_others-current j n (t ∷ ts) zero e =
    ap (λ c. some (if c then t else set_should_purge t)) (same j n (omega (arith, e)))
  where
    same : (j n : ℕ) → j ≡ n → (j == n) ≡ true
    same j n e = ground (arith, e)
ask_others-current j n (t ∷ ts) (suc i) e = ask_others-current j (n + 1) ts i (omega (arith, e))

-- The cache at an index has been purged.
abbrev PurgedAt : ℕ → Cache → List Cache → List Cache → Type 0
PurgedAt i t ts ts' = (t' : Cache) × ((ts' ≡ set ts i t') × Purged t t')

purge_current-PurgedAt :
    (i : ℕ) (ts : List Cache) (t : Cache)
    → get_elem? ts i ≡ some t
    → CacheIsValid t
    → Returns (PurgedAt i t ts) (purge_current (some i) ts)
purge_current-PurgedAt i ts t at valid =
    some->>= (PurgedAt i t ts) (get_elem? ts i) t (λ t. purge t >>= λ t'. some (set ts i t')) at
      (>>=-Returns (Purged t) (PurgedAt i t ts) (purge t) (λ t'. some (set ts i t'))
        (purge-Purged t valid) λ t' p. (t', (refl, p)))

zero_left : (j : ℕ) → 0 + j ≡ j
zero_left j = omega arith

PurgedAt-Asked :
    (i : ℕ) (ts : List Cache) (t : Cache) (ts' : List Cache)
    → get_elem? ts i ≡ some t
    → PurgedAt i t ts ts'
    → Asked (some i) ts (ask_others (some i) 0 ts')
PurgedAt-Asked i ts t ts' at (t', (e, p)) = record {
  size = length-ask_others (some i) 0 ts' ∙ (ap length e ∙ length-set ts i t');
  emptied = λ j u is_current there. emptied_at j u (some-injective is_current) there;
  asked = λ j u there other.
      ask_others-asked (some i) 0 ts' j u
        (ap (λ xs. get_elem? xs j) e ∙ (get_elem?-set_ne ts i j t' (apart j other) ∙ there))
        (ap (is_at (some i)) (zero_left j) ∙ other);
}
  where
    apart : (j : ℕ) → is_at (some i) j ≡ false → i ≢ j
    apart j other = ground (arith, other)

    emptied_at :
        (j : ℕ) (u : Cache)
        → i ≡ j
        → get_elem? ts j ≡ some u
        → Returns (Purged u) (get_elem? (ask_others (some i) 0 ts') j)
    emptied_at j u same there =
        let found : get_elem? (ask_others (some i) 0 ts') j ≡ some t' =
          ask_others-current i 0 ts' j (omega (arith, same))
          ∙ (ap (λ xs. get_elem? xs j) e
              ∙ (ap (get_elem? (set ts i t')) (sym same) ∙ get_elem?-set_self ts i t t' at)) in
        let t_is : t ≡ u = some-injective (sym at ∙ (ap (get_elem? ts) same ∙ there)) in
        subst (Returns (Purged u)) (sym found) (subst (λ x. Purged x t') t_is p)

purge_all-Asked :
    (current : Option ℕ) (ts : List Cache)
    → CurrentIsValid current ts
    → Returns (Asked current ts) (purge_all current ts)
unfolding purge_all
purge_all-Asked none ts v = record {
  size = length-ask_others none 0 ts;
  emptied = λ i t e. absurd (none_is_not i e);
  asked = λ i t at other. ask_others-asked none 0 ts i t at refl;
}
  where
    none_is_not : (i : ℕ) → none ≡ some i → ⊥
    none_is_not i e = cc
purge_all-Asked (some i) ts (t, (at, valid)) =
    >>=-Returns (PurgedAt i t ts) (Asked (some i) ts) (purge_current (some i) ts)
      (λ ts'. some (ask_others (some i) 0 ts')) (purge_current-PurgedAt i ts t at valid)
      λ ts' p. PurgedAt-Asked i ts t ts' at p

-- What a periodic purge leaves.
pub record PeriodicallyPurged (current : Option ℕ) (r r' : Registry) : Type 0 where
  pub often : r'.periodic_purge_next_interval ≤ r.max_purge_interval
  pub seldom : r.min_purge_interval ≤ r'.periodic_purge_next_interval
  pub purged : Asked current r.caches r'.caches
  pub others : r' ≡ record r {
    caches = r'.caches;
    periodic_purge_next_interval = r'.periodic_purge_next_interval;
  }

next_interval-bounds :
    (cached : ℕ) (r : Registry)
    → r.min_purge_interval ≤ r.max_purge_interval
    → (r.min_purge_interval ≤ next_interval cached r)
      × (next_interval cached r ≤ r.max_purge_interval)
unfolding next_interval
next_interval-bounds cached r h = clamp-bounds _ r.min_purge_interval r.max_purge_interval h

-- The bounds are those that SetPurgingConfiguration has checked.
abbrev pub Ordered : Registry → Type 0
Ordered r = r.is_purging_configured ≡ true → r.min_purge_interval ≤ r.max_purge_interval

-- The three ways in which RunPeriodicPurge ends.
pub data Outcome (current : Option ℕ) (r : Registry) : Option Registry → Type 0 where
  crashed : r.is_purging_configured ≡ false → Outcome current r none
  nothing_to_do :
      r.is_purging_configured ≡ true → no_caches r.caches ≡ true → Outcome current r (some r)
  ran :
      {r' : Registry}
      → r.is_purging_configured ≡ true
      → no_caches r.caches ≡ false
      → PeriodicallyPurged current r r'
      → Outcome current r (some r')

finish :
    (current : Option ℕ) (r : Registry)
    → r.min_purge_interval ≤ r.max_purge_interval
    → r.is_purging_configured ≡ true
    → no_caches r.caches ≡ false
    → (o : Option (List Cache)) → Returns (Asked current r.caches) o
    → Outcome current r (
        o >>= λ ts. some (record r {
          caches = ts;
          periodic_purge_next_interval = next_interval (cached_memory_of r.caches) r;
        }))
finish current r ordered configured kept none h = absurd h
finish current r ordered configured kept (some ts) asked =
    let bounds = next_interval-bounds (cached_memory_of r.caches) r ordered in
    Outcome.ran configured kept
      (record { often = bounds.1; seldom = bounds.0; purged = asked; others = refl })

-- Where the bounds are ordered once configured and the cache of the calling thread is valid,
-- RunPeriodicPurge crashes exactly when the purge was never configured; without a cache it changes
-- nothing; else it keeps every cache, empties that of the calling thread, asks every other thread to
-- purge its own and changes nothing else there, and keeps the next interval within the bounds.
pub run_periodic_purge-Outcome :
    (current : Option ℕ) (r : Registry)
    → Ordered r
    → CurrentIsValid current r.caches
    → Outcome current r (run_periodic_purge current r)
unfolding run_periodic_purge
run_periodic_purge-Outcome current r ordered v =
    go r.is_purging_configured (no_caches r.caches) refl refl
  where
    rest : Option Registry
    rest = purge_all current r.caches >>= λ ts. some (record r {
      caches = ts;
      periodic_purge_next_interval = next_interval (cached_memory_of r.caches) r;
    })

    go :
        (c e : Bool)
        → r.is_purging_configured ≡ c
        → no_caches r.caches ≡ e
        → Outcome current r (check c (if e then some r else rest))
    go false e is_c is_e = Outcome.crashed is_c
    go true true is_c is_e = Outcome.nothing_to_do is_c is_e
    go true false is_c is_e =
        finish current r (ordered is_c) is_c is_e (purge_all current r.caches)
          (purge_all-Asked current r.caches v)

-- SetPurgingConfiguration leaves ordered bounds, or crashes.
pub set_purging_configuration-Ordered :
    (min_interval max_interval default_interval min_bytes : ℕ) (r r' : Registry)
    → set_purging_configuration min_interval max_interval default_interval min_bytes r ≡ some r'
    → Ordered r'
unfolding set_purging_configuration
set_purging_configuration-Ordered a b d m r r' e = go (leb a d) (leb d b) refl refl e
  where
    set_to : Registry
    set_to = record r {
      min_purge_interval = a;
      max_purge_interval = b;
      default_purge_interval = d;
      min_cached_memory_for_purging_bytes = m;
      is_purging_configured = true;
    }

    go :
        (c c' : Bool)
        → leb a d ≡ c
        → leb d b ≡ c'
        → check c (check c' (some set_to)) ≡ some r'
        → Ordered r'
    go true true low high same =
        subst Ordered (some-injective same) (λ configured. ground (arith, low, high))
    go true false low high same = cc
    go false c' low high same = cc
