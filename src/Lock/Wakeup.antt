-- ===== src/Lock/Wakeup.antt =====
-- A thread that sleeps on SpinningMutex can always be woken by the steps of the others.
use partition_alloc.Base.{
  ℕ, suc, ◌+◌, ◌≤◌, ◌≡◌, ◌≢◌, refl, sym, ap, ◌∙◌, inl, inr, ◌==◌, Option, none, some, List,
  get_elem?, set, sum_of, sum_of-set, get_elem?-set_self, get_elem?-set_ne, some-injective,
  Bool-cases, arith,
}
use partition_alloc.Lock.{
  Place, outside, slow_exchange, futex_wait, asleep, holding, futex_wake, Kernel, IsFutex, Move,
  System, Step, Reach, is_asleep, unlocked, locked_contended,
}
use partition_alloc.Lock.Exclusion.{sum_of-get, sum_of-wakes, Reach-Inv}
use partition_alloc.Lock.Progress.{Rouser, Reach-Rouser, find_holder}

-- The thread whose step it is.
abbrev pub actor : {kernel : Kernel} {t u : System} → Step kernel t u → ℕ
actor (Step.moves j at move) = j
actor (Step.wakes_none j at picks) = j
actor (Step.wakes j i at picks) = j

-- Steps of threads that do not sleep.
pub data Run (kernel : Kernel) (s : System) : System → ℕ → Type 0 where
  rest : Run kernel s s 0
  next :
      {t u : System} {k : ℕ}
      → Run kernel s t k
      → (step : Step kernel t u) → get_elem? t.places (actor step) ≢ some asleep
      → Run kernel s u (suc k)

-- A thread that is somewhere else does not sleep.
awake :
    (places : List Place) (j : ℕ) (place : Place)
    → get_elem? places j ≡ some place
    → place ≢ asleep
    → get_elem? places j ≢ some asleep
awake places j place at other sleeps = other (some-injective (sym at ∙ sleeps))

abbrev pub sleepers : System → ℕ
sleepers s = sum_of is_asleep s.places

-- A run of few steps, none of them of a thread that sleeps, which wakes one.
pub record Woken (kernel : Kernel) (s : System) : Type 0 where
  pub final : System
  pub steps : ℕ
  pub run : Run kernel s final steps
  pub few : steps ≤ 3
  pub fewer : sleepers final + 1 ≡ sleepers s

module _ (kernel : Kernel) (futex : IsFutex kernel)
    (answers : (ps : List Place) → (o : Option ℕ) × kernel.Wakes ps o) where
  -- FutexWake with a sleeper.
  wake_now :
      (s t : System) (k j : ℕ)
      → Run kernel s t k
      → k ≤ 2
      → sleepers t ≡ sleepers s
      → 1 ≤ sleepers s
      → get_elem? t.places j ≡ some futex_wake
      → Woken kernel s
  wake_now s t k j run low same one at = go (answers t.places)
    where
      go : (o : Option ℕ) × kernel.Wakes t.places o → Woken kernel s
      go (none, nobody) = absurd (omega (arith, futex.no_sleeper t.places nobody))
      go (some i, picks) = record {
        final = record { word = t.word; places = set (set t.places j outside) i slow_exchange };
        steps = suc k;
        run = Run.next run (Step.wakes j i at picks) (awake t.places j futex_wake at (λ e. cc));
        few = omega arith;
        fewer =
            omega (arith, sum_of-wakes is_asleep t.places j i at (futex.sleeper t.places i picks));
      }

  -- Release of a word that is marked.
  release_now :
      (s t : System) (k j : ℕ)
      → Run kernel s t k
      → k ≤ 1
      → sleepers t ≡ sleepers s
      → 1 ≤ sleepers s
      → t.word ≡ locked_contended
      → get_elem? t.places j ≡ some holding
      → Woken kernel s
  release_now s t k j run low same one marked at =
      wake_now s (record { word = unlocked; places = set t.places j futex_wake }) (suc k) j
        (Run.next run (Step.moves j at (Move.release_contended marked))
          (awake t.places j holding at (λ e. cc)))
        (omega arith) (omega (arith, sum_of-set is_asleep t.places j holding futex_wake at)) one
        (get_elem?-set_self t.places j holding futex_wake at)

  -- The exchange of LockSlow on a free word.
  take_free :
      (s : System) (j : ℕ)
      → 1 ≤ sleepers s
      → s.word ≡ unlocked
      → get_elem? s.places j ≡ some slow_exchange
      → Woken kernel s
  take_free s j one free at =
      release_now s (record { word = locked_contended; places = set s.places j holding }) 1 j
        (Run.next Run.rest (Step.moves j at (Move.slow_free free))
          (awake s.places j slow_exchange at (λ e. cc)))
        (omega arith) (omega (arith, sum_of-set is_asleep s.places j slow_exchange holding at)) one
        refl (get_elem?-set_self s.places j slow_exchange holding at)

  -- The exchange of LockSlow while another thread holds the lock.
  take_held :
      (s : System) (j i : ℕ)
      → 1 ≤ sleepers s
      → s.word ≢ unlocked
      → get_elem? s.places j ≡ some slow_exchange
      → get_elem? s.places i ≡ some holding
      → Woken kernel s
  take_held s j i one held at there =
      release_now s (record { word = locked_contended; places = set s.places j futex_wait }) 1 i
        (Run.next Run.rest (Step.moves j at (Move.slow_held held))
          (awake s.places j slow_exchange at (λ e. cc)))
        (omega arith) (omega (arith, sum_of-set is_asleep s.places j slow_exchange futex_wait at))
        one refl (get_elem?-set_ne s.places j i futex_wait apart ∙ there)
    where
      differ : slow_exchange ≡ holding → ⊥
      differ e = cc

      apart : j ≢ i
      apart same = differ (some-injective (sym at ∙ ap (get_elem? s.places) same ∙ there))

  rouse : (n : ℕ) (s : System) → Reach kernel n s → 1 ≤ sleepers s → Rouser s → Woken kernel s
  rouse n s r one (Rouser.holder j at marked) =
      release_now s s 0 j Run.rest (omega arith) refl one marked at
  rouse n s r one (Rouser.waker j at) = wake_now s s 0 j Run.rest (omega arith) refl one at
  rouse n s r one (Rouser.taker j at) = elim (Bool-cases (s.word == unlocked)) [
    | inl free ↦ take_free s j one (ground (arith, free)) at
    | inr held ↦
        let (i, there) = find_holder s.places (ground (arith, held, Reach-Inv kernel futex n r)) in
        take_held s j i one (ground (arith, held)) at there
  ]

  -- From every state that is reached and in which a thread sleeps, at most three steps, each of a thread
  -- that does not sleep at that point, wake one, if the kernel does what futex(2) says and answers each FUTEX_WAKE.
  pub Reach-Woken :
      (n : ℕ) (s : System)
      → Reach kernel n s
      → (i : ℕ) → get_elem? s.places i ≡ some asleep
      → Woken kernel s
  Reach-Woken n s r i at =
      rouse n s r (sum_of-get is_asleep s.places i asleep at) (Reach-Rouser kernel futex n s r i at)
