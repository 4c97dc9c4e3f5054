-- ===== src/Lock/Tests.antt =====
-- A lock and two threads, with a kernel that wakes the first thread that sleeps.
use partition_alloc.Base.{
  ℕ, suc, ◌≡◌, refl, sym, ap, ◌∙◌, subst, true, false, ◌==◌, Option, none, some, if◌then◌else◌,
  Bool-cases, inl, inr, some-injective, List, [], ◌∷◌, Returns, get_elem?, sum_of, arith,
}
use partition_alloc.Lock.{
  Place, outside, load, compare_exchange, slow_exchange, futex_wait, asleep, holding, futex_wake,
  first, round, retry, Attempt, Kernel, IsFutex, Move, System, Step, Reach, is_asleep, unlocked,
  locked_contended, spin,
}
use partition_alloc.Lock.Exclusion.{mutual_exclusion}
use partition_alloc.Lock.Progress.{Rouser, Reach-Rouser}
use partition_alloc.Lock.Wakeup.{Woken, Reach-Woken}
use partition_alloc.Lock.Spin.{Spun, acquire-Spun}

abbrev shifted : Option ℕ → Option ℕ
shifted none = none
shifted (some j) = some (suc j)

abbrev first_asleep : List Place → Option ℕ
first_asleep [] = none
first_asleep (p ∷ ps) = if is_asleep p == 1 then some 0 else shifted (first_asleep ps)

abbrev linux : Kernel
linux = record { Sleeps = λ word. word ≡ locked_contended; Wakes = λ ps o. o ≡ first_asleep ps }

is_asleep-asleep : (p : Place) → is_asleep p ≡ 1 → p ≡ asleep
is_asleep-asleep asleep e = refl
is_asleep-asleep outside e = absurd (omega (arith, e))
is_asleep-asleep (load a) e = absurd (omega (arith, e))
is_asleep-asleep (compare_exchange a) e = absurd (omega (arith, e))
is_asleep-asleep slow_exchange e = absurd (omega (arith, e))
is_asleep-asleep futex_wait e = absurd (omega (arith, e))
is_asleep-asleep holding e = absurd (omega (arith, e))
is_asleep-asleep futex_wake e = absurd (omega (arith, e))

is_asleep-other : (p : Place) → (is_asleep p == 1) ≡ false → is_asleep p ≡ 0
is_asleep-other asleep e = cc
is_asleep-other outside e = refl
is_asleep-other (load a) e = refl
is_asleep-other (compare_exchange a) e = refl
is_asleep-other slow_exchange e = refl
is_asleep-other futex_wait e = refl
is_asleep-other holding e = refl
is_asleep-other futex_wake e = refl

shifted-some : (o : Option ℕ) (j : ℕ) → some j ≡ shifted o → (k : ℕ) × ((o ≡ some k) × (j ≡ suc k))
shifted-some none j e = cc
shifted-some (some k) j e = (k, (refl, some-injective e))

first_asleep-asleep :
    (ps : List Place) (j : ℕ) → some j ≡ first_asleep ps → get_elem? ps j ≡ some asleep
first_asleep-asleep [] j e = cc
first_asleep-asleep (p ∷ ps) j e = elim (Bool-cases (is_asleep p == 1)) [
  | inl this ↦
      let zeroth : some j ≡ some 0 =
        e ∙ ap (λ c. if c then some 0 else shifted (first_asleep ps)) this in
      rw (some-injective zeroth) (ap some (is_asleep-asleep p (ground (arith, this))))
  | inr other ↦
      let later = e ∙ ap (λ c. if c then some 0 else shifted (first_asleep ps)) other in
      let (k, (found, j_is)) = shifted-some (first_asleep ps) j later in
      rw j_is (first_asleep-asleep ps k (sym found))
]

shifted-none : (o : Option ℕ) → none ≡ shifted o → none ≡ o
shifted-none none e = refl
shifted-none (some k) e = cc

first_asleep-none : (ps : List Place) → none ≡ first_asleep ps → sum_of is_asleep ps ≡ 0
first_asleep-none [] e = refl
first_asleep-none (p ∷ ps) e = elim (Bool-cases (is_asleep p == 1)) [
  | inl this ↦ cc (e ∙ ap (λ c. if c then some 0 else shifted (first_asleep ps)) this)
  | inr other ↦
      let later = e ∙ ap (λ c. if c then some 0 else shifted (first_asleep ps)) other in
      omega (
        arith,
        is_asleep-other p other,
        first_asleep-none ps (shifted-none (first_asleep ps) later),
      )
]

linux-IsFutex : IsFutex linux
linux-IsFutex = record {
  contended = λ word e. e;
  sleeper = λ ps j e. first_asleep-asleep ps j e;
  no_sleeper = λ ps e. first_asleep-none ps e;
}

abbrev state : ℕ → Place → Place → System
state word p q = record { word = word; places = p ∷ q ∷ [] }

-- The first thread takes the lock.
first_holds : Reach linux 2 (state 1 holding outside)
first_holds =
    Reach.later
      (Reach.later (Reach.later Reach.start (Step.moves 0 refl Move.acquire))
        (Step.moves 0 refl (Move.load_free refl)))
      (Step.moves 0 refl (Move.exchanged refl))

held : 1 ≡ unlocked → ⊥
held e = absurd (omega (arith, e))

-- The second thread fails once more.
fails :
    (a : Attempt) (p : Place)
    → retry a ≡ p
    → Reach linux 2 (state 1 holding (load a))
    → Reach linux 2 (state 1 holding p)
fails a p e r =
    subst (λ q. Reach linux 2 (state 1 holding q)) e
      (Reach.later r (Step.moves 1 refl (Move.load_held held)))

abbrev spins : ℕ → ℕ → Place
spins tries backoff = load (round tries backoff)

second_slow : Reach linux 2 (state 1 holding slow_exchange)
unfolding retry
second_slow = fails (round 63 16) slow_exchange refl (
    fails (round 47 16) (spins 63 16) refl (
      fails (round 31 16) (spins 47 16) refl (
        fails (round 15 16) (spins 31 16) refl (
          fails (round 7 8) (spins 15 16) refl (
            fails (round 3 4) (spins 7 8) refl (
              fails (round 1 2) (spins 3 4) refl (
                fails (round 0 1) (spins 1 2) refl (
                  fails first (spins 0 1) refl
                    (Reach.later first_holds (Step.moves 1 refl Move.acquire))))))))))

second_sleeps : Reach linux 2 (state 2 holding asleep)
second_sleeps =
    Reach.later (Reach.later second_slow (Step.moves 1 refl (Move.slow_held held)))
      (Step.moves 1 refl (Move.sleep refl))

mutual_exclusion_example : ◌≡◌ {A = ℕ} 0 0
mutual_exclusion_example =
    mutual_exclusion linux linux-IsFutex 2 (state 2 holding asleep) second_sleeps 0 0 refl refl

Reach-Rouser_example : Rouser (state 2 holding asleep)
Reach-Rouser_example =
    Reach-Rouser linux linux-IsFutex 2 (state 2 holding asleep) second_sleeps 1 refl

Reach-Woken_example : Woken linux (state 2 holding asleep)
Reach-Woken_example =
    Reach-Woken linux linux-IsFutex (λ ps. (first_asleep ps, refl)) 2 (state 2 holding asleep)
      second_sleeps 1 refl

acquire-Spun_example : Returns (Spun (λ n. n == 3) 0) (spin (λ n. n == 3) 9 0 (load first))
acquire-Spun_example = acquire-Spun (λ n. n == 3)

spin_test : spin (λ n. n == 3) 9 0 (load first) ≡ some (true, 4)
unfolding spin
spin_test = refl
