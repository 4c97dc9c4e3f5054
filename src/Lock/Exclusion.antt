-- ===== src/Lock/Exclusion.antt =====
-- Mutual exclusion of SpinningMutex.
use native.Mathlib.Decide.{ℕ_discrete}
use partition_alloc.Base.{
  ℕ, zero, suc, ◌+◌, ◌≤◌, ◌≡◌, ◌≢◌, refl, sym, ap, ◌∙◌, true, false, ◌==◌, ltb, if◌then◌else◌, some,
  List, [], ◌∷◌, get_elem?, set, sum_of, sum_of-set, get_elem?-set_ne, some-injective, min, ◌*◌,
  arith,
}
use partition_alloc.Lock.{
  Attempt, only, first, round, Place, outside, load, compare_exchange, slow_exchange, futex_wait,
  asleep, holding, futex_wake, retry, Kernel, IsFutex, Move, System, Step, Reach, outside_all,
  unlocked, spin_count, max_backoff,
}

abbrev pub is_holding : Place → ℕ
is_holding holding = 1
is_holding outside = 0
is_holding (load a) = 0
is_holding (compare_exchange a) = 0
is_holding slow_exchange = 0
is_holding futex_wait = 0
is_holding asleep = 0
is_holding futex_wake = 0

abbrev pub is_free : ℕ → ℕ
is_free word = if word == unlocked then 1 else 0

is_holding-retry : (a : Attempt) → is_holding (retry a) ≡ 0
unfolding retry
is_holding-retry only = refl
is_holding-retry first = refl
is_holding-retry (round tries backoff) =
    elim (ltb (tries + backoff) spin_count)
      as (λ c.
        is_holding (
          if c
          then load (round (tries + backoff) (min max_backoff (backoff * 2)))
          else slow_exchange)
        ≡ 0) [ true ↦ refl | false ↦ refl ]

-- Either the lock is free or one thread holds it, before and after a move.
Move-is_holding :
    {kernel : Kernel} {word word' : ℕ} {p p' : Place}
    → Move kernel word p word' p'
    → is_holding p + is_free word ≤ 1
    → is_holding p' + is_free word' ≡ is_holding p + is_free word
Move-is_holding Move.try_lock h = refl
Move-is_holding Move.acquire h = refl
Move-is_holding (Move.load_free e) h = refl
Move-is_holding (Move.load_held {a} e) h = omega (arith, is_holding-retry a)
Move-is_holding (Move.exchanged e) h = ground (arith, e)
Move-is_holding (Move.not_exchanged {a}) h = omega (arith, is_holding-retry a)
Move-is_holding (Move.slow_free e) h = ground (arith, e)
Move-is_holding (Move.slow_held e) h = ground (arith, e)
Move-is_holding (Move.sleep e) h = refl
Move-is_holding Move.not_asleep h = refl
Move-is_holding Move.interrupted h = refl
Move-is_holding (Move.release e) h = ground (arith, h)
Move-is_holding (Move.release_contended e) h = ground (arith, h)

pub sum_of-get :
    (w : Place → ℕ) (ps : List Place) (i : ℕ) (p : Place)
    → get_elem? ps i ≡ some p
    → w p ≤ sum_of w ps
sum_of-get w [] i p e = cc
sum_of-get w (q ∷ ps) zero p e = omega (arith, ap w (some-injective e))
sum_of-get w (q ∷ ps) (suc i) p e = omega (arith, sum_of-get w ps i p e)

abbrev pub Inv : System → Type 0
Inv s = sum_of is_holding s.places + is_free s.word ≡ 1

-- The woken thread and the one that wakes it are two.
wake_apart :
    (ps : List Place) (i j : ℕ)
    → get_elem? ps i ≡ some futex_wake
    → get_elem? ps j ≡ some asleep
    → i ≢ j
wake_apart ps i j at there same = differ (some-injective (sym at ∙ ap (get_elem? ps) same ∙ there))
  where
    differ : futex_wake ≡ asleep → ⊥
    differ e = cc

-- A wake-up changes two places.
pub sum_of-wakes :
    (w : Place → ℕ) (ps : List Place) (i j : ℕ)
    → get_elem? ps i ≡ some futex_wake
    → get_elem? ps j ≡ some asleep
    → sum_of w (set (set ps i outside) j slow_exchange) + w futex_wake + w asleep
      ≡ sum_of w ps + w outside + w slow_exchange
sum_of-wakes w ps i j at there =
    let apart = wake_apart ps i j at there in
    let there' = get_elem?-set_ne ps i j outside apart ∙ there in
    omega (
      arith,
      sum_of-set w ps i futex_wake outside at,
      sum_of-set w (set ps i outside) j asleep slow_exchange there',
    )

Step-Inv : (kernel : Kernel) → IsFutex kernel → {s t : System} → Inv s → Step kernel s t → Inv t
Step-Inv kernel futex {s} inv (Step.moves i {p} {p'} {word'} at m) =
    let change = sum_of-set is_holding s.places i p p' at in
    let one = sum_of-get is_holding s.places i p at in
    let same = Move-is_holding m (omega arith) in omega arith
Step-Inv kernel futex {s} inv (Step.wakes_none i at none_left) =
    omega (arith, inv, sum_of-set is_holding s.places i futex_wake outside at)
Step-Inv kernel futex {s} inv (Step.wakes i j at picks) =
    omega (arith, inv, sum_of-wakes is_holding s.places i j at (futex.sleeper s.places j picks))

pub sum_of-outside : (w : Place → ℕ) → w outside ≡ 0 → (n : ℕ) → sum_of w (outside_all n) ≡ 0
sum_of-outside w e zero = refl
sum_of-outside w e (suc n) = omega (arith, e, sum_of-outside w e n)

-- In every state that is reached, either the word is 0 and no thread holds the lock, or one does.
pub Reach-Inv : (kernel : Kernel) → IsFutex kernel → (n : ℕ) {s : System} → Reach kernel n s → Inv s
Reach-Inv kernel futex n Reach.start = omega (arith, sum_of-outside is_holding refl n)
Reach-Inv kernel futex n (Reach.later r step) =
    Step-Inv kernel futex (Reach-Inv kernel futex n r) step

two_holding :
    (ps : List Place) (i j : ℕ)
    → get_elem? ps i ≡ some holding
    → get_elem? ps j ≡ some holding
    → i ≢ j
    → 2 ≤ sum_of is_holding ps
two_holding ps i j at there apart =
    let changed = sum_of-set is_holding ps i holding outside at in
    let there' = get_elem?-set_ne ps i j outside apart ∙ there in
    let other = sum_of-get is_holding (set ps i outside) j holding there' in omega arith

-- However the threads interleave, no two of them hold the lock, if the kernel does what futex(2) says.
pub mutual_exclusion :
    (kernel : Kernel)
    → IsFutex kernel
    → (n : ℕ) (s : System) → Reach kernel n s
    → (i j : ℕ) → get_elem? s.places i ≡ some holding
    → get_elem? s.places j ≡ some holding
    → i ≡ j
mutual_exclusion kernel futex n s r i j at there = elim (ℕ_discrete i j) [
  | yes same ↦ same
  | no apart ↦
      let inv = Reach-Inv kernel futex n r in
      absurd (omega (arith, inv, two_holding s.places i j at there apart))
]
