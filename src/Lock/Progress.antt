-- ===== src/Lock/Progress.antt =====
-- No wake-up of SpinningMutex is lost.
use partition_alloc.Base.{
  ℕ, suc, ◌+◌, ◌≤◌, ◌≡◌, refl, ap, ◌∙◌, inl, inr, true, false, ◌==◌, ltb, if◌then◌else◌, some, List,
  [], ◌∷◌, get_elem?, set, sum_of, sum_of-set, Bool-cases, min, ◌*◌, arith,
}
use partition_alloc.Lock.{
  Attempt, only, first, round, Place, outside, load, compare_exchange, slow_exchange, futex_wait,
  asleep, holding, futex_wake, retry, Kernel, IsFutex, Move, System, Step, Reach, is_asleep,
  locked_contended, spin_count, max_backoff,
}
use partition_alloc.Lock.Exclusion.{is_holding, sum_of-get, sum_of-wakes, sum_of-outside, Reach-Inv}

-- A thread that will wake another, or that will mark the word as contended.
abbrev is_rousing : Place → ℕ
is_rousing futex_wake = 1
is_rousing slow_exchange = 1
is_rousing outside = 0
is_rousing (load a) = 0
is_rousing (compare_exchange a) = 0
is_rousing futex_wait = 0
is_rousing asleep = 0
is_rousing holding = 0

abbrev is_contended : ℕ → ℕ
is_contended word = if word == locked_contended then 1 else 0

is_asleep-retry : (a : Attempt) → is_asleep (retry a) ≡ 0
unfolding retry
is_asleep-retry only = refl
is_asleep-retry first = refl
is_asleep-retry (round tries backoff) =
    elim (ltb (tries + backoff) spin_count)
      as (λ c.
        is_asleep (
          if c
          then load (round (tries + backoff) (min max_backoff (backoff * 2)))
          else slow_exchange)
        ≡ 0) [ true ↦ refl | false ↦ refl ]

-- Where a thread sleeps, the word is contended or a thread rouses.
abbrev Watched : ℕ → ℕ → ℕ → Type 0
Watched sleeping rousing word = 1 ≤ sleeping → 1 ≤ rousing + is_contended word

-- The numbers before and after a move.
Move-Watched :
    {kernel : Kernel} {word word' : ℕ} {p p' : Place}
    → IsFutex kernel
    → (n n' k k' : ℕ) → n' + is_asleep p ≡ n + is_asleep p'
    → k' + is_rousing p ≡ k + is_rousing p'
    → Move kernel word p word' p'
    → Watched n k word
    → Watched n' k' word'
Move-Watched futex n n' k k' ea ek Move.try_lock w h = omega (arith, w (omega arith))
Move-Watched futex n n' k k' ea ek Move.acquire w h = omega (arith, w (omega arith))
Move-Watched futex n n' k k' ea ek (Move.load_free e) w h = omega (arith, w (omega arith))
Move-Watched futex n n' k k' ea ek (Move.load_held {a} e) w h =
    omega (arith, w (omega (arith, is_asleep-retry a)))
Move-Watched futex n n' k k' ea ek (Move.exchanged e) w h = ground (arith, e, w (omega arith))
Move-Watched futex n n' k k' ea ek (Move.not_exchanged {a}) w h =
    omega (arith, w (omega (arith, is_asleep-retry a)))
Move-Watched futex n n' k k' ea ek (Move.slow_free e) w h = omega arith
Move-Watched futex n n' k k' ea ek (Move.slow_held e) w h = omega arith
Move-Watched futex n n' k k' ea ek (Move.sleep e) w h = ground (arith, futex.contended _ e)
Move-Watched futex n n' k k' ea ek Move.not_asleep w h = omega arith
Move-Watched futex n n' k k' ea ek Move.interrupted w h = omega arith
Move-Watched futex n n' k k' ea ek (Move.release e) w h = ground (arith, e, w (omega arith))
Move-Watched futex n n' k k' ea ek (Move.release_contended e) w h = omega arith

abbrev Inv : System → Type 0
Inv s = Watched (sum_of is_asleep s.places) (sum_of is_rousing s.places) s.word

Step-Inv : (kernel : Kernel) → IsFutex kernel → {s t : System} → Inv s → Step kernel s t → Inv t
Step-Inv kernel futex {s} inv (Step.moves i {p} {p'} {word'} at m) =
    Move-Watched futex (sum_of is_asleep s.places) (sum_of is_asleep (set s.places i p'))
      (sum_of is_rousing s.places) (sum_of is_rousing (set s.places i p'))
      (sum_of-set is_asleep s.places i p p' at) (sum_of-set is_rousing s.places i p p' at) m inv
Step-Inv kernel futex {s} inv (Step.wakes_none i at none_left) = λ h. absurd (
    omega (
      arith,
      futex.no_sleeper s.places none_left,
      sum_of-set is_asleep s.places i futex_wake outside at,
    ))
Step-Inv kernel futex {s} inv (Step.wakes i j at picks) = λ h. omega (
  arith,
  sum_of-wakes is_rousing s.places i j at (futex.sleeper s.places j picks),
  sum_of-get is_rousing s.places i futex_wake at,
)

Reach-Watched : (kernel : Kernel) → IsFutex kernel → (n : ℕ) {s : System} → Reach kernel n s → Inv s
Reach-Watched kernel futex n Reach.start =
    λ h. absurd (omega (arith, sum_of-outside is_asleep refl n))
Reach-Watched kernel futex n (Reach.later r step) =
    Step-Inv kernel futex (Reach-Watched kernel futex n r) step

-- Somebody that the sleeping threads can count on.
pub data Rouser (s : System) : Type 0 where
  holder : (j : ℕ) → get_elem? s.places j ≡ some holding → s.word ≡ locked_contended → Rouser s
  waker : (j : ℕ) → get_elem? s.places j ≡ some futex_wake → Rouser s
  taker : (j : ℕ) → get_elem? s.places j ≡ some slow_exchange → Rouser s

sum_of-find :
    (w : Place → ℕ) (ps : List Place)
    → 1 ≤ sum_of w ps
    → (j : ℕ) × ((p : Place) × ((get_elem? ps j ≡ some p) × (1 ≤ w p)))
sum_of-find w [] h = absurd (omega arith)
sum_of-find w (p ∷ ps) h = elim (Bool-cases (w p == 0)) [
  | inl light ↦
      let (j, (q, (at, heavy))) = sum_of-find w ps (ground (arith, h, light)) in
      (suc j, (q, (at, heavy)))
  | inr heavy ↦ (0, (p, (refl, ground (arith, heavy))))
]

Rouser-rousing :
    (s : System) (j : ℕ) (p : Place) → get_elem? s.places j ≡ some p → 1 ≤ is_rousing p → Rouser s
Rouser-rousing s j futex_wake at h = Rouser.waker j at
Rouser-rousing s j slow_exchange at h = Rouser.taker j at
Rouser-rousing s j outside at h = absurd (omega arith)
Rouser-rousing s j (load a) at h = absurd (omega arith)
Rouser-rousing s j (compare_exchange a) at h = absurd (omega arith)
Rouser-rousing s j futex_wait at h = absurd (omega arith)
Rouser-rousing s j asleep at h = absurd (omega arith)
Rouser-rousing s j holding at h = absurd (omega arith)

is_holding-holding : (p : Place) → 1 ≤ is_holding p → p ≡ holding
is_holding-holding holding h = refl
is_holding-holding futex_wake h = absurd (omega arith)
is_holding-holding slow_exchange h = absurd (omega arith)
is_holding-holding outside h = absurd (omega arith)
is_holding-holding (load a) h = absurd (omega arith)
is_holding-holding (compare_exchange a) h = absurd (omega arith)
is_holding-holding futex_wait h = absurd (omega arith)
is_holding-holding asleep h = absurd (omega arith)

pub find_holder :
    (ps : List Place) → 1 ≤ sum_of is_holding ps → (j : ℕ) × (get_elem? ps j ≡ some holding)
find_holder ps h =
    let (j, (p, (at, one))) = sum_of-find is_holding ps h in
    (j, at ∙ ap some (is_holding-holding p one))

-- If the kernel does what futex(2) says, then in every state that is reached and in which a thread
-- sleeps, the word is marked and a thread holds the lock, which will wake a sleeper at its release, or
-- a thread is about to wake one, or about to mark the word.
pub Reach-Rouser :
    (kernel : Kernel)
    → IsFutex kernel
    → (n : ℕ) (s : System) → Reach kernel n s
    → (i : ℕ) → get_elem? s.places i ≡ some asleep
    → Rouser s
Reach-Rouser kernel futex n s r i at =
    let sleeps = sum_of-get is_asleep s.places i asleep at in
    let watched = Reach-Watched kernel futex n r (omega arith) in
    elim (Bool-cases (s.word == locked_contended)) [
      | inl contended ↦
          let word : s.word ≡ locked_contended = ground (arith, contended) in
          let (j, there) =
            find_holder s.places (ground (arith, word, Reach-Inv kernel futex n r)) in
          Rouser.holder j there word
      | inr other ↦
          let (j, (p, (there, one))) =
            sum_of-find is_rousing s.places (ground (arith, other, watched)) in
          Rouser-rousing s j p there one
    ]
