-- ===== src/Lock.antt =====
-- SpinningMutex of src/partition_alloc/spinning_mutex.h and spinning_mutex.cc, in a build for Linux:
-- the word `state_`, and the place of each thread in Acquire, Try, Release and the functions they
-- call. Each access to the word, and each system call, is one step. The kernel is a parameter: what
-- FUTEX_WAIT and FUTEX_WAKE may do.
pub mod Exclusion
pub mod Progress
pub mod Wakeup
pub mod Spin
mod Tests
use partition_alloc.Base.{
  ℕ, zero, suc, ◌+◌, ◌*◌, min, ◌≡◌, ◌≢◌, Bool, true, false, ◌==◌, ltb, if◌then◌else◌, Option, none,
  some, List, [], ◌∷◌, get_elem?, set, sum_of,
}

abbrev pub unlocked : ℕ
unlocked = 0

abbrev pub locked_uncontended : ℕ
locked_uncontended = 1

abbrev pub locked_contended : ℕ
locked_contended = 2

abbrev pub spin_count : ℕ
spin_count = 64

abbrev pub max_backoff : ℕ
max_backoff = 16

-- The caller of Try.
pub data Attempt : Type 0 where
  only : Attempt  -- Try alone
  first : Attempt  -- Acquire
  round : (tries backoff : ℕ) → Attempt  -- the loop of AcquireSpinThenBlock

pub data Place : Type 0 where
  outside : Place
  load : Attempt → Place  -- the load of Try
  compare_exchange : Attempt → Place  -- the compare-exchange of Try
  slow_exchange : Place  -- the condition of the loop of LockSlow
  futex_wait : Place  -- the call of FutexWait
  asleep : Place  -- in FutexWait
  holding : Place
  futex_wake : Place  -- the call of FutexWake in Release

-- Where a thread goes when Try has failed.
pub retry : Attempt → Place
retry only = outside
retry first = load (round 0 1)
retry (round tries backoff) =
    let tries' = tries + backoff in
    if ltb tries' spin_count
    then load (round tries' (min max_backoff (backoff * 2)))
    else slow_exchange

-- The kernel: a thread may be put to sleep on a word of a value; a wake-up picks a thread, or none.
pub record Kernel : Type 1 where
  pub Sleeps : ℕ → Type 0
  pub Wakes : List Place → Option ℕ → Type 0

abbrev pub is_asleep : Place → ℕ
is_asleep asleep = 1
is_asleep p = 0

-- What futex(2) says: FUTEX_WAIT sleeps only on the value it is given; FUTEX_WAKE wakes a thread that
-- sleeps, if there is one.
pub record IsFutex (kernel : Kernel) : Type 0 where
  pub contended : (word : ℕ) → kernel.Sleeps word → word ≡ locked_contended
  pub sleeper : (ps : List Place) (j : ℕ) → kernel.Wakes ps (some j) → get_elem? ps j ≡ some asleep
  pub no_sleeper : (ps : List Place) → kernel.Wakes ps none → sum_of is_asleep ps ≡ 0

-- One step of one thread, by its own means.
pub data Move (kernel : Kernel) (word : ℕ) : Place → ℕ → Place → Type 0 where
  try_lock : Move kernel word outside word (load only)
  acquire : Move kernel word outside word (load first)
  load_free : {a : Attempt} → word ≡ unlocked → Move kernel word (load a) word (compare_exchange a)
  load_held : {a : Attempt} → word ≢ unlocked → Move kernel word (load a) word (retry a)
  exchanged :
      {a : Attempt}
      → word ≡ unlocked
      → Move kernel word (compare_exchange a) locked_uncontended holding
  -- Also a spurious failure.
  not_exchanged : {a : Attempt} → Move kernel word (compare_exchange a) word (retry a)
  slow_free : word ≡ unlocked → Move kernel word slow_exchange locked_contended holding
  slow_held : word ≢ unlocked → Move kernel word slow_exchange locked_contended futex_wait
  sleep : kernel.Sleeps word → Move kernel word futex_wait word asleep
  -- EAGAIN or EINTR.
  not_asleep : Move kernel word futex_wait word slow_exchange
  interrupted : Move kernel word asleep word slow_exchange
  release : word ≢ locked_contended → Move kernel word holding unlocked outside
  release_contended : word ≡ locked_contended → Move kernel word holding unlocked futex_wake

pub record System : Type 0 where
  pub word : ℕ
  pub places : List Place

pub data Step (kernel : Kernel) (s : System) : System → Type 0 where
  moves :
      (i : ℕ) {p p' : Place} {word' : ℕ}
      → get_elem? s.places i ≡ some p
      → Move kernel s.word p word' p'
      → Step kernel s (record { word = word'; places = set s.places i p' })
  wakes_none :
      (i : ℕ)
      → get_elem? s.places i ≡ some futex_wake
      → kernel.Wakes s.places none
      → Step kernel s (record { word = s.word; places = set s.places i outside })
  wakes :
      (i j : ℕ)
      → get_elem? s.places i ≡ some futex_wake
      → kernel.Wakes s.places (some j)
      → Step kernel s
          (record { word = s.word; places = set (set s.places i outside) j slow_exchange })

abbrev pub outside_all : ℕ → List Place
outside_all zero = []
outside_all (suc n) = outside ∷ outside_all n

pub data Reach (kernel : Kernel) (threads : ℕ) : System → Type 0 where
  start : Reach kernel threads (record { word = unlocked; places = outside_all threads })
  later : {s t : System} → Reach kernel threads s → Step kernel s t → Reach kernel threads t

-- Try, and the tries of Acquire until LockSlow, where the n-th answer of the compare-exchange is
-- `won n`. The result is whether the lock is taken, and the number of tries; `none` is no fuel.
pub spin : (ℕ → Bool) → ℕ → ℕ → Place → Option (Bool × ℕ)
unfolding retry
spin won zero n (load a) = none
spin won (suc fuel) n (load a) =
    if won n then some (true, n + 1) else spin won fuel (n + 1) (retry a)
spin won fuel n p = some (false, n)
