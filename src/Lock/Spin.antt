-- ===== src/Lock/Spin.antt =====
-- The spinning of Acquire ends.
use partition_alloc.Base.{
  ℕ, suc, ◌+◌, ◌≤◌, ◌<◌, ◌≡◌, refl, sym, ap, ◌∙◌, inl, inr, ◌⊎◌, Bool, true, false, Option, none,
  some, Returns, Bool-cases, arith,
}
use partition_alloc.Lock.{Attempt, first, round, Place, load, slow_exchange, retry, spin}

-- Tries from the n-th on: the first that is won is the last; at most nine are made.
pub data Spun (won : ℕ → Bool) (n : ℕ) : Bool × ℕ → Type 0 where
  wins :
      (m : ℕ)
      → n ≤ m
      → m < 9
      → ((j : ℕ) → n ≤ j → j < m → won j ≡ false)
      → won m ≡ true
      → Spun won n (true, m + 1)
  blocks : ((j : ℕ) → n ≤ j → j < 9 → won j ≡ false) → Spun won n (false, 9)

-- A range that starts with a lost try.
lost_from :
    (won : ℕ → Bool) (n m : ℕ)
    → won n ≡ false
    → ((j : ℕ) → n + 1 ≤ j → j < m → won j ≡ false)
    → (j : ℕ) → n ≤ j
    → j < m
    → won j ≡ false
lost_from won n m lost after j above below = elim (split j above) [
  | inl same ↦ ap won (sym same) ∙ lost
  | inr more ↦ after j more below
]
  where
    split : (j : ℕ) → n ≤ j → (n ≡ j) ⊎ (n + 1 ≤ j)
    split j h = ground (arith, h)

Spun-earlier :
    (won : ℕ → Bool) (n : ℕ) (r : Bool × ℕ) → won n ≡ false → Spun won (n + 1) r → Spun won n r
Spun-earlier won n (c, k) lost (Spun.wins m above below none_before at) =
    Spun.wins m (omega arith) below (lost_from won n m lost none_before) at
Spun-earlier won n (c, k) lost (Spun.blocks all) = Spun.blocks (lost_from won n 9 lost all)

-- One try, and those after it.
spin_once :
    (won : ℕ → Bool) (fuel n : ℕ) (a : Attempt) (p : Place)
    → retry a ≡ p
    → n < 9
    → Returns (Spun won (n + 1)) (spin won fuel (n + 1) p)
    → Returns (Spun won n) (spin won (suc fuel) n (load a))
unfolding spin
spin_once won fuel n a p e low after = elim (Bool-cases (won n)) [
  | inl win ↦ rw win (Spun.wins n (omega arith) low (λ j above below. absurd (omega arith)) win)
  | inr lost ↦ rw (lost, e) (finish (spin won fuel (n + 1) p) after lost)
]
  where
    finish :
        (o : Option (Bool × ℕ))
        → Returns (Spun won (n + 1)) o
        → won n ≡ false
        → Returns (Spun won n) o
    finish none h lost = h
    finish (some r) h lost = Spun-earlier won n r lost h

-- The places of the loop, from a number of tries and a backoff.
retries :
    (won : ℕ → Bool) (fuel n tries backoff tries' backoff' : ℕ)
    → retry (round tries backoff) ≡ load (round tries' backoff')
    → n < 9
    → Returns (Spun won (n + 1)) (spin won fuel (n + 1) (load (round tries' backoff')))
    → Returns (Spun won n) (spin won (suc fuel) n (load (round tries backoff)))
retries won fuel n tries backoff tries' backoff' e low after =
    spin_once won fuel n (round tries backoff) (load (round tries' backoff')) e low after

-- Acquire tries the lock at most nine times: it takes the lock at the first try that is won, and goes
-- to LockSlow if all nine are lost.
pub acquire-Spun : (won : ℕ → Bool) → Returns (Spun won 0) (spin won 9 0 (load first))
unfolding spin retry
acquire-Spun won = spin_once won 8 0 first (load (round 0 1)) refl (omega arith) (
    retries won 7 1 0 1 1 2 refl (omega arith) (
      retries won 6 2 1 2 3 4 refl (omega arith) (
        retries won 5 3 3 4 7 8 refl (omega arith) (
          retries won 4 4 7 8 15 16 refl (omega arith) (
            retries won 3 5 15 16 31 16 refl (omega arith) (
              retries won 2 6 31 16 47 16 refl (omega arith) (
                retries won 1 7 47 16 63 16 refl (omega arith) (
                  spin_once won 0 8 (round 63 16) slow_exchange refl (omega arith)
                    (Spun.blocks λ j above below. absurd (omega arith))))))))))
