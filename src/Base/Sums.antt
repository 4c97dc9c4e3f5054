-- ===== src/Base/Sums.antt =====
-- Lists under a write: what is read after it, and what a sum becomes.
use Prim.Native.Nat.{ℕ, zero, suc, ◌+◌, ◌<◌}
use mathlib.Core.Path.{◌≡◌, refl, ap}
use mathlib.Core.Logic.{◌≢◌}
use mathlib.Core.List.{List, [], ◌∷◌}
use mathlib.Core.Option.{some}
use native.Mathlib.Omega.{arith}
use partition_alloc.Base.Tests.{some-injective}
use partition_alloc.Base.Lists.{length, get_elem?, set}

module _ {A : Type 0} where
  abbrev pub sum_of : (A → ℕ) → List A → ℕ
  sum_of w [] = 0
  sum_of w (x ∷ xs) = w x + sum_of w xs

  pub sum_of-set :
      (w : A → ℕ) (xs : List A) (i : ℕ) (b c : A)
      → get_elem? xs i ≡ some b
      → sum_of w (set xs i c) + w b ≡ sum_of w xs + w c
  sum_of-set w [] i b c e = cc
  sum_of-set w (x ∷ xs) zero b c e = omega (arith, ap w (some-injective e))
  sum_of-set w (x ∷ xs) (suc i) b c e = omega (arith, sum_of-set w xs i b c e)

  pub get_elem?-set_self :
      (xs : List A) (i : ℕ) (b c : A) → get_elem? xs i ≡ some b → get_elem? (set xs i c) i ≡ some c
  get_elem?-set_self [] i b c e = cc
  get_elem?-set_self (x ∷ xs) zero b c e = refl
  get_elem?-set_self (x ∷ xs) (suc i) b c e = get_elem?-set_self xs i b c e

  pub get_elem?-set_ne :
      (xs : List A) (i j : ℕ) (c : A) → i ≢ j → get_elem? (set xs i c) j ≡ get_elem? xs j
  get_elem?-set_ne [] i j c h = refl
  get_elem?-set_ne (x ∷ xs) zero zero c h = absurd (h refl)
  get_elem?-set_ne (x ∷ xs) zero (suc j) c h = refl
  get_elem?-set_ne (x ∷ xs) (suc i) zero c h = refl
  get_elem?-set_ne (x ∷ xs) (suc i) (suc j) c h = get_elem?-set_ne xs i j c (λ e. h (ap suc e))

  pub set_same : (xs : List A) (i : ℕ) (b : A) → get_elem? xs i ≡ some b → set xs i b ≡ xs
  set_same [] i b e = refl
  set_same (x ∷ xs) zero b e = ap {B = List A} (λ y. y ∷ xs) (some-injective (cc e))
  set_same (x ∷ xs) (suc i) b e = ap {B = List A} (λ ys. x ∷ ys) (set_same xs i b e)

  pub set-set : (xs : List A) (i : ℕ) (b c : A) → set (set xs i b) i c ≡ set xs i c
  set-set [] i b c = refl
  set-set (x ∷ xs) zero b c = refl
  set-set (x ∷ xs) (suc i) b c = ap {B = List A} (λ ys. x ∷ ys) (set-set xs i b c)

  -- There is an element at each index below the length.
  pub get_elem?-below : (xs : List A) (i : ℕ) → i < length xs → (b : A) × (get_elem? xs i ≡ some b)
  get_elem?-below [] i h = absurd (omega arith)
  get_elem?-below (x ∷ xs) zero h = (x, refl)
  get_elem?-below (x ∷ xs) (suc i) h = get_elem?-below xs i (omega arith)

  pub get_elem?-inside : (xs : List A) (j : ℕ) (b : A) → get_elem? xs j ≡ some b → j < length xs
  get_elem?-inside [] j b e = cc
  get_elem?-inside (x ∷ xs) zero b e = omega arith
  get_elem?-inside (x ∷ xs) (suc j) b e = omega (arith, get_elem?-inside xs j b e)
