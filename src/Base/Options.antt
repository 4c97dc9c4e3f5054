-- ===== src/Base/Options.antt =====
-- A chain of steps that may fail.
use mathlib.Core.Option.{Option, none, some}
use mathlib.Core.Path.{◌≡◌, refl}
use mathlib.Core.Bool.{Bool, true, false}
use partition_alloc.Base.Tests.{if◌then◌else◌}

infixl 5 ◌>>=◌
abbrev pub ◌>>=◌ {ℓ κ} : {A : Type ℓ} {B : Type κ} → Option A → (A → Option B) → Option B
none >>= f = none
some a >>= f = f a

-- A failed check ends the chain.
abbrev pub check {ℓ} : {A : Type ℓ} → Bool → Option A → Option A
check true k = k
check false k = none

-- The chain ends well, and in a value for which `P` holds.
abbrev pub Returns {ℓ} : {A : Type ℓ} → (A → Type 0) → Option A → Type 0
Returns P none = ⊥
Returns P (some a) = P a

pub >>=-Returns {ℓ} :
    {A : Type ℓ} {B : Type ℓ} (P : A → Type 0) (Q : B → Type 0) (m : Option A) (f : A → Option B)
    → Returns P m
    → ((a : A) → P a → Returns Q (f a))
    → Returns Q (m >>= f)
>>=-Returns P Q none f h k = absurd h
>>=-Returns P Q (some a) f h k = k a h

-- A step that is known to give a value.
pub some->>= {ℓ} :
    {A : Type ℓ} {B : Type ℓ} (Q : B → Type 0) (m : Option A) (a : A) (f : A → Option B)
    → m ≡ some a
    → Returns Q (f a)
    → Returns Q (m >>= f)
some->>= Q m a f e h = rw e h

-- A chain that goes on in one of two ways.
pub if-Returns {ℓ} :
    {A : Type ℓ} (P : A → Type 0) (c : Bool) (a b : Option A)
    → (c ≡ true → Returns P a)
    → (c ≡ false → Returns P b)
    → Returns P (if c then a else b)
if-Returns P true a b h k = h refl
if-Returns P false a b h k = k refl
