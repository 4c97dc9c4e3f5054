-- ===== src/Alloc/Lists.antt =====
-- A predicate on every element of a list, through the filters by which the walks are described.
use mathlib.Core.List.{head-eq_of_cons-eq}
use partition_alloc.Base.{
  ℕ, ◌≡◌, ◌∙◌, sym, inl, inr, Bool, true, List, [], ◌∷◌, ◌++◌, Bool-cases, if_true, if_false, subst,
}
use partition_alloc.Bucket.Visit.{keep, push_all, before, from}
use partition_alloc.Bucket.Sweep.{first, others}

abbrev pub All : (ℕ → Type 0) → List ℕ → Type 0
All P [] = Unit {0}
All P (x ∷ xs) = P x × All P xs

pub All-push_all : (P : ℕ → Type 0) (xs ys : List ℕ) → All P xs → All P ys → All P (push_all xs ys)
All-push_all P [] ys h k = k
All-push_all P (x ∷ xs) ys h k = All-push_all P xs (x ∷ ys) h.1 (h.0, k)

pub All-from : (P : ℕ → Type 0) (p : ℕ → Bool) (xs : List ℕ) → All P xs → All P (from p xs)
All-from P p [] h = tt
All-from P p (x ∷ xs) h = elim (Bool-cases (p x)) [
  | inl here ↦ subst (All P) (sym (if_true _ _ _ here)) h
  | inr later ↦ subst (All P) (sym (if_false _ _ _ later)) (All-from P p xs h.1)
]

pub from-head :
    (p : ℕ → Bool) (xs : List ℕ) (x : ℕ) (rest : List ℕ) → from p xs ≡ x ∷ rest → p x ≡ true
from-head p [] x rest e = cc
from-head p (y ∷ ys) x rest e = elim (Bool-cases (p y)) [
  | inl here ↦ subst (λ z. p z ≡ true) (head-eq_of_cons-eq (sym (if_true _ _ _ here) ∙ e)) here
  | inr later ↦ from-head p ys x rest (sym (if_false _ _ _ later) ∙ e)
]

pub All-keep : (P : ℕ → Type 0) (p : ℕ → Bool) (xs : List ℕ) → All P xs → All P (keep p xs)
All-keep P p [] h = tt
All-keep P p (x ∷ xs) h = elim (Bool-cases (p x)) [
  | inl here ↦ subst (All P) (sym (if_true _ _ _ here)) (h.0, All-keep P p xs h.1)
  | inr out ↦ subst (All P) (sym (if_false _ _ _ out)) (All-keep P p xs h.1)
]

-- What a filter keeps passes its test.
pub keep-All : (p : ℕ → Bool) (xs : List ℕ) → All (λ x. p x ≡ true) (keep p xs)
keep-All p [] = tt
keep-All p (x ∷ xs) = elim (Bool-cases (p x)) [
  | inl here ↦ subst (All (λ y. p y ≡ true)) (sym (if_true _ _ _ here)) (here, keep-All p xs)
  | inr out ↦ subst (All (λ y. p y ≡ true)) (sym (if_false _ _ _ out)) (keep-All p xs)
]

pub All-before : (P : ℕ → Type 0) (p : ℕ → Bool) (xs : List ℕ) → All P xs → All P (before p xs)
All-before P p [] h = tt
All-before P p (x ∷ xs) h = elim (Bool-cases (p x)) [
  | inl here ↦ subst (All P) (sym (if_true _ _ _ here)) tt
  | inr later ↦ subst (All P) (sym (if_false _ _ _ later)) (h.0, All-before P p xs h.1)
]

All-append : (P : ℕ → Type 0) (xs ys : List ℕ) → All P xs → All P ys → All P (xs ++ ys)
All-append P [] ys h k = k
All-append P (x ∷ xs) ys h k = (h.0, All-append P xs ys h.1 k)

All-first : (P : ℕ → Type 0) (xs : List ℕ) → All P xs → All P (first xs)
All-first P [] h = tt
All-first P (x ∷ xs) h = (h.0, tt)

All-others : (P : ℕ → Type 0) (xs : List ℕ) → All P xs → All P (others xs)
All-others P [] h = tt
All-others P (x ∷ xs) h = h.1

pub All-reordered :
    (P : ℕ → Type 0) (xs kept : List ℕ)
    → All P xs
    → All P kept
    → All P (first xs ++ (kept ++ others xs))
All-reordered P xs kept h k =
    All-append P (first xs) (kept ++ others xs) (All-first P xs h)
      (All-append P kept (others xs) k (All-others P xs h))

pub All-both :
    (P Q R : ℕ → Type 0) (xs : List ℕ)
    → ((x : ℕ) → P x → Q x → R x)
    → All P xs
    → All Q xs
    → All R xs
All-both P Q R [] f h k = tt
All-both P Q R (x ∷ xs) f h k = (f x h.0 k.0, All-both P Q R xs f h.1 k.1)

pub All-map : (P Q : ℕ → Type 0) (xs : List ℕ) → ((x : ℕ) → P x → Q x) → All P xs → All Q xs
All-map P Q [] f h = tt
All-map P Q (x ∷ xs) f h = (f x h.0, All-map P Q xs f h.1)
