-- ===== src/Registry/Links/Chain.antt =====
-- The linked list of the caches stands for a list.
use partition_alloc.Base.{
  ℕ, ◌≡◌, ◌≢◌, refl, sym, ap, ◌∙◌, subst, true, false, ◌==◌, if◌then◌else◌, Option, none, some,
  List, [], ◌∷◌, arith,
}
use partition_alloc.Registry.Links.{Absent, Field, Links, write, write_if, register_thread_cache}

abbrev pub first_of : List ℕ → Option ℕ
first_of [] = none
first_of (x ∷ xs) = some x

abbrev pub last_of : Option ℕ → List ℕ → Option ℕ
last_of from [] = from
last_of from (x ∷ xs) = last_of (some x) xs

abbrev pub Distinct : List ℕ → Type 0
Distinct [] = Unit {0}
Distinct (x ∷ xs) = Absent x xs × Distinct xs

-- The fields of the caches of a list that follows `from`.
abbrev pub Chain : Field → Field → Option ℕ → List ℕ → Type 0
Chain next prev from [] = Unit {0}
Chain next prev from (x ∷ xs) =
    (prev x ≡ from) × ((next x ≡ first_of xs) × Chain next prev (some x) xs)

pub record Represents (l : Links) (xs : List ℕ) : Type 0 where
  pub head : l.list_head ≡ first_of xs
  pub chain : Chain l.next l.prev none xs
  pub distinct : Distinct xs

pub write_self : (f : Field) (c : ℕ) (v : Option ℕ) → write f c v c ≡ v
write_self f c v = ap (λ t. if t then v else f c) (same c)
  where
    same : (c : ℕ) → (c == c) ≡ true
    same c = ground arith

pub write_other : (f : Field) (c j : ℕ) (v : Option ℕ) → c ≢ j → write f c v j ≡ f j
write_other f c j v h = ap (λ t. if t then v else f j) (differ c j h)
  where
    differ : (c j : ℕ) → c ≢ j → (c == j) ≡ false
    differ c j h = ground (arith, h)

pub Chain-write_next :
    (next prev : Field) (from : Option ℕ) (xs : List ℕ) (c : ℕ) (v : Option ℕ)
    → Absent c xs
    → Chain next prev from xs
    → Chain (write next c v) prev from xs
Chain-write_next next prev from [] c v a h = tt
Chain-write_next next prev from (x ∷ xs) c v a h = (
  h.0,
  (write_other next c x v a.0 ∙ h.1.0, Chain-write_next next prev (some x) xs c v a.1 h.1.1),
)

pub Chain-write_prev :
    (next prev : Field) (from : Option ℕ) (xs : List ℕ) (c : ℕ) (v : Option ℕ)
    → Absent c xs
    → Chain next prev from xs
    → Chain next (write prev c v) from xs
Chain-write_prev next prev from [] c v a h = tt
Chain-write_prev next prev from (x ∷ xs) c v a h = (
  write_other prev c x v a.0 ∙ h.0,
  (h.1.0, Chain-write_prev next prev (some x) xs c v a.1 h.1.1),
)

-- The first cache of a list gets another one before it.
pub Chain-write_first :
    (next prev : Field) (from from' : Option ℕ) (xs : List ℕ)
    → Distinct xs
    → Chain next prev from xs
    → Chain next (write_if prev (first_of xs) from') from' xs
Chain-write_first next prev from from' [] d h = tt
Chain-write_first next prev from from' (x ∷ xs) d h =
    (write_self prev x from', (h.1.0, Chain-write_prev next prev (some x) xs x from' d.0 h.1.1))

-- RegisterThreadCache puts a new cache at the front of the list.
pub register_thread_cache-Represents :
    (l : Links) (xs : List ℕ) (c : ℕ)
    → Represents l xs
    → Absent c xs
    → Represents (register_thread_cache c l) (c ∷ xs)
unfolding register_thread_cache
register_thread_cache-Represents l xs c r a = record {
  head = refl;
  chain = (
    prev_none xs r.head a,
    (
      write_self (write l.next c none) c l.list_head ∙ r.head,
      subst
          (λ o.
            Chain (write (write l.next c none) c l.list_head)
              (write_if (write l.prev c none) o (some c)) (some c) xs)
          (sym r.head)
          (Chain-write_first (write (write l.next c none) c l.list_head) (write l.prev c none) none
            (some c) xs r.distinct
            (Chain-write_next (write l.next c none) (write l.prev c none) none xs c l.list_head a (
              Chain-write_next l.next (write l.prev c none) none xs c none a
                (Chain-write_prev l.next l.prev none xs c none a r.chain)))),
    ),
  );
  distinct = (a, r.distinct);
}
  where
    prev_none :
        (xs : List ℕ)
        → l.list_head ≡ first_of xs
        → Absent c xs
        → write_if (write l.prev c none) l.list_head (some c) c ≡ none
    prev_none xs e a = ap (λ o. write_if (write l.prev c none) o (some c) c) e ∙ alone xs a
      where
        alone :
            (xs : List ℕ)
            → Absent c xs
            → write_if (write l.prev c none) (first_of xs) (some c) c ≡ none
        alone [] a = write_self l.prev c none
        alone (x ∷ xs) a =
            write_other (write l.prev c none) x c (some c) (λ e. a.0 (sym e))
            ∙ write_self l.prev c none
