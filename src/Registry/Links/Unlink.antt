-- ===== src/Registry/Links/Unlink.antt =====
-- UnregisterThreadCache takes one cache out of the list.
use partition_alloc.Base.{
  ℕ, ◌≡◌, ◌≢◌, refl, sym, ap, ◌∙◌, subst, true, false, ◌==◌, if◌then◌else◌, Option, none, some,
  List, [], ◌∷◌, ◌++◌, arith,
}
use partition_alloc.Registry.Links.{
  Absent, Field, Links, write_if, is_head, unregister_thread_cache,
}
use partition_alloc.Registry.Links.Chain.{
  first_of, last_of, Distinct, Chain, Represents, write_self, write_other, Chain-write_next,
  Chain-write_first,
}

-- The pointer is to none of the caches of a list.
abbrev Outside : Option ℕ → List ℕ → Type 0
Outside none xs = Unit {0}
Outside (some f) xs = Absent f xs

Absent-left : (x : ℕ) (ys zs : List ℕ) → Absent x (ys ++ zs) → Absent x ys
Absent-left x [] zs a = tt
Absent-left x (y ∷ ys) zs a = (a.0, Absent-left x ys zs a.1)

Absent-right : (x : ℕ) (ys zs : List ℕ) → Absent x (ys ++ zs) → Absent x zs
Absent-right x [] zs a = a
Absent-right x (y ∷ ys) zs a = Absent-right x ys zs a.1

Absent-append : (x : ℕ) (ys zs : List ℕ) → Absent x ys → Absent x zs → Absent x (ys ++ zs)
Absent-append x [] zs a b = b
Absent-append x (y ∷ ys) zs a b = (a.0, Absent-append x ys zs a.1 b)

-- A write to the last cache of a list leaves the others alone.
write_last :
    (next : Field) (y y' : ℕ) (ys : List ℕ) (v : Option ℕ)
    → y' ≢ y
    → Absent y ys
    → write_if next (last_of (some y') ys) v y ≡ next y
write_last next y y' [] v h a = write_other next y' y v h
write_last next y y' (x ∷ ys) v h a = write_last next y x ys v (λ e. a.0 (sym e)) a.1

write_first_other :
    (prev : Field) (y : ℕ) (zs : List ℕ) (v : Option ℕ)
    → Absent y zs
    → write_if prev (first_of zs) v y ≡ prev y
write_first_other prev y [] v a = refl
write_first_other prev y (z ∷ zs) v a = write_other prev z y v (λ e. a.0 (sym e))

Chain-write_if :
    (next prev : Field) (from from' : Option ℕ) (xs : List ℕ) (v : Option ℕ)
    → Outside from' xs
    → Chain next prev from xs
    → Chain (write_if next from' v) prev from xs
Chain-write_if next prev from none xs v o h = h
Chain-write_if next prev from (some f) xs v o h = Chain-write_next next prev from xs f v o h

-- What the fields of a cache in the list are.
fields_of :
    (next prev : Field) (from : Option ℕ) (ys : List ℕ) (c : ℕ) (zs : List ℕ)
    → Chain next prev from (ys ++ (c ∷ zs))
    → (prev c ≡ last_of from ys) × (next c ≡ first_of zs)
fields_of next prev from [] c zs h = (h.0, h.1.0)
fields_of next prev from (y ∷ ys) c zs h = fields_of next prev (some y) ys c zs h.1.1

-- The two writes around a cache that is taken out.
unlink :
    (next prev : Field) (from : Option ℕ) (ys : List ℕ) (c : ℕ) (zs : List ℕ)
    → Chain next prev from (ys ++ (c ∷ zs))
    → Distinct (ys ++ (c ∷ zs))
    → Outside from (ys ++ (c ∷ zs))
    → Chain
        (write_if next (last_of from ys) (first_of zs))
        (write_if prev (first_of zs) (last_of from ys))
        from
        (ys ++ zs)
unlink next prev from [] c zs h d o =
    Chain-write_first (write_if next from (first_of zs)) prev (some c) from zs d.1
      (Chain-write_if next prev (some c) from zs (first_of zs) (rest from o) h.1.1)
  where
    rest : (from : Option ℕ) → Outside from (c ∷ zs) → Outside from zs
    rest none o = tt
    rest (some f) o = o.1
unlink next prev from (y ∷ ys) c zs h d o = (
  write_first_other prev y zs (last_of (some y) ys) (Absent-right y ys (c ∷ zs) d.0).1 ∙ h.0,
  (next_of ys h.1.0 d.0, unlink next prev (some y) ys c zs h.1.1 d.1 d.0),
)
  where
    next_of :
        (ys : List ℕ)
        → next y ≡ first_of (ys ++ (c ∷ zs))
        → Absent y (ys ++ (c ∷ zs))
        → write_if next (last_of (some y) ys) (first_of zs) y ≡ first_of (ys ++ zs)
    next_of [] e a = write_self next y (first_of zs)
    next_of (x ∷ ys) e a =
        write_last next y x ys (first_of zs) (λ same. a.0 (sym same))
          (Absent-left y ys (c ∷ zs) a.1)
        ∙ e

Distinct-without :
    (ys : List ℕ) (c : ℕ) (zs : List ℕ) → Distinct (ys ++ (c ∷ zs)) → Distinct (ys ++ zs)
Distinct-without [] c zs d = d.1
Distinct-without (y ∷ ys) c zs d = (
  Absent-append y ys zs (Absent-left y ys (c ∷ zs) d.0) (Absent-right y ys (c ∷ zs) d.0).1,
  Distinct-without ys c zs d.1,
)

Absent-before : (ys : List ℕ) (c : ℕ) (zs : List ℕ) → Distinct (ys ++ (c ∷ zs)) → Absent c ys
Absent-before [] c zs d = tt
Absent-before (y ∷ ys) c zs d =
    (λ e. (Absent-right y ys (c ∷ zs) d.0).0 (sym e), Absent-before ys c zs d.1)

-- The first write does not change the `next` of the cache itself.
next_stays :
    (next : Field) (ys : List ℕ) (c : ℕ) (v : Option ℕ)
    → Absent c ys
    → write_if next (last_of none ys) v c ≡ next c
next_stays next [] c v a = refl
next_stays next (y ∷ ys) c v a = write_last next c y ys v (λ e. a.0 (sym e)) a.1

-- The new head of the list.
head_of :
    (ys : List ℕ) (c : ℕ) (zs : List ℕ)
    → Absent c ys
    → (if is_head (first_of (ys ++ (c ∷ zs))) c then first_of zs else first_of (ys ++ (c ∷ zs)))
      ≡ first_of (ys ++ zs)
head_of [] c zs a = ap (λ t. if t then first_of zs else some c) (same c)
  where
    same : (c : ℕ) → (c == c) ≡ true
    same c = ground arith
head_of (y ∷ ys) c zs a =
    ap (λ t. if t then first_of zs else some y) (differ y c (λ e. a.0 (sym e)))
  where
    differ : (c j : ℕ) → c ≢ j → (c == j) ≡ false
    differ c j h = ground (arith, h)

-- UnregisterThreadCache takes the cache out of the list, wherever it stands, and keeps the others in
-- their order.
pub unregister_thread_cache-Represents :
    (l : Links) (ys : List ℕ) (c : ℕ) (zs : List ℕ)
    → Represents l (ys ++ (c ∷ zs))
    → Represents (unregister_thread_cache c l) (ys ++ zs)
unfolding unregister_thread_cache
unregister_thread_cache-Represents l ys c zs r =
    let (before, after) = fields_of l.next l.prev none ys c zs r.chain in
    let absent = Absent-before ys c zs r.distinct in
    let next_same : write_if l.next (l.prev c) (l.next c) c ≡ first_of zs =
      ap (λ o. write_if l.next o (l.next c) c) before
      ∙ (next_stays l.next ys c (l.next c) absent ∙ after) in
    let chain = unlink l.next l.prev none ys c zs r.chain r.distinct tt in
    record {
      head =
          ap (λ o. if is_head l.list_head c then o else l.list_head) next_same
          ∙ (ap (λ h. if is_head h c then first_of zs else h) r.head ∙ head_of ys c zs absent);
      chain =
          subst
            (λ o.
              Chain (write_if l.next (l.prev c) (l.next c)) (write_if l.prev o (l.prev c)) none
                (ys ++ zs))
            (sym next_same)
            (subst
              (λ o.
                Chain (write_if l.next o (l.next c)) (write_if l.prev (first_of zs) o) none
                  (ys ++ zs))
              (sym before)
              (subst
                (λ o.
                  Chain (write_if l.next (last_of none ys) o)
                    (write_if l.prev (first_of zs) (last_of none ys)) none (ys ++ zs))
                (sym after) chain));
      distinct = Distinct-without ys c zs r.distinct;
    }
