-- ===== src/SuperPage/Grow.antt =====
-- What AllocNewSuperPage does where the pages of a root are ready.
use partition_alloc.Base.{
  ◌>>=◌, ℕ, ◌+◌, ◌*◌, ◌≡◌, ◌≢◌, refl, sym, ap, ◌∙◌, Bool, true, false, some, arith, if_false, subst,
}
use partition_alloc.Pool.{Pool, super_page_size, reserve}
use partition_alloc.Pool.Single.{
  Stands, Asks, anywhere, beside, Grants, grants, refuses, reserve-Grants, reserve-Stands,
  SamePlace, reserve-SamePlace,
}
use partition_alloc.SuperPage.{
  Pages, Outcome, ok, null, out_of_memory, crash, initialize_loop, initialize_span, with_reserved,
  alloc_new_super_page, payload_of, or_crash,
}
use partition_alloc.SuperPage.Invariant.{
  Current, untouched, within, Linked, unlinked, linked, Ready,
}
use partition_alloc.SuperPage.Begin.{
  Grown, AllUsed, Granted, new_page-pos, initialize_super_page_lem, grown_pages-Grown,
}

-- How AllocNewSuperPage ends: with the payload of a super page of the pool that was free, or, only
-- where the pool has none left, with a null pointer if that was asked for and out of memory if not.
abbrev pub Grows : ℕ → Bool → Pages → Outcome ℕ → Type 0
Grows base return_null p (ok payload q) = (b : ℕ) × Grown base b p q
Grows base return_null p (null q) =
    (return_null ≡ true)
    × AllUsed p.pool
    × Ready base q
    × (q.next_partition_page ≡ p.next_partition_page)
    × (q.metadata ≡ p.metadata)
Grows base return_null p out_of_memory = (return_null ≡ false) × AllUsed p.pool
Grows base return_null p crash = ⊥

Granted-Grows :
    (base b : ℕ) (return_null : Bool) (p : Pages) (pool : Pool)
    → Ready base p
    → Granted base b p pool
    → Grows base return_null p (
        payload_of
          (with_reserved 1 return_null p (pool, p.pool.address_begin + b * super_page_size)))
unfolding with_reserved initialize_span initialize_loop
Granted-Grows base b return_null p pool v g =
    subst (λ o. Grows base return_null p (payload_of o))
      (sym (
        if_false _ _ _ (new_page-pos base b p pool v g)
        ∙ ap
            (λ o. or_crash (p.pool.address_begin + b * super_page_size) (
              o
              >>= initialize_loop 0 (p.pool.address_begin + b * super_page_size + super_page_size)))
            (initialize_super_page_lem base b p pool v g)))
      (b, grown_pages-Grown base b p pool v g)

module _ (base : ℕ) (p : Pages) (pool : Pool) (same : SamePlace p.pool pool)
    (kept : (i : ℕ) → pool.alloc_bitset i ≡ p.pool.alloc_bitset i) where
  moved-Asks : (a : ℕ) → Asks p.pool a → Asks pool a
  moved-Asks a (anywhere e) = anywhere e
  moved-Asks a (beside b h e) = beside b (omega (arith, same.1)) (omega (arith, same.0))

  moved-Current : Current base p → Current base (record p { pool = pool })
  moved-Current (untouched e h) = untouched e h
  moved-Current (within b t used l u at end_at free) = within b t (kept b ∙ used) l u at end_at free

  moved-Linked : Linked p → Linked (record p { pool = pool })
  moved-Linked (unlinked e h) = unlinked e h
  moved-Linked (linked b used e h) =
      let at : p.pool.address_begin + b * super_page_size
          ≡ pool.address_begin + b * super_page_size =
        omega (arith, same.0) in
      linked b (kept b ∙ used) (e ∙ ap (λ x. some x) at)
        (subst (λ x. (p.extents x).number_of_consecutive_super_pages ≢ 0) at h)

  -- Only the hint of the pool has changed.
  moved-Ready : Ready base p → Stands base pool → Ready base (record p { pool = pool })
  moved-Ready v stands = record {
    stands = stands;
    asks = moved-Asks p.next_super_page v.asks;
    current = moved-Current v.current;
    extents_linked = moved-Linked v.extents_linked;
    unowned = λ b page free at. v.unowned b page (sym (kept b) ∙ free) at;
  }

refused-Grows :
    (base : ℕ) (return_null : Bool) (p : Pages) (pool : Pool)
    → Ready base p
    → SamePlace p.pool pool
    → Stands base pool
    → AllUsed p.pool
    → ((i : ℕ) → pool.alloc_bitset i ≡ p.pool.alloc_bitset i)
    → Grows base return_null p (payload_of (with_reserved 1 return_null p (pool, 0)))
unfolding with_reserved
refused-Grows base false p pool v same stands used kept = (refl, used)
refused-Grows base true p pool v same stands used kept =
    (refl, used, moved-Ready base p pool same kept v stands, refl, refl)

-- On ready pages AllocNewSuperPage fails no check.
pub alloc_new_super_page-Grows :
    (base : ℕ) (return_null : Bool) (p : Pages)
    → Ready base p
    → Grows base return_null p (alloc_new_super_page return_null p)
unfolding alloc_new_super_page
alloc_new_super_page-Grows base return_null p v =
    answer (reserve p.pool p.next_super_page super_page_size)
      (reserve-Grants base p.pool p.next_super_page v.stands v.asks)
      (reserve-SamePlace p.pool p.next_super_page super_page_size)
      (reserve-Stands base p.pool p.next_super_page v.stands)
  where
    answer :
        (r : Pool × ℕ)
        → Grants p.pool r
        → SamePlace p.pool r.0
        → Stands base r.0
        → Grows base return_null p (payload_of (with_reserved 1 return_null p r))
    answer (pool, a) (grants b room at free set) same stands =
        subst (λ x. Grows base return_null p (payload_of (with_reserved 1 return_null p (pool, x))))
          (sym at)
          (Granted-Grows base b return_null p pool v
            (record { same = same; stands = stands; room = room; free = free; set = set }))
    answer (pool, a) (refuses at used kept) same stands =
        subst (λ x. Grows base return_null p (payload_of (with_reserved 1 return_null p (pool, x))))
          (sym at) (refused-Grows base return_null p pool v same stands used kept)
