-- ===== src/SuperPage/Begin.antt =====
-- InitializeSuperPage, for a super page of the pool that was free.
use partition_alloc.Base.{
  ℕ, ◌+◌, ◌*◌, ◌/◌, ◌<◌, ◌≡◌, ◌≢◌, refl, sym, ap, ◌∙◌, inl, inr, Bool, true, false, ◌==◌,
  if◌then◌else◌, Option, none, some, arith, Bool-cases, ==_self, if_true, if_false, subst,
}
use partition_alloc.Bucket.{update}
use partition_alloc.Pool.{Pool, super_page_size}
use partition_alloc.Pool.Single.{Stands, Asks, beside, SamePlace}
use partition_alloc.SuperPage.{
  Pages, PageMetadata, Extent, zeroed, partition_page_size, num_partition_pages_per_super_page,
  begin_super_page, add_extent, link_extent, count_one, initialize_super_page,
}
use partition_alloc.SuperPage.Invariant.{
  page_at, Current, untouched, within, Linked, unlinked, linked, Unowned, Ready,
}

-- The super page `b` of the pool has been taken and is the one that spans are taken from.
pub record Grown (base b : ℕ) (p q : Pages) : Type 0 where
  pub free_before : p.pool.alloc_bitset b ≡ false
  pub next_at : q.next_partition_page ≡ page_at (base + b) 1 * partition_page_size
  pub end_at : q.next_partition_page_end ≡ page_at (base + b) 127 * partition_page_size
  pub metadata :
      (page : ℕ)
      → q.metadata page ≡ (
          if page / num_partition_pages_per_super_page == base + b then zeroed else p.metadata page)
  pub ready : Ready base q

abbrev pub AllUsed : Pool → Type 0
AllUsed p = (i : ℕ) → i < p.total_bits → p.alloc_bitset i ≡ true

-- The root after the new extent has been linked.
abbrev linked_pages : ℕ → Pages → Option ℕ → (ℕ → Extent) → Pages
linked_pages super_page p first extents = record p {
  first_extent = first;
  current_extent = some super_page;
  extents = extents;
}

-- Linking the new extent fails no check.
record LinksExtent (super_page : ℕ) (p : Pages) : Type 0 where
  first : Option ℕ
  extents : ℕ → Extent
  links : add_extent super_page p ≡ some (linked_pages super_page p first extents)
  counted : (extents super_page).number_of_consecutive_super_pages ≡ 1

update_self {ℓ} : {A : Type ℓ} (f : ℕ → A) (i : ℕ) (v : A) → update f i v i ≡ v
update_self f i v = ground arith

update_other {ℓ} :
    {A : Type ℓ} (f : ℕ → A) (i j : ℕ) (v : A) → (j == i) ≡ false → update f i v j ≡ f j
update_other f i j v h = ground arith

counted_one :
    (extents : ℕ → Extent) (x : ℕ) → (count_one x extents x).number_of_consecutive_super_pages ≡ 1
counted_one extents x =
    ap (λ (e : Extent). e.number_of_consecutive_super_pages) (update_self extents x _)

add_extent-LinksExtent : (super_page : ℕ) (p : Pages) → Linked p → LinksExtent super_page p
unfolding add_extent
add_extent-LinksExtent super_page p (unlinked e h) = record {
  first = some super_page;
  extents = count_one super_page p.extents;
  links =
      ap (λ o. link_extent super_page p o p.first_extent) e ∙ ap (link_extent super_page p none) h;
  counted = counted_one p.extents super_page;
}
add_extent-LinksExtent super_page p (linked b used e h) =
    let current = p.pool.address_begin + b * super_page_size in
    let extent = p.extents current in
    let counted : (extent.number_of_consecutive_super_pages == 0) ≡ false = ground (arith, h) in
    let extents = update p.extents current (record extent { next = some super_page }) in
    record {
      first = p.first_extent;
      extents = count_one super_page extents;
      links = ap (λ o. link_extent super_page p o p.first_extent) e ∙ if_false _ _ _ counted;
      counted = counted_one extents super_page;
    }

-- What the pool is after it has granted the super page `b`.
pub record Granted (base b : ℕ) (p : Pages) (pool : Pool) : Type 0 where
  pub same : SamePlace p.pool pool
  pub stands : Stands base pool
  pub room : b < p.pool.total_bits
  pub free : p.pool.alloc_bitset b ≡ false
  pub set : (i : ℕ) → pool.alloc_bitset i ≡ (if i == b then true else p.pool.alloc_bitset i)

abbrev begun : ℕ → Pages → Pool → Pages
begun super_page p pool = begin_super_page super_page 0 (record p { pool = pool })

still_used :
    (b i : ℕ) (before after : ℕ → Bool)
    → ((i : ℕ) → after i ≡ (if i == b then true else before i))
    → before i ≡ true
    → after i ≡ true
still_used b i before after set h = set i ∙ ground arith

apart :
    (begin b c : ℕ) (bits : ℕ → Bool)
    → bits b ≡ false
    → bits c ≡ true
    → (begin + c * super_page_size == begin + b * super_page_size) ≡ false
apart begin b c bits free used = elim (Bool-cases (c == b)) [
  | inl same ↦ let e : c ≡ b = ground arith in cc (free, used, ap bits e)
  | inr other ↦ ground arith
]

begun-Linked :
    (base b : ℕ) (p : Pages) (pool : Pool)
    → Linked p
    → Granted base b p pool
    → Linked (begun (p.pool.address_begin + b * super_page_size) p pool)
unfolding begin_super_page
begun-Linked base b p pool (unlinked e h) g = unlinked e h
begun-Linked base b p pool (linked c used e h) g =
    let at = p.pool.address_begin + c * super_page_size in
    let back : pool.address_begin + c * super_page_size ≡ at = omega (arith, g.same.0) in
    let kept =
      update_other p.extents (p.pool.address_begin + b * super_page_size) at
        (record { number_of_consecutive_super_pages = 0; next = none })
        (apart p.pool.address_begin b c p.pool.alloc_bitset g.free used) in
    linked c (still_used b c p.pool.alloc_bitset pool.alloc_bitset g.set used)
      (e ∙ ap (λ x. some x) (sym back))
      (subst
        (λ x.
          (update p.extents (p.pool.address_begin + b * super_page_size)
            (record { number_of_consecutive_super_pages = 0; next = none })
            x).number_of_consecutive_super_pages
          ≢ 0)
        (sym back) (subst (λ (x : Extent). x.number_of_consecutive_super_pages ≢ 0) (sym kept) h))

Current-linked :
    (base super_page : ℕ) (p : Pages) (first : Option ℕ) (extents : ℕ → Extent)
    → Current base p
    → Current base (linked_pages super_page p first extents)
Current-linked base super_page p first extents (untouched e h) = untouched e h
Current-linked base super_page p first extents (within b t used l u at end_at free) =
    within b t used l u at end_at free

module _ (base b : ℕ) (p : Pages) (pool : Pool) (v : Ready base p) (g : Granted base b p pool) where
  abbrev pub new_page : ℕ
  new_page = p.pool.address_begin + b * super_page_size

  number_lem : new_page / super_page_size ≡ base + b
  number_lem = omega (arith, v.stands.base_eq)

  begun-metadata :
      (page : ℕ)
      → (begun new_page p pool).metadata page ≡ (
          if page / num_partition_pages_per_super_page == base + b then zeroed else p.metadata page)
  unfolding begin_super_page
  begun-metadata page =
      ap (λ n. if page / num_partition_pages_per_super_page == n then zeroed else p.metadata page)
        number_lem

  begun-Unowned : Unowned base (begun new_page p pool)
  unfolding begin_super_page
  begun-Unowned c page free at =
      ap (λ (x : PageMetadata). x.is_valid) (begun-metadata page)
      ∙ elim (Bool-cases (page / num_partition_pages_per_super_page == base + b)) [
        | inl new ↦ rw new refl
        | inr other ↦ rw other (v.unowned c page (ground (arith, g.set c)) at)
      ]

  begun-Current : Current base (begun new_page p pool)
  unfolding begin_super_page
  begun-Current =
      within b 1 (g.set b ∙ if_true _ _ _ (==_self b)) (omega arith) (omega arith)
        (omega (arith, v.stands.base_eq)) (omega (arith, v.stands.base_eq))
        (λ page l u.
          let at : (page / num_partition_pages_per_super_page == base + b) ≡ true = ground arith in
          ap (λ (x : PageMetadata). x.is_valid) (begun-metadata page ∙ if_true _ _ _ at))

  begun-Asks : Asks pool (begun new_page p pool).next_super_page
  unfolding begin_super_page
  begun-Asks = beside (b + 1) (omega (arith, g.room, g.same.1)) (omega (arith, g.same.0))

  pool_page : pool.address_begin + b * super_page_size ≡ new_page
  pool_page = omega (arith, g.same.0)

  initialized : LinksExtent new_page (begun new_page p pool)
  initialized =
      add_extent-LinksExtent new_page (begun new_page p pool)
        (begun-Linked base b p pool v.extents_linked g)

  pub grown_pages : Pages
  grown_pages = linked_pages new_page (begun new_page p pool) initialized.first initialized.extents

  pub new_page-pos : (new_page == 0) ≡ false
  new_page-pos = ground (arith, v.stands.base_eq, v.stands.base_pos)

  pub initialize_super_page_lem :
      initialize_super_page new_page 0 (record p { pool = pool }) ≡ some grown_pages
  unfolding initialize_super_page grown_pages
  initialize_super_page_lem = if_false _ _ _ new_page-pos ∙ initialized.links

  grown_pages-Ready : Ready base grown_pages
  unfolding grown_pages begin_super_page
  grown_pages-Ready = record {
    stands = g.stands;
    asks = begun-Asks;
    current = Current-linked base new_page _ _ _ begun-Current;
    extents_linked =
        linked b (g.set b ∙ if_true _ _ _ (==_self b)) (ap (λ x. some x) (sym pool_page)) (
          subst (λ x. (initialized.extents x).number_of_consecutive_super_pages ≢ 0) (sym pool_page)
            (λ e. absurd (omega (arith, e, initialized.counted))));
    unowned = begun-Unowned;
  }

  pub grown_pages-Grown : Grown base b p grown_pages
  unfolding grown_pages begin_super_page
  grown_pages-Grown = record {
    free_before = g.free;
    next_at = omega (arith, v.stands.base_eq);
    end_at = omega (arith, v.stands.base_eq);
    metadata = begun-metadata;
    ready = grown_pages-Ready;
  }
