-- ===== src/Pool/Find.antt =====
-- FindChunk is first fit, and fails only where nothing fits.
use partition_alloc.Base.{
  ℕ, zero, suc, ◌+◌, ◌-◌, ◌*◌, ◌/◌, ◌≤◌, ◌<◌, ◌≡◌, refl, ◌∙◌, subst, inl, inr, Bool, true, false,
  ◌&&◌, ltb, leb, ◌==◌, if◌then◌else◌, arith, Bool-cases, ltb→lt, ltb→le,
}
use native.Mathlib.Decide.{dec_lt}
use partition_alloc.Pool.{
  Pool, Search, scan, Found, chunk, no_chunk, out_of_fuel, find_loop, finish_find, search_chunk,
  find_chunk, set_bits, reset_bits, super_page_size,
}
use partition_alloc.Pool.Scan.{AllSet, Clear, Clear-join, Scanned, scan-Scanned}

-- No `need` clear bits in a row begin before `b`.
abbrev pub NoRun : (ℕ → Bool) → ℕ → ℕ → Type 0
NoRun bits need b = (j : ℕ) → j < b → ¬ Clear bits j (j + need)

-- No such run ends by `total`.
abbrev pub NoRoom : (ℕ → Bool) → ℕ → ℕ → Type 0
NoRoom bits need total = (j : ℕ) → j + need ≤ total → ¬ Clear bits j (j + need)

abbrev FindsFirst : (ℕ → Bool) → ℕ → ℕ → Found → Type 0
FindsFirst bits total need (chunk b h) =
    AllSet bits h × (b + need ≤ total) × Clear bits b (b + need) × NoRun bits need b
FindsFirst bits total need (no_chunk h) = AllSet bits h × NoRoom bits need total
FindsFirst bits total need out_of_fuel = ⊥

blocked :
    (bits : ℕ → Bool) (j need p : ℕ)
    → j ≤ p
    → p < j + need
    → bits p ≡ true
    → ¬ Clear bits j (j + need)
blocked bits j need p l u e c = cc (e, c p l u)

module _ (bits : ℕ → Bool) (total need : ℕ) (pos : 0 < need) where
  NoRun-step :
      (beg b : ℕ)
      → NoRun bits need beg
      → 0 < b
      → b ≤ beg + need
      → bits (b - 1) ≡ true
      → NoRun bits need b
  NoRun-step beg b none_before pos u e j h = elim (dec_lt j beg) [
    | yes p ↦ none_before j p
    | no p ↦ blocked bits j need (b - 1) (omega arith) (omega arith) e
  ]

  NoRoom-NoRun : (b : ℕ) → NoRun bits need b → total < b + need → NoRoom bits need total
  NoRoom-NoRun b none_before h j fits = none_before j (omega arith)

  -- One round of the outer loop, with the rest of the search as a hypothesis.
  round-FindsFirst :
      (rest : ℕ → ℕ → Found) (beg curr : ℕ) (s : Search)
      → curr ≤ beg + need
      → beg ≤ curr
      → Clear bits beg curr
      → NoRun bits need beg
      → Scanned bits curr beg (beg + need) s
      → beg + need ≤ total
      → ((b h : ℕ)
          → beg < b
          → b ≤ beg + need
          → Clear bits b (beg + need)
          → NoRun bits need b
          → AllSet bits h
          → FindsFirst bits total need (rest b h))
      → FindsFirst bits total need (if s.found then chunk s.beg s.hint else rest s.beg s.hint)
  round-FindsFirst rest beg curr s u l c none_before v fits ih = elim v.seen [
    | inl (found, b, clear) ↦
        rw (found, b)
          (v.hint_full, fits, Clear-join bits beg curr (beg + need) c clear, none_before)
    | inr (found, after, below, set_bit, clear) ↦ rw found (
        ih s.beg s.hint (omega arith) below clear
          (NoRun-step beg s.beg none_before (omega arith) below set_bit) v.hint_full)
  ]

  find_loop-FindsFirst :
      (fuel beg curr hint : ℕ)
      → total - beg < fuel
      → beg ≤ curr
      → curr ≤ beg + need
      → Clear bits beg curr
      → NoRun bits need beg
      → AllSet bits hint
      → FindsFirst bits total need (find_loop fuel bits total need beg curr hint)
  unfolding find_loop
  find_loop-FindsFirst zero beg curr hint f l u c none_before full = absurd (omega arith)
  find_loop-FindsFirst (suc fuel) beg curr hint f l u c none_before full =
      elim (Bool-cases (ltb total (beg + need))) [
        | inl past ↦ rw past (full, NoRoom-NoRun beg none_before (ltb→lt _ _ past))
        | inr room ↦ rw room (
            round-FindsFirst (λ b h. find_loop fuel bits total need b (beg + need) h) beg curr _ u l
              c none_before scanned (ltb→le _ _ room)
              λ b h after below clear none_before full.
                find_loop-FindsFirst fuel b (beg + need) h
                  (omega (arith, ltb→le total (beg + need) room)) below (omega arith) clear
                  none_before full)
      ]
    where
      scanned :
          Scanned bits curr beg
            (beg + need)
            (scan bits (beg + need - curr) curr (record { beg = beg; hint = hint; found = true }))
      scanned =
          subst
            (λ k. Scanned bits curr beg k (
              scan bits (beg + need - curr) curr (record { beg = beg; hint = hint; found = true })))
            (omega arith)
            (scan-Scanned bits curr beg (beg + need - curr) curr _ (omega arith)
              (record { hint_full = full; seen = inl (refl, refl, λ i l u. absurd (omega arith)) }))

-- The hint's promise: every bit before it is set.
pub record IsValid (p : Pool) : Type 0 where
  pub hint_full : AllSet p.alloc_bitset p.bit_hint

abbrev pub in_range : ℕ → ℕ → ℕ → Bool
in_range beg n i = leb beg i && ltb i (beg + n)

pub set_bits_lem :
    (n beg : ℕ) (bits : ℕ → Bool) (i : ℕ)
    → set_bits n beg bits i ≡ (if in_range beg n i then true else bits i)
unfolding set_bits
set_bits_lem zero beg bits i = ground arith
set_bits_lem (suc n) beg bits i =
    set_bits_lem n (beg + 1) (λ i. if i == beg then true else bits i) i ∙ ground arith

pub reset_bits_lem :
    (n beg : ℕ) (bits : ℕ → Bool) (i : ℕ)
    → reset_bits n beg bits i ≡ (if in_range beg n i then false else bits i)
unfolding reset_bits
reset_bits_lem zero beg bits i = ground arith
reset_bits_lem (suc n) beg bits i =
    reset_bits_lem n (beg + 1) (λ i. if i == beg then false else bits i) i ∙ ground arith

-- What FindChunk promises of its outcome: the first run, now set and nothing else changed; or 0, and
-- no bit changed.
pub data FirstFit (p : Pool) (need : ℕ) (r : Pool × ℕ) : Type 0 where
  fits :
      (b : ℕ)
      → r.1 ≡ p.address_begin + b * super_page_size
      → b + need ≤ p.total_bits
      → Clear p.alloc_bitset b (b + need)
      → NoRun p.alloc_bitset need b
      → ((i : ℕ) → r.0.alloc_bitset i ≡ (if in_range b need i then true else p.alloc_bitset i))
      → FirstFit p need r
  full :
      r.1 ≡ 0
      → NoRoom p.alloc_bitset need p.total_bits
      → ((i : ℕ) → r.0.alloc_bitset i ≡ p.alloc_bitset i)
      → FirstFit p need r

search_chunk-FindsFirst :
    (p : Pool) (need : ℕ)
    → IsValid p
    → 0 < need
    → FindsFirst p.alloc_bitset p.total_bits need (search_chunk p need)
unfolding search_chunk
search_chunk-FindsFirst p need v pos =
    find_loop-FindsFirst p.alloc_bitset p.total_bits need pos (suc p.total_bits) p.bit_hint
      p.bit_hint p.bit_hint (omega arith) (omega arith) (omega arith)
      (λ i l u. absurd (omega arith))
      (λ j h. blocked p.alloc_bitset j need j (omega arith) (omega arith) (v.hint_full j h))
      v.hint_full

finish_find-FirstFit :
    (p : Pool) (need : ℕ) (r : Found)
    → FindsFirst p.alloc_bitset p.total_bits need r
    → FirstFit p need (finish_find p need r)
unfolding finish_find
finish_find-FirstFit p need (chunk b h) (_, room, clear, first) =
    fits b refl room clear first (set_bits_lem need b p.alloc_bitset)
finish_find-FirstFit p need (no_chunk h) (_, none_fits) = full refl none_fits (λ i. refl)
finish_find-FirstFit p need out_of_fuel impossible = absurd impossible

-- On a pool whose hint is right and for a request of at least one super page, FindChunk ends with
-- either the lowest run of free super pages that is long enough and inside the pool, which it marks
-- as used and nothing else, or with 0 and an unchanged bitset, and then no such run exists.
pub find_chunk-FirstFit :
    (p : Pool) (requested_size : ℕ)
    → IsValid p
    → super_page_size ≤ requested_size
    → FirstFit p (requested_size / super_page_size) (find_chunk p requested_size)
unfolding find_chunk
find_chunk-FirstFit p requested_size v h =
    finish_find-FirstFit p _ _ (search_chunk-FindsFirst p _ v (omega arith))

finish_find-IsValid :
    (p : Pool) (need : ℕ) (r : Found)
    → IsValid p
    → FindsFirst p.alloc_bitset p.total_bits need r
    → IsValid (finish_find p need r).0
unfolding finish_find
finish_find-IsValid p need (chunk b h) v (hint_full, room, clear, first) = record {
  hint_full = λ i u. set_bits_lem need b p.alloc_bitset i ∙ kept i u;
}
  where
    kept :
        (i : ℕ)
        → i < (if h == b then b + need else h)
        → (if in_range b need i then true else p.alloc_bitset i) ≡ true
    kept i u = elim (dec_lt i h) [
      | yes below ↦ rw (hint_full i below) (ground arith)
      | no above ↦ ground arith
    ]
finish_find-IsValid p need (no_chunk h) v (hint_full, _) = record { hint_full = hint_full }
finish_find-IsValid p need out_of_fuel v impossible = v

pub find_chunk-IsValid :
    (p : Pool) (requested_size : ℕ)
    → IsValid p
    → super_page_size ≤ requested_size
    → IsValid (find_chunk p requested_size).0
unfolding find_chunk
find_chunk-IsValid p requested_size v h =
    finish_find-IsValid p _ _ v (search_chunk-FindsFirst p _ v (omega arith))
