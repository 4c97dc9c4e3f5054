-- ===== src/Pool/Single.antt =====
-- What Reserve answers to a request for one super page, as AllocNewSuperPageSpan makes it.
use native.Mathlib.Decide.{ℕ_discrete}
use partition_alloc.Base.{
  ℕ, ◌+◌, ◌*◌, ◌≤◌, ◌<◌, ◌≡◌, refl, ◌∙◌, inl, inr, Bool, true, false, ◌==◌, if◌then◌else◌, arith,
  Bool-cases,
}
use partition_alloc.Pool.{
  Pool, Found, chunk, no_chunk, out_of_fuel, finish_find, find_chunk, super_page_size, bit_of,
  try_reserve_chunk, reserve,
}
use partition_alloc.Pool.Scan.{Clear}
use partition_alloc.Pool.Find.{IsValid, FirstFit, fits, full, in_range, find_chunk-FirstFit}
use partition_alloc.Pool.Reserve.{
  Attempt, granted, refused, try_reserve_chunk-Attempt, InSpace, reserve-IsValid, begin-find_chunk,
}

-- A pool in use: its hint is right, and its super pages, which do not wrap, begin with number `base`.
pub record Stands (base : ℕ) (p : Pool) : Type 0 where
  pub valid : IsValid p
  pub space : InSpace p
  pub base_pos : 0 < base
  pub base_eq : p.address_begin ≡ base * super_page_size

-- No particular address, one of the super pages of the pool, or the end of the pool.
pub data Asks (p : Pool) (address : ℕ) : Type 0 where
  anywhere : address ≡ 0 → Asks p address
  beside :
      (b : ℕ) → b ≤ p.total_bits → address ≡ p.address_begin + b * super_page_size → Asks p address

-- Exactly one super page that was free is taken, or none is free.
pub data Grants (p : Pool) (r : Pool × ℕ) : Type 0 where
  grants :
      (b : ℕ)
      → b < p.total_bits
      → r.1 ≡ p.address_begin + b * super_page_size
      → p.alloc_bitset b ≡ false
      → ((i : ℕ) → r.0.alloc_bitset i ≡ (if i == b then true else p.alloc_bitset i))
      → Grants p r
  refuses :
      r.1 ≡ 0
      → ((i : ℕ) → i < p.total_bits → p.alloc_bitset i ≡ true)
      → ((i : ℕ) → r.0.alloc_bitset i ≡ p.alloc_bitset i)
      → Grants p r

in_range_one : (b i : ℕ) → in_range b 1 i ≡ (i == b)
in_range_one b i = ground arith

used_of : (bits : ℕ → Bool) (i : ℕ) → ¬ Clear bits i (i + 1) → bits i ≡ true
used_of bits i h = elim (Bool-cases (bits i)) [
  | inl used ↦ used
  | inr free ↦ absurd (h (at i free))
]
  where
    at : (i : ℕ) → bits i ≡ false → Clear bits i (i + 1)
    at i free j l u = elim (ℕ_discrete j i) [
      | yes same ↦ rw same free
      | no other ↦ absurd (omega arith)
    ]

find_chunk-Grants : (p : Pool) → IsValid p → Grants p (find_chunk p super_page_size)
find_chunk-Grants p v =
    one (find_chunk p super_page_size) (find_chunk-FirstFit p super_page_size v (omega arith))
  where
    one : (r : Pool × ℕ) → FirstFit p 1 r → Grants p r
    one r (fits b at room clear first set) =
        grants b (omega arith) at (clear b (omega arith) (omega arith))
          (λ i. set i ∙ rw (in_range_one b i))
    one r (full at none_fits kept) =
        refuses at (λ i h. used_of p.alloc_bitset i (none_fits i (omega arith))) kept

bit_of-at :
    (p : Pool) (b : ℕ)
    → InSpace p
    → 0 < p.address_begin
    → b ≤ p.total_bits
    → bit_of p (p.address_begin + b * super_page_size) ≡ b
unfolding bit_of
bit_of-at p b space pos h = omega arith

-- The super page that is asked for is granted if it is free, and any other one else.
pub reserve-Grants :
    (base : ℕ) (p : Pool) (address : ℕ)
    → Stands base p
    → Asks p address
    → Grants p (reserve p address super_page_size)
unfolding reserve
reserve-Grants base p address s (anywhere e) = rw e (find_chunk-Grants p s.valid)
reserve-Grants base p address s (beside b h e) =
    let pos : 0 < p.address_begin = omega (arith, s.base_pos, s.base_eq) in
    let hinted : (address == 0) ≡ false = ground (arith, pos, e) in
    let at : bit_of p address ≡ b = rw e (bit_of-at p b s.space pos h) in
    rw hinted (
      answer (try_reserve_chunk p address super_page_size)
        (rw at at (try_reserve_chunk-Attempt p address super_page_size)))
  where
    answer :
        (q : Pool × Bool)
        → Attempt p b 1 q
        → Grants p (if q.1 then (q.0, address) else find_chunk q.0 super_page_size)
    answer q (granted yes_ room clear set) = rw yes_ (
        grants b (omega arith) e (clear b (omega arith) (omega arith))
          (λ i. set i ∙ rw (in_range_one b i)))
    answer q (refused no_ same why) = rw (no_, same) (find_chunk-Grants p s.valid)

total-finish_find :
    (p : Pool) (need : ℕ) (r : Found) → (finish_find p need r).0.total_bits ≡ p.total_bits
unfolding finish_find
total-finish_find p need (chunk b h) = refl
total-finish_find p need (no_chunk h) = refl
total-finish_find p need out_of_fuel = refl

total-find_chunk : (p : Pool) (size : ℕ) → (find_chunk p size).0.total_bits ≡ p.total_bits
unfolding find_chunk
total-find_chunk p size = total-finish_find p _ _

abbrev pub SamePlace : Pool → Pool → Type 0
SamePlace p q = (q.address_begin ≡ p.address_begin) × (q.total_bits ≡ p.total_bits)

find_chunk-SamePlace : (p : Pool) (size : ℕ) → SamePlace p (find_chunk p size).0
find_chunk-SamePlace p size = (begin-find_chunk p size, total-find_chunk p size)

try_reserve_chunk-SamePlace :
    (p : Pool) (address size : ℕ) → SamePlace p (try_reserve_chunk p address size).0
unfolding try_reserve_chunk
try_reserve_chunk-SamePlace p address size = ground arith

pub reserve-SamePlace : (p : Pool) (address size : ℕ) → SamePlace p (reserve p address size).0
unfolding reserve
reserve-SamePlace p address size =
    let t = try_reserve_chunk-SamePlace p address size in
    elim (Bool-cases (address == 0)) [
      | inl any ↦ rw any (find_chunk-SamePlace p size)
      | inr hinted ↦ elim (Bool-cases (try_reserve_chunk p address size).1) [
        | inl available ↦ rw (hinted, available) t
        | inr taken ↦
            let f = find_chunk-SamePlace (try_reserve_chunk p address size).0 size in
            rw (hinted, taken) (f.0 ∙ t.0, f.1 ∙ t.1)
      ]
    ]

-- A pool in use stays one.
pub reserve-Stands :
    (base : ℕ) (p : Pool) (address : ℕ)
    → Stands base p
    → Stands base (reserve p address super_page_size).0
reserve-Stands base p address s =
    let same = reserve-SamePlace p address super_page_size in
    record {
      valid = reserve-IsValid p address super_page_size s.valid (omega arith);
      space = omega (arith, same.0, same.1, s.space);
      base_pos = s.base_pos;
      base_eq = same.0 ∙ s.base_eq;
    }
