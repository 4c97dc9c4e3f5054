-- ===== src/Pool/Reserve.antt =====
-- TryReserveChunk, FreeChunk and Reserve: which requests are granted, and that freeing what was
-- granted gives the bitset back.
use partition_alloc.Base.{
  ℕ, zero, suc, ◌+◌, ◌*◌, ◌/◌, ◌^◌, ◌≤◌, ◌<◌, ◌≡◌, ◌≢◌, refl, ◌∙◌, sym, ap, ◌⊎◌, inl, inr, Bool,
  true, false, ltb, ◌==◌, if◌then◌else◌, arith, Bool-cases, ltb→lt, ltb→le, some, List, [], ◌∷◌,
}
use native.Mathlib.Decide.{ℕ_discrete}
use partition_alloc.Pool.{
  Pool, Found, chunk, no_chunk, out_of_fuel, finish_find, find_chunk, reset_bits, super_page_size,
  any_set, bit_of, try_reserve_chunk, free_chunk, reserve, unreserve, initialize,
}
use partition_alloc.Pool.Scan.{Clear}
use partition_alloc.Pool.Find.{
  IsValid, FirstFit, fits, full, in_range, set_bits_lem, reset_bits_lem, find_chunk-FirstFit,
  find_chunk-IsValid,
}

any_set-Clear :
    (n beg : ℕ) (bits : ℕ → Bool) → any_set n beg bits ≡ false → Clear bits beg (beg + n)
unfolding any_set
any_set-Clear zero beg bits h i l u = absurd (omega arith)
any_set-Clear (suc n) beg bits h i l u = elim (ℕ_discrete i beg) [
  | yes p ↦ rw p (ground arith)
  | no p ↦ any_set-Clear n (beg + 1) bits (ground arith) i (omega arith) (omega arith)
]

Clear-any_set :
    (n beg : ℕ) (bits : ℕ → Bool) → Clear bits beg (beg + n) → any_set n beg bits ≡ false
unfolding any_set
Clear-any_set zero beg bits c = refl
Clear-any_set (suc n) beg bits c =
    rw (c beg (omega arith) (omega arith))
      (Clear-any_set n (beg + 1) bits (λ i l u. c i (omega arith) (omega arith)))

-- What TryReserveChunk promises: it grants exactly the runs that are inside the pool and free.
pub data Attempt (p : Pool) (b need : ℕ) (r : Pool × Bool) : Type 0 where
  granted :
      r.1 ≡ true
      → b + need ≤ p.total_bits
      → Clear p.alloc_bitset b (b + need)
      → ((i : ℕ) → r.0.alloc_bitset i ≡ (if in_range b need i then true else p.alloc_bitset i))
      → Attempt p b need r
  refused :
      r.1 ≡ false
      → r.0 ≡ p
      → (p.total_bits < b + need) ⊎ (¬ Clear p.alloc_bitset b (b + need))
      → Attempt p b need r

-- TryReserveChunk marks the requested super pages as used and nothing else, if they lie inside the
-- pool and are all free; in every other case it returns false and leaves the pool as it was.
pub try_reserve_chunk-Attempt :
    (p : Pool) (address requested_size : ℕ)
    → Attempt p
        (bit_of p address)
        (requested_size / super_page_size)
        (try_reserve_chunk p address requested_size)
unfolding try_reserve_chunk
try_reserve_chunk-Attempt p address requested_size =
    let b = bit_of p address in
    let need = requested_size / super_page_size in
    elim (Bool-cases (ltb p.total_bits (b + need))) [
      | inl past ↦ rw past (refused refl refl (inl (ltb→lt _ _ past)))
      | inr room ↦ elim (Bool-cases (any_set need b p.alloc_bitset)) [
        | inl used ↦
            rw (room, used)
              (refused refl refl (inr λ c. cc (used, Clear-any_set need b p.alloc_bitset c)))
        | inr clear ↦
            rw (room, clear)
              (granted refl (ltb→le _ _ room) (any_set-Clear need b p.alloc_bitset clear)
                (set_bits_lem need b p.alloc_bitset))
      ]
    ]

-- The pool's addresses do not wrap.
abbrev pub InSpace : Pool → Type 0
InSpace p = p.address_begin + p.total_bits * super_page_size ≤ 2 ^ 64

pub bit_of_lem :
    (p : Pool) (b : ℕ)
    → InSpace p
    → b < p.total_bits
    → bit_of p (p.address_begin + b * super_page_size) ≡ b
unfolding bit_of
bit_of_lem p b space h = omega arith

-- Clearing what was set gives the bits back, if they were clear.
reset_set :
    (bits after : ℕ → Bool) (b n : ℕ)
    → Clear bits b (b + n)
    → ((i : ℕ) → after i ≡ (if in_range b n i then true else bits i))
    → (i : ℕ) → reset_bits n b after i ≡ bits i
reset_set bits after b n clear set i =
    reset_bits_lem n b after i ∙ elim (Bool-cases (in_range b n i)) [
      | inl inside ↦ rw inside (sym (clear i (ground arith) (ground arith)))
      | inr outside ↦ rw outside (set i ∙ rw outside)
    ]

begin-finish_find :
    (p : Pool) (need : ℕ) (r : Found) → (finish_find p need r).0.address_begin ≡ p.address_begin
unfolding finish_find
begin-finish_find p need (chunk b h) = refl
begin-finish_find p need (no_chunk h) = refl
begin-finish_find p need out_of_fuel = refl

pub begin-find_chunk : (p : Pool) (size : ℕ) → (find_chunk p size).0.address_begin ≡ p.address_begin
unfolding find_chunk
begin-find_chunk p size = begin-finish_find p _ _

bit_of-begin : (p q : Pool) (a : ℕ) → q.address_begin ≡ p.address_begin → bit_of q a ≡ bit_of p a
unfolding bit_of
bit_of-begin p q a e = rw e

bits-free_chunk :
    (q : Pool) (a size b i : ℕ)
    → bit_of q a ≡ b
    → (free_chunk q a size).alloc_bitset i ≡ reset_bits (size / super_page_size) b q.alloc_bitset i
unfolding free_chunk
bits-free_chunk q a size b i e = rw e

freed :
    (p : Pool) (size : ℕ) (r : Pool × ℕ)
    → InSpace p
    → super_page_size ≤ size
    → r.0.address_begin ≡ p.address_begin
    → FirstFit p (size / super_page_size) r
    → r.1 ≢ 0
    → (i : ℕ) → (free_chunk r.0 r.1 size).alloc_bitset i ≡ p.alloc_bitset i
freed p size (q, a) space h same (fits b at room clear first set) got i =
    bits-free_chunk q a size b i
      (bit_of-begin p q a same ∙ ap (bit_of p) at ∙ bit_of_lem p b space (omega arith))
    ∙ reset_set p.alloc_bitset q.alloc_bitset b (size / super_page_size) clear set i
freed p size (q, a) space h same (full at none_fits kept) got i = absurd (got at)

-- Freeing a chunk that FindChunk has just returned gives back the bitset as it was before, on a pool
-- whose hint is right and whose addresses do not wrap.
pub free_chunk-find_chunk :
    (p : Pool) (requested_size : ℕ)
    → IsValid p
    → InSpace p
    → super_page_size ≤ requested_size
    → (find_chunk p requested_size).1 ≢ 0
    → let (q, address) = find_chunk p requested_size in
      (free_chunk q address requested_size).alloc_bitset ≡ p.alloc_bitset
free_chunk-find_chunk p requested_size v space h got =
    let given = find_chunk-FirstFit p requested_size v h in
    let kept = begin-find_chunk p requested_size in
    λ i x. freed p requested_size (find_chunk p requested_size) space h kept given got x i

-- The calls on a pool, by the address pool manager.
pub data Call : Type 0 where
  reserves : ℕ → ℕ → Call
  unreserves : ℕ → ℕ → Call

pub step : Pool → Call → Pool
step p (reserves address size) = (reserve p address size).0
step p (unreserves address size) = unreserve p address size

pub run : Pool → List Call → Pool
run p [] = p
run p (c ∷ cs) = run (step p c) cs

-- A reservation asks for a super page at least.
abbrev pub IsRequest : Call → Type 0
IsRequest (reserves address size) = super_page_size ≤ size
IsRequest (unreserves address size) = Unit {0}

abbrev pub AreRequests : List Call → Type 0
AreRequests [] = Unit {0}
AreRequests (c ∷ cs) = IsRequest c × AreRequests cs

hint-initialize :
    (p : Pool) (ptr size : ℕ) {q : Pool} → initialize p ptr size ≡ some q → q.bit_hint ≡ 0
unfolding initialize
hint-initialize p ptr size e = ground arith

initialize-IsValid :
    (p : Pool) (ptr size : ℕ) {q : Pool} → initialize p ptr size ≡ some q → IsValid q
initialize-IsValid p ptr size e = record {
  hint_full = λ i u. absurd (omega (arith, hint-initialize p ptr size e));
}

try_reserve_chunk-IsValid :
    (p : Pool) (address size : ℕ) → IsValid p → IsValid (try_reserve_chunk p address size).0
unfolding try_reserve_chunk
try_reserve_chunk-IsValid p address size v =
    let b = bit_of p address in
    let need = size / super_page_size in
    elim (Bool-cases (ltb p.total_bits (b + need))) [
      | inl past ↦ rw past (record { hint_full = v.hint_full })
      | inr room ↦ elim (Bool-cases (any_set need b p.alloc_bitset)) [
        | inl used ↦ rw (room, used) (record { hint_full = v.hint_full })
        | inr clear ↦
            rw (room, clear)
              (record {
                hint_full = λ i u.
                    set_bits_lem need b p.alloc_bitset i ∙ rw (v.hint_full i u) (ground arith);
              })
      ]
    ]

free_chunk-IsValid : (p : Pool) (address size : ℕ) → IsValid p → IsValid (free_chunk p address size)
unfolding free_chunk
free_chunk-IsValid p address size v = record {
  hint_full = λ i u.
      reset_bits_lem (size / super_page_size) (bit_of p address) p.alloc_bitset i
      ∙ (rw (v.hint_full i (omega arith)) (ground arith));
}

pub reserve-IsValid :
    (p : Pool) (address size : ℕ)
    → IsValid p
    → super_page_size ≤ size
    → IsValid (reserve p address size).0
unfolding reserve
reserve-IsValid p address size v h =
    let q = try_reserve_chunk p address size in
    let w = try_reserve_chunk-IsValid p address size v in
    elim (Bool-cases (address == 0)) [
      | inl any ↦ rw any (find_chunk-IsValid p size v h)
      | inr hinted ↦ elim (Bool-cases q.1) [
        | inl available ↦ rw (hinted, available) w
        | inr taken ↦ rw (hinted, taken) (find_chunk-IsValid q.0 size w h)
      ]
    ]

step-IsValid : (p : Pool) (c : Call) → IsValid p → IsRequest c → IsValid (step p c)
unfolding step unreserve
step-IsValid p (reserves address size) v h = reserve-IsValid p address size v h
step-IsValid p (unreserves address size) v h = free_chunk-IsValid p address size v

run-IsValid : (p : Pool) (cs : List Call) → IsValid p → AreRequests cs → IsValid (run p cs)
unfolding run
run-IsValid p [] v h = v
run-IsValid p (c ∷ cs) v h = run-IsValid (step p c) cs (step-IsValid p c v h.0) h.1

-- From its initialization on, whatever is reserved (a super page at least) and unreserved, in
-- whatever order, the pool's hint is right: every super page before it is in use.
pub run-initialize-IsValid :
    (p : Pool) (ptr size : ℕ) (cs : List Call) {q : Pool}
    → initialize p ptr size ≡ some q
    → AreRequests cs
    → IsValid (run q cs)
run-initialize-IsValid p ptr size cs {q} e h = run-IsValid q cs (initialize-IsValid p ptr size e) h
