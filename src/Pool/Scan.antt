-- ===== src/Pool/Scan.antt =====
-- The inner loop of FindChunk.
use partition_alloc.Base.{
  ℕ, zero, suc, ◌+◌, ◌-◌, ◌≤◌, ◌<◌, ◌≡◌, refl, subst, ◌⊎◌, inl, inr, Bool, true, false, ◌==◌,
  if◌then◌else◌, arith, Bool-cases,
}
use native.Mathlib.Decide.{dec_lt, ℕ_discrete}
use partition_alloc.Pool.{Search, visit, scan}

abbrev pub AllSet : (ℕ → Bool) → ℕ → Type 0
AllSet bits n = (i : ℕ) → i < n → bits i ≡ true

abbrev pub Clear : (ℕ → Bool) → ℕ → ℕ → Type 0
Clear bits lo hi = (i : ℕ) → lo ≤ i → i < hi → bits i ≡ false

pub Clear-snoc :
    (bits : ℕ → Bool) (lo hi : ℕ) → Clear bits lo hi → bits hi ≡ false → Clear bits lo (hi + 1)
Clear-snoc bits lo hi c e i l u = elim (ℕ_discrete i hi) [
  | yes p ↦ rw p e
  | no p ↦ c i l (omega arith)
]

pub Clear-join :
    (bits : ℕ → Bool) (lo mid hi : ℕ) → Clear bits lo mid → Clear bits mid hi → Clear bits lo hi
Clear-join bits lo mid hi c d i l u = elim (dec_lt i mid) [
  | yes p ↦ c i l p
  | no p ↦ d i (omega arith) u
]

AllSet-snoc : (bits : ℕ → Bool) (n : ℕ) → AllSet bits n → bits n ≡ true → AllSet bits (n + 1)
AllSet-snoc bits n a e i u = elim (ℕ_discrete i n) [ yes p ↦ rw p e | no p ↦ a i (omega arith) ]

-- What the loop knows when it has read the bits from `c0` up to `curr`, having started at the
-- candidate `b0`: either none of them is set, or the last one that is stands just before `beg`.
pub record Scanned (bits : ℕ → Bool) (c0 b0 curr : ℕ) (s : Search) : Type 0 where
  pub hint_full : AllSet bits s.hint
  pub seen :
      ((s.found ≡ true) × (s.beg ≡ b0) × Clear bits c0 curr)
      ⊎ ((s.found ≡ false)
          × (c0 < s.beg)
          × (s.beg ≤ curr)
          × (bits (s.beg - 1) ≡ true)
          × Clear bits s.beg curr)

module _ (bits : ℕ → Bool) (c0 b0 curr : ℕ) (c0_le : c0 ≤ curr) {s : Search}
    (v : Scanned bits c0 b0 curr s) where
  visit_set : bits curr ≡ true → Scanned bits c0 b0 (curr + 1) (visit bits curr s)
  unfolding visit
  visit_set e =
      rw (e, visit)
        (record {
          hint_full = hint_full;
          seen = inr (refl, omega arith, omega arith, last, λ i l u. absurd (omega arith));
        })
    where
      hint_full : AllSet bits (if s.hint == curr then s.hint + 1 else s.hint)
      hint_full = elim (Bool-cases (s.hint == curr)) [
        | inl q ↦
            rw q (AllSet-snoc bits s.hint v.hint_full (subst (λ k. bits k ≡ true) (ground arith) e))
        | inr q ↦ rw q v.hint_full
      ]

      last : bits (curr + 1 - 1) ≡ true
      last = subst (λ k. bits k ≡ true) (omega arith) e

  visit_clear : bits curr ≡ false → Scanned bits c0 b0 (curr + 1) (visit bits curr s)
  unfolding visit
  visit_clear e =
      rw (e, visit)
        (record {
          hint_full = v.hint_full;
          seen = elim v.seen [
            | inl (f, b, c) ↦ inl (f, b, Clear-snoc bits c0 curr c e)
            | inr (f, b, u, l, c) ↦ inr (f, b, omega arith, l, Clear-snoc bits s.beg curr c e)
          ];
        })

pub scan-Scanned :
    (bits : ℕ → Bool) (c0 b0 n curr : ℕ) (s : Search)
    → c0 ≤ curr
    → Scanned bits c0 b0 curr s
    → Scanned bits c0 b0 (curr + n) (scan bits n curr s)
unfolding scan
scan-Scanned bits c0 b0 zero curr s h v = subst (λ k. Scanned bits c0 b0 k s) (omega arith) v
scan-Scanned bits c0 b0 (suc n) curr s h v =
    subst (λ k. Scanned bits c0 b0 k (scan bits n (curr + 1) (visit bits curr s))) (omega arith)
      (scan-Scanned bits c0 b0 n (curr + 1) (visit bits curr s) (omega arith)
        (elim (Bool-cases (bits curr)) [
          | inl e ↦ visit_set bits c0 b0 curr h v e
          | inr e ↦ visit_clear bits c0 b0 curr h v e
        ]))
