-- ===== src/Freelist/Corrupt.antt =====
-- What GetNext of encoded_next_freelist.h makes of an entry that was overwritten, and of one that the
-- thread cache has written.
use partition_alloc.Base.{
  ==_self, leb_of, ℕ, ◌^◌, ◌≤◌, ◌<◌, ◌≡◌, ◌≢◌, refl, sym, ap, ◌∙◌, ◌⊎◌, inl, inr, Bool, false, not,
  ◌&&◌, ◌==◌, if◌then◌else◌, Bool-cases, arith,
}
use partition_alloc.Freelist.{
  Entry, Memory, Result, value, crash, transform, inverted, write, make_entry, super_page,
  super_page_offset, partition_page_size, set_next, is_encoded_next_ptr_zero, is_well_formed,
  get_next_internal, get_next, get_next_for_thread_cache, emplace_and_init_for_thread_cache,
}
use partition_alloc.Freelist.Chain.{
  transform_involutive, transform_bound, transform-pos, transform_zero,
}

==_apart : (a b : ℕ) → a ≢ b → (a == b) ≡ false
==_apart a b n = elim (Bool-cases (a == b)) [
  | inr other ↦ other
  | inl same ↦ absurd (n (ground (arith, same)))
]

entry-set_next :
    (here next : ℕ) (m : Memory) {m' : Memory}
    → set_next here next m ≡ value m'
    → m' here ≡ make_entry next
unfolding set_next
entry-set_next here next m {m'} e =
    elim (Bool-cases (not (next == 0) && not (super_page here == super_page next))) [
      | inl apart ↦ cc (rw apart at e)
      | inr near ↦
          let same : write m here (make_entry next) ≡ m' = value-injective (rw near at e) in
          sym (ap (λ f. f here) same)
          ∙ ap (λ b. if b then make_entry next else m here) (==_self here)
    ]
  where
    value-injective : {a b : Memory} → Path (Result Memory) (value a) (value b) → a ≡ b
    value-injective p = ap (λ r. elim r [ value a ↦ a | crash ↦ m ]) p

overwritten-crash :
    (here v : ℕ) (e : Entry) (m : Memory)
    → v ≢ 0
    → inverted v ≢ e.shadow
    → get_next here (write m here (record e { encoded_next = v })) ≡ crash
unfolding get_next get_next_internal is_encoded_next_ptr_zero is_well_formed
overwritten-crash here v e m live wrong =
    rw (==_self here, ==_apart v 0 live, ==_apart (inverted v) e.shadow wrong) refl

-- Where SetNext has written an entry and then its first word alone is overwritten, by whatever word
-- but the old one and 0, GetNext does not follow it: it reports the corruption.
pub get_next-overwritten :
    (here next v : ℕ) (m : Memory) {m' : Memory}
    → next < 2 ^ 64
    → v < 2 ^ 64
    → set_next here next m ≡ value m'
    → v ≢ 0
    → v ≢ (m' here).encoded_next
    → get_next here (write m' here (record (m' here) { encoded_next = v })) ≡ crash
unfolding transform make_entry
get_next-overwritten here next v m {m'} low word e live new =
    let at_here = entry-set_next here next m e in
    overwritten-crash here v (m' here) m' live (λ same. new (
      inverted-injective v (transform next) word (transform_bound next low)
        (same ∙ ap (λ x. x.shadow) at_here)
      ∙ sym (ap (λ x. x.encoded_next) at_here)))
  where
    inverted-injective : (a b : ℕ) → a < 2 ^ 64 → b < 2 ^ 64 → inverted a ≡ inverted b → a ≡ b
    inverted-injective a b h k p = omega arith

-- An entry that the thread cache has written leads to the slot it was given, of whatever super page,
-- if this is null or lies outside the metadata page, also where a corruption would not crash.
pub get_next_for_thread_cache-emplace :
    (crash_on_corruption : Bool) (here next : ℕ) (m : Memory)
    → next < 2 ^ 64
    → (next ≡ 0) ⊎ (partition_page_size ≤ super_page_offset next)
    → get_next_for_thread_cache crash_on_corruption here
        (emplace_and_init_for_thread_cache here next m)
      ≡ value next
unfolding get_next_for_thread_cache get_next_internal is_encoded_next_ptr_zero is_well_formed
    emplace_and_init_for_thread_cache make_entry
get_next_for_thread_cache-emplace crash_on_corruption here next m low (inl null) =
    rw (==_self here, null, transform_zero) refl
get_next_for_thread_cache-emplace crash_on_corruption here next m low (inr off) =
    rw
      (
        ==_self here,
        transform-pos next low (λ e. omega (arith, off)),
        ==_self (inverted (transform next)),
        transform_involutive next low,
        leb_of partition_page_size (super_page_offset next) off,
      )
      refl
