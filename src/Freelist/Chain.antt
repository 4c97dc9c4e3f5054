-- ===== src/Freelist/Chain.antt =====
-- A freelist in memory, linked by SetNext and walked by GetNext of encoded_next_freelist.h.
use partition_alloc.Base.{
  ==_self, ==_of, leb_of, ℕ, suc, ◌+◌, ◌^◌, ◌≤◌, ◌<◌, ◌≡◌, ◌≢◌, refl, sym, ap, ◌∙◌, inl, inr, Bool,
  false, ◌||◌, ◌==◌, List, [], ◌∷◌, length, Bool-cases, arith,
}
use partition_alloc.Freelist.{
  Entry, Memory, Result, value, crash, transform, inverted, write, make_entry, super_page,
  super_page_offset, partition_page_size, set_next, is_encoded_next_ptr_zero, is_well_formed,
  get_next_internal, get_next, visits, check_free_list,
}

pub transform_involutive : (a : ℕ) → a < 2 ^ 64 → transform (transform a) ≡ a
unfolding transform
transform_involutive a h = omega arith

pub transform_bound : (a : ℕ) → a < 2 ^ 64 → transform a < 2 ^ 64
unfolding transform
transform_bound a h = omega arith

pub transform_zero : transform 0 ≡ 0
unfolding transform
transform_zero = refl

pub transform-pos : (a : ℕ) → a < 2 ^ 64 → a ≢ 0 → (transform a == 0) ≡ false
transform-pos a h n = elim (Bool-cases (transform a == 0)) [
  | inr pos ↦ pos
  | inl null ↦
      let e : transform a ≡ 0 = ground (arith, null) in
      absurd (n (sym (transform_involutive a h) ∙ ap transform e ∙ transform_zero))
]

-- Addresses of slots of one super page.
abbrev pub InPage : ℕ → ℕ → Type 0
InPage page a = (super_page a ≡ page) × (partition_page_size ≤ super_page_offset a) × (a < 2 ^ 64)

abbrev pub AllInPage : ℕ → List ℕ → Type 0
AllInPage page [] = Unit {0}
AllInPage page (x ∷ xs) = InPage page x × AllInPage page xs

abbrev pub contains : ℕ → List ℕ → Bool
contains a [] = false
contains a (x ∷ xs) = (x == a) || contains a xs

abbrev pub Distinct : List ℕ → Type 0
Distinct [] = Unit {0}
Distinct (x ∷ xs) = (contains x xs ≡ false) × Distinct xs

abbrev pub head_of : List ℕ → ℕ
head_of [] = 0
head_of (x ∷ xs) = x

get_next-null : (here : ℕ) (m : Memory) → get_next here (write m here (make_entry 0)) ≡ value 0
unfolding get_next get_next_internal is_encoded_next_ptr_zero
get_next-null here m = ground (arith, transform_zero)

pub get_next-entry :
    (page here next : ℕ) (m : Memory)
    → InPage page here
    → InPage page next
    → get_next here (write m here (make_entry next)) ≡ value next
unfolding get_next get_next_internal is_encoded_next_ptr_zero is_well_formed make_entry
get_next-entry page here next m (h, _, _) (n, off, low) =
    rw
      (
        ==_self here,
        transform-pos next low (λ e. omega (arith, off)),
        ==_self (inverted (transform next)),
        transform_involutive next low,
        ==_of (super_page here) (super_page next) (h ∙ sym n),
        leb_of partition_page_size (super_page_offset next) off,
      )
      refl

-- What GetNext says of an address depends on its own entry only.
get_next-apart :
    (here a : ℕ) (e : Entry) (m : Memory)
    → (here == a) ≡ false
    → get_next here (write m a e) ≡ get_next here m
unfolding get_next get_next_internal is_encoded_next_ptr_zero is_well_formed
get_next-apart here a e m other = rw other refl

-- Each entry of the list leads to the one after it, and the last one to null.
abbrev pub Chain : ℕ → List ℕ → Memory → Type 0
Chain page [] m = Unit {0}
Chain page (x ∷ xs) m = InPage page x × (get_next x m ≡ value (head_of xs)) × Chain page xs m

Chain-write :
    (page : ℕ) (xs : List ℕ) (a : ℕ) (e : Entry) (m : Memory)
    → contains a xs ≡ false
    → Chain page xs m
    → Chain page xs (write m a e)
Chain-write page [] a e m out c = tt
Chain-write page (x ∷ xs) a e m out (p, n, c) = elim (Bool-cases (x == a)) [
  | inl same ↦ cc (rw same at out)
  | inr other ↦ (p, get_next-apart x a e m other ∙ n, Chain-write page xs a e m (rw other at out) c)
]

-- SetNext on a new head of a list of its super page does not crash, and the list is then longer.
abbrev pub Pushes : ℕ → List ℕ → Result Memory → Type 0
Pushes page xs (value m) = Chain page xs m
Pushes page xs crash = ⊥

set_next-Pushes :
    (page x : ℕ) (xs : List ℕ) (m : Memory)
    → InPage page x
    → contains x xs ≡ false
    → Chain page xs m
    → Pushes page (x ∷ xs) (set_next x (head_of xs) m)
unfolding set_next
set_next-Pushes page x [] m p out c = (p, get_next-null x m, tt)
set_next-Pushes page x (y ∷ ys) m p out (q, n, c) =
    let live : (y == 0) ≡ false = ground (arith, q.1) in
    rw (live, ==_of (super_page x) (super_page y) (p.0 ∙ sym q.0))
      (p, get_next-entry page x y m p q, Chain-write page (y ∷ ys) x (make_entry y) m out (q, n, c))

-- The list is linked from its last entry on, as freeing its slots in turn does.
pub link : List ℕ → Memory → Result Memory
unfolding set_next
link [] m = value m
link (x ∷ xs) m = elim (link xs m) [ value m' ↦ set_next x (head_of xs) m' | crash ↦ crash ]

link-Pushes :
    (page : ℕ) (xs : List ℕ) (m : Memory)
    → AllInPage page xs
    → Distinct xs
    → Pushes page xs (link xs m)
unfolding link
link-Pushes page [] m p d = tt
link-Pushes page (x ∷ xs) m p d = finish (link xs m) (link-Pushes page xs m p.1 d.1)
  where
    finish :
        (r : Result Memory)
        → Pushes page xs r
        → Pushes page (x ∷ xs) (elim r [ value m' ↦ set_next x (head_of xs) m' | crash ↦ crash ])
    finish (value m') c = set_next-Pushes page x xs m' p.0 d.0 c
    finish crash c = c

check_free_list-Chain :
    (page : ℕ) (xs : List ℕ) (m : Memory)
    → Chain page xs m
    → check_free_list (length xs + 1) (head_of xs) m ≡ visits xs
unfolding check_free_list
check_free_list-Chain page [] m c = refl
check_free_list-Chain page (x ∷ xs) m (p, n, c) =
    let fuel : length (x ∷ xs) + 1 ≡ suc (length xs + 1) = omega arith in
    let live : (x == 0) ≡ false = ground (arith, p.1) in
    rw (fuel, live, n, check_free_list-Chain page xs m c) refl

abbrev pub Links : List ℕ → Result Memory → Type 0
Links xs (value m) = check_free_list (length xs + 1) (head_of xs) m ≡ visits xs
Links xs crash = ⊥

-- Distinct slots of one super page, outside its metadata page, that SetNext links into a freelist one
-- after the other, never set off the check of SetNext, and CheckFreeList then visits these slots, in
-- their order and no other, and stops, whatever the memory was before.
pub link-Links :
    (page : ℕ) (xs : List ℕ) (m : Memory) → AllInPage page xs → Distinct xs → Links xs (link xs m)
link-Links page xs m p d = finish (link xs m) (link-Pushes page xs m p d)
  where
    finish : (r : Result Memory) → Pushes page xs r → Links xs r
    finish (value m') c = check_free_list-Chain page xs m' c
    finish crash c = c
