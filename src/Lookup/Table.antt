-- ===== src/Lookup/Table.antt =====
-- The tables of BucketIndexLookup, checked entry by entry.
use partition_alloc.Base.{
  ℕ, zero, suc, ◌+◌, ◌-◌, ◌*◌, ◌^◌, ◌≤◌, ◌<◌, ◌≡◌, refl, sym, ap, ◌∙◌, inl, inr, ◌⊎◌, Bool, true,
  false, ◌&&◌, ◌||◌, ◌==◌, ltb, leb, if◌then◌else◌, Option, none, some, List, [], ◌∷◌, length,
  get_elem?, get_or, leb→le, ltb→lt, arith,
}
use partition_alloc.Lookup.{bucket_sizes, bucket_index_lookup, num_buckets, max_bucketed}

-- The number of buckets with a size.
abbrev pub valid_buckets : ℕ
valid_buckets = 111

abbrev pub all_below : ℕ → (ℕ → Bool) → Bool
all_below zero f = true
all_below (suc n) f = f n && all_below n f

&&-left : (a b : Bool) → (a && b) ≡ true → a ≡ true
&&-left true b e = refl
&&-left false b e = cc

&&-right : (a b : Bool) → (a && b) ≡ true → b ≡ true
&&-right true b e = e
&&-right false b e = cc

pub all_below-get : (n : ℕ) (f : ℕ → Bool) → all_below n f ≡ true → (i : ℕ) → i < n → f i ≡ true
all_below-get zero f e i h = absurd (omega arith)
all_below-get (suc n) f e i h = elim (last i n h) [
  | inl same ↦ ap f same ∙ &&-left (f n) (all_below n f) e
  | inr less ↦ all_below-get n f (&&-right (f n) (all_below n f) e) i less
]
  where
    last : (i n : ℕ) → i < suc n → (i ≡ n) ⊎ (i < n)
    last i n h = ground (arith, h)

table_of : Option (List ℕ) → List ℕ
table_of none = []
table_of (some t) = t

pub table : List ℕ
unfolding bucket_index_lookup table_of
table = table_of bucket_index_lookup

-- The constructor fails no check.
pub bucket_index_lookup-table : bucket_index_lookup ≡ some table
unfolding table
bucket_index_lookup-table = refl

abbrev pub size_at : ℕ → ℕ
size_at i = get_or bucket_sizes i 0

abbrev pub index_at : ℕ → ℕ
index_at k = get_or table k 0

length-table : length table ≡ 521
unfolding table
length-table = refl

get_elem?-get_or : (xs : List ℕ) (k : ℕ) → k < length xs → get_elem? xs k ≡ some (get_or xs k 0)
get_elem?-get_or [] k h = absurd (omega arith)
get_elem?-get_or (x ∷ xs) zero h = refl
get_elem?-get_or (x ∷ xs) (suc k) h = get_elem?-get_or xs k (omega arith)

pub get_elem?-table : (k : ℕ) → k < 521 → get_elem? table k ≡ some (index_at k)
get_elem?-table k h = get_elem?-get_or table k (omega (arith, length-table))

increases : ℕ → Bool
unfolding bucket_sizes
increases i = ltb (size_at i) (size_at (i + 1))

all_increase : all_below (valid_buckets - 1) increases ≡ true
unfolding increases
all_increase = refl

-- The sizes of the buckets are in increasing order.
pub size_at-increases : (i : ℕ) → i < valid_buckets - 1 → size_at i < size_at (i + 1)
unfolding increases
size_at-increases i h = reflects _ _ (all_below-get (valid_buckets - 1) increases all_increase i h)
  where
    reflects : (a b : ℕ) → ltb a b ≡ true → a < b
    reflects a b e = ground (arith, e)

-- The first orders are those of the smallest bucket.
is_first : ℕ → Bool
unfolding table
is_first k = index_at k == 0

all_first : all_below 41 is_first ≡ true
unfolding is_first
all_first = refl

pub index_at-small : (k : ℕ) → k < 41 → index_at k ≡ 0
unfolding is_first
index_at-small k h = reflects _ (all_below-get 41 is_first all_first k h)
  where
    reflects : (a : ℕ) → (a == 0) ≡ true → a ≡ 0
    reflects a e = ground (arith, e)

-- The last orders have no bucket.
is_sentinel : ℕ → Bool
unfolding table
is_sentinel d = index_at (168 + d) == num_buckets

all_sentinel : all_below 353 is_sentinel ≡ true
unfolding is_sentinel
all_sentinel = refl

pub index_at-large : (d : ℕ) → d < 353 → index_at (168 + d) ≡ num_buckets
unfolding is_sentinel
index_at-large d h = reflects _ (all_below-get 353 is_sentinel all_sentinel d h)
  where
    reflects : (a : ℕ) → (a == num_buckets) ≡ true → a ≡ num_buckets
    reflects a e = ground (arith, e)

-- The d-th entry of order e + 5 is for the sizes above `above e d` up to `up_to e d`.
abbrev pub up_to : ℕ → ℕ → ℕ
up_to e d = (8 + d) * 2 ^ (e + 1)

abbrev pub above : ℕ → ℕ → ℕ
above e zero = 8 * 2 ^ (e + 1) - 1
above e (suc d) = (8 + d) * 2 ^ (e + 1)

abbrev pub entry_at : ℕ → ℕ → ℕ
entry_at e d = index_at ((e + 5) * 8 + d)

is_right : ℕ → ℕ → Bool
unfolding table bucket_sizes
is_right e d =
    if e == 15 && d == 8
    then entry_at e d == num_buckets
    else (let i = entry_at e d in
        (ltb i valid_buckets && leb (up_to e d) max_bucketed)
        && (leb (up_to e d) (size_at i) && (i == 0 || leb (size_at (i - 1)) (above e d))))

all_right : all_below 16 (λ e. all_below 9 (is_right e)) ≡ true
unfolding is_right
all_right = refl

-- An entry leads to the smallest bucket for its sizes.
pub record EntryIsRight (e d : ℕ) : Type 0 where
  pub valid : entry_at e d < valid_buckets
  pub small : up_to e d ≤ max_bucketed
  pub enough : up_to e d ≤ size_at (entry_at e d)
  pub least : (entry_at e d ≡ 0) ⊎ (size_at (entry_at e d - 1) ≤ above e d)

is_right-true : (e d : ℕ) → e < 16 → d < 9 → is_right e d ≡ true
is_right-true e d he hd =
    all_below-get 9 (is_right e) (all_below-get 16 (λ e. all_below 9 (is_right e)) all_right e he) d
      hd

pub entry_at-EntryIsRight :
    (e d : ℕ) → e < 16 → d < 9 → (e == 15 && d == 8) ≡ false → EntryIsRight e d
unfolding is_right
entry_at-EntryIsRight e d he hd inner =
    let i = entry_at e d in
    let all_three : ((ltb i valid_buckets && leb (up_to e d) max_bucketed)
          && (leb (up_to e d) (size_at i) && (i == 0 || leb (size_at (i - 1)) (above e d))))
        ≡ true =
      sym (
        ap
          (λ c.
            if c
            then i == num_buckets
            else (ltb i valid_buckets && leb (up_to e d) max_bucketed)
              && (leb (up_to e d) (size_at i) && (i == 0 || leb (size_at (i - 1)) (above e d))))
          inner)
      ∙ is_right-true e d he hd in
    let first_two = &&-left (ltb i valid_buckets && leb (up_to e d) max_bucketed) _ all_three in
    let last_two = &&-right (ltb i valid_buckets && leb (up_to e d) max_bucketed) _ all_three in
    record {
      valid = ltb→lt _ _ (&&-left (ltb i valid_buckets) _ first_two);
      small = leb→le _ _ (&&-right (ltb i valid_buckets) _ first_two);
      enough = leb→le _ _ (&&-left (leb (up_to e d) (size_at i)) _ last_two);
      least =
          either i (size_at (i - 1)) (above e d)
            (&&-right (leb (up_to e d) (size_at i)) _ last_two);
    }
  where
    either : (i p a : ℕ) → (i == 0 || leb p a) ≡ true → (i ≡ 0) ⊎ (p ≤ a)
    either i p a e = ground (arith, e)
