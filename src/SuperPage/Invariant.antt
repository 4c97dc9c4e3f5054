-- ===== src/SuperPage/Invariant.antt =====
-- What holds of the pages of a root between two calls.
use partition_alloc.Base.{ℕ, ◌+◌, ◌*◌, ◌/◌, ◌≤◌, ◌<◌, ◌≡◌, ◌≢◌, true, false, none, some}
use partition_alloc.Pool.{super_page_size}
use partition_alloc.Pool.Single.{Stands, Asks}
use partition_alloc.SlotSpan.{max_slots_per_slot_span, Geometry, get_slots_per_span}
use partition_alloc.SuperPage.{
  partition_page_size, num_partition_pages_per_super_page, max_slot_span_metadata_offset,
  get_pages_per_slot_span, Pages,
}

-- The number of a partition page, from that of its super page and its place there.
abbrev pub page_at : ℕ → ℕ → ℕ
page_at q t = q * num_partition_pages_per_super_page + t

-- The super page that spans are taken from: its number `q` is that of a super page of the pool that is
-- in use, and the pages from `t` on, without the last one, hold no span.
pub data Current (base : ℕ) (p : Pages) : Type 0 where
  untouched : p.next_partition_page ≡ 0 → p.next_partition_page_end ≡ 0 → Current base p
  within :
      (b t : ℕ)
      → p.pool.alloc_bitset b ≡ true
      → 1 ≤ t
      → t ≤ 127
      → p.next_partition_page ≡ page_at (base + b) t * partition_page_size
      → p.next_partition_page_end ≡ page_at (base + b) 127 * partition_page_size
      → ((page : ℕ)
          → page_at (base + b) t ≤ page
          → page < page_at (base + b) 127
          → (p.metadata page).is_valid ≡ false)
      → Current base p

-- There is no extent yet, or the current one begins at a super page in use.
pub data Linked (p : Pages) : Type 0 where
  unlinked : p.current_extent ≡ none → p.first_extent ≡ none → Linked p
  linked :
      (b : ℕ)
      → p.pool.alloc_bitset b ≡ true
      → p.current_extent ≡ some (p.pool.address_begin + b * super_page_size)
      → (p.extents (p.pool.address_begin + b * super_page_size)).number_of_consecutive_super_pages
        ≢ 0
      → Linked p

-- No page of a super page that is not in use belongs to a span.
abbrev pub Unowned : ℕ → Pages → Type 0
Unowned base p =
    (b page : ℕ)
    → p.pool.alloc_bitset b ≡ false
    → page / num_partition_pages_per_super_page ≡ base + b
    → (p.metadata page).is_valid ≡ false

pub record Ready (base : ℕ) (p : Pages) : Type 0 where
  pub stands : Stands base p.pool
  pub asks : Asks p.pool p.next_super_page
  pub current : Current base p
  pub extents_linked : Linked p
  pub unowned : Unowned base p

-- The alignment is a multiple of a partition page that divides a super page, and a span of this
-- geometry fits behind it.
pub record Fits (g : Geometry) (alignment : ℕ) : Type 0 where
  pub some_slots : 0 < get_slots_per_span g
  pub few_slots : get_slots_per_span g ≤ max_slots_per_slot_span
  pub some_pages : 1 ≤ get_pages_per_slot_span g
  pub few_pages : get_pages_per_slot_span g ≤ max_slot_span_metadata_offset + 1
  pub unit : ℕ
  pub unit_pos : 1 ≤ unit
  pub unit_eq : alignment ≡ unit * partition_page_size
  pub times : ℕ
  pub times_eq : times * alignment ≡ super_page_size
  pub room : unit + get_pages_per_slot_span g ≤ 127
