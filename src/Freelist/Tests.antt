-- ===== src/Freelist/Tests.antt =====
-- Freelist entries on concrete addresses.
use partition_alloc.Base.{ℕ, ◌+◌, ◌^◌, ◌≡◌, refl, inr, false, List, [], ◌∷◌, arith}
use partition_alloc.Freelist.{
  Memory, value, crash, transform, make_entry, write, set_next, get_next, get_next_for_thread_cache,
  emplace_and_init_for_thread_cache,
}
use partition_alloc.Freelist.Chain.{Links, link, link-Links}
use partition_alloc.Freelist.Corrupt.{get_next-overwritten, get_next_for_thread_cache-emplace}

swapped : transform 0x0102_0304_0506_0708 ≡ 0x0807_0605_0403_0201
unfolding transform
swapped = refl

abbrev blank : Memory
blank a = record { encoded_next = 0; shadow = 0 }

abbrev page : ℕ
page = 2 ^ 32

abbrev slots : List ℕ
slots = (page + 0x8000) ∷ (page + 0x4000) ∷ (page + 0xc000) ∷ []

link-Links_example : Links slots (link slots blank)
link-Links_example =
    link-Links (2 ^ 11) slots blank
      (
        (refl, omega arith, omega arith),
        ((refl, omega arith, omega arith), ((refl, omega arith, omega arith), tt)),
      )
      (refl, (refl, (refl, tt)))

abbrev linked : Memory
linked = write blank (page + 0x4000) (make_entry (page + 0x8000))

sets : set_next (page + 0x4000) (page + 0x8000) blank ≡ value linked
unfolding set_next
sets = refl

get_next-overwritten_example :
    get_next
      (page + 0x4000)
      (write linked (page + 0x4000) (record (linked (page + 0x4000)) { encoded_next = 1 }))
    ≡ crash
unfolding transform make_entry
get_next-overwritten_example =
    get_next-overwritten (page + 0x4000) (page + 0x8000) 1 blank (omega arith) (omega arith) sets
      (omega arith) (omega arith)

get_next_for_thread_cache-emplace_example :
    get_next_for_thread_cache false
      (page + 0x4000)
      (emplace_and_init_for_thread_cache (page + 0x4000) (2 ^ 33 + 0x8000) blank)
    ≡ value (2 ^ 33 + 0x8000)
get_next_for_thread_cache-emplace_example =
    get_next_for_thread_cache-emplace false (page + 0x4000) (2 ^ 33 + 0x8000) blank (omega arith)
      (inr (omega arith))
