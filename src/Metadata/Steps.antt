-- ===== src/Metadata/Steps.antt =====
-- The accesses of the threads that share one slot of in_slot_metadata.h, as steps.
use partition_alloc.Base.{
  ℕ, ◌+◌, ◌^◌, ◌<◌, ◌≡◌, sym, ap, ◌∙◌, Bool, true, false, ◌&&◌, Option, none, some, ◌==◌,
  if◌then◌else◌, arith, List, [], ◌∷◌, ◌++◌,
}
use partition_alloc.Metadata.{
  Event, dangling_detected, dangling_released, unretained_dangling, InSlotMetadata, returns,
  is_allocated, ptr_count, dangling_bit, unprotected_ptr_count, max_ptr_count,
  max_unprotected_ptr_count, set_bit, clear_bit, acquire, acquire_from_unprotected_ptr, release,
  release_from_unprotected_ptr, clear_allocated, check_dangling_pointers_on_free, report_released,
  construct, add_word, sub_word, ptr_inc, unprotected_ptr_inc,
}
use partition_alloc.Metadata.Refine.{IsValid, Refs, decode, is_unheld}

-- `pending` is the value that the freeing thread has loaded, while it has not yet run
-- CheckDanglingPointersOnFree with it. `reclaimed` counts the calls that returned `true`.
pub record Slot : Type 0 where
  pub meta : InSlotMetadata
  pub pending : Option ℕ
  pub reclaimed : ℕ

abbrev pub one_if : Bool → ℕ
one_if b = if b then 1 else 0

-- The metadata after a release that returned.
abbrev pub released : InSlotMetadata → InSlotMetadata
released m = record { count = sub_word m.count ptr_inc; events = report_released m.count m.events }

-- A pointer is copied only while the slot is held; a slot is examined before its release, and
-- released, by the one thread that frees it.
pub data Step (s : Slot) : Slot → Type 0 where
  acquires :
      (m : InSlotMetadata)
      → is_unheld (decode s.meta.count) ≡ false
      → acquire s.meta ≡ returns m
      → Step s (record s { meta = m })
  acquires_unprotected :
      (m : InSlotMetadata)
      → is_unheld (decode s.meta.count) ≡ false
      → acquire_from_unprotected_ptr s.meta ≡ returns m
      → Step s (record s { meta = m })
  releases :
      (m : InSlotMetadata) (b : Bool)
      → release s.meta ≡ returns (m, b)
      → Step s (record s { meta = m; reclaimed = s.reclaimed + one_if b })
  releases_unprotected :
      (m : InSlotMetadata) (b : Bool)
      → release_from_unprotected_ptr s.meta ≡ returns (m, b)
      → Step s (record s { meta = m; reclaimed = s.reclaimed + one_if b })
  pre_frees :
      is_allocated s.meta.count ≡ 1
      → s.pending ≡ none
      → Step s (record s { pending = some s.meta.count })
  frees_unreferenced :
      is_allocated s.meta.count ≡ 1
      → s.pending ≡ none
      → (ptr_count s.meta.count == 0) && (unprotected_ptr_count s.meta.count == 0) ≡ true
      → Step s (record s { meta = clear_allocated s.meta; reclaimed = s.reclaimed + 1 })
  frees_referenced :
      is_allocated s.meta.count ≡ 1
      → s.pending ≡ none
      → (ptr_count s.meta.count == 0) && (unprotected_ptr_count s.meta.count == 0) ≡ false
      → Step s (record s { meta = clear_allocated s.meta; pending = some s.meta.count })
  checks :
      (old : ℕ)
      → s.pending ≡ some old
      → Step s (record s { meta = check_dangling_pointers_on_free old s.meta; pending = none })

pub data Reach (s : Slot) : Slot → Type 0 where
  here : Reach s s
  next : {t u : Slot} → Reach s t → Step t u → Reach s u

-- A slot that the allocator has just handed out.
unfoldable pub fresh : Bool → Slot
unfolding construct
fresh mac11 = record { meta = construct mac11; pending = none; reclaimed = 0 }

abbrev pub count_detected : List Event → ℕ
count_detected [] = 0
count_detected (dangling_detected ∷ es) = 1 + count_detected es
count_detected (_ ∷ es) = count_detected es

abbrev pub count_released : List Event → ℕ
count_released [] = 0
count_released (dangling_released ∷ es) = 1 + count_released es
count_released (_ ∷ es) = count_released es

pub count_detected-append :
    (es : List Event) (e : Event)
    → count_detected (es ++ (e ∷ [])) ≡ count_detected es + count_detected (e ∷ [])
count_detected-append [] e = omega arith
count_detected-append (dangling_detected ∷ es) e = omega (arith, count_detected-append es e)
count_detected-append (dangling_released ∷ es) e = omega (arith, count_detected-append es e)
count_detected-append (unretained_dangling ∷ es) e = omega (arith, count_detected-append es e)

pub record Inv (s : Slot) : Type 0 where
  pub valid : IsValid s.meta.count
  -- Reclaimed once, and exactly if nothing holds the slot.
  pub once : s.reclaimed ≡ one_if (is_unheld (decode s.meta.count))
  -- The report of a dangling pointer has been made exactly if the bit is set.
  pub reported : count_detected s.meta.events ≡ dangling_bit s.meta.count

pub fresh-Inv : (mac11 : Bool) → Inv (fresh mac11)
unfolding fresh
fresh-Inv true = omega arith
fresh-Inv false = omega arith

pub Inv-of :
    (s : Slot) (r : Refs)
    → IsValid s.meta.count
    → decode s.meta.count ≡ r
    → s.reclaimed ≡ one_if (is_unheld r)
    → count_detected s.meta.events ≡ r.dangling
    → Inv s
Inv-of s r v e once reported = record {
  valid = v;
  once = once ∙ ap (λ r. one_if (is_unheld r)) (sym e);
  reported = reported ∙ ap (λ r. r.dangling) (sym e);
}

pub add_ptr-IsValid :
    (c : ℕ) → IsValid c → ptr_count c < max_ptr_count → IsValid (add_word c ptr_inc)
add_ptr-IsValid c v h = omega arith

pub add_unprotected-IsValid :
    (c : ℕ)
    → IsValid c
    → unprotected_ptr_count c < max_unprotected_ptr_count
    → IsValid (add_word c unprotected_ptr_inc)
add_unprotected-IsValid c v h = omega arith

pub sub_ptr-IsValid : (c : ℕ) → IsValid c → 0 < ptr_count c → IsValid (sub_word c ptr_inc)
sub_ptr-IsValid c v h = omega arith

pub sub_unprotected-IsValid :
    (c : ℕ) → IsValid c → 0 < unprotected_ptr_count c → IsValid (sub_word c unprotected_ptr_inc)
sub_unprotected-IsValid c v h = omega arith

pub clear_allocated-IsValid : (c : ℕ) → IsValid c → IsValid (clear_bit c (2 ^ 0))
clear_allocated-IsValid c v = ground arith

pub set_dangling-IsValid : (c : ℕ) → IsValid c → IsValid (set_bit c (2 ^ 32))
set_dangling-IsValid c v = ground arith

pub returns-injective {ℓ} : {A : Type ℓ} {a b : A} → returns a ≡ returns b → a ≡ b
returns-injective e = cc
