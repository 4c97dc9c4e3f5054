-- ===== src/Registry/Links.antt =====
-- RegisterThreadCache and UnregisterThreadCache of thread_cache.cc: the doubly linked list of the
-- caches. A cache is its address; `next` and `prev` are the fields of all of them.
pub mod Chain
pub mod Unlink
pub mod Visit
mod Tests
use partition_alloc.Base.{
  zero, suc, ◌≢◌, List, [], ◌∷◌, ◌++◌, ◌>>=◌, ℕ, Bool, true, false, ◌==◌, if◌then◌else◌, Option,
  none, some,
}

abbrev pub Field : Type 0
Field = ℕ → Option ℕ

pub record Links : Type 0 where
  pub next : Field
  pub prev : Field
  pub list_head : Option ℕ

-- An assignment to the field of one cache, and one through a pointer that may be null.
abbrev pub write : Field → ℕ → Option ℕ → Field
write f c v j = if c == j then v else f j

abbrev pub write_if : Field → Option ℕ → Option ℕ → Field
write_if f none v = f
write_if f (some c) v = write f c v

pub register_thread_cache : ℕ → Links → Links
register_thread_cache cache l =
    let next = write l.next cache none in
    let prev = write l.prev cache none in
    record {
      next = write next cache l.list_head;
      prev = write_if prev l.list_head (some cache);
      list_head = some cache;
    }

abbrev pub is_head : Option ℕ → ℕ → Bool
is_head none cache = false
is_head (some c) cache = c == cache

pub unregister_thread_cache : ℕ → Links → Links
unregister_thread_cache cache l =
    let next = write_if l.next (l.prev cache) (l.next cache) in
    record {
      next = next;
      prev = write_if l.prev (next cache) (l.prev cache);
      list_head = if is_head l.list_head cache then next cache else l.list_head;
    }

-- The loops over all caches; `none` is no fuel.
unfoldable pub visited : ℕ → Field → Option ℕ → Option (List ℕ)
visited fuel next none = some []
visited zero next (some cache) = none
visited (suc fuel) next (some cache) =
    visited fuel next (next cache) >>= λ rest. some (cache ∷ rest)

-- The registry before any call.
abbrev pub no_links : Links
no_links = record { next = λ c. none; prev = λ c. none; list_head = none }

abbrev pub Absent : ℕ → List ℕ → Type 0
Absent c [] = Unit {0}
Absent c (x ∷ xs) = (c ≢ x) × Absent c xs

-- The links after some calls, and the caches that are registered then, the newest first. A cache is
-- registered when it is made and unregistered when it is destroyed.
pub data Registered : Links → List ℕ → Type 0 where
  nobody : Registered no_links []
  register :
      {l : Links} {xs : List ℕ} (c : ℕ)
      → Absent c xs
      → Registered l xs
      → Registered (register_thread_cache c l) (c ∷ xs)
  unregister :
      {l : Links} (ys : List ℕ) (c : ℕ) (zs : List ℕ)
      → Registered l (ys ++ (c ∷ zs))
      → Registered (unregister_thread_cache c l) (ys ++ zs)
