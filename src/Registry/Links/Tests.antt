-- ===== src/Registry/Links/Tests.antt =====
-- Three caches are registered, and the second one is unregistered.
use partition_alloc.Base.{ℕ, ◌≡◌, ◌≢◌, refl, false, ◌==◌, some, [], ◌∷◌, arith}
use partition_alloc.Registry.Links.{
  Links, visited, Registered, register_thread_cache, unregister_thread_cache, no_links,
}
use partition_alloc.Registry.Links.Visit.{visited-Registered}

abbrev three : Links
three = register_thread_cache 48 (register_thread_cache 32 (register_thread_cache 16 no_links))

three-Registered : Registered three (48 ∷ 32 ∷ 16 ∷ [])
three-Registered =
    Registered.register 48 (ne 48 32 refl, (ne 48 16 refl, tt))
      (Registered.register 32 (ne 32 16 refl, tt) (Registered.register 16 tt Registered.nobody))
  where
    ne : (a b : ℕ) → (a == b) ≡ false → a ≢ b
    ne a b e = ground (arith, e)

visited-Registered_example :
    visited 2 (unregister_thread_cache 32 three).next (unregister_thread_cache 32 three).list_head
    ≡ some (48 ∷ 16 ∷ [])
visited-Registered_example =
    visited-Registered (unregister_thread_cache 32 three) (48 ∷ 16 ∷ [])
      (Registered.unregister (48 ∷ []) 32 (16 ∷ []) three-Registered)
