-- ===== src/Registry/Links/Visit.antt =====
-- The loops over the list of the caches visit every cache that is registered.
use partition_alloc.Base.{ℕ, ◌≡◌, refl, ap, ◌∙◌, Option, none, some, ◌>>=◌, List, [], ◌∷◌, length}
use partition_alloc.Registry.Links.{Field, Links, visited, Registered}
use partition_alloc.Registry.Links.Chain.{
  first_of, Chain, Represents, register_thread_cache-Represents,
}
use partition_alloc.Registry.Links.Unlink.{unregister_thread_cache-Represents}

Registered-Represents : {l : Links} {xs : List ℕ} → Registered l xs → Represents l xs
Registered-Represents Registered.nobody = record { head = refl; chain = tt; distinct = tt }
Registered-Represents (Registered.register {l} {xs} c a r) =
    register_thread_cache-Represents l xs c (Registered-Represents r) a
Registered-Represents (Registered.unregister {l} ys c zs r) =
    unregister_thread_cache-Represents l ys c zs (Registered-Represents r)

visited-Chain :
    (next prev : Field) (from : Option ℕ) (xs : List ℕ)
    → Chain next prev from xs
    → visited (length xs) next (first_of xs) ≡ some xs
unfolding visited
visited-Chain next prev from [] h = refl
visited-Chain next prev from (x ∷ xs) h =
    ap (λ o. visited (length xs) next o >>= λ rest. some (x ∷ rest)) h.1.0
    ∙ ap (λ o. o >>= λ rest. some (x ∷ rest)) (visited-Chain next prev (some x) xs h.1.1)

-- Whatever caches come and go, a loop over the list visits exactly those that are registered, the
-- newest first, and ends.
pub visited-Registered :
    (l : Links) (xs : List ℕ) → Registered l xs → visited (length xs) l.next l.list_head ≡ some xs
visited-Registered l xs r =
    let s = Registered-Represents r in
    ap (visited (length xs) l.next) s.head ∙ visited-Chain l.next l.prev none xs s.chain
