-- ===== src/ThreadCache/RoundTrip.antt =====
-- MaybePutInCache, then GetFromCache: a slot that is put in comes out first.
use partition_alloc.Base.{
  ℕ, ◌+◌, ◌-◌, ◌%◌, ◌≤◌, ◌≡◌, refl, ap, ◌∙◌, false, ltb, ltb_not, if◌then◌else◌, Option, some,
  ◌>>=◌, Returns, get_elem?, set, arith, get_elem?-set_self, set_same, set-set,
}
use partition_alloc.ThreadCache.{
  CacheBucket, Cache, Central, put_in_bucket, put_at, trim, purge_if_asked, maybe_put_in_cache,
  popped, pop_entry, fill_if_empty, get_from_cache, purge_internal, u8_mod, u32_mod,
}
use partition_alloc.ThreadCache.Sums.{sum_of-le, memory_of-sum, AllValid-get}
use partition_alloc.ThreadCache.Ledger.{CacheIsValid, held}
use partition_alloc.ThreadCache.Steps.{guarded_idle}
use partition_alloc.ThreadCache.Put.{count_check, put_at-Keeps}
use partition_alloc.ThreadCache.Get.{pop_entry_full, leads_back-absent, occurrences-held}

purge_if_asked_not : (t : Cache) → t.should_purge ≡ false → purge_if_asked t ≡ some t
unfolding purge_if_asked
purge_if_asked_not t e = ap (λ c. if c then purge_internal t else some t) e

module _ (largest slot index : ℕ) (b : CacheBucket) (t : Cache) (v : CacheIsValid t)
    (at : get_elem? t.buckets index ≡ some b) (active : ltb largest index ≡ false)
    (room : b.count + 1 ≤ b.limit) (unasked : t.should_purge ≡ false)
    (absent : held slot t.buckets ≡ 0) where
  -- The bucket takes the slot, and nothing is freed.
  maybe_put_in_cache_room :
      maybe_put_in_cache largest slot index t ≡ some (put_at index b slot t, some b.slot_size)
  unfolding maybe_put_in_cache trim purge_if_asked
  maybe_put_in_cache_room =
      let limited = (AllValid-get t.buckets index v.buckets at).limited in
      let low = (AllValid-get t.buckets index v.buckets at).low in
      let within : ltb b.limit ((b.count + 1) % u8_mod) ≡ false = ltb_not _ _ (omega arith) in
      guarded_idle t _ v.idle
      ∙ (rw (active, at, count_check b (AllValid-get t.buckets index v.buckets at), within)
          (ap (λ o. o >>= λ t'. some (t', some b.slot_size))
            (purge_if_asked_not (put_at index b slot t) unasked)))

  -- The bucket that comes out of a put and a get is the one that went in.
  put_back :
      record (put_in_bucket slot b) { slots = b.slots; count = (put_in_bucket slot b).count - 1 }
      ≡ b
  unfolding put_in_bucket
  put_back =
      let low = (AllValid-get t.buckets index v.buckets at).low in
      let same : (b.count + 1) % u8_mod - 1 ≡ b.count = omega arith in
      ap (λ n. record b { count = n }) same

  -- A get takes the newest slot.
  get_from_cache_newest :
      (central : Central)
      → get_from_cache central largest index (put_at index b slot t)
        ≡ some (popped index (put_in_bucket slot b) b.slots (put_at index b slot t), some slot)
  unfolding get_from_cache fill_if_empty pop_entry put_in_bucket
  get_from_cache_newest central =
      let there = get_elem?-set_self t.buckets index b (put_in_bucket slot b) at in
      guarded_idle (put_at index b slot t) _ v.idle
      ∙ rw active (
          ap
            (λ o. o >>= λ b'. fill_if_empty central index b' (put_at index b slot t) >>= λ t'.
              get_elem? t'.buckets index >>= λ b''. pop_entry index b'' b''.slots t')
            there
          ∙ ap (λ o. o >>= λ b'. pop_entry index b' b'.slots (put_at index b slot t)) there
          ∙ pop_entry_full index slot (put_in_bucket slot b) b.slots (put_at index b slot t)
              (put_at-Keeps index slot b t v at room).valid there refl
              (leads_back-absent slot b.slots
                (omega (arith, absent, occurrences-held slot index b t.buckets at))))

  put_back_buckets :
      set (set t.buckets index (put_in_bucket slot b)) index (record (put_in_bucket slot b) {
        slots = b.slots;
        count = (put_in_bucket slot b).count - 1;
      })
      ≡ t.buckets
  put_back_buckets =
      set-set t.buckets index (put_in_bucket slot b) _
      ∙ ap (set t.buckets index) put_back
      ∙ set_same t.buckets index b at

  put_back_memory :
      (t.cached_memory + b.slot_size) % u32_mod - (put_in_bucket slot b).slot_size ≡ t.cached_memory
  unfolding put_in_bucket
  put_back_memory =
      let bound = sum_of-le t.buckets v.buckets in
      let sum = memory_of-sum t.buckets in
      let cached = v.cached in
      let few = v.few in
      let small = (AllValid-get t.buckets index v.buckets at).small in omega arith

  put_back_cache : popped index (put_in_bucket slot b) b.slots (put_at index b slot t) ≡ t
  put_back_cache =
      ap
        (λ bs. record t {
          buckets = bs;
          cached_memory =
              (t.cached_memory + b.slot_size) % u32_mod - (put_in_bucket slot b).slot_size;
        })
        put_back_buckets
      ∙ ap (λ m. record t { cached_memory = m }) put_back_memory

  -- In a valid cache that was not asked to purge, a slot that is not in the cache and is put in an active
  -- bucket with room comes out at the next get, and the cache is as before.
  pub get_from_cache-maybe_put_in_cache :
      (central : Central)
      → Returns
          (λ (r : Cache × Option ℕ).
            Returns
              (λ (r' : Cache × Option ℕ). (r'.1 ≡ some slot) × (r'.0 ≡ t))
              (get_from_cache central largest index r.0))
          (maybe_put_in_cache largest slot index t)
  get_from_cache-maybe_put_in_cache central =
      rw (maybe_put_in_cache_room, get_from_cache_newest central) (refl, put_back_cache)
