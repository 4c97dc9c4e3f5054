-- ===== src/ThreadCache/Calls.antt =====
-- What the calls that a thread cache gets keep, in any order.
use partition_alloc.Base.{
  Bool, true, false, ◌==◌, ℕ, ◌+◌, ◌≤◌, ◌<◌, ◌≡◌, refl, ap, ◌∙◌, subst, inl, inr, ltb, Bool-cases,
  if◌then◌else◌, Option, none, some, Returns, >>=-Returns, List, [], ◌∷◌, length, arith,
  get_elem?-below,
}
use partition_alloc.ThreadCache.{
  CacheBucket, Cache, Central, maybe_put_in_cache, get_from_cache, purge, set_limit,
  set_should_purge,
}
use partition_alloc.ThreadCache.Ledger.{
  occurrences, held, took_count, gave_count, CacheIsValid, Balanced, nothing, just, Keeps,
}
use partition_alloc.ThreadCache.Once.{
  OnResult-bind, Returns-OnResult, Given, purge-Given, maybe_put_in_cache-Given,
  get_from_cache-NoneTwice, held-Given, history-set_limit,
}
use partition_alloc.ThreadCache.Purge.{purge-Keeps}
use partition_alloc.ThreadCache.Put.{Put, maybe_put_in_cache-Put}
use partition_alloc.ThreadCache.Get.{
  NoneTwice, Returns-both, handed, OnResult, Got, get_from_cache-Got,
}
use partition_alloc.ThreadCache.Sessions.{
  Call, put, get, purge_now, ask_purge, new_limit, Session, listed, added, call, run, CallIsValid,
  CallsAreValid, Accounted, set_should_purge-Keeps, set_limit-Keeps,
}

-- A change that puts in no slot and hands out none.
Keeps-Accounted :
    (s : Session) (t : Cache)
    → Keeps nothing nothing s.cache t
    → Accounted s (record s { cache = t })
Keeps-Accounted s t k = record {
  valid = k.valid;
  size = k.size;
  balance = λ x. omega (arith, k.balance x);
}

Put-Accounted :
    (largest slot index : ℕ) (s : Session) (r : Cache × Option ℕ)
    → largest < length s.cache.buckets
    → Put largest slot index s.cache r
    → Accounted s (record s { cache = r.0; put_in = listed r.1 slot s.put_in })
Put-Accounted largest slot index s r inside k = elim (Bool-cases (ltb largest index)) [
  | inl above ↦
      let balance : Balanced nothing nothing s.cache r.0 =
        subst (λ c. Balanced (if c then nothing else just slot) nothing s.cache r.0) above
          k.keeps.balance in
      record {
        valid = k.keeps.valid;
        size = k.keeps.size;
        balance = λ x.
            omega (
              arith,
              balance x,
              ap (λ o. occurrences x (listed o slot s.put_in)) (k.refused above),
            );
      }
  | inr active ↦
      let balance : Balanced (just slot) nothing s.cache r.0 =
        subst (λ c. Balanced (if c then nothing else just slot) nothing s.cache r.0) active
          k.keeps.balance in
      let (b, at) = get_elem?-below s.cache.buckets index (ground (arith, active)) in
      record {
        valid = k.keeps.valid;
        size = k.keeps.size;
        balance = λ x. omega (
          arith,
          balance x,
          ap (λ o. occurrences x (listed o slot s.put_in)) (k.size b at active),
        );
      }
]

Got-Accounted :
    (largest index : ℕ) (s : Session) (r : Cache × Option ℕ)
    → Got largest index s.cache r
    → Accounted s (record s { cache = r.0; handed_out = added r.1 s.handed_out })
Got-Accounted largest index s r k = record {
  valid = k.keeps.valid;
  size = k.keeps.size;
  balance = λ x. omega (arith, k.keeps.balance x, handed-added r.1 x s.handed_out);
}
  where
    handed-added :
        (o : Option ℕ) (x : ℕ) (xs : List ℕ)
        → occurrences x (added o xs) ≡ handed o x + occurrences x xs
    handed-added none x xs = omega arith
    handed-added (some a) x xs = refl

Accounted-trans : (s s' s'' : Session) → Accounted s s' → Accounted s' s'' → Accounted s s''
Accounted-trans s s' s'' k h = record {
  valid = h.valid;
  size = h.size ∙ k.size;
  balance = λ x. omega (arith, h.balance x, k.balance x);
}

call-Accounted :
    (central : Central) (largest : ℕ) (c : Call) (s : Session)
    → CacheIsValid s.cache
    → largest < length s.cache.buckets
    → CallIsValid central c s
    → Returns (Accounted s) (call central largest c s)
unfolding call
call-Accounted central largest (put slot index) s v inside ok =
    >>=-Returns (Put largest slot index s.cache) (Accounted s)
      (maybe_put_in_cache largest slot index s.cache)
      (λ r. some (record s { cache = r.0; put_in = listed r.1 slot s.put_in }))
      (maybe_put_in_cache-Put largest slot index s.cache v inside)
      λ r k. Put-Accounted largest slot index s r inside k
call-Accounted central largest (get index) s v inside ok =
    >>=-Returns (Got largest index s.cache) (Accounted s)
      (get_from_cache central largest index s.cache)
      (λ r. some (record s { cache = r.0; handed_out = added r.1 s.handed_out }))
      (get_from_cache-Got central largest index s.cache v inside ok)
      λ r k. Got-Accounted largest index s r k
call-Accounted central largest purge_now s v inside ok =
    >>=-Returns (Keeps nothing nothing s.cache) (Accounted s) (purge s.cache)
      (λ t. some (record s { cache = t })) (purge-Keeps s.cache v) λ t k. Keeps-Accounted s t k
call-Accounted central largest ask_purge s v inside ok =
    Keeps-Accounted s (set_should_purge s.cache) (set_should_purge-Keeps s.cache v)
call-Accounted central largest (new_limit index limit) s v inside ok =
    Keeps-Accounted s (set_limit index limit s.cache) (set_limit-Keeps index limit s.cache v ok)

-- A slot that is not in the cache can be added.
held_once :
    (slot x : ℕ) (bs : List CacheBucket)
    → held x bs ≤ 1
    → held slot bs ≡ 0
    → held x bs + just slot x ≤ 1
held_once slot x bs once absent = elim (Bool-cases (slot == x)) [
  | inl same ↦
      let here : held x bs ≡ 0 = ap (λ y. held y bs) (same_of slot x same) ∙ absent in
      rw same (omega (arith, here))
  | inr other ↦ rw other (omega (arith, once))
]
  where
    same_of : (slot x : ℕ) → (slot == x) ≡ true → x ≡ slot
    same_of slot x h = ground (arith, h)

gain_at_most :
    (refused : Bool) (slot x : ℕ) → (if refused then nothing else just slot) x ≤ just slot x
gain_at_most true slot x = omega arith
gain_at_most false slot x = omega arith

Put-NoneTwice :
    (largest slot index : ℕ) (t : Cache) (r : Cache × Option ℕ)
    → NoneTwice t
    → held slot t.buckets ≡ 0
    → Put largest slot index t r × Given t r.0
    → NoneTwice r.0
Put-NoneTwice largest slot index t r once absent (k, g) x =
    let gain = if ltb largest index then nothing else just slot in
    let bound = held-Given gain t r.0 k.keeps.balance g x in
    omega (
      arith,
      bound,
      gain_at_most (ltb largest index) slot x,
      held_once slot x t.buckets (once x) absent,
    )

Keeps-NoneTwice :
    (t t' : Cache) → NoneTwice t → Keeps nothing nothing t t' × Given t t' → NoneTwice t'
Keeps-NoneTwice t t' once (k, g) x = omega (arith, once x, held-Given nothing t t' k.balance g x)

set_limit-Given : (index limit : ℕ) (t : Cache) → Given t (set_limit index limit t)
set_limit-Given index limit t x =
    let same = history-set_limit index limit t in
    (ap (took_count x) same, omega (arith, ap (gave_count x) same))

set_should_purge-NoneTwice : (t : Cache) → NoneTwice t → NoneTwice (set_should_purge t)
unfolding set_should_purge
set_should_purge-NoneTwice t once = once

call-NoneTwice :
    (central : Central) (largest : ℕ) (c : Call) (s : Session)
    → CacheIsValid s.cache
    → largest < length s.cache.buckets
    → NoneTwice s.cache
    → CallIsValid central c s
    → OnResult (λ (s' : Session). NoneTwice s'.cache) (call central largest c s)
unfolding call
call-NoneTwice central largest (put slot index) s v inside once ok =
    let o = maybe_put_in_cache largest slot index s.cache in
    OnResult-bind (λ r. Put largest slot index s.cache r × Given s.cache r.0)
      (λ s'. NoneTwice s'.cache) o
      (λ r. some (record s { cache = r.0; put_in = listed r.1 slot s.put_in }))
      (Returns-OnResult _ o (
        Returns-both (Put largest slot index s.cache) (λ r. Given s.cache r.0) o
          (maybe_put_in_cache-Put largest slot index s.cache v inside)
          (maybe_put_in_cache-Given largest slot index s.cache)))
      λ r k. Put-NoneTwice largest slot index s.cache r once ok k
call-NoneTwice central largest (get index) s v inside once ok =
    OnResult-bind (λ r. NoneTwice r.0) (λ s'. NoneTwice s'.cache)
      (get_from_cache central largest index s.cache)
      (λ r. some (record s { cache = r.0; handed_out = added r.1 s.handed_out }))
      (get_from_cache-NoneTwice central largest index s.cache once ok) λ r k. k
call-NoneTwice central largest purge_now s v inside once ok =
    OnResult-bind (λ t. Keeps nothing nothing s.cache t × Given s.cache t)
      (λ s'. NoneTwice s'.cache) (purge s.cache) (λ t. some (record s { cache = t }))
      (Returns-OnResult _ (purge s.cache) (
        Returns-both (Keeps nothing nothing s.cache) (Given s.cache) (purge s.cache)
          (purge-Keeps s.cache v) (purge-Given s.cache)))
      λ t k. Keeps-NoneTwice s.cache t once k
call-NoneTwice central largest ask_purge s v inside once ok =
    set_should_purge-NoneTwice s.cache once
call-NoneTwice central largest (new_limit index limit) s v inside once ok =
    Keeps-NoneTwice s.cache (set_limit index limit s.cache) once
      (set_limit-Keeps index limit s.cache v ok, set_limit-Given index limit s.cache)

-- What a run keeps.
abbrev pub Runs : Session → Session → Type 0
Runs s s' = Accounted s s' × NoneTwice s'.cache

-- A valid run goes on from a valid call.
Runs-next :
    (s : Session) (Q : Session → Type 0) (o : Option Session)
    → Returns (Accounted s) o
    → OnResult (λ s'. NoneTwice s'.cache) o
    → OnResult Q o
    → Returns (λ s'. Runs s s' × Q s') o
Runs-next s Q none h once k = h
Runs-next s Q (some s') h once k = ((h, once), k)

Runs-after :
    (s s' : Session) (o : Option Session)
    → Accounted s s'
    → Returns (Runs s') o
    → Returns (Runs s) o
Runs-after s s' none k h = h
Runs-after s s' (some s'') k (h, once) = (Accounted-trans s s' s'' k h, once)

-- For any sequence of calls in which no slot is put that the cache has, no refill takes one that it has,
-- and each new limit is at most 254, a valid cache that no slot is twice in and whose largest active
-- index is that of a bucket stays so: no check fails, the counts are the lengths of the freelists and do
-- not wrap around, no slot is lost or doubled, and none is twice in the cache.
pub run-Accounted :
    (central : Central) (largest : ℕ) (cs : List Call) (s : Session)
    → CacheIsValid s.cache
    → NoneTwice s.cache
    → largest < length s.cache.buckets
    → CallsAreValid central largest cs s
    → Returns (Runs s) (run central largest cs s)
unfolding run CallsAreValid
run-Accounted central largest [] s v once inside ok =
    (record { valid = v; size = refl; balance = λ x. omega arith }, once)
run-Accounted central largest (c ∷ cs) s v once inside ok =
    let next = call central largest c s in
    >>=-Returns (λ s'. Runs s s' × CallsAreValid central largest cs s') (Runs s) next
      (λ s'. run central largest cs s')
      (Runs-next s (CallsAreValid central largest cs) next
        (call-Accounted central largest c s v inside ok.0)
        (call-NoneTwice central largest c s v inside once ok.0) ok.1)
      λ s' (k, valid).
        Runs-after s s' (run central largest cs s') k.0
          (run-Accounted central largest cs s' k.0.valid k.1 (omega (arith, k.0.size)) valid)
