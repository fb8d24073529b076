-- ===== src/Proxy/Cache/Size.antt =====
-- The cache never outgrows its limit, and a key stands in it once.
use astradns_agent.Common.{
  ℕ, suc, ◌+◌, ◌≤◌, ◌<◌, ◌≡◌, ◌≢◌, refl, Option, none, some, List, [], ◌∷◌, ◌++◌, Text, text_eq,
  Dict, lookup, insert, delete, retain, length, Distinct, Distinct-insert, Distinct-delete,
  Distinct-retain, length-insert, length-delete, length-retain-le, arith, Bool, Bool-cases, inl,
  inr, true, false, if_cases, leb, leb→le, not, to_lower, ap, ℤ, not_positive,
}
use astradns_agent.Dns.{Msg, Question}
use astradns_agent.Proxy.Message.{
  cache_key, key_of, question_key, is_cacheable_response, cache_entry_ttl,
}
use astradns_agent.Proxy.Cache.{
  CachedResponse, ResponseCache, default_stale_ttl, evict_oldest_locked, evict_expired_locked,
  make_room, within_stale, store_entry, store_response, new_response_cache,
}
use astradns_agent.Proxy.Cache.Evict.{IsNamed, evict_oldest_locked_lem}

-- The cache has room for an entry, holds no more than its limit, and holds each key, which is not
-- empty, once.
pub record IsSound (c : ResponseCache) : Type 0 where
  pub room : 0 < c.max_entries
  pub bounded : length c.entries ≤ c.max_entries
  pub distinct : Distinct c.entries
  pub named : IsNamed c.entries

append-ne-nil : (s t : Text) (c : ℕ) → s ++ c ∷ t ≢ []
append-ne-nil [] t c e = ground arith
append-ne-nil (d ∷ s) t c e = ground arith

question_key-ne-nil : (q : Question) → question_key q ≢ []
unfolding question_key
question_key-ne-nil q = append-ne-nil (to_lower q.name) _ b'|'

pub cache_key-ne-nil : (request : Option Msg) (key : Text) → cache_key request ≡ some key → key ≢ []
unfolding cache_key
cache_key-ne-nil none key e = cc
cache_key-ne-nil (some m) key e = of_questions m.question e
  where
    of_questions : (qs : List Question) → key_of qs ≡ some key → key ≢ []
    of_questions [] e = unfold key_of in cc
    of_questions (q ∷ qs) e =
        λ empty. question_key-ne-nil q (unfold key_of in ground (arith, e, empty))

IsNamed-retain :
    (keep : Text → CachedResponse → Bool) (m : Dict CachedResponse)
    → IsNamed m
    → IsNamed (retain keep m)
unfolding retain
IsNamed-retain keep [] n = tt
IsNamed-retain keep ((k, e) ∷ m) n = ground (arith, IsNamed-retain keep m)

IsNamed-delete : (key : Text) (m : Dict CachedResponse) → IsNamed m → IsNamed (delete key m)
unfolding delete
IsNamed-delete key [] n = tt
IsNamed-delete key ((k, e) ∷ m) n = ground (arith, IsNamed-delete key m)

IsNamed-insert :
    (key : Text) (e : CachedResponse) (m : Dict CachedResponse)
    → key ≢ []
    → IsNamed m
    → IsNamed (insert key e m)
unfolding insert
IsNamed-insert key e [] ne n = (ne, tt)
IsNamed-insert key e ((k, w) ∷ m) ne n = elim (Bool-cases (text_eq k key)) [
  | inl same ↦ rw same (ne, n.1)
  | inr other ↦ rw other (n.0, IsNamed-insert key e m ne n.1)
]

-- The parts of `Store`.
pub evict_expired_locked-IsSound :
    (c : ResponseCache) (now : ℕ) → IsSound c → IsSound (evict_expired_locked c now)
unfolding evict_expired_locked
evict_expired_locked-IsSound c now s = record {
  room = s.room;
  bounded = omega (arith, length-retain-le (within_stale c.stale_ttl now) c.entries, s.bounded);
  distinct = Distinct-retain (within_stale c.stale_ttl now) c.entries s.distinct;
  named = IsNamed-retain (within_stale c.stale_ttl now) c.entries s.named;
}

length-delete_found :
    (k : Text) (e : CachedResponse) (m : Dict CachedResponse)
    → lookup k m ≡ some e
    → suc (length (delete k m)) ≡ length m
length-delete_found k e m h = ground (arith, length-delete k m)

-- From a full cache, eviction leaves room for one entry.
record HasRoom (c : ResponseCache) : Type 0 where
  sound : IsSound c
  one_more : length c.entries < c.max_entries

evict_oldest_locked-HasRoom :
    (c : ResponseCache)
    → IsSound c
    → c.max_entries ≤ length c.entries
    → HasRoom (evict_oldest_locked c)
evict_oldest_locked-HasRoom c s full =
    let gone = evict_oldest_locked_lem c ne s.named s.distinct in
    let shorter = length-delete_found gone.0 gone.1 c.entries gone.2 in
    rw gone.3 (record {
      sound = record {
        room = s.room;
        bounded = omega (arith, s.bounded, shorter);
        distinct = Distinct-delete gone.0 c.entries s.distinct;
        named = IsNamed-delete gone.0 c.entries s.named;
      };
      one_more = omega (arith, s.bounded, shorter);
    })
  where
    ne : c.entries ≢ []
    ne e = absurd (omega (arith, s.room, ap length e))

make_room-HasRoom : (c : ResponseCache) → IsSound c → HasRoom (make_room c)
unfolding make_room
make_room-HasRoom c s = elim (Bool-cases (leb c.max_entries (length c.entries))) [
  | inl full ↦ rw full (evict_oldest_locked-HasRoom c s (leb→le _ _ full))
  | inr free ↦ rw free (record { sound = s; one_more = ground arith })
]

insert-IsSound :
    (c : ResponseCache) (key : Text) (e : CachedResponse)
    → key ≢ []
    → HasRoom c
    → IsSound (record c { entries = insert key e c.entries })
insert-IsSound c key e ne h = record {
  room = h.sound.room;
  bounded = ground (arith, length-insert key e c.entries, h.one_more);
  distinct = Distinct-insert key e c.entries h.sound.distinct;
  named = IsNamed-insert key e c.entries ne h.sound.named;
}

store_entry-IsSound :
    (c : ResponseCache) (key : Text) (e : CachedResponse) (now : ℕ)
    → key ≢ []
    → IsSound c
    → IsSound (store_entry c key e now)
unfolding store_entry
store_entry-IsSound c key e now ne s =
    insert-IsSound _ key e ne
      (make_room-HasRoom (evict_expired_locked c now) (evict_expired_locked-IsSound c now s))

-- `Store` leaves the cache as it was, or stores one entry under the key of the request.
pub store_cases {ℓ} :
    (P : ResponseCache → Type ℓ) (c : ResponseCache) (key : Option Text) (response : Option Msg)
    (now : ℕ)
    → P c
    → ((k : Text) (m : Msg)
        → key ≡ some k
        → response ≡ some m
        → is_cacheable_response (some m) ≡ true
        → 0 < cache_entry_ttl (some m) c.default_ttl
        → P (
            store_entry c k
              (record {
                message = m;
                stored_at = now;
                expires_at = now + cache_entry_ttl (some m) c.default_ttl;
              })
              now))
    → P (store_response c key response now)
unfolding store_response
store_cases P c none response now p q = p
store_cases P c (some key) none now p q = p
store_cases P c (some key) (some m) now p q =
    if_cases P (not (is_cacheable_response (some m))) (λ e. p)
      λ cacheable.
        if_cases P (leb (cache_entry_ttl (some m) c.default_ttl) 0) (λ e. p)
          λ lasting. q key m refl refl (ground arith) (ground arith)

-- `Store` keeps the cache sound: whatever is stored, the cache holds at most its limit of entries,
-- each under a key of its own that is not empty.
pub store-IsSound :
    (c : ResponseCache) (request response : Option Msg) (now : ℕ)
    → IsSound c
    → IsSound (store_response c (cache_key request) response now)
store-IsSound c request response now s =
    store_cases IsSound c (cache_key request) response now s
      λ k m key _ _ _. store_entry-IsSound c k _ now (cache_key-ne-nil request k key) s

-- A new cache is sound, and lets entries live for a positive time, also where the time asked for is
-- not positive. There is none exactly where the limit asked for is not positive.
abbrev pub IsNewCache : Option ResponseCache → Type 0
IsNewCache none = ⊥
IsNewCache (some c) = IsSound c × (0 < c.default_ttl) × (c.stale_ttl ≡ default_stale_ttl)

pub new_response_cache-IsNewCache :
    (m d : ℤ) → not_positive m ≡ false → IsNewCache (new_response_cache m d)
unfolding new_response_cache
new_response_cache-IsNewCache m d positive = rw positive (
  record { room = ground arith; bounded = omega arith; distinct = tt; named = tt },
  ground arith,
  refl,
)
