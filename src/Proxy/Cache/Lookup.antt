-- ===== src/Proxy/Cache/Lookup.antt =====
-- What `Get` and `GetStale` return after `Store`.
use astradns_agent.Common.{
  ℕ, ◌+◌, ◌<◌, ◌≡◌, ◌≢◌, refl, ap, ◌∙◌, Option, none, some, [], Text, text_eq_iff, lookup, Distinct,
  lookup-insert, lookup-delete, lookup-retain, arith, true, if◌then◌else◌, leb, ltb,
}
use astradns_agent.Dns.{Msg}
use astradns_agent.Proxy.Message.{
  cache_key, is_cacheable_response, cache_entry_ttl, map_records, staled, with_id,
}
use astradns_agent.Proxy.Cache.{
  CachedResponse, ResponseCache, oldest, evict_oldest_locked, evict_expired_locked, make_room,
  within_stale, store_entry, store_response, store, get, get_stale, entry_of, fresh_response,
  stale_response, clone_cached_response,
}
use astradns_agent.Proxy.Cache.Size.{IsSound, evict_expired_locked-IsSound, store_cases}

-- What `Store` puts into the cache for a response.
abbrev pub entry_for : ResponseCache → Msg → ℕ → CachedResponse
entry_for c m t = record {
  message = m;
  stored_at = t;
  expires_at = t + cache_entry_ttl (some m) c.default_ttl;
}

-- A response that `Store` does not refuse.
pub record IsKept (c : ResponseCache) (m : Msg) : Type 0 where
  pub cacheable : is_cacheable_response (some m) ≡ true
  pub lasting : 0 < cache_entry_ttl (some m) c.default_ttl

pub lookup-store_entry :
    (c : ResponseCache) (key : Text) (e : CachedResponse) (now : ℕ)
    → lookup key (store_entry c key e now).entries ≡ some e
unfolding store_entry
lookup-store_entry c key e now = ground (
  arith,
  text_eq_iff key key,
  lookup-insert key key e (make_room (evict_expired_locked c now)).entries,
)

lookup-store_response :
    (c : ResponseCache) (key : Text) (m : Msg) (t : ℕ)
    → IsKept c m
    → lookup key (store_response c (some key) (some m) t).entries ≡ some (entry_for c m t)
unfolding store_response
lookup-store_response c key m t k =
    ground (arith, k.cacheable, k.lasting, lookup-store_entry c key (entry_for c m t) t)

-- After `Store` of a cacheable response, `Get` for a request with the same key returns a copy of
-- it, aged and with the id of that request, while the time to live lasts, and nothing from then on.
pub get-store :
    (c : ResponseCache) (request again : Option Msg) (m : Msg) (key : Text) (t now : ℕ)
    → cache_key request ≡ some key
    → cache_key again ≡ some key
    → IsKept c m
    → get (store (some c) request (some m) t) again now ≡ (
        if ltb now (t + cache_entry_ttl (some m) c.default_ttl)
        then some (clone_cached_response (entry_for c m t) again now)
        else none)
unfolding get store fresh_response
get-store c request again m key t now kr ka k =
    rw (kr, ka, lookup-store_response c key m t k) (ground arith)

stale_ttl-store_entry :
    (c : ResponseCache) (key : Text) (e : CachedResponse) (now : ℕ)
    → (store_entry c key e now).stale_ttl ≡ c.stale_ttl
unfolding store_entry make_room evict_oldest_locked evict_expired_locked
stale_ttl-store_entry c key e now = ground arith

pub stale_ttl-store_response :
    (c : ResponseCache) (key : Option Text) (response : Option Msg) (now : ℕ)
    → (store_response c key response now).stale_ttl ≡ c.stale_ttl
stale_ttl-store_response c key response now =
    store_cases (λ d. d.stale_ttl ≡ c.stale_ttl) c key response now refl
      λ k m _ _ _ _. stale_ttl-store_entry c k (entry_for c m now) now

-- The same of `GetStale`, which has a period more.
pub get_stale-store :
    (c : ResponseCache) (request again : Option Msg) (m : Msg) (key : Text) (t now : ℕ)
    → cache_key request ≡ some key
    → cache_key again ≡ some key
    → IsKept c m
    → get_stale (store (some c) request (some m) t) again now ≡ (
        if ltb now (t + cache_entry_ttl (some m) c.default_ttl)
        then some (clone_cached_response (entry_for c m t) again now)
        else if leb now (t + cache_entry_ttl (some m) c.default_ttl + c.stale_ttl)
        then some (map_records staled (with_id again m))
        else none)
unfolding get_stale store stale_response
get_stale-store c request again m key t now kr ka k =
    rw (kr, ka, lookup-store_response c key m t k)
      (ground (arith, stale_ttl-store_response c (some key) (some m) t))

evict_expired_locked-keeps :
    (c : ResponseCache) (now : ℕ) (j : Text) (e : CachedResponse)
    → Distinct c.entries
    → lookup j (evict_expired_locked c now).entries ≡ some e
    → lookup j c.entries ≡ some e
unfolding evict_expired_locked
evict_expired_locked-keeps c now j e d h =
    ground (arith, lookup-retain (within_stale c.stale_ttl now) j c.entries d)

make_room-keeps :
    (c : ResponseCache) (j : Text) (e : CachedResponse)
    → Distinct c.entries
    → lookup j (make_room c).entries ≡ some e
    → lookup j c.entries ≡ some e
unfolding make_room evict_oldest_locked
make_room-keeps c j e d h = ground (arith, lookup-delete (oldest ([], 0) c.entries).0 j c.entries d)

pub store_entry-keeps :
    (c : ResponseCache) (key j : Text) (new e : CachedResponse) (now : ℕ)
    → IsSound c
    → key ≢ j
    → lookup j (store_entry c key new now).entries ≡ some e
    → lookup j c.entries ≡ some e
unfolding store_entry
store_entry-keeps c key j new e now s ne h = evict_expired_locked-keeps c now j e s.distinct (
    make_room-keeps (evict_expired_locked c now) j e (evict_expired_locked-IsSound c now s).distinct
      (ground (
        arith,
        text_eq_iff key j,
        lookup-insert key j new (make_room (evict_expired_locked c now)).entries,
      )))

store_response-keeps :
    (c : ResponseCache) (key other : Option Text) (response : Option Msg) (now : ℕ)
    (e : CachedResponse)
    → IsSound c
    → key ≢ other
    → entry_of (store_response c key response now) other ≡ some e
    → entry_of c other ≡ some e
store_response-keeps c key none response now e s ne = λ h. cc (h)
store_response-keeps c key (some j) response now e s ne =
    store_cases (λ d. lookup j d.entries ≡ some e → lookup j c.entries ≡ some e) c key response now
      (λ h. h)
      λ k m same _ _ _ h.
        store_entry-keeps c k j (entry_for c m now) e now s (λ kj. ne (same ∙ ap some kj)) h

fresh_response-some :
    (o : Option CachedResponse) (request : Option Msg) (now : ℕ) (r : Msg)
    → fresh_response o request now ≡ some r
    → (e : CachedResponse) × (o ≡ some e)
unfolding fresh_response
fresh_response-some none request now r h = cc
fresh_response-some (some e) request now r h = (e, refl)

-- `Store` puts nothing under another key: what `Get` returns afterwards for such a request it
-- returned before.
pub get-store_other :
    (c : ResponseCache) (request response other : Option Msg) (t now : ℕ) (r : Msg)
    → IsSound c
    → cache_key request ≢ cache_key other
    → get (store (some c) request response t) other now ≡ some r
    → get (some c) other now ≡ some r
unfolding get store
get-store_other c request response other t now r s ne h =
    let found =
      fresh_response-some
        (entry_of (store_response c (cache_key request) response t) (cache_key other)) other now r
        h in
    let before =
      store_response-keeps c (cache_key request) (cache_key other) response t found.0 s ne
        found.1 in
    rw before (rw found.1 at h)
