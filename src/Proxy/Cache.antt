-- ===== src/Proxy/Cache.antt =====
-- pkg/proxy/cache.go: the response cache. Each operation holds the lock, so it is one step; a nil
-- cache is `none`. The proofs are in the modules below.
pub mod Size
pub mod Lookup
pub mod Fresh
pub mod Serves
pub mod Evict
mod Tests
use astradns_agent.Common.{
  ℕ, ◌+◌, ◌-◌, Bool, true, false, not, ◌||◌, ◌*◌, ltb, leb, Option, none, some, List, [], ◌∷◌, Text,
  text_eq, Dict, lookup, insert, delete, retain, length, ℤ, pos_part, not_positive, second, minute,
  if◌then◌else◌,
}
use astradns_agent.Dns.{Msg}
use astradns_agent.Proxy.Message.{
  cache_key, is_cacheable_response, cache_entry_ttl, aged, staled, map_records, with_id,
  elapsed_seconds,
}

pub record CachedResponse : Type 0 where
  pub message : Msg
  pub stored_at : ℕ
  pub expires_at : ℕ

pub record ResponseCache : Type 0 where
  pub entries : Dict CachedResponse
  pub max_entries : ℕ
  pub default_ttl : ℕ
  pub stale_ttl : ℕ

abbrev pub default_stale_ttl : ℕ
default_stale_ttl = 5 * minute

unfoldable pub new_response_cache : ℤ → ℤ → Option ResponseCache
new_response_cache max_entries default_ttl =
    if not_positive max_entries
    then none
    else some (record {
      entries = [];
      max_entries = pos_part max_entries;
      default_ttl = if not_positive default_ttl then 30 * second else pos_part default_ttl;
      stale_ttl = default_stale_ttl;
    })

unfoldable pub clone_cached_response : CachedResponse → Option Msg → ℕ → Msg
clone_cached_response entry request now =
    let response = with_id request entry.message in
    let elapsed = elapsed_seconds entry.stored_at now in
    if leb elapsed 0 then response else map_records (aged elapsed) response

-- `c.entries[key]`, where the request has a key.
abbrev pub entry_of : ResponseCache → Option Text → Option CachedResponse
entry_of c none = none
entry_of c (some key) = lookup key c.entries

unfoldable pub fresh_response : Option CachedResponse → Option Msg → ℕ → Option Msg
fresh_response none request now = none
fresh_response (some entry) request now =
    if not (ltb now entry.expires_at) then none else some (clone_cached_response entry request now)

-- `Get`: `none` is `nil, false`.
unfoldable pub get : Option ResponseCache → Option Msg → ℕ → Option Msg
get none request now = none
get (some c) request now = fresh_response (entry_of c (cache_key request)) request now

unfoldable pub stale_response : ℕ → Option CachedResponse → Option Msg → ℕ → Option Msg
stale_response stale_ttl none request now = none
stale_response stale_ttl (some entry) request now =
    if ltb now entry.expires_at
    then some (clone_cached_response entry request now)
    else if ltb stale_ttl (now - entry.expires_at)
    then none
    else some (map_records staled (with_id request entry.message))

-- `GetStale`
unfoldable pub get_stale : Option ResponseCache → Option Msg → ℕ → Option Msg
get_stale none request now = none
get_stale (some c) request now =
    stale_response c.stale_ttl (entry_of c (cache_key request)) request now

-- The loop of `evictExpiredLocked` deletes what this refuses. `now.Sub(t)` is below the stale time
-- where `now` is before `t`, and so is the difference on ℕ, which is then 0.
unfoldable pub within_stale : ℕ → ℕ → Text → CachedResponse → Bool
within_stale stale_ttl now key entry = not (ltb stale_ttl (now - entry.expires_at))

unfoldable pub evict_expired_locked : ResponseCache → ℕ → ResponseCache
evict_expired_locked c now = record c { entries = retain (within_stale c.stale_ttl now) c.entries }

-- The loop of `evictOldestLocked`, over the pair of `oldestKey` and `oldestTime`.
unfoldable pub older : Text × ℕ → Text → CachedResponse → Text × ℕ
older best key entry =
    if text_eq best.0 [] || ltb entry.expires_at best.1 then (key, entry.expires_at) else best

unfoldable pub oldest : Text × ℕ → Dict CachedResponse → Text × ℕ
oldest best [] = best
oldest best ((key, entry) ∷ entries) = oldest (older best key entry) entries

unfoldable pub evict_oldest_locked : ResponseCache → ResponseCache
evict_oldest_locked c =
    let oldest_key = (oldest ([], 0) c.entries).0 in
    if not (text_eq oldest_key []) then record c { entries = delete oldest_key c.entries } else c

-- `if len(c.entries) >= c.maxEntries { c.evictOldestLocked() }`
unfoldable pub make_room : ResponseCache → ResponseCache
make_room c = if leb c.max_entries (length c.entries) then evict_oldest_locked c else c

-- The part of `Store` under the lock.
unfoldable pub store_entry : ResponseCache → Text → CachedResponse → ℕ → ResponseCache
store_entry c key entry now =
    let room = make_room (evict_expired_locked c now) in
    record room { entries = insert key entry room.entries }

unfoldable pub store_response : ResponseCache → Option Text → Option Msg → ℕ → ResponseCache
store_response c none response now = c
store_response c (some key) none now = c
store_response c (some key) (some response) now =
    let ttl = cache_entry_ttl (some response) c.default_ttl in
    if not (is_cacheable_response (some response))
    then c
    else if leb ttl 0
    then c
    else store_entry c key (record { message = response; stored_at = now; expires_at = now + ttl })
        now

-- `Store`
unfoldable pub store : Option ResponseCache → Option Msg → Option Msg → ℕ → Option ResponseCache
store none request response now = none
store (some c) request response now = some (store_response c (cache_key request) response now)
