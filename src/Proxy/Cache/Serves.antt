-- ===== src/Proxy/Cache/Serves.antt =====
-- What the messages are with which the cache answers.
use astradns_agent.Common.{
  ℕ, ◌+◌, ◌-◌, ◌/◌, ◌%◌, ◌^◌, ◌≡◌, Bool-cases, inl, inr, Option, none, some, Text, ltb, leb, second,
  if◌then◌else◌,
}
use astradns_agent.Dns.{Msg}
use astradns_agent.Proxy.Message.{cache_key, cache_entry_ttl, elapsed_seconds}
use astradns_agent.Proxy.Message.Copies.{IsLess, IsOne, IsCopy, aged-IsCopy, staled-IsCopy}
use astradns_agent.Proxy.Cache.{
  CachedResponse, ResponseCache, store, get_stale, clone_cached_response,
}
use astradns_agent.Proxy.Cache.Lookup.{IsKept, entry_for, get_stale-store}

-- The whole seconds from `t` to `now`, as a uint32.
abbrev pub seconds_since : ℕ → ℕ → ℕ
seconds_since t now = (now - t) / second % 2 ^ 32

pub clone-IsCopy :
    (e : CachedResponse) (again : Msg) (now : ℕ)
    → IsCopy
        (IsLess (seconds_since e.stored_at now))
        again
        e.message
        (clone_cached_response e (some again) now)
unfolding clone_cached_response elapsed_seconds
clone-IsCopy e again now = aged-IsCopy (seconds_since e.stored_at now) again e.message

-- No message where none is described, and one that is as described.
abbrev pub Meets : Option (Msg → Type 0) → Option Msg → Type 0
Meets none none = Unit
Meets none (some r) = ⊥
Meets (some P) none = ⊥
Meets (some P) (some r) = P r

-- After `Store` of a response that can be cached, `GetStale` for a request with the same key answers
-- with the records of that response and the id of the request: while the time to live lasts, with
-- each `Ttl` less the whole seconds since it was stored, counted modulo 2 ^ 32; from then on, up to
-- the stale time after it has expired, with each `Ttl` at 1; then with nothing.
pub get_stale-store-Meets :
    (c : ResponseCache) (request : Option Msg) (again m : Msg) (key : Text) (t now : ℕ)
    → cache_key request ≡ some key
    → cache_key (some again) ≡ some key
    → IsKept c m
    → Meets
        (if ltb now (t + cache_entry_ttl (some m) c.default_ttl)
          then some (IsCopy (IsLess (seconds_since t now)) again m)
          else if leb now (t + cache_entry_ttl (some m) c.default_ttl + c.stale_ttl)
          then some (IsCopy IsOne again m)
          else none)
        (get_stale (store (some c) request (some m) t) (some again) now)
get_stale-store-Meets c request again m key t now kr ka k =
    rw (get_stale-store c request (some again) m key t now kr ka k)
      (elim (Bool-cases (ltb now (t + cache_entry_ttl (some m) c.default_ttl))) [
        | inl fresh ↦ rw fresh (clone-IsCopy (entry_for c m t) again now)
        | inr over ↦
            elim (Bool-cases (leb now (t + cache_entry_ttl (some m) c.default_ttl + c.stale_ttl))) [
              | inl stale ↦ rw (over, stale) (staled-IsCopy again m)
              | inr gone ↦ rw (over, gone) tt
            ]
      ])
