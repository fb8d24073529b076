-- ===== src/Proxy/Cache/Fresh.antt =====
-- How the answers from the cache age.
use astradns_agent.Common.{
  ℕ, ◌+◌, ◌-◌, ◌*◌, ◌/◌, ◌^◌, ◌≤◌, ◌<◌, ◌≡◌, refl, sym, ap, ap₂, ◌∙◌, Option, none, some, List, [],
  ◌∷◌, map, All, Text, text_eq, text_eq_iff, lookup, arith, Bool-cases, inl, inr, if◌then◌else◌,
  leb, second,
}
use mathlib.Core.List.{map-append}
use astradns_agent.Dns.{Msg, Rr}
use astradns_agent.Proxy.Message.{
  cache_key, cache_entry_ttl, map_records, with_id, aged, elapsed_seconds, all_records,
}
use astradns_agent.Proxy.Message.Ages.{Lasts, AgesBy, aged-AgesBy, cache_entry_ttl-Lasts}
use astradns_agent.Proxy.Cache.{
  CachedResponse, ResponseCache, store_entry, store_response, get, fresh_response,
  clone_cached_response, make_room, evict_oldest_locked, evict_expired_locked,
}
use astradns_agent.Proxy.Cache.Size.{IsSound, store_cases}
use astradns_agent.Proxy.Cache.Lookup.{entry_for, store_entry-keeps, lookup-store_entry}

-- Every entry expires when the time to live of its message, taken from the moment of its storage,
-- has passed.
abbrev pub IsTimed : ResponseCache → Type 0
IsTimed c =
    (k : Text) (e : CachedResponse)
    → lookup k c.entries ≡ some e
    → e.expires_at ≡ e.stored_at + cache_entry_ttl (some e.message) c.default_ttl

default_ttl-store_entry :
    (c : ResponseCache) (key : Text) (e : CachedResponse) (now : ℕ)
    → (store_entry c key e now).default_ttl ≡ c.default_ttl
unfolding store_entry make_room evict_oldest_locked evict_expired_locked
default_ttl-store_entry c key e now = ground arith

store_entry-IsTimed :
    (c : ResponseCache) (key : Text) (m : Msg) (now : ℕ)
    → IsSound c
    → IsTimed c
    → IsTimed (store_entry c key (entry_for c m now) now)
store_entry-IsTimed c key m now s t k e h =
    rw default_ttl-store_entry (elim (Bool-cases (text_eq key k)) [
      | inl same ↦
          ground (arith, text_eq_iff key k, lookup-store_entry c key (entry_for c m now) now)
      | inr other ↦ t k e (
          store_entry-keeps c key k (entry_for c m now) e now s
            (λ kk. ground (arith, text_eq_iff key k)) h)
    ])

-- `Store` keeps the entries timed.
pub store-IsTimed :
    (c : ResponseCache) (request response : Option Msg) (now : ℕ)
    → IsSound c
    → IsTimed c
    → IsTimed (store_response c (cache_key request) response now)
store-IsTimed c request response now s t =
    store_cases IsTimed c (cache_key request) response now t
      λ k m _ _ _ _. store_entry-IsTimed c k m now s t

map-aged_zero : (rs : List Rr) → map (aged 0) rs ≡ rs
map-aged_zero [] = refl
map-aged_zero (r ∷ rs) = ap₂ ◌∷◌ (aged_zero r.header r.body) (map-aged_zero rs)
  where
    aged_zero :
        (h : Option ℕ) (b : ℕ)
        → aged 0 (record { header = h; body = b }) ≡ record { header = h; body = b }
    aged_zero none b = unfold aged in refl
    aged_zero (some ttl) b = unfold aged in ground arith

-- The loop is skipped where no second has passed, which makes no difference.
records_aged :
    (m : Msg) (elapsed : ℕ)
    → all_records (if leb elapsed 0 then m else map_records (aged elapsed) m)
      ≡ map (aged elapsed) (all_records m)
unfolding map_records
records_aged m elapsed = elim (Bool-cases (leb elapsed 0)) [
  | inl zero ↦
      let none_passed : elapsed ≡ 0 = ground arith in
      rw none_passed (sym (map-aged_zero (all_records m)))
  | inr some_passed ↦ rw some_passed (simp map-append)
]

-- The copy that `cloneCachedResponse` makes holds the records of the message, each aged.
records-clone :
    (e : CachedResponse) (request : Option Msg) (now : ℕ)
    → all_records (clone_cached_response e request now)
      ≡ map (aged (elapsed_seconds e.stored_at now)) (all_records e.message)
unfolding clone_cached_response map_records with_id
records-clone e none now = records_aged e.message (elapsed_seconds e.stored_at now)
records-clone e (some q) now =
    records_aged (record e.message { id = q.id }) (elapsed_seconds e.stored_at now)

All-Ages :
    (elapsed time : ℕ) (rs : List Rr)
    → All (λ r. Lasts time r.header) rs
    → elapsed * second < time
    → All (λ r. AgesBy elapsed r.header (aged elapsed r).header) rs
All-Ages elapsed time [] l h = tt
All-Ages elapsed time (r ∷ rs) l h =
    (aged-AgesBy elapsed time r l.0 h, All-Ages elapsed time rs l.1 h)

-- From the cache, a request whose entry has not expired is answered with the records of the stored
-- message, each with its `Ttl` less the whole seconds since it was stored; and where that `Ttl` was
-- not 0, it still is not 0. This supposes a life of less than 2 ^ 32 seconds, and a clock that is
-- not behind the time of storage.
pub get-ages :
    (c : ResponseCache) (request : Option Msg) (key : Text) (now : ℕ) (e : CachedResponse)
    → IsTimed c
    → cache_key request ≡ some key
    → lookup key c.entries ≡ some e
    → e.stored_at ≤ now
    → now < e.expires_at
    → e.expires_at < e.stored_at + 2 ^ 32 * second
    → (r : Msg) × (get (some c) request now ≡ some r)
      × (all_records r ≡ map (aged ((now - e.stored_at) / second)) (all_records e.message))
      × All
          (λ x.
            AgesBy
              ((now - e.stored_at) / second)
              x.header
              (aged ((now - e.stored_at) / second) x).header)
          (all_records e.message)
unfolding get fresh_response
get-ages c request key now e t k h after before short =
    let life = t key e h in
    let whole : elapsed_seconds e.stored_at now ≡ (now - e.stored_at) / second =
      unfold elapsed_seconds in omega arith in
    (
      clone_cached_response e request now,
      rw (k, h) (ground arith),
      records-clone e request now ∙ ap (λ n. map (aged n) (all_records e.message)) whole,
      All-Ages ((now - e.stored_at) / second) _ (all_records e.message)
          (cache_entry_ttl-Lasts e.message c.default_ttl) (omega arith),
    )
