-- ===== src/Proxy/Limiter/Sources.antt =====
-- The buckets of the sources.
use astradns_agent.Common.{
  ℕ, ◌+◌, ◌%◌, ◌^◌, ◌==◌, ◌≤◌, ◌<◌, ◌≡◌, ◌⊎◌, refl, true, false, Option, none, some, arith,
  Option-cases, if_cases, inl, inr, Text, is_some, lookup, insert, length, Distinct,
  Distinct-insert, Distinct-retain, length-insert, length-retain-le, pos_part, not_positive,
}
use astradns_agent.Proxy.Limiter.{
  new_token_bucket, bucket_allow, PerSourceLimiter, PerSource, Place, shared, own, is_recent,
  cleanup_expired_locked, source_key, count_request, is_full, add_source, find_place, seen_or_new,
  lookup_per_source_bucket, own_allow, place_allow, source_allow,
}

-- The map holds each source once, and no more sources than its limit.
pub record IsBounded (r : PerSource) : Type 0 where
  pub distinct : Distinct r.sources
  pub bounded : length r.sources ≤ pos_part r.max_sources

pub cleanup_expired_locked-IsBounded :
    (r : PerSource) (now : ℕ) → IsBounded r → IsBounded (cleanup_expired_locked r now)
unfolding cleanup_expired_locked
cleanup_expired_locked-IsBounded r now b =
    if_cases IsBounded (not_positive r.state_ttl) (λ _. b)
      λ _. record {
        distinct = Distinct-retain (is_recent r.state_ttl now) r.sources b.distinct;
        bounded = omega (arith, length-retain-le (is_recent r.state_ttl now) r.sources, b.bounded);
      }

pub count_request-IsBounded :
    (r : PerSource) (now : ℕ) → IsBounded r → IsBounded (count_request r now)
unfolding count_request
count_request-IsBounded r now b =
    let count = (r.request_count + 1) % 2 ^ 64 in
    let counted : PerSource = record r { request_count = count } in
    let same : IsBounded counted = record { distinct = b.distinct; bounded = b.bounded } in
    if_cases IsBounded (count % 256 == 0) {x = cleanup_expired_locked counted now} {y = counted}
      (λ _. cleanup_expired_locked-IsBounded counted now same) (λ _. same)

-- A write to a source that is known, or to a map with room.
insert-IsBounded :
    (r : PerSource) (key : Text) (entry : PerSourceLimiter)
    → IsBounded r
    → (is_some (lookup key r.sources) ≡ true) ⊎ (length r.sources < pos_part r.max_sources)
    → IsBounded (record r { sources = insert key entry r.sources })
insert-IsBounded r key entry b room = record {
  distinct = Distinct-insert key entry r.sources b.distinct;
  bounded = ground (arith, length-insert key entry r.sources, b.bounded);
}

add_source-IsBounded :
    (r : PerSource) (key : Text) (now : ℕ)
    → IsBounded r
    → is_full r ≡ false
    → IsBounded (add_source r key now).0
unfolding add_source is_full
add_source-IsBounded r key now b room =
    elim (Option-cases (new_token_bucket r.per_source_rate r.per_source_burst now)) [
      | inl e ↦ rw (e, add_source) b
      | inr (bucket, e) ↦
          rw (e, add_source)
            (insert-IsBounded r key (record { bucket = bucket; last_seen = now }) b
              (inr (ground arith)))
    ]

find_place-IsBounded :
    (r : PerSource) (key : Text) (now : ℕ) → IsBounded r → IsBounded (find_place r key now).0
unfolding find_place
find_place-IsBounded r key now b =
    let swept = cleanup_expired_locked-IsBounded r now b in
    if_cases (λ (p : PerSource × Place). IsBounded p.0) (is_full r)
      (λ _.
        if_cases (λ (p : PerSource × Place). IsBounded p.0) (is_full (cleanup_expired_locked r now))
          (λ _. swept)
          λ free. add_source-IsBounded (cleanup_expired_locked r now) key now swept free)
      λ free. add_source-IsBounded r key now b free

pub seen_or_new-IsBounded :
    (r : PerSource) (key : Text) (now : ℕ) (o : Option PerSourceLimiter)
    → lookup key r.sources ≡ o
    → IsBounded r
    → IsBounded (seen_or_new r key now o).0
unfolding seen_or_new
seen_or_new-IsBounded r key now none e b = find_place-IsBounded r key now b
seen_or_new-IsBounded r key now (some existing) e b =
    insert-IsBounded r key (record existing { last_seen = now }) b (inl (ground (arith, e)))

own_allow-IsBounded :
    (r : PerSource) (key : Text) (now : ℕ) (o : Option PerSourceLimiter)
    → lookup key r.sources ≡ o
    → IsBounded r
    → IsBounded (own_allow r key now o).0
unfolding own_allow
own_allow-IsBounded r key now none e b = b
own_allow-IsBounded r key now (some entry) e b =
    insert-IsBounded r key (record entry { bucket = (bucket_allow entry.bucket now).0 }) b
      (inl (ground (arith, e)))

place_allow-IsBounded :
    (r : PerSource) (place : Place) (now : ℕ) → IsBounded r → IsBounded (place_allow r place now).0
unfolding place_allow
place_allow-IsBounded r shared now b = record { distinct = b.distinct; bounded = b.bounded }
place_allow-IsBounded r (own key) now b =
    own_allow-IsBounded r key now (lookup key r.sources) refl b

-- What one request does to the buckets of the sources.
abbrev pub IsBounded? : Option PerSource → Type 0
IsBounded? none = Unit
IsBounded? (some r) = IsBounded r

-- A request from any source, known or not, keeps the map within its limit and each source in it
-- once.
pub source_allow-IsBounded :
    (r : PerSource) (source : Text) (now : ℕ)
    → IsBounded r
    → IsBounded? (source_allow (some r) source now).0
unfolding source_allow lookup_per_source_bucket
source_allow-IsBounded r source now b = place_allow-IsBounded _ _ now (
    seen_or_new-IsBounded (count_request r now) (source_key source) now _ refl
      (count_request-IsBounded r now b))
