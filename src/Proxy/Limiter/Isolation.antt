-- ===== src/Proxy/Limiter/Isolation.antt =====
-- A request from one source leaves the buckets of the others alone.
use astradns_agent.Common.{
  ℕ, ◌+◌, ◌%◌, ◌^◌, ◌==◌, ◌≡◌, ◌≢◌, refl, Bool, Option, none, some, Text, text_eq_iff, lookup,
  insert, lookup-insert, lookup-retain, arith, Option-cases, if_cases, inl, inr,
}
use astradns_agent.Proxy.Limiter.{
  new_token_bucket, bucket_allow, PerSourceLimiter, PerSource, Place, shared, own, is_recent,
  cleanup_expired_locked, source_key, count_request, is_full, add_source, find_place, seen_or_new,
  lookup_per_source_bucket, own_allow, place_allow, source_allow,
}
use astradns_agent.Proxy.Limiter.Sources.{IsBounded, count_request-IsBounded}

-- Whatever stands at a key afterwards stood there before.
abbrev pub NothingNew : Text → PerSource → PerSource → Type 0
NothingNew j before after =
    (e : PerSourceLimiter) → lookup j after.sources ≡ some e → lookup j before.sources ≡ some e

module _ (j : Text) where
  cleanup-NothingNew :
      (r : PerSource) (now : ℕ) → IsBounded r → NothingNew j r (cleanup_expired_locked r now)
  unfolding cleanup_expired_locked
  cleanup-NothingNew r now b e =
      ground (arith, lookup-retain (is_recent r.state_ttl now) j r.sources b.distinct)

  count-NothingNew : (r : PerSource) (now : ℕ) → IsBounded r → NothingNew j r (count_request r now)
  unfolding count_request
  count-NothingNew r now b =
      let count = (r.request_count + 1) % 2 ^ 64 in
      let counted : PerSource = record r { request_count = count } in
      if_cases (NothingNew j r) (count % 256 == 0) {x = cleanup_expired_locked counted now}
        {y = counted}
        (λ _.
          cleanup-NothingNew counted now (record { distinct = b.distinct; bounded = b.bounded }))
        (λ _ e h. h)

  insert-NothingNew :
      (r : PerSource) (key : Text) (entry : PerSourceLimiter)
      → key ≢ j
      → NothingNew j r (record r { sources = insert key entry r.sources })
  insert-NothingNew r key entry ne e h =
      ground (arith, text_eq_iff key j, lookup-insert key j entry r.sources)

  add_source-NothingNew :
      (r : PerSource) (key : Text) (now : ℕ) → key ≢ j → NothingNew j r (add_source r key now).0
  unfolding add_source
  add_source-NothingNew r key now ne =
      elim (Option-cases (new_token_bucket r.per_source_rate r.per_source_burst now)) [
        | inl e ↦ rw (e, add_source) (λ _ h. h)
        | inr (bucket, e) ↦
            rw (e, add_source)
              (insert-NothingNew r key (record { bucket = bucket; last_seen = now }) ne)
      ]

  find_place-NothingNew :
      (r : PerSource) (key : Text) (now : ℕ)
      → IsBounded r
      → key ≢ j
      → NothingNew j r (find_place r key now).0
  unfolding find_place
  find_place-NothingNew r key now b ne =
      let sweep = cleanup-NothingNew r now b in
      if_cases (λ (p : PerSource × Place). NothingNew j r p.0) (is_full r)
        (λ _.
          if_cases (λ (p : PerSource × Place). NothingNew j r p.0)
            (is_full (cleanup_expired_locked r now)) (λ _. sweep)
            λ _ e h. sweep e (add_source-NothingNew (cleanup_expired_locked r now) key now ne e h))
        λ _. add_source-NothingNew r key now ne

  seen_or_new-NothingNew :
      (r : PerSource) (key : Text) (now : ℕ) (o : Option PerSourceLimiter)
      → IsBounded r
      → key ≢ j
      → NothingNew j r (seen_or_new r key now o).0
  unfolding seen_or_new
  seen_or_new-NothingNew r key now none b ne = find_place-NothingNew r key now b ne
  seen_or_new-NothingNew r key now (some existing) b ne =
      insert-NothingNew r key (record existing { last_seen = now }) ne

-- The place found for a source is its own bucket or the shared one.
abbrev IsFor : Text → Place → Type 0
IsFor key shared = Unit
IsFor key (own k) = k ≡ key

add_source-IsFor : (r : PerSource) (key : Text) (now : ℕ) → IsFor key (add_source r key now).1
unfolding add_source
add_source-IsFor r key now =
    elim (Option-cases (new_token_bucket r.per_source_rate r.per_source_burst now)) [
      | inl e ↦ rw (e, add_source) tt
      | inr (bucket, e) ↦ rw (e, add_source) refl
    ]

find_place-IsFor : (r : PerSource) (key : Text) (now : ℕ) → IsFor key (find_place r key now).1
unfolding find_place
find_place-IsFor r key now =
    if_cases (λ (p : PerSource × Place). IsFor key p.1) (is_full r)
      (λ _.
        if_cases (λ (p : PerSource × Place). IsFor key p.1) (is_full (cleanup_expired_locked r now))
          (λ _. tt) λ _. add_source-IsFor (cleanup_expired_locked r now) key now)
      λ _. add_source-IsFor r key now

seen_or_new-IsFor :
    (r : PerSource) (key : Text) (now : ℕ) (o : Option PerSourceLimiter)
    → IsFor key (seen_or_new r key now o).1
unfolding seen_or_new
seen_or_new-IsFor r key now none = find_place-IsFor r key now
seen_or_new-IsFor r key now (some existing) = refl

own_allow-NothingNew :
    (j : Text) (r : PerSource) (key : Text) (now : ℕ) (o : Option PerSourceLimiter)
    → key ≢ j
    → NothingNew j r (own_allow r key now o).0
unfolding own_allow
own_allow-NothingNew j r key now none ne = λ _ h. h
own_allow-NothingNew j r key now (some entry) ne =
    insert-NothingNew j r key (record entry { bucket = (bucket_allow entry.bucket now).0 }) ne

place_allow-NothingNew :
    (j : Text) (r : PerSource) (key : Text) (place : Place) (now : ℕ)
    → key ≢ j
    → IsFor key place
    → NothingNew j r (place_allow r place now).0
unfolding place_allow
place_allow-NothingNew j r key shared now ne f = λ _ h. h
place_allow-NothingNew j r key (own k) now ne f =
    own_allow-NothingNew j r k now (lookup k r.sources) (rw f ne)

-- After a request from a source, the bucket of any other source is as it was before, with the time
-- it was last seen, or has been swept away. This supposes that the map holds each source once.
pub source_allow-others :
    (r after : PerSource) (source j : Text) (now : ℕ) (ok : Bool) (e : PerSourceLimiter)
    → IsBounded r
    → source_key source ≢ j
    → source_allow (some r) source now ≡ (some after, ok)
    → lookup j after.sources ≡ some e
    → lookup j r.sources ≡ some e
unfolding source_allow lookup_per_source_bucket
source_allow-others r after source j now ok e b ne run h =
    let key = source_key source in
    let counted = count_request r now in
    let found = seen_or_new counted key now (lookup key counted.sources) in
    let same : (place_allow found.0 found.1 now).0 ≡ after = ground (arith, run) in
    count-NothingNew j r now b e (
      seen_or_new-NothingNew j counted key now (lookup key counted.sources)
        (count_request-IsBounded r now b) ne e
        (place_allow-NothingNew j found.0 key found.1 now ne
          (seen_or_new-IsFor counted key now (lookup key counted.sources)) e (rw same h)))
