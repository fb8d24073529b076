-- ===== src/Proxy/Handler/Faults.antt =====
-- Queries that are refused, denied, or that the engine fails to answer.
use astradns_agent.Common.{
  ℕ, ◌+◌, ◌≤◌, ◌≡◌, ◌≢◌, refl, ap, sym, ◌∙◌, Bool, true, false, Option, none, some, List, [], ◌∷◌,
  Text, arith, ltb, leb, Bool-cases, inl, inr,
}
use astradns_agent.Dns.{Msg, DnsLib, rcode_refused, rcode_server_failure}
use astradns_agent.Proxy.Message.{
  normalize_domain, cache_key, cache_entry_ttl, map_records, staled, with_id,
}
use astradns_agent.Proxy.Message.Copies.{IsOne, IsCopy, staled-IsCopy}
use astradns_agent.Proxy.Filter.{normalize_name, allowed, new_domain_filter}
use astradns_agent.Proxy.Filter.Matching.{Matches, Any}
use astradns_agent.Proxy.Filter.Policy.{allowed_iff}
use astradns_agent.Proxy.Cache.{ResponseCache, get, get_stale, store}
use astradns_agent.Proxy.Cache.Lookup.{IsKept, get-store, get_stale-store}
use astradns_agent.Proxy.Limiter.{allow_request}
use astradns_agent.Proxy.Pool.{Result, ok, err}
use astradns_agent.Proxy.Server.{Proxy, or_refused, update_filter}
use astradns_agent.Proxy.Handler.{
  World, RemoteAddr, source_ip, network_for_remote_addr, emit_denied_event, try_fallback_upstreams,
  answer_engine, answer_fallback, answer_stale, answer_exchange, answer_filtered, answer_limited,
  handle_query,
}
use astradns_agent.Proxy.Handler.Answers.{
  Effect, effect, effect-publish_event, effect-emit, Passes, asked, missing,
}

-- The engine gave an error or a nil response.
abbrev pub Failed : Result (Option Msg) → Type 0
Failed (ok (some m)) = ⊥
Failed (ok none) = Unit
Failed (err e) = Unit

-- An answer with an error code, and nothing else but the limiter and the events changed.
pub record TurnedAway (request : Msg) (before after : Effect) : Type 0 where
  pub reply : Msg
  pub sent_reply : after.sent ≡ reply ∷ before.sent
  pub own_id : reply.id ≡ request.id
  pub no_success : reply.rcode ≢ 0
  pub same_cache : after.cached ≡ before.cached
  pub same_pool : after.pooled ≡ before.pooled

or_refused-ne-success : (r : ℕ) → or_refused r ≢ 0
or_refused-ne-success r e = ground arith

module _ (lib : DnsLib) (w : World) where
  turned_away :
      (request : Msg) (rcode : ℕ) (a b : Effect)
      → rcode ≢ 0
      → b ≡ record {
        sent = lib.set_rcode request rcode ∷ a.sent;
        cached = a.cached;
        pooled = a.pooled;
      }
      → TurnedAway request a b
  turned_away request rcode a b ne e = rw e record {
    reply = lib.set_rcode request rcode;
    sent_reply = refl;
    own_id = lib.id-set_rcode request rcode;
    no_success = λ z. ne (sym (lib.rcode-set_rcode request rcode) ∙ z);
    same_cache = refl;
    same_pool = refl;
  }

  answer_filtered-TurnedAway :
      (p : Proxy) (src network : Text) (request : Msg)
      → p.filter_rcode ≢ 0
      → allowed p.filter (normalize_domain (some request)) ≡ false
      → TurnedAway request (effect p) (effect (answer_filtered lib w p src network request))
  unfolding answer_filtered emit_denied_event
  answer_filtered-TurnedAway p src network request ne denied =
      rw denied (turned_away request p.filter_rcode _ _ ne (effect-publish_event _ _))

  answer_limited-TurnedAway :
      (p : Proxy) (src network : Text) (request : Msg) (admitted : Bool)
      → p.filter_rcode ≢ 0
      → allowed p.filter (normalize_domain (some request)) ≡ false
      → TurnedAway request (effect p) (effect (answer_limited lib w p src network request admitted))
  unfolding answer_limited
  answer_limited-TurnedAway p src network request false ne denied =
      turned_away request rcode_refused _ _ (λ z. ground arith) (effect-emit lib w _ _ _ _ _ _ _)
  answer_limited-TurnedAway p src network request true ne denied =
      answer_filtered-TurnedAway p src network request ne denied

  -- After `UpdateFilter`, a query for a domain with a name in it that some deny pattern matches is
  -- answered with the request's id and an error code, whatever the allow patterns, the code set and
  -- the limiter say; neither the cache nor the engine's connections are touched.
  pub handle_query-denied :
      (p : Proxy) (allow deny : List Text) (rcode : ℕ) (remote : Option RemoteAddr) (request : Msg)
      → normalize_name (normalize_domain (some request)) ≢ []
      → Any (Matches (normalize_name (normalize_domain (some request)))) deny
      → TurnedAway request
          (effect p)
          (effect (handle_query lib w (update_filter p allow deny rcode) remote request))
  unfolding handle_query update_filter
  handle_query-denied p allow deny rcode remote request named m =
      answer_limited-TurnedAway _ (source_ip remote) (network_for_remote_addr remote) request _
        (or_refused-ne-success rcode)
        (elim (Bool-cases
          (allowed (new_domain_filter allow deny) (normalize_domain (some request)))) [
            | inl passes ↦ absurd (((allowed_iff allow deny _ named).0 passes).1 m)
            | inr stopped ↦ stopped
          ])

  failing :
      (p : Proxy) (src : Text) (request : Msg) (r : Result (Option Msg))
      → Failed r
      → answer_exchange lib w p src request r
        ≡ answer_stale lib w p src request (get_stale p.cache (some request) w.started)
  unfolding answer_exchange
  failing p src request (ok (some m)) f = absurd f
  failing p src request (ok none) f = refl
  failing p src request (err e) f = refl

  failed :
      (p : Proxy) (remote : Option RemoteAddr) (request : Msg)
      → Passes w p remote request
      → get p.cache (some request) w.started ≡ none
      → Failed (asked w p remote request).1
      → handle_query lib w p remote request
        ≡ answer_stale lib w
            (record p {
              limiter = (allow_request p.limiter (source_ip remote) w.started).0;
              pool = (asked w p remote request).0;
            })
            (source_ip remote)
            request
            (get_stale p.cache (some request) w.started)
  failed p remote request h absent f =
      missing lib w p remote request h absent
      ∙ failing
          (record p {
            limiter = (allow_request p.limiter (source_ip remote) w.started).0;
            pool = (asked w p remote request).0;
          })
          (source_ip remote) request (asked w p remote request).1 f

  -- A response that can be cached was stored at `t`. The engine fails for a query with the same
  -- key that passes after the time to live of the response is over, and no later than the stale
  -- time after that. It is answered with the records of the stored response, each `Ttl` at 1, and with
  -- its own id; the cache is not changed.
  pub handle_query-stale :
      (p : Proxy) (c : ResponseCache) (remote : Option RemoteAddr) (request again m : Msg)
      (key : Text) (t : ℕ)
      → p.cache ≡ store (some c) (some request) (some m) t
      → IsKept c m
      → cache_key (some request) ≡ some key
      → cache_key (some again) ≡ some key
      → t + cache_entry_ttl (some m) c.default_ttl ≤ w.started
      → w.started ≤ t + cache_entry_ttl (some m) c.default_ttl + c.stale_ttl
      → Passes w p remote again
      → Failed (asked w p remote again).1
      → (r : Msg) × IsCopy IsOne again m r
        × (effect (handle_query lib w p remote again) ≡ record {
          sent = r ∷ p.written;
          cached = p.cache;
          pooled = (asked w p remote again).0;
        })
  unfolding answer_stale
  handle_query-stale p c remote request again m key t pc k kr ka over still passes f =
      let late : ltb w.started (t + cache_entry_ttl (some m) c.default_ttl) ≡ false =
        ground arith in
      let early : leb w.started (t + cache_entry_ttl (some m) c.default_ttl + c.stale_ttl) ≡ true =
        ground arith in
      let absent : get p.cache (some again) w.started ≡ none =
        rw (pc, get-store c (some request) (some again) m key t w.started kr ka k, late) refl in
      let present : get_stale p.cache (some again) w.started
          ≡ some (map_records staled (with_id (some again) m)) =
        rw
          (pc, get_stale-store c (some request) (some again) m key t w.started kr ka k, late, early)
          refl in
      (
        map_records staled (with_id (some again) m),
        staled-IsCopy again m,
        rw (failed p remote again passes absent f, present) (effect-emit lib w _ _ _ _ _ _ _),
      )

  try_fallback_upstreams-expired :
      (upstreams : List Text) (request : Msg)
      → w.expired ≡ true
      → try_fallback_upstreams lib w upstreams request ≡ none
  unfolding try_fallback_upstreams
  try_fallback_upstreams-expired [] request late = refl
  try_fallback_upstreams-expired (u ∷ upstreams) request late =
      let fails : w.exchange_context w.expired u request ≡ none =
        ap (λ b. w.exchange_context b u request) late ∙ w.expired_fails u request in
      rw (try_fallback_upstreams, fails) (try_fallback_upstreams-expired upstreams request late)

  -- Where the engine fails by using up the time of the exchange, and the cache has no stale
  -- response, a query that passes is answered with `SERVFAIL` whatever the fallback upstreams are,
  -- since they are asked within the same time.
  pub handle_query-timeout :
      (p : Proxy) (remote : Option RemoteAddr) (request : Msg)
      → w.expired ≡ true
      → Passes w p remote request
      → get p.cache (some request) w.started ≡ none
      → get_stale p.cache (some request) w.started ≡ none
      → Failed (asked w p remote request).1
      → (effect (handle_query lib w p remote request)).sent
        ≡ lib.set_rcode request rcode_server_failure ∷ p.written
  unfolding answer_stale answer_fallback answer_engine
  handle_query-timeout p remote request late passes absent stale f =
      rw
        (
          failed p remote request passes absent f,
          stale,
          try_fallback_upstreams-expired p.fallbacks request late,
        )
        (ap (λ (e : Effect). e.sent) (effect-emit lib w _ _ _ _ _ _ _))
