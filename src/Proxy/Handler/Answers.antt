-- ===== src/Proxy/Handler/Answers.antt =====
-- What each way through `handleQuery` answers, and what it leaves alone.
use astradns_agent.Common.{
  ◌+◌, ◌<◌, ◌≡◌, refl, ap, ◌∙◌, Bool, true, Option, none, some, List, ◌∷◌, Text, if_cases, lt→ltb,
  ltb, length, pos_part,
}
use astradns_agent.Dns.{Msg, DnsLib}
use astradns_agent.Proxy.Message.{normalize_domain, cache_key, cache_entry_ttl}
use astradns_agent.Proxy.Filter.{allowed}
use astradns_agent.Proxy.Cache.{ResponseCache, get, store, clone_cached_response}
use astradns_agent.Proxy.Cache.Lookup.{IsKept, entry_for, get-store}
use astradns_agent.Proxy.Cache.Serves.{seconds_since, clone-IsCopy}
use astradns_agent.Proxy.Message.Copies.{IsLess, IsCopy}
use astradns_agent.Proxy.Limiter.{allow_request}
use astradns_agent.Proxy.Pool.{EngineConnPool, Result, ok, exchange}
use astradns_agent.Proxy.Server.{QueryEvent, Proxy}
use astradns_agent.Proxy.Handler.{
  World, RemoteAddr, source_ip, network_for_remote_addr, publish_event, emit_query_event,
  answer_engine, answer_exchange, ask_engine, answer_cached, answer_filtered, answer_limited,
  handle_query,
}

-- What a query may change besides the limiter and the events.
pub record Effect : Type 0 where
  pub sent : List Msg
  pub cached : Option ResponseCache
  pub pooled : Option EngineConnPool

abbrev pub effect : Proxy → Effect
effect p = record { sent = p.written; cached = p.cache; pooled = p.pool }

pub effect-publish_event : (p : Proxy) (e : QueryEvent) → effect (publish_event p e) ≡ effect p
unfolding publish_event
effect-publish_event p e =
    if_cases (λ q. effect q ≡ effect p) p.events_closed (λ _. refl)
      λ _.
        if_cases (λ q. effect q ≡ effect p)
          (ltb (length p.events) (pos_part p.config.event_chan_size)) (λ _. refl) λ _. refl

-- The limiter and the filter let a query through.
abbrev pub Passes : World → Proxy → Option RemoteAddr → Msg → Type 0
Passes w p remote request =
    ((allow_request p.limiter (source_ip remote) w.started).1 ≡ true)
    × (allowed p.filter (normalize_domain (some request)) ≡ true)

-- What the engine's part of a query yields.
abbrev pub asked :
    World → Proxy → Option RemoteAddr → Msg → Option EngineConnPool × Result (Option Msg)
asked w p remote request = exchange w.engine p.pool (network_for_remote_addr remote) (some request)

module _ (lib : DnsLib) (w : World) where
  pub effect-emit :
      (p : Proxy) (src : Text) (request response : Msg) (upstream : Text) (known hit : Bool)
      → effect (emit_query_event lib w p src request response upstream known hit) ≡ effect p
  unfolding emit_query_event
  effect-emit p src request response upstream known hit = effect-publish_event p _

  passing :
      (p : Proxy) (remote : Option RemoteAddr) (request : Msg)
      → Passes w p remote request
      → handle_query lib w p remote request
        ≡ answer_cached lib w
            (record p { limiter = (allow_request p.limiter (source_ip remote) w.started).0 })
            (source_ip remote)
            (network_for_remote_addr remote)
            request
            (get p.cache (some request) w.started)
  unfolding handle_query answer_limited answer_filtered
  passing p remote request h = rw (h.0, h.1) refl

  -- A query that passes and finds a response in the cache is answered with it; the engine is not
  -- asked, and the cache stays as it is.
  pub handle_query-hit :
      (p : Proxy) (remote : Option RemoteAddr) (request r : Msg)
      → Passes w p remote request
      → get p.cache (some request) w.started ≡ some r
      → effect (handle_query lib w p remote request)
        ≡ record { sent = r ∷ p.written; cached = p.cache; pooled = p.pool }
  unfolding answer_cached
  handle_query-hit p remote request r h found =
      rw (passing p remote request h, found) (effect-emit _ _ _ _ _ _ _)

  pub missing :
      (p : Proxy) (remote : Option RemoteAddr) (request : Msg)
      → Passes w p remote request
      → get p.cache (some request) w.started ≡ none
      → handle_query lib w p remote request
        ≡ answer_exchange lib w
            (record p {
              limiter = (allow_request p.limiter (source_ip remote) w.started).0;
              pool = (asked w p remote request).0;
            })
            (source_ip remote)
            request
            (asked w p remote request).1
  unfolding answer_cached ask_engine
  missing p remote request h absent = rw (passing p remote request h, absent) refl

  -- A query that passes, misses the cache and is answered by the engine: the answer is passed on
  -- and given to the cache.
  pub handle_query-fills :
      (p : Proxy) (remote : Option RemoteAddr) (request m : Msg)
      → Passes w p remote request
      → get p.cache (some request) w.started ≡ none
      → (asked w p remote request).1 ≡ ok (some m)
      → effect (handle_query lib w p remote request) ≡ record {
        sent = m ∷ p.written;
        cached = store p.cache (some request) (some m) w.started;
        pooled = (asked w p remote request).0;
      }
  unfolding answer_exchange answer_engine
  handle_query-fills p remote request m h absent answered =
      rw (missing p remote request h absent, answered) (effect-emit _ _ _ _ _ _ _)

-- A query is answered by the engine with a response that can be cached, and then, from whatever
-- client, a query with the same key comes and passes before the time to live of that response is
-- over. The second query gets the records of the same response, with its own id and each `Ttl` less
-- the whole seconds since the response was stored, counted modulo 2 ^ 32; the engine is not asked for
-- it, and the cache stays as the first query left it.
pub handle_query-repeat :
    (lib : DnsLib) (w w' : World) (p : Proxy) (c : ResponseCache)
    (remote remote' : Option RemoteAddr) (request again m : Msg) (key : Text)
    → p.cache ≡ some c
    → Passes w p remote request
    → get p.cache (some request) w.started ≡ none
    → (asked w p remote request).1 ≡ ok (some m)
    → IsKept c m
    → cache_key (some request) ≡ some key
    → cache_key (some again) ≡ some key
    → w'.started < w.started + cache_entry_ttl (some m) c.default_ttl
    → Passes w' (handle_query lib w p remote request) remote' again
    → (r : Msg) × IsCopy (IsLess (seconds_since w.started w'.started)) again m r
      × (effect (handle_query lib w' (handle_query lib w p remote request) remote' again) ≡ record {
        sent = r ∷ m ∷ p.written;
        cached = store (some c) (some request) (some m) w.started;
        pooled = (asked w p remote request).0;
      })
handle_query-repeat lib w w' p c remote remote' request again m key pc passes absent answered k kr
      ka soon passes' =
    let q = handle_query lib w p remote request in
    let reply = clone_cached_response (entry_for c m w.started) (some again) w'.started in
    let filled : effect q ≡ record {
      sent = m ∷ p.written;
      cached = store (some c) (some request) (some m) w.started;
      pooled = (asked w p remote request).0;
    } =
      rw (← pc) (handle_query-fills lib w p remote request m passes absent answered) in
    let found : get q.cache (some again) w'.started ≡ some reply =
      rw
        (
          ap (λ (e : Effect). e.cached) filled,
          get-store c (some request) (some again) m key w.started w'.started kr ka k,
          lt→ltb w'.started _ soon,
        )
        refl in
    (
      reply,
      clone-IsCopy (entry_for c m w.started) again w'.started,
      handle_query-hit lib w' q remote' again _ passes' found
          ∙ ap
              (λ (e : Effect). record {
                sent = reply ∷ e.sent;
                cached = e.cached;
                pooled = e.pooled;
              })
              filled,
    )
