-- ===== src/Proxy/Handler/Tests.antt =====
-- Queries to a proxy with concrete settings.
use astradns_agent.Common.{
  ℕ, ◌*◌, ◌≡◌, refl, none, some, [], ◌∷◌, codes, arith, second, lookup, insert, text_eq, to_lower,
  decimal, digits, retain, inl, trim_space, trim_suffix_dot,
}
use astradns_agent.Dns.{Msg, rcode_server_failure}
use astradns_agent.Proxy.Message.{
  cache_key, key_of, question_key, is_cacheable_response, cache_entry_ttl, min_response_ttl,
  min_records, min_ttl, normalize_domain,
}
use astradns_agent.Proxy.Filter.{normalize_name, allowed}
use astradns_agent.Proxy.Filter.Matching.{Matches, Any, subdomain}
use astradns_agent.Proxy.Cache.{
  store, store_response, store_entry, make_room, evict_expired_locked, within_stale, get, get_stale,
  fresh_response, stale_response, clone_cached_response,
}
use astradns_agent.Proxy.Cache.Lookup.{IsKept, entry_for}
use astradns_agent.Proxy.Limiter.{allow_request}
use astradns_agent.Proxy.Pool.{
  Engine, ok, exchange, exchange_over, finish_exchange, borrow, take_conn, release,
  normalize_engine_network, new_engine_conn_pool,
}
use astradns_agent.Proxy.Server.{Proxy, new_proxy, update_filter}
use astradns_agent.Proxy.Valid.{IsValid}
use astradns_agent.Proxy.Valid.Made.{new_proxy-IsValid}
use astradns_agent.Proxy.Handler.{
  network_for_remote_addr, publish_event, emit_query_event, handle_query, answer_limited,
  answer_filtered, answer_cached, ask_engine, answer_exchange, answer_engine,
}
use astradns_agent.Proxy.Cache.Serves.{seconds_since}
use astradns_agent.Proxy.Message.Copies.{IsLess, IsOne, IsCopy}
use astradns_agent.Proxy.Handler.Counts.{tally, OneMore, handle_query-OneMore}
use astradns_agent.Proxy.Handler.Keeps.{handle_query-IsValid}
use astradns_agent.Proxy.Handler.Answers.{effect, Passes, asked, handle_query-repeat}
use astradns_agent.Proxy.Handler.Faults.{
  Failed, TurnedAway, handle_query-denied, handle_query-stale, handle_query-timeout,
}
use astradns_agent.Proxy.Handler.Samples.{
  dns_example, config_example, request_example, again_example, response_example, answering, broken,
  at, client, cache_example, proxy_example,
}

handle_query-IsValid_example : IsValid (
    handle_query dns_example
      (at answering 2000)
      (new_proxy config_example 1000)
      client
      request_example)
handle_query-IsValid_example =
    handle_query-IsValid dns_example (at answering 2000) (new_proxy config_example 1000) client
      request_example (new_proxy-IsValid config_example 1000)

handle_query-OneMore_example :
    OneMore
      (tally proxy_example)
      (tally (handle_query dns_example (at broken 2000) proxy_example client request_example))
handle_query-OneMore_example =
    handle_query-OneMore dns_example (at broken 2000) proxy_example client request_example refl

example-Passes :
    (engine : Engine) (now : ℕ) (m : Msg) → Passes (at engine now) proxy_example client m
unfolding allow_request allowed
example-Passes engine now m = (refl, refl)

example-misses : (now : ℕ) → get proxy_example.cache (some request_example) now ≡ none
unfolding get fresh_response cache_key key_of lookup
example-misses now = refl

example-answers :
    (asked (at answering 2000) proxy_example client request_example).1 ≡ ok (some response_example)
unfolding exchange exchange_over finish_exchange borrow take_conn release normalize_engine_network
    new_engine_conn_pool text_eq network_for_remote_addr
example-answers = refl

example-IsKept : IsKept cache_example response_example
unfolding is_cacheable_response cache_entry_ttl min_response_ttl min_records min_ttl
example-IsKept = record { cacheable = refl; lasting = omega arith }

key_example :
    (id : ℕ) → cache_key (some (record request_example { id = id })) ≡ some (codes "a.|1|1")
unfolding cache_key key_of question_key to_lower decimal digits
key_example id = refl

lasts_a_minute : cache_entry_ttl (some response_example) cache_example.default_ttl ≡ 60 * second
unfolding cache_entry_ttl min_response_ttl min_records min_ttl
lasts_a_minute = refl

again-Passes :
    Passes
      (at broken (30 * second))
      (handle_query dns_example (at answering 2000) proxy_example client request_example)
      client
      again_example
unfolding handle_query answer_limited answer_filtered answer_cached ask_engine answer_exchange
    answer_engine emit_query_event publish_event allow_request allowed get fresh_response cache_key
    key_of lookup exchange exchange_over finish_exchange borrow take_conn release
    normalize_engine_network new_engine_conn_pool text_eq network_for_remote_addr
again-Passes = (refl, refl)

handle_query-repeat_example :
    (r : Msg) × IsCopy (IsLess (seconds_since 2000 (30 * second))) again_example response_example r
    × (effect (
          handle_query dns_example
            (at broken (30 * second))
            (handle_query dns_example (at answering 2000) proxy_example client request_example)
            client
            again_example)
        ≡ record {
          sent = r ∷ response_example ∷ [];
          cached = store (some cache_example) (some request_example) (some response_example) 2000;
          pooled = (asked (at answering 2000) proxy_example client request_example).0;
        })
handle_query-repeat_example =
    handle_query-repeat dns_example (at answering 2000) (at broken (30 * second)) proxy_example
      cache_example client client request_example again_example response_example (codes "a.|1|1")
      refl (example-Passes answering 2000 request_example) (example-misses 2000) example-answers
      example-IsKept (key_example 7) (key_example 8) (omega (arith, lasts_a_minute)) again-Passes

-- The proxy with the response in its cache.
abbrev filled_example : Proxy
filled_example = record proxy_example {
  cache = store (some cache_example) (some request_example) (some response_example) 2000;
}

example-hits :
    get filled_example.cache (some again_example) (30 * second)
    ≡ some (
        clone_cached_response
          (entry_for cache_example response_example 2000)
          (some again_example)
          (30 * second))
unfolding get store fresh_response store_response store_entry make_room evict_expired_locked
    within_stale is_cacheable_response cache_entry_ttl min_response_ttl min_records min_ttl
    cache_key key_of question_key to_lower decimal digits lookup insert retain text_eq
example-hits = refl

broken-Failed : (now : ℕ) (m : Msg) → Failed (asked (at broken now) proxy_example client m).1
unfolding exchange exchange_over borrow take_conn normalize_engine_network new_engine_conn_pool
    text_eq network_for_remote_addr
broken-Failed now m = tt

handle_query-stale_example :
    (r : Msg) × IsCopy IsOne again_example response_example r
    × (effect
          (handle_query dns_example (at broken (90 * second)) filled_example client again_example)
        ≡ record {
          sent = r ∷ [];
          cached = filled_example.cache;
          pooled = (asked (at broken (90 * second)) filled_example client again_example).0;
        })
handle_query-stale_example =
    handle_query-stale dns_example (at broken (90 * second)) filled_example cache_example client
      request_example again_example response_example (codes "a.|1|1") 2000 refl example-IsKept
      (key_example 7) (key_example 8) (omega (arith, lasts_a_minute))
      (omega (arith, lasts_a_minute)) (example-Passes broken (90 * second) again_example)
      (broken-Failed (90 * second) again_example)

no_stale : get_stale proxy_example.cache (some request_example) 2000 ≡ none
unfolding get_stale stale_response cache_key key_of lookup
no_stale = refl

handle_query-timeout_example :
    (effect (handle_query dns_example (at broken 2000) proxy_example client request_example)).sent
    ≡ dns_example.set_rcode request_example rcode_server_failure ∷ []
handle_query-timeout_example =
    handle_query-timeout dns_example (at broken 2000) proxy_example client request_example refl
      (example-Passes broken 2000 request_example) (example-misses 2000) no_stale
      (broken-Failed 2000 request_example)

abbrev denied_request : Msg
denied_request = record request_example {
  question = record { name = codes "x.ADS.com."; qtype = 1; qclass = 1 } ∷ [];
}

denied_name : normalize_name (normalize_domain (some denied_request)) ≡ codes "x.ads.com"
unfolding normalize_name normalize_domain to_lower trim_space trim_suffix_dot
denied_name = refl

denied-Matches :
    Any (Matches (normalize_name (normalize_domain (some denied_request)))) (codes "*.ads.com" ∷ [])
unfolding normalize_name normalize_domain to_lower trim_space trim_suffix_dot
denied-Matches = inl (subdomain (codes "x") (codes "ads.com") refl refl)

handle_query-denied_example : TurnedAway denied_request (effect proxy_example) (
    effect (
      handle_query dns_example
        (at answering 2000)
        (update_filter proxy_example [] (codes "*.ads.com" ∷ []) 3)
        client
        denied_request))
handle_query-denied_example =
    handle_query-denied dns_example (at answering 2000) proxy_example [] (codes "*.ads.com" ∷ []) 3
      client denied_request (rw denied_name λ e. ground arith) denied-Matches
