-- ===== src/Proxy/Handler/Counts.antt =====
-- Each query is answered once and reported once.
use astradns_agent.Common.{
  ℕ, suc, ◌+◌, ◌≤◌, ◌≡◌, Bool, true, false, not, Option, none, some, [], ◌∷◌, Text, length,
  length-append, pos_part, arith, if_cases,
}
use astradns_agent.Dns.{Msg, DnsLib}
use astradns_agent.Proxy.Message.{normalize_domain}
use astradns_agent.Proxy.Filter.{allowed}
use astradns_agent.Proxy.Cache.{get, store}
use astradns_agent.Proxy.Limiter.{allow_request}
use astradns_agent.Proxy.Pool.{Result, ok, err, exchange}
use astradns_agent.Proxy.Server.{QueryEvent, Proxy}
use astradns_agent.Proxy.Handler.{
  World, RemoteAddr, source_ip, network_for_remote_addr, publish_event, write_msg, emit_query_event,
  emit_denied_event, try_fallback_upstreams, answer_engine, answer_fallback, answer_stale,
  answer_exchange, ask_engine, answer_cached, answer_filtered, answer_limited, handle_query,
}

-- What is counted of a proxy.
pub record Tally : Type 0 where
  pub answers : ℕ
  pub queued : ℕ
  pub drops : ℕ
  pub calls : ℕ
  pub capacity : ℕ
  pub callback : Bool
  pub closed : Bool
  pub panics : Bool

abbrev pub tally : Proxy → Tally
tally p = record {
  answers = length p.written;
  queued = length p.events;
  drops = p.dropped;
  calls = p.drop_calls;
  capacity = pos_part p.config.event_chan_size;
  callback = p.config.on_event_drop;
  closed = p.events_closed;
  panics = p.panicked;
}

-- One response more was written; and where the channel is open, one event more was queued or
-- dropped. The channel keeps within its size, and a drop calls the callback, where it is set.
pub record Reports (a b : Tally) : Type 0 where
  pub answered : b.answers ≡ suc a.answers
  pub reported : a.closed ≡ false → b.queued + b.drops ≡ suc (a.queued + a.drops)
  pub fits : a.queued ≤ a.capacity → b.queued ≤ a.capacity
  pub sized : b.capacity ≡ a.capacity
  pub called : a.callback ≡ true → b.calls + a.drops ≡ a.calls + b.drops
  pub safe : a.closed ≡ false → b.panics ≡ a.panics

-- The same with the channel open.
pub record OneMore (a b : Tally) : Type 0 where
  pub answered : b.answers ≡ suc a.answers
  pub reported : b.queued + b.drops ≡ suc (a.queued + a.drops)
  pub fits : a.queued ≤ a.capacity → b.queued ≤ a.capacity
  pub called : a.callback ≡ true → b.calls + a.drops ≡ a.calls + b.drops
  pub safe : b.panics ≡ a.panics

publish_event-Reports :
    (p : Proxy) (response : Msg) (event : QueryEvent)
    → Reports (tally p) (tally (publish_event (write_msg p response) event))
unfolding publish_event
publish_event-Reports p response event = record {
  answered = ground arith;
  reported = λ is_open. ground (arith, length-append p.events (event ∷ []));
  fits = λ h. ground (arith, length-append p.events (event ∷ []));
  sized = ground arith;
  called = λ h. ground arith;
  safe = λ is_open. ground arith;
}

module _ (lib : DnsLib) (w : World) where
  emit_query_event-Reports :
      (p : Proxy) (src : Text) (request response : Msg) (upstream : Text) (known hit : Bool)
      → Reports (tally p) (
          tally
            (emit_query_event lib w (write_msg p response) src request response upstream known hit))
  unfolding emit_query_event
  emit_query_event-Reports p src request response upstream known hit =
      publish_event-Reports p response _

  answer_engine-Reports :
      (p : Proxy) (src : Text) (request response : Msg)
      → Reports (tally p) (tally (answer_engine lib w p src request response))
  unfolding answer_engine
  answer_engine-Reports p src request response =
      emit_query_event-Reports
        (record p { cache = store p.cache (some request) (some response) w.started }) src request
        response _ _ _

  answer_stale-Reports :
      (p : Proxy) (src : Text) (request : Msg) (stale : Option Msg)
      → Reports (tally p) (tally (answer_stale lib w p src request stale))
  unfolding answer_stale
  answer_stale-Reports p src request (some stale) =
      emit_query_event-Reports p src request stale _ _ _
  answer_stale-Reports p src request none =
      fallback (try_fallback_upstreams lib w p.fallbacks request)
    where
      fallback :
          (o : Option Msg) → Reports (tally p) (tally (answer_fallback lib w p src request o))
      fallback none = unfold answer_fallback in answer_engine-Reports p src request _
      fallback (some response) =
          unfold answer_fallback in
          emit_query_event-Reports
            (record p { cache = store p.cache (some request) (some response) w.started }) src
            request response _ _ _

  answer_exchange-Reports :
      (p : Proxy) (src : Text) (request : Msg) (result : Result (Option Msg))
      → Reports (tally p) (tally (answer_exchange lib w p src request result))
  unfolding answer_exchange
  answer_exchange-Reports p src request (ok (some response)) =
      answer_engine-Reports p src request response
  answer_exchange-Reports p src request (ok none) = answer_stale-Reports p src request _
  answer_exchange-Reports p src request (err e) = answer_stale-Reports p src request _

  answer_cached-Reports :
      (p : Proxy) (src network : Text) (request : Msg) (cached : Option Msg)
      → Reports (tally p) (tally (answer_cached lib w p src network request cached))
  unfolding answer_cached ask_engine
  answer_cached-Reports p src network request none =
      let asked = exchange w.engine p.pool network (some request) in
      answer_exchange-Reports (record p { pool = asked.0 }) src request asked.1
  answer_cached-Reports p src network request (some cached) =
      emit_query_event-Reports p src request cached _ _ _

  answer_filtered-Reports :
      (p : Proxy) (src network : Text) (request : Msg)
      → Reports (tally p) (tally (answer_filtered lib w p src network request))
  unfolding answer_filtered emit_denied_event
  answer_filtered-Reports p src network request =
      if_cases (λ q. Reports (tally p) (tally q))
        (not (allowed p.filter (normalize_domain (some request))))
        (λ _. publish_event-Reports p (lib.set_rcode request p.filter_rcode) _)
        λ _. answer_cached-Reports p src network request (get p.cache (some request) w.started)

  pub handle_query-Reports :
      (p : Proxy) (remote : Option RemoteAddr) (request : Msg)
      → Reports (tally p) (tally (handle_query lib w p remote request))
  unfolding handle_query
  handle_query-Reports p remote request =
      let admission = allow_request p.limiter (source_ip remote) w.started in
      admitted (record p { limiter = admission.0 }) admission.1
    where
      admitted :
          (q : Proxy) (b : Bool)
          → Reports (tally q) (
              tally (
                answer_limited lib w q
                  (source_ip remote)
                  (network_for_remote_addr remote)
                  request
                  b))
      admitted q false =
          unfold answer_limited in emit_query_event-Reports q (source_ip remote) request _ _ _ _
      admitted q true =
          unfold answer_limited in
          answer_filtered-Reports q (source_ip remote) (network_for_remote_addr remote) request

  -- Whatever the network, and in any state in which the event channel is open, `handleQuery` writes
  -- exactly one response, puts exactly one event into the channel or counts it as dropped, and does
  -- not panic. A channel that is within its size stays so, and a callback that is set is called once
  -- for each drop.
  pub handle_query-OneMore :
      (p : Proxy) (remote : Option RemoteAddr) (request : Msg)
      → p.events_closed ≡ false
      → OneMore (tally p) (tally (handle_query lib w p remote request))
  handle_query-OneMore p remote request is_open =
      let more = handle_query-Reports p remote request in
      record {
        answered = more.answered;
        reported = more.reported is_open;
        fits = more.fits;
        called = more.called;
        safe = more.safe is_open;
      }
