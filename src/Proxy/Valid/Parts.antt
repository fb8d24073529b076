-- ===== src/Proxy/Valid/Parts.antt =====
-- The invariants of the parts, of parts that may be absent too, and that the calls of a handler
-- keep them.
use astradns_agent.Common.{
  ℕ, ◌≤◌, ◌≡◌, refl, ap, ◌∷◌, Bool, true, false, Option, none, some, List, [], Text, length, arith,
  if_cases,
}
use astradns_agent.Dns.{Msg}
use astradns_agent.Proxy.Cache.{ResponseCache, store}
use astradns_agent.Proxy.Cache.Size.{IsSound, store-IsSound}
use astradns_agent.Proxy.Cache.Fresh.{IsTimed, store-IsTimed}
use astradns_agent.Proxy.Limiter.{
  RequestLimiter, PerSource, source_allow, limiter_allow, allow_request, global_allow, TokenBucket,
}
use astradns_agent.Proxy.Limiter.Bucket.{IsFilled, bucket_allow-IsFilled}
use astradns_agent.Proxy.Limiter.Sources.{IsBounded?, source_allow-IsBounded}
use astradns_agent.Proxy.Pool.{
  Network, EngineConnPool, Engine, Conn, Result, ok, err, udp, tcp, conns, take_conn, borrow,
  release, finish_exchange, exchange_over, exchange, normalize_engine_network,
}
use astradns_agent.Proxy.Pool.Moves.{release-bounded, release-closed}

-- A cache within its limit, with entries that expire when they should.
abbrev pub IsGoodCache : Option ResponseCache → Type 0
IsGoodCache none = Unit
IsGoodCache (some c) = IsSound c × IsTimed c

pub store-IsGoodCache :
    (c : Option ResponseCache) (request response : Option Msg) (now : ℕ)
    → IsGoodCache c
    → IsGoodCache (store c request response now)
unfolding store
store-IsGoodCache none request response now g = tt
store-IsGoodCache (some c) request response now g =
    (store-IsSound c request response now g.0, store-IsTimed c request response now g.0 g.1)

-- A limiter whose global bucket holds no more than its burst, and whose map of sources is within
-- its limit.
abbrev pub IsFilled? : Option TokenBucket → Type 0
IsFilled? none = Unit
IsFilled? (some b) = IsFilled b

abbrev pub IsGoodLimiter : Option RequestLimiter → Type 0
IsGoodLimiter none = Unit
IsGoodLimiter (some r) = IsFilled? r.global × IsBounded? r.per_source

global_allow-IsFilled :
    (o : Option TokenBucket) (now : ℕ) → IsFilled? o → IsFilled? (global_allow o now).0
unfolding global_allow
global_allow-IsFilled none now f = tt
global_allow-IsFilled (some b) now f = bucket_allow-IsFilled b now f

source_allow-IsBounded? :
    (o : Option PerSource) (source : Text) (now : ℕ)
    → IsBounded? o
    → IsBounded? (source_allow o source now).0
source_allow-IsBounded? none source now b = unfold source_allow in tt
source_allow-IsBounded? (some r) source now b = source_allow-IsBounded r source now b

pub allow_request-IsGoodLimiter :
    (o : Option RequestLimiter) (source : Text) (now : ℕ)
    → IsGoodLimiter o
    → IsGoodLimiter (allow_request o source now).0
unfolding allow_request limiter_allow
allow_request-IsGoodLimiter none source now g = tt
allow_request-IsGoodLimiter (some r) source now g =
    if_cases (λ (x : RequestLimiter × Bool). IsGoodLimiter (some x.0)) _
      (λ _. (global_allow-IsFilled r.global now g.0, g.1))
      λ _. (
        global_allow-IsFilled r.global now g.0,
        source_allow-IsBounded? r.per_source source now g.1,
      )

-- A pool within its limit, and empty once it is closed.
pub record IsTight (p : EngineConnPool) : Type 0 where
  pub udp_bounded : length p.udp_conns ≤ p.max_per_network
  pub tcp_bounded : length p.tcp_conns ≤ p.max_per_network
  pub drained : p.closed ≡ true → (p.udp_conns ≡ []) × (p.tcp_conns ≡ [])

abbrev pub IsGoodPool : Option EngineConnPool → Type 0
IsGoodPool none = Unit
IsGoodPool (some p) = IsTight p

take_conn-IsTight :
    (p : EngineConnPool) (network : Network) (cs : List Conn) (dialed : Option Conn)
    → p.closed ≡ false
    → conns p network ≡ cs
    → IsTight p
    → IsTight (take_conn p network cs dialed).0
unfolding take_conn
take_conn-IsTight p network [] dialed live e t = t
take_conn-IsTight p udp (c ∷ rest) dialed live e t = record {
  udp_bounded = omega (arith, ap length e, t.udp_bounded);
  tcp_bounded = t.tcp_bounded;
  drained = λ h. cc;
}
take_conn-IsTight p tcp (c ∷ rest) dialed live e t = record {
  udp_bounded = t.udp_bounded;
  tcp_bounded = omega (arith, ap length e, t.tcp_bounded);
  drained = λ h. cc;
}

borrow-IsTight :
    (p : EngineConnPool) (network : Network) (dialed : Option Conn)
    → IsTight p
    → IsTight (borrow p network dialed).0
unfolding borrow
borrow-IsTight p network dialed t =
    if_cases (λ (x : EngineConnPool × Result Conn). IsTight x.0) p.closed (λ _. t)
      λ live. take_conn-IsTight p network (conns p network) dialed live refl t

release-IsTight :
    (p : EngineConnPool) (network : Network) (conn : Conn)
    → IsTight p
    → IsTight (release p network (some conn))
release-IsTight p network conn t =
    let bounded = release-bounded p network conn t.udp_bounded t.tcp_bounded in
    record {
      udp_bounded = bounded.0;
      tcp_bounded = bounded.1;
      drained = λ h.
          rw (release-closed p network conn h)
            (t.drained (rw (release-closed p network conn h) at h));
    }

finish_exchange-IsTight :
    (p : EngineConnPool) (network : Network) (conn : Conn) (response : Option (Option Msg))
    → IsTight p
    → IsTight (finish_exchange p network conn response).0
unfolding finish_exchange
finish_exchange-IsTight p network conn none t = record {
  udp_bounded = t.udp_bounded;
  tcp_bounded = t.tcp_bounded;
  drained = t.drained;
}
finish_exchange-IsTight p network conn (some response) t = release-IsTight p network conn t

exchange_over-IsTight :
    (engine : Engine) (network : Network) (request : Msg) (x : EngineConnPool × Result Conn)
    → IsTight x.0
    → IsTight (exchange_over engine network request x).0
unfolding exchange_over
exchange_over-IsTight engine network request (p, err e) t = t
exchange_over-IsTight engine network request (p, ok conn) t =
    finish_exchange-IsTight p network conn (engine.exchange_with_conn conn request) t

pub exchange-IsGoodPool :
    (engine : Engine) (o : Option EngineConnPool) (network : Text) (request : Msg)
    → IsGoodPool o
    → IsGoodPool (exchange engine o network (some request)).0
unfolding exchange
exchange-IsGoodPool engine none network request g = tt
exchange-IsGoodPool engine (some p) network request g =
    let net = normalize_engine_network network in
    exchange_over-IsTight engine net request _ (borrow-IsTight p net (engine.dial net) g)
