-- ===== src/Proxy/Pool.antt =====
-- pkg/proxy/connpool.go: the pool of connections to the engine. A connection is a number;
-- `dns.DialTimeout` and `ExchangeWithConnContext` are parameters. The proofs are in the modules
-- below.
pub mod Moves
pub mod Lending
mod Tests
use astradns_agent.Common.{
  ℕ, ◌*◌, Bool, true, false, leb, Option, none, some, List, [], ◌∷◌, ◌++◌, Text, codes, text_eq,
  length, ℤ, pos_part, not_positive, second, if◌then◌else◌,
}
use astradns_agent.Dns.{Msg}

pub data Network : Type 0 where
  udp tcp : Network

abbrev pub Conn : Type 0
Conn = ℕ

-- A slice of connections is a list whose head is the end of the slice. `shut` are the connections
-- on which `Close` was called, the last first.
pub record EngineConnPool : Type 0 where
  pub addr : Text
  pub timeout : ℕ
  pub max_per_network : ℕ
  pub closed : Bool
  pub udp_conns : List Conn
  pub tcp_conns : List Conn
  pub shut : List Conn

pub data ExchangeError : Type 0 where
  not_initialized request_required pool_closed dial_failed exchange_failed : ExchangeError

pub data Result {ℓ} (A : Type ℓ) : Type ℓ where
  ok : A → Result A
  err : ExchangeError → Result A

-- What the network does: a dial yields a connection or fails (`none`), and an exchange over a
-- connection yields a response, which may be nil, or fails.
pub record Engine : Type 0 where
  pub dial : Network → Option Conn
  pub exchange_with_conn : Conn → Msg → Option (Option Msg)

unfoldable pub new_engine_conn_pool : Text → ℤ → ℤ → EngineConnPool
new_engine_conn_pool addr timeout max_per_network = record {
  addr = addr;
  timeout = if not_positive timeout then 2 * second else pos_part timeout;
  max_per_network = if not_positive max_per_network then 1 else pos_part max_per_network;
  closed = false;
  udp_conns = [];
  tcp_conns = [];
  shut = [];
}

-- `normalizeEngineNetwork`
unfoldable pub normalize_engine_network : Text → Network
normalize_engine_network network = if text_eq network (codes "tcp") then tcp else udp

-- `p.conns[network]`, and a write to it.
abbrev pub conns : EngineConnPool → Network → List Conn
conns p udp = p.udp_conns
conns p tcp = p.tcp_conns

abbrev pub set_conns : EngineConnPool → Network → List Conn → EngineConnPool
set_conns p udp cs = record p { udp_conns = cs }
set_conns p tcp cs = record p { tcp_conns = cs }

abbrev pub or_dial_failed : Option Conn → Result Conn
or_dial_failed none = err dial_failed
or_dial_failed (some conn) = ok conn

unfoldable pub take_conn :
    EngineConnPool → Network → List Conn → Option Conn → EngineConnPool × Result Conn
take_conn p network [] dialed = (p, or_dial_failed dialed)
take_conn p network (conn ∷ pool) dialed = (set_conns p network pool, ok conn)

-- `borrow`, given what a dial would yield.
unfoldable pub borrow : EngineConnPool → Network → Option Conn → EngineConnPool × Result Conn
borrow p network dialed =
    if p.closed then (p, err pool_closed) else take_conn p network (conns p network) dialed

-- `conn.Close()`
abbrev pub close_conn : EngineConnPool → Conn → EngineConnPool
close_conn p conn = record p { shut = conn ∷ p.shut }

unfoldable pub release : EngineConnPool → Network → Option Conn → EngineConnPool
release p network none = p
release p network (some conn) =
    if p.closed
    then close_conn p conn
    else if leb p.max_per_network (length (conns p network))
    then close_conn p conn
    else set_conns p network (conn ∷ conns p network)

-- The end of `Exchange`, from the response on.
unfoldable pub finish_exchange :
    EngineConnPool → Network → Conn → Option (Option Msg) → EngineConnPool × Result (Option Msg)
finish_exchange p network conn none = (close_conn p conn, err exchange_failed)
finish_exchange p network conn (some response) = (release p network (some conn), ok response)

unfoldable pub exchange_over :
    Engine → Network → Msg → EngineConnPool × Result Conn → EngineConnPool × Result (Option Msg)
exchange_over engine network request (p, err e) = (p, err e)
exchange_over engine network request (p, ok conn) =
    finish_exchange p network conn (engine.exchange_with_conn conn request)

-- `Exchange`, with no other call on the pool in between; the steps of calls that overlap are in the
-- module Lending. Deadlines are left to the engine's answers.
unfoldable pub exchange :
    Engine → Option EngineConnPool → Text → Option Msg → Option EngineConnPool × Result (Option Msg)
exchange engine none network request = (none, err not_initialized)
exchange engine (some p) network none = (some p, err request_required)
exchange engine (some p) network (some request) =
    let net = normalize_engine_network network in
    let (after, result) = exchange_over engine net request (borrow p net (engine.dial net)) in
    (some after, result)

-- `Close`
unfoldable pub close : EngineConnPool → EngineConnPool
close p = record p {
  closed = true;
  udp_conns = [];
  tcp_conns = [];
  shut = p.udp_conns ++ (p.tcp_conns ++ p.shut);
}
