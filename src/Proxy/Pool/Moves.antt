-- ===== src/Proxy/Pool/Moves.antt =====
-- Where connections stand, and how the calls on the pool move them.
use astradns_agent.Common.{
  ℕ, ◌+◌, ◌≤◌, ◌≡◌, ◌⊎◌, inl, inr, refl, ap, true, false, ◌==◌, Option, none, some, List, [], ◌∷◌,
  ◌++◌, length, arith, if◌then◌else◌, Bool-cases,
}
use astradns_agent.Proxy.Pool.{
  Network, udp, tcp, Conn, EngineConnPool, ok, take_conn, conns, set_conns, borrow, close_conn,
  release, close,
}

-- How often a connection stands in a list.
unfoldable pub count : Conn → List Conn → ℕ
count c [] = 0
count c (x ∷ xs) = (if x == c then 1 else 0) + count c xs

pub count-append : (c : Conn) (xs ys : List Conn) → count c (xs ++ ys) ≡ count c xs + count c ys
unfolding count
count-append c [] ys = omega arith
count-append c (x ∷ xs) ys = omega (arith, count-append c xs ys)

-- The pool, and the connections that requests hold.
pub record Lending : Type 0 where
  pub pool : EngineConnPool
  pub lent : List Conn

-- The places where a connection stands.
abbrev pub known : Conn → Lending → ℕ
known c s =
    count c s.pool.udp_conns + count c s.pool.tcp_conns + count c s.lent + count c s.pool.shut

-- A step moves connections from one place to another.
pub known-release :
    (c : Conn) (p : EngineConnPool) (network : Network) (conn : Conn) (lent : List Conn)
    → known c (record { pool = release p network (some conn); lent = lent })
      ≡ known c (record { pool = p; lent = conn ∷ lent })
unfolding release count
known-release c p udp conn lent = ground arith
known-release c p tcp conn lent = ground arith

pub known-fails :
    (c : Conn) (p : EngineConnPool) (conn : Conn) (lent : List Conn)
    → known c (record { pool = close_conn p conn; lent = lent })
      ≡ known c (record { pool = p; lent = conn ∷ lent })
unfolding count
known-fails c p conn lent = ground arith

pub known-close :
    (c : Conn) (s : Lending) → known c (record { pool = close s.pool; lent = s.lent }) ≡ known c s
unfolding close count
known-close c s = omega (
  arith,
  count-append c s.pool.udp_conns (s.pool.tcp_conns ++ s.pool.shut),
  count-append c s.pool.tcp_conns s.pool.shut,
)

-- A request gives up one of the connections that are lent.
pub count-gives_up :
    (c conn : Conn) (front back : List Conn)
    → count c (front ++ conn ∷ back) ≡ count c (conn ∷ (front ++ back))
unfolding count
count-gives_up c conn front back =
    omega (arith, count-append c front (conn ∷ back), count-append c front back)

-- A connection that is borrowed was dialled for an empty pool, or came out of the pool.
abbrev pub Lends : EngineConnPool → Network → Option Conn → EngineConnPool → Conn → Type 0
Lends p network dialed after conn =
    ((dialed ≡ some conn) × (after ≡ p))
    ⊎ ((rest : List Conn) × (conns p network ≡ conn ∷ rest) × (after ≡ set_conns p network rest))

take_conn-Lends :
    (p : EngineConnPool) (network : Network) (cs : List Conn) (dialed : Option Conn)
    (after : EngineConnPool) (conn : Conn)
    → conns p network ≡ cs
    → take_conn p network cs dialed ≡ (after, ok conn)
    → Lends p network dialed after conn
unfolding take_conn
take_conn-Lends p network [] none after conn cs e = absurd (ground arith)
take_conn-Lends p network [] (some d) after conn cs e = inl (ground arith, ground arith)
take_conn-Lends p network (c ∷ rest) dialed after conn cs e =
    inr (rest, ground (arith, cs), ground arith)

pub borrow-Lends :
    (p : EngineConnPool) (network : Network) (dialed : Option Conn) (after : EngineConnPool)
    (conn : Conn)
    → borrow p network dialed ≡ (after, ok conn)
    → (p.closed ≡ false) × Lends p network dialed after conn
unfolding borrow
borrow-Lends p network dialed after conn e = elim (Bool-cases p.closed) [
  | inl shut ↦ absurd (ground (arith, simp shut at e))
  | inr live ↦
      (live, take_conn-Lends p network (conns p network) dialed after conn refl (simp live at e))
]

pub set_conns-known :
    (c : Conn) (p : EngineConnPool) (network : Network) (conn : Conn) (rest lent : List Conn)
    → conns p network ≡ conn ∷ rest
    → known c (record { pool = set_conns p network rest; lent = conn ∷ lent })
      ≡ known c (record { pool = p; lent = lent })
unfolding count
set_conns-known c p udp conn rest lent e = omega (arith, ap (count c) e)
set_conns-known c p tcp conn rest lent e = omega (arith, ap (count c) e)

pub borrow-once :
    (c : Conn) (s : Lending) (network : Network) (dialed : Option Conn) (p : EngineConnPool)
    (conn : Conn)
    → ((d : Conn) → dialed ≡ some d → known d s ≡ 0)
    → Lends s.pool network dialed p conn
    → known c s ≤ 1
    → known c (record { pool = p; lent = conn ∷ s.lent }) ≤ 1
borrow-once c s network dialed p conn fresh (inl (d, same)) o =
    unfold count in rw same (ground (arith, fresh conn d))
borrow-once c s network dialed p conn fresh (inr (rest, e, same)) o =
    rw (same, set_conns-known c s.pool network conn rest s.lent e) o

-- A loan makes the pool no longer, and changes nothing else of it.
pub record Shrinks (p after : EngineConnPool) : Type 0 where
  pub udp_shorter : length after.udp_conns ≤ length p.udp_conns
  pub tcp_shorter : length after.tcp_conns ≤ length p.tcp_conns
  pub same_limit : after.max_per_network ≡ p.max_per_network
  pub same_closed : after.closed ≡ p.closed

pub Lends-Shrinks :
    (p : EngineConnPool) (network : Network) (dialed : Option Conn) (after : EngineConnPool)
    (conn : Conn)
    → Lends p network dialed after conn
    → Shrinks p after
Lends-Shrinks p network dialed after conn (inl (d, same)) = rw same (ground arith)
Lends-Shrinks p udp dialed after conn (inr (rest, e, same)) = rw same (ground (arith, ap length e))
Lends-Shrinks p tcp dialed after conn (inr (rest, e, same)) = rw same (ground (arith, ap length e))

pub release-bounded :
    (p : EngineConnPool) (network : Network) (conn : Conn)
    → length p.udp_conns ≤ p.max_per_network
    → length p.tcp_conns ≤ p.max_per_network
    → let after = release p network (some conn) in
      (length after.udp_conns ≤ after.max_per_network)
      × (length after.tcp_conns ≤ after.max_per_network)
unfolding release
release-bounded p udp conn u t = ground arith
release-bounded p tcp conn u t = ground arith

-- Nothing goes back into a pool that is closed.
pub release-closed :
    (p : EngineConnPool) (network : Network) (conn : Conn)
    → (release p network (some conn)).closed ≡ true
    → release p network (some conn) ≡ close_conn p conn
unfolding release
release-closed p udp conn h = ground arith
release-closed p tcp conn h = ground arith
