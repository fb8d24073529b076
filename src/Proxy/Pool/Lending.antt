-- ===== src/Proxy/Pool/Lending.antt =====
-- Requests share the pool: between `borrow` and `release` of one, any number of others may borrow
-- and release, and the pool may be closed.
use astradns_agent.Common.{
  ◌≤◌, ◌≡◌, inl, inr, refl, ap, true, false, Option, some, List, [], ◌∷◌, ◌++◌, length, arith,
}
use astradns_agent.Proxy.Pool.{
  Network, Conn, EngineConnPool, ok, borrow, close_conn, release, close,
}
use astradns_agent.Proxy.Pool.Moves.{
  count, Lending, known, Lends, count-gives_up, known-release, known-fails, known-close,
  borrow-Lends, borrow-once, set_conns-known, Lends-Shrinks, release-bounded, release-closed,
}

-- One step of one request, or of `Stop`. A dial yields a connection that nobody knows.
pub data Step (s : Lending) : Lending → Type 0 where
  borrows :
      (network : Network) (dialed : Option Conn) (p : EngineConnPool) (conn : Conn)
      → ((c : Conn) → dialed ≡ some c → known c s ≡ 0)
      → borrow s.pool network dialed ≡ (p, ok conn)
      → Step s (record { pool = p; lent = conn ∷ s.lent })
  releases :
      (network : Network) (conn : Conn) (front back : List Conn)
      → s.lent ≡ front ++ conn ∷ back
      → Step s (record { pool = release s.pool network (some conn); lent = front ++ back })
  fails :
      (conn : Conn) (front back : List Conn)
      → s.lent ≡ front ++ conn ∷ back
      → Step s (record { pool = close_conn s.pool conn; lent = front ++ back })
  closes : Step s (record { pool = close s.pool; lent = s.lent })

pub data Reach (s : Lending) : Lending → Type 0 where
  here : Reach s s
  next : {t u : Lending} → Reach s t → Step t u → Reach s u

-- Every connection has one place; the pool keeps to its limit, and once closed holds none.
pub record IsOwned (s : Lending) : Type 0 where
  pub once : (c : Conn) → known c s ≤ 1
  pub udp_bounded : length s.pool.udp_conns ≤ s.pool.max_per_network
  pub tcp_bounded : length s.pool.tcp_conns ≤ s.pool.max_per_network
  pub drained : s.pool.closed ≡ true → (s.pool.udp_conns ≡ []) × (s.pool.tcp_conns ≡ [])

borrow-IsOwned :
    (s : Lending) (network : Network) (dialed : Option Conn) (p : EngineConnPool) (conn : Conn)
    → ((d : Conn) → dialed ≡ some d → known d s ≡ 0)
    → (s.pool.closed ≡ false)
    → Lends s.pool network dialed p conn
    → IsOwned s
    → IsOwned (record { pool = p; lent = conn ∷ s.lent })
borrow-IsOwned s network dialed p conn fresh live lends o =
    let less = Lends-Shrinks s.pool network dialed p conn lends in
    record {
      once = λ c. borrow-once c s network dialed p conn fresh lends (o.once c);
      udp_bounded = omega (arith, less.udp_shorter, less.same_limit);
      tcp_bounded = omega (arith, less.tcp_shorter, less.same_limit);
      drained = λ shut. cc (less.same_closed);
    }

release-IsOwned :
    (s : Lending) (network : Network) (conn : Conn) (front back : List Conn)
    → s.lent ≡ front ++ conn ∷ back
    → IsOwned s
    → IsOwned (record { pool = release s.pool network (some conn); lent = front ++ back })
release-IsOwned s network conn front back e o = record {
  once = λ c. omega (
    arith,
    o.once c,
    known-release c s.pool network conn (front ++ back),
    ap (count c) e,
    count-gives_up c conn front back,
  );
  udp_bounded = (release-bounded s.pool network conn o.udp_bounded o.tcp_bounded).0;
  tcp_bounded = (release-bounded s.pool network conn o.udp_bounded o.tcp_bounded).1;
  drained = λ h.
      rw (release-closed s.pool network conn h)
        (o.drained (rw (release-closed s.pool network conn h) at h));
}

Step-IsOwned : {s t : Lending} → Step s t → IsOwned s → IsOwned t
Step-IsOwned {s} (borrows network dialed p conn fresh e) o =
    let lends = borrow-Lends s.pool network dialed p conn e in
    borrow-IsOwned s network dialed p conn fresh lends.0 lends.1 o
Step-IsOwned {s} (releases network conn front back e) o =
    release-IsOwned s network conn front back e o
Step-IsOwned {s} (fails conn front back e) o = record {
  once = λ c. omega (
    arith,
    o.once c,
    known-fails c s.pool conn (front ++ back),
    ap (count c) e,
    count-gives_up c conn front back,
  );
  udp_bounded = o.udp_bounded;
  tcp_bounded = o.tcp_bounded;
  drained = o.drained;
}
Step-IsOwned {s} closes o = record {
  once = λ c. rw (known-close c s) (o.once c);
  udp_bounded = unfold close in omega arith;
  tcp_bounded = unfold close in omega arith;
  drained = λ h. unfold close in (refl, refl);
}

-- However requests overlap, and wherever the pool is closed between them, no connection is lent
-- twice, nor lent while it stands in the pool or after `Close` was called on it; the pool keeps to
-- its limit for each network; and a pool that is closed holds no connection. This supposes that a
-- dial yields a connection that is new.
pub Reach-IsOwned : {s t : Lending} → IsOwned s → Reach s t → IsOwned t
Reach-IsOwned o here = o
Reach-IsOwned o (next r step) = Step-IsOwned step (Reach-IsOwned o r)

-- A connection that is known stays known.
borrow-grows :
    (c : Conn) (s : Lending) (network : Network) (dialed : Option Conn) (p : EngineConnPool)
    (conn : Conn)
    → Lends s.pool network dialed p conn
    → known c s ≤ known c (record { pool = p; lent = conn ∷ s.lent })
borrow-grows c s network dialed p conn (inl (d, same)) = unfold count in rw same (omega arith)
borrow-grows c s network dialed p conn (inr (rest, e, same)) =
    rw (same, set_conns-known c s.pool network conn rest s.lent e) (omega arith)

Step-grows : {s t : Lending} (c : Conn) → Step s t → known c s ≤ known c t
Step-grows {s} c (borrows network dialed p conn fresh e) =
    borrow-grows c s network dialed p conn (borrow-Lends s.pool network dialed p conn e).1
Step-grows {s} c (releases network conn front back e) = omega (
  arith,
  known-release c s.pool network conn (front ++ back),
  ap (count c) e,
  count-gives_up c conn front back,
)
Step-grows {s} c (fails conn front back e) = omega (
  arith,
  known-fails c s.pool conn (front ++ back),
  ap (count c) e,
  count-gives_up c conn front back,
)
Step-grows {s} c closes = omega (arith, known-close c s)

Reach-grows : {s t : Lending} (c : Conn) → Reach s t → known c s ≤ known c t
Reach-grows c here = omega arith
Reach-grows c (next r step) = omega (arith, Reach-grows c r, Step-grows c step)

-- Once the pool is closed and no request holds a connection, `Close` has been called, once, on
-- every connection that was ever known.
pub Reach-leaks_nothing :
    {s t : Lending} (c : Conn)
    → IsOwned s
    → Reach s t
    → t.pool.closed ≡ true
    → t.lent ≡ []
    → 1 ≤ known c s
    → count c t.pool.shut ≡ 1
unfolding count
Reach-leaks_nothing {s} {t} c o r shut idle k =
    let owned = Reach-IsOwned o r in
    let drained = owned.drained shut in
    omega (
      arith,
      owned.once c,
      Reach-grows c r,
      ap (count c) drained.0,
      ap (count c) drained.1,
      ap (count c) idle,
    )
