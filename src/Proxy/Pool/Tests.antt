-- ===== src/Proxy/Pool/Tests.antt =====
-- A connection is dialled, lent, given back, and closed with the pool.
use astradns_agent.Common.{◌≡◌, ◌≤◌, refl, true, false, some, [], ◌∷◌, codes, arith, second}
use astradns_agent.Proxy.Pool.{udp, EngineConnPool, borrow, take_conn, release, close}
use astradns_agent.Proxy.Pool.Moves.{count, Lending, known}
use astradns_agent.Proxy.Pool.Lending.{
  Step, borrows, releases, closes, Reach, here, next, IsOwned, Reach-IsOwned, Reach-leaks_nothing,
}

abbrev fresh_pool : EngineConnPool
fresh_pool = record {
  addr = codes "127.0.0.1:5354";
  timeout = second;
  max_per_network = 1;
  closed = false;
  udp_conns = [];
  tcp_conns = [];
  shut = [];
}

abbrev nobody : Lending
nobody = record { pool = fresh_pool; lent = [] }

abbrev one_lent : Lending
one_lent = record { pool = fresh_pool; lent = 4 ∷ [] }

nobody-IsOwned : IsOwned nobody
unfolding count
nobody-IsOwned = record {
  once = λ c. omega arith;
  udp_bounded = omega arith;
  tcp_bounded = omega arith;
  drained = λ h. (refl, refl);
}

one_lent-IsOwned : IsOwned one_lent
unfolding count
one_lent-IsOwned = record {
  once = λ c. ground arith;
  udp_bounded = omega arith;
  tcp_bounded = omega arith;
  drained = λ h. (refl, refl);
}

lends : Step nobody one_lent
unfolding borrow take_conn count
lends = borrows udp (some 4) fresh_pool 4 (λ c h. refl) refl

gives_back : Step one_lent (record { pool = release fresh_pool udp (some 4); lent = [] })
gives_back = releases udp 4 [] [] refl

Reach-IsOwned_example : IsOwned (record { pool = release fresh_pool udp (some 4); lent = [] })
Reach-IsOwned_example = Reach-IsOwned nobody-IsOwned (next (next here lends) gives_back)

abbrev shut_down : Lending
shut_down = record { pool = close (release fresh_pool udp (some 4)); lent = [] }

shuts : Reach one_lent shut_down
shuts = next (next here gives_back) closes

closed_pool : (p : EngineConnPool) → (close p).closed ≡ true
unfolding close
closed_pool p = refl

known_four : 1 ≤ known 4 one_lent
unfolding count
known_four = ground arith

Reach-leaks_nothing_example : count 4 (close (release fresh_pool udp (some 4))).shut ≡ 1
Reach-leaks_nothing_example =
    Reach-leaks_nothing 4 one_lent-IsOwned shuts (closed_pool (release fresh_pool udp (some 4)))
      refl known_four
