-- ===== src/Proxy/Valid/State.antt =====
-- The invariant of the whole state.
use astradns_agent.Common.{ℕ, ◌≤◌, ◌≢◌, Option, length, pos_part}
use astradns_agent.Proxy.Cache.{ResponseCache}
use astradns_agent.Proxy.Limiter.{RequestLimiter}
use astradns_agent.Proxy.Pool.{EngineConnPool}
use astradns_agent.Proxy.Server.{Proxy}
use astradns_agent.Proxy.Valid.Parts.{IsGoodCache, IsGoodLimiter, IsGoodPool}

-- The parts of a proxy that have invariants of their own.
pub record Shared : Type 0 where
  pub cache : Option ResponseCache
  pub limiter : Option RequestLimiter
  pub pool : Option EngineConnPool
  pub rcode : ℕ

abbrev pub shared_of : Proxy → Shared
shared_of p = record { cache = p.cache; limiter = p.limiter; pool = p.pool; rcode = p.filter_rcode }

pub record IsGood (s : Shared) : Type 0 where
  pub good_cache : IsGoodCache s.cache
  pub good_limiter : IsGoodLimiter s.limiter
  pub good_pool : IsGoodPool s.pool
  pub refuses : s.rcode ≢ 0

-- The cache, the limiter and the pool keep to their limits, a denied query gets a code that is not
-- success, and the event channel is within its size.
pub record IsValid (p : Proxy) : Type 0 where
  pub good : IsGood (shared_of p)
  pub queued : length p.events ≤ pos_part p.config.event_chan_size
