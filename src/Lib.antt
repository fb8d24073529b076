-- ===== src/Lib.antt =====
-- The AstraDNS agent: a DNS proxy in front of a local engine, with what surrounds it.
--
-- A query reaches the proxy (pkg/proxy/proxy.go), which asks the rate limiter, the domain filter and
-- the response cache in turn, then the engine over a pool of connections, then the cache for a
-- stale response, and then the fallback upstreams. It writes one response, stores what can be
-- stored, and reports the query as an event on a channel.
--
-- The files, each with the code that it models:
--   Common and its modules: the libraries' names passed on, texts as lists of bytes, maps as lists
--     of entries, signed numbers, addresses. Dns: what is used of github.com/miekg/dns, as a
--     parameter with two laws of SetRcode.
--   Proxy/Filter: pkg/proxy/domainfilter.go. newDomainFilter, Allowed, parsePatterns and matchesAny
--     are new_domain_filter, allowed, parse_patterns and matches_any. Filter/Matching and
--     Filter/Policy say what a written pattern matches.
--   Proxy/Message and Proxy/Cache: pkg/proxy/cache.go. Get, GetStale, Store, evictExpiredLocked and
--     evictOldestLocked are get, get_stale, store, evict_expired_locked and evict_oldest_locked;
--     the keys and times to live are in Message.
--   Proxy/Limiter: the limiter of pkg/proxy/proxy.go. tokenBucket.Allow is bucket_allow,
--     requestLimiter.Allow is limiter_allow.
--   Proxy/Pool: pkg/proxy/connpool.go, with overlapping requests as steps in Pool/Lending.
--   Proxy/Server and Proxy/Valid: the configuration and state of pkg/proxy/proxy.go and types.go,
--     New, UpdateFilter, UpdateFallbackUpstreams, Start, Stop, and the invariant of the state.
--   Proxy/Handler: handleQuery and its helpers. The branches of the Go function are the functions
--     answer_limited, answer_filtered, answer_cached, ask_engine, answer_exchange, answer_stale,
--     answer_fallback and answer_engine, each called where the code goes on. A send to the event
--     channel after Stop has closed it panics, which sets a flag of the state.
--   Health: pkg/health/checker.go, with the labels of the targets in Health/Labels and the passes
--     over them in Health/Passes. NewChecker, UpdateUpstreams, checkAll, checkUpstream, recordFailure
--     and recordHealthy are new_checker, update_upstreams, check_all, check_upstream, record_failure
--     and record_healthy; the probes and the names of the transports are parameters.
--   Types: what is used of github.com/astradns/astradns-types, whose constants are a parameter.
--   Agent/Validate and Agent/Names: of cmd/agent/main.go the validation of configurations.
--     validateEngineConfig is validate_engine_config, its loop over the upstreams reject_upstreams.
--   Agent/Load: loadEngineConfig, defaultEngineConfig and what the checker and the proxy are given of
--     a configuration: load_engine_config, default_engine_config, upstream_targets_from_config,
--     fallback_upstreams_from_config.
--   Agent/Reload: main up to the first health check is boot, the function given to the watcher is
--     reload_config, applyConfigReload is apply_config_reload. The engine is an interface, EngineOps,
--     which Engines/Ops fills with each driver. Agent/Reload/InStep composes all this with the
--     proxy's queries and the checker's passes, Agent/Reload/Follows with the watcher.
--   Agent/Supervise: superviseEngine, isEngineResponsive, and the decisions of the HTTP handlers.
--   Agent/Fan: fanOut and reportComponentErr, as turns of the loop and of the receivers.
--   Agent/Settings: loadRuntimeConfig and the functions that it calls, parseDiagnosticsTargets,
--     diagnosticsResolverAddress. Watcher: pkg/watcher/watcher.go, whose Run is run.
--   Engines: pkg/engine. Engines/Unbound, Bind, Powerdns and Coredns are the config.go of each driver,
--     with what they share in Engines/Normalize. Engines/Process is the engine.go of Unbound, whose
--     Configure, Start, Reload, Stop and HealthStatus the others have copies of: configure, start,
--     reload, stop, health_status. Engines/LineWriter is pkg/engine/processlog/writer.go.
--   Diagnostics: pkg/diagnostics/runner.go. NewRunner is new_runner; Diagnostics/Probe has
--     resolveTarget, probeTCPReachability, probeTarget, runOnce, Run and Snapshot,
--     Diagnostics/Classify has classifyOutcome.
--   Logging: pkg/logging/logger.go, with should_log for shouldLog. Metrics: ProcessEvent and Run of
--     pkg/metrics/collector.go, as process_event and process_events. The checker writes to the same
--     counters of failures and timeouts: count_all has both, in any order.
--
-- Times are nanoseconds from a moment before the program starts. Rates are millionths of a request
-- a second, tokens are counted in 10 ^ -15, and a sample rate of the query log is in millionths, so
-- that exact numbers stand in place of float64. The seconds that an entry has aged wrap at 2 ^ 32
-- and the counts of requests and samples at 2 ^ 64, as in the code. Loops are recursion on lists,
-- and no fuel is used but for decimal numbers, whose fuel is the number itself. Text is ASCII. A
-- slice of connections is a list whose head is its end. A Go map is a list of entries in the order
-- in which a range meets them.
--
-- What the network, the operating system and the clock do is a parameter: the answers of an engine
-- and of the upstreams, the outcome of each call that a driver makes (Host), the probes of the
-- diagnostics (Network). A process is a number. The calls of a driver are one after another, as
-- synchronizedEngine makes them.
--
-- Not modelled: the listeners and goroutines, the text of errors other than in the diagnostics, the
-- templates of the engines' files, tracing.
pub mod Agent
pub mod Common
pub mod Diagnostics
pub mod Dns
pub mod Engines
pub mod Health
pub mod Logging
pub mod Metrics
pub mod Proxy
pub mod Types
pub mod Watcher
