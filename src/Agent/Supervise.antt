-- ===== src/Agent/Supervise.antt =====
-- cmd/agent/main.go: the loop that restarts an engine that does not answer, and the answers to
-- requests for its health. The proofs are in the module below.
pub mod Recovery
pub mod Access
use astradns_agent.Common.{
  ℕ, ◌+◌, ◌≡◌, Bool, true, false, not, ◌&&◌, ◌||◌, ◌==◌, Option, none, some, is_some, List, [], ◌∷◌,
  ◌++◌, Text, codes, text_eq, trim_space, has_prefix, drop, length, ℤ, not_positive, if◌then◌else◌,
}
use astradns_agent.Agent.Reload.{EngineOps}

-- What comes of the query to the engine's address: an error, no message, or a message.
pub data Reply : Type 0 where
  fails empty answers : Reply

unfoldable pub is_engine_responsive : Reply → Bool
is_engine_responsive fails = false
is_engine_responsive empty = false
is_engine_responsive answers = true

-- The engine, with the three counters of the collector.
pub record Supervised (S : Type 0) : Type 0 where
  pub engine : S
  pub recovery_attempts_total : ℕ
  pub recovery_success_total : ℕ
  pub recovery_errors_total : ℕ

module _ {S E : Type 0} (ops : EngineOps S E) where
  abbrev pub count_start : Supervised S → S × Option E → Supervised S
  count_start s (e, some err) = record s {
    engine = e;
    recovery_errors_total = s.recovery_errors_total + 1;
  }
  count_start s (e, none) = record s {
    engine = e;
    recovery_success_total = s.recovery_success_total + 1;
  }

  -- A restart: an error of `Stop` is logged only.
  unfoldable pub restart : Supervised S → Supervised S
  restart s =
      let attempted = record s { recovery_attempts_total = s.recovery_attempts_total + 1 } in
      count_start attempted (ops.start (ops.stop s.engine).0)

  unfoldable pub tick : Reply → Supervised S → Supervised S
  tick reply s = if is_engine_responsive reply then s else restart s

  unfoldable pub ticks : List Reply → Supervised S → Supervised S
  ticks [] s = s
  ticks (reply ∷ replies) s = ticks replies (tick reply s)

  -- `superviseEngine`, with the replies at the ticks up to the end of the context.
  unfoldable pub supervise_engine : ℤ → List Reply → Supervised S → Supervised S
  supervise_engine interval replies s = if not_positive interval then s else ticks replies s

-- `isAuthorizedMetricsRequest`, of the header of a request; `none` is no request.
unfoldable pub is_authorized_metrics_request : Option Text → Text → Bool
is_authorized_metrics_request none token = false
is_authorized_metrics_request (some header) token =
    let authorization = trim_space header in
    let presented = trim_space (drop (length (codes "Bearer ")) authorization) in
    if not (has_prefix authorization (codes "Bearer "))
    then false
    else if text_eq presented [] || text_eq token []
    then false
    else text_eq presented token

-- The status of the response of `newMetricsHandler`; `served` is that of the collector's handler.
unfoldable pub metrics_status : Text → ℕ → Text → Text → ℕ
metrics_status bearer_token served path header =
    let token = trim_space bearer_token in
    if not (text_eq path (codes "/metrics"))
    then 404
    else if not (text_eq token []) && not (is_authorized_metrics_request (some header) token)
    then 401
    else served

-- The status and the body of `/healthz` and `/readyz`, of the engine's `HealthStatus`, with its
-- error, and of `HasHealthyUpstream`.
unfoldable pub healthz : Bool × Bool → ℕ × Text
healthz (healthy, failed) =
    if failed || not healthy then (503, codes "unhealthy") else (200, codes "ok")

unfoldable pub readyz : Bool × Bool → Bool → ℕ × Text
readyz (healthy, failed) has_healthy_upstream =
    if failed || not healthy
    then (503, codes "engine unhealthy")
    else if not has_healthy_upstream
    then (503, codes "no healthy upstreams")
    else (200, codes "ready")
