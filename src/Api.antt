-- ===== src/Api.antt =====
-- internal/api/handlers.go: the handlers and their routes, over the interface of a job manager.
pub mod Serving
use libvirt_volume_provision.Base.{
  ℕ, ◌+◌, [], ◌∷◌, Bool, true, false, ◌||◌, Option, none, some, ltb, List, if◌then◌else◌,
}
use libvirt_volume_provision.Text.{Text, codes, text_eq}
use libvirt_volume_provision.Act.{Result, ok, err, panicked}
use libvirt_volume_provision.Types.{ProvisionRequest, StatusResponse, ErrorResponse}
use libvirt_volume_provision.Auth.{Validator, Credentials, middleware}

-- The interface JobManager: methods over the manager's state.
pub record JobManager (S : Type 0) : Type 0 where
  pub start_job : ProvisionRequest → S → Result Text × S
  pub get_job_status : Text → S → Result StatusResponse
  pub cancel_job : Text → S → Result (Unit {0}) × S
  pub get_active_jobs : S → ℕ
  pub get_job_cache_info : Text → S → Result (Bool × Text)

pub record HealthResponse : Type 0 where
  pub status : Text
  pub version : Text

pub data Body : Type 0 where
  error_body : ErrorResponse → Body
  job_started : Text → Body
  job_status : StatusResponse → Body
  job_cancelled : Text → Body
  health : HealthResponse → Body
  metrics_body : Body
  empty : Body

pub record Response : Type 0 where
  pub status : ℕ
  pub body : Body

-- The counters requestsTotal and jobsTotal and the gauge activeJobsGauge. `requests` holds the labels
-- of every increment: the method, the route's pattern and the status, the latest first.
pub record Metrics : Type 0 where
  pub requests : List (Text × Text × ℕ)
  pub started : ℕ
  pub failed : ℕ
  pub active : ℕ

pub record Server {ℓ} (S : Type ℓ) : Type ℓ where
  pub manager : S
  pub metrics : Metrics

abbrev pub failure : ℕ → Text → Text → Response
failure code what message = record {
  status = code;
  body = error_body (record { error = what; message = message; code = code });
}

-- gin.Recovery answers a panic, with an empty body that nothing else has.
abbrev pub crashed : Response
crashed = record { status = 500; body = empty }

abbrev pub is_crash : Body → Bool
is_crash empty = true
is_crash _ = false

abbrev pub respond : ℕ → Body → Response
respond code body = record { status = code; body = body }

module _ {S : Type 0} (jobs : JobManager S) (version : Text) where
  abbrev pub started_response : Result Text × S → Metrics → Response × Server S
  started_response (ok id, s) m = (
    respond 202 (job_started id),
    record { manager = s; metrics = record m { started = m.started + 1 } },
  )
  started_response (err e, s) m = (
    failure 500 (codes "failed to start provisioning") e,
    record { manager = s; metrics = record m { failed = m.failed + 1 } },
  )
  started_response (panicked, s) m = (crashed, record { manager = s; metrics = m })

  -- ProvisionVolume, `bound` being what ShouldBindJSON makes of the body.
  unfoldable pub provision_volume : Result ProvisionRequest → Server S → Response × Server S
  provision_volume (err e) s = (failure 400 (codes "invalid request") e, s)
  provision_volume panicked s = (crashed, s)
  provision_volume (ok req) s =
      if text_eq req.image_url [] || text_eq req.volume_name []
      then (
        failure 400 (codes "invalid request") (codes "image_url and volume_name are required"),
        s,
      )
      else started_response (jobs.start_job req s.manager) s.metrics

  abbrev pub missing_id : Response
  missing_id = failure 400 (codes "invalid request") (codes "job_id parameter is required")

  abbrev pub status_reply : Result StatusResponse → Response
  status_reply (ok r) = respond 200 (job_status r)
  status_reply (err e) = failure 404 (codes "job not found") e
  status_reply panicked = crashed

  -- GetJobStatus
  unfoldable pub get_job_status : Text → Server S → Response
  get_job_status [] s = missing_id
  get_job_status (c ∷ id) s = status_reply (jobs.get_job_status (c ∷ id) s.manager)

  abbrev pub cancel_reply : Text → Result (Unit {0}) × S → Server S → Response × Server S
  cancel_reply id (ok u, m) s = (respond 200 (job_cancelled id), record s { manager = m })
  cancel_reply id (err e, m) s =
      (failure 400 (codes "failed to cancel job") e, record s { manager = m })
  cancel_reply id (panicked, m) s = (crashed, record s { manager = m })

  -- CancelJob
  unfoldable pub cancel_job : Text → Server S → Response × Server S
  cancel_job [] s = (missing_id, s)
  cancel_job (c ∷ id) s = cancel_reply (c ∷ id) (jobs.cancel_job (c ∷ id) s.manager) s

  -- HealthCheck; the timestamp and the constant uptime are left out.
  unfoldable pub health_check : Server S → Response × Server S
  health_check s =
      let active = jobs.get_active_jobs s.manager in
      (
        respond 200 (
            health (record {
              status = if ltb 2 active then codes "degraded" else codes "healthy";
              version = version;
            })),
        record s { metrics = record s.metrics { active = active } },
      )

-- The middleware in front of a handler.
abbrev pub guarded {ℓ} : {S : Type ℓ} → Option ErrorResponse → Response × S → S → Response × S
guarded none r s = r
guarded (some e) r s = (respond 401 (error_body e), s)

-- The routes that SetupRoutes registers.
pub data Route : Type 0 where
  metrics health_route healthz livez provision : Route
  status cancel : Text → Route

-- The method of a route and its pattern, which c.FullPath() returns.
unfoldable pub labels : Route → Text × Text
labels metrics = (codes "GET", codes "/metrics")
labels health_route = (codes "GET", codes "/health")
labels healthz = (codes "GET", codes "/healthz")
labels livez = (codes "GET", codes "/livez")
labels provision = (codes "POST", codes "/api/v1/provision")
labels (status id) = (codes "GET", codes "/api/v1/status/:job_id")
labels (cancel id) = (codes "DELETE", codes "/api/v1/cancel/:job_id")

-- The routes of the group /api/v1, which uses the authentication middleware.
abbrev pub is_guarded : Route → Bool
is_guarded metrics = false
is_guarded health_route = false
is_guarded healthz = false
is_guarded livez = false
is_guarded _ = true

-- requestsTotal is incremented.
unfoldable pub noted {ℓ} : {S : Type ℓ} → Route → ℕ → Server S → Server S
unfolding labels
noted route code s = record s {
  metrics = record s.metrics {
    requests = ((labels route).0, (labels route).1, code) ∷ s.metrics.requests;
  };
}

-- metricsMiddleware: a panic passes it by, on its way to gin.Recovery.
unfoldable pub with_metrics {ℓ} : {S : Type ℓ} → Route → Response × Server S → Response × Server S
unfolding noted
with_metrics route (r, s) = (r, if is_crash r.body then s else noted route r.status s)

module _ {S : Type 0} (jobs : JobManager S) (version : Text) (v : Validator) where
  -- The handler of a route.
  unfoldable pub handle : Route → Result ProvisionRequest → Server S → Response × Server S
  unfolding provision_volume get_job_status cancel_job health_check
  handle metrics body s = (respond 200 metrics_body, s)
  handle health_route body s = health_check jobs version s
  handle healthz body s = health_check jobs version s
  handle livez body s = health_check jobs version s
  handle provision body s = provision_volume jobs version body s
  handle (status id) body s = (get_job_status jobs version id s, s)
  handle (cancel id) body s = cancel_job jobs version id s

  -- SetupRoutes: the metrics middleware stands in front of all routes, the authentication in front of
  -- those of the group.
  unfoldable pub serve :
      Route → Credentials → Result ProvisionRequest → Server S → Response × Server S
  unfolding handle middleware with_metrics
  serve route c body s = with_metrics route (
      if is_guarded route
      then guarded (middleware v c) (handle route body s) s
      else handle route body s)
