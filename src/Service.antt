-- ===== src/Service.antt =====
-- The handlers of internal/api/handlers.go over the manager of internal/jobs/manager.go: what a
-- client sees of a job that it starts, looks at and cancels.
use libvirt_volume_provision.Base.{ℕ, [], ◌≡◌, none}
use libvirt_volume_provision.Text.{Text, codes}
use libvirt_volume_provision.Act.{Result, ok}
use libvirt_volume_provision.Types.{ProvisionRequest, StatusResponse, pending, failed}
use libvirt_volume_provision.Storage.{SaveFaults}
use libvirt_volume_provision.Auth.{Validator, Credentials}
use libvirt_volume_provision.Auth.Access.{Admits}
use libvirt_volume_provision.Jobs.{State, start_job, cancel_job}
use libvirt_volume_provision.Job.Saving.{Json}
use libvirt_volume_provision.Jobs.Queries.{get_job_status, get_active_jobs, get_job_cache_info}
use libvirt_volume_provision.Api
use libvirt_volume_provision.Api.{JobManager, Server, Response, Route, job_status, respond, serve}

-- The manager as the handlers see it. `fresh` is uuid.New(), `now` the clock and `faults` what the
-- database engine reports.
module _ (json : Json) (fresh : State → Text) (now : State → ℕ) (faults : State → SaveFaults) where
  abbrev pub service : JobManager State
  service = record {
    start_job = λ req s. (ok (fresh s), start_job json (fresh s) req (now s) (faults s) s);
    get_job_status = get_job_status;
    cancel_job = λ id s. cancel_job json id (now s) (faults s) s;
    get_active_jobs = get_active_jobs;
    get_job_cache_info = get_job_cache_info;
  }

  module _ (version : Text) (v : Validator) (c : Credentials) (ad : Admits v c) where
    abbrev call :
        Route → Credentials → Result ProvisionRequest → Server State → Response × Server State
    call = serve service version v

    -- Four calls in a row: a job is started, looked at, cancelled and looked at again.
    abbrev pub first : ProvisionRequest → Server State → Response × Server State
    first req s = call Route.provision c (ok req) s

    abbrev pub second : ProvisionRequest → Server State → Response × Server State
    second req s = call (Route.status (fresh s.manager)) c (ok req) (first req s).1

    abbrev pub third : ProvisionRequest → Server State → Response × Server State
    third req s = call (Route.cancel (fresh s.manager)) c (ok req) (second req s).1

    abbrev pub fourth : ProvisionRequest → Server State → Response × Server State
    fourth req s = call (Route.status (fresh s.manager)) c (ok req) (third req s).1

    -- The reply to a look at a job that was cancelled.
    abbrev pub ShowsCancelled : Text → Response → Type 0
    ShowsCancelled id r =
        (st : StatusResponse) × (r ≡ respond 200 (job_status st))
        × (st.job_id ≡ id)
        × (st.status ≡ failed)
        × (st.error ≡ codes "job cancelled by user")

    -- The reply to a look at a job that nothing has happened to since its start at the given time.
    abbrev pub ShowsPending : Text → ℕ → Response → Type 0
    ShowsPending id started_at r =
        (st : StatusResponse) × (r ≡ respond 200 (job_status st))
        × (st.job_id ≡ id)
        × (st.status ≡ pending)
        × (st.progress ≡ none)
        × (st.error ≡ [])
        × (st.created_at ≡ started_at)
        × (st.updated_at ≡ started_at)
