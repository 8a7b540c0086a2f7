-- ===== src/Job/Saving.antt =====
-- What of a job of internal/jobs/manager.go is saved in the database: syncToDatabase and RecoverJobs.
use libvirt_volume_provision.Base.{
  ℕ, [], ◌++◌, Bool, true, false, Option, none, some, pos, if◌then◌else◌,
}
use libvirt_volume_provision.Text.{Text, codes}
use libvirt_volume_provision.Act.{Result, ok, err}
use libvirt_volume_provision.Types.{ProvisionRequest, ProgressInfo, status_text, is_terminal}
use libvirt_volume_provision.Job.{Job}
use libvirt_volume_provision.Storage.{JobRecord, Table, SaveFaults, save_job}
use libvirt_volume_provision.Storage.Cleanup.{mark_in_progress_jobs_failed}

-- json.Marshal of a request and of a progress.
pub record Json : Type 0 where
  pub request : ProvisionRequest → Text
  pub progress : ProgressInfo → Text

abbrev pub progress_json : Json → Option ProgressInfo → Text
progress_json json none = []
progress_json json (some info) = json.progress info

abbrev pub or_empty : Option Text → Text
or_empty none = []
or_empty (some e) = e

-- The record that syncToDatabase saves.
unfoldable pub job_record : Json → Job → JobRecord
unfolding status_text
job_record json j = record {
  id = j.id;
  status = status_text j.status;
  request_json = json.request j.request;
  progress_json = progress_json json j.progress;
  error_message = or_empty j.error;
  retry_count = pos 0;
  created_at = j.created_at;
  updated_at = j.updated_at;
  completed_at = if is_terminal j.status then some j.updated_at else none;
}

-- BeginTx fails under a context that is done.
abbrev pub under_context : Bool → SaveFaults → SaveFaults
under_context false f = f
under_context true f = record f { begin_error = some (codes "context canceled") }

-- syncToDatabase: an error is only logged.
unfoldable pub sync_to_database : Json → Bool → SaveFaults → Job → Option Table → Option Table
unfolding job_record
sync_to_database json ctx_done f j none = none
sync_to_database json ctx_done f j (some t) =
    some (save_job (under_context ctx_done f) (job_record json j) t).1

abbrev pub recovered : Result (Unit {0}) × Table → Result (Unit {0}) × Option Table
recovered (ok u, t) = (ok tt, some t)
recovered (err e, t) = (err (codes "failed to mark in-progress jobs as failed: " ++ e), some t)
recovered (r, t) = (r, some t)

-- RecoverJobs
unfoldable pub recover_jobs : Option Text → ℕ → Option Table → Result (Unit {0}) × Option Table
recover_jobs fault now none = (ok tt, none)
recover_jobs fault now (some t) = recovered (mark_in_progress_jobs_failed fault now t)
