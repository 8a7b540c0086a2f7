-- ===== src/Jobs/Queries.antt =====
-- GetJobStatus, GetActiveJobs and GetJobCacheInfo of internal/jobs/manager.go.
use libvirt_volume_provision.Base.{
  ℕ, [], ◌++◌, Bool, true, false, ◌&&◌, Option, none, some, count, if◌then◌else◌,
}
use libvirt_volume_provision.Text.{Text, codes}
use libvirt_volume_provision.Act.{Result, ok, err}
use libvirt_volume_provision.Types.{StatusResponse, JobStatus, completed, status_text, is_active}
use libvirt_volume_provision.Job.{Job}
use libvirt_volume_provision.Jobs.{State, Thread, find_job}
use libvirt_volume_provision.Job.Saving.{or_empty}

abbrev pub is_completed : JobStatus → Bool
is_completed completed = true
is_completed _ = false

abbrev pub status_of : Job → StatusResponse
status_of j = record {
  job_id = j.id;
  status = j.status;
  progress = j.progress;
  error = or_empty j.error;
  correlation_id = j.id;
  cache_hit = if is_completed j.status then some j.cache_hit else none;
  image_path = if is_completed j.status then j.image_path else [];
  created_at = j.created_at;
  updated_at = j.updated_at;
}

abbrev pub status_response : Text → Option Thread → Result StatusResponse
status_response id none = err (codes "job not found: " ++ id)
status_response id (some t) = ok (status_of t.job)

-- GetJobStatus
unfoldable pub get_job_status : Text → State → Result StatusResponse
unfolding find_job
get_job_status id s = status_response id (find_job id s)

-- GetActiveJobs
unfoldable pub get_active_jobs : State → ℕ
get_active_jobs s = count (λ t. t.listed && is_active t.job.status) s.threads

abbrev pub cache_info : Text → Option Thread → Result (Bool × Text)
cache_info id none = err (codes "job not found: " ++ id)
cache_info id (some t) =
    if is_completed t.job.status
    then ok (t.job.cache_hit, t.job.image_path)
    else err (codes "job not completed: " ++ status_text t.job.status)

-- GetJobCacheInfo
unfoldable pub get_job_cache_info : Text → State → Result (Bool × Text)
unfolding find_job
get_job_cache_info id s = cache_info id (find_job id s)
