-- ===== src/Job.antt =====
-- The Job of internal/jobs/manager.go, and its method UpdateProgress, through which the LVM and the
-- MinIO code report. A time is in nanoseconds since 1970.
pub mod Saving
use libvirt_volume_provision.Base.{ℕ, Bool, Option, some, ℤ}
use libvirt_volume_provision.Text.{Text}
use libvirt_volume_provision.Types.{ProvisionRequest, JobStatus, ProgressInfo, Percent}

pub record Job : Type 0 where
  pub id : Text
  pub status : JobStatus
  pub request : ProvisionRequest
  pub progress : Option ProgressInfo
  pub error : Option Text
  pub cache_hit : Bool
  pub image_path : Text
  pub created_at : ℕ
  pub updated_at : ℕ

-- UpdateProgress, `now` being what time.Now() returns.
unfoldable pub update_progress : ℕ → Text → Percent → ℤ → ℤ → Job → Job
update_progress now stage percent bytes_processed bytes_total j = record j {
  progress = some (record {
    stage = stage;
    percent = percent;
    bytes_processed = bytes_processed;
    bytes_total = bytes_total;
  });
  updated_at = now;
}
