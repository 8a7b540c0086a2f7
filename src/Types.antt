-- ===== src/Types.antt =====
-- pkg/types/types.go: requests, job statuses, progress and responses.
use libvirt_volume_provision.Base.{ℕ, Bool, Option, ℤ, true, false}
use libvirt_volume_provision.Text.{Text, codes}

pub record ProvisionRequest : Type 0 where
  pub image_url : Text
  pub volume_name : Text
  pub volume_size_gb : ℤ
  pub image_type : Text

pub data JobStatus : Type 0 where
  pending running completed failed : JobStatus

-- The string constants of the statuses, which the database and the messages hold.
unfoldable pub status_text : JobStatus → Text
status_text pending = codes "pending"
status_text running = codes "running"
status_text completed = codes "completed"
status_text failed = codes "failed"

abbrev pub is_active : JobStatus → Bool
is_active pending = true
is_active running = true
is_active _ = false

abbrev pub is_terminal : JobStatus → Bool
is_terminal completed = true
is_terminal failed = true
is_terminal _ = false

-- The float64 percentages are exact fractions here: `num / den`.
pub record Percent : Type 0 where
  pub num : ℕ
  pub den : ℕ

abbrev pub whole : ℕ → Percent
whole n = record { num = n; den = 1 }

pub record ProgressInfo : Type 0 where
  pub stage : Text
  pub percent : Percent
  pub bytes_processed : ℤ
  pub bytes_total : ℤ

pub record StatusResponse : Type 0 where
  pub job_id : Text
  pub status : JobStatus
  pub progress : Option ProgressInfo
  pub error : Text
  pub correlation_id : Text
  pub cache_hit : Option Bool
  pub image_path : Text
  pub created_at : ℕ
  pub updated_at : ℕ

pub record ErrorResponse : Type 0 where
  pub error : Text
  pub message : Text
  pub code : ℕ
