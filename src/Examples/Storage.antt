-- ===== src/Examples/Storage.antt =====
-- The store and its schema on concrete tables.
use libvirt_volume_provision.Base.{
  ℕ, ◌+◌, ◌-◌, ◌≤◌, List, [], ◌∷◌, ◌≡◌, refl, not, none, some, pos, negsuc, All, arith, filter,
  length, ltb,
}
use libvirt_volume_provision.Text.{Text, codes, text_eq}
use libvirt_volume_provision.Types.{running, pending, failed, completed, status_text}
use libvirt_volume_provision.Act.{ok}
use libvirt_volume_provision.Storage.{
  Row, Table, JobRecord, SaveFaults, get_job, save_job, find_row, unix, save_in, Session,
}
use libvirt_volume_provision.Storage.Cleanup.{
  ListJobsFilter, list_jobs, mark_in_progress_jobs_failed, delete_old_jobs,
}
use libvirt_volume_provision.Storage.Saving.{
  no_faults, merged, get_job-save_job, get_job-save_job_ne, save_job_error, HasUniqueIds,
  save_job-HasUniqueIds, AllOrNothing,
}
use libvirt_volume_provision.Storage.Maintenance.{
  IsKept, is_over, having, mark_in_progress_jobs_failed_counts, delete_old_jobs_exact,
  list_jobs_bounded,
}
use libvirt_volume_provision.Storage.Schema.{Migration, Schema, init_schema}
use libvirt_volume_provision.Storage.Migrating.{init_schema_idempotent}

abbrev row : Text → Text → ℕ → Row
row id status updated_at = record {
  id = id;
  status = status;
  request_json = codes "{}";
  progress_json = [];
  error_message = [];
  retry_count = pos 0;
  created_at = 1;
  updated_at = updated_at;
  completed_at = none;
}

abbrev table : Table
table = row (codes "a") (codes "running") 5 ∷ row (codes "b") (codes "completed") 1 ∷ []

abbrev job : JobRecord
job = record {
  id = codes "a";
  status = codes "completed";
  request_json = codes "{}";
  progress_json = [];
  error_message = [];
  retry_count = pos 0;
  created_at = 1500000000;
  updated_at = 7500000000;
  completed_at = some 7500000000;
}

abbrev broken_commit : SaveFaults
broken_commit = record {
  begin_error = none;
  check_error = none;
  write_error = none;
  commit_error = some (codes "disk I/O error");
}

get_job-save_job_example :
    get_job none (codes "a") (save_job no_faults job table).1
    ≡ ok (merged (find_row (codes "a") table) job)
get_job-save_job_example = get_job-save_job job table

get_job-save_job_ne_example :
    get_job none (codes "b") (save_job no_faults job table).1 ≡ get_job none (codes "b") table
get_job-save_job_ne_example =
    get_job-save_job_ne no_faults job (codes "b") table (λ h. ground arith)

abbrev connection : Session
connection = record { rows = table; transaction = none }

save_job_error_example :
    ((save_in broken_commit job connection).1.transaction ≡ none)
    × AllOrNothing job table
        (save_in broken_commit job connection).0
        (save_in broken_commit job connection).1.rows
save_job_error_example = save_job_error broken_commit job connection refl

save_job-HasUniqueIds_example : HasUniqueIds (save_job no_faults job table).1
unfolding find_row text_eq
save_job-HasUniqueIds_example = save_job-HasUniqueIds no_faults job table (refl, (refl, tt))

mark_in_progress_jobs_failed_counts_example :
    let t' = (mark_in_progress_jobs_failed none 9000000000 table).1 in
    (having (status_text running) t' ≡ 0)
    × (having (status_text pending) t' ≡ 0)
    × (having (status_text failed) t'
        ≡ having (status_text failed) table
          + having (status_text running) table
          + having (status_text pending) table)
    × (having (status_text completed) t' ≡ having (status_text completed) table)
mark_in_progress_jobs_failed_counts_example = mark_in_progress_jobs_failed_counts 9000000000 table

delete_old_jobs_exact_example :
    let t' = (delete_old_jobs none none 9000000000 3000000000 table).1 in
    let cutoff = unix (9000000000 - 3000000000) in
    All (IsKept cutoff) t'
    × (filter (λ r. not (is_over r)) t' ≡ filter (λ r. not (is_over r)) table)
    × (filter (λ r. not (ltb r.updated_at cutoff)) t'
        ≡ filter (λ r. not (ltb r.updated_at cutoff)) table)
delete_old_jobs_exact_example = delete_old_jobs_exact none 9000000000 3000000000 table

abbrev listing : ListJobsFilter
listing = record { status = []; limit = pos 1; offset = pos 0 }

abbrev unlimited : ListJobsFilter
unlimited = record { status = []; limit = negsuc 0; offset = pos 0 }

list_jobs_bounded_example :
    (out : List JobRecord) × (list_jobs (λ t. t) none listing table ≡ ok out)
    × (length out ≤ 1)
    × (length out ≤ 10000)
list_jobs_bounded_example = list_jobs_bounded (λ t. t) listing 1 table refl

abbrev first_migration : Migration
first_migration = record { version = 1; sql = codes "CREATE TABLE jobs" }

abbrev migrated : Schema
migrated = record { versions = 1 ∷ []; statements = codes "CREATE TABLE jobs" ∷ [] }

init_schema_idempotent_example :
    init_schema (λ m. some ([], codes "locked")) (λ m. none) none (first_migration ∷ []) migrated
    ≡ (ok tt, migrated)
unfolding init_schema
init_schema_idempotent_example =
    init_schema_idempotent (λ m. none) (λ m. some ([], codes "locked")) (λ m. none) (λ m. none)
      (some (codes "no such table: schema_version")) (first_migration ∷ [])
      (record { versions = []; statements = [] }) migrated refl
