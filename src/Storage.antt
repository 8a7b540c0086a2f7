-- ===== src/Storage.antt =====
-- internal/storage/db.go: the table of jobs. A statement has the meaning that SQL gives it, over the
-- list of the table's rows; whether the engine reports an error at a step is a parameter.
pub mod Schema
pub mod Saving
pub mod Migrating
pub mod Opening
pub mod Cleanup
pub mod Maintenance
use libvirt_volume_provision.Base.{
  ℕ, ◌+◌, ◌-◌, ◌*◌, ◌/◌, ◌^◌, List, [], ◌∷◌, ◌++◌, not, ◌&&◌, ◌||◌, Option, none, some, ℤ,
  if◌then◌else◌, Bool, true, false,
}
use libvirt_volume_provision.Text.{Text, codes, text_eq}
use libvirt_volume_provision.Act.{Result, ok, err}
use libvirt_volume_provision.Types.{failed}

-- Times in nanoseconds.
pub record JobRecord : Type 0 where
  pub id : Text
  pub status : Text
  pub request_json : Text
  pub progress_json : Text
  pub error_message : Text
  pub retry_count : ℤ
  pub created_at : ℕ
  pub updated_at : ℕ
  pub completed_at : Option ℕ

-- A row of the table `jobs`, with times in seconds.
pub record Row : Type 0 where
  pub id : Text
  pub status : Text
  pub request_json : Text
  pub progress_json : Text
  pub error_message : Text
  pub retry_count : ℤ
  pub created_at : ℕ
  pub updated_at : ℕ
  pub completed_at : Option ℕ

abbrev pub Table : Type 0
Table = List Row

abbrev pub nano : ℕ
nano = 1000000000

-- t.Unix()
unfoldable pub unix : ℕ → ℕ
unix t = t / nano

-- time.Unix(s, 0)
unfoldable pub from_unix : ℕ → ℕ
from_unix s = s * nano

-- timeToUnixPtr
unfoldable pub time_to_unix_ptr : Option ℕ → Option ℕ
time_to_unix_ptr none = none
time_to_unix_ptr (some t) = some (unix t)

unfoldable pub time_of_ptr : Option ℕ → Option ℕ
time_of_ptr none = none
time_of_ptr (some s) = some (from_unix s)

-- Errors of the engine at the steps of SaveJob.
pub record SaveFaults : Type 0 where
  pub begin_error : Option Text
  pub check_error : Option Text
  pub write_error : Option Text
  pub commit_error : Option Text

-- SELECT ... FROM jobs WHERE id = ?
unfoldable pub find_row : Text → Table → Option Row
find_row id [] = none
find_row id (r ∷ t) = if text_eq r.id id then some r else find_row id t

unfoldable pub insert_row : JobRecord → Row
unfolding time_to_unix_ptr unix
insert_row j = record {
  id = j.id;
  status = j.status;
  request_json = j.request_json;
  progress_json = j.progress_json;
  error_message = j.error_message;
  retry_count = j.retry_count;
  created_at = unix j.created_at;
  updated_at = unix j.updated_at;
  completed_at = time_to_unix_ptr j.completed_at;
}

-- UPDATE jobs SET ... WHERE id = ?: the request and the time of creation stay.
unfoldable pub update_row : JobRecord → Row → Row
unfolding time_to_unix_ptr unix
update_row j r =
    if text_eq r.id j.id
    then record r {
      status = j.status;
      progress_json = j.progress_json;
      error_message = j.error_message;
      retry_count = j.retry_count;
      updated_at = unix j.updated_at;
      completed_at = time_to_unix_ptr j.completed_at;
    }
    else r

unfoldable pub update_rows : JobRecord → Table → Table
update_rows j [] = []
update_rows j (r ∷ t) = update_row j r ∷ update_rows j t

-- The statement that SaveJob runs, with what the existence check found.
abbrev pub written : Option Row → JobRecord → Table → Table
written none j t = t ++ insert_row j ∷ []
written (some r) j t = update_rows j t

abbrev pub write_message : Option Row → Text
write_message none = codes "failed to insert job: "
write_message (some r) = codes "failed to update job: "

-- The database with the transaction that SaveJob may have open: the rows as that transaction sees them.
pub record Session : Type 0 where
  pub rows : Table
  pub transaction : Option Table

abbrev pub begin : Session → Session
begin d = record d { transaction = some d.rows }

-- The rows that a statement of the transaction reads.
abbrev pub seen_rows : Option Table → Table → Table
seen_rows none t = t
seen_rows (some t') t = t'

-- The statement that writes.
abbrev pub write : JobRecord → Session → Session
write j d =
    let t = seen_rows d.transaction d.rows in
    record d { transaction = some (written (find_row j.id t) j t) }

abbrev pub commit : Session → Session
commit d = record { rows = seen_rows d.transaction d.rows; transaction = none }

-- tx.Rollback(), which ends the transaction also when it reports an error; after a Commit, even one
-- that failed, there is none to end.
abbrev pub rollback : Session → Session
rollback d = record d { transaction = none }

-- The deferred function of SaveJob.
abbrev pub deferred : Bool → Session → Session
deferred committed d = if committed then d else rollback d

-- SaveJob behind its BeginTx: what it returns, `committed`, and the database. A Commit that fails ends
-- the transaction and writes nothing.
abbrev pub save_body : SaveFaults → JobRecord → Session → Result (Unit {0}) × Bool × Session
save_body f j d = elim f.check_error [
  | some e ↦ (err (codes "failed to check job existence: " ++ e), false, d)
  | none ↦ elim f.write_error [
    | some e ↦ (err (write_message (find_row j.id (seen_rows d.transaction d.rows)) ++ e), false, d)
    | none ↦ elim f.commit_error [
      | some e ↦ (err (codes "failed to commit transaction: " ++ e), false, rollback (write j d))
      | none ↦ (ok tt, true, commit (write j d))
    ]
  ]
]

abbrev pub ended_by : Result (Unit {0}) × Bool × Session → Result (Unit {0}) × Session
ended_by (r, committed, d) = (r, deferred committed d)

unfoldable pub save_in : SaveFaults → JobRecord → Session → Result (Unit {0}) × Session
save_in f j d = elim f.begin_error [
  | some e ↦ (err (codes "failed to begin transaction: " ++ e), d)
  | none ↦ ended_by (save_body f j (begin d))
]

abbrev pub rows_of : Result (Unit {0}) × Session → Result (Unit {0}) × Table
rows_of (r, d) = (r, d.rows)

-- SaveJob on a database with no open transaction, as its mutex sees to.
unfoldable pub save_job : SaveFaults → JobRecord → Table → Result (Unit {0}) × Table
unfolding save_in
save_job f j t = rows_of (save_in f j (record { rows = t; transaction = none }))

unfoldable pub record_of_row : Row → JobRecord
unfolding time_of_ptr from_unix
record_of_row r = record {
  id = r.id;
  status = r.status;
  request_json = r.request_json;
  progress_json = r.progress_json;
  error_message = r.error_message;
  retry_count = r.retry_count;
  created_at = from_unix r.created_at;
  updated_at = from_unix r.updated_at;
  completed_at = time_of_ptr r.completed_at;
}

abbrev pub found_job : Text → Option Row → Result JobRecord
found_job id none = err (codes "job not found: " ++ id)
found_job id (some r) = ok (record_of_row r)

-- GetJob, `fault` being an error of the query other than that there is no row.
unfoldable pub get_job : Option Text → Text → Table → Result JobRecord
get_job (some e) id t = err (codes "failed to query job: " ++ e)
get_job none id t = found_job id (find_row id t)
