-- ===== src/Storage/Cleanup.antt =====
-- ListJobs, MarkInProgressJobsFailed, DeleteOldJobs and GetJobCount of internal/storage/db.go.
use libvirt_volume_provision.Base.{
  ℕ, zero, suc, ◌-◌, List, [], ◌∷◌, ◌++◌, map, Bool, not, ◌&&◌, ◌||◌, Option, none, some, ℤ, pos,
  negsuc, ltb, filter, count, take, drop, if◌then◌else◌,
}
use libvirt_volume_provision.Text.{Text, codes, text_eq}
use libvirt_volume_provision.Act.{Result, ok, err}
use libvirt_volume_provision.Types.{status_text, pending, running, completed, failed}
use libvirt_volume_provision.Storage.{JobRecord, Row, Table, unix, record_of_row}

pub record ListJobsFilter : Type 0 where
  pub status : Text
  pub limit : ℤ
  pub offset : ℤ

-- if filter.Limit == 0 { ... } if filter.Limit > 10000 { ... }
unfoldable pub capped_limit : ℤ → ℤ
capped_limit (pos zero) = pos 100
capped_limit (pos (suc n)) = if ltb 10000 (suc n) then pos 10000 else pos (suc n)
capped_limit (negsuc n) = negsuc n

-- LIMIT ?: a negative limit is no limit.
unfoldable pub limited : ℤ → Table → Table
limited (pos n) t = take n t
limited (negsuc n) t = t

-- OFFSET ?: a negative offset skips nothing.
unfoldable pub skipped : ℤ → Table → Table
skipped (pos n) t = drop n t
skipped (negsuc n) t = t

unfoldable pub with_status : Text → Table → Table
with_status [] t = t
with_status (c ∷ s) t = filter (λ r. text_eq r.status (c ∷ s)) t

-- Errors of the engine at the query, at a row's Scan, and that rows.Err() reports.
pub data ListFault : Type 0 where
  query_fault scan_fault iteration_fault : Text → ListFault

abbrev pub list_error : ListFault → Text
list_error (query_fault e) = codes "failed to query jobs: " ++ e
list_error (scan_fault e) = codes "failed to scan job: " ++ e
list_error (iteration_fault e) = codes "error iterating jobs: " ++ e

-- ListJobs: `newest_first` is the engine's ORDER BY updated_at DESC, which leaves ties open.
unfoldable pub list_jobs :
    (Table → Table) → Option ListFault → ListJobsFilter → Table → Result (List JobRecord)
unfolding with_status limited skipped capped_limit
list_jobs newest_first (some e) f t = err (list_error e)
list_jobs newest_first none f t = ok (
    map record_of_row
      (limited (capped_limit f.limit) (skipped f.offset (newest_first (with_status f.status t)))))

-- WHERE status IN ('running', 'pending')
unfoldable pub is_in_progress : Row → Bool
unfolding status_text
is_in_progress r = text_eq r.status (status_text running) || text_eq r.status (status_text pending)

-- WHERE status IN ('completed', 'failed')
unfoldable pub is_finished : Row → Bool
unfolding status_text
is_finished r = text_eq r.status (status_text completed) || text_eq r.status (status_text failed)

unfoldable pub mark_failed : ℕ → Row → Row
unfolding is_in_progress
mark_failed now r =
    if is_in_progress r
    then record r {
      status = status_text failed;
      error_message = codes "daemon restarted while job in progress";
      updated_at = now;
      completed_at = some now;
    }
    else r

unfoldable pub mark_all : ℕ → Table → Table
mark_all now [] = []
mark_all now (r ∷ t) = mark_failed now r ∷ mark_all now t

-- MarkInProgressJobsFailed, `now` being time.Now()
unfoldable pub mark_in_progress_jobs_failed : Option Text → ℕ → Table → Result (Unit {0}) × Table
unfolding mark_all unix
mark_in_progress_jobs_failed (some e) now t =
    (err (codes "failed to mark in-progress jobs as failed: " ++ e), t)
mark_in_progress_jobs_failed none now t = (ok tt, mark_all (unix now) t)

-- Rows that DeleteOldJobs removes.
unfoldable pub is_old : ℕ → Row → Bool
unfolding is_finished
is_old cutoff r = is_finished r && ltb r.updated_at cutoff

-- What result.RowsAffected() reports.
abbrev pub rows_affected : Option Text → Result (Unit {0})
rows_affected none = ok tt
rows_affected (some e) = err (codes "failed to get affected rows: " ++ e)

-- DeleteOldJobs, `now` and `older_than` in nanoseconds; the time is not before 1970. The engine may
-- report an error of the statement, or of the count of its rows.
unfoldable pub delete_old_jobs :
    Option Text → Option Text → ℕ → ℕ → Table → Result (Unit {0}) × Table
unfolding is_old unix
delete_old_jobs (some e) rows now older_than t = (err (codes "failed to delete old jobs: " ++ e), t)
delete_old_jobs none rows now older_than t =
    (rows_affected rows, filter (λ r. not (is_old (unix (now - older_than)) r)) t)

-- GetJobCount
unfoldable pub get_job_count : Option Text → Text → Table → Result ℕ
get_job_count (some e) status t = err (codes "failed to get job count: " ++ e)
get_job_count none status t = ok (count (λ r. text_eq r.status status) t)
