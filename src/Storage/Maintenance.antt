-- ===== src/Storage/Maintenance.antt =====
-- MarkInProgressJobsFailed, DeleteOldJobs and ListJobs of internal/storage/db.go.
use libvirt_volume_provision.Base.{
  ℕ, zero, suc, ◌+◌, ◌-◌, ◌≤◌, List, [], ◌∷◌, map, ◌≡◌, ◌≢◌, refl, Bool, true, false, not, Option,
  none, pos, ltb, length, filter, count, take, All, arith, if◌then◌else◌, All-map, ◌⊎◌, inl, inr,
  ◌||◌, Bool-cases,
}
use libvirt_volume_provision.Text.{Text, text_eq, codes}
use libvirt_volume_provision.Act.{ok}
use libvirt_volume_provision.Text.Laws.{text_eq_other, text_eq_refl, text_eq_of_eq}
use libvirt_volume_provision.Types.{JobStatus, status_text, pending, running, completed, failed}
use libvirt_volume_provision.Storage.{JobRecord, Row, Table, unix, record_of_row}
use libvirt_volume_provision.Storage.Cleanup.{
  ListJobsFilter, is_finished, is_old, mark_failed, mark_all, mark_in_progress_jobs_failed,
  delete_old_jobs, capped_limit, skipped, with_status, list_jobs,
}

-- The rows with a status, as GetJobCount counts them.
abbrev pub having : Text → Table → ℕ
having status = count (λ r. text_eq r.status status)

-- The statuses are different texts.
differ : (a b : JobStatus) → a ≢ b → text_eq (status_text a) (status_text b) ≡ false
unfolding text_eq status_text
differ pending pending h = absurd (h refl)
differ running running h = absurd (h refl)
differ completed completed h = absurd (h refl)
differ failed failed h = absurd (h refl)
differ _ _ h = refl

exclusive :
    (s : Text) (a b : JobStatus)
    → a ≢ b
    → text_eq s (status_text a) ≡ true
    → text_eq s (status_text b) ≡ false
exclusive s a b ne = text_eq_other s (status_text a) (status_text b) (differ a b ne)

having-mark_all :
    (now : ℕ) (t : Table)
    → (having (status_text running) (mark_all now t) ≡ 0)
      × (having (status_text pending) (mark_all now t) ≡ 0)
      × (having (status_text failed) (mark_all now t)
          ≡ having (status_text failed) t
            + having (status_text running) t
            + having (status_text pending) t)
      × (having (status_text completed) (mark_all now t) ≡ having (status_text completed) t)
unfolding mark_all mark_failed
having-mark_all now [] = ground arith
having-mark_all now (r ∷ t) = ground (
  arith,
  having-mark_all now t,
  exclusive r.status running pending (cc),
  exclusive r.status running failed (cc),
  exclusive r.status running completed (cc),
  exclusive r.status pending failed (cc),
  exclusive r.status pending completed (cc),
  differ failed running (cc),
  differ failed pending (cc),
  differ failed completed (cc),
  text_eq_refl (status_text failed),
)

-- Without an error of the engine, MarkInProgressJobsFailed leaves no row that is running or pending,
-- the failed rows are those that were failed, running or pending, and the completed rows are as many
-- as before.
pub mark_in_progress_jobs_failed_counts :
    (now : ℕ) (t : Table)
    → let t' = (mark_in_progress_jobs_failed none now t).1 in
      (having (status_text running) t' ≡ 0)
      × (having (status_text pending) t' ≡ 0)
      × (having (status_text failed) t'
          ≡ having (status_text failed) t
            + having (status_text running) t
            + having (status_text pending) t)
      × (having (status_text completed) t' ≡ having (status_text completed) t)
unfolding mark_in_progress_jobs_failed
mark_in_progress_jobs_failed_counts now t = having-mark_all (unix now) t

module _ (p q : Row → Bool) where
  filter-filter :
      ((r : Row) → p r ≡ true → q r ≡ true) → (t : Table) → filter p (filter q t) ≡ filter p t
  filter-filter h [] = refl
  filter-filter h (r ∷ t) = ground (arith, h r, filter-filter h t)

  All-filter :
      ((r : Row) → q r ≡ true → p r ≡ false) → (t : Table) → All (λ r. p r ≡ false) (filter q t)
  All-filter h [] = tt
  All-filter h (r ∷ t) = ground (arith, h r, All-filter h t)

-- A row that DeleteOldJobs has to leave: neither completed nor failed, or updated at the cutoff or
-- later.
abbrev pub IsKept : ℕ → Row → Type 0
IsKept cutoff r =
    ((r.status ≢ codes "completed") × (r.status ≢ codes "failed")) ⊎ (cutoff ≤ r.updated_at)

abbrev pub is_over : Row → Bool
is_over r = text_eq r.status (codes "completed") || text_eq r.status (codes "failed")

not_old-IsKept : (cutoff : ℕ) (r : Row) → is_old cutoff r ≡ false → IsKept cutoff r
unfolding is_old is_finished status_text
not_old-IsKept cutoff r h = elim (Bool-cases (ltb r.updated_at cutoff)) [
  | inr late ↦ inr (ground (arith, late))
  | inl early ↦ inl (
    (λ e. ground (arith, early, h, text_eq_of_eq r.status (codes "completed") e)),
    (λ e. ground (arith, early, h, text_eq_of_eq r.status (codes "failed") e)),
  )
]

-- When the engine runs its statement, DeleteOldJobs leaves no row from before the cutoff whose status is
-- "completed" or "failed", and keeps, in their order, all rows with any other status and all rows
-- updated at the cutoff or later.
pub delete_old_jobs_exact :
    (rows : Option Text) (now older_than : ℕ) (t : Table)
    → let t' = (delete_old_jobs none rows now older_than t).1 in
      let cutoff = unix (now - older_than) in
      All (IsKept cutoff) t'
      × (filter (λ r. not (is_over r)) t' ≡ filter (λ r. not (is_over r)) t)
      × (filter (λ r. not (ltb r.updated_at cutoff)) t'
          ≡ filter (λ r. not (ltb r.updated_at cutoff)) t)
unfolding delete_old_jobs
delete_old_jobs_exact rows now older_than t = (
  All-map (λ r. is_old (unix (now - older_than)) r ≡ false) (IsKept (unix (now - older_than)))
      (not_old-IsKept (unix (now - older_than)))
      (filter (λ r. not (is_old (unix (now - older_than)) r)) t)
      (All-filter _ _ (λ r h. ground arith) t),
  filter-filter _ _ (λ r h. unfold is_old is_finished status_text in ground arith) t,
  filter-filter _ _ (λ r h. unfold is_old in ground arith) t,
)

length-take-le : (n : ℕ) (t : Table) → length (take n t) ≤ n
length-take-le zero t = omega arith
length-take-le (suc n) [] = omega arith
length-take-le (suc n) (r ∷ t) = omega (arith, length-take-le n t)

length-map : (t : Table) → length (map record_of_row t) ≡ length t
length-map [] = refl
length-map (r ∷ t) = ground (arith, length-map t)

-- The number of rows that a limit of 0 or more stands for.
abbrev pub row_limit : ℕ → ℕ
row_limit zero = 100
row_limit (suc n) = if ltb 10000 (suc n) then 10000 else suc n

capped_limit_lem : (n : ℕ) → capped_limit (pos n) ≡ pos (row_limit n)
unfolding capped_limit
capped_limit_lem zero = refl
capped_limit_lem (suc n) = ground arith

row_limit-le : (n : ℕ) → row_limit n ≤ 10000
row_limit-le zero = omega arith
row_limit-le (suc n) = ground arith

-- With a limit that is not negative and no error of the engine, ListJobs returns at most as many
-- records as the limit says, 100 for a limit of 0, and never more than 10000, in whatever order the
-- engine returns the rows.
pub list_jobs_bounded :
    (newest_first : Table → Table) (f : ListJobsFilter) (n : ℕ) (t : Table)
    → f.limit ≡ pos n
    → (out : List JobRecord) × (list_jobs newest_first none f t ≡ ok out)
      × (length out ≤ row_limit n)
      × (length out ≤ 10000)
unfolding list_jobs
list_jobs_bounded newest_first f n t h =
    rw (h, capped_limit_lem n) (_, refl, bound, omega (arith, bound, row_limit-le n))
  where
    bound :
        length (
          map record_of_row
            (take (row_limit n) (skipped f.offset (newest_first (with_status f.status t)))))
        ≤ row_limit n
    bound = rw (length-map _) (length-take-le (row_limit n) _)
