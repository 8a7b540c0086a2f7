-- ===== src/Storage/Saving.antt =====
-- SaveJob and GetJob of internal/storage/db.go: what is read back after a save, and what a save
-- leaves alone.
use libvirt_volume_provision.Base.{
  ℕ, ◌-◌, ◌%◌, ◌*◌, [], ◌∷◌, ◌++◌, ◌≡◌, ◌≢◌, refl, Option, none, some, arith, Option-cases, inl,
  inr, if◌then◌else◌,
}
use libvirt_volume_provision.Text.{Text, text_eq}
use libvirt_volume_provision.Text.Laws.{text_eq_iff, text_eq_refl}
use libvirt_volume_provision.Act.{Result, ok, err, panicked}
use libvirt_volume_provision.Storage.{
  JobRecord, Row, Table, SaveFaults, nano, unix, from_unix, find_row, insert_row, update_row,
  update_rows, written, save_job, save_in, Session, record_of_row, get_job, time_of_ptr,
  time_to_unix_ptr,
}

abbrev pub no_faults : SaveFaults
no_faults = record {
  begin_error = none;
  check_error = none;
  write_error = none;
  commit_error = none;
}

find_row-id : (id : Text) (t : Table) (r : Row) → find_row id t ≡ some r → r.id ≡ id
unfolding find_row
find_row-id id [] r h = cc
find_row-id id (x ∷ t) r h = ground (arith, text_eq_iff x.id id, find_row-id id t r)

id-update_row : (j : JobRecord) (r : Row) → (update_row j r).id ≡ r.id
unfolding update_row
id-update_row j r = ground arith

find_row-update_rows :
    (j : JobRecord) (id : Text) (t : Table)
    → find_row id (update_rows j t)
      ≡ elim (find_row id t) [ none ↦ none | some r ↦ some (update_row j r) ]
unfolding find_row update_rows
find_row-update_rows j id [] = refl
find_row-update_rows j id (r ∷ t) = ground (arith, id-update_row j r, find_row-update_rows j id t)

find_row-append :
    (id : Text) (t : Table) (r : Row)
    → find_row id (t ++ r ∷ [])
      ≡ elim (find_row id t) [ none ↦ if text_eq r.id id then some r else none | some x ↦ some x ]
unfolding find_row
find_row-append id [] r = refl
find_row-append id (x ∷ t) r = ground (arith, find_row-append id t r)

-- The row that a save leaves, over an earlier row or over none.
abbrev row_after : Option Row → JobRecord → Row
row_after none j = insert_row j
row_after (some r) j = update_row j r

find_row-written_self :
    (j : JobRecord) (t : Table) (o : Option Row)
    → find_row j.id t ≡ o
    → find_row j.id (written o j t) ≡ some (row_after o j)
unfolding insert_row
find_row-written_self j t none h =
    rw (find_row-append j.id t (insert_row j)) (ground (arith, text_eq_refl j.id))
find_row-written_self j t (some r) h = rw (find_row-update_rows j j.id t) (ground arith)

find_row-written_ne :
    (j : JobRecord) (id : Text) (t : Table) (o : Option Row)
    → j.id ≢ id
    → find_row id (written o j t) ≡ find_row id t
unfolding insert_row update_row
find_row-written_ne j id t none h =
    rw (find_row-append id t (insert_row j)) (ground (arith, text_eq_iff j.id id))
find_row-written_ne j id t (some r) h = elim (Option-cases (find_row id t)) [
  | inl e ↦ rw (find_row-update_rows j id t) (rw e)
  | inr found ↦
      rw (find_row-update_rows j id t)
        (ground (arith, found.1, find_row-id id t found.0, text_eq_iff found.0.id j.id))
]

-- A time without its fraction of a second.
abbrev pub truncated : ℕ → ℕ
truncated t = t - t % nano

abbrev pub truncated_ptr : Option ℕ → Option ℕ
truncated_ptr none = none
truncated_ptr (some t) = some (truncated t)

-- The record that is read back: the request and the time of creation are those of the earlier row,
-- if there is one, all else is the saved record's, and the saved times are whole seconds.
abbrev pub merged : Option Row → JobRecord → JobRecord
merged none j = record j {
  created_at = truncated j.created_at;
  updated_at = truncated j.updated_at;
  completed_at = truncated_ptr j.completed_at;
}
merged (some r) j = record j {
  request_json = r.request_json;
  created_at = r.created_at * nano;
  updated_at = truncated j.updated_at;
  completed_at = truncated_ptr j.completed_at;
}

from_unix-unix : (t : ℕ) → from_unix (unix t) ≡ truncated t
unfolding from_unix unix
from_unix-unix t = omega arith

from_unix_lem : (n : ℕ) → from_unix n ≡ n * nano
unfolding from_unix
from_unix_lem n = refl

time_of_ptr-time_to_unix_ptr : (o : Option ℕ) → time_of_ptr (time_to_unix_ptr o) ≡ truncated_ptr o
unfolding time_of_ptr time_to_unix_ptr
time_of_ptr-time_to_unix_ptr none = refl
time_of_ptr-time_to_unix_ptr (some t) = ground (arith, from_unix-unix t)

record-row_after :
    (j : JobRecord) (o : Option Row) (t : Table)
    → find_row j.id t ≡ o
    → record_of_row (row_after o j) ≡ merged o j
record-row_after j none t h =
    unfold record_of_row insert_row in
    ground (
      arith,
      from_unix-unix j.created_at,
      from_unix-unix j.updated_at,
      time_of_ptr-time_to_unix_ptr j.completed_at,
    )
record-row_after j (some r) t h =
    unfold record_of_row update_row in
    ground (
      arith,
      find_row-id j.id t r h,
      text_eq_iff r.id j.id,
      from_unix-unix j.updated_at,
      time_of_ptr-time_to_unix_ptr j.completed_at,
      from_unix_lem r.created_at,
    )

read-written :
    (j : JobRecord) (t : Table)
    → get_job none j.id (written (find_row j.id t) j t) ≡ ok (merged (find_row j.id t) j)
unfolding get_job
read-written j t =
    rw (find_row-written_self j t (find_row j.id t) refl)
      (rw (record-row_after j (find_row j.id t) t refl))

-- A job that was saved without an error of the engine is read back as the record that was saved,
-- merged with the row that was there before.
pub get_job-save_job :
    (j : JobRecord) (t : Table)
    → get_job none j.id (save_job no_faults j t).1 ≡ ok (merged (find_row j.id t) j)
unfolding save_job
get_job-save_job j t = read-written j t

-- A save of one job, with or without an error, does not change what is read of another.
pub get_job-save_job_ne :
    (f : SaveFaults) (j : JobRecord) (id : Text) (t : Table)
    → j.id ≢ id
    → get_job none id (save_job f j t).1 ≡ get_job none id t
unfolding get_job save_job
get_job-save_job_ne f j id t h = ground (arith, find_row-written_ne j id t (find_row j.id t) h)

-- What a save has done to the rows by what it returns: all, or nothing.
abbrev pub AllOrNothing : JobRecord → Table → Result (Unit {0}) → Table → Type 0
AllOrNothing j t (ok u) t' = get_job none j.id t' ≡ ok (merged (find_row j.id t) j)
AllOrNothing j t (err e) t' = t' ≡ t
AllOrNothing j t panicked t' = ⊥

-- SaveJob on a database without an open transaction, whatever errors the engine reports and at whatever
-- steps: when it returns no transaction is open, a save that succeeds is read back as the record that
-- was saved, merged with the row that was there before, and a save that reports an error leaves the
-- rows as they were.
pub save_job_error :
    (f : SaveFaults) (j : JobRecord) (d : Session)
    → d.transaction ≡ none
    → ((save_in f j d).1.transaction ≡ none)
      × AllOrNothing j d.rows (save_in f j d).0 (save_in f j d).1.rows
unfolding save_in
save_job_error f j d h = elim (Option-cases f.begin_error) [
  | inr failed ↦ rw failed.1 (h, refl)
  | inl begun ↦ rw begun (elim (Option-cases f.check_error) [
    | inr failed ↦ rw failed.1 (refl, refl)
    | inl checked ↦ rw checked (elim (Option-cases f.write_error) [
      | inr failed ↦ rw failed.1 (refl, refl)
      | inl wrote ↦ rw wrote (elim (Option-cases f.commit_error) [
        | inr failed ↦ rw failed.1 (refl, refl)
        | inl committed ↦ rw committed (refl, read-written j d.rows)
      ])
    ])
  ])
]

-- No two rows have the same id.
abbrev pub HasUniqueIds : Table → Type 0
HasUniqueIds [] = Unit
HasUniqueIds (r ∷ t) = (find_row r.id t ≡ none) × HasUniqueIds t

HasUniqueIds-update_rows :
    (j : JobRecord) (t : Table) → HasUniqueIds t → HasUniqueIds (update_rows j t)
unfolding update_rows
HasUniqueIds-update_rows j [] u = tt
HasUniqueIds-update_rows j (r ∷ t) (fresh, u) =
    (rw (id-update_row j r, find_row-update_rows j r.id t, fresh), HasUniqueIds-update_rows j t u)

HasUniqueIds-append :
    (t : Table) (r : Row) → find_row r.id t ≡ none → HasUniqueIds t → HasUniqueIds (t ++ r ∷ [])
unfolding find_row
HasUniqueIds-append [] r h u = (refl, tt)
HasUniqueIds-append (x ∷ t) r h (fresh, u) = (
  rw (find_row-append x.id t r)
      (rw fresh (ground (arith, text_eq_iff x.id r.id, text_eq_iff r.id x.id))),
  HasUniqueIds-append t r (ground arith) u,
)

HasUniqueIds-written :
    (j : JobRecord) (t : Table) (o : Option Row)
    → find_row j.id t ≡ o
    → HasUniqueIds t
    → HasUniqueIds (written o j t)
unfolding insert_row
HasUniqueIds-written j t none h u = HasUniqueIds-append t (insert_row j) h u
HasUniqueIds-written j t (some r) h u = HasUniqueIds-update_rows j t u

-- SaveJob, with any errors of the engine, keeps the ids of the table's rows unique.
pub save_job-HasUniqueIds :
    (f : SaveFaults) (j : JobRecord) (t : Table) → HasUniqueIds t → HasUniqueIds (save_job f j t).1
unfolding save_job
save_job-HasUniqueIds f j t u = ground (arith, HasUniqueIds-written j t (find_row j.id t) refl u)
