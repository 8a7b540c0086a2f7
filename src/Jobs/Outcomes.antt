-- ===== src/Jobs/Outcomes.antt =====
-- How a job ends: cancellation on every branch, what the end of a job records, and what reaches the
-- database.
use libvirt_volume_provision.Base.{
  ℕ, ◌++◌, ◌≡◌, refl, true, false, Option, none, some, arith, Bool-cases, inl, inr, ◌∙◌, ap, ◌-◌,
  subst, if◌then◌else◌,
}
use libvirt_volume_provision.Text.{Text, codes}
use libvirt_volume_provision.Act.{Result, ok, err}
use libvirt_volume_provision.Types.{JobStatus, completed, failed, is_active, status_text}
use libvirt_volume_provision.Job.{Job}
use libvirt_volume_provision.Storage.{
  Row, Table, SaveFaults, JobRecord, get_job, save_job, find_row,
}
use libvirt_volume_provision.Storage.Saving.{no_faults, merged, get_job-save_job}
use libvirt_volume_provision.Jobs.{
  executing, done, Thread, State, Effects, finished, find_thread, step, cancel_job, cancel_thread,
  saved, find_job, concluded, after, set_thread,
}
use libvirt_volume_provision.Job.Saving.{Json, job_record, sync_to_database}
use libvirt_volume_provision.Jobs.Slots.{concluded-id}
use libvirt_volume_provision.Jobs.Threads.{
  find_thread-id, find_thread-set_thread_self, find_job-found, find_job-is_listed, find_job-listed,
}

-- What CancelJob returns for a job that it refuses: an error, and nothing changed.
abbrev pub IsRefused : Text → State → Result (Unit {0}) × State → Type 0
IsRefused message s r = r ≡ (err message, s)

-- What it returns for a job that it cancels: the job `id` is still listed, and failed, with the message of a
-- cancellation and a context that is done.
abbrev pub IsCancelled : Text → Result (Unit {0}) × State → Type 0
IsCancelled id r =
    (t : Thread) × (r.0 ≡ ok tt)
    × (find_job id r.1 ≡ some t)
    × (t.job.status ≡ failed)
    × (t.job.error ≡ some (codes "job cancelled by user"))
    × (t.ctx_done ≡ true)

-- The three branches of CancelJob.
abbrev pub CancelCases : Text → State → Option Thread → Result (Unit {0}) × State → Type 0
CancelCases id s none r = IsRefused (codes "job not found: " ++ id) s r
CancelCases id s (some t) r =
    if is_active t.job.status
    then IsCancelled id r
    else IsRefused (codes "job cannot be cancelled: " ++ status_text t.job.status) s r

status-merged : (o : Option Row) (j : JobRecord) → (merged o j).status ≡ j.status
status-merged none j = refl
status-merged (some r) j = refl

-- The status of a job that has ended with an error, or with none.
abbrev pub end_status : Option Text → JobStatus
end_status none = completed
end_status (some e) = failed

-- The status that a job ends with, and the error if ProvisionVolume has returned one.
abbrev pub EndsAs : Option Text → Job → Type 0
EndsAs none j = j.status ≡ completed
EndsAs (some x) j = (j.status ≡ failed) × (j.error ≡ some x)

module _ (json : Json) where
  -- A job that was just saved is read back.
  read_back :
      (j : Job) (table : Table)
      → get_job none j.id (save_job no_faults (job_record json j) table).1
        ≡ ok (merged (find_row j.id table) (job_record json j))
  unfolding job_record
  read_back j table = get_job-save_job (job_record json j) table

  -- The thread and the state that CancelJob leaves.
  abbrev cancelled_thread : ℕ → Thread → Thread
  cancelled_thread now t = record t {
    job = record t.job {
      status = failed;
      updated_at = now;
      error = some (codes "job cancelled by user");
    };
    ctx_done = true;
  }

  abbrev cancelled_state : Text → ℕ → SaveFaults → Thread → State → State
  cancelled_state id now f t s = record s {
    threads = set_thread (cancelled_thread now t) s.threads;
    store = sync_to_database json false f (cancelled_thread now t).job s.store;
  }

  cancel_thread_cases :
      (id : Text) (now : ℕ) (f : SaveFaults) (s : State) (o : Option Thread)
      → find_job id s ≡ o
      → CancelCases id s o (cancel_thread json id now f o s)
  cancel_thread_cases id now f s none e = refl
  cancel_thread_cases id now f s (some t) e = elim (Bool-cases (is_active t.job.status)) [
    | inr ended ↦ rw ended refl
    | inl active ↦
        let found = find_job-found id s t e in
        rw active (
          _,
          refl,
          find_job-listed id (cancelled_state id now f t s) _
              (find_thread-set_thread_self id (cancelled_thread now t) t s.threads found
                (find_thread-id id s.threads t found))
              (find_job-is_listed id s t e),
          refl,
          refl,
          refl,
        )
  ]

  -- CancelJob on every branch: a job that the manager does not list, or whose status is completed or
  -- failed, is refused and nothing changes; any other job is failed afterwards, with the message of a
  -- cancellation and a context that is done.
  pub cancel_job_cases :
      (id : Text) (now : ℕ) (f : SaveFaults) (s : State)
      → CancelCases id s (find_job id s) (cancel_job json id now f s)
  unfolding cancel_job
  cancel_job_cases id now f s = cancel_thread_cases id now f s (find_job id s) refl

  -- The thread that the end of `runJob` leaves.
  abbrev pub ended_thread : Effects → Option Text → ℕ → Thread → Thread
  ended_thread e outcome now t = record t {
    job = record (concluded json outcome (after json e t.job)) { updated_at = now };
    phase = done;
  }

  module _ (id : Text) (s : State) (t : Thread) (found : find_thread id s.threads ≡ some t)
      (runs : t.phase ≡ executing) where
    status-concluded :
        (e : Effects) (outcome : Option Text)
        → (concluded json outcome (after json e t.job)).status ≡ end_status outcome
    status-concluded e none = refl
    status-concluded e (some x) = refl

    step_finished :
        (e : Effects) (outcome : Option Text) (now : ℕ) (f : SaveFaults)
        → step json s (finished id e outcome now f)
          ≡ record (saved json f (ended_thread e outcome now t) s) { slots = s.slots - 1 }
    unfolding step
    step_finished e outcome now f = rw found (ground (arith))

    ended_id :
        (e : Effects) (outcome : Option Text) (now : ℕ) → (ended_thread e outcome now t).job.id ≡ id
    ended_id e outcome now = concluded-id json outcome e t.job ∙ find_thread-id id s.threads t found

    -- The thread behind the end of a job that executes.
    pub thread-finished :
        (e : Effects) (outcome : Option Text) (now : ℕ) (f : SaveFaults)
        → find_thread id (step json s (finished id e outcome now f)).threads
          ≡ some (ended_thread e outcome now t)
    thread-finished e outcome now f = rw (step_finished e outcome now f) (
        find_thread-set_thread_self id (ended_thread e outcome now t) t s.threads found
          (ended_id e outcome now))

    -- When ProvisionVolume returns for a job that executes, the job's status says whether it succeeded,
    -- whatever the status was before, a cancellation included. A failure's error replaces the one that a failed rollback has
    -- assigned.
    pub finished_job :
        (e : Effects) (outcome : Option Text) (now : ℕ) (f : SaveFaults)
        → (t' : Thread) × (find_thread id (step json s (finished id e outcome now f)).threads
            ≡ some t')
          × (t'.phase ≡ done)
          × EndsAs outcome t'.job
    finished_job e outcome now f =
        (ended_thread e outcome now t, thread-finished e outcome now f, refl, ends outcome)
      where
        ends : (o : Option Text) → EndsAs o (ended_thread e o now t).job
        ends none = refl
        ends (some x) = (refl, refl)

    -- Under a context that is done, as after a cancellation or the deadline, the end of an executing job
    -- is not written to the database: the row keeps the status that it had.
    pub finished_not_saved :
        (e : Effects) (outcome : Option Text) (now : ℕ) (f : SaveFaults)
        → t.ctx_done ≡ true
        → (step json s (finished id e outcome now f)).store ≡ s.store
    finished_not_saved e outcome now f d = rw (step_finished e outcome now f) (unsaved s.store)
      where
        unsaved :
            (o : Option Table)
            → sync_to_database json t.ctx_done f (ended_thread e outcome now t).job o ≡ o
        unsaved none = unfold sync_to_database in refl
        unsaved (some table) = unfold sync_to_database save_job in rw d refl

    -- Under a context that is not done, and without an error of the engine, a database that there is
    -- holds the status of an executing job's end.
    pub finished_saved :
        (e : Effects) (outcome : Option Text) (now : ℕ) (table : Table)
        → t.ctx_done ≡ false
        → s.store ≡ some table
        → (table' : Table) × (r : JobRecord) × ((step json s
              (finished id e outcome now no_faults)).store
            ≡ some table')
          × (get_job none id table' ≡ ok r)
          × (r.status ≡ status_text (end_status outcome))
    finished_saved e outcome now table d st =
        let j = (ended_thread e outcome now t).job in
        (
          (save_job no_faults (job_record json j) table).1,
          merged (find_row j.id table) (job_record json j),
          rw (step_finished e outcome now no_faults) (unfold sync_to_database in rw (d, st) refl),
          subst
              (λ k.
                get_job none k (save_job no_faults (job_record json j) table).1
                ≡ ok (merged (find_row j.id table) (job_record json j)))
              (ended_id e outcome now) (read_back j table),
          status-merged (find_row j.id table) (job_record json j)
              ∙ (unfold job_record in ap status_text (status-concluded e outcome)),
        )
