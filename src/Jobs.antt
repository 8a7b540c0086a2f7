-- ===== src/Jobs.antt =====
-- internal/jobs/manager.go: the manager of jobs. A job's goroutine is a thread with a phase; what the
-- goroutines, the callers and the clock do is a list of events, in the order in which they happen.
pub mod Queries
pub mod Slots
pub mod Outcomes
pub mod Final
pub mod Threads
pub mod Reachable
pub mod Names
pub mod Progress
pub mod Cleaning
pub mod Lives
pub mod Lifecycle
use libvirt_volume_provision.Base.{
  ℕ, ◌+◌, ◌-◌, List, [], ◌∷◌, ◌++◌, Bool, true, false, not, ◌&&◌, ◌||◌, Option, none, some, ltb,
  length, take, filter, if◌then◌else◌,
}
use libvirt_volume_provision.Text.{Text, codes, text_eq}
use libvirt_volume_provision.Act.{Result, ok, err}
use libvirt_volume_provision.Types.{
  ProvisionRequest, ProgressInfo, pending, running, completed, failed, status_text, is_active,
  is_terminal,
}
use libvirt_volume_provision.Job.{Job}
use libvirt_volume_provision.Storage.{Table, SaveFaults}
use libvirt_volume_provision.Job.Saving.{Json, sync_to_database}

-- Where `runJob` stands: before the semaphore, behind it, or at its end.
pub data Phase : Type 0 where
  waiting executing done : Phase

-- A job with its goroutine. `listed` says that `m.jobs` holds it, `ctx_done` that its context is
-- cancelled or past its deadline of 30 minutes, `checked` that a CancelJob stands between its check of
-- the status and its assignment.
pub record Thread : Type 0 where
  pub job : Job
  pub phase : Phase
  pub listed : Bool
  pub ctx_done : Bool
  pub checked : Bool

-- `slots` is the number of values in the channel `m.semaphore`; `store` is `none` without a database.
pub record State : Type 0 where
  pub threads : List Thread
  pub slots : ℕ
  pub store : Option Table

-- make(chan struct{}, 2)
abbrev pub capacity : ℕ
capacity = 2

-- NewManager
unfoldable pub new_manager : Option Table → State
new_manager store = record { threads = []; slots = 0; store = store }

unfoldable pub find_thread : Text → List Thread → Option Thread
find_thread id [] = none
find_thread id (t ∷ ts) = if text_eq t.job.id id then some t else find_thread id ts

unfoldable pub set_thread : Thread → List Thread → List Thread
set_thread u [] = []
set_thread u (t ∷ ts) =
    let rest = set_thread u ts in if text_eq t.job.id u.job.id then u ∷ ts else t ∷ rest

-- job, exists := m.jobs[jobID]
abbrev pub if_listed : Option Thread → Option Thread
if_listed none = none
if_listed (some t) = if t.listed then some t else none

unfoldable pub find_job : Text → State → Option Thread
unfolding find_thread
find_job id s = if_listed (find_thread id s.threads)

abbrev pub is_waiting : Phase → Bool
is_waiting waiting = true
is_waiting _ = false

abbrev pub is_executing : Phase → Bool
is_executing executing = true
is_executing _ = false

-- What ProvisionVolume leaves in the job; `rollback_error` is what a failed rollback assigns.
pub record Effects : Type 0 where
  pub progress : Option ProgressInfo
  pub rollback_error : Option Text
  pub cache_hit : Bool
  pub image_path : Text

-- `runJob` writes the status without the mutex, so that a CancelJob is not one step for it: `cancelled`
-- is a call that nothing interrupts, `called` is one that has passed its check, and `called_off` is its
-- rest. What the mutex excludes in between, such as StartJob, is not excluded here.
pub data Event : Type 0 where
  started : Text → ProvisionRequest → ℕ → SaveFaults → Event
  acquired : Text → ℕ → SaveFaults → Event
  expired : Text → Event
  gave_up : Text → ℕ → SaveFaults → Event
  progressed : Text → Effects → ℕ → Event
  finished : Text → Effects → Option Text → ℕ → SaveFaults → Event
  cancelled : Text → ℕ → SaveFaults → Event
  called : Text → Event
  called_off : Text → ℕ → SaveFaults → Event
  cleaned : List Text → Event

module _ (json : Json) where
  -- The thread is written back and its job is saved under its context.
  abbrev pub saved : SaveFaults → Thread → State → State
  saved f u s = record s {
    threads = set_thread u s.threads;
    store = sync_to_database json u.ctx_done f u.job s.store;
  }

  abbrev pub new_job : Text → ProvisionRequest → ℕ → Job
  new_job id req now = record {
    id = id;
    status = pending;
    request = req;
    progress = none;
    error = none;
    cache_hit = false;
    image_path = [];
    created_at = now;
    updated_at = now;
  }

  abbrev pub new_thread : Text → ProvisionRequest → ℕ → Thread
  new_thread id req now = record {
    job = new_job id req now;
    phase = waiting;
    listed = true;
    ctx_done = false;
    checked = false;
  }

  -- The job enters the map, its record the database, and its goroutine starts.
  abbrev pub start_with : Text → ProvisionRequest → ℕ → SaveFaults → Option Thread → State → State
  start_with id req now f (some t) s = s
  start_with id req now f none s = record s {
    threads = s.threads ++ new_thread id req now ∷ [];
    store = sync_to_database json false f (new_job id req now) s.store;
  }

  -- StartJob: `id` is what uuid.New() returns; that it is a new name is the guard.
  unfoldable pub start_job : Text → ProvisionRequest → ℕ → SaveFaults → State → State
  start_job id req now f s = start_with id req now f (find_thread id s.threads) s

  -- runJob, `case m.semaphore <- struct{}{}`: the job is running.
  abbrev pub acquire : ℕ → SaveFaults → Thread → State → State
  acquire now f t s =
      if is_waiting t.phase && ltb s.slots capacity
      then record (saved f
          (record t {
            job = record t.job { status = running; updated_at = now };
            phase = executing;
          })
          s) { slots = s.slots + 1 }
      else s

  -- runJob, `case <-ctx.Done()`
  abbrev pub give_up : ℕ → SaveFaults → Thread → State → State
  give_up now f t s =
      if is_waiting t.phase && t.ctx_done
      then saved f
          (record t { job = record t.job { status = failed; updated_at = now }; phase = done }) s
      else s

  abbrev pub assigned : Option Text → Option Text → Option Text
  assigned none e = e
  assigned (some e') e = some e'

  abbrev pub after : Effects → Job → Job
  after e j = record j {
    progress = e.progress;
    error = assigned e.rollback_error j.error;
    cache_hit = e.cache_hit;
    image_path = e.image_path;
  }

  -- What runJob assigns when ProvisionVolume has returned.
  abbrev pub concluded : Option Text → Job → Job
  concluded none j = record j { status = completed }
  concluded (some e) j = record j { status = failed; error = some e }

  -- The rest of runJob, with its two deferred functions.
  abbrev pub finish : Effects → Option Text → ℕ → SaveFaults → Thread → State → State
  finish e outcome now f t s =
      if is_executing t.phase
      then record (saved f
          (record t {
            job = record (concluded outcome (after e t.job)) { updated_at = now };
            phase = done;
          })
          s) { slots = s.slots - 1 }
      else s

  abbrev pub progress : Effects → ℕ → Thread → State → State
  progress e now t s =
      if is_executing t.phase
      then record s {
        threads =
            set_thread (record t { job = record (after e t.job) { updated_at = now } }) s.threads;
      }
      else s

  abbrev pub expire : Thread → State → State
  expire t s = record s { threads = set_thread (record t { ctx_done = true }) s.threads }

  -- What CancelJob assigns.
  abbrev pub cancelled_job : ℕ → Job → Job
  cancelled_job now j = record j {
    status = failed;
    updated_at = now;
    error = some (codes "job cancelled by user");
  }

  -- CancelJob up to its check of the status.
  abbrev pub check : Thread → State → State
  check t s =
      if t.listed && is_active t.job.status
      then record s { threads = set_thread (record t { checked = true }) s.threads }
      else s

  -- The rest of a CancelJob that has passed its check.
  abbrev pub call_off : ℕ → SaveFaults → Thread → State → State
  call_off now f t s =
      if t.checked
      then record s {
        threads =
            set_thread
              (record t { job = cancelled_job now t.job; ctx_done = true; checked = false })
              s.threads;
        store = sync_to_database json false f (cancelled_job now t.job) s.store;
      }
      else s

  -- CancelJob: the job is saved under a background context.
  abbrev pub cancel_thread :
      Text → ℕ → SaveFaults → Option Thread → State → Result (Unit {0}) × State
  cancel_thread id now f none s = (err (codes "job not found: " ++ id), s)
  cancel_thread id now f (some t) s =
      if is_active t.job.status
      then (let j = cancelled_job now t.job in
          (
            ok tt,
            record s {
              threads = set_thread (record t { job = j; ctx_done = true }) s.threads;
              store = sync_to_database json false f j s.store;
            },
          ))
      else (err (codes "job cannot be cancelled: " ++ status_text t.job.status), s)

  unfoldable pub cancel_job : Text → ℕ → SaveFaults → State → Result (Unit {0}) × State
  unfolding find_job sync_to_database
  cancel_job id now f s = cancel_thread id now f (find_job id s) s

  abbrev pub is_removable : Option Thread → Bool
  is_removable none = false
  is_removable (some t) = is_terminal t.job.status

  abbrev pub unlist : Option Thread → List Thread → List Thread
  unlist none ts = ts
  unlist (some t) ts = set_thread (record t { listed = false }) ts

  -- delete(m.jobs, id) for each of the names
  unfoldable pub delete_all : List Text → List Thread → List Thread
  unfolding find_thread
  delete_all [] ts = ts
  delete_all (id ∷ ids) ts = delete_all ids (unlist (find_thread id ts) ts)

  -- CleanupCompletedJobs: `order` is the order in which Go's map iteration meets the names.
  unfoldable pub cleanup_completed_jobs : List Text → State → State
  unfolding find_job delete_all
  cleanup_completed_jobs order s =
      let completed_ids = filter (λ id. is_removable (find_job id s)) order in
      record s { threads = delete_all (take (length completed_ids - 100) completed_ids) s.threads }

  abbrev pub on_thread : Option Thread → (Thread → State → State) → State → State
  on_thread none k s = s
  on_thread (some t) k s = k t s

  -- An event of a goroutine that does not stand where the event happens changes nothing.
  unfoldable pub step : State → Event → State
  unfolding start_job cancel_job cleanup_completed_jobs find_thread set_thread
  step s (started id req now f) = start_job id req now f s
  step s (acquired id now f) = on_thread (find_thread id s.threads) (acquire now f) s
  step s (expired id) = on_thread (find_thread id s.threads) expire s
  step s (gave_up id now f) = on_thread (find_thread id s.threads) (give_up now f) s
  step s (progressed id e now) = on_thread (find_thread id s.threads) (progress e now) s
  step s (finished id e outcome now f) =
      on_thread (find_thread id s.threads) (finish e outcome now f) s
  step s (cancelled id now f) = (cancel_job id now f s).1
  step s (called id) = on_thread (find_thread id s.threads) check s
  step s (called_off id now f) = on_thread (find_thread id s.threads) (call_off now f) s
  step s (cleaned order) = cleanup_completed_jobs order s

  unfoldable pub run : State → List Event → State
  run s [] = s
  run s (e ∷ es) = run (step s e) es
