-- ===== src/Jobs/Reachable.antt =====
-- The invariant of Jobs/Slots along the events of internal/jobs/manager.go, from a new manager on.
use libvirt_volume_provision.Base.{
  ℕ, ◌≤◌, List, [], ◌∷◌, ◌≡◌, ◌⊎◌, refl, Option, none, some, count-append, All, All-append, arith,
  Option-cases, Bool-cases, inl, inr, take, filter, length, ◌-◌, subst,
}
use libvirt_volume_provision.Text.{Text}
use libvirt_volume_provision.Types.{completed, failed, is_active, ProvisionRequest}
use libvirt_volume_provision.Storage.{Table, SaveFaults}
use libvirt_volume_provision.Jobs.{
  done, Thread, State, Event, started, acquired, expired, gave_up, progressed, finished, cancelled,
  called, called_off, cleaned, find_thread, step, run, new_thread, new_manager, start_job,
  start_with, cancel_job, cancel_thread, cleanup_completed_jobs, delete_all, unlist, on_thread,
  find_job, is_removable,
}
use libvirt_volume_provision.Job.Saving.{Json}
use libvirt_volume_provision.Jobs.Slots.{
  slot, executing_threads, Fits, IsFit, IsValid, find_thread-fits, kept, acquire-IsValid,
  give_up-IsValid, finish-IsValid, progress-IsValid, expire-IsValid, check-IsValid,
  call_off-IsValid, Fits-failed,
}

-- A manager that was just made is valid.
pub new_manager-IsValid : (store : Option Table) → IsValid (new_manager store)
unfolding new_manager
new_manager-IsValid store = ground arith

-- An action on a thread keeps the invariant if it does so where the thread is found.
on_thread-IsValid :
    (json : Json) (id : Text) (k : Thread → State → State) (s : State)
    → IsValid s
    → ((t : Thread) → find_thread id s.threads ≡ some t → IsValid (k t s))
    → IsValid (on_thread json (find_thread id s.threads) k s)
on_thread-IsValid json id k s v keep = elim (Option-cases (find_thread id s.threads)) [
  | inl e ↦ rw e v
  | inr found ↦ rw found.1 (keep found.0 found.1)
]

module _ (json : Json) where
  start_with-IsValid :
      (id : Text) (req : ProvisionRequest) (now : ℕ) (f : SaveFaults) (o : Option Thread)
      (s : State)
      → IsValid s
      → IsValid (start_with json id req now f o s)
  start_with-IsValid id req now f (some t) s v = v
  start_with-IsValid id req now f none s v = record {
    counted =
        rw (count-append slot s.threads (new_thread json id req now ∷ []))
          (omega (arith, v.counted));
    bounded = v.bounded;
    fits = All-append IsFit s.threads (new_thread json id req now ∷ []) v.fits (inl refl, tt);
  }

  listed_is_found :
      (id : Text) (s : State) (t : Thread)
      → find_job id s ≡ some t
      → find_thread id s.threads ≡ some t
  unfolding find_job
  listed_is_found id s t h = ground arith

  cancel_job-IsValid :
      (id : Text) (now : ℕ) (f : SaveFaults) (s : State)
      → IsValid s
      → IsValid (cancel_job json id now f s).1
  unfolding cancel_job
  cancel_job-IsValid id now f s v = elim (Option-cases (find_job id s)) [
    | inl e ↦ rw e v
    | inr found ↦ rw found.1 (cancelled_thread found.0 (listed_is_found id s found.0 found.1))
  ]
    where
      cancelled_thread :
          (t : Thread)
          → find_thread id s.threads ≡ some t
          → IsValid (cancel_thread json id now f (some t) s).1
      cancelled_thread t h = elim (Bool-cases (is_active t.job.status)) [
        | inl active ↦ rw active (kept id _ t s _ v h refl (Fits-failed t.phase) refl)
        | inr other ↦ rw other v
      ]

  delete_all-IsValid :
      (ids : List Text) (s : State)
      → IsValid s
      → IsValid (record s { threads = delete_all json ids s.threads })
  unfolding delete_all
  delete_all-IsValid [] s v = v
  delete_all-IsValid (id ∷ ids) s v =
      delete_all-IsValid ids
        (record s { threads = unlist json (find_thread id s.threads) s.threads })
        (unlisted (find_thread id s.threads) refl)
    where
      unlisted :
          (o : Option Thread)
          → find_thread id s.threads ≡ o
          → IsValid (record s { threads = unlist json o s.threads })
      unlisted none e = v
      unlisted (some t) e =
          kept id _ t s s.store v e refl (find_thread-fits id s.threads t v.fits e) refl

  -- Every event keeps the invariant.
  pub step-IsValid : (s : State) (e : Event) → IsValid s → IsValid (step json s e)
  unfolding step
  step-IsValid s (started id req now f) v =
      unfold start_job in start_with-IsValid id req now f (find_thread id s.threads) s v
  step-IsValid s (acquired id now f) v =
      on_thread-IsValid json id _ s v (λ t h. acquire-IsValid json id s t v h now f)
  step-IsValid s (expired id) v =
      on_thread-IsValid json id _ s v (λ t h. expire-IsValid json id s t v h)
  step-IsValid s (gave_up id now f) v =
      on_thread-IsValid json id _ s v (λ t h. give_up-IsValid json id s t v h now f)
  step-IsValid s (progressed id e now) v =
      on_thread-IsValid json id _ s v (λ t h. progress-IsValid json id s t v h e now)
  step-IsValid s (finished id e outcome now f) v =
      on_thread-IsValid json id _ s v (λ t h. finish-IsValid json id s t v h e outcome now f)
  step-IsValid s (cancelled id now f) v = cancel_job-IsValid id now f s v
  step-IsValid s (called id) v =
      on_thread-IsValid json id _ s v (λ t h. check-IsValid json id s t v h)
  step-IsValid s (called_off id now f) v =
      on_thread-IsValid json id _ s v (λ t h. call_off-IsValid json id s t v h now f)
  step-IsValid s (cleaned order) v =
      let ids = filter (λ id. is_removable json (find_job id s)) order in
      unfold cleanup_completed_jobs in delete_all-IsValid (take (length ids - 100) ids) s v

  ended :
      (t : Thread) → IsFit t → t.phase ≡ done → (t.job.status ≡ completed) ⊎ (t.job.status ≡ failed)
  ended t f e = ground (arith, subst (λ p. Fits p t.job.status) e f)

  pub run-IsValid : (s : State) (es : List Event) → IsValid s → IsValid (run json s es)
  unfolding run
  run-IsValid s [] v = v
  run-IsValid s (e ∷ es) v = run-IsValid (step json s e) es (step-IsValid s e v)

  -- Whatever happens to a new manager, in any order, at most two jobs execute at a time, the semaphore
  -- counts them, and every job's status fits where its goroutine stands: a job that waits is pending
  -- or failed, one that executes is running or failed, one that has ended is completed or failed.
  pub run_slots :
      (store : Option Table) (es : List Event)
      → let s = run json (new_manager store) es in
        (executing_threads s.threads ≤ 2)
        × (s.slots ≡ executing_threads s.threads)
        × All IsFit s.threads
  run_slots store es =
      let v = run-IsValid (new_manager store) es (new_manager-IsValid store) in
      (omega (arith, v), v.counted, v.fits)
