-- ===== src/Worker.antt =====
-- The goroutine of a job, runJob of internal/jobs/manager.go, from the semaphore on: ProvisionVolume
-- on the host (Provision), and what its return does to the manager (Jobs).
use libvirt_volume_provision.Base.{ℕ, ◌≡◌, refl, none, some, ◌-◌}
use libvirt_volume_provision.Text.{Text}
use libvirt_volume_provision.Act.{Result, ok, err, panicked}
use libvirt_volume_provision.Types.{ProvisionRequest, completed, failed}
use libvirt_volume_provision.Job.{Job}
use libvirt_volume_provision.Storage.{SaveFaults}
use libvirt_volume_provision.Host.{Host}
use libvirt_volume_provision.Retry.Settings.{IsUsable}
use libvirt_volume_provision.Provision.{Parts, provision_volume}
use libvirt_volume_provision.Provision.Whole.{Filled, provision_volume_ok}
use libvirt_volume_provision.Jobs.{
  saved, after, on_thread, executing, done, Thread, State, Effects, finished, find_thread, step,
}
use libvirt_volume_provision.Job.Saving.{Json, sync_to_database}
use libvirt_volume_provision.Jobs.Threads.{find_thread-id, find_thread-set_thread_self}
use libvirt_volume_provision.Jobs.Outcomes.{ended_thread, thread-finished}

-- What ProvisionVolume has assigned to the job.
abbrev pub effects_of : Job → Effects
effects_of j = record {
  progress = j.progress;
  rollback_error = j.error;
  cache_hit = j.cache_hit;
  image_path = j.image_path;
}

module _ {W : Type 0} (p : Parts W) (json : Json) where
  -- What the deferred functions do when ProvisionVolume panics, before the process ends: the job is saved
  -- with the status that it has, and its value is taken from the semaphore.
  abbrev pub unwound : Effects → ℕ → SaveFaults → Thread → State → State
  unwound e now f t s =
      record (saved json f
        (record t { job = record (after json e t.job) { updated_at = now }; phase = done }) s) {
          slots = s.slots - 1;
        }

  -- The event of its return, or its panic.
  abbrev pub returned : Text → ℕ → SaveFaults → Result (Unit {0}) × Host W → State → State
  returned id now f (ok u, h) s = step json s (finished id (effects_of h.job) none now f)
  returned id now f (err e, h) s = step json s (finished id (effects_of h.job) (some e) now f)
  returned id now f (panicked, h) s =
      on_thread json (find_thread id s.threads) (unwound (effects_of h.job) now f) s

  -- `s` is the state of the manager when ProvisionVolume returns, `h` the host when it is called.
  unfoldable pub run_job :
      Text → ProvisionRequest → ℕ → SaveFaults → Host W → State → State × Host W
  unfolding provision_volume
  run_job id req now f h s = let x = provision_volume p req h in (returned id now f x s, x.1)

  -- How a job ends by what ProvisionVolume returned: completed, with its volume filled and its last
  -- stage reached, or failed, with the error. A panic leaves the job's status, and its deferred functions
  -- have run: the job is at its end, its time is `now`, the semaphore has one value less, and the job is
  -- in the database as far as `f` and its context allow.
  abbrev pub Worked :
      Text
      → ProvisionRequest
      → ℕ
      → SaveFaults
      → State
      → Thread
      → Result (Unit {0})
      → State × Host W
      → Type 0
  Worked id req now f s t (ok u) (s', h) =
      (t' : Thread) × (find_thread id s'.threads ≡ some t')
      × (t'.phase ≡ done)
      × (t'.job.status ≡ completed)
      × (t'.job.progress ≡ h.job.progress)
      × (image : Text) × Filled p req image h
  Worked id req now f s t (err e) (s', h) =
      (t' : Thread) × (find_thread id s'.threads ≡ some t')
      × (t'.phase ≡ done)
      × (t'.job.status ≡ failed)
      × (t'.job.error ≡ some e)
  Worked id req now f s t panicked (s', h) =
      (t' : Thread) × (find_thread id s'.threads ≡ some t')
      × (t'.phase ≡ done)
      × (t'.job.status ≡ t.job.status)
      × (t'.job.updated_at ≡ now)
      × (s'.slots ≡ s.slots - 1)
      × (s'.store ≡ sync_to_database json t.ctx_done f t'.job s.store)

  module _ (id : Text) (s : State) (t : Thread) (found : find_thread id s.threads ≡ some t)
      (runs : t.phase ≡ executing) where
    -- The goroutine of a job that executes, with usable retry settings for LVM: if ProvisionVolume
    -- succeeds the job is completed, its progress is the last that ProvisionVolume set, 100% at the
    -- stage "finalizing", and the last command that was run, which succeeded, filled the requested
    -- volume; if it reports an error the job is failed with this error. After a panic the job keeps its
    -- status, though its goroutine is at its end: the deferred functions have set its time, saved it
    -- under its context, and freed its place in the semaphore.
    pub run_job_cases :
        (req : ProvisionRequest) (now : ℕ) (f : SaveFaults) (h : Host W)
        → IsUsable p.lvm.retry_config
        → Worked id req now f s t (provision_volume p req h).0 (run_job id req now f h s)
    unfolding run_job
    run_job_cases req now f h u = by_result (provision_volume p req h) (λ e.
        let (image, got, created, filled) = provision_volume_ok p req h u e in (image, filled))
      where
        by_result :
            (x : Result (Unit {0}) × Host W)
            → (x.0 ≡ ok tt → (image : Text) × Filled p req image x.1)
            → Worked id req now f s t x.0 (returned id now f x s, x.1)
        by_result (ok v, h') filled = (
          ended_thread json (effects_of h'.job) none now t,
          thread-finished json id s t found runs (effects_of h'.job) none now f,
          refl,
          refl,
          refl,
          (filled refl).0,
          (filled refl).1,
        )
        by_result (err e, h') filled = (
          ended_thread json (effects_of h'.job) (some e) now t,
          thread-finished json id s t found runs (effects_of h'.job) (some e) now f,
          refl,
          refl,
          refl,
        )
        by_result (panicked, h') filled = rw found (
          record t {
            job = record (after json (effects_of h'.job) t.job) { updated_at = now };
            phase = done;
          },
          find_thread-set_thread_self id _ t s.threads found (find_thread-id id s.threads t found),
          refl,
          refl,
          refl,
          refl,
          refl,
        )
