-- ===== src/Examples/Jobs.antt =====
-- The manager of jobs on concrete runs.
use libvirt_volume_provision.Jobs.Cleaning.{
  is_member, deleted, cleanup_completed_jobs_exact, HasFinished, has_finished, Stays,
}
use libvirt_volume_provision.Base.{
  ◌≤◌, ◌*◌, length, List, [], ◌∷◌, ◌≡◌, refl, Bool, true, false, Option, none, some, pos, All, inl,
  arith, ℕ, zero, suc, count, ◌-◌, if◌then◌else◌,
}
use libvirt_volume_provision.Text.{Text, codes, text_eq}
use libvirt_volume_provision.Types.{ProvisionRequest, JobStatus, running, completed, status_text}
use libvirt_volume_provision.Job.{Job}
use libvirt_volume_provision.Storage.{Table, JobRecord, get_job}
use libvirt_volume_provision.Storage.Saving.{no_faults}
use libvirt_volume_provision.Act.{ok}
use libvirt_volume_provision.Jobs.{
  Phase, executing, done, Thread, State, Event, Effects, started, acquired, finished, cancelled,
  find_thread, find_job, step, run, new_manager, cancel_job, cleanup_completed_jobs,
}
use libvirt_volume_provision.Job.Saving.{Json}
use libvirt_volume_provision.Jobs.Slots.{IsFit, executing_threads}
use libvirt_volume_provision.Jobs.Reachable.{run_slots}
use libvirt_volume_provision.Jobs.Lives.{Follows, view}
use libvirt_volume_provision.Jobs.Lifecycle.{run_refines}
use libvirt_volume_provision.Jobs.Progress.{is_work, IsDone, run_can_finish}
use libvirt_volume_provision.Jobs.Final.{HasEnded, run-HasEnded}
use libvirt_volume_provision.Jobs.Outcomes.{
  EndsAs, CancelCases, cancel_job_cases, finished_job, finished_not_saved, finished_saved,
}

abbrev json : Json
json = record { request = λ r. r.volume_name; progress = λ i. i.stage }

abbrev request : ProvisionRequest
request = record {
  image_url = codes "https://s/b/k.qcow2";
  volume_name = codes "v";
  volume_size_gb = pos 1;
  image_type = codes "qcow2";
}

abbrev done_effects : Effects
done_effects = record { progress = none; rollback_error = none; cache_hit = false; image_path = [] }

abbrev success : Option Text
success = none

abbrev three_starts : List Event
three_starts =
    started (codes "a") request 1 no_faults
    ∷ started (codes "b") request 2 no_faults
    ∷ started (codes "c") request 3 no_faults
    ∷ acquired (codes "a") 4 no_faults
    ∷ acquired (codes "b") 5 no_faults
    ∷ acquired (codes "c") 6 no_faults
    ∷ finished (codes "a") done_effects none 7 no_faults
    ∷ []

-- Of three jobs two execute, and one of them has ended.
run_slots_example :
    let s = run json (new_manager (some [])) three_starts in
    (executing_threads s.threads ≤ 2)
    × (s.slots ≡ executing_threads s.threads)
    × All IsFit s.threads
run_slots_example = run_slots json (some []) three_starts

abbrev job_with : JobStatus → Job
job_with status = record {
  id = codes "a";
  status = status;
  request = request;
  progress = none;
  error = none;
  cache_hit = false;
  image_path = [];
  created_at = 1;
  updated_at = 4;
}

abbrev thread_with : JobStatus → Phase → Bool → Thread
thread_with status phase ctx_done = record {
  job = job_with status;
  phase = phase;
  listed = true;
  ctx_done = ctx_done;
  checked = false;
}

abbrev ended : State
ended = record { threads = thread_with completed done false ∷ []; slots = 0; store = none }

abbrev executing_state : Bool → State
executing_state ctx_done = record {
  threads = thread_with running executing ctx_done ∷ [];
  slots = 1;
  store = some [];
}

found_thread :
    (status : JobStatus) (phase : Phase) (ctx_done : Bool)
    → find_thread (codes "a") (thread_with status phase ctx_done ∷ [])
      ≡ some (thread_with status phase ctx_done)
unfolding find_thread text_eq
found_thread status phase ctx_done = refl

run-HasEnded_example :
    HasEnded
      (codes "a")
      (job_with completed)
      (run json ended
        (cancelled (codes "a") 9 no_faults ∷ acquired (codes "a") 10 no_faults ∷ [])).threads
run-HasEnded_example =
    run-HasEnded json (codes "a") (job_with completed) ended
      (cancelled (codes "a") 9 no_faults ∷ acquired (codes "a") 10 no_faults ∷ [])
      (record { counted = refl; bounded = omega arith; fits = (inl refl, tt) })
      (thread_with completed done false, found_thread completed done false, refl, refl, refl)

finished_job_example :
    (t' : Thread) × (find_thread
        (codes "a")
        (step json
          (executing_state true)
          (finished (codes "a") done_effects none 9 no_faults)).threads
      ≡ some t')
    × (t'.phase ≡ done)
    × EndsAs success t'.job
finished_job_example =
    finished_job json (codes "a") (executing_state true) (thread_with running executing true)
      (found_thread running executing true) refl done_effects none 9 no_faults

cancel_job_cases_example :
    CancelCases
      (codes "a")
      (executing_state false)
      (find_job (codes "a") (executing_state false))
      (cancel_job json (codes "a") 9 no_faults (executing_state false))
cancel_job_cases_example = cancel_job_cases json (codes "a") 9 no_faults (executing_state false)

finished_not_saved_example :
    (step json (executing_state true) (finished (codes "a") done_effects none 9 no_faults)).store
    ≡ some []
finished_not_saved_example =
    finished_not_saved json (codes "a") (executing_state true) (thread_with running executing true)
      (found_thread running executing true) refl done_effects none 9 no_faults refl

finished_saved_example :
    (table' : Table) × (r : JobRecord) × ((step json
        (executing_state false)
        (finished (codes "a") done_effects none 9 no_faults)).store
      ≡ some table')
    × (get_job none (codes "a") table' ≡ ok r)
    × (r.status ≡ status_text completed)
finished_saved_example =
    finished_saved json (codes "a") (executing_state false) (thread_with running executing false)
      (found_thread running executing false) refl done_effects none 9 [] refl refl

-- The specification follows three starts, two beginnings, a third that is put off, and an end.
run_refines_example :
    Follows
      (record { lives = λ q. none; slots = 0 })
      three_starts
      (view (run json (new_manager (some [])) three_starts))
run_refines_example = run_refines json (some []) three_starts

run_can_finish_example :
    (es : List Event) × All (λ e. is_work e ≡ true) es
    × (length es ≤ 2 * length (run json (new_manager (some [])) three_starts).threads)
    × All IsDone (run json (run json (new_manager (some [])) three_starts) es).threads
run_can_finish_example = run_can_finish json (some []) three_starts

-- Many jobs that have ended.
abbrev name_of : ℕ → Text
name_of zero = codes "a"
name_of (suc n) = b'a' ∷ name_of n

abbrev thread_of : ℕ → Thread
thread_of n = record (thread_with completed done false) {
  job = record (job_with completed) { id = name_of n };
}

abbrev many_names : ℕ → List Text
many_names zero = []
many_names (suc n) = name_of n ∷ many_names n

abbrev many_threads : ℕ → List Thread
many_threads zero = []
many_threads (suc n) = thread_of n ∷ many_threads n

abbrev crowded : State
crowded = record { threads = many_threads 102; slots = 0; store = none }

cleanup_completed_jobs_exact_example :
    (find_job (name_of 101) (cleanup_completed_jobs json (many_names 102) crowded) ≡ (
      if is_member (name_of 101) (deleted json (many_names 102) crowded)
      then none
      else find_job (name_of 101) crowded))
    × All (λ q. HasFinished (find_job q crowded)) (deleted json (many_names 102) crowded)
    × (length (deleted json (many_names 102) crowded)
        ≡ count (λ q. has_finished (find_job q crowded)) (many_names 102) - 100)
    × Stays
        (find_job (name_of 101) crowded)
        (find_job (name_of 101) (cleanup_completed_jobs json (many_names 102) crowded))
cleanup_completed_jobs_exact_example =
    cleanup_completed_jobs_exact json (many_names 102) crowded (name_of 101)
