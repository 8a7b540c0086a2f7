-- ===== src/Jobs/Lifecycle.antt =====
-- The manager of internal/jobs/manager.go as an implementation of the abstract machine of the jobs'
-- lives.
use libvirt_volume_provision.Base.{
  ℕ, List, [], ◌∷◌, ◌≡◌, inl, inr, refl, ◌∙◌, Option, none, some, arith, Bool-cases, Option-cases,
  take, filter, length, ◌-◌, ◌&&◌, ltb, if◌then◌else◌, Bool, true, false,
}
use libvirt_volume_provision.Text.{Text}
use libvirt_volume_provision.Types.{is_active}
use libvirt_volume_provision.Storage.{Table, SaveFaults}
use libvirt_volume_provision.Jobs.{
  Phase, waiting, executing, done, Thread, State, Event, started, acquired, expired, gave_up,
  progressed, finished, cancelled, called, called_off, cleaned, find_thread, step, run, new_thread,
  new_manager, start_job, start_with, cancel_job, cancel_thread, cleanup_completed_jobs, delete_all,
  unlist, on_thread, find_job, is_removable, acquire, give_up, finish, is_waiting, is_executing,
  capacity, Effects,
}
use libvirt_volume_provision.Job.Saving.{Json}
use libvirt_volume_provision.Jobs.Slots.{concluded-id}
use libvirt_volume_provision.Jobs.Threads.{find_job-found}
use libvirt_volume_provision.Jobs.Lives.{
  Starts, Begins, GivesUp, Ends, Allowed, Follows, phase_of, lives, lives-set_thread, lives-append,
  lives-kept, view, view_same, view_set,
}

module _ (json : Json) where
  module _ (id : Text) (s : State) (t : Thread) (h : find_thread id s.threads ≡ some t) where
    acquire-Begins :
        (now : ℕ) (f : SaveFaults) (p : Phase)
        → t.phase ≡ p
        → Begins (some p) id (view s) (view (acquire json now f t s))
    acquire-Begins now f waiting e = elim (Bool-cases (ltb s.slots capacity)) [
      | inl room ↦
          let go : (is_waiting t.phase && ltb s.slots capacity) ≡ true = ground (arith, e, room) in
          rw (go, room) (view_set _ _ _ (lives-set_thread id _ t s.threads h refl))
      | inr full ↦
          let stay : (is_waiting t.phase && ltb s.slots capacity) ≡ false =
            ground (arith, e, full) in
          rw (stay, full) refl
    ]
    acquire-Begins now f executing e =
        let stay : (is_waiting t.phase && ltb s.slots capacity) ≡ false = ground (arith, e) in
        rw stay refl
    acquire-Begins now f done e =
        let stay : (is_waiting t.phase && ltb s.slots capacity) ≡ false = ground (arith, e) in
        rw stay refl

    give_up-GivesUp :
        (now : ℕ) (f : SaveFaults) (p : Phase)
        → t.phase ≡ p
        → GivesUp (some p) id (view s) (view (give_up json now f t s))
    give_up-GivesUp now f waiting e = elim (Bool-cases (is_waiting t.phase && t.ctx_done)) [
      | inl go ↦ rw go (inr (view_set _ _ _ (lives-set_thread id _ t s.threads h refl)))
      | inr stay ↦ rw stay (inl refl)
    ]
    give_up-GivesUp now f executing e =
        let stay : (is_waiting t.phase && t.ctx_done) ≡ false = ground (arith, e) in rw stay refl
    give_up-GivesUp now f done e =
        let stay : (is_waiting t.phase && t.ctx_done) ≡ false = ground (arith, e) in rw stay refl

    finish-Ends :
        (x : Effects) (outcome : Option Text) (now : ℕ) (f : SaveFaults) (p : Phase)
        → t.phase ≡ p
        → Ends (some p) id (view s) (view (finish json x outcome now f t s))
    finish-Ends x outcome now f executing e =
        let go : is_executing t.phase ≡ true = ground (arith, e) in
        rw go
          (view_set _ _ _ (lives-set_thread id _ t s.threads h (concluded-id json outcome x t.job)))
    finish-Ends x outcome now f waiting e =
        let stay : is_executing t.phase ≡ false = ground (arith, e) in rw stay refl
    finish-Ends x outcome now f done e =
        let stay : is_executing t.phase ≡ false = ground (arith, e) in rw stay refl

  -- A step that writes the thread back in its phase, or does nothing.
  unchanged :
      (b : Bool) (s s' : State)
      → lives s'.threads ≡ lives s.threads
      → s'.slots ≡ s.slots
      → view (if b then s' else s) ≡ view s
  unchanged true s s' e n = view_same s s' e n
  unchanged false s s' e n = refl

  on_thread-same :
      (id : Text) (k : Thread → State → State) (s : State)
      → ((t : Thread) → find_thread id s.threads ≡ some t → view (k t s) ≡ view s)
      → view (on_thread json (find_thread id s.threads) k s) ≡ view s
  on_thread-same id k s keep = elim (Option-cases (find_thread id s.threads)) [
    | inl e ↦ rw e refl
    | inr found ↦ rw found.1 (keep found.0 found.1)
  ]

  lives-delete_all :
      (ids : List Text) (ts : List Thread) → lives (delete_all json ids ts) ≡ lives ts
  unfolding delete_all
  lives-delete_all [] ts = refl
  lives-delete_all (id ∷ ids) ts =
      lives-delete_all ids (unlist json (find_thread id ts) ts) ∙ unlisted (find_thread id ts) refl
    where
      unlisted : (o : Option Thread) → find_thread id ts ≡ o → lives (unlist json o ts) ≡ lives ts
      unlisted none e = refl
      unlisted (some t) e = lives-kept id _ t ts e refl refl

  step-Allowed : (s : State) (e : Event) → Allowed e (view s) (view (step json s e))
  unfolding step
  step-Allowed s (started id req now f) = unfold start_job in fresh (find_thread id s.threads) refl
    where
      fresh :
          (o : Option Thread)
          → find_thread id s.threads ≡ o
          → Starts (phase_of o) id (view s) (view (start_with json id req now f o s))
      fresh (some t) e = refl
      fresh none e = view_set _ _ _ (lives-append (new_thread json id req now) s.threads e)
  step-Allowed s (acquired id now f) = by_thread (find_thread id s.threads) refl
    where
      by_thread :
          (o : Option Thread)
          → find_thread id s.threads ≡ o
          → Begins (phase_of o) id (view s) (view (on_thread json o (acquire json now f) s))
      by_thread none e = refl
      by_thread (some t) e = acquire-Begins id s t e now f t.phase refl
  step-Allowed s (gave_up id now f) = by_thread (find_thread id s.threads) refl
    where
      by_thread :
          (o : Option Thread)
          → find_thread id s.threads ≡ o
          → GivesUp (phase_of o) id (view s) (view (on_thread json o (give_up json now f) s))
      by_thread none e = refl
      by_thread (some t) e = give_up-GivesUp id s t e now f t.phase refl
  step-Allowed s (finished id x outcome now f) = by_thread (find_thread id s.threads) refl
    where
      by_thread :
          (o : Option Thread)
          → find_thread id s.threads ≡ o
          → Ends (phase_of o) id (view s) (view (on_thread json o (finish json x outcome now f) s))
      by_thread none e = refl
      by_thread (some t) e = finish-Ends id s t e x outcome now f t.phase refl
  step-Allowed s (expired id) =
      on_thread-same id _ s (λ t h. view_set _ _ _ (lives-kept id _ t s.threads h refl refl))
  step-Allowed s (progressed id x now) =
      on_thread-same id _ s (λ t h. unchanged _ s _ (lives-kept id _ t s.threads h refl refl) refl)
  step-Allowed s (cancelled id now f) = unfold cancel_job in called_back (find_job id s) refl
    where
      called_back :
          (o : Option Thread)
          → find_job id s ≡ o
          → view (cancel_thread json id now f o s).1 ≡ view s
      called_back none e = refl
      called_back (some t) e = elim (Bool-cases (is_active t.job.status)) [
        | inl go ↦
            rw go (view_set _ _ _ (lives-kept id _ t s.threads (find_job-found id s t e) refl refl))
        | inr stay ↦ rw stay refl
      ]
  step-Allowed s (called id) =
      on_thread-same id _ s (λ t h. unchanged _ s _ (lives-kept id _ t s.threads h refl refl) refl)
  step-Allowed s (called_off id now f) =
      on_thread-same id _ s (λ t h. unchanged _ s _ (lives-kept id _ t s.threads h refl refl) refl)
  step-Allowed s (cleaned order) =
      let ids = filter (λ id. is_removable json (find_job id s)) order in
      unfold cleanup_completed_jobs in
      view_set _ _ _ (lives-delete_all (take (length ids - 100) ids) s.threads)

  run-Follows : (s : State) (es : List Event) → Follows (view s) es (view (run json s es))
  unfolding run
  run-Follows s [] = refl
  run-Follows s (e ∷ es) = (view (step json s e), step-Allowed s e, run-Follows (step json s e) es)

  -- The manager refines the specification of the jobs' lives, event by event: from no jobs at all the
  -- specification follows the same events to what the manager then holds. A start makes a new job that
  -- waits, and changes no job that there is; a goroutine that takes the semaphore begins its job if it
  -- waits and fewer than two have begun and not ended; a return of ProvisionVolume ends a job that has
  -- begun, and frees its place; a job that waits may give up; and no other event makes, begins, ends or
  -- restarts a job. Whether the manager still lists a job is not part of what the specification sees.
  pub run_refines :
      (store : Option Table) (es : List Event)
      → Follows
          (record { lives = λ q. none; slots = 0 })
          es
          (view (run json (new_manager store) es))
  unfolding new_manager find_thread
  run_refines store es = run-Follows (new_manager store) es
