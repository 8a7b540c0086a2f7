-- ===== src/Jobs/Final.antt =====
-- The jobs of internal/jobs/manager.go whose goroutine has ended.
use libvirt_volume_provision.Base.{
  ℕ, List, [], ◌∷◌, ◌≡◌, refl, Option, none, some, arith, Bool-cases, Option-cases, inl, inr, ◌∙◌,
  ap, sym, some_inj, take, filter, length, ◌-◌, subst, ◌&&◌, ltb, false,
}
use libvirt_volume_provision.Text.{Text, text_eq}
use libvirt_volume_provision.Text.Laws.{text_eq_iff, text_eq_of_eq}
use libvirt_volume_provision.Types.{is_active}
use libvirt_volume_provision.Job.{Job}
use libvirt_volume_provision.Storage.{SaveFaults}
use libvirt_volume_provision.Jobs.{
  done, Thread, State, Event, started, acquired, expired, gave_up, progressed, finished, cancelled,
  called, called_off, cleaned, find_thread, set_thread, step, run, start_job, cancel_job,
  cancel_thread, cleanup_completed_jobs, delete_all, unlist, on_thread, find_job, acquire, give_up,
  progress, check, call_off, finish, expire, is_removable, is_waiting, is_executing, capacity,
  Effects, start_with,
}
use libvirt_volume_provision.Job.Saving.{Json}
use libvirt_volume_provision.Jobs.Slots.{IsFit, Fits, concluded-id, IsValid, find_thread-fits}
use libvirt_volume_provision.Jobs.Reachable.{step-IsValid}
use libvirt_volume_provision.Jobs.Threads.{
  find_thread-id, find_thread-set_thread_self, find_thread-set_thread_ne, find_thread-append,
  find_job-found,
}

-- The thread `id` has ended with the job `j`, and no CancelJob has passed its check of this job and
-- not yet assigned.
abbrev pub HasEnded : Text → Job → List Thread → Type 0
HasEnded id j ts =
    (t : Thread) × (find_thread id ts ≡ some t)
    × (t.job ≡ j)
    × (t.phase ≡ done)
    × (t.checked ≡ false)

-- Writing a thread back keeps that, if the thread that is written back is not the one that has ended,
-- or has its job and phase.
HasEnded-set_thread :
    (id : Text) (j : Job) (ts : List Thread) (id' : Text) (u t : Thread)
    → HasEnded id j ts
    → find_thread id' ts ≡ some t
    → u.job.id ≡ t.job.id
    → (t.phase ≡ done
        → t.checked ≡ false
        → (u.job ≡ t.job) × (u.phase ≡ done) × (u.checked ≡ false))
    → HasEnded id j (set_thread u ts)
HasEnded-set_thread id j ts id' u t (x, found, same, ended, free) h e keep =
    elim (Bool-cases (text_eq id' id)) [
      | inl hit ↦
          let h' : find_thread id ts ≡ some t =
            subst (λ k. find_thread k ts ≡ some t) ((text_eq_iff id' id).0 hit) h in
          let xt : x ≡ t = some_inj (sym found ∙ h') in
          let (ju, pu, cu) =
            keep (ap (λ (y : Thread). y.phase) (sym xt) ∙ ended)
              (ap (λ (y : Thread). y.checked) (sym xt) ∙ free) in
          (
            u,
            find_thread-set_thread_self id u t ts h' (e ∙ find_thread-id id ts t h'),
            ju ∙ ap (λ (y : Thread). y.job) (sym xt) ∙ same,
            pu,
            cu,
          )
      | inr miss ↦ (
        x,
        find_thread-set_thread_ne id u ts
              (λ p. cc (text_eq_of_eq id' id (sym (find_thread-id id' ts t h) ∙ sym e ∙ p)))
            ∙ found,
        same,
        ended,
        free,
      )
    ]

module _ (json : Json) (id : Text) (j : Job) where
  on_thread-HasEnded :
      (id' : Text) (k : Thread → State → State) (s : State)
      → HasEnded id j s.threads
      → ((t : Thread) → find_thread id' s.threads ≡ some t → HasEnded id j (k t s).threads)
      → HasEnded id j (on_thread json (find_thread id' s.threads) k s).threads
  on_thread-HasEnded id' k s ended keep = elim (Option-cases (find_thread id' s.threads)) [
    | inl e ↦ rw e ended
    | inr found ↦ rw found.1 (keep found.0 found.1)
  ]

  module _ (id' : Text) (s : State) (t : Thread) (ended : HasEnded id j s.threads)
      (h : find_thread id' s.threads ≡ some t) where
    -- A step that is guarded by a phase other than `done`.
    acquire-HasEnded : (now : ℕ) (f : SaveFaults) → HasEnded id j (acquire json now f t s).threads
    acquire-HasEnded now f = elim (Bool-cases (is_waiting t.phase && ltb s.slots capacity)) [
      | inl go ↦
          rw go (HasEnded-set_thread id j s.threads id' _ t ended h refl (λ p c. ground arith))
      | inr stay ↦ rw stay ended
    ]

    give_up-HasEnded : (now : ℕ) (f : SaveFaults) → HasEnded id j (give_up json now f t s).threads
    give_up-HasEnded now f = elim (Bool-cases (is_waiting t.phase && t.ctx_done)) [
      | inl go ↦
          rw go (HasEnded-set_thread id j s.threads id' _ t ended h refl (λ p c. ground arith))
      | inr stay ↦ rw stay ended
    ]

    finish-HasEnded :
        (e : Effects) (outcome : Option Text) (now : ℕ) (f : SaveFaults)
        → HasEnded id j (finish json e outcome now f t s).threads
    finish-HasEnded e outcome now f = elim (Bool-cases (is_executing t.phase)) [
      | inl go ↦ rw go (
          HasEnded-set_thread id j s.threads id' _ t ended h (concluded-id json outcome e t.job)
            (λ p c. ground arith))
      | inr stay ↦ rw stay ended
    ]

    progress-HasEnded : (e : Effects) (now : ℕ) → HasEnded id j (progress json e now t s).threads
    progress-HasEnded e now = elim (Bool-cases (is_executing t.phase)) [
      | inl go ↦
          rw go (HasEnded-set_thread id j s.threads id' _ t ended h refl (λ p c. ground arith))
      | inr stay ↦ rw stay ended
    ]

    expire-HasEnded : HasEnded id j (expire json t s).threads
    expire-HasEnded = HasEnded-set_thread id j s.threads id' _ t ended h refl (λ p c. (refl, p, c))

    -- CancelJob refuses a job that has ended.
    cancel-HasEnded :
        (now : ℕ) (f : SaveFaults)
        → IsFit t
        → HasEnded id j (cancel_thread json id' now f (some t) s).1.threads
    cancel-HasEnded now f fit = elim (Bool-cases (is_active t.job.status)) [
      | inl go ↦ rw go (
          HasEnded-set_thread id j s.threads id' _ t ended h refl
            (λ p c. ground (arith, subst (λ q. Fits q t.job.status) p fit)))
      | inr stay ↦ rw stay ended
    ]

    check-HasEnded : IsFit t → HasEnded id j (check json t s).threads
    check-HasEnded fit = elim (Bool-cases (t.listed && is_active t.job.status)) [
      | inl go ↦ rw go (
          HasEnded-set_thread id j s.threads id' _ t ended h refl
            (λ p c. ground (arith, subst (λ q. Fits q t.job.status) p fit)))
      | inr stay ↦ rw stay ended
    ]

    call_off-HasEnded : (now : ℕ) (f : SaveFaults) → HasEnded id j (call_off json now f t s).threads
    call_off-HasEnded now f = elim (Bool-cases t.checked) [
      | inl go ↦ rw go (HasEnded-set_thread id j s.threads id' _ t ended h refl (λ p c. cc))
      | inr stay ↦ rw stay ended
    ]

  delete_all-HasEnded :
      (ids : List Text) (ts : List Thread)
      → HasEnded id j ts
      → HasEnded id j (delete_all json ids ts)
  unfolding delete_all
  delete_all-HasEnded [] ts ended = ended
  delete_all-HasEnded (id' ∷ ids) ts ended =
      delete_all-HasEnded ids (unlist json (find_thread id' ts) ts)
        (unlisted (find_thread id' ts) refl)
    where
      unlisted : (o : Option Thread) → find_thread id' ts ≡ o → HasEnded id j (unlist json o ts)
      unlisted none e = ended
      unlisted (some t) e = HasEnded-set_thread id j ts id' _ t ended e refl (λ p c. (refl, p, c))

  step-HasEnded :
      (s : State) (e : Event)
      → IsValid s
      → HasEnded id j s.threads
      → HasEnded id j (step json s e).threads
  unfolding step
  step-HasEnded s (started id' req now f) v h =
      unfold start_job in started-HasEnded (find_thread id' s.threads)
    where
      started-HasEnded :
          (o : Option Thread) → HasEnded id j (start_with json id' req now f o s).threads
      started-HasEnded (some t) = h
      started-HasEnded none = (h.0, find_thread-append id s.threads _ h.0 h.1, h.2, h.3, h.4)
  step-HasEnded s (acquired id' now f) v h =
      on_thread-HasEnded id' _ s h (λ t e. acquire-HasEnded id' s t h e now f)
  step-HasEnded s (expired id') v h =
      on_thread-HasEnded id' _ s h (λ t e. expire-HasEnded id' s t h e)
  step-HasEnded s (gave_up id' now f) v h =
      on_thread-HasEnded id' _ s h (λ t e. give_up-HasEnded id' s t h e now f)
  step-HasEnded s (progressed id' x now) v h =
      on_thread-HasEnded id' _ s h (λ t e. progress-HasEnded id' s t h e x now)
  step-HasEnded s (finished id' x outcome now f) v h =
      on_thread-HasEnded id' _ s h (λ t e. finish-HasEnded id' s t h e x outcome now f)
  step-HasEnded s (cancelled id' now f) v h =
      unfold cancel_job in cancelled-HasEnded (find_job id' s) refl
    where
      cancelled-HasEnded :
          (o : Option Thread)
          → find_job id' s ≡ o
          → HasEnded id j (cancel_thread json id' now f o s).1.threads
      cancelled-HasEnded none e = h
      cancelled-HasEnded (some t) e =
          let found = find_job-found id' s t e in
          cancel-HasEnded id' s t h found now f (find_thread-fits id' s.threads t v.fits found)
  step-HasEnded s (called id') v h =
      on_thread-HasEnded id' _ s h
        (λ t e. check-HasEnded id' s t h e (find_thread-fits id' s.threads t v.fits e))
  step-HasEnded s (called_off id' now f) v h =
      on_thread-HasEnded id' _ s h (λ t e. call_off-HasEnded id' s t h e now f)
  step-HasEnded s (cleaned order) v h =
      let ids = filter (λ id'. is_removable json (find_job id' s)) order in
      unfold cleanup_completed_jobs in delete_all-HasEnded (take (length ids - 100) ids) s.threads h

  -- In a valid state, once a job's goroutine has ended and no CancelJob stands between its check of
  -- this job's status and its assignment, nothing that happens afterwards changes the job: no later
  -- cancellation, in one piece or interrupted, no cleanup and no event of another job.
  pub run-HasEnded :
      (s : State) (es : List Event)
      → IsValid s
      → HasEnded id j s.threads
      → HasEnded id j (run json s es).threads
  unfolding run
  run-HasEnded s [] v h = h
  run-HasEnded s (e ∷ es) v h =
      run-HasEnded (step json s e) es (step-IsValid json s e v) (step-HasEnded s e v h)
