-- ===== src/Jobs/Names.antt =====
-- The names of the jobs of internal/jobs/manager.go are all different, after every event.
use libvirt_volume_provision.Base.{
  List, [], ◌∷◌, ◌++◌, ◌≡◌, inl, inr, refl, sym, ap, ◌∙◌, Bool, true, false, Option, none, some,
  arith, Bool-cases, Option-cases, take, filter, length, ◌-◌, if◌then◌else◌,
}
use libvirt_volume_provision.Text.{Text, text_eq}
use libvirt_volume_provision.Text.Laws.{text_eq_iff, eq_of_text_eq}
use libvirt_volume_provision.Types.{is_active}
use libvirt_volume_provision.Storage.{Table}
use libvirt_volume_provision.Jobs.{
  Thread, State, Event, started, acquired, expired, gave_up, progressed, finished, cancelled,
  called, called_off, cleaned, find_thread, set_thread, step, run, new_thread, new_manager,
  start_job, start_with, cancel_job, cancel_thread, cleanup_completed_jobs, delete_all, unlist,
  on_thread, find_job, is_removable,
}
use libvirt_volume_provision.Job.Saving.{Json}
use libvirt_volume_provision.Jobs.Threads.{find_thread-append_ne}

-- No two threads have the same name.
abbrev pub Distinct : List Thread → Type 0
Distinct [] = Unit
Distinct (t ∷ ts) = (find_thread t.job.id ts ≡ none) × Distinct ts

find_thread-set_thread-none :
    (id : Text) (u : Thread) (ts : List Thread)
    → find_thread id ts ≡ none
    → find_thread id (set_thread u ts) ≡ none
unfolding find_thread set_thread
find_thread-set_thread-none id u [] h = refl
find_thread-set_thread-none id u (x ∷ ts) h = elim (Bool-cases (text_eq x.job.id u.job.id)) [
  | inl hit ↦ rw hit (
      ground
        (arith, text_eq_iff x.job.id u.job.id, text_eq_iff u.job.id id, text_eq_iff x.job.id id))
  | inr miss ↦ rw miss (ground (arith, find_thread-set_thread-none id u ts))
]

set_thread-Distinct : (u : Thread) (ts : List Thread) → Distinct ts → Distinct (set_thread u ts)
unfolding set_thread
set_thread-Distinct u [] d = tt
set_thread-Distinct u (x ∷ ts) (fresh, d) = elim (Bool-cases (text_eq x.job.id u.job.id)) [
  | inl hit ↦
      rw hit (ap (λ k. find_thread k ts) (sym (eq_of_text_eq x.job.id u.job.id hit)) ∙ fresh, d)
  | inr miss ↦ rw miss (find_thread-set_thread-none x.job.id u ts fresh, set_thread-Distinct u ts d)
]

append-Distinct :
    (ts : List Thread) (u : Thread)
    → find_thread u.job.id ts ≡ none
    → Distinct ts
    → Distinct (ts ++ u ∷ [])
unfolding find_thread
append-Distinct [] u h d = (refl, tt)
append-Distinct (x ∷ ts) u h (fresh, d) =
    (find_thread-append_ne x.job.id ts u other ∙ fresh, append-Distinct ts u (ground arith) d)
  where
    other : text_eq u.job.id x.job.id ≡ false
    other = ground (arith, text_eq_iff x.job.id u.job.id, text_eq_iff u.job.id x.job.id)

module _ (json : Json) where
  -- A thread is written back, or nothing changes.
  on_thread-Distinct :
      (id : Text) (k : Thread → State → State) (s : State)
      → Distinct s.threads
      → ((t : Thread) → Distinct (k t s).threads)
      → Distinct (on_thread json (find_thread id s.threads) k s).threads
  on_thread-Distinct id k s d keep = elim (Option-cases (find_thread id s.threads)) [
    | inl e ↦ rw e d
    | inr found ↦ rw found.1 (keep found.0)
  ]

  if-Distinct :
      (b : Bool) (x y : State)
      → Distinct x.threads
      → Distinct y.threads
      → Distinct (if b then x else y).threads
  if-Distinct true x y dx dy = dx
  if-Distinct false x y dx dy = dy

  delete_all-Distinct :
      (ids : List Text) (ts : List Thread) → Distinct ts → Distinct (delete_all json ids ts)
  unfolding delete_all
  delete_all-Distinct [] ts d = d
  delete_all-Distinct (id ∷ ids) ts d =
      delete_all-Distinct ids (unlist json (find_thread id ts) ts) (unlisted (find_thread id ts))
    where
      unlisted : (o : Option Thread) → Distinct (unlist json o ts)
      unlisted none = d
      unlisted (some t) = set_thread-Distinct (record t { listed = false }) ts d

  pub step-Distinct :
      (s : State) (e : Event) → Distinct s.threads → Distinct (step json s e).threads
  unfolding step
  step-Distinct s (started id req now f) d =
      unfold start_job in fresh (find_thread id s.threads) refl
    where
      fresh :
          (o : Option Thread)
          → find_thread id s.threads ≡ o
          → Distinct (start_with json id req now f o s).threads
      fresh (some t) e = d
      fresh none e = append-Distinct s.threads (new_thread json id req now) e d
  step-Distinct s (acquired id now f) d =
      on_thread-Distinct id _ s d (λ t. if-Distinct _ _ s (set_thread-Distinct _ s.threads d) d)
  step-Distinct s (expired id) d =
      on_thread-Distinct id _ s d (λ t. set_thread-Distinct _ s.threads d)
  step-Distinct s (gave_up id now f) d =
      on_thread-Distinct id _ s d (λ t. if-Distinct _ _ s (set_thread-Distinct _ s.threads d) d)
  step-Distinct s (progressed id e now) d =
      on_thread-Distinct id _ s d (λ t. if-Distinct _ _ s (set_thread-Distinct _ s.threads d) d)
  step-Distinct s (finished id e outcome now f) d =
      on_thread-Distinct id _ s d (λ t. if-Distinct _ _ s (set_thread-Distinct _ s.threads d) d)
  step-Distinct s (cancelled id now f) d = unfold cancel_job in called_off (find_job id s)
    where
      called_off : (o : Option Thread) → Distinct (cancel_thread json id now f o s).1.threads
      called_off none = d
      called_off (some t) = elim (Bool-cases (is_active t.job.status)) [
        | inl go ↦ rw go (set_thread-Distinct _ s.threads d)
        | inr stay ↦ rw stay d
      ]
  step-Distinct s (called id) d =
      on_thread-Distinct id _ s d (λ t. if-Distinct _ _ s (set_thread-Distinct _ s.threads d) d)
  step-Distinct s (called_off id now f) d =
      on_thread-Distinct id _ s d (λ t. if-Distinct _ _ s (set_thread-Distinct _ s.threads d) d)
  step-Distinct s (cleaned order) d =
      let ids = filter (λ id. is_removable json (find_job id s)) order in
      unfold cleanup_completed_jobs in delete_all-Distinct (take (length ids - 100) ids) s.threads d

  run-Distinct :
      (s : State) (es : List Event) → Distinct s.threads → Distinct (run json s es).threads
  unfolding run
  run-Distinct s [] d = d
  run-Distinct s (e ∷ es) d = run-Distinct (step json s e) es (step-Distinct s e d)

  pub run-new-Distinct :
      (store : Option Table) (es : List Event) → Distinct (run json (new_manager store) es).threads
  unfolding new_manager
  run-new-Distinct store es = run-Distinct (new_manager store) es tt
