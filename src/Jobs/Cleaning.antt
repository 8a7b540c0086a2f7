-- ===== src/Jobs/Cleaning.antt =====
-- CleanupCompletedJobs of internal/jobs/manager.go: which jobs leave the manager's map.
use libvirt_volume_provision.Base.{
  ◌-◌, List, [], ◌∷◌, ◌≡◌, refl, sym, ap, ◌∙◌, Bool, true, false, ◌||◌, Option, none, some, inl,
  inr, Bool-cases, All, All-take, All-filter, length-take, take, filter, length, count,
  length-filter, arith, if◌then◌else◌, ◌⊎◌, All-map, subst,
}
use mathlib.Core.Path.{fun_ext}
use libvirt_volume_provision.Types.{JobStatus, pending, running, completed, failed, is_terminal}
use libvirt_volume_provision.Text.{Text, text_eq}
use libvirt_volume_provision.Text.Laws.{text_eq_iff, text_eq_of_eq}
use libvirt_volume_provision.Jobs.{
  Thread, State, find_thread, find_job, if_listed, is_removable, unlist, delete_all,
  cleanup_completed_jobs,
}
use libvirt_volume_provision.Job.Saving.{Json}
use libvirt_volume_provision.Jobs.Threads.{
  find_thread-id, find_thread-set_thread_self, find_thread-set_thread_ne,
}

abbrev pub is_member : Text → List Text → Bool
is_member id [] = false
is_member id (x ∷ xs) = text_eq x id || is_member id xs

abbrev off : Option Thread → Option Thread
off none = none
off (some t) = some (record t { listed = false })

off-off : (o : Option Thread) → off (off o) ≡ off o
off-off none = refl
off-off (some t) = refl

if_listed-off : (o : Option Thread) → if_listed (off o) ≡ none
if_listed-off none = refl
if_listed-off (some t) = refl

module _ (json : Json) where
  find_thread-unlist :
      (q id : Text) (ts : List Thread)
      → find_thread q (unlist json (find_thread id ts) ts)
        ≡ (if text_eq id q then off (find_thread q ts) else find_thread q ts)
  find_thread-unlist q id ts = by_found (find_thread id ts) refl
    where
      by_found :
          (o : Option Thread)
          → find_thread id ts ≡ o
          → find_thread q (unlist json o ts)
            ≡ (if text_eq id q then off (find_thread q ts) else find_thread q ts)
      by_found none e = elim (Bool-cases (text_eq id q)) [
        | inl hit ↦
            let missing : find_thread q ts ≡ none =
              ap (λ k. find_thread k ts) (sym ((text_eq_iff id q).0 hit)) ∙ e in
            rw (hit, missing) refl
        | inr miss ↦ rw miss refl
      ]
      by_found (some t) e = elim (Bool-cases (text_eq id q)) [
        | inl hit ↦
            let same = (text_eq_iff id q).0 hit in
            let found : find_thread q ts ≡ some t = ap (λ k. find_thread k ts) (sym same) ∙ e in
            rw (hit, found)
              (find_thread-set_thread_self q (record t { listed = false }) t ts found
                (find_thread-id id ts t e ∙ same))
        | inr miss ↦ rw miss (
            find_thread-set_thread_ne q (record t { listed = false }) ts
              (λ h. ground (arith, text_eq_of_eq id q (sym (find_thread-id id ts t e) ∙ h))))
      ]

  find_thread-delete_all :
      (q : Text) (ids : List Text) (ts : List Thread)
      → find_thread q (delete_all json ids ts)
        ≡ (if is_member q ids then off (find_thread q ts) else find_thread q ts)
  unfolding delete_all
  find_thread-delete_all q [] ts = refl
  find_thread-delete_all q (id ∷ ids) ts =
      find_thread-delete_all q ids (unlist json (find_thread id ts) ts)
      ∙ by_hit (text_eq id q) (is_member q ids) refl
    where
      by_hit :
          (b c : Bool)
          → text_eq id q ≡ b
          → (if c
              then off (find_thread q (unlist json (find_thread id ts) ts))
              else find_thread q (unlist json (find_thread id ts) ts))
            ≡ (if b || c then off (find_thread q ts) else find_thread q ts)
      by_hit true true e = rw (find_thread-unlist q id ts, e) (off-off (find_thread q ts))
      by_hit true false e = rw (find_thread-unlist q id ts, e) refl
      by_hit false true e = rw (find_thread-unlist q id ts, e) refl
      by_hit false false e = rw (find_thread-unlist q id ts, e) refl

-- Whether a job that is looked up is there with a status that a job ends with.
abbrev pub has_finished : Option Thread → Bool
has_finished none = false
has_finished (some t) = by_status t.job.status
  where
    by_status : JobStatus → Bool
    by_status pending = false
    by_status running = false
    by_status completed = true
    by_status failed = true

abbrev pub HasFinished : Option Thread → Type 0
HasFinished none = ⊥
HasFinished (some t) = (t.job.status ≡ completed) ⊎ (t.job.status ≡ failed)

-- A job that is pending or running is looked up as before, one that is completed or failed may be gone,
-- and none comes into being.
abbrev pub StaysBy : JobStatus → Thread → Option Thread → Type 0
StaysBy pending t o = o ≡ some t
StaysBy running t o = o ≡ some t
StaysBy _ t o = (o ≡ some t) ⊎ (o ≡ none)

abbrev pub Stays : Option Thread → Option Thread → Type 0
Stays none o = o ≡ none
Stays (some t) o = StaysBy t.job.status t o

removable-finished : (json : Json) (o : Option Thread) → is_removable json o ≡ has_finished o
removable-finished json none = refl
removable-finished json (some t) = by_status t.job.status
  where
    by_status :
        (st : JobStatus)
        → is_terminal st ≡ has_finished (some (record t { job = record t.job { status = st } }))
    by_status pending = refl
    by_status running = refl
    by_status completed = refl
    by_status failed = refl

finished-HasFinished : (o : Option Thread) → has_finished o ≡ true → HasFinished o
finished-HasFinished none h = cc
finished-HasFinished (some t) h = by_status t.job.status refl
  where
    by_status : (st : JobStatus) → t.job.status ≡ st → HasFinished (some t)
    by_status pending e = absurd (ground (arith, e, h))
    by_status running e = absurd (ground (arith, e, h))
    by_status completed e = inl e
    by_status failed e = inr e

-- What stays of a job by whether it is deleted, given that a deleted one has finished.
stays :
    (b : Bool) (o : Option Thread) → (b ≡ true → HasFinished o) → Stays o (if b then none else o)
stays true none h = refl
stays false none h = refl
stays b (some t) h = by_status b t.job.status refl h
  where
    by_status :
        (b : Bool) (st : JobStatus)
        → t.job.status ≡ st
        → (b ≡ true → HasFinished (some t))
        → StaysBy st t (if b then none else some t)
    by_status true pending e h = absurd (ended-ne e (h refl))
      where
        ended-ne : t.job.status ≡ pending → HasFinished (some t) → ⊥
        ended-ne e (inl c) = cc
        ended-ne e (inr c) = cc
    by_status true running e h = absurd (ended-ne e (h refl))
      where
        ended-ne : t.job.status ≡ running → HasFinished (some t) → ⊥
        ended-ne e (inl c) = cc
        ended-ne e (inr c) = cc
    by_status true completed e h = inr refl
    by_status true failed e h = inr refl
    by_status false pending e h = refl
    by_status false running e h = refl
    by_status false completed e h = inl refl
    by_status false failed e h = inl refl

All-is_member {κ} :
    (P : Text → Type κ) (id : Text) (xs : List Text) → All P xs → is_member id xs ≡ true → P id
All-is_member P id [] h m = absurd cc
All-is_member P id (x ∷ xs) (h, hs) m = elim (Bool-cases (text_eq x id)) [
  | inl hit ↦ subst P ((text_eq_iff x id).0 hit) h
  | inr miss ↦ All-is_member P id xs hs (ground (arith, miss, m))
]

module _ (json : Json) (order : List Text) (s : State) where
  -- The names that CleanupCompletedJobs deletes: of the listed jobs whose status is completed or failed,
  -- as the iteration meets them, all but the last 100.
  abbrev pub deleted : List Text
  deleted =
      let completed_ids = filter (λ id. is_removable json (find_job id s)) order in
      take (length completed_ids - 100) completed_ids

  deleted-HasFinished : All (λ q. HasFinished (find_job q s)) deleted
  deleted-HasFinished =
      All-map (λ q. is_removable json (find_job q s) ≡ true) (λ q. HasFinished (find_job q s))
        (λ q h.
          finished-HasFinished (find_job q s) (sym (removable-finished json (find_job q s)) ∙ h))
        deleted (All-take (λ q. is_removable json (find_job q s) ≡ true) _ _ (All-filter _ order))

  -- CleanupCompletedJobs, whatever the order of the iteration: there are names that it deletes, which are
  -- listed no more, while every other name is looked up as before; each of them was listed with a status
  -- that is completed or failed; they are as many as the names of the iteration with such a job exceed
  -- 100; and the job of the given name, if it was pending or running, stays as it is.
  pub cleanup_completed_jobs_exact :
      (id : Text)
      → (find_job id (cleanup_completed_jobs json order s)
          ≡ (if is_member id deleted then none else find_job id s))
        × All (λ q. HasFinished (find_job q s)) deleted
        × (length deleted ≡ count (λ q. has_finished (find_job q s)) order - 100)
        × Stays (find_job id s) (find_job id (cleanup_completed_jobs json order s))
  unfolding cleanup_completed_jobs find_job
  cleanup_completed_jobs_exact id = (
    found_after,
    deleted-HasFinished,
    length-take _ _ (omega arith)
        ∙ ap (λ n. n - 100)
            (length-filter (λ q. is_removable json (find_job q s)) order
              ∙ ap (λ (p : Text → Bool). count p order)
                  (fun_ext λ q. removable-finished json (find_job q s))),
    subst (Stays (find_job id s)) (sym found_after) (
        stays (is_member id deleted) (find_job id s)
          (λ m. All-is_member (λ q. HasFinished (find_job q s)) id deleted deleted-HasFinished m)),
  )
    where
      looked_up :
          (b : Bool)
          → if_listed (if b then off (find_thread id s.threads) else find_thread id s.threads)
            ≡ (if b then none else if_listed (find_thread id s.threads))
      looked_up true = if_listed-off (find_thread id s.threads)
      looked_up false = refl

      found_after :
          find_job id (cleanup_completed_jobs json order s)
          ≡ (if is_member id deleted then none else find_job id s)
      found_after =
          ap if_listed (find_thread-delete_all json id deleted s.threads)
          ∙ looked_up (is_member id deleted)
