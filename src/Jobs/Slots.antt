-- ===== src/Jobs/Slots.antt =====
-- The invariant of the manager: the semaphore counts the threads that are executing, never more than
-- two, and a job's status fits its thread's phase.
use libvirt_volume_provision.Job.{Job}
use libvirt_volume_provision.Base.{
  ℕ, ◌+◌, ◌-◌, ◌≤◌, List, [], ◌∷◌, ◌≡◌, ◌⊎◌, refl, Bool, true, Option, none, some, count, All,
  arith, Bool-cases, inl, inr, subst, some_inj, ◌∙◌, ◌&&◌, ltb, if◌then◌else◌,
}
use libvirt_volume_provision.Text.{Text, text_eq}
use libvirt_volume_provision.Text.Laws.{text_eq_iff}
use libvirt_volume_provision.Types.{JobStatus, pending, running, completed, failed, is_active}
use libvirt_volume_provision.Storage.{Table, SaveFaults}
use libvirt_volume_provision.Jobs.{
  Phase, waiting, executing, done, Thread, State, capacity, find_thread, set_thread, is_executing,
  acquire, give_up, finish, progress, expire, check, call_off, concluded, after, Effects,
  is_waiting,
}
use libvirt_volume_provision.Job.Saving.{Json}

abbrev pub slot : Thread → Bool
slot t = is_executing t.phase

abbrev pub executing_threads : List Thread → ℕ
executing_threads = count slot

-- What a thread's phase says of its job's status. A cancelled job is failed in every phase.
abbrev pub Fits : Phase → JobStatus → Type 0
Fits waiting s = (s ≡ pending) ⊎ (s ≡ failed)
Fits executing s = (s ≡ running) ⊎ (s ≡ failed)
Fits done s = (s ≡ completed) ⊎ (s ≡ failed)

abbrev pub IsFit : Thread → Type 0
IsFit t = Fits t.phase t.job.status

pub record IsValid (s : State) : Type 0 where
  pub counted : s.slots ≡ executing_threads s.threads
  pub bounded : s.slots ≤ capacity
  pub fits : All IsFit s.threads

find_thread-id :
    (id : Text) (ts : List Thread) (t : Thread) → find_thread id ts ≡ some t → t.job.id ≡ id
unfolding find_thread
find_thread-id id [] t h = cc
find_thread-id id (x ∷ ts) t h = ground (arith, text_eq_iff x.job.id id, find_thread-id id ts t)

pub find_thread-fits :
    (id : Text) (ts : List Thread) (t : Thread)
    → All IsFit ts
    → find_thread id ts ≡ some t
    → IsFit t
unfolding find_thread
find_thread-fits id [] t a h = cc
find_thread-fits id (x ∷ ts) t (f, a) h = elim (Bool-cases (text_eq x.job.id id)) [
  | inl hit ↦ subst IsFit (some_inj (rw (hit, find_thread) at h)) f
  | inr miss ↦ find_thread-fits id ts t a (rw (miss, find_thread) at h)
]

-- Writing a thread back changes the number of executing threads by what it changes itself.
count-set_thread :
    (id : Text) (u : Thread) (ts : List Thread) (t : Thread)
    → find_thread id ts ≡ some t
    → u.job.id ≡ id
    → executing_threads (set_thread u ts) + (if slot t then 1 else 0)
      ≡ executing_threads ts + (if slot u then 1 else 0)
unfolding find_thread set_thread
count-set_thread id u [] t h e = cc
count-set_thread id u (x ∷ ts) t h e = elim (Bool-cases (text_eq x.job.id id)) [
  | inl hit ↦
      let same : x ≡ t = some_inj (rw (hit, find_thread) at h) in rw (e, hit) (ground (arith, same))
  | inr miss ↦
      rw (e, miss) (ground (arith, count-set_thread id u ts t (rw (miss, find_thread) at h) e))
]

set_thread-fits :
    (u : Thread) (ts : List Thread) → IsFit u → All IsFit ts → All IsFit (set_thread u ts)
unfolding set_thread
set_thread-fits u [] f a = tt
set_thread-fits u (x ∷ ts) f (fx, a) = elim (Bool-cases (text_eq x.job.id u.job.id)) [
  | inl hit ↦ rw hit (f, a)
  | inr miss ↦ rw miss (fx, set_thread-fits u ts f a)
]

-- A thread is written back with another job, phase and count of slots.
rewritten :
    (id : Text) (u t : Thread) (s : State) (n : ℕ) (store : Option Table)
    → IsValid s
    → find_thread id s.threads ≡ some t
    → u.job.id ≡ id
    → IsFit u
    → n + (if slot t then 1 else 0) ≡ s.slots + (if slot u then 1 else 0)
    → n ≤ capacity
    → IsValid (record { threads = set_thread u s.threads; slots = n; store = store })
rewritten id u t s n store v h e f same le = record {
  counted = omega (arith, count-set_thread id u s.threads t h e, v.counted);
  bounded = le;
  fits = set_thread-fits u s.threads f v.fits;
}

-- A step of one thread that leaves the slots alone.
pub kept :
    (id : Text) (u t : Thread) (s : State) (store : Option Table)
    → IsValid s
    → find_thread id s.threads ≡ some t
    → u.job.id ≡ t.job.id
    → IsFit u
    → slot u ≡ slot t
    → IsValid (record { threads = set_thread u s.threads; slots = s.slots; store = store })
kept id u t s store v h e f same =
    rewritten id u t s s.slots store v h (e ∙ find_thread-id id s.threads t h) f (ground arith)
      v.bounded

pub concluded-id :
    (json : Json) (outcome : Option Text) (e : Effects) (j : Job)
    → (concluded json outcome (after json e j)).id ≡ j.id
concluded-id json none e j = refl
concluded-id json (some x) e j = refl

-- A cancelled job fits every phase.
pub Fits-failed : (p : Phase) → Fits p failed
Fits-failed waiting = inr refl
Fits-failed executing = inr refl
Fits-failed done = inr refl

module _ (json : Json) (id : Text) (s : State) (t : Thread) (v : IsValid s)
    (h : find_thread id s.threads ≡ some t) where
  fit : IsFit t
  fit = find_thread-fits id s.threads t v.fits h

  pub acquire-IsValid : (now : ℕ) (f : SaveFaults) → IsValid (acquire json now f t s)
  acquire-IsValid now f = elim (Bool-cases (is_waiting t.phase && ltb s.slots capacity)) [
    | inl go ↦ rw go (
        rewritten id _ t s (s.slots + 1) _ v h (find_thread-id id s.threads t h) (inl refl)
          (ground arith) (ground arith))
    | inr stay ↦ rw stay v
  ]

  pub give_up-IsValid : (now : ℕ) (f : SaveFaults) → IsValid (give_up json now f t s)
  give_up-IsValid now f = elim (Bool-cases (is_waiting t.phase && t.ctx_done)) [
    | inl go ↦ rw go (kept id _ t s _ v h refl (inr refl) (ground arith))
    | inr stay ↦ rw stay v
  ]

  concluded-Fits :
      (outcome : Option Text) (e : Effects) (now : ℕ)
      → Fits done (concluded json outcome (after json e t.job)).status
  concluded-Fits none e now = inl refl
  concluded-Fits (some x) e now = inr refl

  -- A thread that executes holds a slot.
  freed : is_executing t.phase ≡ true → s.slots - 1 + (if slot t then 1 else 0) ≡ s.slots + 0
  freed go = ground (
    arith,
    v.counted,
    count-set_thread id (record t { phase = done }) s.threads t h (find_thread-id id s.threads t h),
  )

  pub finish-IsValid :
      (e : Effects) (outcome : Option Text) (now : ℕ) (f : SaveFaults)
      → IsValid (finish json e outcome now f t s)
  finish-IsValid e outcome now f = elim (Bool-cases (is_executing t.phase)) [
    | inl go ↦ rw go (
        rewritten id _ t s (s.slots - 1) _ v h
          (concluded-id json outcome e t.job ∙ find_thread-id id s.threads t h)
          (concluded-Fits outcome e now) (freed go) (ground (arith, v.bounded)))
    | inr stay ↦ rw stay v
  ]

  pub progress-IsValid : (e : Effects) (now : ℕ) → IsValid (progress json e now t s)
  progress-IsValid e now = elim (Bool-cases (is_executing t.phase)) [
    | inl go ↦ rw go (kept id _ t s s.store v h refl fit refl)
    | inr stay ↦ rw stay v
  ]

  pub expire-IsValid : IsValid (expire json t s)
  expire-IsValid = kept id _ t s s.store v h refl fit refl

  pub check-IsValid : IsValid (check json t s)
  check-IsValid = elim (Bool-cases (t.listed && is_active t.job.status)) [
    | inl go ↦ rw go (kept id _ t s s.store v h refl fit refl)
    | inr stay ↦ rw stay v
  ]

  pub call_off-IsValid : (now : ℕ) (f : SaveFaults) → IsValid (call_off json now f t s)
  call_off-IsValid now f = elim (Bool-cases t.checked) [
    | inl go ↦ rw go (kept id _ t s _ v h refl (Fits-failed t.phase) refl)
    | inr stay ↦ rw stay v
  ]
