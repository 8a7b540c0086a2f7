-- ===== src/Jobs/Progress.antt =====
-- That the jobs of internal/jobs/manager.go can always come to their end.
use libvirt_volume_provision.Base.{
  ℕ, zero, suc, ◌+◌, ◌*◌, ◌≤◌, ◌<◌, List, [], ◌∷◌, ◌≡◌, ◌⊎◌, inl, inr, refl, Bool, true, false,
  Option, none, some, some_inj, arith, Bool-cases, length, ltb, All,
}
use libvirt_volume_provision.Text.{Text, text_eq}
use libvirt_volume_provision.Text.Laws.{text_eq_iff, text_eq_refl}
use libvirt_volume_provision.Storage.{Table}
use libvirt_volume_provision.Storage.Saving.{no_faults}
use libvirt_volume_provision.Jobs.{
  Phase, waiting, executing, done, Thread, State, Event, Effects, acquired, finished, find_thread,
  set_thread, step, run, new_manager, concluded, after, is_waiting, is_executing, capacity,
}
use libvirt_volume_provision.Job.Saving.{Json}
use libvirt_volume_provision.Jobs.Slots.{IsValid, executing_threads}
use libvirt_volume_provision.Types.{running}
use libvirt_volume_provision.Jobs.Reachable.{step-IsValid, run-IsValid, new_manager-IsValid}
use libvirt_volume_provision.Jobs.Threads.{find_thread-id}
use libvirt_volume_provision.Jobs.Names.{Distinct, step-Distinct, run-new-Distinct}

-- The steps that a goroutine has left.
abbrev pub left : Phase → ℕ
left waiting = 2
left executing = 1
left done = 0

abbrev pub steps_left : List Thread → ℕ
steps_left [] = 0
steps_left (t ∷ ts) = left t.phase + steps_left ts

-- The events by which a goroutine gets on: it takes a slot, or ProvisionVolume returns.
abbrev pub is_work : Event → Bool
is_work (acquired id now f) = true
is_work (finished id e outcome now f) = true
is_work _ = false

abbrev pub IsDone : Thread → Type 0
IsDone t = t.phase ≡ done

steps_left-set_thread :
    (id : Text) (u : Thread) (ts : List Thread) (t : Thread)
    → find_thread id ts ≡ some t
    → u.job.id ≡ id
    → steps_left (set_thread u ts) + left t.phase ≡ steps_left ts + left u.phase
unfolding find_thread set_thread
steps_left-set_thread id u [] t h e = cc
steps_left-set_thread id u (x ∷ ts) t h e = elim (Bool-cases (text_eq x.job.id id)) [
  | inl hit ↦
      let same : x ≡ t = some_inj (rw (hit, find_thread) at h) in rw (e, hit) (ground (arith, same))
  | inr miss ↦
      rw (e, miss) (ground (arith, steps_left-set_thread id u ts t (rw (miss, find_thread) at h) e))
]

steps_left-le : (ts : List Thread) → steps_left ts ≤ 2 * length ts
steps_left-le [] = omega arith
steps_left-le (t ∷ ts) = omega (arith, steps_left-le ts, left-le t.phase)
  where
    left-le : (p : Phase) → left p ≤ 2
    left-le waiting = omega arith
    left-le executing = omega arith
    left-le done = omega arith

-- With different names, a thread that passes a test is found, or none does.
found_or_All :
    (q : Phase → Bool) (ts : List Thread)
    → Distinct ts
    → ((id : Text) × (t : Thread) × (find_thread id ts ≡ some t) × (q t.phase ≡ true))
      ⊎ All (λ t. q t.phase ≡ false) ts
unfolding find_thread
found_or_All q [] d = inr tt
found_or_All q (x ∷ ts) (fresh, d) = elim (Bool-cases (q x.phase)) [
  | inl hit ↦ inl (x.job.id, x, rw (text_eq_refl x.job.id) refl, hit)
  | inr miss ↦ elim (found_or_All q ts d) [
    | inl (id, t, h, hit) ↦ inl (id, t, later id t h, hit)
    | inr all ↦ inr (miss, all)
  ]
]
  where
    later : (id : Text) (t : Thread) → find_thread id ts ≡ some t → find_thread id (x ∷ ts) ≡ some t
    later id t h = ground (arith, fresh, h, text_eq_iff x.job.id id)

none_executing :
    (ts : List Thread) → All (λ t. is_executing t.phase ≡ false) ts → executing_threads ts ≡ 0
none_executing [] a = refl
none_executing (t ∷ ts) (e, a) = rw e (none_executing ts a)

All-IsDone :
    (ts : List Thread)
    → All (λ t. is_executing t.phase ≡ false) ts
    → All (λ t. is_waiting t.phase ≡ false) ts
    → All IsDone ts
All-IsDone [] a b = tt
All-IsDone (t ∷ ts) (e, a) (w, b) = (ended t.phase e w, All-IsDone ts a b)
  where
    ended : (p : Phase) → is_executing p ≡ false → is_waiting p ≡ false → p ≡ done
    ended waiting e w = cc
    ended executing e w = cc
    ended done e w = refl

abbrev quiet : Effects
quiet = record { progress = none; rollback_error = none; cache_hit = false; image_path = [] }

left_executing : (p : Phase) → is_executing p ≡ true → left p ≡ 1
left_executing waiting e = cc
left_executing executing e = refl
left_executing done e = cc

left_waiting : (p : Phase) → is_waiting p ≡ true → left p ≡ 2
left_waiting waiting e = refl
left_waiting executing e = cc
left_waiting done e = cc

module _ (json : Json) where
  finished_decreases :
      (id : Text) (s : State) (t : Thread)
      → find_thread id s.threads ≡ some t
      → is_executing t.phase ≡ true
      → steps_left (step json s (finished id quiet none 0 no_faults)).threads + 1
        ≡ steps_left s.threads
  unfolding step
  finished_decreases id s t h e =
      let u : Thread = record t {
        job = record (concluded json none (after json quiet t.job)) { updated_at = 0 };
        phase = done;
      } in
      rw (h, e)
        (omega (
          arith,
          steps_left-set_thread id u s.threads t h (find_thread-id id s.threads t h),
          left_executing t.phase e,
        ))

  acquired_decreases :
      (id : Text) (s : State) (t : Thread)
      → find_thread id s.threads ≡ some t
      → is_waiting t.phase ≡ true
      → s.slots < capacity
      → steps_left (step json s (acquired id 0 no_faults)).threads + 1 ≡ steps_left s.threads
  unfolding step
  acquired_decreases id s t h e free =
      let u : Thread = record t {
        job = record t.job { status = running; updated_at = 0 };
        phase = executing;
      } in
      rw (h, e, room free)
        (omega (
          arith,
          steps_left-set_thread id u s.threads t h (find_thread-id id s.threads t h),
          left_waiting t.phase e,
        ))
    where
      room : s.slots < capacity → ltb s.slots capacity ≡ true
      room lt = ground (arith, lt)

  -- Events that bring every thread to its end, at most as many as there are steps left.
  abbrev pub Finishes : ℕ → State → Type 0
  Finishes n s =
      (es : List Event) × All (λ e. is_work e ≡ true) es
      × (length es ≤ n)
      × All IsDone (run json s es).threads

  -- A thread that executes can return; if none does, the slots are free, and one that waits can take
  -- one.
  work_left :
      (s : State)
      → IsValid s
      → Distinct s.threads
      → ((e : Event) × (is_work e ≡ true)
          × (steps_left (step json s e).threads + 1 ≡ steps_left s.threads))
        ⊎ All IsDone s.threads
  work_left s v d = elim (found_or_All is_executing s.threads d) [
    | inl (id, t, h, e) ↦
        inl (finished id quiet none 0 no_faults, refl, finished_decreases id s t h e)
    | inr idle ↦ elim (found_or_All is_waiting s.threads d) [
      | inl (id, t, h, e) ↦ inl (
        acquired id 0 no_faults,
        refl,
        acquired_decreases id s t h e (omega (arith, v.counted, none_executing s.threads idle)),
      )
      | inr rest ↦ inr (All-IsDone s.threads idle rest)
    ]
  ]

  can_finish :
      (n : ℕ) (s : State) → IsValid s → Distinct s.threads → steps_left s.threads ≤ n → Finishes n s
  unfolding run
  can_finish zero s v d le = elim (work_left s v d) [
    | inl (e, w, less) ↦ absurd (omega arith)
    | inr ended ↦ ([], tt, omega arith, ended)
  ]
  can_finish (suc k) s v d le = elim (work_left s v d) [
    | inl (e, w, less) ↦
        let (es, works, short, ended) =
          can_finish k (step json s e) (step-IsValid json s e v) (step-Distinct json s e d)
            (omega arith) in
        (e ∷ es, (w, works), omega arith, ended)
    | inr ended ↦ ([], tt, omega arith, ended)
  ]

  -- No job is stuck, and work comes to an end: after whatever has happened to a new manager, there are
  -- at most two events for each job, of goroutines that take a slot and of calls of ProvisionVolume
  -- that return, after which every job has ended.
  pub run_can_finish :
      (store : Option Table) (past : List Event)
      → let s = run json (new_manager store) past in Finishes (2 * length s.threads) s
  run_can_finish store past =
      let s = run json (new_manager store) past in
      can_finish (2 * length s.threads) s
        (run-IsValid json (new_manager store) past (new_manager-IsValid store))
        (run-new-Distinct json store past) (steps_left-le s.threads)
