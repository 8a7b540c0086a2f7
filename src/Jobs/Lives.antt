-- ===== src/Jobs/Lives.antt =====
-- The life of a job of internal/jobs/manager.go as an abstract machine, and what the machine sees of
-- the manager's threads.
use mathlib.Core.Path.{fun_ext}
use libvirt_volume_provision.Base.{
  ℕ, List, [], ◌∷◌, ◌++◌, ◌≡◌, ◌⊎◌, inl, inr, refl, sym, ap, ◌∙◌, Option, none, some, Bool-cases,
  ◌-◌, ltb, if◌then◌else◌, ◌+◌,
}
use libvirt_volume_provision.Text.{Text, text_eq}
use libvirt_volume_provision.Text.Laws.{text_eq_of_eq, eq_of_text_eq}
use libvirt_volume_provision.Jobs.{
  Phase, waiting, executing, done, Thread, State, Event, started, acquired, gave_up, finished,
  find_thread, set_thread,
}
use libvirt_volume_provision.Jobs.Threads.{
  find_thread-id, find_thread-set_thread_self, find_thread-set_thread_ne, find_thread-append_new,
  find_thread-append_ne,
}

-- What the specification sees: for every name, where the job of that name stands, `none` before it is
-- started.
abbrev pub Lives : Type 0
Lives = Text → Option Phase

abbrev pub update : Lives → Text → Phase → Lives
update m id p q = if text_eq id q then some p else m q

-- The specification's state: the lives, and how many jobs have begun and not ended.
pub record Abstract : Type 0 where
  pub lives : Lives
  pub slots : ℕ

-- What an event may do to a job, by where the job stands: a start makes a job that is new, a job that
-- waits begins if fewer than two have, one that has begun ends when its work returns, and one that
-- waits may give up. Nothing else changes anything.
abbrev pub Starts : Option Phase → Text → Abstract → Abstract → Type 0
Starts none id m n = n ≡ record m { lives = update m.lives id waiting }
Starts (some p) id m n = n ≡ m

abbrev pub Begins : Option Phase → Text → Abstract → Abstract → Type 0
Begins (some waiting) id m n = n ≡ (
    if ltb m.slots 2
    then record { lives = update m.lives id executing; slots = m.slots + 1 }
    else m)
Begins _ id m n = n ≡ m

abbrev pub GivesUp : Option Phase → Text → Abstract → Abstract → Type 0
GivesUp (some waiting) id m n = (n ≡ m) ⊎ (n ≡ record m { lives = update m.lives id done })
GivesUp _ id m n = n ≡ m

abbrev pub Ends : Option Phase → Text → Abstract → Abstract → Type 0
Ends (some executing) id m n = n ≡ record { lives = update m.lives id done; slots = m.slots - 1 }
Ends _ id m n = n ≡ m

abbrev pub Allowed : Event → Abstract → Abstract → Type 0
Allowed (started id req now f) m n = Starts (m.lives id) id m n
Allowed (acquired id now f) m n = Begins (m.lives id) id m n
Allowed (gave_up id now f) m n = GivesUp (m.lives id) id m n
Allowed (finished id e outcome now f) m n = Ends (m.lives id) id m n
Allowed _ m n = n ≡ m

-- A state that the specification reaches from another by these events, in this order.
abbrev pub Follows : Abstract → List Event → Abstract → Type 0
Follows m [] n = n ≡ m
Follows m (e ∷ es) n = (k : Abstract) × Allowed e m k × Follows k es n

abbrev pub phase_of : Option Thread → Option Phase
phase_of none = none
phase_of (some t) = some t.phase

-- The abstract view of the threads.
abbrev pub lives : List Thread → Lives
lives ts q = phase_of (find_thread q ts)

update_self : (m : Lives) (id : Text) (p : Phase) → m id ≡ some p → update m id p ≡ m
update_self m id p h = fun_ext λ q. elim (Bool-cases (text_eq id q)) [
  | inl hit ↦ rw hit (sym h ∙ ap m (eq_of_text_eq id q hit))
  | inr miss ↦ rw miss refl
]

pub lives-set_thread :
    (id : Text) (u t : Thread) (ts : List Thread)
    → find_thread id ts ≡ some t
    → u.job.id ≡ t.job.id
    → lives (set_thread u ts) ≡ update (lives ts) id u.phase
lives-set_thread id u t ts h e = fun_ext λ q. elim (Bool-cases (text_eq id q)) [
  | inl hit ↦
      let same : id ≡ q = eq_of_text_eq id q hit in
      rw hit (
        ap phase_of (
          find_thread-set_thread_self q u t ts (ap (λ k. find_thread k ts) (sym same) ∙ h)
            (e ∙ find_thread-id id ts t h ∙ same)))
  | inr miss ↦ rw miss (
      ap phase_of (
        find_thread-set_thread_ne q u ts
          (λ p. cc (text_eq_of_eq id q (sym (find_thread-id id ts t h) ∙ sym e ∙ p)))))
]

pub lives-append :
    (u : Thread) (ts : List Thread)
    → find_thread u.job.id ts ≡ none
    → lives (ts ++ u ∷ []) ≡ update (lives ts) u.job.id u.phase
lives-append u ts h = fun_ext λ q. elim (Bool-cases (text_eq u.job.id q)) [
  | inl hit ↦
      let same : u.job.id ≡ q = eq_of_text_eq u.job.id q hit in
      rw hit (
        ap phase_of
          (find_thread-append_new q ts u (ap (λ k. find_thread k ts) (sym same) ∙ h) same))
  | inr miss ↦ rw miss (ap phase_of (find_thread-append_ne q ts u miss))
]

-- A thread that is written back in its phase changes nothing.
pub lives-kept :
    (id : Text) (u t : Thread) (ts : List Thread)
    → find_thread id ts ≡ some t
    → u.job.id ≡ t.job.id
    → u.phase ≡ t.phase
    → lives (set_thread u ts) ≡ lives ts
lives-kept id u t ts h e p =
    lives-set_thread id u t ts h e ∙ update_self (lives ts) id u.phase (rw h (ap some (sym p)))

-- What the specification sees of a state.
abbrev pub view : State → Abstract
view s = record { lives = lives s.threads; slots = s.slots }

pub view_same :
    (s s' : State) → lives s'.threads ≡ lives s.threads → s'.slots ≡ s.slots → view s' ≡ view s
view_same s s' e n = rw (e, n) refl

abbrev pub seen : Lives → ℕ → Abstract
seen m k = record { lives = m; slots = k }

pub view_set : (ts : List Thread) (k : ℕ) (m : Lives) → lives ts ≡ m → seen (lives ts) k ≡ seen m k
view_set ts k m e = ap (λ x. seen x k) e
