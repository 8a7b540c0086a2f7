-- ===== src/Jobs/Threads.antt =====
-- Laws of the list of threads: what is found after a thread is written back or another is added.
use libvirt_volume_provision.Base.{
  List, [], ◌∷◌, ◌++◌, ◌≡◌, ◌≢◌, refl, true, false, none, some, arith, Bool-cases, inl, inr,
}
use libvirt_volume_provision.Text.{Text, text_eq}
use libvirt_volume_provision.Text.Laws.{text_eq_iff, text_eq_refl}
use libvirt_volume_provision.Jobs.{Thread, State, find_thread, set_thread, find_job}

pub find_thread-id :
    (id : Text) (ts : List Thread) (t : Thread) → find_thread id ts ≡ some t → t.job.id ≡ id
unfolding find_thread
find_thread-id id [] t h = cc
find_thread-id id (x ∷ ts) t h = ground (arith, text_eq_iff x.job.id id, find_thread-id id ts t)

pub find_thread-set_thread_self :
    (id : Text) (u t : Thread) (ts : List Thread)
    → find_thread id ts ≡ some t
    → u.job.id ≡ id
    → find_thread id (set_thread u ts) ≡ some u
unfolding find_thread set_thread
find_thread-set_thread_self id u t [] h e = cc
find_thread-set_thread_self id u t (x ∷ ts) h e =
    ground (arith, text_eq_refl id, find_thread-set_thread_self id u t ts)

pub find_thread-set_thread_ne :
    (id : Text) (u : Thread) (ts : List Thread)
    → u.job.id ≢ id
    → find_thread id (set_thread u ts) ≡ find_thread id ts
unfolding find_thread set_thread
find_thread-set_thread_ne id u [] ne = refl
find_thread-set_thread_ne id u (x ∷ ts) ne = elim (Bool-cases (text_eq x.job.id u.job.id)) [
  | inl hit ↦ rw hit (
      ground
        (arith, text_eq_iff x.job.id u.job.id, text_eq_iff u.job.id id, text_eq_iff x.job.id id))
  | inr miss ↦ rw miss (ground (arith, find_thread-set_thread_ne id u ts ne))
]

pub find_thread-append :
    (id : Text) (ts us : List Thread) (t : Thread)
    → find_thread id ts ≡ some t
    → find_thread id (ts ++ us) ≡ some t
unfolding find_thread
find_thread-append id [] us t h = cc
find_thread-append id (x ∷ ts) us t h = ground (arith, find_thread-append id ts us t)

pub find_thread-append_new :
    (id : Text) (ts : List Thread) (u : Thread)
    → find_thread id ts ≡ none
    → u.job.id ≡ id
    → find_thread id (ts ++ u ∷ []) ≡ some u
unfolding find_thread
find_thread-append_new id [] u h e = rw (e, text_eq_refl id)
find_thread-append_new id (x ∷ ts) u h e = ground (arith, find_thread-append_new id ts u)

pub find_thread-append_ne :
    (q : Text) (ts : List Thread) (u : Thread)
    → text_eq u.job.id q ≡ false
    → find_thread q (ts ++ u ∷ []) ≡ find_thread q ts
unfolding find_thread
find_thread-append_ne q [] u h = rw h refl
find_thread-append_ne q (x ∷ ts) u h = ground (arith, find_thread-append_ne q ts u h)

pub find_job-found :
    (id : Text) (s : State) (t : Thread)
    → find_job id s ≡ some t
    → find_thread id s.threads ≡ some t
unfolding find_job
find_job-found id s t h = ground arith

pub find_job-listed :
    (id : Text) (s : State) (t : Thread)
    → find_thread id s.threads ≡ some t
    → t.listed ≡ true
    → find_job id s ≡ some t
unfolding find_job
find_job-listed id s t h l = rw h (rw l)

pub find_job-is_listed :
    (id : Text) (s : State) (t : Thread) → find_job id s ≡ some t → t.listed ≡ true
unfolding find_job
find_job-is_listed id s t h = ground arith
