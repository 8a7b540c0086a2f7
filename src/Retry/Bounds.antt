-- ===== src/Retry/Bounds.antt =====
-- What the callers of WithRetry in internal/retry/backoff.go rely on: the number of calls, panics and
-- success.
use libvirt_volume_provision.Base.{
  ℕ, zero, suc, ◌+◌, ◌≤◌, ◌<◌, [], ◌≡◌, ◌≢◌, refl, Option, none, some, ℤ, pos, arith,
}
use libvirt_volume_provision.Text.{Text}
use libvirt_volume_provision.Act.{Result, ok, err, panicked, Act}
use libvirt_volume_provision.Retry.{
  Config, attempts, pause, attempt_loop, with_retry, after_try, after_wait,
}
use libvirt_volume_provision.Retry.Settings.{IsUsable}
use libvirt_volume_provision.Retry.Attempts.{delay_at-some, with_retry_rule}

module _ {S : Type 0} (wait : ℤ → S → Option Text × S) (fn : Act S (Unit {0})) where
  -- If a counter goes up by one in every call of the function and a wait leaves it alone, then with
  -- a usable configuration it goes up by at most `max_attempts` in all.
  pub with_retry_calls :
      (cfg : Config) (calls : S → ℕ) (n : ℕ)
      → IsUsable cfg
      → cfg.max_attempts ≡ pos n
      → ((d : ℤ) (s : S) → calls (wait d s).1 ≡ calls s)
      → ((s : S) → calls (fn s).1 ≡ calls s + 1)
      → (s : S) → calls (with_retry wait fn cfg s).1 ≤ calls s + n
  unfolding attempts
  with_retry_calls cfg calls n u e hw hf s =
      with_retry_rule wait fn cfg (λ k t. calls t + k ≤ calls s + n) (λ r t. calls t ≤ calls s + n)
        (λ k d t h. omega (arith, hw d t)) (λ k m t h. omega arith) (λ k t h _. omega (arith, hf t))
        (λ k m t h _. omega (arith, hf t)) (λ k t h _. omega (arith, hf t)) u.waits s
        (ground (arith, u.tries.1))

  -- With a delay to wait for, `with_retry` panics only if the function does.
  pub with_retry-ne-panicked :
      (cfg : Config)
      → cfg.delays ≢ []
      → ((s : S) → (fn s).0 ≢ panicked)
      → (s : S) → (with_retry wait fn cfg s).0 ≢ panicked
  with_retry-ne-panicked cfg u safe s =
      with_retry_rule wait fn cfg (λ k t. Unit {0}) (λ r t. r ≢ panicked) (λ k d t h. tt)
        (λ k m t h. cc) (λ k t h e. cc) (λ k m t h e. tt) (λ k t h e. absurd (safe t e)) u s tt

  -- With a delay to wait for, what a successful call establishes holds after a successful
  -- `with_retry`.
  pub with_retry-ok :
      (cfg : Config) (P : S → Type 0)
      → cfg.delays ≢ []
      → ((s : S) → (fn s).0 ≡ ok tt → P (fn s).1)
      → (s : S) → (with_retry wait fn cfg s).0 ≡ ok tt
      → P (with_retry wait fn cfg s).1
  with_retry-ok cfg P u post s =
      with_retry_rule wait fn cfg (λ k t. Unit {0}) (λ r t. r ≡ ok tt → P t) (λ k d t h. tt)
        (λ k m t h e. cc) (λ k t h e _. post t e) (λ k m t h e. tt) (λ k t h e p. cc) u s tt

  -- The function fails as often as `failures` says, and then succeeds; no wait is cut short.
  pub record IsTransient (failures : S → ℕ) : Type 0 where
    pub uncut : (d : ℤ) (s : S) → (wait d s).0 ≡ none
    pub kept : (d : ℤ) (s : S) → failures (wait d s).1 ≡ failures s
    pub recovers : (s : S) → failures s ≡ 0 → (fn s).0 ≡ ok tt
    pub fails :
        (s : S) (k : ℕ)
        → failures s ≡ suc k
        → (m : Text) × ((fn s).0 ≡ err m) × (failures (fn s).1 ≡ k)

  module _ (cfg : Config) (failures : S → ℕ) (h : IsTransient failures)
      (delays : cfg.delays ≢ []) where
    pause_uncut :
        (k : S → Result (Unit {0}) × S) (i : ℕ) (s : S)
        → (t : S) × (pause wait fn cfg.delays i k s ≡ k t) × (failures t ≡ failures s)
    unfolding pause
    pause_uncut k zero s = (s, refl, refl)
    pause_uncut k (suc i) s =
        let (d, e) = delay_at-some cfg.delays i delays in
        ((wait d s).1, rw (e, pause) (elapsed (wait d s) (h.uncut d s)), h.kept d s)
      where
        elapsed : (w : Option Text × S) → w.0 ≡ none → after_wait wait fn k w ≡ k w.1
        elapsed (none, t) e = refl
        elapsed (some m, t) e = cc

    try_ok :
        (next : Text → S → Result (Unit {0}) × S) (r : Result (Unit {0}) × S)
        → r.0 ≡ ok tt
        → (after_try wait fn next r).0 ≡ ok tt
    try_ok next (ok tt, t) e = refl
    try_ok next (err m, t) e = cc
    try_ok next (panicked, t) e = cc

    try_err :
        (next : Text → S → Result (Unit {0}) × S) (m : Text) (r : Result (Unit {0}) × S)
        → r.0 ≡ err m
        → after_try wait fn next r ≡ next m r.1
    try_err next m (ok u, t) e = cc
    try_err next m (err x, t) e = ground arith
    try_err next m (panicked, t) e = cc

    try_recovers :
        (next : Text → S → Result (Unit {0}) × S) (n : ℕ)
        → ((m : Text) (t : S) → failures t < n → (next m t).0 ≡ ok tt)
        → (t : S) (f : ℕ) → failures t ≡ f
        → f < suc n
        → (after_try wait fn next (fn t)).0 ≡ ok tt
    try_recovers next n ih t zero e lt = try_ok next (fn t) (h.recovers t e)
    try_recovers next n ih t (suc k) e lt =
        let (m, em, ek) = h.fails t k e in
        rw (try_err next m (fn t) em) (ih m (fn t).1 (omega arith))

    attempt_loop_recovers :
        (left i : ℕ) (last : Option Text) (s : S)
        → failures s < left
        → (attempt_loop wait fn cfg left i last s).0 ≡ ok tt
    unfolding attempt_loop
    attempt_loop_recovers zero i last s lt = absurd (omega arith)
    attempt_loop_recovers (suc n) i last s lt =
        let next : Text → S → Result (Unit {0}) × S =
          λ m. attempt_loop wait fn cfg n (suc i) (some m) in
        let (t, e, same) = pause_uncut (λ u. after_try wait fn next (fn u)) i s in
        rw e (
          try_recovers next n (λ m u lt'. attempt_loop_recovers n (suc i) (some m) u lt') t
            (failures t) refl (omega arith))

    -- When the list of delays is not empty, no wait is cut short, and the function fails fewer times than
    -- there are attempts, the result is success.
    pub with_retry_recovers :
        (s : S) → failures s < attempts cfg.max_attempts → (with_retry wait fn cfg s).0 ≡ ok tt
    unfolding with_retry
    with_retry_recovers s lt = attempt_loop_recovers (attempts cfg.max_attempts) 0 none s lt
