-- ===== src/Retry/Attempts.antt =====
-- A rule for WithRetry of internal/retry/backoff.go: what its waits and calls keep, it establishes.
use libvirt_volume_provision.Base.{
  ℕ, zero, suc, ◌-◌, ◌<◌, List, [], ◌∷◌, ◌≡◌, ◌≢◌, refl, Option, none, some, ℤ, leb, length,
  get_elem?, arith, if◌then◌else◌,
}
use libvirt_volume_provision.Text.{Text}
use libvirt_volume_provision.Act.{Result, ok, err, panicked, Act}
use libvirt_volume_provision.Retry.{
  Config, attempts, delay_at, pause, attempt_loop, with_retry, after_try, after_wait,
}

get_elem?-some : (xs : List ℤ) (i : ℕ) → i < length xs → (x : ℤ) × (get_elem? xs i ≡ some x)
get_elem?-some [] i h = elim h [ ]
get_elem?-some (x ∷ xs) zero h = (x, refl)
get_elem?-some (x ∷ xs) (suc i) h = get_elem?-some xs i (omega arith)

length_pos : (xs : List ℤ) → xs ≢ [] → 0 < length xs
length_pos [] h = absurd (h refl)
length_pos (x ∷ xs) h = omega arith

-- With a delay in the list there is one for every attempt.
pub delay_at-some : (delays : List ℤ) (i : ℕ) → delays ≢ [] → (d : ℤ) × (delay_at delays i ≡ some d)
unfolding delay_at
delay_at-some delays i h =
    get_elem?-some delays (if leb (length delays) i then length delays - 1 else i)
      (ground (arith, length_pos delays h))

pub Unit-eq : (u : Unit {0}) → u ≡ tt
Unit-eq u = refl

-- One rule for what holds of every result: `I n` holds of the state while `n` attempts are left,
-- and each of the ways out establishes the postcondition `Q`.
module _ {S : Type 0} (wait : ℤ → S → Option Text × S) (fn : Act S (Unit {0})) (cfg : Config)
    (I : ℕ → S → Type 0) (Q : Result (Unit {0}) → S → Type 0)
    (waits : (n : ℕ) (d : ℤ) (s : S) → I (suc n) s → I (suc n) (wait d s).1)
    (gives_up : (n : ℕ) (m : Text) (s : S) → I n s → Q (err m) s)
    (succeeds : (n : ℕ) (s : S) → I (suc n) s → (fn s).0 ≡ ok tt → Q (ok tt) (fn s).1)
    (fails : (n : ℕ) (m : Text) (s : S) → I (suc n) s → (fn s).0 ≡ err m → I n (fn s).1)
    (breaks : (n : ℕ) (s : S) → I (suc n) s → (fn s).0 ≡ panicked → Q panicked (fn s).1)
    (delays : cfg.delays ≢ []) where
  abbrev Post : Result (Unit {0}) × S → Type 0
  Post r = Q r.0 r.1

  after_try_rule :
      (next : Text → S → Result (Unit {0}) × S) (n : ℕ) (s : S)
      → ((m : Text) (t : S) → I n t → Post (next m t))
      → I (suc n) s
      → (r : Result (Unit {0})) (t : S) → (fn s).0 ≡ r
      → (fn s).1 ≡ t
      → Post (after_try wait fn next (r, t))
  after_try_rule next n s step h (ok tt) t e e' = rw (← e') (succeeds n s h e)
  after_try_rule next n s step h (err m) t e e' = rw (← e') (step m (fn s).1 (fails n m s h e))
  after_try_rule next n s step h panicked t e e' = rw (← e') (breaks n s h e)

  pause_rule :
      (k : S → Result (Unit {0}) × S) (n : ℕ)
      → ((t : S) → I (suc n) t → Post (k t))
      → (i : ℕ) (s : S) → I (suc n) s
      → Post (pause wait fn cfg.delays i k s)
  unfolding pause
  pause_rule k n next zero s h = next s h
  pause_rule k n next (suc i) s h =
      let (d, e) = delay_at-some cfg.delays i delays in
      rw (e, pause) (waited d (wait d s).0 (wait d s).1 refl)
    where
      waited :
          (d : ℤ) (o : Option Text) (t : S) → (wait d s).1 ≡ t → Post (after_wait wait fn k (o, t))
      waited d none t e = rw (← e) (next (wait d s).1 (waits n d s h))
      waited d (some m) t e = rw (← e) (gives_up (suc n) _ (wait d s).1 (waits n d s h))

  attempt_loop_rule :
      (left i : ℕ) (last : Option Text) (s : S)
      → I left s
      → Post (attempt_loop wait fn cfg left i last s)
  unfolding attempt_loop
  attempt_loop_rule zero i last s h = gives_up zero _ s h
  attempt_loop_rule (suc n) i last s h =
      pause_rule _ n
        (λ t h'.
          after_try_rule _ n t (λ m u h''. attempt_loop_rule n (suc i) (some m) u h'') h' (fn t).0
            (fn t).1 refl refl)
        i s h

  pub with_retry_rule : (s : S) → I (attempts cfg.max_attempts) s → Post (with_retry wait fn cfg s)
  unfolding with_retry
  with_retry_rule s h = attempt_loop_rule (attempts cfg.max_attempts) 0 none s h
