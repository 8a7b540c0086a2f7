-- ===== src/Retry.antt =====
-- internal/retry/backoff.go, and the two parsers of a retry configuration
-- (parseLvmRetryConfig of internal/lvm/manager.go, parseRetryConfig of internal/minio/client.go).

pub mod Settings
pub mod Attempts
pub mod Bounds
use libvirt_volume_provision.Base.{
  ℕ, zero, suc, ◌+◌, ◌-◌, List, [], ◌∷◌, ◌++◌, Option, none, some, ℤ, pos, negsuc, leb, length,
  get_elem?, if◌then◌else◌,
}
use libvirt_volume_provision.Text.{Text, codes}
use libvirt_volume_provision.Text.Number.{format_int}
use libvirt_volume_provision.Act.{Result, ok, err, panicked, Act}

-- retry.Config: `delays` are in nanoseconds.
pub record Config : Type 0 where
  pub max_attempts : ℤ
  pub delays : List ℤ

-- if cfg.MaxAttempts <= 0 { cfg.MaxAttempts = 1 }
unfoldable pub attempts : ℤ → ℕ
attempts (pos zero) = 1
attempts (pos (suc n)) = suc n
attempts (negsuc n) = 1

-- cfg.Delays[delayIndex] before attempt `suc i`, the last delay if they run out. With no delays the
-- index is -1, and the program panics: `none`.
unfoldable pub delay_at : List ℤ → ℕ → Option ℤ
delay_at delays i = get_elem? delays (if leb (length delays) i then length delays - 1 else i)

-- What `%w` prints of `lastErr`.
unfoldable pub error_text : Option Text → Text
error_text none = codes "%!w(<nil>)"
error_text (some e) = e

-- `wait d` is the `select` on `time.After(d)` and `ctx.Done()`: `none` when the delay is over, the
-- context's error when that is chosen.
module _ {S : Type 0} (wait : ℤ → S → Option Text × S) (fn : Act S (Unit {0})) where
  abbrev after_wait : (S → Result (Unit {0}) × S) → Option Text × S → Result (Unit {0}) × S
  after_wait k (none, s) = k s
  after_wait k (some e, s) = (err (codes "retry cancelled: " ++ e), s)

  -- The delay before attempt number `i`, none before the first.
  unfoldable pub pause : List ℤ → ℕ → (S → Result (Unit {0}) × S) → S → Result (Unit {0}) × S
  pause delays zero k s = k s
  pause delays (suc i) k s = elim (delay_at delays i) [
    | none ↦ (panicked, s)
    | some d ↦ after_wait k (wait d s)
  ]

  abbrev after_try :
      (Text → S → Result (Unit {0}) × S) → Result (Unit {0}) × S → Result (Unit {0}) × S
  after_try next (ok u, s) = (ok u, s)
  after_try next (err e, s) = next e s
  after_try next (panicked, s) = (panicked, s)

  -- The loop: `left` attempts are left, `i` have been made, the last with the error `last`.
  unfoldable pub attempt_loop : Config → ℕ → ℕ → Option Text → S → Result (Unit {0}) × S
  attempt_loop cfg zero i last s = (
    err (
        codes "failed after "
        ++ format_int (pos (attempts cfg.max_attempts))
        ++ codes " attempts: "
        ++ error_text last),
    s,
  )
  attempt_loop cfg (suc left) i last s =
      pause cfg.delays i (λ t. after_try (λ e. attempt_loop cfg left (suc i) (some e)) (fn t)) s

  -- retry.WithRetry
  unfoldable pub with_retry : Config → S → Result (Unit {0}) × S
  unfolding attempt_loop
  with_retry cfg s = attempt_loop cfg (attempts cfg.max_attempts) 0 none s
