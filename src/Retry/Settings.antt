-- ===== src/Retry/Settings.antt =====
-- The retry settings of the environment: LVM_RETRY_ATTEMPTS and LVM_RETRY_BACKOFF_MS
-- (parseLvmRetryConfig of internal/lvm/manager.go), MINIO_RETRY_ATTEMPTS and
-- MINIO_RETRY_BACKOFF_MS (parseRetryConfig of internal/minio/client.go). The parsers take the two
-- texts, empty when a variable is not set.
use libvirt_volume_provision.Base.{
  ℕ, zero, suc, List, [], ◌∷◌, ◌≡◌, ◌≢◌, Option, none, some, ℤ, pos, negsuc, ◌*ℤ◌, wrap64, arith,
}
use libvirt_volume_provision.Text.{Text, split, trim_space}
use libvirt_volume_provision.Text.Number.{parse_int}
use libvirt_volume_provision.Retry.{Config}

-- err == nil && n > 0
abbrev pub positive : Option ℤ → Option ℤ
positive none = none
positive (some (pos zero)) = none
positive (some (pos (suc n))) = some (pos (suc n))
positive (some (negsuc n)) = none

abbrev pub or_default : Option ℤ → ℤ → ℤ
or_default none d = d
or_default (some n) d = n

unfoldable pub parse_attempts : ℤ → Text → ℤ
parse_attempts default [] = default
parse_attempts default (c ∷ s) = or_default (positive (parse_int (c ∷ s))) default

-- time.Duration(ms) * time.Millisecond
unfoldable pub milliseconds : ℤ → ℤ
milliseconds ms = wrap64 (ms *ℤ pos 1000000)

abbrev pub push_delay : Option ℤ → List ℤ → List ℤ
push_delay none rest = rest
push_delay (some ms) rest = milliseconds ms ∷ rest

-- The entries that are positive numbers, in order; the others are passed over.
unfoldable pub parse_delays : List Text → List ℤ
parse_delays [] = []
parse_delays (d ∷ ds) = push_delay (positive (parse_int (trim_space d))) (parse_delays ds)

abbrev pub or_delays : List ℤ → List ℤ → List ℤ
or_delays [] default = default
or_delays (d ∷ ds) default = d ∷ ds

unfoldable pub parse_backoff : List ℤ → Text → List ℤ
parse_backoff default [] = default
parse_backoff default (c ∷ s) = or_delays (parse_delays (split (c ∷ s) b',')) default

-- parseLvmRetryConfig: 2 attempts, 100 ms and 1 s, unless the texts say otherwise.
unfoldable pub parse_lvm_retry_config : Text → Text → Config
parse_lvm_retry_config attempts_str backoff_str = record {
  max_attempts = parse_attempts (pos 2) attempts_str;
  delays = parse_backoff (pos 100000000 ∷ pos 1000000000 ∷ []) backoff_str;
}

-- parseRetryConfig: 3 attempts, 100 ms, 1 s and 10 s, unless the texts say otherwise.
unfoldable pub parse_retry_config : Text → Text → Config
parse_retry_config attempts_str backoff_str = record {
  max_attempts = parse_attempts (pos 3) attempts_str;
  delays = parse_backoff (pos 100000000 ∷ pos 1000000000 ∷ pos 10000000000 ∷ []) backoff_str;
}

-- What `with_retry` needs of a configuration: at least one attempt, and a delay to wait for.
pub record IsUsable (cfg : Config) : Type 0 where
  pub tries : (n : ℕ) × (cfg.max_attempts ≡ pos (suc n))
  pub waits : cfg.delays ≢ []

parse_attempts_pos : (n : ℕ) (s : Text) → (m : ℕ) × (parse_attempts (pos (suc n)) s ≡ pos (suc m))
unfolding parse_attempts
parse_attempts_pos n [] = (n, ground arith)
parse_attempts_pos n (c ∷ s) = go (parse_int (c ∷ s))
  where
    go : (o : Option ℤ) → (m : ℕ) × (or_default (positive o) (pos (suc n)) ≡ pos (suc m))
    go none = (n, ground arith)
    go (some (pos zero)) = (n, ground arith)
    go (some (pos (suc k))) = (k, ground arith)
    go (some (negsuc k)) = (n, ground arith)

or_delays-ne-nil : (ds : List ℤ) (d : ℤ) (default : List ℤ) → or_delays ds (d ∷ default) ≢ []
or_delays-ne-nil [] d default h = cc
or_delays-ne-nil (x ∷ ds) d default h = cc

parse_backoff-ne-nil : (d : ℤ) (default : List ℤ) (s : Text) → parse_backoff (d ∷ default) s ≢ []
unfolding parse_backoff
parse_backoff-ne-nil d default [] h = cc
parse_backoff-ne-nil d default (c ∷ s) h =
    or_delays-ne-nil (parse_delays (split (c ∷ s) b',')) d default h

-- Whatever texts the environment holds, the LVM retry configuration has at least one attempt and at
-- least one delay.
pub parse_lvm_retry_config-IsUsable : (a b : Text) → IsUsable (parse_lvm_retry_config a b)
unfolding parse_lvm_retry_config
parse_lvm_retry_config-IsUsable a b = record {
  tries = parse_attempts_pos 1 a;
  waits = parse_backoff-ne-nil _ _ b;
}

-- Whatever texts the environment holds, the MinIO retry configuration has at least one attempt and
-- at least one delay.
pub parse_retry_config-IsUsable : (a b : Text) → IsUsable (parse_retry_config a b)
unfolding parse_retry_config
parse_retry_config-IsUsable a b = record {
  tries = parse_attempts_pos 2 a;
  waits = parse_backoff-ne-nil _ _ b;
}
