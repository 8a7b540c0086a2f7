-- ===== src/Examples/Retries.antt =====
-- The retries on concrete actions.
use libvirt_volume_provision.Base.{ℕ, zero, suc, ◌+◌, ◌≤◌, ◌≡◌, ◌≢◌, refl, Option, none, ℤ, arith}
use libvirt_volume_provision.Text.{Text, codes}
use libvirt_volume_provision.Act.{Result, ok, err, panicked}
use libvirt_volume_provision.Retry.{with_retry, attempts}
use libvirt_volume_provision.Retry.Bounds.{
  with_retry_calls, with_retry-ne-panicked, with_retry_recovers, IsTransient,
}
use libvirt_volume_provision.Examples.Machine.{two_delays, two_delays-IsUsable}

abbrev no_wait : ℤ → ℕ → Option Text × ℕ
no_wait d s = (none, s)

abbrev count_down : ℕ → Result (Unit {0}) × ℕ
count_down zero = (ok tt, 0)
count_down (suc n) = (err (codes "busy"), n)

abbrev count_up : ℕ → Result (Unit {0}) × ℕ
count_up n = (err (codes "busy"), n + 1)

count_down-IsTransient : IsTransient no_wait count_down (λ s. s)
count_down-IsTransient = record {
  uncut = λ d s. refl;
  kept = λ d s. refl;
  recovers = λ s e. rw e refl;
  fails = λ s k e. (codes "busy", rw e refl, rw e refl);
}

with_retry_recovers_example : (with_retry no_wait count_down two_delays 2).0 ≡ ok tt
unfolding attempts
with_retry_recovers_example =
    with_retry_recovers no_wait count_down two_delays (λ s. s) count_down-IsTransient
      two_delays-IsUsable.waits 2 (omega arith)

with_retry_calls_example : (with_retry no_wait count_up two_delays 0).1 ≤ 3
with_retry_calls_example =
    with_retry_calls no_wait count_up two_delays (λ s. s) 3 two_delays-IsUsable refl (λ d s. refl)
      (λ s. refl) 0

with_retry-ne-panicked_example : (with_retry no_wait count_up two_delays 0).0 ≢ panicked
with_retry-ne-panicked_example =
    with_retry-ne-panicked no_wait count_up two_delays two_delays-IsUsable.waits (λ s h. cc) 0
