-- ===== src/Lvm/Reuse.antt =====
-- Which existing volumes CreateVolume of internal/lvm/manager.go accepts.
use libvirt_volume_provision.Base.{
  ℕ, ◌+◌, ◌-◌, ◌*◌, ◌/◌, ◌^◌, ◌≤◌, ◌<◌, ◌≡◌, ◌⊎◌, ◌↔◌, Option, none, some, pos, ◌+ℤ◌, ◌-ℤ◌, ◌*ℤ◌,
  quot, wrap64, wrap64-pos, ltb_ℤ, get_elem?, arith, if◌then◌else◌,
}
use libvirt_volume_provision.Text.{Text}
use libvirt_volume_provision.Act.{ok, err}
use libvirt_volume_provision.Volume.{
  size_in_bytes, size_tolerance, min_size, max_size, check_state, check_volume,
}

*ℤ-pos : (a b : ℕ) → pos a *ℤ pos b ≡ pos (a * b)
unfolding ◌*ℤ◌
*ℤ-pos a b = ground arith

-- A size of at most 8000000000 GB does not wrap around.
size_in_bytes_lem : (gb : ℕ) → gb ≤ 8000000000 → size_in_bytes (pos gb) ≡ pos (gb * 1073741824)
unfolding size_in_bytes
size_in_bytes_lem gb h =
    rw
      (
        *ℤ-pos gb 1024,
        wrap64-pos (gb * 1024) (omega arith),
        *ℤ-pos (gb * 1024) 1024,
        wrap64-pos (gb * 1024 * 1024) (omega arith),
        *ℤ-pos (gb * 1024 * 1024) 1024,
        wrap64-pos (gb * 1024 * 1024 * 1024) (omega arith),
      )
      (ground arith)

min_size_lem : (n : ℕ) → n < 2 ^ 63 → min_size (pos n) ≡ pos (n - n / 20)
unfolding min_size size_tolerance quot ◌-ℤ◌ wrap64
min_size_lem n h = ground arith

max_size_lem : (n : ℕ) → n + n / 20 < 2 ^ 63 → max_size (pos n) ≡ pos (n + n / 20)
unfolding max_size size_tolerance quot ◌+ℤ◌ wrap64
max_size_lem n h = ground arith

-- The fifth attribute of `lvs`, which holds the volume's state, is `a` (active) or `-`.
abbrev pub IsUsableState : Option ℕ → Type 0
IsUsableState none = ⊥
IsUsableState (some c) = (c ≡ b'a') ⊎ (c ≡ b'-')

-- The three tests in a row.
tests_iff :
    (low high size : ℕ) (e e' : Text) (o : Option ℕ)
    → ((if ltb_ℤ (pos size) (pos low)
          then err e
          else if ltb_ℤ (pos high) (pos size)
          then err e'
          else check_state o)
        ≡ ok tt)
      ↔ ((low ≤ size) × (size ≤ high) × IsUsableState o)
tests_iff low high size e e' none = ground arith
tests_iff low high size e e' (some c) = ground arith

-- An existing volume is accepted for a request of `gb` GB, at most 8000000000 so that no product
-- overflows, exactly when its size lies within a twentieth (5%, rounded down) of the requested size
-- and its state is usable.
pub check_volume_iff :
    (gb size : ℕ) (name attributes : Text)
    → gb ≤ 8000000000
    → (check_volume
          (pos gb)
          (record { name = name; size_bytes = pos size; attributes = attributes })
        ≡ ok tt)
      ↔ ((gb * 1073741824 - gb * 1073741824 / 20 ≤ size)
          × (size ≤ gb * 1073741824 + gb * 1073741824 / 20)
          × IsUsableState (get_elem? attributes 4))
unfolding check_volume
check_volume_iff gb size name attributes h =
    rw
      (
        size_in_bytes_lem gb h,
        min_size_lem (gb * 1073741824) (omega arith),
        max_size_lem (gb * 1073741824) (omega arith),
      )
      (tests_iff _ _ size _ _ (get_elem? attributes 4))
