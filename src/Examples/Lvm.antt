-- ===== src/Examples/Lvm.antt =====
-- The volumes on concrete hosts.
use libvirt_volume_provision.Base.{
  ◌+◌, ◌-◌, ◌*◌, ◌/◌, ◌≤◌, [], ◌∷◌, ◌≡◌, ◌⊎◌, ◌↔◌, refl, true, pos, arith, get_elem?,
}
use libvirt_volume_provision.Text.{codes, text_eq}
use libvirt_volume_provision.Act.{ok}
use libvirt_volume_provision.Retry.{with_retry, attempts, pause}
use libvirt_volume_provision.Lvm.{create_volume, create_volume_once, delete_volume}
use libvirt_volume_provision.Volume.{exists_argv, info_argv, create_argv, check_volume}
use libvirt_volume_provision.Text.Number.{format_int}
use libvirt_volume_provision.Lvm.Commands.{create_volume_existing, delete_volume_cases, Deleted}
use libvirt_volume_provision.Lvm.Success.{LastRan, create_volume_fresh}
use libvirt_volume_provision.Lvm.Reuse.{IsUsableState, check_volume_iff}
use libvirt_volume_provision.Examples.Machine.{
  two_delays-IsUsable, nothing_there, only_lvs, manager, host,
}

create_volume_fresh_example :
    LastRan nothing_there manager
      (codes "lvcreate" ∷ codes "-L" ∷ codes "1G" ∷ codes "-n" ∷ codes "v" ∷ codes "vg0" ∷ [])
      (create_volume nothing_there manager (codes "v") (pos 1) host).1
unfolding text_eq create_volume with_retry attempts pause create_volume_once create_argv format_int
create_volume_fresh_example =
    create_volume_fresh nothing_there manager (codes "v") (pos 1) host two_delays-IsUsable
      (λ h. ground arith) refl

create_volume_existing_example :
    ((create_volume only_lvs manager (codes "v") (pos 1) host).1.ran
      ≡ exists_argv manager (codes "v") ∷ exists_argv manager (codes "v") ∷ [])
    ⊎ ((create_volume only_lvs manager (codes "v") (pos 1) host).1.ran
        ≡ exists_argv manager (codes "v")
          ∷ exists_argv manager (codes "v")
          ∷ info_argv manager (codes "v")
          ∷ [])
unfolding text_eq
create_volume_existing_example =
    create_volume_existing only_lvs manager (codes "v") (pos 1) host refl

delete_volume_cases_example :
    Deleted only_lvs manager true (codes "v") host (delete_volume only_lvs manager (codes "v") host)
unfolding text_eq
delete_volume_cases_example = delete_volume_cases only_lvs manager (codes "v") host

check_volume_iff_example :
    (check_volume
        (pos 1)
        (record { name = codes "v"; size_bytes = pos 1100000000; attributes = codes "-wi-a-----" })
      ≡ ok tt)
    ↔ ((1 * 1073741824 - 1 * 1073741824 / 20 ≤ 1100000000)
        × (1100000000 ≤ 1 * 1073741824 + 1 * 1073741824 / 20)
        × IsUsableState (get_elem? (codes "-wi-a-----") 4))
check_volume_iff_example =
    check_volume_iff 1 1100000000 (codes "v") (codes "-wi-a-----") (omega arith)
