-- ===== src/Lvm/Setup.antt =====
-- NewManager of internal/lvm/manager.go. The environment, the search path and the programs are
-- parameters.
use libvirt_volume_provision.Base.{
  List, [], ◌∷◌, ◌++◌, Option, none, some, false, arith, ◌≡◌, if◌then◌else◌,
}
use libvirt_volume_provision.Text.{Text, codes, contains_any, or_text}
use libvirt_volume_provision.Act.{ok, err, Act, pure, fail, ◌>>◌}
use libvirt_volume_provision.Host.{CmdResult}
use libvirt_volume_provision.Retry.Settings.{
  parse_lvm_retry_config, IsUsable, parse_lvm_retry_config-IsUsable,
}
use libvirt_volume_provision.Volume.{Manager}

module _ {W : Type 0} (exec : List Text → W → CmdResult × W) (getenv : Text → Text)
    (look_path : Text → Option Text) where
  -- if vgName == "" { ... }
  unfoldable pub group_name : Text → Text
  group_name vg = or_text vg (or_text (getenv (codes "LVM_VOLUME_GROUP")) (codes "vg0"))

  abbrev pub require_program : Text → Act W (Unit {0})
  require_program name s = elim (look_path name) [
    | none ↦ (ok tt, s)
    | some e ↦ (err (name ++ codes " command not found: " ++ e), s)
  ]

  abbrev pub require_group : Text → Act W (Unit {0})
  require_group vg s =
      let (r, s') = exec (codes "vgs" ∷ vg ∷ []) s in
      if r.success then (ok tt, s') else (
        err (
            codes "volume group '"
            ++ vg
            ++ codes "' does not exist or is not accessible: "
            ++ r.error),
        s',
      )

  -- NewManager
  unfoldable pub new_manager : Text → Act W Manager
  unfolding group_name
  new_manager vg =
      if contains_any (group_name vg) (codes "/\\")
      then fail (
          codes "invalid volume group name '"
          ++ group_name vg
          ++ codes "': must not contain path separators")
      else (do
        require_group (group_name vg)
        require_program (codes "lvcreate")
        require_program (codes "qemu-img")
        pure (record {
          vg_name = group_name vg;
          retry_config =
              parse_lvm_retry_config (getenv (codes "LVM_RETRY_ATTEMPTS"))
                (getenv (codes "LVM_RETRY_BACKOFF_MS"));
        }))

  -- A manager that was made has a group name with no path separator, and its retry configuration is
  -- the parse of the two environment variables.
  new_manager_fields :
      (vg : Text) (w : W) (m : Manager)
      → (new_manager vg w).0 ≡ ok m
      → (contains_any m.vg_name (codes "/\\") ≡ false)
        × (m.retry_config
            ≡ parse_lvm_retry_config
                (getenv (codes "LVM_RETRY_ATTEMPTS"))
                (getenv (codes "LVM_RETRY_BACKOFF_MS")))
  unfolding new_manager
  new_manager_fields vg w m h = ground arith

  -- A manager that was made has a group name with no path separator and a usable retry
  -- configuration.
  pub new_manager-IsUsable :
      (vg : Text) (w : W) (m : Manager)
      → (new_manager vg w).0 ≡ ok m
      → (contains_any m.vg_name (codes "/\\") ≡ false) × IsUsable m.retry_config
  new_manager-IsUsable vg w m h =
      let (safe, e) = new_manager_fields vg w m h in
      (safe, rw e (parse_lvm_retry_config-IsUsable _ _))
