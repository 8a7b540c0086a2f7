-- ===== src/Lvm.antt =====
-- internal/lvm/manager.go: volumes are made, filled, inspected and removed by command lines.
pub mod Setup
pub mod Success
pub mod Commands
pub mod Reuse
use libvirt_volume_provision.Base.{
  ℕ, ◌+◌, List, [], ◌∷◌, ◌++◌, Bool, not, ◌&&◌, ◌||◌, Option, none, some, ℤ, pos, ◌+ℤ◌, ◌-ℤ◌, ◌*ℤ◌,
  ◌==◌, if◌then◌else◌,
}
use libvirt_volume_provision.Text.{Text, codes, trim_space, split}
use libvirt_volume_provision.Act.{Act, pure, fail, lift, wrap, ◌>>=◌, ◌>>◌}
use libvirt_volume_provision.Types.{whole}
use libvirt_volume_provision.Retry.{with_retry}
use libvirt_volume_provision.Host.{System, Host, CmdResult, run, wait_host, report}
use libvirt_volume_provision.Volume.{
  Manager, VolumeInfo, device_path, exists_argv, info_argv, create_argv, remove_argv, test_argv,
  list_argv, populate_argv, command_error, parse_info, check_volume, non_empty, trim_all,
}

module _ {W : Type 0} (sys : System W) (m : Manager) where
  -- volumeExists
  unfoldable pub volume_exists : Text → Act (Host W) Bool
  unfolding run
  volume_exists volume = do r ← run sys (exists_argv m volume); pure r.success

  -- if err != nil { return ... } after a command
  unfoldable pub checked : Text → CmdResult → Act (Host W) CmdResult
  unfolding command_error
  checked what r = if r.success then pure r else fail (command_error what r)

  -- GetVolumeInfo
  unfoldable pub get_volume_info : Text → Act (Host W) VolumeInfo
  unfolding volume_exists checked run
  get_volume_info volume = do
    found ← volume_exists volume
    if found
        then (do
          r ← run sys (info_argv m volume)
          r' ← checked (codes "failed to get volume info: ") r
          lift (parse_info r'.output))
        else fail (codes "volume " ++ volume ++ codes " does not exist")

  -- validateExistingVolume
  unfoldable pub validate_existing_volume : Text → ℤ → Act (Host W) Unit
  unfolding get_volume_info
  validate_existing_volume volume size_gb = do
    info ← wrap (codes "failed to get volume info: ") (get_volume_info volume)
    lift (check_volume size_gb info)

  -- createVolumeOnce
  unfoldable pub create_volume_once : Text → ℤ → Act (Host W) Unit
  unfolding checked run
  create_volume_once volume size_gb = do
    r ← run sys (create_argv m volume size_gb)
    r' ← checked (codes "failed to create LVM volume: ") r
    pure tt

  -- CreateVolume
  unfoldable pub create_volume : Text → ℤ → Act (Host W) Unit
  unfolding volume_exists validate_existing_volume
  create_volume volume size_gb = do
    found ← volume_exists volume
    if found
        then wrap (codes "existing volume " ++ volume ++ codes " is incompatible: ")
            (validate_existing_volume volume size_gb)
        else wrap (codes "failed to create volume " ++ volume ++ codes " after retries: ")
            (with_retry (wait_host sys) (create_volume_once volume size_gb) m.retry_config)

  abbrev pub populate_with : Option (List Text) → Text → Act (Host W) Unit
  populate_with none image_type = fail (codes "unsupported image type: " ++ image_type)
  populate_with (some argv) image_type = do
    r ← run sys argv
    r' ← checked (codes "failed to populate LVM volume: ") r
    report sys (codes "converting") (whole 90) (pos 0) (pos 0)

  -- populateVolumeOnce, the updater being the job
  unfoldable pub populate_volume_once : Text → Text → Text → Act (Host W) Unit
  unfolding run checked report
  populate_volume_once image volume image_type = do
    r ← run sys (test_argv m volume)
    if r.success
        then populate_with (populate_argv m image volume image_type) image_type
        else fail (codes "LVM volume device does not exist: " ++ device_path m volume)

  -- PopulateVolume
  unfoldable pub populate_volume : Text → Text → Text → Act (Host W) Unit
  populate_volume image volume image_type =
      wrap (codes "failed to populate volume " ++ volume ++ codes " after retries: ")
        (with_retry (wait_host sys) (populate_volume_once image volume image_type) m.retry_config)

  -- DeleteVolume
  unfoldable pub delete_volume : Text → Act (Host W) Unit
  unfolding volume_exists checked run
  delete_volume volume = do
    found ← volume_exists volume
    if found
        then (do
          r ← run sys (remove_argv m volume)
          r' ← checked (codes "failed to delete LVM volume: ") r
          pure tt)
        else fail (codes "volume " ++ volume ++ codes " does not exist")

  -- ListVolumes
  unfoldable pub list_volumes : Act (Host W) (List Text)
  unfolding checked run
  list_volumes = do
    r ← run sys (list_argv m)
    r' ← checked (codes "failed to list volumes: ") r
    pure (non_empty (trim_all (split (trim_space r'.output) b'\n')))
