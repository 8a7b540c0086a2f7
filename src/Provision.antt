-- ===== src/Provision.antt =====
-- ProvisionVolume, getOrDownloadImage and getImageChecksum of internal/jobs/manager.go: the body of
-- a job, over the host that it runs on.
pub mod Images
pub mod Rollback
pub mod Whole
use libvirt_volume_provision.Base.{
  ℕ, [], ◌∷◌, ◌++◌, true, false, Option, none, some, pos, ◌==◌, length, if◌then◌else◌,
}
use libvirt_volume_provision.Text.{Text, codes, trim_space}
use libvirt_volume_provision.Text.Number.{format_int}
use libvirt_volume_provision.Act.{
  Result, ok, err, panicked, Act, pure, fail, lift, gets, wrap, ◌>>=◌, ◌>>◌,
}
use libvirt_volume_provision.Types.{ProvisionRequest, whole}
use libvirt_volume_provision.Job.{Job}
use libvirt_volume_provision.Retry.{Config}
use libvirt_volume_provision.Host.{System, Host, Disk}
use libvirt_volume_provision.Lvm.{create_volume, populate_volume, delete_volume}
use libvirt_volume_provision.Volume.{Manager}
use libvirt_volume_provision.Cache.{
  ImageCache, allocate_image_file, check_cache, create_cache_entry, delete_image,
  calculate_checksum, get_image_name_from_url,
}
use libvirt_volume_provision.Minio.{
  Object, parse_image_url, get_object_content, download_image_to_path,
}

-- The components that a job manager is made of, and the hash of crypto/sha256.
pub record Parts (W : Type 0) : Type 0 where
  pub sys : System W
  pub minio_retry : Config
  pub lvm : Manager
  pub pool : Text
  pub sha256_hex : Text → Text

module _ {W : Type 0} (p : Parts W) where
  abbrev pub on_job : (Job → Job) → Act (Host W) (Unit {0})
  on_job f h = (ok tt, record h { job = f h.job })

  -- job.Progress.Stage and job.Progress.Percent are set; a nil Progress would panic.
  abbrev pub staged : Text → ℕ → Job → Result (Unit {0}) × Job
  staged stage percent j = elim j.progress [
    | none ↦ (panicked, j)
    | some info ↦ (
      ok tt,
      record j { progress = some (record info { stage = stage; percent = whole percent }) },
    )
  ]

  unfoldable pub set_stage : Text → ℕ → Act (Host W) (Unit {0})
  set_stage stage percent h = let (r, j) = staged stage percent h.job in (r, record h { job = j })

  -- job.Progress = &types.ProgressInfo{Stage: "initializing", Percent: 0}
  abbrev pub initialized : Job → Job
  initialized j = record j {
    progress = some (record {
      stage = codes "initializing";
      percent = whole 0;
      bytes_processed = pos 0;
      bytes_total = pos 0;
    });
  }

  -- An action on the files alone.
  abbrev pub on_disk : {A : Type 0} → Act Disk A → Act (Host W) A
  on_disk m h = let (r, d) = m h.disk in (r, record h { disk = d })

  unfoldable pub validate_checksum : Text → Result Text
  validate_checksum checksum =
      if length checksum == 64
      then ok checksum
      else err (
          codes "invalid checksum format: expected 64 characters, got "
          ++ format_int (pos (length checksum)))

  abbrev pub checksum_object : Object → Object
  checksum_object o = record o { name = o.name ++ codes ".sha256" }

  -- getImageChecksum
  unfoldable pub get_image_checksum : Text → Act (Host W) Text
  unfolding parse_image_url get_object_content validate_checksum
  get_image_checksum url = do
    object ← lift (parse_image_url p.sys p.minio_retry url)
    content ←
        wrap (codes "checksum file not found or unreadable: ")
          (get_object_content p.sys p.minio_retry (checksum_object object))
    lift (validate_checksum (trim_space content))

  -- An error is logged, and its fallback taken.
  abbrev pub or_else : {A : Type 0} → Result A → A → Act (Host W) A
  or_else (ok a) d = pure a
  or_else (err e) d = pure d
  or_else panicked d = lift panicked

  abbrev pub catch : {A : Type 0} → A → Act (Host W) A → Act (Host W) A
  catch d m h = let (r, h') = m h in or_else r d h'

  -- The download failed: the file and its checksum are removed.
  abbrev pub cleaned : Text → Result (Unit {0}) → Act (Host W) (Unit {0})
  cleaned path (ok u) = pure tt
  cleaned path (err e) = do
    on_disk (delete_image path)
    fail (codes "failed to download image: " ++ e)
  cleaned path panicked = lift panicked

  -- The checksum that the entry is made with: computed from the file if there is none.
  unfoldable pub entry_checksum : Text → Text → Text → Disk → Text
  entry_checksum url path (c ∷ checksum) d = c ∷ checksum
  entry_checksum url path [] d = elim (calculate_checksum p.sha256_hex path d) [
    | ok checksum ↦ checksum
    | err e ↦ url
    | panicked ↦ url
  ]

  -- getOrDownloadImage behind a cache miss.
  unfoldable pub download_and_cache : Text → Text → Act (Host W) Text
  unfolding entry_checksum
  download_and_cache url checksum = do
    path ←
        wrap (codes "failed to allocate cache file: ")
          (on_disk (allocate_image_file p.pool (get_image_name_from_url url)))
    set_stage (codes "downloading") 10
    (λ h. let (r, h') = download_image_to_path p.sys p.minio_retry url path h in cleaned path r h')
    key ← gets (λ h. entry_checksum url path checksum h.disk)
    catch tt (on_disk (create_cache_entry path key))
    on_job (λ j. record j { cache_hit = false; image_path = path })
    pure path

  abbrev pub use_cached : Text → Text → Option ImageCache → Act (Host W) Text
  use_cached url checksum (some image) = do
    on_job (λ j. record j { cache_hit = true; image_path = image.path })
    pure image.path
  use_cached url checksum none = download_and_cache url checksum

  -- getOrDownloadImage
  unfoldable pub get_or_download_image : Text → Act (Host W) Text
  unfolding get_image_checksum check_cache download_and_cache
  get_or_download_image url = do
    checksum ← catch url (get_image_checksum url)
    cached ← catch none (on_disk (check_cache p.pool checksum))
    use_cached url checksum cached

  -- The deferred rollback, which runs when PopulateVolume has failed.
  abbrev pub rolled_back : Text → Result (Unit {0}) → Act (Host W) (Unit {0})
  rolled_back volume (ok u) = pure tt
  rolled_back volume (err e) =
      on_job (λ j. record j { error = some (codes "provision failed + rollback failed: " ++ e) })
  rolled_back volume panicked = lift panicked

  abbrev pub rollback : Text → Act (Host W) (Unit {0})
  rollback volume h = let (r, h') = delete_volume p.sys p.lvm volume h in rolled_back volume r h'

  abbrev pub populated : Text → Result (Unit {0}) → Act (Host W) (Unit {0})
  populated volume (ok u) = set_stage (codes "finalizing") 100
  populated volume (err e) = do rollback volume; fail (codes "failed to populate volume: " ++ e)
  populated volume panicked = lift panicked

  -- Steps 3 and 4, with the deferred rollback.
  unfoldable pub fill_volume : ProvisionRequest → Text → Act (Host W) (Unit {0})
  fill_volume req image = do
    set_stage (codes "converting") 75
    λ h.
        let (r, h') = populate_volume p.sys p.lvm image req.volume_name req.image_type h in
        populated req.volume_name r h'

  -- ProvisionVolume
  unfoldable pub provision_volume : ProvisionRequest → Act (Host W) (Unit {0})
  unfolding set_stage fill_volume
  provision_volume req = do
    on_job initialized
    set_stage (codes "checking_cache") 5
    image ← wrap (codes "failed to get image: ") (get_or_download_image req.image_url)
    set_stage (codes "creating_volume") 50
    wrap (codes "failed to create volume: ")
        (create_volume p.sys p.lvm req.volume_name req.volume_size_gb)
    fill_volume req image
