-- ===== src/Minio/TempFile.antt =====
-- DownloadImage, downloadImageOnce and Cleanup of internal/minio/client.go: the download to a
-- temporary file, which every failed attempt removes. `create_temp` is os.CreateTemp.
use libvirt_volume_provision.Base.{[], ◌∷◌, ◌++◌, Option, none, some, ℤ}
use libvirt_volume_provision.Text.{Text, codes}
use libvirt_volume_provision.Act.{Result, ok, err, panicked, Act, pure, lift, wrap, ◌>>=◌, ◌>>◌}
use libvirt_volume_provision.Retry.{Config, with_retry}
use libvirt_volume_provision.Host.{System, Host, Disk, store_file, wait_host}
use libvirt_volume_provision.Cache.{remove_file}
use libvirt_volume_provision.Minio.{
  parse_image_url, stat_object, get_object, copy_loop, verify_size,
}

module _ {W : Type 0} where
  abbrev pub removed : {A : Type 0} → Text → Result A × Host W → Result A × Host W
  removed path (ok a, t) = (ok a, t)
  removed path (err e, t) = (err e, record t { disk = remove_file path t.disk })
  removed path (panicked, t) = (panicked, t)

  -- `_ = os.Remove(tempPath)` in each error branch.
  abbrev pub removing : {A : Type 0} → Text → Act (Host W) A → Act (Host W) A
  removing path m h = removed path (m h)

module _ {W : Type 0} (sys : System W) (retry_config : Config)
    (create_temp : Host W → Result Text) where
  abbrev pub fresh_file : Result Text → Act (Host W) Text
  fresh_file (ok path) h = (ok path, record h { disk = store_file path (some []) h.disk })
  fresh_file (err e) h = (err (codes "failed to create temp file: " ++ e), h)
  fresh_file panicked h = (panicked, h)

  -- downloadImageOnce
  unfoldable pub download_image_once : Text → Act (Host W) Text
  unfolding parse_image_url stat_object get_object copy_loop verify_size remove_file
  download_image_once url = do
    object ← lift (parse_image_url sys retry_config url)
    path ← λ h. fresh_file (create_temp h) h
    removing path (do
      total ← wrap (codes "failed to stat object: ") (stat_object sys retry_config object)
      reads ← wrap (codes "failed to get object: ") (get_object sys retry_config object)
      downloaded ←
          copy_loop sys retry_config path (codes "failed to write to temp file: ") total 0 0 reads
      lift (verify_size sys retry_config total downloaded))
    pure path

  -- The closure assigns `tempPath` in every attempt: the state carries it.
  abbrev pub kept_path : Result Text × Host W → Result (Unit {0}) × (Host W × Text)
  kept_path (ok path, h) = (ok tt, (h, path))
  kept_path (err e, h) = (err e, (h, []))
  kept_path (panicked, h) = (panicked, (h, []))

  abbrev pub wait_pair : ℤ → Host W × Text → Option Text × (Host W × Text)
  wait_pair d (h, path) = let (o, h') = wait_host sys d h in (o, (h', path))

  abbrev pub result_path : Result (Unit {0}) × (Host W × Text) → Result Text × Host W
  result_path (ok u, (h, path)) = (ok path, h)
  result_path (err e, (h, path)) = (err e, h)
  result_path (panicked, (h, path)) = (panicked, h)

  -- The closure that is retried.
  abbrev pub try_once : Text → Host W × Text → Result (Unit {0}) × (Host W × Text)
  try_once url s = kept_path (download_image_once url s.0)

  -- DownloadImage
  unfoldable pub download_image : Text → Act (Host W) Text
  download_image url =
      wrap (codes "failed to download image from " ++ url ++ codes " after retries: ")
        λ h. result_path (with_retry wait_pair (try_once url) retry_config (h, []))

  -- Cleanup
  unfoldable pub cleanup : Text → Disk → Result (Unit {0}) × Disk
  unfolding remove_file
  cleanup [] d = (ok tt, d)
  cleanup (c ∷ path) d = elim (d.remove_error (c ∷ path)) [
    | some e ↦ (err (codes "failed to cleanup temp file: " ++ e), d)
    | none ↦ elim (d.files (c ∷ path)) [
      | some content ↦ (ok tt, remove_file (c ∷ path) d)
      | none ↦ (err (codes "failed to cleanup temp file: "), d)
    ]
  ]
