-- ===== src/Minio.antt =====
-- internal/minio/client.go: the download of an image with its copy loop, and the other requests.
-- The server is a parameter.
pub mod Setup
pub mod TempFile
pub mod Copying
pub mod Keeping
pub mod Leftovers
pub mod Downloading
use libvirt_volume_provision.Base.{
  ℕ, zero, suc, ◌+◌, ◌*◌, List, [], ◌∷◌, ◌++◌, not, ◌&&◌, ◌||◌, Option, none, some, ℤ, pos, negsuc,
  pos_part, neg_part, ◌==◌, length, if◌then◌else◌,
}
use libvirt_volume_provision.Text.{Text, codes, trim_prefix, split, join}
use libvirt_volume_provision.Text.Number.{format_int}
use libvirt_volume_provision.Act.{
  Result, ok, err, panicked, Act, pure, fail, lift, wrap, ◌>>=◌, ◌>>◌,
}
use libvirt_volume_provision.Types.{Percent}
use libvirt_volume_provision.Retry.{Config, with_retry}
use libvirt_volume_provision.Host.{
  Url, Reads, chunk, eof, broken, System, Host, store_file, wait_host, report,
}
use libvirt_volume_provision.Cache.{is_outside}

pub record Object : Type 0 where
  pub bucket : Text
  pub name : Text

abbrev pub object_of_parts : Text → List Text → Result Object
object_of_parts path (bucket ∷ part ∷ parts) =
    ok (record { bucket = bucket; name = join (part ∷ parts) b'/' })
object_of_parts path _ = err (codes "invalid image URL path: " ++ path)

abbrev pub object_of_url : Result Url → Result Object
object_of_url (ok u) = object_of_parts u.path (split (trim_prefix u.path (codes "/")) b'/')
object_of_url (err e) = err (codes "invalid image URL: " ++ e)
object_of_url panicked = panicked

-- float64(downloaded) / float64(totalSize) * 30 + 10
unfoldable pub download_percent : ℕ → ℕ → Percent
download_percent downloaded total = record { num = 10 * total + 30 * downloaded; den = total }

module _ {W : Type 0} (sys : System W) (retry_config : Config) where
  -- The bucket and the object that an image URL names.
  unfoldable pub parse_image_url : Text → Result Object
  parse_image_url url = object_of_url (sys.parse_url url)

  unfoldable pub stat_object : Object → Act (Host W) ℤ
  stat_object o h =
      let (r, w) = sys.stat_object o.bucket o.name h.world in (r, record h { world = w })

  unfoldable pub get_object : Object → Act (Host W) Reads
  get_object o h =
      let (r, w) = sys.get_object o.bucket o.name h.world in (r, record h { world = w })

  -- os.Create: the file is empty afterwards.
  unfoldable pub create_file : Text → Act (Host W) (Unit {0})
  create_file path h = elim (h.disk.create_error path) [
    | none ↦ (ok tt, record h { disk = store_file path (some []) h.disk })
    | some e ↦ (err e, h)
  ]

  abbrev pub content_of : Option Text → Text
  content_of none = []
  content_of (some content) = content

  unfoldable pub append_file : Text → Text → Host W → Host W
  append_file path bytes h = record h {
    disk = store_file path (some (content_of (h.disk.files path) ++ bytes)) h.disk;
  }

  -- if updater != nil && totalSize > 0 { ... }
  unfoldable pub report_download : ℤ → ℕ → Host W → Host W
  unfolding report download_percent
  report_download (pos zero) downloaded h = h
  report_download (pos (suc t)) downloaded h =
      (report sys (codes "downloading") (download_percent downloaded (suc t)) (pos downloaded)
        (pos (suc t)) h).1
  report_download (negsuc t) downloaded h = h

  -- The part of a round that stands under `if n > 0`: the new count, or the error of the write.
  unfoldable pub take_bytes : Text → ℕ → ℤ → ℕ → Text → Act (Host W) ℕ
  unfolding append_file report_download
  take_bytes path round total downloaded [] h = (ok downloaded, h)
  take_bytes path round total downloaded (b ∷ bytes) h = elim (sys.write_error h.world round) [
    | none ↦ (
      ok (downloaded + length (b ∷ bytes)),
      report_download total (downloaded + length (b ∷ bytes)) (append_file path (b ∷ bytes) h),
    )
    | some fault ↦ (err fault.0, append_file path fault.1 h)
  ]

  abbrev pub cancelled_or : Option Text → Act (Host W) ℕ → Act (Host W) ℕ
  cancelled_or none k = k
  cancelled_or (some e) k = fail (codes "context cancelled: " ++ e)

  -- The copy loop; `what` names the file in the message of a failed write.
  unfoldable pub copy_loop : Text → Text → ℤ → ℕ → ℕ → Reads → Act (Host W) ℕ
  unfolding take_bytes
  copy_loop path what total round downloaded (chunk bytes rest) h =
      cancelled_or (sys.ctx_done h.world round)
        (do
          n ← wrap what (take_bytes path round total downloaded bytes)
          copy_loop path what total (suc round) n rest)
        h
  copy_loop path what total round downloaded (eof bytes) h =
      cancelled_or (sys.ctx_done h.world round)
        (wrap what (take_bytes path round total downloaded bytes)) h
  copy_loop path what total round downloaded (broken bytes e) h =
      cancelled_or (sys.ctx_done h.world round)
        (do
          n ← wrap what (take_bytes path round total downloaded bytes)
          fail (codes "failed to read from MinIO: " ++ e))
        h

  -- if downloaded != totalSize
  unfoldable pub verify_size : ℤ → ℕ → Result (Unit {0})
  verify_size total downloaded =
      if pos_part total == downloaded && neg_part total == 0
      then ok tt
      else err (
          codes "download incomplete: got "
          ++ format_int (pos downloaded)
          ++ codes " bytes, expected "
          ++ format_int total)

  -- downloadImageToPathOnce
  unfoldable pub download_image_to_path_once : Text → Text → Act (Host W) (Unit {0})
  unfolding parse_image_url stat_object get_object create_file copy_loop
  download_image_to_path_once url path = do
    object ← lift (parse_image_url url)
    total ← wrap (codes "failed to stat object: ") (stat_object object)
    if is_outside path then fail (codes "invalid destination path: " ++ path) else (do
      wrap (codes "failed to create destination file: ") (create_file path)
      reads ← wrap (codes "failed to get object: ") (get_object object)
      downloaded ← copy_loop path (codes "failed to write to destination file: ") total 0 0 reads
      lift (verify_size total downloaded))

  -- DownloadImageToPath
  unfoldable pub download_image_to_path : Text → Text → Act (Host W) (Unit {0})
  download_image_to_path url path =
      wrap
        (codes "failed to download image from "
          ++ url
          ++ codes " to "
          ++ path
          ++ codes " after retries: ")
        (with_retry (wait_host sys) (download_image_to_path_once url path) retry_config)

  -- ioutil-style reading of a whole object.
  unfoldable pub drain : Text → Reads → Result Text
  drain out (chunk bytes rest) = drain (out ++ bytes) rest
  drain out (eof bytes) = ok (out ++ bytes)
  drain out (broken bytes e) = err (codes "failed to read MinIO object content: " ++ e)

  -- GetObjectContent
  unfoldable pub get_object_content : Object → Act (Host W) Text
  unfolding get_object drain
  get_object_content o = do
    reads ← wrap (codes "failed to get MinIO object: ") (get_object o)
    lift (drain [] reads)

  -- StatObject
  unfoldable pub stat_minio_object : Object → Act (Host W) ℤ
  unfolding stat_object
  stat_minio_object o = wrap (codes "failed to stat MinIO object: ") (stat_object o)

  -- ValidateImageURL
  unfoldable pub validate_image_url : Text → Act (Host W) (Unit {0})
  unfolding parse_image_url stat_object
  validate_image_url url = do
    object ← lift (parse_image_url url)
    wrap (codes "image not accessible: ") (stat_object object)
    pure tt
