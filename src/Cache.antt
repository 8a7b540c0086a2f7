-- ===== src/Cache.antt =====
-- internal/libvirt/pool.go: the image cache in the directory of the storage pool. The operating
-- system's answers are those of a `Disk`; log messages are left out.
pub mod Handles
pub mod Allocating
pub mod Connecting
pub mod Entries
pub mod Names
pub mod Pool
use libvirt_volume_provision.Base.{
  ℕ, List, [], ◌∷◌, ◌++◌, Bool, not, ◌||◌, Option, none, some, length, if◌then◌else◌,
}
use libvirt_volume_provision.Text.{
  Text, codes, has_prefix, trim_suffix, contains, split, replace_all,
}
use libvirt_volume_provision.Path.{ext, join_path}
use libvirt_volume_provision.Act.{Result, ok, err, panicked, Act, pure, ◌>>◌}
use libvirt_volume_provision.Host.{Disk, store_file}

pub record ImageCache : Type 0 where
  pub path : Text
  pub size : ℕ
  pub checksum : Text

-- fmt.Sprintf("/var/lib/libvirt/%s", poolName)
unfoldable pub pool_path : Text → Text
pool_path pool_name = codes "/var/lib/libvirt/" ++ pool_name

-- os.MkdirAll(pm.poolPath, 0o750)
abbrev pub make_dir : Text → Act Disk (Unit {0})
make_dir what d = elim d.mkdir_error [ none ↦ (ok tt, d) | some e ↦ (err (what ++ e), d) ]

-- AllocateImageFile
unfoldable pub allocate_image_file : Text → Text → Act Disk Text
allocate_image_file pool image_name = do
  make_dir (codes "failed to create cache directory: ")
  pure (join_path pool image_name)

-- os.Stat: the size, `none` if the file does not exist, or another error.
unfoldable pub stat : Disk → Text → Result (Option ℕ)
stat d path = elim (d.stat_error path) [
  | some e ↦ err e
  | none ↦ elim (d.files path) [ none ↦ ok none | some content ↦ ok (some (length content)) ]
]

abbrev pub checksum_file : Text → Text → Text
checksum_file pool checksum = join_path pool (checksum ++ codes ".sha256")

abbrev pub image_found : Text → Text → Result (Option ℕ) → Result (Option ImageCache)
image_found path checksum (ok none) = ok none
image_found path checksum (ok (some size)) =
    ok (some (record { path = path; size = size; checksum = checksum }))
image_found path checksum (err e) = err (codes "failed to stat image file: " ++ e)
image_found path checksum panicked = panicked

abbrev pub checksum_found : Disk → Text → Text → Result (Option ℕ) → Result (Option ImageCache)
checksum_found d file checksum (ok none) = ok none
checksum_found d file checksum (ok (some size)) =
    let path = trim_suffix file (codes ".sha256") in image_found path checksum (stat d path)
checksum_found d file checksum (err e) = err (codes "failed to check checksum file: " ++ e)
checksum_found d file checksum panicked = panicked

-- CheckCache: `ok none` stands for "not cached".
unfoldable pub check_cache : Text → Text → Act Disk (Option ImageCache)
unfolding stat
check_cache pool checksum = do
  make_dir (codes "failed to access cache directory: ")
  λ d. (
    checksum_found d (checksum_file pool checksum) checksum (stat d (checksum_file pool checksum)),
    d,
  )

-- CreateCacheEntry
unfoldable pub create_cache_entry : Text → Text → Act Disk (Unit {0})
create_cache_entry image_path checksum d =
    let file = image_path ++ codes ".sha256" in
    elim (d.write_fault file) [
      | none ↦ (ok tt, store_file file (some checksum) d)
      | some fault ↦
          (err (codes "failed to write checksum file: " ++ fault.0), store_file file fault.1 d)
    ]

-- os.Remove
unfoldable pub remove_file : Text → Disk → Disk
remove_file path d = elim (d.remove_error path) [ none ↦ store_file path none d | some e ↦ d ]

-- DeleteImage: errors are only logged.
unfoldable pub delete_image : Text → Act Disk (Unit {0})
unfolding remove_file
delete_image image_path d =
    (ok tt, remove_file (image_path ++ codes ".sha256") (remove_file image_path d))

-- The paths that CalculateChecksum and the download refuse.
unfoldable pub is_outside : Text → Bool
is_outside path = contains path (codes "..") || not (has_prefix path (codes "/var/lib/libvirt/"))

-- CalculateChecksum: `sha256_hex` is the hash in hexadecimal digits.
unfoldable pub calculate_checksum : (Text → Text) → Text → Disk → Result Text
unfolding is_outside
calculate_checksum sha256_hex path d =
    if is_outside path then err (codes "invalid file path: " ++ path) else elim (d.files path) [
      | none ↦ err (codes "failed to open file for checksum: ")
      | some content ↦ ok (sha256_hex content)
    ]

abbrev pub last_part : List Text → Text
last_part [] = []
last_part (p ∷ []) = p
last_part (p ∷ q ∷ ps) = last_part (q ∷ ps)

-- GetImageNameFromURL
unfoldable pub get_image_name_from_url : Text → Text
get_image_name_from_url url =
    let filename = last_part (split url b'/') in
    let name = trim_suffix filename (ext filename) in
    replace_all (replace_all name b'-' b'_') b'.' b'_'
