-- ===== src/Examples/Images.antt =====
-- The cache and the downloads on concrete hosts.
use libvirt_volume_provision.Base.{◌≡◌, refl, false, Option, none, some, ℤ}
use libvirt_volume_provision.Text.{
  Text, codes, text_eq, trim_prefix, has_prefix, contains, split, join,
}
use libvirt_volume_provision.Path.{join_path, clean, clean_step, clean_elements, pop_element}
use libvirt_volume_provision.Act.{Result, ok, err}
use libvirt_volume_provision.Retry.{with_retry, attempts, pause}
use libvirt_volume_provision.Host.{Host}
use libvirt_volume_provision.Minio.{
  verify_size, download_image_to_path, Object, parse_image_url, download_image_to_path_once,
}
use libvirt_volume_provision.Minio.Downloading.{download_image_to_path_ok, Fetched}
use libvirt_volume_provision.Cache.{
  is_outside, create_cache_entry, check_cache, get_image_name_from_url, allocate_image_file,
}
use libvirt_volume_provision.Cache.Names.{same_file}
use libvirt_volume_provision.Cache.Entries.{check_cache_created}
use libvirt_volume_provision.Minio.TempFile.{download_image}
use libvirt_volume_provision.Minio.Leftovers.{IsFresh, Left, download_image_files}
use libvirt_volume_provision.Examples.Machine.{two_delays, two_delays-IsUsable, disk, host, serving}

check_cache_created_example :
    ((create_cache_entry (codes "/p/k") (codes "c0") disk).0 ≡ ok tt)
    × ((check_cache
          (codes "/p")
          (codes "c0")
          (create_cache_entry (codes "/p/k") (codes "c0") disk).1).0
        ≡ ok none)
unfolding text_eq join_path clean clean_step clean_elements pop_element split join
check_cache_created_example =
    check_cache_created (codes "/p") (codes "/p/k") (codes "c0") (codes "image") disk
      (record { makes = refl; stats = λ p. refl; writes = refl }) refl refl

same_file_example :
    (get_image_name_from_url (codes "https://s/a/k.iso")
      ≡ get_image_name_from_url (codes "https://t/b/c/k.iso"))
    × (allocate_image_file (codes "/p") (get_image_name_from_url (codes "https://s/a/k.iso")) disk
        ≡ allocate_image_file
            (codes "/p")
            (get_image_name_from_url (codes "https://t/b/c/k.iso"))
            disk)
same_file_example =
    same_file (codes "/p") (codes "https://s/a") (codes "https://t/b/c") (codes "k.iso") disk

abbrev target : Text
target = codes "/var/lib/libvirt/p/k"

download_image_to_path_ok_example :
    (o : Object) × (parse_image_url serving two_delays (codes "https://s/b/k") ≡ ok o)
    × (is_outside target ≡ false)
    × (w : Unit {0}) × (total : ℤ) × ((serving.stat_object o.bucket o.name w).0 ≡ ok total)
    × Fetched serving two_delays target o total
        (serving.stat_object o.bucket o.name w).1
        (download_image_to_path serving two_delays (codes "https://s/b/k") target host).1
unfolding download_image_to_path with_retry attempts pause download_image_to_path_once split
    trim_prefix has_prefix is_outside contains verify_size
download_image_to_path_ok_example =
    download_image_to_path_ok serving two_delays (codes "https://s/b/k") target host
      two_delays-IsUsable.waits refl

abbrev temp_path : Text
temp_path = codes "/tmp/minio-download-1"

-- The name if it is free, as os.CreateTemp would look for one.
abbrev named : Option Text → Option Text → Result Text
named none none = ok temp_path
named _ _ = err (codes "file exists")

abbrev temp_file : Host (Unit {0}) → Result Text
temp_file h = named (h.disk.files temp_path) (h.disk.remove_error temp_path)

named_ok :
    (a b : Option Text) (path : Text)
    → named a b ≡ ok path
    → (path ≡ temp_path) × (a ≡ none) × (b ≡ none)
named_ok none none path e = (cc, refl, refl)
named_ok (some c) none path e = cc
named_ok none (some f) path e = cc
named_ok (some c) (some f) path e = cc

temp_file-IsFresh : IsFresh serving two_delays temp_file
temp_file-IsFresh t path e =
    let (same, free, removable) =
      named_ok (t.disk.files temp_path) (t.disk.remove_error temp_path) path e in
    rw same (free, removable)

download_image_files_example :
    Left disk
      (download_image serving two_delays temp_file (codes "https://s/b/k") host).0
      (download_image serving two_delays temp_file (codes "https://s/b/k") host).1.disk
download_image_files_example =
    download_image_files serving two_delays temp_file (codes "https://s/b/k") host temp_file-IsFresh
      two_delays-IsUsable.waits
