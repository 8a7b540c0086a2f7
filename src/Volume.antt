-- ===== src/Volume.antt =====
-- What internal/lvm/manager.go does without running a program: the command lines, the parsing of the output of lvs, and the check of an existing volume.
use libvirt_volume_provision.Base.{
  ℕ, List, [], ◌∷◌, ◌++◌, not, ◌&&◌, Option, none, some, ℤ, pos, ◌+ℤ◌, ◌-ℤ◌, ◌*ℤ◌, quot, wrap64,
  ltb_ℤ, ◌==◌, get_elem?, if◌then◌else◌,
}
use libvirt_volume_provision.Text.{Text, codes, text_eq, trim_suffix, trim_space, fields}
use libvirt_volume_provision.Text.Number.{format_int, parse_int}
use libvirt_volume_provision.Act.{Result, ok, err, panicked}
use libvirt_volume_provision.Retry.{Config}
use libvirt_volume_provision.Host.{CmdResult}

pub record Manager : Type 0 where
  pub vg_name : Text
  pub retry_config : Config

pub record VolumeInfo : Type 0 where
  pub name : Text
  pub size_bytes : ℤ
  pub attributes : Text

-- fmt.Sprintf("%s/%s", m.vgName, volumeName)
unfoldable pub full_path : Manager → Text → Text
full_path m volume = m.vg_name ++ b'/' ∷ volume

unfoldable pub device_path : Manager → Text → Text
device_path m volume = codes "/dev/" ++ m.vg_name ++ b'/' ∷ volume

-- The command lines.
abbrev pub exists_argv : Manager → Text → List Text
exists_argv m volume = codes "lvs" ∷ full_path m volume ∷ []

unfoldable pub info_argv : Manager → Text → List Text
info_argv m volume =
    codes "lvs"
    ∷ codes "--units"
    ∷ codes "b"
    ∷ codes "--noheadings"
    ∷ codes "-o"
    ∷ codes "lv_name,lv_size,lv_attr"
    ∷ full_path m volume
    ∷ []

unfoldable pub create_argv : Manager → Text → ℤ → List Text
create_argv m volume size_gb =
    codes "lvcreate"
    ∷ codes "-L"
    ∷ (format_int size_gb ++ codes "G")
    ∷ codes "-n"
    ∷ volume
    ∷ m.vg_name
    ∷ []

unfoldable pub remove_argv : Manager → Text → List Text
remove_argv m volume = codes "lvremove" ∷ codes "-f" ∷ full_path m volume ∷ []

unfoldable pub test_argv : Manager → Text → List Text
test_argv m volume = codes "test" ∷ codes "-b" ∷ device_path m volume ∷ []

unfoldable pub convert_argv : Text → Text → List Text
convert_argv image device =
    codes "qemu-img"
    ∷ codes "convert"
    ∷ codes "-f"
    ∷ codes "qcow2"
    ∷ codes "-O"
    ∷ codes "raw"
    ∷ image
    ∷ device
    ∷ []

unfoldable pub copy_argv : Text → Text → List Text
copy_argv image device =
    codes "dd"
    ∷ (codes "if=" ++ image)
    ∷ (codes "of=" ++ device)
    ∷ codes "bs=4M"
    ∷ codes "status=progress"
    ∷ codes "conv=fdatasync"
    ∷ []

unfoldable pub list_argv : Manager → List Text
list_argv m = codes "lvs" ∷ codes "--noheadings" ∷ codes "-o" ∷ codes "lv_name" ∷ m.vg_name ∷ []

-- The `switch` on the image type; `none` is its default.
unfoldable pub populate_argv : Manager → Text → Text → Text → Option (List Text)
populate_argv m image volume image_type =
    if text_eq image_type (codes "qcow2")
    then some (convert_argv image (device_path m volume))
    else if text_eq image_type (codes "raw")
    then some (copy_argv image (device_path m volume))
    else none

-- fmt.Errorf("...: %w, output: %s", err, output)
unfoldable pub command_error : Text → CmdResult → Text
command_error what r = what ++ r.error ++ codes ", output: " ++ r.output

-- The output of `lvs` as name, size and attributes. The text of strconv's error is left out.
abbrev pub volume_info : Option ℤ → Text → Text → Result VolumeInfo
volume_info none name attributes = err (codes "failed to parse volume size: ")
volume_info (some size) name attributes =
    ok (record { name = name; size_bytes = size; attributes = attributes })

abbrev pub info_of_fields : List Text → Result VolumeInfo
info_of_fields (name ∷ size ∷ attributes ∷ rest) =
    volume_info (parse_int (trim_suffix size (codes "B"))) name attributes
info_of_fields _ = err (codes "unexpected lvs output format")

unfoldable pub parse_info : Text → Result VolumeInfo
parse_info output = info_of_fields (fields (trim_space output))

-- `int64(requiredSizeGB) * 1024 * 1024 * 1024`, every product wrapped around.
unfoldable pub size_in_bytes : ℤ → ℤ
size_in_bytes gb = wrap64 (wrap64 (wrap64 (gb *ℤ pos 1024) *ℤ pos 1024) *ℤ pos 1024)

unfoldable pub size_tolerance : ℤ → ℤ
size_tolerance bytes = quot bytes 20

unfoldable pub min_size : ℤ → ℤ
min_size bytes = wrap64 (bytes -ℤ size_tolerance bytes)

unfoldable pub max_size : ℤ → ℤ
max_size bytes = wrap64 (bytes +ℤ size_tolerance bytes)

-- info.Attributes[4]: with fewer than five bytes the program panics.
abbrev pub check_state : Option ℕ → Result (Unit {0})
check_state none = panicked
check_state (some c) =
    if not (c == b'a') && not (c == b'-')
    then err (codes "volume state '" ++ c ∷ codes "' not suitable for reuse")
    else ok tt

-- validateExistingVolume, once the information is there.
unfoldable pub check_volume : ℤ → VolumeInfo → Result (Unit {0})
check_volume required_gb info =
    let required = size_in_bytes required_gb in
    if ltb_ℤ info.size_bytes (min_size required)
    then err (
        codes "existing volume size "
        ++ format_int info.size_bytes
        ++ codes " bytes too small, need at least "
        ++ format_int (min_size required)
        ++ codes " bytes")
    else if ltb_ℤ (max_size required) info.size_bytes
    then err (
        codes "existing volume size "
        ++ format_int info.size_bytes
        ++ codes " bytes too large, maximum allowed "
        ++ format_int (max_size required)
        ++ codes " bytes")
    else check_state (get_elem? info.attributes 4)

unfoldable pub non_empty : List Text → List Text
non_empty [] = []
non_empty ([] ∷ ts) = non_empty ts
non_empty ((c ∷ t) ∷ ts) = (c ∷ t) ∷ non_empty ts

unfoldable pub trim_all : List Text → List Text
trim_all [] = []
trim_all (t ∷ ts) = trim_space t ∷ trim_all ts
