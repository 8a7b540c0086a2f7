-- ===== src/Examples/Work.antt =====
-- The body of a job on concrete hosts.
use libvirt_volume_provision.Provision.Images.{get_or_download_image-IsPresent}
use libvirt_volume_provision.Base.{
  List, [], ◌∷◌, ◌++◌, ◌≡◌, refl, true, false, none, some, pos, if◌then◌else◌,
}
use libvirt_volume_provision.Text.{
  Text, codes, text_eq, trim_suffix, trim_prefix, has_prefix, split, join,
}
use libvirt_volume_provision.Text.Number.{format_int}
use libvirt_volume_provision.Path.{join_path, clean, clean_step, clean_elements, pop_element}
use libvirt_volume_provision.Act.{ok, err}
use libvirt_volume_provision.Types.{whole}
use libvirt_volume_provision.Retry.{with_retry, attempts, pause, delay_at, error_text}
use libvirt_volume_provision.Host.{Host, Disk, wait_host}
use libvirt_volume_provision.Lvm.{
  create_volume, create_volume_once, populate_volume, populate_volume_once,
}
use libvirt_volume_provision.Volume.{
  exists_argv, create_argv, populate_argv, copy_argv, test_argv, device_path,
}
use libvirt_volume_provision.Provision.{
  Parts, set_stage, fill_volume, provision_volume, get_or_download_image,
}
use libvirt_volume_provision.Provision.Whole.{provision_volume_ok, at_image, at_volume, Filled}
use libvirt_volume_provision.Storage.Saving.{no_faults}
use libvirt_volume_provision.Jobs.{Thread, State, executing, find_thread}
use libvirt_volume_provision.Job.Saving.{Json}
use libvirt_volume_provision.Worker.{Worked, run_job, run_job_cases}
use libvirt_volume_provision.Provision.Rollback.{fill_volume_rollback}
use libvirt_volume_provision.Examples.Machine.{
  two_delays-IsUsable, nothing_there, manager, request, disk, host, parts,
}

abbrev test_v : List Text
test_v = codes "test" ∷ codes "-b" ∷ codes "/dev/vg0/v" ∷ []

abbrev three_tests : List (List Text)
three_tests = test_v ∷ test_v ∷ test_v ∷ []

abbrev after_populate : Host (Unit {0})
after_populate = record host {
  ran = three_tests;
  job = record host.job {
    progress = some (record {
      stage = codes "converting";
      percent = whole 75;
      bytes_processed = pos 0;
      bytes_total = pos 0;
    });
  };
}

abbrev populate_error : Text
populate_error =
    codes
      "failed to populate volume v after retries: failed after 3 attempts: LVM volume device does not exist: /dev/vg0/v"

fill_volume_rollback_example :
    ((fill_volume parts request (codes "/p/k") host).0
      ≡ err (codes "failed to populate volume: " ++ populate_error))
    × ((fill_volume parts request (codes "/p/k") host).1.ran
        ≡ three_tests
          ++ exists_argv manager (codes "v")
            ∷ (codes "lvremove" ∷ codes "-f" ∷ codes "vg0/v" ∷ [])
            ∷ [])
unfolding set_stage text_eq populate_volume populate_volume_once with_retry attempts pause delay_at
    error_text test_argv device_path wait_host format_int
fill_volume_rollback_example =
    fill_volume_rollback parts request (codes "/p/k") populate_error host after_populate refl refl

-- The image is in the cache under its URL.
abbrev in_cache : Disk
in_cache = record disk {
  files = λ p.
      if text_eq p (codes "/p/https:/s/b/k.iso.sha256")
      then some (codes "c0")
      else if text_eq p (codes "/p/https:/s/b/k.iso")
      then some (codes "image")
      else none;
}

abbrev cached_host : Host (Unit {0})
cached_host = record host { disk = in_cache }

abbrev working_parts : Parts (Unit {0})
working_parts = record parts { sys = nothing_there }

provision_volume_ok_example :
    (image : Text) × ((get_or_download_image working_parts request.image_url
        (at_image working_parts cached_host)).0
      ≡ ok image)
    × ((create_volume nothing_there manager (codes "v") (pos 1) (
          at_volume working_parts
            (get_or_download_image working_parts request.image_url
              (at_image working_parts cached_host)).1)).0
        ≡ ok tt)
    × Filled working_parts request image (provision_volume working_parts request cached_host).1
unfolding provision_volume text_eq join_path clean clean_step clean_elements pop_element split join
    populate_volume populate_volume_once with_retry attempts pause test_argv device_path wait_host
    format_int get_or_download_image fill_volume populate_argv create_volume create_volume_once
    trim_suffix trim_prefix has_prefix create_argv copy_argv
provision_volume_ok_example =
    provision_volume_ok working_parts request cached_host two_delays-IsUsable refl

-- A job that executes, whose goroutine makes this volume.
abbrev json : Json
json = record { request = λ r. r.volume_name; progress = λ i. i.stage }

abbrev working_thread : Thread
working_thread = record {
  job = record host.job { progress = none };
  phase = executing;
  listed = true;
  ctx_done = false;
  checked = false;
}

abbrev working_state : State
working_state = record { threads = working_thread ∷ []; slots = 1; store = some [] }

found_working : find_thread (codes "a") working_state.threads ≡ some working_thread
unfolding find_thread text_eq
found_working = refl

run_job_cases_example :
    Worked working_parts json
      (codes "a")
      request
      9
      no_faults
      working_state
      working_thread
      (provision_volume working_parts request cached_host).0
      (run_job working_parts json (codes "a") request 9 no_faults cached_host working_state)
run_job_cases_example =
    run_job_cases working_parts json (codes "a") working_state working_thread found_working refl
      request 9 no_faults cached_host two_delays-IsUsable

get_or_download_image-IsPresent_example :
    (content : Text) × ((get_or_download_image working_parts request.image_url
          cached_host).1.disk.files
        (codes "/p/https:/s/b/k.iso")
      ≡ some content)
    × ((get_or_download_image working_parts request.image_url cached_host).1.job.image_path
        ≡ codes "/p/https:/s/b/k.iso")
unfolding get_or_download_image text_eq join_path clean clean_step clean_elements pop_element split
    join trim_suffix trim_prefix has_prefix
get_or_download_image-IsPresent_example =
    get_or_download_image-IsPresent working_parts request.image_url (codes "/p/https:/s/b/k.iso")
      cached_host two_delays-IsUsable.waits refl
