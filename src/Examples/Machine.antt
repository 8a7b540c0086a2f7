-- ===== src/Examples/Machine.antt =====
-- Concrete settings, systems and hosts.
use libvirt_volume_provision.Base.{
  List, [], ◌∷◌, refl, Bool, false, not, none, some, pos, if◌then◌else◌,
}
use libvirt_volume_provision.Text.{Text, codes, text_eq}
use libvirt_volume_provision.Act.{ok, err}
use libvirt_volume_provision.Types.{ProvisionRequest, running, whole}
use libvirt_volume_provision.Retry.{Config}
use libvirt_volume_provision.Retry.Settings.{IsUsable}
use libvirt_volume_provision.Host.{chunk, eof, System, Host, Disk, CmdResult}
use libvirt_volume_provision.Volume.{Manager}
use libvirt_volume_provision.Provision.{Parts}

-- Two retries are transient failures of a counter that goes down to zero.
abbrev pub two_delays : Config
two_delays = record { max_attempts = pos 3; delays = pos 100 ∷ pos 200 ∷ [] }

pub two_delays-IsUsable : IsUsable two_delays
two_delays-IsUsable = record { tries = (2, refl); waits = λ h. cc }

-- A host on which a test on the command line says whether a command succeeds.
abbrev pub result_of : Bool → CmdResult
result_of good = record { success = good; output = []; error = codes "exit status 5" }

abbrev pub system : (List Text → Bool) → System (Unit {0})
system succeeds = record {
  exec = λ argv w. (result_of (succeeds argv), w);
  wait = λ d w. (none, w);
  ctx_done = λ w n. none;
  write_error = λ w n. none;
  now = λ w. 7;
  parse_url = λ t. err t;
  stat_object = λ b o w. (ok (pos 0), w);
  get_object = λ b o w. (err (codes "no object"), w);
}

abbrev pub is_lvs : List Text → Bool
is_lvs [] = false
is_lvs (a ∷ rest) = text_eq a (codes "lvs")

abbrev pub nothing_there : System (Unit {0})
nothing_there = system (λ argv. not (is_lvs argv))

abbrev pub only_lvs : System (Unit {0})
only_lvs = system is_lvs

abbrev pub manager : Manager
manager = record { vg_name = codes "vg0"; retry_config = two_delays }

abbrev pub request : ProvisionRequest
request = record {
  image_url = codes "https://s/b/k.iso";
  volume_name = codes "v";
  volume_size_gb = pos 1;
  image_type = codes "raw";
}

abbrev pub disk : Disk
disk = record {
  files = λ p. if text_eq p (codes "/p/k") then some (codes "image") else none;
  mkdir_error = none;
  stat_error = λ p. none;
  create_error = λ p. none;
  write_fault = λ p. none;
  remove_error = λ p. none;
}

abbrev pub host : Host (Unit {0})
host = record {
  world = tt;
  ran = [];
  disk = disk;
  job = record {
    id = codes "a";
    status = running;
    request = request;
    progress =
        some
          (record { stage = []; percent = whole 0; bytes_processed = pos 0; bytes_total = pos 0 });
    error = none;
    cache_hit = false;
    image_path = [];
    created_at = 1;
    updated_at = 1;
  };
}

abbrev pub parts : Parts (Unit {0})
parts = record {
  sys = only_lvs;
  minio_retry = two_delays;
  lvm = manager;
  pool = codes "/p";
  sha256_hex = λ t. t;
}

-- A server with one object of three bytes, which the reader returns in two reads.
abbrev pub serving : System (Unit {0})
serving = record only_lvs {
  parse_url = λ t. ok (record { scheme = codes "https"; host = codes "s"; path = codes "/b/k" });
  stat_object = λ b o w. (ok (pos 3), w);
  get_object = λ b o w. (ok (chunk (codes "ab") (eof (codes "c"))), w);
}
