-- ===== src/Examples/Daemon.antt =====
-- The start of the daemon on a concrete machine.
use libvirt_volume_provision.Base.{
  ℕ, ◌+◌, ◌-◌, [], ◌∷◌, inl, inr, refl, Bool, true, false, ◌||◌, none, some, arith, if◌then◌else◌,
}
use libvirt_volume_provision.Text.{Text, codes, text_eq, contains_any, contains_byte}
use libvirt_volume_provision.Act.{ok}
use libvirt_volume_provision.Retry.Settings.{parse_retry_config, parse_lvm_retry_config}
use libvirt_volume_provision.Auth.{missing, readable}
use libvirt_volume_provision.Cache.Pool.{Libvirt, new_pool_manager}
use libvirt_volume_provision.Cache.Handles.{IsLibvirt}
use libvirt_volume_provision.Cache.Connecting.{Connected, new_pool_manager_cases}
use libvirt_volume_provision.Jobs
use libvirt_volume_provision.Daemon.{Environment, Machine, Daemon, start, https}
use libvirt_volume_provision.Daemon.Starting.{IsReady, start_ok}

-- A libvirt whose pools are all there, and all active or none.
record Hypervisor : Type 0 where
  handles : ℕ
  active : Bool

abbrev take_one : Hypervisor → Hypervisor
take_one c = record c { handles = c.handles + 1 }

abbrev drop_one : Hypervisor → Hypervisor
drop_one c = record c { handles = c.handles - 1 }

abbrev libvirt : Libvirt Hypervisor Text Text
libvirt = record {
  new_connect = λ uri c. (inr tt, take_one c);
  close = λ c. (inr tt, drop_one c);
  lookup_pool = λ n c. (inr n, take_one c);
  define_pool = λ xml c. (inl (codes "pool exists"), c);
  is_active = λ p c. (inr c.active, c);
  create_pool = λ p c. (inr tt, record c { active = true });
  free_pool = λ p c. (inr tt, drop_one c);
  create_volume = λ p xml c. (inr xml, take_one c);
  get_path = λ v c. (inr v, c);
  free_volume = λ v c. (inr tt, drop_one c);
}

abbrev handles_of : Hypervisor → ℕ
handles_of c = c.handles

abbrev runs : Text → Hypervisor → Bool
runs n c = c.active

libvirt-IsLibvirt : IsLibvirt libvirt handles_of runs (λ p. p)
libvirt-IsLibvirt = record {
  connects = λ uri c. refl;
  closes = λ c. refl;
  looks = λ n c. refl;
  defines = λ xml c. omega arith;
  asks = λ p c. refl;
  starts = λ p c. refl;
  frees = λ p c. refl;
  makes = λ p xml c. refl;
  reads = λ v c. refl;
  drops = λ v c. refl;
  looked_named = λ n c p h. cc;
  defined_named = λ n path c p h. cc;
  told = λ p c h. cc;
  started = λ p c u h. refl;
  lasts = λ p n c. refl;
}

abbrev resting : Hypervisor
resting = record { handles = 0; active = false }

new_pool_manager_cases_example :
    Connected libvirt handles_of runs
      (λ p. p)
      libvirt-IsLibvirt
      (codes "images")
      0
      (new_pool_manager libvirt (codes "images") resting)
new_pool_manager_cases_example =
    new_pool_manager_cases libvirt handles_of runs (λ p. p) libvirt-IsLibvirt (codes "images")
      resting

-- The two keys of MinIO are set, and nothing else.
abbrev getenv : Text → Text
getenv name =
    if text_eq name (codes "MINIO_ACCESS_KEY") || text_eq name (codes "MINIO_SECRET_KEY")
    then codes "key"
    else []

abbrev environment : Environment (Unit {0}) Hypervisor Text Text ℕ ℕ
environment = record {
  getenv = getenv;
  parse_url = λ t. ok (record { scheme = codes "https"; host = codes "s"; path = [] });
  minio_new = λ host access secret secure. ok 1;
  exec = λ argv w. (record { success = true; output = []; error = [] }, w);
  look_path = λ name. none;
  file = λ path.
      if text_eq path (codes "/etc/ssl/certs/ca-certificates.crt")
      then readable (codes "PEM")
      else missing;
  parses_ca = λ pem. true;
  database_faults = record {
    open_error = none;
    ping_error = none;
    close_error = none;
    version_error = some (codes "no such table: schema_version");
    sql_error = λ m. none;
    record_error = λ m. none;
  };
  libvirt = libvirt;
  load_key_pair = λ cert key. inr 5;
}

abbrev machine : Machine (Unit {0}) Hypervisor
machine = record {
  world = tt;
  database = record { handles = 0; schema = record { versions = []; statements = [] } };
  table = [];
  connection = resting;
}

abbrev daemon : Daemon ℕ ℕ
daemon = record {
  minio = record { minio_client = 1; retry_config = parse_retry_config [] [] };
  lvm = record { vg_name = codes "data"; retry_config = parse_lvm_retry_config [] [] };
  validator = record {
    client_cas = codes "PEM" ∷ [];
    client_ca_loaded = true;
    api_tokens = codes "dev-token-12345" ∷ [];
  };
  store = record { db_path = codes "./provisioner.db" };
  pool = record {
    connected = true;
    pool_name = codes "images";
    pool_path = codes "/var/lib/libvirt/images";
  };
  jobs = Jobs.new_manager (some []);
  address = codes "0.0.0.0:8080";
  transport = https 5 (codes "PEM" ∷ []);
}

start_ok_example :
    IsReady environment handles_of runs (λ p. p) machine daemon (start environment machine).1
unfolding start text_eq contains_any contains_byte
start_ok_example =
    start_ok environment handles_of runs (λ p. p) libvirt-IsLibvirt machine daemon refl
