-- ===== src/Daemon.antt =====
-- cmd/provisioner/main.go: the start of the daemon, its server and its end. logrus' Fatal exits with
-- status 1: the start then ends in an error, of the message and the error that Fatal logs.
pub mod Starting
use libvirt_volume_provision.Base.{
  ℕ, List, [], ◌∷◌, ◌++◌, ◌⊎◌, inl, inr, Bool, true, false, Option, none, some,
}
use libvirt_volume_provision.Text.{Text, codes, or_text}
use libvirt_volume_provision.Act.{Result, ok, err, Act, lift, wrap, ◌>>=◌}
use libvirt_volume_provision.Host.{Url, CmdResult}
use libvirt_volume_provision.Minio.Setup.{Client, new_client}
use libvirt_volume_provision.Volume.{Manager}
use libvirt_volume_provision.Lvm.Setup.{new_manager}
use libvirt_volume_provision.Auth.{
  Validator, File, new_validator, is_client_ca_loaded, get_client_cas,
}
use libvirt_volume_provision.Storage.{Table}
use libvirt_volume_provision.Storage.Opening.{Database, OpenFaults, Store, new_store}
use libvirt_volume_provision.Cache.Pool.{Libvirt, PoolManager, new_pool_manager}
use libvirt_volume_provision.Jobs
use libvirt_volume_provision.Jobs.{State}

-- What the daemon finds on its machine, all of it outside the repository.
pub record Environment (W C P V M K : Type 0) : Type 0 where
  pub getenv : Text → Text
  pub parse_url : Text → Result Url
  pub minio_new : Text → Text → Text → Bool → Result M
  pub exec : List Text → W → CmdResult × W
  pub look_path : Text → Option Text
  pub file : Text → File
  pub parses_ca : Text → Bool
  pub database_faults : OpenFaults
  pub libvirt : Libvirt C P V
  -- tls.LoadX509KeyPair
  pub load_key_pair : Text → Text → Text ⊎ K

-- The state of what runs on the machine, and the rows of the table of jobs.
pub record Machine (W C : Type 0) : Type 0 where
  pub world : W
  pub database : Database
  pub table : Table
  pub connection : C

-- HTTP, or HTTPS with a certificate of the server and the CAs by which a client's certificate is
-- verified, if one is given.
pub data Transport (K : Type 0) : Type 0 where
  http : Transport K
  https : K → List Text → Transport K

pub record Daemon (M K : Type 0) : Type 0 where
  pub minio : Client M
  pub lvm : Manager
  pub validator : Validator
  pub store : Store
  pub pool : PoolManager
  pub jobs : State
  pub address : Text
  pub transport : Transport K

module _ {W C P V M K : Type 0} (e : Environment W C P V M K) where
  abbrev pub on_world : {A : Type 0} → Act W A → Act (Machine W C) A
  on_world act m = ((act m.world).0, record m { world = (act m.world).1 })

  abbrev pub on_database : {A : Type 0} → Act Database A → Act (Machine W C) A
  on_database act m = ((act m.database).0, record m { database = (act m.database).1 })

  abbrev pub on_connection : {A : Type 0} → Act C A → Act (Machine W C) A
  on_connection act m = ((act m.connection).0, record m { connection = (act m.connection).1 })

  abbrev pub address_of : Text
  address_of =
      or_text (e.getenv (codes "HOST")) (codes "0.0.0.0")
      ++ codes ":"
      ++ or_text (e.getenv (codes "PORT")) (codes "8080")

  abbrev pub db_path : Text
  db_path = or_text (e.getenv (codes "DATABASE_PATH")) (codes "./provisioner.db")

  abbrev pub with_key : List Text → Text ⊎ K → Result (Transport K)
  with_key cas (inl x) = err x
  with_key cas (inr k) = ok (https k cas)

  abbrev pub transport_for : List Text → Bool → Result (Transport K)
  transport_for cas false = ok http
  transport_for cas true = with_key cas (
      e.load_key_pair (or_text (e.getenv (codes "SERVER_CERT")) (codes "/etc/ssl/certs/server.crt"))
        (or_text (e.getenv (codes "SERVER_KEY")) (codes "/etc/ssl/private/server.key")))

  -- The server is made for HTTP when no client CA was loaded.
  unfoldable pub transport_of : Validator → Result (Transport K)
  unfolding is_client_ca_loaded get_client_cas
  transport_of v = transport_for (get_client_cas v) (is_client_ca_loaded v)

  abbrev pub daemon :
      Client M → Manager → Validator → Store → PoolManager → Table → Transport K → Daemon M K
  daemon minio lvm validator store pool table transport = record {
    minio = minio;
    lvm = lvm;
    validator = validator;
    store = store;
    pool = pool;
    jobs = Jobs.new_manager (some table);
    address = address_of;
    transport = transport;
  }

  -- main, up to the server that listens.
  unfoldable pub start : Act (Machine W C) (Daemon M K)
  unfolding new_client new_manager new_validator new_store new_pool_manager transport_of
  start = do
    minio ←
        wrap (codes "Failed to initialize MinIO client: ")
          (lift (new_client e.getenv e.parse_url e.minio_new))
    lvm ←
        wrap (codes "Failed to initialize LVM manager: ")
          (on_world (new_manager e.exec e.getenv e.look_path (codes "data")))
    validator ←
        wrap (codes "Failed to initialize auth validator: ")
          (lift (new_validator e.getenv e.file e.parses_ca))
    store ←
        wrap (codes "Failed to initialize storage: ")
          (on_database (new_store e.database_faults db_path))
    pool ←
        wrap (codes "Failed to initialize libvirt pool manager: ")
          (on_connection (new_pool_manager e.libvirt (codes "images")))
    transport ← wrap (codes "Failed to load server certificate: ") (lift (transport_of validator))
    λ m. (ok (daemon minio lvm validator store pool m.table transport), m)

-- What may happen while the server runs: the call that listens returns, with an error other than
-- http.ErrServerClosed or without one, or SIGINT or SIGTERM arrives, and Shutdown returns within its
-- 30 seconds or with an error.
pub data ServerEvent : Type 0 where
  listen_returned : Option Text → ServerEvent
  signalled : Option Text → ServerEvent

abbrev pub status_of_shutdown : Option Text → ℕ
status_of_shutdown none = 0
status_of_shutdown (some e) = 1

-- The status that the process exits with, `none` while it runs.
unfoldable pub exit_status : List ServerEvent → Option ℕ
exit_status [] = none
exit_status (listen_returned (some e) ∷ es) = some 1
exit_status (listen_returned none ∷ es) = exit_status es
exit_status (signalled o ∷ es) = some (status_of_shutdown o)
