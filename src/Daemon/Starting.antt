-- ===== src/Daemon/Starting.antt =====
-- What a daemon that main of cmd/provisioner/main.go has started is made of.
use libvirt_volume_provision.Base.{
  ℕ, ◌+◌, ◌≡◌, ◌⊎◌, inl, inr, refl, ap, ◌∙◌, sym, Bool, true, false, some, subst, List,
}
use libvirt_volume_provision.Text.{Text, codes, or_text, contains_any}
use libvirt_volume_provision.Act.{Result, ok, err, panicked, OnOk, of_OnOk, continue-OnOk, ok_inj}
use libvirt_volume_provision.Retry.Settings.{IsUsable}
use libvirt_volume_provision.Minio.Setup.{new_client, IsConfigured, new_client_ok}
use libvirt_volume_provision.Lvm.Setup.{new_manager, new_manager-IsUsable}
use libvirt_volume_provision.Auth.{new_validator, is_client_ca_loaded, get_client_cas}
use libvirt_volume_provision.Storage.Schema.{migrations}
use libvirt_volume_provision.Storage.Migrating.{Covered}
use libvirt_volume_provision.Storage.Opening.{
  Store, new_store, Opens, new_store_cases, OpenFaults, Database,
}
use libvirt_volume_provision.Cache.Pool.{PoolManager, new_pool_manager}
use libvirt_volume_provision.Cache.Handles.{IsLibvirt}
use libvirt_volume_provision.Cache.Connecting.{Connected, new_pool_manager_cases}
use libvirt_volume_provision.Jobs
use libvirt_volume_provision.Daemon.{
  Environment, Machine, Transport, http, https, Daemon, transport_for, transport_of, with_key,
  db_path, start, on_world, on_database, on_connection,
}

Opens-ok :
    (f : OpenFaults) (path : Text) (d : Database) (x : Result Store × Database) (s : Store)
    → Opens f path d x
    → x.0 ≡ ok s
    → (s.db_path ≡ path) × (x.1.handles ≡ d.handles + 1) × Covered x.1.schema migrations
Opens-ok f path d (ok s', d') s (same, one, covered) eq =
    (ap (λ (y : Store). y.db_path) (sym (ok_inj s' s eq)) ∙ same, one, covered)
Opens-ok f path d (err x, d') s h eq = cc
Opens-ok f path d (panicked, d') s h eq = cc

module _ {W C P V M K : Type 0} (e : Environment W C P V M K) (held : C → ℕ)
    (runs : Text → C → Bool) (name_of : P → Text) where
  -- HTTP without client CAs; with them HTTPS, with the key pair of the server and these CAs.
  abbrev pub Serves : List Text → Bool → Transport K → Type 0
  Serves cas false http = Unit
  Serves cas false (https k cas') = ⊥
  Serves cas true http = ⊥
  Serves cas true (https k cas') =
      (cas' ≡ cas)
      × (e.load_key_pair
            (or_text (e.getenv (codes "SERVER_CERT")) (codes "/etc/ssl/certs/server.crt"))
            (or_text (e.getenv (codes "SERVER_KEY")) (codes "/etc/ssl/private/server.key"))
          ≡ inr k)

  transport_for-Serves :
      (cas : List Text) (loaded : Bool) (t : Transport K)
      → transport_for e cas loaded ≡ ok t
      → Serves cas loaded t
  transport_for-Serves cas false t h = subst (Serves cas false) (ok_inj http t h) tt
  transport_for-Serves cas true t h = by_key _ refl h
    where
      by_key :
          (x : Text ⊎ K)
          → e.load_key_pair
              (or_text (e.getenv (codes "SERVER_CERT")) (codes "/etc/ssl/certs/server.crt"))
              (or_text (e.getenv (codes "SERVER_KEY")) (codes "/etc/ssl/private/server.key"))
            ≡ x
          → with_key e cas x ≡ ok t
          → Serves cas true t
      by_key (inl m) eq h' = cc
      by_key (inr k) eq h' = subst (Serves cas true) (ok_inj (https k cas) t h') (refl, eq)

  -- All that a daemon that was started may rely on.
  abbrev pub IsReady : Machine W C → Daemon M K → Machine W C → Type 0
  IsReady m d m' =
      IsConfigured e.getenv e.parse_url e.minio_new d.minio
      × (contains_any d.lvm.vg_name (codes "/\\") ≡ false)
      × IsUsable d.lvm.retry_config
      × (new_validator e.getenv e.file e.parses_ca ≡ ok d.validator)
      × (d.store.db_path ≡ db_path e)
      × (m'.database.handles ≡ m.database.handles + 1)
      × Covered m'.database.schema migrations
      × (d.pool.pool_name ≡ codes "images")
      × (runs (codes "images") m'.connection ≡ true)
      × (held m'.connection ≡ held m.connection + 1)
      × Serves d.validator.client_cas d.validator.client_ca_loaded d.transport
      × (d.jobs ≡ Jobs.new_manager (some m.table))

  module _ (lib : IsLibvirt e.libvirt held runs name_of) (m : Machine W C) where
    Connected-ok :
        (name : Text) (n : ℕ) (x : Result PoolManager × C) (pool : PoolManager)
        → Connected e.libvirt held runs name_of lib name n x
        → x.0 ≡ ok pool
        → (pool.pool_name ≡ name) × (runs name x.1 ≡ true) × (held x.1 ≡ n + 1)
    Connected-ok name n (ok p, c) pool (same, r, h) eq =
        (ap (λ (y : PoolManager). y.pool_name) (sym (ok_inj p pool eq) ∙ same), r, h)
    Connected-ok name n (err x, c) pool h eq = cc
    Connected-ok name n (panicked, c) pool h eq = cc

    abbrev m1 : Machine W C
    m1 = record m { world = (new_manager e.exec e.getenv e.look_path (codes "data") m.world).1 }

    abbrev m2 : Machine W C
    m2 = record m1 { database = (new_store e.database_faults (db_path e) m.database).1 }

    abbrev m3 : Machine W C
    m3 = record m2 { connection = (new_pool_manager e.libvirt (codes "images") m.connection).1 }

    opened :
        (store : Store)
        → (new_store e.database_faults (db_path e) m.database).0 ≡ ok store
        → (store.db_path ≡ db_path e)
          × (m2.database.handles ≡ m.database.handles + 1)
          × Covered m2.database.schema migrations
    opened store eq =
        Opens-ok e.database_faults (db_path e) m.database
          (new_store e.database_faults (db_path e) m.database) store
          (new_store_cases e.database_faults (db_path e) m.database) eq

    joined :
        (pool : PoolManager)
        → (new_pool_manager e.libvirt (codes "images") m.connection).0 ≡ ok pool
        → (pool.pool_name ≡ codes "images")
          × (runs (codes "images") m3.connection ≡ true)
          × (held m3.connection ≡ held m.connection + 1)
    joined pool eq =
        Connected-ok (codes "images") (held m.connection)
          (new_pool_manager e.libvirt (codes "images") m.connection) pool
          (new_pool_manager_cases e.libvirt held runs name_of lib (codes "images") m.connection) eq

    after_start : OnOk (IsReady m) (start e m)
    unfolding start transport_of is_client_ca_loaded get_client_cas
    after_start =
        continue-OnOk (IsReady m) (codes "Failed to initialize MinIO client: ") _
          (new_client e.getenv e.parse_url e.minio_new, m)
          λ minio made.
            continue-OnOk (IsReady m) (codes "Failed to initialize LVM manager: ") _
              (on_world e (new_manager e.exec e.getenv e.look_path (codes "data")) m)
              λ lvm managed.
                continue-OnOk (IsReady m) (codes "Failed to initialize auth validator: ") _
                  (new_validator e.getenv e.file e.parses_ca, m1)
                  λ validator valid.
                    continue-OnOk (IsReady m) (codes "Failed to initialize storage: ") _
                      (on_database e (new_store e.database_faults (db_path e)) m1)
                      λ store stored.
                        continue-OnOk (IsReady m)
                          (codes "Failed to initialize libvirt pool manager: ") _
                          (on_connection e (new_pool_manager e.libvirt (codes "images")) m2)
                          λ pool connected.
                            continue-OnOk (IsReady m) (codes "Failed to load server certificate: ")
                              _ (transport_of e validator, m3)
                              λ transport loaded. (
                                new_client_ok e.getenv e.parse_url e.minio_new minio made,
                                (new_manager-IsUsable e.exec e.getenv e.look_path (codes "data")
                                    m.world lvm managed).0,
                                (new_manager-IsUsable e.exec e.getenv e.look_path (codes "data")
                                    m.world lvm managed).1,
                                valid,
                                (opened store stored).0,
                                (opened store stored).1,
                                (opened store stored).2,
                                (joined pool connected).0,
                                (joined pool connected).1,
                                (joined pool connected).2,
                                transport_for-Serves validator.client_cas validator.client_ca_loaded
                                    transport loaded,
                                refl,
                              )

    -- With a libvirt that does what its documentation says, a daemon that main has started has a
    -- MinIO client and an LVM manager with usable settings, the validator of the configured files,
    -- the database of DATABASE_PATH with every migration applied, an active pool "images" behind a
    -- connection to libvirt, and a job manager without jobs; it took one handle of the database and
    -- one of libvirt; and it serves HTTPS, with the key pair of the server and the client CAs,
    -- exactly if these were loaded, HTTP otherwise.
    pub start_ok : (d : Daemon M K) → (start e m).0 ≡ ok d → IsReady m d (start e m).1
    start_ok d h = of_OnOk (IsReady m) (start e m) d after_start h
