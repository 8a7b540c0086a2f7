-- ===== src/Cache/Pool.antt =====
-- NewPoolManager, ensurePool, AllocateImage and Close of internal/libvirt/pool.go. The bindings of
-- libvirt are a parameter, over the state `C` of the library; `P` and `V` are its handles of pools and
-- of volumes.
use libvirt_volume_provision.Base.{ℕ, ◌++◌, ◌⊎◌, inl, inr, Bool, true, false, pos, if◌then◌else◌}
use libvirt_volume_provision.Text.{Text, codes}
use libvirt_volume_provision.Text.Number.{format_int}
use libvirt_volume_provision.Act.{Result, ok, err, panicked, Act, pure, wrap, ◌>>=◌}
use libvirt_volume_provision.Cache.{pool_path}

-- What a call returns: its error, or its value.
pub record Libvirt (C P V : Type 0) : Type 0 where
  pub new_connect : Text → C → (Text ⊎ Unit {0}) × C
  pub close : C → (Text ⊎ Unit {0}) × C
  pub lookup_pool : Text → C → (Text ⊎ P) × C
  pub define_pool : Text → C → (Text ⊎ P) × C
  pub is_active : P → C → (Text ⊎ Bool) × C
  pub create_pool : P → C → (Text ⊎ Unit {0}) × C
  pub free_pool : P → C → (Text ⊎ Unit {0}) × C
  pub create_volume : P → Text → C → (Text ⊎ V) × C
  pub get_path : V → C → (Text ⊎ Text) × C
  pub free_volume : V → C → (Text ⊎ Unit {0}) × C

-- `connected` is whether the field conn is not nil.
pub record PoolManager : Type 0 where
  pub connected : Bool
  pub pool_name : Text
  pub pool_path : Text

abbrev pub answer : {A : Type 0} → Text ⊎ A → Result A
answer (inl e) = err e
answer (inr a) = ok a

abbrev pub returned : {C A : Type 0} → (C → (Text ⊎ A) × C) → Act C A
returned call c = (answer (call c).0, (call c).1)

unfoldable pub pool_xml : Text → Text → Text
pool_xml name path =
    codes "\n<pool type=\"dir\">\n  <name>"
    ++ name
    ++ codes "</name>\n  <target>\n    <path>"
    ++ path
    ++ codes "</path>\n  </target>\n</pool>"

unfoldable pub volume_xml : Text → ℕ → Text
volume_xml name bytes =
    codes "\n<volume>\n  <name>"
    ++ name
    ++ codes "</name>\n  <capacity>"
    ++ format_int (pos bytes)
    ++ codes "</capacity>\n  <target>\n    <format type=\"raw\"/>\n  </target>\n</volume>"

module _ {C P V : Type 0} (lv : Libvirt C P V) where
  -- _ = pool.Free(): its error is ignored.
  abbrev pub freed : P → Act C (Unit {0})
  freed pool c = (ok tt, (lv.free_pool pool c).1)

  abbrev pub given_up : P → Text → Act C (Unit {0})
  given_up pool e c = (err e, (lv.free_pool pool c).1)

  abbrev pub created : P → Text ⊎ Unit {0} → Act C (Unit {0})
  created pool (inl e) = given_up pool (codes "failed to start storage pool: " ++ e)
  created pool (inr u) = freed pool

  abbrev pub checked : P → Text ⊎ Bool → Act C (Unit {0})
  checked pool (inl e) = given_up pool (codes "failed to check pool active status: " ++ e)
  checked pool (inr true) = freed pool
  checked pool (inr false) = λ c. created pool (lv.create_pool pool c).0 (lv.create_pool pool c).1

  abbrev pub activated : P → Act C (Unit {0})
  activated pool c = checked pool (lv.is_active pool c).0 (lv.is_active pool c).1

  -- The pool that the lookup found, or else one that is defined.
  abbrev pub looked_up : Text → Text → Text ⊎ P → Act C P
  looked_up name path (inl e) =
      wrap (codes "failed to define storage pool: ")
        (returned (lv.define_pool (pool_xml name path)))
  looked_up name path (inr pool) = pure pool

  abbrev pub found_pool : Text → Text → Act C P
  found_pool name path c = looked_up name path (lv.lookup_pool name c).0 (lv.lookup_pool name c).1

  -- ensurePool
  unfoldable pub ensure_pool : Text → Text → Act C (Unit {0})
  unfolding pool_xml
  ensure_pool name path = do pool ← found_pool name path; activated pool

  abbrev pub ensured : Text → Result (Unit {0}) → Act C PoolManager
  ensured name (ok u) =
      pure (record { connected = true; pool_name = name; pool_path = pool_path name })
  ensured name (err e) = λ c. (err (codes "failed to ensure pool exists: " ++ e), (lv.close c).1)
  ensured name panicked = λ c. (panicked, c)

  abbrev pub with_pool : Text → Act C PoolManager
  with_pool name c =
      ensured name (ensure_pool name (pool_path name) c).0 (ensure_pool name (pool_path name) c).1

  -- NewPoolManager
  unfoldable pub new_pool_manager : Text → Act C PoolManager
  unfolding pool_path ensure_pool
  new_pool_manager name = do
    u ←
        wrap (codes "failed to connect to libvirt: ")
          (returned (lv.new_connect (codes "qemu:///system")))
    with_pool name

  -- Close
  unfoldable pub close : PoolManager → Act C (Unit {0})
  close m =
      if m.connected
      then wrap (codes "failed to close libvirt connection: ") (returned lv.close)
      else pure tt

  -- The deferred calls of Free run however the function ends, and their errors are ignored.
  abbrev pub deferred : {A : Type 0} → (C → (Text ⊎ Unit {0}) × C) → Act C A → Act C A
  deferred free m c = ((m c).0, (free (m c).1).1)

  -- AllocateImage, behind the lookup of the pool and behind the creation of the volume
  abbrev pub path_of : V → Act C Text
  path_of vol =
      deferred (lv.free_volume vol)
        (wrap (codes "failed to get volume path: ") (returned (lv.get_path vol)))

  abbrev pub volume_in : Text → ℕ → P → Act C Text
  volume_in name bytes pool = deferred (lv.free_pool pool) (do
    vol ←
        wrap (codes "failed to create volume: ")
          (returned (lv.create_volume pool (volume_xml name bytes)))
    path_of vol)

  -- AllocateImage
  unfoldable pub allocate_image : PoolManager → Text → ℕ → Act C Text
  unfolding volume_xml
  allocate_image m name bytes = do
    pool ← wrap (codes "failed to lookup pool: ") (returned (lv.lookup_pool m.pool_name))
    volume_in name bytes pool
