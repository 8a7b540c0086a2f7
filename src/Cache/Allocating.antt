-- ===== src/Cache/Allocating.antt =====
-- The handles of libvirt behind AllocateImage of internal/libvirt/pool.go.
use libvirt_volume_provision.Base.{ℕ, ◌+◌, ◌≡◌, ◌⊎◌, inl, inr, refl, ap, ◌∙◌, Bool, arith}
use libvirt_volume_provision.Text.{Text, codes}
use libvirt_volume_provision.Act.{Result, continue, prefixed}
use libvirt_volume_provision.Cache.Pool.{
  Libvirt, PoolManager, answer, volume_xml, path_of, volume_in, allocate_image,
}
use libvirt_volume_provision.Cache.Handles.{taken, IsLibvirt}

module _ {C P V : Type 0} (lv : Libvirt C P V) (held : C → ℕ) (runs : Text → C → Bool)
    (name_of : P → Text) where
  module _ (lib : IsLibvirt lv held runs name_of) where
    -- AllocateImage holds no handle at its end that it has taken.
    pub allocate_image-held :
        (m : PoolManager) (name : Text) (bytes : ℕ) (c : C)
        → held (allocate_image lv m name bytes c).1 ≡ held c
    unfolding allocate_image
    allocate_image-held m name bytes c = by_lookup (lv.lookup_pool m.pool_name c).0 refl
      where
        c' : C
        c' = (lv.lookup_pool m.pool_name c).1

        c'' : P → C
        c'' pool = (lv.create_volume pool (volume_xml name bytes) c').1

        by_volume :
            (pool : P) (x : Text ⊎ V)
            → (lv.create_volume pool (volume_xml name bytes) c').0 ≡ x
            → held c' ≡ held c + 1
            → let y : Result V × C = (answer x, c'' pool) in
              held
                (lv.free_pool pool
                  (continue {S = C}
                    (prefixed (codes "failed to create volume: ") y.0)
                    (path_of lv)
                    y.1).1).1
              ≡ held c
        by_volume pool (inl e) eq h = omega (
          arith,
          lib.frees pool (c'' pool),
          lib.makes pool (volume_xml name bytes) c',
          ap taken eq,
        )
        by_volume pool (inr vol) eq h =
            let w = (lv.free_volume vol (lv.get_path vol (c'' pool)).1).1 in
            lib.frees pool w
            ∙ omega (
              arith,
              lib.drops vol (lv.get_path vol (c'' pool)).1,
              lib.reads vol (c'' pool),
              lib.makes pool (volume_xml name bytes) c',
              ap taken eq,
            )

        by_lookup :
            (x : Text ⊎ P)
            → (lv.lookup_pool m.pool_name c).0 ≡ x
            → let y : Result P × C = (answer x, c') in
              held
                (continue {S = C}
                  (prefixed (codes "failed to lookup pool: ") y.0)
                  (volume_in lv name bytes)
                  y.1).1
              ≡ held c
        by_lookup (inl e) eq = omega (arith, lib.looks m.pool_name c, ap taken eq)
        by_lookup (inr pool) eq =
            by_volume pool (lv.create_volume pool (volume_xml name bytes) c').0 refl
              (omega (arith, lib.looks m.pool_name c, ap taken eq))
