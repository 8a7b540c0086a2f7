-- ===== src/Cache/Connecting.antt =====
-- What NewPoolManager and AllocateImage of internal/libvirt/pool.go leave of the handles of
-- libvirt.
use libvirt_volume_provision.Base.{
  ℕ, ◌+◌, ◌≡◌, ◌⊎◌, inl, inr, refl, ap, ◌∙◌, subst, Bool, true, false, arith,
}
use libvirt_volume_provision.Text.{Text, codes}
use libvirt_volume_provision.Act.{Result, ok, err, panicked, continue, prefixed}
use libvirt_volume_provision.Cache.{pool_path}
use libvirt_volume_provision.Cache.Pool.{
  Libvirt, PoolManager, answer, pool_xml, created, checked, activated, looked_up, ensured,
  with_pool, ensure_pool, new_pool_manager,
}
use libvirt_volume_provision.Cache.Handles.{taken, IsLibvirt}

module _ {C P V : Type 0} (lv : Libvirt C P V) (held : C → ℕ) (runs : Text → C → Bool)
    (name_of : P → Text) where
  -- The pool runs after a success, and nothing but `n` handles is held however it ends.
  abbrev Ensures : Text → ℕ → Result (Unit {0}) × C → Type 0
  Ensures name n (ok u, c) = (runs name c ≡ true) × (held c ≡ n)
  Ensures name n (err e, c) = held c ≡ n
  Ensures name n (panicked, c) = ⊥

  module _ (lib : IsLibvirt lv held runs name_of) where
    activated-Ensures :
        (pool : P) (n : ℕ) (c : C) → held c ≡ n + 1 → Ensures (name_of pool) n (activated lv pool c)
    activated-Ensures pool n c h = by_answer (lv.is_active pool c).0 refl
      where
        c' : C
        c' = (lv.is_active pool c).1

        by_start :
            (x : Text ⊎ Unit {0})
            → (lv.create_pool pool c').0 ≡ x
            → Ensures (name_of pool) n (created lv pool x (lv.create_pool pool c').1)
        by_start (inl e) eq =
            omega (
              arith,
              lib.frees pool (lv.create_pool pool c').1,
              lib.starts pool c',
              lib.asks pool c,
            )
        by_start (inr u) eq = (
          lib.lasts pool (name_of pool) (lv.create_pool pool c').1 ∙ lib.started pool c' u eq,
          omega (
            arith,
            lib.frees pool (lv.create_pool pool c').1,
            lib.starts pool c',
            lib.asks pool c,
          ),
        )

        by_answer :
            (x : Text ⊎ Bool)
            → (lv.is_active pool c).0 ≡ x
            → Ensures (name_of pool) n (checked lv pool x c')
        by_answer (inl e) eq = omega (arith, lib.frees pool c', lib.asks pool c)
        by_answer (inr true) eq = (
          lib.lasts pool (name_of pool) c' ∙ lib.told pool c eq,
          omega (arith, lib.frees pool c', lib.asks pool c),
        )
        by_answer (inr false) eq = by_start (lv.create_pool pool c').0 refl

    of_name :
        (name : Text) (n : ℕ) (pool : P) (c : C)
        → name_of pool ≡ name
        → held c ≡ n + 1
        → Ensures name n (activated lv pool c)
    of_name name n pool c named h =
        subst (λ s. Ensures s n (activated lv pool c)) named (activated-Ensures pool n c h)

    ensure_pool-Ensures :
        (name path : Text) (c : C) → Ensures name (held c) (ensure_pool lv name path c)
    unfolding ensure_pool
    ensure_pool-Ensures name path c = by_lookup (lv.lookup_pool name c).0 refl
      where
        c' : C
        c' = (lv.lookup_pool name c).1

        by_define :
            (x : Text ⊎ P)
            → (lv.define_pool (pool_xml name path) c').0 ≡ x
            → held c' ≡ held c
            → let y : Result P × C = (answer x, (lv.define_pool (pool_xml name path) c').1) in
              let z =
                continue {S = C}
                  (prefixed (codes "failed to define storage pool: ") y.0)
                  (activated lv)
                  y.1 in
              Ensures name (held c) z
        by_define (inl e) eq same =
            omega (arith, lib.defines (pool_xml name path) c', ap taken eq, same)
        by_define (inr pool) eq same =
            of_name name (held c) pool (lv.define_pool (pool_xml name path) c').1
              (lib.defined_named name path c' pool eq)
              (omega (arith, lib.defines (pool_xml name path) c', ap taken eq, same))

        by_lookup :
            (x : Text ⊎ P)
            → (lv.lookup_pool name c).0 ≡ x
            → let y = looked_up lv name path x c' in
              Ensures name (held c) (continue {S = C} y.0 (activated lv) y.1)
        by_lookup (inl e) eq =
            by_define (lv.define_pool (pool_xml name path) c').0 refl
              (omega (arith, lib.looks name c, ap taken eq))
        by_lookup (inr pool) eq =
            of_name name (held c) pool c' (lib.looked_named name c pool eq)
              (omega (arith, lib.looks name c, ap taken eq))

    -- What NewPoolManager leaves: with a manager, its pool runs and one handle is held, the
    -- connection; with an error, none is.
    abbrev pub Connected : Text → ℕ → Result PoolManager × C → Type 0
    Connected name n (ok m, c) =
        (m ≡ record { connected = true; pool_name = name; pool_path = pool_path name })
        × (runs name c ≡ true)
        × (held c ≡ n + 1)
    Connected name n (err e, c) = held c ≡ n
    Connected name n (panicked, c) = ⊥

    ensured-Connected :
        (name : Text) (n : ℕ) (x : Result (Unit {0}) × C)
        → Ensures name (n + 1) x
        → Connected name n (ensured lv name x.0 x.1)
    ensured-Connected name n (ok u, c) (r, h) = (refl, r, h)
    ensured-Connected name n (err e, c) h = omega (arith, lib.closes c)
    ensured-Connected name n (panicked, c) h = h

    -- With a libvirt that does what its documentation says, and that gives up a handle at Free and a
    -- connection at Close, NewPoolManager either returns the
    -- manager of a pool that then is active, and holds the connection and no other handle, or it
    -- returns an error and holds no handle that it has taken: every handle of the pool was freed,
    -- and the connection closed. It never panics.
    pub new_pool_manager_cases :
        (name : Text) (c : C) → Connected name (held c) (new_pool_manager lv name c)
    unfolding new_pool_manager
    new_pool_manager_cases name c = by_connect (lv.new_connect (codes "qemu:///system") c).0 refl
      where
        c' : C
        c' = (lv.new_connect (codes "qemu:///system") c).1

        by_connect :
            (x : Text ⊎ Unit {0})
            → (lv.new_connect (codes "qemu:///system") c).0 ≡ x
            → let y : Result (Unit {0}) × C = (answer x, c') in
              let z =
                continue {S = C}
                  (prefixed (codes "failed to connect to libvirt: ") y.0)
                  (λ u. with_pool lv name)
                  y.1 in
              Connected name (held c) z
        by_connect (inl e) eq = omega (arith, lib.connects (codes "qemu:///system") c, ap taken eq)
        by_connect (inr u) eq =
            ensured-Connected name (held c) (ensure_pool lv name (pool_path name) c') (
              subst (λ n. Ensures name n (ensure_pool lv name (pool_path name) c'))
                (lib.connects (codes "qemu:///system") c ∙ ap (λ x. held c + taken x) eq)
                (ensure_pool-Ensures name (pool_path name) c'))
