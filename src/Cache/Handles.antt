-- ===== src/Cache/Handles.antt =====
-- What the code of internal/libvirt/pool.go relies on of libvirt: the handles that its calls take and
-- give back, and which pools are active.
use libvirt_volume_provision.Base.{ℕ, ◌+◌, ◌-◌, ◌≡◌, ◌⊎◌, inl, inr, Bool, true}
use libvirt_volume_provision.Text.{Text}
use libvirt_volume_provision.Cache.Pool.{Libvirt, pool_xml}

-- A call that returns a handle takes one.
abbrev pub taken : {A : Type 0} → Text ⊎ A → ℕ
taken (inl e) = 0
taken (inr a) = 1

module _ {C P V : Type 0} (lv : Libvirt C P V) (held : C → ℕ) (runs : Text → C → Bool)
    (name_of : P → Text) where
  -- libvirt's documentation: `held` counts the open connections and the handles that were not freed,
  -- `runs` tells which pools are active, `name_of` is the name of a handle's pool. A Close and a
  -- Free report an error only of what is no valid connection or handle, which the code does not pass
  -- to them; they give up what they are given.
  pub record IsLibvirt : Type 0 where
    pub connects :
        (uri : Text) (c : C)
        → held (lv.new_connect uri c).1 ≡ held c + taken (lv.new_connect uri c).0
    pub closes : (c : C) → held (lv.close c).1 ≡ held c - 1
    pub looks :
        (n : Text) (c : C) → held (lv.lookup_pool n c).1 ≡ held c + taken (lv.lookup_pool n c).0
    pub defines :
        (xml : Text) (c : C)
        → held (lv.define_pool xml c).1 ≡ held c + taken (lv.define_pool xml c).0
    pub asks : (p : P) (c : C) → held (lv.is_active p c).1 ≡ held c
    pub starts : (p : P) (c : C) → held (lv.create_pool p c).1 ≡ held c
    pub frees : (p : P) (c : C) → held (lv.free_pool p c).1 ≡ held c - 1
    pub makes :
        (p : P) (xml : Text) (c : C)
        → held (lv.create_volume p xml c).1 ≡ held c + taken (lv.create_volume p xml c).0
    pub reads : (v : V) (c : C) → held (lv.get_path v c).1 ≡ held c
    pub drops : (v : V) (c : C) → held (lv.free_volume v c).1 ≡ held c - 1
    pub looked_named : (n : Text) (c : C) (p : P) → (lv.lookup_pool n c).0 ≡ inr p → name_of p ≡ n
    pub defined_named :
        (n path : Text) (c : C) (p : P)
        → (lv.define_pool (pool_xml n path) c).0 ≡ inr p
        → name_of p ≡ n
    pub told :
        (p : P) (c : C)
        → (lv.is_active p c).0 ≡ inr true
        → runs (name_of p) (lv.is_active p c).1 ≡ true
    pub started :
        (p : P) (c : C) (u : Unit {0})
        → (lv.create_pool p c).0 ≡ inr u
        → runs (name_of p) (lv.create_pool p c).1 ≡ true
    pub lasts : (p : P) (n : Text) (c : C) → runs n (lv.free_pool p c).1 ≡ runs n c
