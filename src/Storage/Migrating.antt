-- ===== src/Storage/Migrating.antt =====
-- initSchema of internal/storage/db.go, run by one start after another.
use libvirt_volume_provision.Base.{
  ℕ, ◌≤◌, some, none, List, [], ◌∷◌, ◌++◌, ◌≡◌, ◌≢◌, refl, Option, leb, All, arith, Bool-cases, inl,
  inr,
}
use libvirt_volume_provision.Text.{Text}
use libvirt_volume_provision.Act.{Result, ok, err, panicked}
use libvirt_volume_provision.Storage.Schema.{
  Migration, Schema, max_version, apply_migration, apply_pending, then_rest, init_schema,
  current_version,
}

max_version-append :
    (vs : List ℕ) (v : ℕ)
    → (max_version vs ≤ max_version (vs ++ v ∷ [])) × (v ≤ max_version (vs ++ v ∷ []))
unfolding max_version
max_version-append [] v = ground arith
max_version-append (x ∷ vs) v = ground (arith, max_version-append vs v)

abbrev pub Covered : Schema → List Migration → Type 0
Covered s = All (λ m. m.version ≤ max_version s.versions)

module _ (sql_error : Migration → Option (Text × Text))
    (record_error : Migration → Option Text) where
  -- A migration that was applied is recorded, and no version is forgotten.
  apply_migration_records :
      (m : Migration) (s s' : Schema) (u : Unit {0})
      → apply_migration sql_error record_error m s ≡ (ok u, s')
      → (max_version s.versions ≤ max_version s'.versions) × (m.version ≤ max_version s'.versions)
  unfolding apply_migration
  apply_migration_records m s s' u h = ground (arith, max_version-append s.versions m.version)

  abbrev Covers : List Migration → Schema → Schema → Type 0
  Covers ms s s' = (max_version s.versions ≤ max_version s'.versions) × Covered s' ms

  after_migration :
      (m : Migration) (ms : List Migration) (s s' : Schema)
      → ((t : Schema)
          → m.version ≤ max_version t.versions
          → apply_pending sql_error record_error ms m.version t ≡ (ok tt, s')
          → Covers ms t s')
      → (r : Result (Unit {0})) (t : Schema) → apply_migration sql_error record_error m s ≡ (r, t)
      → then_rest sql_error record_error
          (r, t)
          (λ t'. apply_pending sql_error record_error ms m.version t')
        ≡ (ok tt, s')
      → Covers (m ∷ ms) s s'
  after_migration m ms s s' ih (ok u) t e h =
      let (kept, here) = apply_migration_records m s t u e in
      let (grows, covers) = ih t here h in (omega arith, (omega arith, covers))
  after_migration m ms s s' ih (err x) t e h = cc
  after_migration m ms s s' ih panicked t e h = cc

  apply_pending-Covers :
      (ms : List Migration) (current : ℕ) (s s' : Schema)
      → current ≤ max_version s.versions
      → apply_pending sql_error record_error ms current s ≡ (ok tt, s')
      → Covers ms s s'
  unfolding apply_pending
  apply_pending-Covers [] current s s' c h = ground arith
  apply_pending-Covers (m ∷ ms) current s s' c h = elim (Bool-cases (leb m.version current)) [
    | inl skip ↦
        let (grows, covers) =
          apply_pending-Covers ms current s s' c (rw (skip, apply_pending) at h) in
        (grows, (ground arith, covers))
    | inr more ↦
        after_migration m ms s s' (λ t le e. apply_pending-Covers ms m.version t s' le e)
          (apply_migration sql_error record_error m s).0
          (apply_migration sql_error record_error m s).1 refl (rw (more, apply_pending) at h)
  ]

  apply_pending_covered :
      (ms : List Migration) (s : Schema) (current : ℕ)
      → All (λ m. m.version ≤ current) ms
      → apply_pending sql_error record_error ms current s ≡ (ok tt, s)
  unfolding apply_pending
  apply_pending_covered [] s current c = refl
  apply_pending_covered (m ∷ ms) s current (le, c) =
      ground (arith, apply_pending_covered ms s current c)

module _ (sql_error : Migration → Option (Text × Text))
    (record_error : Migration → Option Text) where
  then_rest-ne-panicked :
      (x : Result (Unit {0}) × Schema) (k : Schema → Result (Unit {0}) × Schema)
      → x.0 ≢ panicked
      → ((s : Schema) → (k s).0 ≢ panicked)
      → (then_rest sql_error record_error x k).0 ≢ panicked
  then_rest-ne-panicked (ok u, s) k h ih = ih s
  then_rest-ne-panicked (err e, s) k h ih = λ q. cc
  then_rest-ne-panicked (panicked, s) k h ih = λ q. h refl

  apply_pending-ne-panicked :
      (ms : List Migration) (current : ℕ) (s : Schema)
      → (apply_pending sql_error record_error ms current s).0 ≢ panicked
  unfolding apply_pending apply_migration
  apply_pending-ne-panicked [] current s = λ h. cc
  apply_pending-ne-panicked (m ∷ ms) current s = elim (Bool-cases (leb m.version current)) [
    | inl skip ↦ rw (skip, apply_pending) (apply_pending-ne-panicked ms current s)
    | inr more ↦
        rw (more, apply_pending)
          (then_rest-ne-panicked (apply_migration sql_error record_error m s) _ (λ h. ground arith)
            (λ t. apply_pending-ne-panicked ms m.version t))
  ]

module _ (sql_error : Migration → Option (Text × Text)) (record_error : Migration → Option Text)
    (version_error : Option Text) (ms : List Migration) where
  -- initSchema does not panic.
  pub init_schema-ne-panicked :
      (s : Schema) → (init_schema sql_error record_error version_error ms s).0 ≢ panicked
  unfolding init_schema
  init_schema-ne-panicked s = apply_pending-ne-panicked sql_error record_error ms _ s

  current_version-le :
      (o : Option Text) (s : Schema)
      → current_version sql_error record_error o s ≤ max_version s.versions
  current_version-le none s = omega arith
  current_version-le (some e) s = omega arith

  -- After initSchema has succeeded, no migration of its list is pending.
  pub init_schema-Covered :
      (s s' : Schema)
      → init_schema sql_error record_error version_error ms s ≡ (ok tt, s')
      → Covered s' ms
  unfolding init_schema
  init_schema-Covered s s' h =
      (apply_pending-Covers sql_error record_error ms
        (current_version sql_error record_error version_error s) s s'
        (current_version-le version_error s) h).1

-- When initSchema has succeeded, whatever its query of the version reported, running it again, as the
-- next start of the daemon does, executes no statement of a migration and changes nothing, if the
-- second query of the version reports no error, and whatever errors the engine would report for the
-- statements then.
pub init_schema_idempotent :
    (sql_error sql_error' : Migration → Option (Text × Text))
    (record_error record_error' : Migration → Option Text) (version_error : Option Text)
    (ms : List Migration) (s s' : Schema)
    → init_schema sql_error record_error version_error ms s ≡ (ok tt, s')
    → init_schema sql_error' record_error' none ms s' ≡ (ok tt, s')
unfolding init_schema
init_schema_idempotent se se' re re' version_error ms s s' h =
    apply_pending_covered se' re' ms s' (max_version s'.versions)
      (init_schema-Covered se re version_error ms s s' h)
