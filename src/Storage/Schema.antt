-- ===== src/Storage/Schema.antt =====
-- internal/storage/schema.go and initSchema of internal/storage/db.go: pending migrations are applied
-- in order, each recorded with its version. The engine is a parameter.
use libvirt_volume_provision.Base.{
  ℕ, List, [], ◌∷◌, ◌++◌, true, false, Option, none, some, pos, leb, if◌then◌else◌,
}
use libvirt_volume_provision.Text.{Text, codes}
use libvirt_volume_provision.Text.Number.{format_int}
use libvirt_volume_provision.Act.{Result, ok, err, panicked}

pub record Migration : Type 0 where
  pub version : ℕ
  pub sql : Text

-- SchemaV1
abbrev pub schema_v1 : Text
schema_v1 =
    codes "\nCREATE TABLE IF NOT EXISTS jobs (\n\tid TEXT PRIMARY KEY,\n\tstatus TEXT NOT NULL,\n"
    ++ codes "\trequest_json TEXT NOT NULL,\n\tprogress_json TEXT,\n\terror_message TEXT,\n"
    ++ codes "\tretry_count INTEGER DEFAULT 0,\n\tcreated_at INTEGER NOT NULL,\n"
    ++ codes "\tupdated_at INTEGER NOT NULL,\n\tcompleted_at INTEGER\n);\n\n"
    ++ codes "CREATE INDEX IF NOT EXISTS idx_jobs_status ON jobs(status);\n"
    ++ codes "CREATE INDEX IF NOT EXISTS idx_jobs_created_at ON jobs(created_at);\n"
    ++ codes "CREATE INDEX IF NOT EXISTS idx_jobs_updated_at ON jobs(updated_at);\n\n"
    ++ codes "CREATE TABLE IF NOT EXISTS schema_version (\n\tversion INTEGER PRIMARY KEY,\n"
    ++ codes "\tapplied_at INTEGER NOT NULL\n);\n"

-- Migrations
unfoldable pub migrations : List Migration
migrations = record { version = 1; sql = schema_v1 } ∷ []

-- The rows of the table schema_version, and the statements that were run, the oldest first.
pub record Schema : Type 0 where
  pub versions : List ℕ
  pub statements : List Text

-- SELECT COALESCE(MAX(version), 0) FROM schema_version
unfoldable pub max_version : List ℕ → ℕ
max_version [] = 0
max_version (v ∷ vs) = let m = max_version vs in if leb v m then m else v

-- Errors of the engine: at the SQL of a migration, with the part of it that was executed before, and at
-- the record of its version.
module _ (sql_error : Migration → Option (Text × Text))
    (record_error : Migration → Option Text) where
  abbrev pub executed : Text → Schema → Schema
  executed sql s = record s { statements = s.statements ++ sql ∷ [] }

  abbrev pub recorded : Migration → Schema → Schema
  recorded m s = record s { versions = s.versions ++ m.version ∷ [] }

  -- The body of the loop for a migration that is pending.
  unfoldable pub apply_migration : Migration → Schema → Result (Unit {0}) × Schema
  apply_migration m s = elim (sql_error m) [
    | some (part, e) ↦ (
      err (codes "failed to apply migration v" ++ format_int (pos m.version) ++ codes ": " ++ e),
      executed part s,
    )
    | none ↦ elim (record_error m) [
      | some e ↦ (
        err (codes "failed to record migration v" ++ format_int (pos m.version) ++ codes ": " ++ e),
        executed m.sql s,
      )
      | none ↦ (ok tt, recorded m (executed m.sql s))
    ]
  ]

  abbrev pub then_rest :
      Result (Unit {0}) × Schema
      → (Schema → Result (Unit {0}) × Schema)
      → Result (Unit {0}) × Schema
  then_rest (ok u, s) k = k s
  then_rest (err e, s) k = (err e, s)
  then_rest (panicked, s) k = (panicked, s)

  unfoldable pub apply_pending : List Migration → ℕ → Schema → Result (Unit {0}) × Schema
  unfolding apply_migration
  apply_pending [] current s = (ok tt, s)
  apply_pending (m ∷ ms) current s = elim (leb m.version current) [
    | true ↦ apply_pending ms current s
    | false ↦ then_rest (apply_migration m s) (λ s'. apply_pending ms m.version s')
  ]

  -- initSchema. An error of the version query is ignored, whatever it is: the version is 0 then.
  abbrev pub current_version : Option Text → Schema → ℕ
  current_version none s = max_version s.versions
  current_version (some e) s = 0

  unfoldable pub init_schema : Option Text → List Migration → Schema → Result (Unit {0}) × Schema
  unfolding apply_pending max_version
  init_schema version_error migrations s =
      apply_pending migrations (current_version version_error s) s
