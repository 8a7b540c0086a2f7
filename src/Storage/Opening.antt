-- ===== src/Storage/Opening.antt =====
-- NewStore and Close of internal/storage/db.go. The driver of the database is a parameter: the errors
-- that it reports.
use libvirt_volume_provision.Base.{
  ℕ, ◌+◌, ◌-◌, ◌++◌, ◌≡◌, ap, ◌⊎◌, inl, inr, refl, Option, none, some, arith,
}
use libvirt_volume_provision.Text.{Text, codes}
use libvirt_volume_provision.Act.{Result, ok, err, panicked, Act}
use libvirt_volume_provision.Storage.Schema.{Migration, Schema, migrations, init_schema}
use libvirt_volume_provision.Storage.Migrating.{
  init_schema-Covered, init_schema-ne-panicked, Covered,
}

-- Errors of sql.Open, PingContext, Close, of the query of the version, and of the statements of a
-- migration.
pub record OpenFaults : Type 0 where
  pub open_error : Option Text
  pub ping_error : Option Text
  pub close_error : Option Text
  pub version_error : Option Text
  pub sql_error : Migration → Option (Text × Text)
  pub record_error : Migration → Option Text

-- The database file's schema, and how many handles of it are open.
pub record Database : Type 0 where
  pub handles : ℕ
  pub schema : Schema

pub record Store : Type 0 where
  pub db_path : Text

abbrev pub opened : Database → Database
opened d = record d { handles = d.handles + 1 }

-- db.Close()
abbrev pub closed : Option Text → Database → Database
closed none d = record d { handles = d.handles - 1 }
closed (some e) d = d

abbrev pub initialized :
    OpenFaults → Text → Result (Unit {0}) × Schema → Database → Result Store × Database
initialized f path (ok u, s) d = (ok (record { db_path = path }), record d { schema = s })
initialized f path (err e, s) d = (err e, closed f.close_error (record d { schema = s }))
initialized f path (panicked, s) d = (panicked, record d { schema = s })

abbrev pub pinged : OpenFaults → Text → Option Text → Act Database Store
pinged f path (some e) d = (err (codes "failed to ping database: " ++ e), d)
pinged f path none d =
    initialized f path (init_schema f.sql_error f.record_error f.version_error migrations d.schema)
      d

abbrev pub opening : OpenFaults → Text → Option Text → Act Database Store
opening f path (some e) d = (err (codes "failed to open database: " ++ e), d)
opening f path none d = pinged f path f.ping_error (opened d)

-- NewStore
unfoldable pub new_store : OpenFaults → Text → Act Database Store
unfolding init_schema migrations
new_store f path d = opening f path f.open_error d

abbrev pub close_result : Option Text → Result (Unit {0})
close_result none = ok tt
close_result (some e) = err (codes "failed to close database connection: " ++ e)

-- Close, of a store whose field db is not nil
unfoldable pub close : Option Text → Act Database (Unit {0})
close fault d = (close_result fault, closed fault d)

-- What NewStore leaves. With a store, the database is open and has the newest schema; with an error it
-- is not open, unless it did not answer the ping or could not be closed; a panic is not possible.
abbrev pub Opens : OpenFaults → Text → Database → Result Store × Database → Type 0
Opens f path d (ok s, d') =
    (s.db_path ≡ path) × (d'.handles ≡ d.handles + 1) × Covered d'.schema migrations
Opens f path d (err e, d') =
    (d'.handles ≡ d.handles)
    ⊎ ((x : Text) × ((f.ping_error ≡ some x) ⊎ (f.close_error ≡ some x))
        × (d'.handles ≡ d.handles + 1))
Opens f path d (panicked, d') = ⊥

-- NewStore either returns a store for the path, with the database open and every migration applied, or
-- an error, and then the database is not left open unless the ping failed or the Close did; it never
-- panics.
pub new_store_cases :
    (f : OpenFaults) (path : Text) (d : Database) → Opens f path d (new_store f path d)
unfolding new_store
new_store_cases f path d = by_open f.open_error
  where
    with_schema : Schema → Database
    with_schema s = record { handles = d.handles + 1; schema = s }

    by_close :
        (s : Schema) (o : Option Text)
        → f.close_error ≡ o
        → ((closed o (with_schema s)).handles ≡ d.handles)
          ⊎ ((x : Text) × ((f.ping_error ≡ some x) ⊎ (f.close_error ≡ some x))
              × ((closed o (with_schema s)).handles ≡ d.handles + 1))
    by_close s none e = inl (omega arith)
    by_close s (some x) e = inr (x, inr e, refl)

    by_schema :
        (x : Result (Unit {0}) × Schema)
        → init_schema f.sql_error f.record_error f.version_error migrations d.schema ≡ x
        → Opens f path d (initialized f path x (opened d))
    by_schema (ok u, s) e = (
      refl,
      refl,
      init_schema-Covered f.sql_error f.record_error f.version_error migrations d.schema s e,
    )
    by_schema (err m, s) e = by_close s f.close_error refl
    by_schema (panicked, s) e =
        init_schema-ne-panicked f.sql_error f.record_error f.version_error migrations d.schema
          (ap (λ (x : Result (Unit {0}) × Schema). x.0) e)

    by_ping : (o : Option Text) → f.ping_error ≡ o → Opens f path d (pinged f path o (opened d))
    by_ping none e =
        by_schema (init_schema f.sql_error f.record_error f.version_error migrations d.schema) refl
    by_ping (some x) e = inr (x, inl e, refl)

    by_open : (o : Option Text) → Opens f path d (opening f path o d)
    by_open none = by_ping f.ping_error refl
    by_open (some x) = inl refl
