-- ===== src/Migrations/Migrate.antt =====
-- `migrate` of palaver/store/migrate.py.
use palaver.Prelude.{
  ℕ, Bool, true, false, not, ◌||◌, Option, none, some, List, [], ◌∷◌, ltb, leb, if◌then◌else◌,
}
use palaver.Migrations.Backup.{DatabaseFile, Backup, free_backup_path, take_backup, find_backup}

-- `Migration`, over the statements that SQLite executes.
pub record Migration (S : Type 0) : Type 0 where
  pub version : ℕ
  pub statements : List S

-- SQLite and the file system: what a statement makes of the tables, or `none` for `sqlite3.Error`;
-- whether, in the migration to a version, the backup can be written and read, the transaction begins
-- and commits, and a rollback works; and what other connections commit before the lock is taken.
pub record Engine (T S : Type 0) : Type 0 where
  pub run : S → T → Option T
  pub backs_up : ℕ → Bool
  pub backup_reads : ℕ → Bool
  pub begins : ℕ → Bool
  pub commits : ℕ → Bool
  pub rolls_back : ℕ → Bool
  pub others : ℕ → DatabaseFile T → DatabaseFile T

pub record Files (T : Type 0) : Type 0 where
  pub database : DatabaseFile T
  pub backups : List (Backup T)

-- `MigrationError`, or the error of a backup that cannot be written.
pub data MigrateError : Type 0 where
  migration_error backup_error : MigrateError

pub data Migrated (T : Type 0) : Type 0 where
  version_is : ℕ → Files T → Migrated T
  migrate_raised : MigrateError → Files T → Migrated T

module _ {S : Type 0} where
  -- `sorted(migrations, key=lambda m: m.version)`.
  unfoldable pub insert_migration : Migration S → List (Migration S) → List (Migration S)
  insert_migration m [] = m ∷ []
  insert_migration m (n ∷ ms) =
      let rest = insert_migration m ms in if leb m.version n.version then m ∷ n ∷ ms else n ∷ rest

  unfoldable pub sorted : List (Migration S) → List (Migration S)
  unfolding insert_migration
  sorted [] = []
  sorted (m ∷ ms) = insert_migration m (sorted ms)

  unfoldable pub last_version : List (Migration S) → ℕ
  last_version [] = 0
  last_version (m ∷ []) = m.version
  last_version (m ∷ n ∷ ms) = last_version (n ∷ ms)

  -- The guard of the loop.
  unfoldable pub skips : Migration S → ℕ → ℕ → Bool
  skips m version target = leb m.version version || ltb target m.version

  -- `target_version`, where it is given.
  unfoldable pub target_of : Option ℕ → List (Migration S) → ℕ
  unfolding last_version
  target_of none ordered = last_version ordered
  target_of (some v) ordered = v

module _ {T : Type 0} where
  -- `_restore_backup`: the database file is a copy of the backup again.
  unfoldable pub restored : Option (DatabaseFile T) → DatabaseFile T → DatabaseFile T
  restored none d = d
  restored (some b) d = b

  -- What follows one migration, by its outcome.
  unfoldable pub and_then : (ℕ → Files T → Migrated T) → Migrated T → Migrated T
  and_then rest (version_is version files) = rest version files
  and_then rest (migrate_raised e files) = migrate_raised e files

module _ {T S : Type 0} where
  -- The loop over the statements; the flag is false where one raised, with the tables as they are then.
  unfoldable pub run_statements : Engine T S → List S → T → Bool × T
  run_statements engine [] t = (true, t)
  run_statements engine (s ∷ ss) t = elim (engine.run s t) [
    | none ↦ (false, t)
    | some t' ↦ run_statements engine ss t'
  ]

  -- The transaction up to its `COMMIT`: whether it came through, and the database as the connection
  -- sees it then, half migrated where a statement raised.
  unfoldable pub transaction : Engine T S → Migration S → DatabaseFile T → Bool × DatabaseFile T
  unfolding run_statements
  transaction engine m d =
      let r = run_statements engine m.statements d.tables in
      if r.0
      then (engine.commits m.version, record { user_version = m.version; tables = r.1 })
      else (false, record { user_version = d.user_version; tables = r.1 })

  -- The `except`: a rollback to what was before the transaction, or the backup where that fails.
  unfoldable pub recover : Engine T S → Migration S → ℕ → ℕ → DatabaseFile T → Files T → Migrated T
  unfolding restored find_backup
  recover engine m from_version suffix before files =
      if engine.rolls_back m.version
      then migrate_raised migration_error (record files { database = before })
      else migrate_raised migration_error (record files {
        database = restored (find_backup from_version suffix files.backups) files.database;
      })

  -- What follows the transaction.
  unfoldable pub finish :
      Engine T S → Migration S → ℕ → ℕ → Files T → Bool × DatabaseFile T → Migrated T
  finish engine m from_version suffix files (true, d) =
      version_is m.version (record files { database = d })
  finish engine m from_version suffix files (false, d) =
      recover engine m from_version suffix files.database (record files { database = d })

  -- From `BEGIN IMMEDIATE` on: the version is read again under the lock.
  unfoldable pub under_lock : Engine T S → Migration S → ℕ → ℕ → Files T → Migrated T
  unfolding transaction recover finish
  under_lock engine m from_version suffix files =
      if not (engine.begins m.version)
      then migrate_raised migration_error files
      else if leb m.version files.database.user_version
      then version_is m.version files
      else finish engine m from_version suffix files (transaction engine m files.database)

  -- One migration: the backup, its check, and the transaction.
  unfoldable pub migrate_one : Engine T S → Migration S → ℕ → Files T → Migrated T
  unfolding under_lock free_backup_path take_backup
  migrate_one engine m from_version files =
      let suffix = free_backup_path from_version files.backups in
      let backups = take_backup from_version suffix files.database files.backups in
      if not (engine.backs_up m.version)
      then migrate_raised backup_error files
      else if not (engine.backup_reads m.version)
      then migrate_raised migration_error (record files { backups = backups })
      else under_lock engine m from_version suffix
          (record { database = engine.others m.version files.database; backups = backups })

  -- The loop.
  unfoldable pub migrate_each : Engine T S → ℕ → List (Migration S) → ℕ → Files T → Migrated T
  unfolding migrate_one skips and_then
  migrate_each engine target [] version files = version_is version files
  migrate_each engine target (m ∷ ms) version files = elim (skips m version target) [
    | true ↦ migrate_each engine target ms version files
    | false ↦ and_then (migrate_each engine target ms) (migrate_one engine m version files)
  ]

  -- `migrate`.
  unfoldable pub migrate : Engine T S → Option ℕ → List (Migration S) → Files T → Migrated T
  unfolding migrate_each sorted target_of
  migrate engine target migrations files =
      let ordered = sorted migrations in
      migrate_each engine (target_of target ordered) ordered files.database.user_version files
