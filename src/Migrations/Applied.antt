-- ===== src/Migrations/Applied.antt =====
-- The migrations that palaver/store/migrate.py has to do and has done, and the backups it keeps.
use palaver.Prelude.{ℕ, true, false, some, List, [], ◌∷◌, ◌++◌, ◌≡◌, refl, sym, ap, ◌∙◌, arith}
use mathlib.Core.List.{append_assoc}
use palaver.Migrations.Backup.{DatabaseFile, Backup, find_backup, free_backup_path}
use palaver.Migrations.Migrate.{Migration, Engine, Files, skips}

-- Statements that all go through, one after the other.
pub data Ran {T S : Type 0} (engine : Engine T S) : List S → T → T → Type 0 where
  at_end : {t : T} → Ran engine [] t t
  ran :
      {s : S} {ss : List S} {t t' u : T}
      → engine.run s t ≡ some t'
      → Ran engine ss t' u
      → Ran engine (s ∷ ss) t u

-- The migrations of a list, each with all its statements and its version number.
pub data Applied {T S : Type 0} (engine : Engine T S)
    : DatabaseFile T → List (Migration S) → DatabaseFile T → Type 0 where
  nothing : {d : DatabaseFile T} → Applied engine d [] d
  applied :
      {d e : DatabaseFile T} {t : T} {m : Migration S} {ms : List (Migration S)}
      → Ran engine m.statements d.tables t
      → Applied engine (record { user_version = m.version; tables = t }) ms e
      → Applied engine d (m ∷ ms) e

module _ {S : Type 0} where
  -- The migrations above the version found, up to the target, in turn.
  abbrev pub pending : ℕ → ℕ → List (Migration S) → List (Migration S)
  pending target version [] = []
  pending target version (m ∷ ms) = elim (skips m version target) [
    | true ↦ pending target version ms
    | false ↦ m ∷ pending target m.version ms
  ]

module _ {T : Type 0} where
  -- The backups of before, under those that were made.
  abbrev pub Kept : Files T → Files T → Type 0
  Kept files files' = (new : List (Backup T)) × (files'.backups ≡ new ++ files.backups)

  pub Kept-trans : (f g h : Files T) → Kept f g → Kept g h → Kept f h
  Kept-trans f g h (new, e) (newer, e') =
      (newer ++ new, e' ∙ ap (λ l. newer ++ l) e ∙ sym (append_assoc newer new f.backups))

  -- With the backup of a migration.
  abbrev pub backed_up : Files T → ℕ → Files T
  backed_up files version = record files {
    backups =
        record {
          from_version = version;
          suffix = free_backup_path version files.backups;
          database = files.database;
        }
        ∷ files.backups;
  }

  pub added : (files : Files T) (version : ℕ) → Kept files (backed_up files version)
  added files version = (
    record {
      from_version = version;
      suffix = free_backup_path version files.backups;
      database = files.database;
    }
        ∷ [],
    refl,
  )

  pub find_top :
      (v k : ℕ) (d : DatabaseFile T) (bs : List (Backup T))
      → find_backup v k (record { from_version = v; suffix = k; database = d } ∷ bs) ≡ some d
  unfolding find_backup
  find_top v k d bs = ground arith
