-- ===== src/Migrations/Backup.antt =====
-- The backups of palaver/store/migrate.py.
use palaver.Prelude.{
  ℕ, zero, suc, Bool, true, false, ◌&&◌, Option, none, some, List, [], ◌∷◌, ◌==◌, if◌then◌else◌,
  length,
}

-- The database file: its `user_version` and its tables.
pub record DatabaseFile (T : Type 0) : Type 0 where
  pub user_version : ℕ
  pub tables : T

-- `<db>.bak-<version>`, or with `.<suffix>` behind it where the suffix is not zero.
pub record Backup (T : Type 0) : Type 0 where
  pub from_version : ℕ
  pub suffix : ℕ
  pub database : DatabaseFile T

module _ {T : Type 0} where
  abbrev pub has_name : ℕ → ℕ → Backup T → Bool
  has_name version suffix b = b.from_version == version && b.suffix == suffix

  unfoldable pub find_backup : ℕ → ℕ → List (Backup T) → Option (DatabaseFile T)
  find_backup version suffix [] = none
  find_backup version suffix (b ∷ bs) =
      if has_name version suffix b then some b.database else find_backup version suffix bs

  -- `candidate.exists()`.
  unfoldable pub exists : ℕ → ℕ → List (Backup T) → Bool
  unfolding find_backup
  exists version suffix bs = elim (find_backup version suffix bs) [ none ↦ false | some d ↦ true ]

  -- The loop of `_free_backup_path`.
  unfoldable pub free_suffix : ℕ → ℕ → ℕ → List (Backup T) → ℕ
  unfolding exists
  free_suffix zero version suffix bs = suffix
  free_suffix (suc fuel) version suffix bs = elim (exists version suffix bs) [
    | true ↦ free_suffix fuel version (suc suffix) bs
    | false ↦ suffix
  ]

  unfoldable pub free_backup_path : ℕ → List (Backup T) → ℕ
  unfolding free_suffix
  free_backup_path version bs = free_suffix (length bs) version 0 bs

  -- `os.replace`: a file of that name is gone.
  unfoldable pub without_name : ℕ → ℕ → List (Backup T) → List (Backup T)
  without_name version suffix [] = []
  without_name version suffix (b ∷ bs) =
      let rest = without_name version suffix bs in
      if has_name version suffix b then rest else b ∷ rest

  unfoldable pub take_backup : ℕ → ℕ → DatabaseFile T → List (Backup T) → List (Backup T)
  unfolding without_name
  take_backup version suffix d bs =
      record { from_version = version; suffix = suffix; database = d }
      ∷ without_name version suffix bs
