-- ===== src/Examples/MigrationRuns.antt =====
-- palaver/store/migrate.py, run on tables that are a number, where the second of two migrations fails.
use palaver.Prelude.{ℕ, ◌+◌, true, none, some, List, [], ◌∷◌, ◌≡◌, refl, ◌==◌, if◌then◌else◌, not}
use palaver.Migrations.Backup.{Backup}
use palaver.Migrations.Migrate.{
  Migration, Engine, Files, migration_error, migrate_raised, version_is, migrate,
}
use palaver.Migrations.Due.{IsDue}
use palaver.Migrations.Whole.{Whole, migrate-Whole}

-- A statement adds a number, and 9 is an error; the rollback to before version 2 fails.
abbrev engine : Engine ℕ ℕ
engine = record {
  run = λ s t. if s == 9 then none else some (t + s);
  backs_up = λ v. true;
  backup_reads = λ v. true;
  begins = λ v. true;
  commits = λ v. true;
  rolls_back = λ v. not (v == 2);
  others = λ v d. d;
}

abbrev migrations : List (Migration ℕ)
migrations =
    record { version = 2; statements = 7 ∷ 9 ∷ [] }
    ∷ record { version = 1; statements = 5 ∷ [] }
    ∷ []

abbrev fresh_backup : ℕ → ℕ → ℕ → Backup ℕ
fresh_backup v s t = record {
  from_version = v;
  suffix = s;
  database = record { user_version = v; tables = t };
}

-- There is a backup of version 0 already.
abbrev files : Files ℕ
files = record {
  database = record { user_version = 0; tables = 3 };
  backups = fresh_backup 0 0 1 ∷ [];
}

second_fails :
    migrate engine none migrations files
    ≡ migrate_raised migration_error (record {
      database = record { user_version = 1; tables = 8 };
      backups = fresh_backup 1 0 8 ∷ fresh_backup 0 1 3 ∷ fresh_backup 0 0 1 ∷ [];
    })
unfolding migrate
second_fails = refl

only_the_first :
    migrate engine (some 1) migrations files
    ≡ version_is 1 (record {
      database = record { user_version = 1; tables = 8 };
      backups = fresh_backup 0 1 3 ∷ fresh_backup 0 0 1 ∷ [];
    })
unfolding migrate
only_the_first = refl

migrate-Whole_example :
    (todo : List (Migration ℕ)) × IsDue none 0 migrations todo
    × Whole engine files todo (migrate engine none migrations files)
migrate-Whole_example = migrate-Whole engine none migrations files (λ v d. refl)
