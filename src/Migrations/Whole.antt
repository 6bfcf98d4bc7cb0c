-- ===== src/Migrations/Whole.antt =====
-- However `migrate` of palaver/store/migrate.py ends, no migration is half applied.
use palaver.Prelude.{
  ℕ, Bool, true, false, not, Option, List, [], ◌∷◌, ◌++◌, ◌≡◌, inl, inr, refl, sym, ap, ◌∙◌, arith,
  leb, if◌then◌else◌, Bool-cases, Option-cases, ap₂,
}
use mathlib.Core.Path.{subst}
use palaver.Migrations.Backup.{DatabaseFile, Backup, find_backup, free_backup_path}
use palaver.Migrations.Migrate.{
  Migration, Engine, Files, migration_error, backup_error, Migrated, version_is, migrate_raised,
  sorted, run_statements, transaction, restored, recover, finish, under_lock, migrate_one, skips,
  and_then, migrate_each, target_of, migrate,
}
use palaver.Migrations.Names.{take_backup_free}
use palaver.Migrations.Due.{IsDue, pending-IsDue}
use palaver.Migrations.Applied.{
  Ran, at_end, ran, Applied, nothing, applied, pending, Kept, Kept-trans, backed_up, added,
  find_top,
}

module _ {S : Type 0} where
  not_skipped :
      (m : Migration S) (version target : ℕ)
      → skips m version target ≡ false
      → leb m.version version ≡ false
  unfolding skips
  not_skipped m version target due = ground (arith, due)

module _ {T S : Type 0} where
  -- How a run ends that had some migrations to do.
  abbrev pub Whole : Engine T S → Files T → List (Migration S) → Migrated T → Type 0
  Whole engine files todo (version_is version files') =
      Applied engine files.database todo files'.database
      × (version ≡ files'.database.user_version)
      × Kept files files'
  Whole engine files todo (migrate_raised e files') =
      (first rest : List (Migration S)) × (todo ≡ first ++ rest)
      × Applied engine files.database first files'.database
      × Kept files files'

  abbrev One : Engine T S → Migration S → Files T → Migrated T → Type 0
  One engine m files (version_is version files') =
      (t : T) × Ran engine m.statements files.database.tables t
      × (files'.database ≡ record { user_version = m.version; tables = t })
      × (version ≡ m.version)
      × Kept files files'
  One engine m files (migrate_raised e files') =
      (files'.database ≡ files.database) × Kept files files'

  run_statements-Ran :
      (engine : Engine T S) (ss : List S) (t : T)
      → (run_statements engine ss t).0 ≡ true
      → Ran engine ss t (run_statements engine ss t).1
  unfolding run_statements
  run_statements-Ran engine [] t h = at_end
  run_statements-Ran engine (s ∷ ss) t h = elim (Option-cases (engine.run s t)) [
    | inl failed ↦ absurd (ground (arith, failed))
    | inr (t', done) ↦
        rw (done, run_statements)
          (ran done (run_statements-Ran engine ss t' (rw (done, run_statements) at h)))
  ]

  transaction_done :
      (engine : Engine T S) (m : Migration S) (d : DatabaseFile T)
      → (transaction engine m d).0 ≡ true
      → ((run_statements engine m.statements d.tables).0 ≡ true)
        × ((transaction engine m d).1 ≡ record {
          user_version = m.version;
          tables = (run_statements engine m.statements d.tables).1;
        })
  unfolding transaction
  transaction_done engine m d h =
      elim (Bool-cases (run_statements engine m.statements d.tables).0) [
        | inl e ↦ (e, rw e refl)
        | inr e ↦ absurd (ground (arith, e))
      ]

  if-One :
      (engine : Engine T S) (m : Migration S) (files : Files T) (b : Bool) (x y : Migrated T)
      → One engine m files x
      → One engine m files y
      → One engine m files (if b then x else y)
  if-One engine m files true x y p q = p
  if-One engine m files false x y p q = q

  recover-One :
      (engine : Engine T S) (m : Migration S) (files : Files T) (version : ℕ)
      (half : DatabaseFile T)
      → One engine m files (
          recover engine m version
            (free_backup_path version files.backups)
            files.database
            (record (backed_up files version) { database = half }))
  unfolding recover restored
  recover-One engine m files version half =
      let d = files.database in
      let k = free_backup_path version files.backups in
      if-One engine m files (engine.rolls_back m.version)
        (migrate_raised migration_error (backed_up files version))
        (migrate_raised migration_error (record (backed_up files version) {
          database = restored (find_backup version k (backed_up files version).backups) half;
        }))
        (refl, added files version)
        (ap (λ b. restored b half) (find_top version k d files.backups), added files version)

  finish-One :
      (engine : Engine T S) (m : Migration S) (files : Files T) (version : ℕ)
      (r : Bool × DatabaseFile T)
      → (r.0 ≡ true
          → (t : T) × Ran engine m.statements files.database.tables t
            × (r.1 ≡ record { user_version = m.version; tables = t }))
      → One engine m files (
          finish engine m version
            (free_backup_path version files.backups)
            (backed_up files version)
            r)
  unfolding finish
  finish-One engine m files version (true, d) h =
      let (t, runs, same) = h refl in (t, runs, same, refl, added files version)
  finish-One engine m files version (false, d) h = recover-One engine m files version d

  under_lock-One :
      (engine : Engine T S) (m : Migration S) (files : Files T) (version : ℕ)
      → leb m.version files.database.user_version ≡ false
      → One engine m files (
          under_lock engine m version
            (free_backup_path version files.backups)
            (backed_up files version))
  unfolding under_lock
  under_lock-One engine m files version new =
      let d = files.database in
      rw (new, under_lock)
        (if-One engine m files (not (engine.begins m.version)) _ _ (refl, added files version)
          (finish-One engine m files version (transaction engine m d) (λ h.
            let (through, same) = transaction_done engine m d h in
            (
              (run_statements engine m.statements d.tables).1,
              run_statements-Ran engine m.statements d.tables through,
              same,
            ))))

  migrate_one-One :
      (engine : Engine T S) (m : Migration S) (files : Files T) (version : ℕ)
      → ((v : ℕ) (d : DatabaseFile T) → engine.others v d ≡ d)
      → version ≡ files.database.user_version
      → leb m.version version ≡ false
      → One engine m files (migrate_one engine m version files)
  unfolding migrate_one
  migrate_one-One engine m files version quiet same new =
      let k = free_backup_path version files.backups in
      let outcome : List (Backup T) → DatabaseFile T → Migrated T = λ bs d.
        if not (engine.backs_up m.version)
        then migrate_raised backup_error files
        else if not (engine.backup_reads m.version)
        then migrate_raised migration_error (record files { backups = bs })
        else under_lock engine m version k (record { database = d; backups = bs }) in
      let quietly : migrate_one engine m version files
          ≡ outcome (backed_up files version).backups files.database =
        ap₂ outcome (take_backup_free version files.database files.backups)
          (quiet m.version files.database) in
      subst (One engine m files) (sym quietly) (
        if-One engine m files (not (engine.backs_up m.version)) (migrate_raised backup_error files)
          _ (refl, ([], refl))
          (if-One engine m files (not (engine.backup_reads m.version))
            (migrate_raised migration_error (backed_up files version))
            (under_lock engine m version k (backed_up files version)) (refl, added files version)
            (under_lock-One engine m files version (rw same at new))))

  Whole-step :
      (engine : Engine T S) (m : Migration S) (todo : List (Migration S)) (files f : Files T)
      (t : T) (r : Migrated T)
      → Ran engine m.statements files.database.tables t
      → f.database ≡ record { user_version = m.version; tables = t }
      → Kept files f
      → Whole engine f todo r
      → Whole engine files (m ∷ todo) r
  Whole-step engine m todo files f t (version_is v g) done at kept (run, same, more) = (
    applied done (subst (λ d. Applied engine d todo g.database) at run),
    same,
    Kept-trans files f g kept more,
  )
  Whole-step engine m todo files f t (migrate_raised w g) done at kept
        (first, rest, split, run, more) =
      (
        m ∷ first,
        rest,
        ap (λ l. m ∷ l) split,
        applied done (subst (λ d. Applied engine d first g.database) at run),
        Kept-trans files f g kept more,
      )

  and_then-Whole :
      (engine : Engine T S) (target : ℕ) (m : Migration S) (ms : List (Migration S))
      (files : Files T) (r : Migrated T) (rest : ℕ → Files T → Migrated T)
      → One engine m files r
      → ((version : ℕ) (f : Files T)
          → version ≡ f.database.user_version
          → Whole engine f (pending target version ms) (rest version f))
      → Whole engine files (m ∷ pending target m.version ms) (and_then rest r)
  unfolding and_then
  and_then-Whole engine target m ms files (version_is v f) rest (t, done, at, e, kept) whole =
      let same : v ≡ f.database.user_version =
        e ∙ sym (ap (λ (d : DatabaseFile T). d.user_version) at) in
      Whole-step engine m (pending target m.version ms) files f t (rest v f) done at kept
        (subst (λ k. Whole engine f (pending target k ms) (rest v f)) e (whole v f same))
  and_then-Whole engine target m ms files (migrate_raised w f) rest (same, kept) whole = (
    [],
    m ∷ pending target m.version ms,
    refl,
    subst (λ d. Applied engine files.database [] d) (sym same) nothing,
    kept,
  )

  migrate_each-Whole :
      (engine : Engine T S) (target : ℕ) (ms : List (Migration S)) (version : ℕ) (files : Files T)
      → ((v : ℕ) (d : DatabaseFile T) → engine.others v d ≡ d)
      → version ≡ files.database.user_version
      → Whole engine files (pending target version ms) (migrate_each engine target ms version files)
  unfolding migrate_each
  migrate_each-Whole engine target [] version files quiet same = (nothing, same, ([], refl))
  migrate_each-Whole engine target (m ∷ ms) version files quiet same =
      elim (Bool-cases (skips m version target)) [
        | inl skipped ↦
            rw (skipped, migrate_each, pending)
              (migrate_each-Whole engine target ms version files quiet same)
        | inr due ↦
            rw (due, migrate_each, pending)
              (and_then-Whole engine target m ms files (migrate_one engine m version files)
                (migrate_each engine target ms)
                (migrate_one-One engine m files version quiet same
                  (not_skipped m version target due))
                (λ v f. migrate_each-Whole engine target ms v f quiet))
      ]

  -- Where no other connection migrates meanwhile, there is a list of migrations to do: of those
  -- given, for each version above the one found and not past the target, where one is given, in the
  -- order of their versions. If `migrate` returns, the statements of all of them have run, one after
  -- the other, each with its version number set, and it returns the version that the database has. If
  -- it raises, whether a backup, a statement, a commit or a rollback failed, those of the first of
  -- them have, and of the rest nothing, not even in part. Every backup that there was is still there.
  pub migrate-Whole :
      (engine : Engine T S) (target : Option ℕ) (migrations : List (Migration S)) (files : Files T)
      → ((v : ℕ) (d : DatabaseFile T) → engine.others v d ≡ d)
      → (todo : List (Migration S)) × IsDue target files.database.user_version migrations todo
        × Whole engine files todo (migrate engine target migrations files)
  unfolding migrate
  migrate-Whole engine target migrations files quiet =
      let ordered = sorted migrations in
      let last = target_of target ordered in
      let found = files.database.user_version in
      (
        pending last found ordered,
        pending-IsDue target found migrations,
        migrate_each-Whole engine last ordered found files quiet refl,
      )
