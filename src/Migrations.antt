-- ===== src/Migrations.antt =====
-- palaver/store/migrate.py: schema migrations, with a backup before each.
pub mod Backup
pub mod Migrate
pub mod Names
pub mod Applied
pub mod Due
pub mod Whole
