-- ===== src/Migrations/Names.antt =====
-- `_free_backup_path` of palaver/store/migrate.py finds a name that no backup has.
use palaver.Prelude.{
  ℕ, zero, suc, ◌≤◌, ◌<◌, true, false, ◌&&◌, List, [], ◌∷◌, ◌==◌, ◌≡◌, inl, inr, refl, arith, leb,
  if◌then◌else◌, length, Bool-cases,
}
use palaver.Migrations.Backup.{
  DatabaseFile, Backup, find_backup, exists, free_suffix, free_backup_path, without_name,
  take_backup,
}

module _ {T : Type 0} where
  -- How many backups of a version have a suffix from `s` on.
  abbrev later : ℕ → ℕ → List (Backup T) → ℕ
  later version s [] = 0
  later version s (b ∷ bs) =
      let rest = later version s bs in
      if b.from_version == version && leb s b.suffix then suc rest else rest

  later-length : (v s : ℕ) (bs : List (Backup T)) → later v s bs ≤ length bs
  later-length v s [] = omega arith
  later-length v s (b ∷ bs) = ground (arith, later-length v s bs)

  later_antitone : (v s : ℕ) (bs : List (Backup T)) → later v (suc s) bs ≤ later v s bs
  later_antitone v s [] = omega arith
  later_antitone v s (b ∷ bs) = ground (arith, later_antitone v s bs)

  later_exists :
      (v s : ℕ) (bs : List (Backup T)) → exists v s bs ≡ true → later v (suc s) bs < later v s bs
  unfolding exists find_backup
  later_exists v s [] h = absurd (ground arith)
  later_exists v s (b ∷ bs) h = ground (arith, later_antitone v s bs, later_exists v s bs)

  free_suffix_free :
      (fuel v s : ℕ) (bs : List (Backup T))
      → later v s bs ≤ fuel
      → exists v (free_suffix fuel v s bs) bs ≡ false
  unfolding free_suffix
  free_suffix_free zero v s bs h = elim (Bool-cases (exists v s bs)) [
    | inl taken ↦ absurd (omega (arith, later_exists v s bs taken))
    | inr free ↦ free
  ]
  free_suffix_free (suc fuel) v s bs h = elim (Bool-cases (exists v s bs)) [
    | inl taken ↦
        rw (taken, free_suffix)
          (free_suffix_free fuel v (suc s) bs (omega (arith, later_exists v s bs taken)))
    | inr free ↦ rw (free, free_suffix) free
  ]

  -- The loop of `_free_backup_path` ends, on a name that no backup has.
  free_backup_path_free :
      (v : ℕ) (bs : List (Backup T)) → exists v (free_backup_path v bs) bs ≡ false
  unfolding free_backup_path
  free_backup_path_free v bs = free_suffix_free (length bs) v 0 bs (later-length v 0 bs)

  without_name_none :
      (v s : ℕ) (bs : List (Backup T)) → exists v s bs ≡ false → without_name v s bs ≡ bs
  unfolding without_name exists find_backup
  without_name_none v s [] h = refl
  without_name_none v s (b ∷ bs) h = ground (arith, without_name_none v s bs)

  -- A backup under a free name is only added.
  pub take_backup_free :
      (v : ℕ) (d : DatabaseFile T) (bs : List (Backup T))
      → take_backup v (free_backup_path v bs) d bs
        ≡ record { from_version = v; suffix = free_backup_path v bs; database = d } ∷ bs
  unfolding take_backup
  take_backup_free v d bs =
      rw (without_name_none v (free_backup_path v bs) bs (free_backup_path_free v bs)) refl
