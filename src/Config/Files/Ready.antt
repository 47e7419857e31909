-- ===== src/Config/Files/Ready.antt =====
-- When the configuration's file is there with content: cli.go, EnsureConfigFile.
use metricz_exporter.Base.{
  ◌≡◌, refl, eqb, length, Bool, Bool-cases, true, false, String, string_key, Option-cases, none,
  some, ◌⊎◌, inl, inr, arith,
}
use metricz_exporter.Base.Map
use metricz_exporter.Base.Map.{get-set_self, get-delete}
use metricz_exporter.Storage.{Bytes}
use metricz_exporter.FileSystem.{
  File, Disk, OsError, not_exist, invalid, refused, Os, Changed, file_at, stat_file, read_all,
}
use metricz_exporter.Config.Files.{
  has_content, read_content, tested, is_non_empty_file, write_file_atomic, ensured,
  ensure_config_file,
}
use metricz_exporter.Config.Files.Content.{IsAtomic, write_file_atomic-IsAtomic}

-- Without an error the file is there, with content.
abbrev pub IsReady : String → Changed → Type 0
IsReady path (disk, none) =
    (f : File) × (Map.get path disk ≡ some f) × (has_content f.content ≡ true)
IsReady path (disk, some e) = Unit

module _ (os : Os) (example : Bytes) (full : has_content example ≡ true) (path : String)
    (disk : Disk) where
  IsAtomic-IsReady : (p : Changed) → IsAtomic os path example disk p → IsReady path p
  IsAtomic-IsReady (disk', none) whole = (file_at os example, whole, full)
  IsAtomic-IsReady (disk', some e) whole = tt

  read_content-true : read_content (read_all os path disk) ≡ inr true → IsReady path (disk, none)
  unfolding read_all
  read_content-true h = elim (Option-cases (Map.get path disk)) [
    | inl missing ↦ let no : ⊥ = ground arith in elim no [ ]
    | inr (f, found) ↦ (f, found, ground arith)
  ]

  tested-true :
      (found : OsError ⊎ File) → tested os path disk found ≡ inr true → IsReady path (disk, none)
  tested-true (inl not_exist) h = let no : ⊥ = ground arith in elim no [ ]
  tested-true (inl invalid) h = let no : ⊥ = ground arith in elim no [ ]
  tested-true (inl (refused cause)) h = let no : ⊥ = ground arith in elim no [ ]
  tested-true (inr f) h = elim (Bool-cases (eqb (length f.content) 0)) [
    | inl empty ↦ let no : ⊥ = ground arith in elim no [ ]
    | inr other ↦ read_content-true (ground arith)
  ]

  ensured-IsReady :
      (seen : OsError ⊎ Bool)
      → is_non_empty_file os path disk ≡ seen
      → IsReady path (ensured os example path disk seen)
  unfolding is_non_empty_file
  ensured-IsReady (inl cause) h = tt
  ensured-IsReady (inr true) h = tested-true (stat_file os path disk) h
  ensured-IsReady (inr false) h =
      IsAtomic-IsReady (write_file_atomic os path example disk)
        (write_file_atomic-IsAtomic os path example disk)

  -- The configuration's file after EnsureConfigFile.
  pub ensure_config_file-IsReady : IsReady path (ensure_config_file os example path disk)
  unfolding ensure_config_file
  ensure_config_file-IsReady = ensured-IsReady (is_non_empty_file os path disk) refl
