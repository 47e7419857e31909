-- ===== src/FileSystem/Changes.antt =====
-- What the calls of package os leave on the disk.
use metricz_exporter.Base.{
  ◌≡◌, ◌≢◌, refl, ◌∙◌, take, String, string_key, Option, Option-cases, none, some, [], inl, inr,
  arith,
}
use metricz_exporter.Base.Map
use metricz_exporter.Base.Map.{get-set_ne, get-set_self, get-delete}
use metricz_exporter.Storage.{Bytes}
use metricz_exporter.FileSystem.{
  File, Disk, OsError, not_exist, stat_file, Op, write_file, create, write, rename, Os, file_at,
  torn, renamed, write_all, remove_file, rename_file, create_file, write_open, Same,
}

module _ (os : Os) (path j : String) (disk : Disk) (beside : path ≢ j) where
  torn-Same : (op : Op) (bytes : Bytes) → Same j disk (torn os op path bytes disk)
  torn-Same op bytes = elim (Option-cases (Os.written os op)) [
    | inl e ↦ rw (e, torn) refl
    | inr (n, e) ↦ rw (e, torn) (get-set_ne path j (file_at os (take n bytes)) disk beside)
  ]

  pub write_all-Same : (bytes : Bytes) → Same j disk (write_all os path bytes disk).0
  unfolding write_all
  write_all-Same bytes = elim (Option-cases (Os.fails os (write_file path))) [
    | inl e ↦ rw (e, write_all) (get-set_ne path j (file_at os bytes) disk beside)
    | inr (cause, e) ↦ rw (e, write_all) (torn-Same (write_file path) bytes)
  ]

  pub create_file-Same : Same j disk (create_file os path disk).0
  unfolding create_file
  create_file-Same = elim (Option-cases (Os.fails os (create path))) [
    | inl e ↦ rw (e, create_file) (get-set_ne path j _ disk beside)
    | inr (cause, e) ↦ rw (e, create_file) refl
  ]

  pub write_open-Same : (bytes : Bytes) → Same j disk (write_open os path bytes disk).0
  unfolding write_open
  write_open-Same bytes = elim (Option-cases (Os.fails os (write path))) [
    | inl e ↦ rw (e, write_open) (get-set_ne path j (file_at os bytes) disk beside)
    | inr (cause, e) ↦ rw (e, write_open) (torn-Same (write path) bytes)
  ]

  pub remove_file-Same : Same j disk (remove_file os path disk).0
  unfolding remove_file
  remove_file-Same = ground (arith, get-delete path j disk)

  delete-Same : Same j disk (Map.delete path disk)
  delete-Same = ground (arith, get-delete path j disk)

  renamed-Same : (to : String) (f : Option File) → to ≢ j → Same j disk (renamed path to disk f).0
  renamed-Same to none h = refl
  renamed-Same to (some f) h = get-set_ne to j f (Map.delete path disk) h ∙ delete-Same

  pub rename_file-Same : (to : String) → to ≢ j → Same j disk (rename_file os path to disk).0
  unfolding rename_file
  rename_file-Same to h = elim (Option-cases (Os.fails os (rename path to))) [
    | inl e ↦ rw (e, rename_file) (renamed-Same to (Map.get path disk) h)
    | inr (cause, e) ↦ rw (e, rename_file) refl
  ]

-- The calls without an error.
module _ (os : Os) (path : String) (disk : Disk) where
  pub write_all-done :
      (bytes : Bytes)
      → (write_all os path bytes disk).1 ≡ none
      → (write_all os path bytes disk).0 ≡ Map.set path (file_at os bytes) disk
  unfolding write_all
  write_all-done bytes done = ground arith

  pub create_file-done :
      (create_file os path disk).1 ≡ none
      → (create_file os path disk).0 ≡ Map.set path (file_at os []) disk
  unfolding create_file
  create_file-done done = ground arith

  pub write_open-done :
      (bytes : Bytes)
      → (write_open os path bytes disk).1 ≡ none
      → (write_open os path bytes disk).0 ≡ Map.set path (file_at os bytes) disk
  unfolding write_open
  write_open-done bytes done = ground arith

  pub rename_file-done :
      (to : String)
      → (rename_file os path to disk).1 ≡ none
      → (f : File) × (Map.get path disk ≡ some f)
        × ((rename_file os path to disk).0 ≡ Map.set to f (Map.delete path disk))
  unfolding rename_file
  rename_file-done to done = elim (Option-cases (Map.get path disk)) [
    | inl missing ↦ let no : ⊥ = ground arith in elim no [ ]
    | inr (f, found) ↦ (f, found, ground arith)
  ]

  pub rename_file-failed :
      (to : String) (cause : OsError)
      → (rename_file os path to disk).1 ≡ some cause
      → (rename_file os path to disk).0 ≡ disk
  unfolding rename_file
  rename_file-failed to cause failed = ground arith

pub stat_file-found :
    (os : Os) (path : String) (disk : Disk) (f : File)
    → stat_file os path disk ≡ inr f
    → Map.get path disk ≡ some f
unfolding stat_file
stat_file-found os path disk f h = ground arith

pub stat_file-present :
    (os : Os) (path : String) (disk : Disk) (f : File)
    → Map.get path disk ≡ some f
    → stat_file os path disk ≢ inl not_exist
unfolding stat_file
stat_file-present os path disk f h e = ground arith
