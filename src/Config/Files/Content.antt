-- ===== src/Config/Files/Content.antt =====
-- What the configuration's file holds after each call: cli.go.
use metricz_exporter.Base.{
  ◌≡◌, ◌≢◌, refl, sym, ap, ◌∙◌, eqb, length, Bool, Bool-cases, true, false, String, string_key,
  Option, Option-cases, none, some, [], ◌∷◌, ◌⊎◌, inl, inr, arith,
}
use metricz_exporter.Base.Map
use metricz_exporter.Base.Map.{get-set_self, get-delete}
use metricz_exporter.Storage.{Bytes}
use metricz_exporter.FileSystem.{
  File, Disk, OsError, not_exist, invalid, refused, read_file, Os, Changed, file_at, stat_file,
  read_all, write_all, remove_file, rename_file, tmp_of, tmp_of-ne, Same,
}
use metricz_exporter.FileSystem.Changes.{
  write_all-Same, remove_file-Same, write_all-done, rename_file-done, rename_file-failed,
  stat_file-found, stat_file-present,
}
use metricz_exporter.Config.Files.{
  has_content, read_content, tested, is_non_empty_file, replaced, staged, made, write_file_atomic,
  ensured, ensure_config_file,
}

-- The whole content without an error; with one, the file that was there, or none.
abbrev pub IsAtomic : Os → String → Bytes → Disk → Changed → Type 0
IsAtomic os path content before (disk, none) = Map.get path disk ≡ some (file_at os content)
IsAtomic os path content before (disk, some e) = Same path before disk ⊎ (Map.get path disk ≡ none)

-- What os.Remove leaves at its path.
remove_file-own :
    (os : Os) (path : String) (disk : Disk)
    → Same path disk (remove_file os path disk).0
      ⊎ (Map.get path (remove_file os path disk).0 ≡ none)
unfolding remove_file
remove_file-own os path disk = ground (arith, get-delete path path disk)

module _ (os : Os) (path : String) (content : Bytes) (before : Disk) where
  rename-IsAtomic :
      (disk : Disk)
      → Map.get (tmp_of path) disk ≡ some (file_at os content)
      → Same path before disk ⊎ (Map.get path disk ≡ none)
      → (p : Changed) → p ≡ rename_file os (tmp_of path) path disk
      → IsAtomic os path content before p
  rename-IsAtomic disk whole vanished (disk', none) e =
      let done : (rename_file os (tmp_of path) path disk).1 ≡ none = sym (ap (λ p. p.1) e) in
      let (f, found, moved) = rename_file-done os (tmp_of path) disk path done in
      let same : file_at os content ≡ f = cc in
      ap (λ p. Map.get path p.0) e
      ∙ (ap (λ d. Map.get path d) moved ∙ get-set_self path f (Map.delete (tmp_of path) disk))
      ∙ ap some (sym same)
  rename-IsAtomic disk whole vanished (disk', some cause) e =
      let failed : (rename_file os (tmp_of path) path disk).1 ≡ some cause =
        sym (ap (λ p. p.1) e) in
      let kept : disk' ≡ disk =
        ap (λ p. p.0) e ∙ rename_file-failed os (tmp_of path) disk path cause failed in
      rw kept vanished

  replaced-IsAtomic :
      (p : Changed)
      → Map.get (tmp_of path) p.0 ≡ some (file_at os content)
      → Same path before p.0 ⊎ (Map.get path p.0 ≡ none)
      → IsAtomic os path content before (replaced os path p)
  replaced-IsAtomic (disk, none) whole vanished =
      rename-IsAtomic disk whole vanished (rename_file os (tmp_of path) path disk) refl
  replaced-IsAtomic (disk, some not_exist) whole vanished =
      rename-IsAtomic disk whole vanished (rename_file os (tmp_of path) path disk) refl
  replaced-IsAtomic (disk, some invalid) whole vanished =
      rw (remove_file-Same os (tmp_of path) path disk (tmp_of-ne path)) vanished
  replaced-IsAtomic (disk, some (refused cause)) whole vanished =
      rw (remove_file-Same os (tmp_of path) path disk (tmp_of-ne path)) vanished

  removed-vanished :
      (disk : Disk)
      → Same path before disk
      → Same path before (remove_file os path disk).0
        ⊎ (Map.get path (remove_file os path disk).0 ≡ none)
  removed-vanished disk same = elim (remove_file-own os path disk) [
    | inl kept ↦ inl (kept ∙ same)
    | inr gone ↦ inr gone
  ]

  staged-IsAtomic :
      (p : Changed)
      → Same path before p.0
      → (p.1 ≡ none → Map.get (tmp_of path) p.0 ≡ some (file_at os content))
      → IsAtomic os path content before (staged os path p)
  staged-IsAtomic (disk, some cause) same whole = inl same
  staged-IsAtomic (disk, none) same whole =
      let apart : path ≢ tmp_of path = λ e. tmp_of-ne path (sym e) in
      replaced-IsAtomic (remove_file os path disk)
        (remove_file-Same os path (tmp_of path) disk apart ∙ whole refl)
        (removed-vanished disk same)

  made-IsAtomic :
      (refusal : Option String)
      → IsAtomic os path content before (made os path content before refusal)
  made-IsAtomic (some cause) = inl refl
  made-IsAtomic none =
      staged-IsAtomic (write_all os (tmp_of path) content before)
        (write_all-Same os (tmp_of path) path before (tmp_of-ne path) content)
        λ done.
          rw (write_all-done os (tmp_of path) before content done)
            (get-set_self (tmp_of path) (file_at os content) before)

  -- After writeFileAtomic without an error the file at the path has the whole content; after an
  -- error, whichever call of the operating system failed and whatever it left of a write, the file
  -- is the one that was there before, or there is none.
  pub write_file_atomic-IsAtomic :
      IsAtomic os path content before (write_file_atomic os path content before)
  unfolding write_file_atomic
  write_file_atomic-IsAtomic = made-IsAtomic _

has_content-empty : (content : Bytes) → eqb (length content) 0 ≡ true → has_content content ≡ false
unfolding has_content
has_content-empty [] h = refl
has_content-empty (c ∷ cs) h = ground arith

-- A file with content is seen as such, unless it cannot be read.
abbrev IsSeen : OsError ⊎ Bool → Type 0
IsSeen (inl cause) = Unit
IsSeen (inr b) = b ≡ true

module _ (os : Os) (path : String) (disk : Disk) (f : File) (present : Map.get path disk ≡ some f)
    (full : has_content f.content ≡ true) where
  read_content-IsSeen : IsSeen (read_content (read_all os path disk))
  unfolding read_all
  read_content-IsSeen = elim (Option-cases (Os.fails os (read_file path))) [
    | inl e ↦ rw (e, read_all) (rw present full)
    | inr (cause, e) ↦ rw (e, read_all) tt
  ]

  tested-IsSeen :
      (found : OsError ⊎ File) → stat_file os path disk ≡ found → IsSeen (tested os path disk found)
  tested-IsSeen (inl not_exist) h = elim (stat_file-present os path disk f present h) [ ]
  tested-IsSeen (inl invalid) h = tt
  tested-IsSeen (inl (refused cause)) h = tt
  tested-IsSeen (inr g) h =
      let found : Map.get path disk ≡ some g = stat_file-found os path disk g h in
      let same : g ≡ f = cc in
      elim (Bool-cases (eqb (length g.content) 0)) [
        | inl empty ↦
            let blank : has_content f.content ≡ false =
              rw (← same) (has_content-empty g.content empty) in
            let no : ⊥ = ground arith in elim no [ ]
        | inr other ↦ rw other read_content-IsSeen
      ]

  is_non_empty_file-IsSeen : IsSeen (is_non_empty_file os path disk)
  unfolding is_non_empty_file
  is_non_empty_file-IsSeen = tested-IsSeen (stat_file os path disk) refl

  ensured-kept :
      (example : Bytes) (seen : OsError ⊎ Bool)
      → IsSeen seen
      → (ensured os example path disk seen).0 ≡ disk
  ensured-kept example (inl cause) h = refl
  ensured-kept example (inr true) h = refl
  ensured-kept example (inr false) h = cc

  -- If the file at the configuration's path has content other than white space, EnsureConfigFile
  -- changes no file, even if some of its calls of the operating system fail.
  pub ensure_config_file-kept :
      (example : Bytes) → (ensure_config_file os example path disk).0 ≡ disk
  unfolding ensure_config_file
  ensure_config_file-kept example =
      ensured-kept example (is_non_empty_file os path disk) is_non_empty_file-IsSeen
