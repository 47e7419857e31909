-- ===== src/Config/Files.antt =====
-- internal/config/cli.go: the files of the configuration. `example` is the embedded
-- example-config.yaml. A content is a list of code points, which for ASCII are its bytes.
pub mod Content
pub mod Ready
use metricz_exporter.Base.{
  ℕ, ltb, leb, eqb, length, Bool, true, false, not, ◌&&◌, ◌||◌, if◌then◌else◌, String, str_eq,
  Option, none, some, List, [], ◌∷◌, ◌++◌, ◌⊎◌, inl, inr,
}
use metricz_exporter.Storage.{Bytes}
use metricz_exporter.FileSystem.{
  File, Disk, OsError, not_exist, invalid, refused, mkdir_all, Os, Changed, stat_file, read_all,
  write_all, remove_file, rename_file, tmp_of,
}

-- unicode.IsSpace
unfoldable pub is_space : ℕ → Bool
is_space c =
    leb 9 c && leb c 13
    || eqb c 32
    || eqb c 0x85
    || eqb c 0xA0
    || eqb c 0x1680
    || leb 0x2000 c && leb c 0x200A
    || eqb c 0x2028
    || eqb c 0x2029
    || eqb c 0x202F
    || eqb c 0x205F
    || eqb c 0x3000

unfoldable pub trim_left : Bytes → Bytes
unfolding is_space
trim_left [] = []
trim_left (c ∷ cs) = let rest = trim_left cs in if is_space c then rest else c ∷ cs

-- The white space at the end: a blank rest is dropped.
unfoldable pub trim_right : Bytes → Bytes
unfolding is_space
trim_right [] = []
trim_right (c ∷ cs) =
    let rest = trim_right cs in if is_space c && eqb (length rest) 0 then [] else c ∷ rest

-- bytes.TrimSpace
abbrev pub trim_space : Bytes → Bytes
trim_space content = trim_right (trim_left content)

-- len(bytes.TrimSpace(b)) > 0
unfoldable pub has_content : Bytes → Bool
unfolding trim_left trim_right
has_content content = ltb 0 (length (trim_space content))

abbrev pub read_content : OsError ⊎ Bytes → OsError ⊎ Bool
read_content (inl cause) = inl cause
read_content (inr content) = inr (has_content content)

abbrev pub tested : Os → String → Disk → OsError ⊎ File → OsError ⊎ Bool
tested os path disk (inl not_exist) = inr false
tested os path disk (inl invalid) = inl invalid
tested os path disk (inl (refused cause)) = inl (refused cause)
tested os path disk (inr f) =
    if eqb (length f.content) 0 then inr false else read_content (read_all os path disk)

unfoldable pub is_non_empty_file : Os → String → Disk → OsError ⊎ Bool
unfolding has_content stat_file read_all
is_non_empty_file os path disk = tested os path disk (stat_file os path disk)

-- The end of writeFileAtomic, after os.Remove.
abbrev pub replaced : Os → String → Changed → Changed
replaced os path (disk, none) = rename_file os (tmp_of path) path disk
replaced os path (disk, some not_exist) = rename_file os (tmp_of path) path disk
replaced os path (disk, some invalid) = ((remove_file os (tmp_of path) disk).0, some invalid)
replaced os path (disk, some (refused cause)) =
    ((remove_file os (tmp_of path) disk).0, some (refused cause))

abbrev pub staged : Os → String → Changed → Changed
staged os path (disk, some cause) = (disk, some cause)
staged os path (disk, none) = replaced os path (remove_file os path disk)

abbrev pub made : Os → String → Bytes → Disk → Option String → Changed
made os path content disk (some cause) = (disk, some (refused cause))
made os path content disk none = staged os path (write_all os (tmp_of path) content disk)

unfoldable pub write_file_atomic : Os → String → Bytes → Disk → Changed
unfolding write_all remove_file rename_file
write_file_atomic os path content disk =
    let dir = Os.dir os path in
    made os path content disk (if not (str_eq dir ".") then Os.fails os (mkdir_all dir) else none)

abbrev pub ensured : Os → Bytes → String → Disk → OsError ⊎ Bool → Changed
ensured os example path disk (inl cause) = (disk, some cause)
ensured os example path disk (inr true) = (disk, none)
ensured os example path disk (inr false) = write_file_atomic os path example disk

unfoldable pub ensure_config_file : Os → Bytes → String → Disk → Changed
unfolding is_non_empty_file write_file_atomic
ensure_config_file os example path disk =
    ensured os example path disk (is_non_empty_file os path disk)

abbrev pub printed : Os → Bytes → String → Disk → OsError ⊎ Bool → OsError ⊎ Bytes
printed os example path disk (inl cause) = inl cause
printed os example path disk (inr true) = read_all os path disk
printed os example path disk (inr false) = inr example

-- PrintConfigOrExample: the error, or what is passed to w.Write.
unfoldable pub print_config_or_example : Os → Bytes → String → Disk → OsError ⊎ Bytes
unfolding is_non_empty_file read_all
print_config_or_example os example path disk =
    printed os example path disk (is_non_empty_file os path disk)
