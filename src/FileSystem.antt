-- ===== src/FileSystem.antt =====
-- The files that internal/config/cli.go, internal/geoip/downloader.go and internal/logger/logger.go
-- read and write by package os. No other process changes them between two calls.
pub mod Changes
use metricz_exporter.Base.{
  ℕ, ◌≡◌, ◌≢◌, ◌+◌, ap, sym, take, String, ◌<>◌, string_key, Option, none, some, List, ◌⊎◌, inl,
  inr, arith,
}
use metricz_exporter.Base.Map
use metricz_exporter.Base.Map.{Map}
use metricz_exporter.Storage.{Time, Bytes}
use Prim.Native.String.{len}
use text.Mathlib.TextPositions.{len-append}

pub record File : Type 0 where
  pub content : Bytes
  pub mod_time : Time

abbrev pub Disk : Type 0
Disk = Map String File

pub data OsError : Type 0 where
  -- os.IsNotExist holds for it
  not_exist : OsError
  -- os.ErrInvalid
  invalid : OsError
  refused : String → OsError

pub data Op : Type 0 where
  stat read_file write_file remove create write close mkdir_all open_append : String → Op
  -- from, to
  rename : String → String → Op

-- What fails, and why, other than for a missing file; where a write fails, how many bytes have been written before, if the file
-- was opened at all. `dir` is filepath.Dir, and `now` the time of the writes.
pub record Os : Type 0 where
  pub fails : Op → Option String
  pub written : Op → Option ℕ
  pub dir : String → String
  pub now : Time

abbrev pub file_at : Os → Bytes → File
file_at os content = record { content = content; mod_time = os.now }

abbrev found : Option File → OsError ⊎ File
found none = inl not_exist
found (some f) = inr f

-- os.Stat: the file, of which the size and the time of the last change are read.
unfoldable pub stat_file : Os → String → Disk → OsError ⊎ File
unfolding Map.get
stat_file os path disk = elim (Os.fails os (stat path)) [
  | some cause ↦ inl (refused cause)
  | none ↦ found (Map.get path disk)
]

abbrev content_of : OsError ⊎ File → OsError ⊎ Bytes
content_of (inl cause) = inl cause
content_of (inr f) = inr f.content

-- os.ReadFile
unfoldable pub read_all : Os → String → Disk → OsError ⊎ Bytes
unfolding Map.get
read_all os path disk = elim (Os.fails os (read_file path)) [
  | some cause ↦ inl (refused cause)
  | none ↦ content_of (found (Map.get path disk))
]

-- What a write leaves that fails.
abbrev pub torn : Os → Op → String → Bytes → Disk → Disk
torn os op path bytes disk = elim (Os.written os op) [
  | none ↦ disk
  | some n ↦ Map.set path (file_at os (take n bytes)) disk
]

-- Both the writes and their errors.
abbrev pub Changed : Type 0
Changed = Disk × Option OsError

-- os.WriteFile
unfoldable pub write_all : Os → String → Bytes → Disk → Changed
unfolding Map.set
write_all os path bytes disk = elim (Os.fails os (write_file path)) [
  | some cause ↦ (torn os (write_file path) path bytes disk, some (refused cause))
  | none ↦ (Map.set path (file_at os bytes) disk, none)
]

abbrev pub removed : String → Disk → Option File → Changed
removed path disk none = (disk, some not_exist)
removed path disk (some f) = (Map.delete path disk, none)

-- os.Remove
unfoldable pub remove_file : Os → String → Disk → Changed
unfolding Map.get Map.delete
remove_file os path disk = elim (Os.fails os (remove path)) [
  | some cause ↦ (disk, some (refused cause))
  | none ↦ removed path disk (Map.get path disk)
]

abbrev pub renamed : String → String → Disk → Option File → Changed
renamed from to disk none = (disk, some not_exist)
renamed from to disk (some f) = (Map.set to f (Map.delete from disk), none)

-- os.Rename
unfoldable pub rename_file : Os → String → String → Disk → Changed
unfolding Map.get Map.set Map.delete
rename_file os from to disk = elim (Os.fails os (rename from to)) [
  | some cause ↦ (disk, some (refused cause))
  | none ↦ renamed from to disk (Map.get from disk)
]

-- os.Create: an empty file.
unfoldable pub create_file : Os → String → Disk → Changed
unfolding Map.set
create_file os path disk = elim (Os.fails os (create path)) [
  | some cause ↦ (disk, some (refused cause))
  | none ↦ (Map.set path (file_at os List.[]) disk, none)
]

abbrev appendable : Os → String → Disk → Option File → Disk
appendable os path disk none = Map.set path (file_at os List.[]) disk
appendable os path disk (some f) = disk

-- os.OpenFile with O_APPEND, O_CREATE and O_WRONLY: an empty file if there is none.
unfoldable pub open_for_append : Os → String → Disk → Changed
unfolding Map.get Map.set
open_for_append os path disk = elim (Os.fails os (open_append path)) [
  | some cause ↦ (disk, some (refused cause))
  | none ↦ (appendable os path disk (Map.get path disk), none)
]

-- Writing to an empty file that is open.
unfoldable pub write_open : Os → String → Bytes → Disk → Changed
unfolding Map.set
write_open os path bytes disk = elim (Os.fails os (write path)) [
  | some cause ↦ (torn os (write path) path bytes disk, some (refused cause))
  | none ↦ (Map.set path (file_at os bytes) disk, none)
]

abbrev pub tmp_of : String → String
tmp_of path = path <> ".tmp"

pub tmp_of-ne : (path : String) → tmp_of path ≢ path
tmp_of-ne path e =
    let longer : len (tmp_of path) ≡ len path + 4 = len-append path ".tmp" in
    let same : len (tmp_of path) ≡ len path = ap len e in omega (arith, longer, same)

-- The files that two disks have under a path.
abbrev pub Same : String → Disk → Disk → Type 0
Same j disk disk' = Map.get j disk' ≡ Map.get j disk
