-- ===== src/Logging.antt =====
-- internal/logger/logger.go: Setup. The global logger of zerolog is the result.
use metricz_exporter.Base.{
  ℤ, pos, Bool, false, not, if◌then◌else◌, String, str_eq, Option, none, some, ◌⊎◌, inl, inr,
}
use metricz_exporter.Config.{Logger}
use metricz_exporter.FileSystem.{Disk, OsError, Os, Changed, open_for_append}
use metricz_exporter.Terminal.{Writer, stdout, stderr, file, Terminal, can_use_ansi_colors}

-- zerolog.InfoLevel
abbrev pub info_level : ℤ
info_level = pos 1

pub record Logging : Type 0 where
  pub level : ℤ
  pub writer : Writer
  pub is_json : Bool
  -- of the writer for texts
  pub no_color : Bool

abbrev pub or_default : String → String → String
or_default value default = if str_eq value "" then default else value

unfoldable pub with_fallbacks : Logger → Logger
with_fallbacks l = record {
  level = or_default l.level "info";
  format = or_default l.format "text";
  output = or_default l.output "stderr";
}

abbrev opened : String → Changed → Disk × (OsError ⊎ Writer)
opened path (disk, none) = (disk, inr (file path))
opened path (disk, some cause) = (disk, inl cause)

-- The writer that the output names; an error is logged at the fatal level, which ends the process.
unfoldable pub open_output : Os → String → Disk → Disk × (OsError ⊎ Writer)
unfolding open_for_append
open_output os output disk =
    if str_eq output "stdout"
    then (disk, inr stdout)
    else if str_eq output "stderr"
    then (disk, inr stderr)
    else opened output (open_for_append os output disk)

abbrev logging_to : Terminal → (String → Option ℤ) → Logger → Writer → Logging
logging_to terminal parse_level l writer = record {
  level = elim (parse_level l.level) [ none ↦ info_level | some level ↦ level ];
  writer = writer;
  is_json = str_eq l.format "json";
  no_color = if str_eq l.format "json" then false else not (can_use_ansi_colors terminal writer);
}

abbrev set_up :
    Terminal → (String → Option ℤ) → Logger → Disk × (OsError ⊎ Writer) → Disk × (OsError ⊎ Logging)
set_up terminal parse_level l (disk, inl cause) = (disk, inl cause)
set_up terminal parse_level l (disk, inr writer) =
    (disk, inr (logging_to terminal parse_level l writer))

-- Setup, of a logger with the fallbacks; `parse_level` is zerolog.ParseLevel.
unfoldable pub setup :
    Terminal → (String → Option ℤ) → Os → Logger → Disk → Disk × (OsError ⊎ Logging)
unfolding open_output can_use_ansi_colors
setup terminal parse_level os l disk = set_up terminal parse_level l (open_output os l.output disk)
