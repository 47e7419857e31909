-- ===== src/Console.antt =====
-- internal/service/console_windows.go and console_unix.go. The calls of the Windows API are
-- parameters: what they answer, and the state is the process's standard files.
use metricz_exporter.Base.{
  ℕ, ◌%◌, ◌/◌, eqb, Bool, true, false, not, ◌||◌, if◌then◌else◌, String, Option, none, some, ◌⊎◌,
  inl, inr,
}

pub data StdHandle : Type 0 where
  std_output_handle std_error_handle : StdHandle

pub data FileType : Type 0 where
  file_type_char file_type_disk file_type_pipe file_type_unknown : FileType

-- os.Stdin, os.Stdout and os.Stderr, each a file by its number.
pub record Stdio : Type 0 where
  pub stdin : ℕ
  pub stdout : ℕ
  pub stderr : ℕ

-- GetConsoleWindow; GetStdHandle, GetFileType and GetConsoleMode with the text of their error;
-- AttachConsole, AllocConsole and SetConsoleTitleW with the BOOL and the last error, of which 0 is
-- ERROR_SUCCESS; UTF16PtrFromString's error; os.OpenFile of a name after the calls that were made.
pub record Console : Type 0 where
  pub console_window : ℕ
  pub get_std_handle : StdHandle → String ⊎ ℕ
  pub get_file_type : ℕ → String ⊎ FileType
  pub get_console_mode : ℕ → String ⊎ ℕ
  pub attach : ℕ → ℕ × Option ℕ
  pub alloc : ℕ × Option ℕ
  pub set_title : String → ℕ × Option ℕ
  pub utf16_error : String → Option String
  pub open_file : String → Option ℕ

-- The two builds of the package.
pub data Platform : Type 0 where
  unix : Platform
  windows : Console → Platform

pub data ConsoleError : Type 0 where
  last_error : ℕ → ConsoleError
  invalid_title : String → ConsoleError
  -- fmt.Errorf
  failed : String → ConsoleError

-- attachParentProcess
abbrev pub attach_parent_process : ℕ
attach_parent_process = 4294967295

abbrev pub is_char : FileType → Bool
is_char file_type_char = true
is_char _ = false

-- GetFileType of a standard handle is FILE_TYPE_CHAR.
unfoldable pub is_char_handle : Console → String ⊎ ℕ → Bool
is_char_handle c (inl e) = false
is_char_handle c (inr h) =
    if eqb h 0
    then false
    else elim (Console.get_file_type c h) [ inl e ↦ false | inr t ↦ is_char t ]

unfoldable pub stdio_usable : Console → Bool
unfolding is_char_handle
stdio_usable c =
    is_char_handle c (c.get_std_handle std_output_handle)
    || is_char_handle c (c.get_std_handle std_error_handle)

unfoldable pub stdio_to_console : Console → Bool
unfolding is_char_handle
stdio_to_console c = is_char_handle c (c.get_std_handle std_output_handle)

-- mode&0x0004 != 0
abbrev pub has_vt_bit : ℕ → Bool
has_vt_bit mode = eqb (mode / 4 % 2) 1

abbrev mode_of_handle : Console → String ⊎ ℕ → Bool
mode_of_handle c (inl e) = false
mode_of_handle c (inr h) =
    if eqb h 0
    then false
    else elim (Console.get_console_mode c h) [ inl e ↦ false | inr mode ↦ has_vt_bit mode ]

unfoldable pub vt_enabled : Console → Bool
vt_enabled c = mode_of_handle c (c.get_std_handle std_output_handle)

unfoldable pub is_legacy_con_host : Platform → Bool
unfolding stdio_to_console vt_enabled
is_legacy_con_host unix = false
is_legacy_con_host (windows c) = if not (stdio_to_console c) then false else not (vt_enabled c)

-- Where a call of the console fails: its last error, or a text if there is none.
abbrev called : String → ℕ × Option ℕ → Option ConsoleError
called text (r1, e1) =
    if eqb r1 0
    then elim e1 [ some code ↦ some (last_error code) | none ↦ some (failed text) ]
    else none

unfoldable pub attach_console : Console → ℕ → Option ConsoleError
attach_console c pid = called "AttachConsole failed" (c.attach pid)

unfoldable pub alloc_console : Console → Option ConsoleError
alloc_console c = called "AllocConsole failed" c.alloc

-- ERROR_SUCCESS, which is 0, is not taken for the error.
abbrev titled : ℕ × Option ℕ → Option ConsoleError
titled (r1, none) = if eqb r1 0 then some (failed "SetConsoleTitleW failed") else none
titled (r1, some code) =
    if eqb r1 0
    then if not (eqb code 0)
      then some (last_error code)
      else some (failed "SetConsoleTitleW failed")
    else none

unfoldable pub set_console_title_win : Platform → String → Option ConsoleError
set_console_title_win unix title = none
set_console_title_win (windows c) title = elim (Console.utf16_error c title) [
  | some e ↦ some (invalid_title e)
  | none ↦ titled (c.set_title title)
]

-- The end of EnsureInteractiveConsoleAttached: each of the two files, if it can be opened.
unfoldable pub rebind : Console → Stdio → Stdio
rebind c io =
    let out : Stdio = elim (Console.open_file c "CONOUT$") [
      | none ↦ io
      | some f ↦ record io { stdout = f; stderr = f }
    ] in
    elim (Console.open_file c "CONIN$") [ none ↦ out | some f ↦ record out { stdin = f } ]

-- attach or allocate
unfoldable pub has_attached : Console → Bool
unfolding attach_console alloc_console
has_attached c = elim (attach_console c attach_parent_process) [
  | none ↦ true
  | some e ↦ elim (alloc_console c) [ none ↦ true | some e2 ↦ false ]
]

unfoldable pub ensure_interactive_console_attached : Platform → Stdio → Stdio
unfolding stdio_usable has_attached rebind
ensure_interactive_console_attached unix io = io
ensure_interactive_console_attached (windows c) io =
    if not (eqb c.console_window 0)
    then io
    else if stdio_usable c
    then io
    else if has_attached c
    then rebind c io
    else io
