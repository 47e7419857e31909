-- ===== src/Terminal.antt =====
-- internal/service/terminal.go: whether a file takes colours, and the terminal's title.
use metricz_exporter.Base.{
  ℕ, ◌+◌, leb, Bool, true, false, not, ◌&&◌, ◌||◌, eqb, if◌then◌else◌, String, str_eq, codes, List,
  [], ◌∷◌, map, ◌++◌, Option,
}
use metricz_exporter.Console.{Platform, ConsoleError, is_legacy_con_host, set_console_title_win}

pub data Writer : Type 0 where
  stdout stderr : Writer
  file : String → Writer

-- os.Getenv, the build and the console that it finds, and term.IsTerminal.
pub record Terminal : Type 0 where
  pub getenv : String → String
  pub platform : Platform
  pub is_terminal : Writer → Bool

-- strings.ToLower, of a letter in ASCII.
abbrev lower : ℕ → ℕ
lower c = if leb b'A' c && leb c b'Z' then c + 32 else c

unfoldable pub starts_with : List ℕ → List ℕ → Bool
starts_with [] cs = true
starts_with (p ∷ ps) [] = false
starts_with (p ∷ ps) (c ∷ cs) = eqb p c && starts_with ps cs

-- strings.Contains(s, sub)
unfoldable pub contains : List ℕ → List ℕ → Bool
unfolding starts_with
contains sub [] = starts_with sub []
contains sub (c ∷ cs) = starts_with sub (c ∷ cs) || contains sub cs

unfoldable pub can_use_ansi_colors : Terminal → Writer → Bool
unfolding contains is_legacy_con_host
can_use_ansi_colors t f =
    let term_env = map lower (codes (t.getenv "TERM")) in
    if str_eq (t.getenv "FORCE_COLOR") "true"
    then true
    else if is_legacy_con_host t.platform
    then false
    else if not (str_eq (t.getenv "NO_COLOR") "")
    then false
    else if not (t.is_terminal f)
    then false
    else if not (str_eq (t.getenv "COLORTERM") "")
    then true
    else if starts_with (codes "dumb") term_env && starts_with term_env (codes "dumb")
    then false
    else contains (codes "xterm") term_env
      || contains (codes "screen") term_env
      || contains (codes "vt100") term_env
      || contains (codes "color") term_env

-- What SetTerminalTitle does: a call of the console, whose error is dropped, or a print to stdout.
pub data TitleChange : Type 0 where
  title_set : Option ConsoleError → TitleChange
  title_printed : List ℕ → TitleChange
  title_kept : TitleChange

-- "\033]0;%s\a"
abbrev osc_title : String → List ℕ
osc_title title = 27 ∷ (codes "]0;" ++ (codes title ++ 7 ∷ []))

unfoldable pub set_terminal_title : Terminal → String → TitleChange
unfolding is_legacy_con_host set_console_title_win
set_terminal_title t title =
    if is_legacy_con_host t.platform
    then title_set (set_console_title_win t.platform title)
    else if t.is_terminal stdout
    then title_printed (osc_title title)
    else title_kept
