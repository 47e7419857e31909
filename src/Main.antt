-- ===== src/Main.antt =====
-- cmd/metricz-exporter/main.go: the program.
use metricz_exporter.Base.{ℕ, ◌<>◌, eqb, if◌then◌else◌, String, Option, List, length}
use metricz_exporter.Console.{Stdio, ensure_interactive_console_attached}
use metricz_exporter.Terminal.{Terminal, TitleChange, set_terminal_title}
use metricz_exporter.Service.{Scm, is_running_under_windows_service, run_under_windows_service}
use metricz_exporter.Strconv.{format_int}
use metricz_exporter.Vars.{Vars, commit_short}
use metricz_exporter.FileSystem.{Disk}
use metricz_exporter.Entrypoint.{Env, Outcome, execute}

-- As a service, Execute runs beside the handler, and what it returns is dropped: `in_service` has
-- the status with which the process exits, or none where `main` returns. Otherwise `ran` has the
-- standard files, what became of the title, and Execute.
pub data Ending (G : Type 0) : Type 0 where
  in_service : Option ℕ → Ending G
  ran : Stdio → TitleChange → Disk × Outcome G → Ending G

-- "%s %s [%s.%d]"
abbrev pub title_of : Vars → String
title_of vars =
    vars.name
    <> (" "
        <> (commit_short vars
            <> (" [" <> (vars.version <> ("." <> (format_int vars.revision <> "]"))))))

-- `terminal_of` is what the console and the terminal answer with these standard files.
unfoldable pub main :
    {G : Type 0} → Scm → (Stdio → Terminal) → Env G → Vars → List String → Stdio → Disk → Ending G
unfolding is_running_under_windows_service run_under_windows_service
    ensure_interactive_console_attached set_terminal_title commit_short format_int execute
main scm terminal_of env vars args io disk =
    let platform = env.terminal.platform in
    if is_running_under_windows_service platform scm
    then in_service (run_under_windows_service platform scm)
    else let io' =
        if eqb (length args) 1 then ensure_interactive_console_attached platform io else io in
      let terminal = terminal_of io' in
      ran io' (set_terminal_title terminal (title_of vars))
        (execute (record env { terminal = terminal }) disk)
