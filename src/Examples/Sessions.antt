-- ===== src/Examples/Sessions.antt =====
-- A session of the editor, and the worker of the daemon, on the systems of the other examples.
use vorto.Prelude.{ℕ, ◌≡◌, refl, true, false, List, [], ◌∷◌, arith, length}
use vorto.Text.{Text, text, trim, to_ascii_lowercase, Text-discrete}
use vorto.Result.{ok}
use vorto.Config.Tunnel.{AppConfig}
use vorto.Config.Store.{save}
use vorto.Runtime.System.{runs}
use vorto.Runtime.Signal.{terminated, wait_for_termination_signal}
use vorto.Daemon.Pid.{parse_unsigned, new_guard}
use vorto.Daemon.Control.{Report, print_status}
use vorto.Daemon.Entry.{
  Command, command_of_args, pid_path, Program, Events, Shown, run_worker, entry,
}
use vorto.Daemon.Frame.{is_short, KeepsConfig, entry-KeepsConfig}
use vorto.Daemon.Worker.{run_worker_lem}
use vorto.Editor.Prompts.{answered, endless, ask, prompt_bool, find_name, select_tunnel}
use vorto.Editor.Edits.{tunnel_at, set_at, toggle_tunnel}
use vorto.Editor.Session.{action_of, act, rounds, manage_config}
use vorto.Editor.Outcome.{Outcome, manage_config-Outcome}
use vorto.Editor.Dashboard.{row_columns, header_columns, truncate}
use vorto.Editor.Alignment.{row_columns-aligned}
use vorto.Examples.Systems.{listed, listed-IsReordering, machine, memory, memory-IsLawful, tables}
use vorto.Examples.Configs.{
  web, sockets_config, one_document, one_document-IsRoundTrip, file, full_disk,
}
use vorto.Examples.Tunnels.{nothing-Inv}
use vorto.Examples.Watchers.{fresh}
use vorto.Examples.Daemons.{host, quiet}

-- A tunnel is disabled, an unknown action follows, quitting is taken back, and the rest is saved.
abbrev keys : List Text
keys =
    text "Toggle" ∷ text "web" ∷ text "what" ∷ text "q" ∷ text "no" ∷ text " S " ∷ text "left" ∷ []

abbrev toggled : AppConfig
toggled = record sockets_config {
  tunnels = set_at 0 (record web { enabled = false }) sockets_config.tunnels;
}

session_saves :
    rounds one_document memory 42 file 7 full_disk sockets_config false keys
    ≡ answered (save one_document memory 42 toggled file full_disk) (text "left" ∷ [])
unfolding rounds act action_of trim text to_ascii_lowercase Text-discrete toggle_tunnel
    select_tunnel ask parse_unsigned find_name tunnel_at set_at prompt_bool
session_saves = refl

-- At the end of the input the loop asks again without end.
session_without_end :
    rounds one_document memory 42 file 7 full_disk sockets_config false (text "m" ∷ []) ≡ endless
unfolding rounds act action_of trim text to_ascii_lowercase Text-discrete
session_without_end = refl

manage_config-Outcome_example :
    Outcome one_document memory 42 file full_disk
      (manage_config one_document memory 42 file full_disk keys)
manage_config-Outcome_example =
    manage_config-Outcome one_document memory 42 file full_disk one_document-IsRoundTrip
      memory-IsLawful keys

row_columns-aligned_example : length (row_columns 41 web) ≡ length header_columns
row_columns-aligned_example = row_columns-aligned 41 web (omega arith)

long_name : truncate (text "a-very-long-tunnel-name") 18 ≡ text "a-very-long-tun..."
unfolding truncate text
long_name = refl

last_words_are_ignored : command_of_args (text "status" ∷ text "--all" ∷ []) ≡ Command.status
unfolding command_of_args text Text-discrete
last_words_are_ignored = refl

unknown_word_shows_help : command_of_args (text "start" ∷ []) ≡ Command.help
unfolding command_of_args text Text-discrete
unknown_word_shows_help = refl

abbrev cwd : Text
cwd = text "/etc/vorto"

abbrev program : Program listed machine tables one_document memory host cwd 4242
program = record { files = full_disk; processes = quiet; watch = fresh }

abbrev events : Events listed machine tables one_document memory host cwd 4242
events = record {
  input = [];
  rounds = ([], full_disk) ∷ (0 ∷ [], full_disk) ∷ [];
  ticks = [];
  installed = ok tt;
  arm = terminated;
  files_then = full_disk;
}

guard_is_written :
    (new_guard memory 4242
      (pid_path listed machine tables one_document memory host cwd 4242)
      full_disk).0
    ≡ ok tt
unfolding new_guard
guard_is_written = refl

signal_comes : wait_for_termination_signal events.installed events.arm ≡ ok tt
unfolding wait_for_termination_signal
signal_comes = refl

run_worker_lem_example :
    let (r, q) =
      run_worker listed machine tables one_document memory host cwd 4242 events program in
    (r ≡ ok Shown.nothing)
    × (q.watch.sockets.0 ≡ [])
    × ((id : ℕ) → runs machine q.watch.sockets.1 id ≡ false)
    × (q.watch.nft_manager.table_active ≡ false)
    × (print_status memory host
          (pid_path listed machine tables one_document memory host cwd 4242)
          (q.files, q.processes)
        ≡ ok Report.not_running)
run_worker_lem_example =
    run_worker_lem memory host memory-IsLawful listed machine tables listed-IsReordering
      one_document cwd 4242 events program nothing-Inv guard_is_written refl signal_comes

daemon_is_short : is_short (command_of_args (text "daemon" ∷ [])) ≡ true
unfolding command_of_args text Text-discrete
daemon_is_short = refl

entry-KeepsConfig_example :
    KeepsConfig listed machine tables one_document memory host cwd 4242 program (
      entry listed machine tables one_document memory host cwd 4242
        (text "daemon" ∷ [])
        events
        program)
entry-KeepsConfig_example =
    entry-KeepsConfig listed machine tables one_document memory host cwd 4242 memory-IsLawful
      (text "daemon" ∷ []) events program daemon_is_short
