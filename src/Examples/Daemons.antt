-- ===== src/Examples/Daemons.antt =====
-- The commands of Daemon on a host with one daemon.
use vorto.Prelude.{ℕ, ◌≡◌, ◌==◌, ◌||◌, refl, true, false, some, List, [], ◌∷◌, ◌++◌, arith, ◌+◌}
use vorto.Text.{text, trim, decimal, Text-discrete}
use vorto.Result.{AppResult, ok, is_ok}
use vorto.Fs.{FilePath}
use vorto.Config.Store.{load_for_runtime, parse, deserialize, serialize}
use vorto.Config.Validate.{validate}
use vorto.Config.Tunnel as Tunnel
use vorto.Net.{parse_socket_addr}
use vorto.Daemon.Pid.{parse_unsigned, parse_pid, pid_line, read_pid, platform_pid}
use vorto.Daemon.Cmdline.{as_bytes, file_name, daemon_program_name, is_daemon_worker_cmdline}
use vorto.Daemon.Control.{
  Processes, Report, daemon_process_matches, current_binary_name, daemon_stdio, terminate_process,
  stop_daemon, print_status, start_daemon,
}
use vorto.Daemon.Safety.{Spares, stop_daemon-Spares}
use vorto.Daemon.Recognition.{IsFileName, IsWorker, print_status-start_daemon}
use vorto.Examples.Systems.{Files, put, memory, memory-IsLawful, FilePath-discrete}
use vorto.Examples.Configs.{one_document, file, full_disk}

worker_is_recognised :
    is_daemon_worker_cmdline
      (text "/usr/local/bin/vorto" ++ 0 ∷ text "__daemon_worker" ++ 0 ∷ [])
      (text "vorto")
    ≡ true
unfolding is_daemon_worker_cmdline text daemon_program_name file_name Text-discrete as_bytes
worker_is_recognised = refl

other_is_rejected :
    is_daemon_worker_cmdline
      (text "/usr/bin/python" ++ 0 ∷ text "__daemon_worker" ++ 0 ∷ [])
      (text "vorto")
    ≡ false
unfolding is_daemon_worker_cmdline text daemon_program_name file_name Text-discrete as_bytes
other_is_rejected = refl

pid_with_spaces : parse_pid (text " 4294967295 ") ≡ ok 4294967295
unfolding parse_pid text parse_unsigned trim
pid_with_spaces = refl

negative_pid : is_ok (parse_pid (text "-1")) ≡ false
unfolding parse_pid text parse_unsigned trim
negative_pid = refl

too_large_for_the_platform : is_ok (platform_pid 2147483648) ≡ false
unfolding platform_pid
too_large_for_the_platform = refl

-- Processes: the number of the next one, and the signals sent. Number 7 is a daemon.
pub record Table : Type 0 where
  pub next : ℕ
  pub signals : List ℕ

abbrev daemon_cmdline : List ℕ
daemon_cmdline = text "./vorto" ++ 0 ∷ text "__daemon_worker" ++ 0 ∷ []

abbrev pub host : Processes
host = record {
  State = Table;
  has_proc_dir = λ p pid. pid == 7;
  read_cmdline = λ p pid. ok daemon_cmdline;
  current_exe = λ p. ok (record { parent = text "/usr/bin"; file_name = some (text "vorto") });
  kill = λ p pid. (0, record p { signals = pid ∷ p.signals });
  last_os_error = λ p. 3;
  open_append = λ p path. (ok tt, p);
  open_read = λ p path. (ok tt, p);
  try_clone = λ p. (ok tt, p);
  spawn_worker = λ p exe. (ok p.next, record p { next = p.next + 1 });
}

abbrev pub quiet : Table
quiet = record { next = 8; signals = [] }

abbrev pub pid_file : FilePath
pid_file = record { parent = text "/etc/vorto"; file_name = some (text "vorto.pid") }

abbrev pub log_file : FilePath
log_file = record { parent = text "/etc/vorto"; file_name = some (text "vorto.log") }

abbrev pub started_disk : Files
started_disk = put pid_file (some (pid_line 7)) full_disk

status_is_running : print_status memory host pid_file (started_disk, quiet) ≡ ok (Report.running 7)
unfolding print_status read_pid FilePath-discrete text parse_pid parse_unsigned trim decimal
    daemon_process_matches current_binary_name is_daemon_worker_cmdline daemon_program_name
    file_name Text-discrete as_bytes
status_is_running = refl

start_reports :
    (start_daemon memory host one_document file pid_file log_file (full_disk, quiet)).0
    ≡ ok (Report.started 8)
unfolding start_daemon read_pid FilePath-discrete text load_for_runtime trim parse Text-discrete
    validate deserialize serialize Tunnel.validate parse_socket_addr daemon_stdio
start_reports = refl

stop_daemon-Spares_example :
    Spares memory host pid_file
      (started_disk, quiet)
      ((stop_daemon memory host pid_file (started_disk, quiet)).1).1
stop_daemon-Spares_example = stop_daemon-Spares memory host pid_file started_disk quiet

stop_sends_a_signal :
    ((stop_daemon memory host pid_file (started_disk, quiet)).1).1
    ≡ record quiet { signals = 7 ∷ [] }
unfolding stop_daemon terminate_process platform_pid read_pid FilePath-discrete text parse_pid
    parse_unsigned trim decimal daemon_process_matches current_binary_name is_daemon_worker_cmdline
    daemon_program_name file_name Text-discrete as_bytes
stop_sends_a_signal = refl

-- On this host the new process is there too.
abbrev starting_host : Processes
starting_host = record host { has_proc_dir = λ p pid. pid == 7 || pid == 8 }

abbrev after_start : AppResult Report × (Files × Table)
after_start =
    start_daemon memory starting_host one_document file pid_file log_file (full_disk, quiet)

start_reports_again : after_start.0 ≡ ok (Report.started 8)
unfolding start_daemon read_pid FilePath-discrete text load_for_runtime trim parse Text-discrete
    validate deserialize serialize Tunnel.validate parse_socket_addr daemon_stdio
start_reports_again = refl

pub vorto-IsFileName : IsFileName (as_bytes (text "vorto"))
unfolding text as_bytes
vorto-IsFileName = record {
  no_slash = (
    (λ e. ground arith),
    ((λ e. ground arith), ((λ e. ground arith), ((λ e. ground arith), ((λ e. ground arith), tt)))),
  );
  no_zero = (
    (λ e. ground arith),
    ((λ e. ground arith), ((λ e. ground arith), ((λ e. ground arith), ((λ e. ground arith), tt)))),
  );
  not_empty = λ e. ground arith;
  not_dot = λ e. ground arith;
  not_dots = λ e. ground arith;
}

new_process-IsWorker : IsWorker starting_host (after_start.1).1 8 (text ".") (text "vorto")
unfolding text as_bytes
new_process-IsWorker = record {
  exists = refl;
  cmdline = refl;
  named = (_, refl, refl);
  no_zero = ((λ e. ground arith), tt);
  is_file_name = vorto-IsFileName;
}

print_status-start_daemon_example :
    print_status memory starting_host pid_file after_start.1 ≡ ok (Report.running 8)
print_status-start_daemon_example =
    print_status-start_daemon memory starting_host one_document memory-IsLawful file pid_file
      log_file (full_disk, quiet) 8 (text ".") (text "vorto") (omega arith) start_reports_again
      new_process-IsWorker
