-- ===== src/Examples/OtherUnix.antt =====
-- A daemon on a host where `ps` tells of processes, in a directory with a space.
use vorto.Prelude.{◌≡◌, ◌++◌, ◌∷◌, refl, true, arith}
use vorto.Text.{Text, text, is_whitespace, trim, Text-discrete}
use vorto.Result.{ok}
use vorto.Config.Store.{load_for_runtime, parse, deserialize, serialize}
use vorto.Config.Validate.{validate}
use vorto.Config.Tunnel as Tunnel
use vorto.Net.{parse_socket_addr}
use vorto.Daemon.Pid.{read_pid}
use vorto.Daemon.Control.{Report, daemon_stdio}
use vorto.Daemon.OtherUnix.{Ps, ps_line}
use vorto.Daemon.OtherUnix.Commands.{
  print_status, stop_daemon, start_daemon, IsListed, status_of_started, spaced-IsStale,
}
use vorto.Examples.Systems.{Files, memory, memory-IsLawful, FilePath-discrete}
use vorto.Examples.Configs.{one_document, file, full_disk}
use vorto.Examples.Daemons.{Table, host, quiet, pid_file, log_file, vorto-IsFileName}

abbrev listing : Text → Ps host
listing dir = record { output = λ p pid. ok (true, ps_line (dir ++ b'/' ∷ text "vorto")) }

abbrev after : Text → Files × Table
after dir =
    (start_daemon memory host (listing dir) one_document file pid_file log_file
      (full_disk, quiet)).1

start_reports :
    (dir : Text)
    → (start_daemon memory host
        (listing dir)
        one_document
        file
        pid_file
        log_file
        (full_disk, quiet)).0
      ≡ ok (Report.started 8)
unfolding start_daemon read_pid FilePath-discrete text load_for_runtime trim parse Text-discrete
    validate deserialize serialize Tunnel.validate parse_socket_addr daemon_stdio
start_reports dir = refl

new_process-IsListed :
    (dir : Text)
    → IsListed memory host
        (listing dir)
        one_document
        file
        pid_file
        log_file
        memory-IsLawful
        8
        (omega arith)
        (after dir)
        dir
        (text "vorto")
new_process-IsListed dir = record {
  listed = refl;
  named = (_, refl, refl);
  is_file_name = vorto-IsFileName;
}

status_of_started_example :
    print_status memory host (listing (text "/opt")) pid_file (after (text "/opt"))
    ≡ ok (Report.running 8)
unfolding is_whitespace text
status_of_started_example =
    status_of_started memory host (listing (text "/opt")) one_document file pid_file log_file
      memory-IsLawful 8 (omega arith) (full_disk, quiet) (text "/opt") (text "vorto")
      (start_reports (text "/opt")) (new_process-IsListed (text "/opt"))
      (refl, (refl, (refl, (refl, (refl, (refl, (refl, (refl, (refl, (refl, tt))))))))))

spaced-IsStale_example :
    (print_status memory host (listing (text "/My Apps")) pid_file (after (text "/My Apps"))
      ≡ ok Report.stale_pid_file)
    × (stop_daemon memory host (listing (text "/My Apps")) pid_file (after (text "/My Apps")) ≡ (
      ok Report.stale_pid_file,
      ((memory.remove_file (after (text "/My Apps")).0 pid_file).1, (after (text "/My Apps")).1),
    ))
unfolding is_whitespace text
spaced-IsStale_example =
    spaced-IsStale memory host (listing (text "/My Apps")) one_document file pid_file log_file
      memory-IsLawful 8 (omega arith) (full_disk, quiet) (text "/My Apps") (text "vorto")
      (start_reports (text "/My Apps")) (new_process-IsListed (text "/My Apps")) b'/' 32 (text "My")
      (text "Apps") refl refl (refl, (refl, (refl, tt)))
      (refl, (refl, (refl, (refl, (refl, (refl, (refl, (refl, (refl, (refl, tt))))))))))
