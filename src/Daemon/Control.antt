-- ===== src/Daemon/Control.antt =====
-- `start_daemon`, `stop_daemon` and `print_status` of src/main.rs over the file system and the
-- processes, which are an interface with an unknown state. What a command prints is its report.
use vorto.Prelude.{ℕ, Bool, true, false, Option, none, some, List, ◌==◌, if◌then◌else◌}
use vorto.Text.{Text, text}
use vorto.Result.{AppResult, io, os, ErrorKind, ok, err, ok_or, ◌>>=◌}
use vorto.Fs.{FilePath, Fs}
use vorto.Config.Tunnel.{AppConfig}
use vorto.Config.Store.{Yaml, load_for_runtime}
use vorto.Daemon.Pid.{read_pid, platform_pid, pid_line}
use vorto.Daemon.Cmdline.{is_daemon_worker_cmdline}

-- `null_device_path` on Unix.
unfoldable pub null_device_path : FilePath
null_device_path = record { parent = text "/dev"; file_name = some (text "null") }

pub record Processes : Type 1 where
  pub State : Type 0
  -- Whether `/proc/<pid>` exists, and what its `cmdline` reads as.
  pub has_proc_dir : State → ℕ → Bool
  pub read_cmdline : State → ℕ → AppResult (List ℕ)
  -- `env::current_exe`; a name that is no UTF-8 counts as none.
  pub current_exe : State → AppResult FilePath
  pub kill : State → ℕ → ℕ × State
  pub last_os_error : State → ℕ
  -- A file is opened to append, or to read, and its handle is cloned.
  pub open_append : State → FilePath → AppResult (Unit {0}) × State
  pub open_read : State → FilePath → AppResult (Unit {0}) × State
  pub try_clone : State → AppResult (Unit {0}) × State
  -- The executable is started as a worker, in a session of its own.
  pub spawn_worker : State → FilePath → AppResult ℕ × State

-- What a command says of the daemon when it does not fail.
pub data Report : Type 0 where
  already_running started running signalled : ℕ → Report
  not_running stale_pid_file : Report

module _ (F : Fs) (P : Processes) where
  abbrev pub Host : Type 0
  Host = F.State × P.State

  unfoldable pub current_binary_name : P.State → AppResult Text
  current_binary_name p = do
    exe ← P.current_exe p
    ok_or exe.file_name
        (io ErrorKind.other (text "Could not determine the current executable name."))

  unfoldable pub daemon_process_matches : ℕ → P.State → AppResult Bool
  daemon_process_matches pid p =
      if P.has_proc_dir p pid
      then (do
        cmdline ← P.read_cmdline p pid
        binary_name ← current_binary_name p
        ok (is_daemon_worker_cmdline cmdline binary_name))
      else ok false

  unfoldable pub terminate_process : ℕ → P.State → AppResult (Unit {0}) × P.State
  terminate_process pid p = elim (platform_pid pid) [
    | err e ↦ (err e, p)
    | ok target ↦
        let (result, p1) = P.kill p target in
        (if result == 0 then ok tt else err (os (P.last_os_error p1)), p1)
  ]

  abbrev pub signal_sent : ℕ → F.State → AppResult (Unit {0}) × P.State → AppResult Report × Host
  signal_sent pid s (err e, p) = (err e, (s, p))
  signal_sent pid s (ok _, p) = (ok (Report.signalled pid), (s, p))

  abbrev pub stop_matching : FilePath → ℕ → AppResult Bool → Host → AppResult Report × Host
  stop_matching path pid (err e) h = (err e, h)
  stop_matching path pid (ok false) (s, p) =
      (ok Report.stale_pid_file, ((F.remove_file s path).1, p))
  stop_matching path pid (ok true) (s, p) = signal_sent pid s (terminate_process pid p)

  abbrev pub stop_found : FilePath → AppResult (Option ℕ) → Host → AppResult Report × Host
  stop_found path (err e) h = (err e, h)
  stop_found path (ok none) h = (ok Report.not_running, h)
  stop_found path (ok (some pid)) (s, p) =
      stop_matching path pid (daemon_process_matches pid p) (s, p)

  unfoldable pub stop_daemon : FilePath → Host → AppResult Report × Host
  unfolding terminate_process
  stop_daemon path (s, p) = stop_found path (read_pid F s path) (s, p)

  abbrev pub status_of : Option ℕ → P.State → AppResult Report
  status_of none p = ok Report.not_running
  status_of (some pid) p = do
    matches ← daemon_process_matches pid p
    ok (if matches then Report.running pid else Report.stale_pid_file)

  unfoldable pub print_status : FilePath → Host → AppResult Report
  print_status path (s, p) = do found ← read_pid F s path; status_of found p

  -- The process id is written after the worker was started.
  abbrev pub record_child : FilePath → F.State → AppResult ℕ × P.State → AppResult Report × Host
  record_child path s (err e, p) = (err e, (s, p))
  record_child path s (ok child, p) =
      let (written, s1) = F.write s path (pid_line child) in
      (elim written [ err e ↦ err e | ok _ ↦ ok (Report.started child) ], (s1, p))

  abbrev pub spawn_exe : FilePath → F.State → P.State → AppResult FilePath → AppResult Report × Host
  spawn_exe path s p (err e) = (err e, (s, p))
  spawn_exe path s p (ok exe) = record_child path s (P.spawn_worker p exe)

  abbrev pub spawn_with_log :
      FilePath → F.State → AppResult (Unit {0}) × P.State → AppResult Report × Host
  spawn_with_log path s (err e, p) = (err e, (s, p))
  spawn_with_log path s (ok _, p) = spawn_exe path s p (P.current_exe p)

  abbrev pub cloned : AppResult (Unit {0}) × P.State → AppResult (Unit {0}) × P.State
  cloned (err e, p) = (err e, p)
  cloned (ok _, p) = P.try_clone p

  -- The handles for the output of the worker.
  unfoldable pub daemon_stdio : Bool → FilePath → P.State → AppResult (Unit {0}) × P.State
  daemon_stdio true log_path p = cloned (P.open_append p log_path)
  daemon_stdio false log_path p = cloned (P.open_read p null_device_path)

  abbrev pub spawn_configured :
      FilePath → FilePath → AppResult AppConfig → Host → AppResult Report × Host
  spawn_configured path log_path (err e) h = (err e, h)
  spawn_configured path log_path (ok config) (s, p) =
      spawn_with_log path s (daemon_stdio config.daemon_log log_path p)

  module _ (Y : Yaml) where
    abbrev pub launch : FilePath → FilePath → FilePath → Host → AppResult Report × Host
    launch config_path path log_path (s, p) =
        spawn_configured path log_path (load_for_runtime Y F s config_path) (s, p)

    abbrev pub start_matching :
        FilePath → FilePath → FilePath → ℕ → AppResult Bool → Host → AppResult Report × Host
    start_matching config_path path log_path pid (err e) h = (err e, h)
    start_matching config_path path log_path pid (ok true) h = (ok (Report.already_running pid), h)
    start_matching config_path path log_path pid (ok false) (s, p) =
        launch config_path path log_path ((F.remove_file s path).1, p)

    abbrev pub start_found :
        FilePath → FilePath → FilePath → AppResult (Option ℕ) → Host → AppResult Report × Host
    start_found config_path path log_path (err e) h = (err e, h)
    start_found config_path path log_path (ok none) h = launch config_path path log_path h
    start_found config_path path log_path (ok (some pid)) (s, p) =
        start_matching config_path path log_path pid (daemon_process_matches pid p) (s, p)

    unfoldable pub start_daemon : FilePath → FilePath → FilePath → Host → AppResult Report × Host
    start_daemon config_path path log_path (s, p) =
        start_found config_path path log_path (read_pid F s path) (s, p)
