-- ===== src/Daemon/Worker.antt =====
-- What the worker of src/main.rs leaves behind.
use vorto.Prelude.{ℕ, ◌≡◌, ap, false, [], arith}
use vorto.Text.{Text}
use vorto.Result.{ok}
use vorto.HashMap.{Hasher, IsReordering}
use vorto.Fs.{FilePath, Fs, IsLawful}
use vorto.Config.Store.{Yaml}
use vorto.Nft.Cli.{NftCommand}
use vorto.Runtime.System.{Os, runs}
use vorto.Runtime.Ownership.{Inv}
use vorto.Runtime.Signal.{wait_for_termination_signal}
use vorto.Runtime.Watcher.Rounds.{run_config_watcher-stops}
use vorto.Daemon.Pid.{read_pid, new_guard, drop_guard}
use vorto.Daemon.Control.{Processes, Report, print_status}
use vorto.Daemon.Entry.{pid_path, config_path, Program, Events, showing, Shown, run_worker}

module _ (F : Fs) (P : Processes) where
  status_without_file :
      (path : FilePath) (s : F.State) (p : P.State)
      → F.exists s path ≡ false
      → print_status F P path (s, p) ≡ ok Report.not_running
  unfolding print_status read_pid
  status_without_file path s p gone = ground (arith, gone)

  module _ (L : IsLawful F) (H : Hasher) (O : Os) (C : NftCommand) (K : IsReordering H) (Y : Yaml)
      (cwd : Text) (pid : ℕ) where
    abbrev path : FilePath
    path = pid_path H O C Y F P cwd pid

    -- If the file system removes files as documented, maps iterate over their own entries, the
    -- invariant of the tunnel manager holds at the start, the PID file is written and later
    -- removed without an error, and a signal ends the worker, then it returns without an error,
    -- no tunnel is active, no task runs, the nft table is marked inactive, and the status is that
    -- no daemon runs.
    pub run_worker_lem :
        (events : Events H O C Y F P cwd pid) (p : Program H O C Y F P cwd pid)
        → Inv H O p.watch.sockets
        → (new_guard F pid path p.files).0 ≡ ok tt
        → (F.remove_file events.files_then path).0 ≡ ok tt
        → wait_for_termination_signal events.installed events.arm ≡ ok tt
        → let (r, q) = run_worker H O C Y F P cwd pid events p in
          (r ≡ ok Shown.nothing)
          × (q.watch.sockets.0 ≡ [])
          × ((id : ℕ) → runs O q.watch.sockets.1 id ≡ false)
          × (q.watch.nft_manager.table_active ≡ false)
          × (print_status F P path (q.files, q.processes) ≡ ok Report.not_running)
    unfolding run_worker drop_guard
    run_worker_lem events p v written removed signalled =
        let (fine, none_active, none_run, inactive) =
          run_config_watcher-stops H O C K Y F (config_path H O C Y F P cwd pid) events.rounds
            p.watch v in
        rw (written, signalled)
          (
            ap (showing H O C Y F P cwd pid (λ _. Shown.nothing)) fine,
            none_active,
            none_run,
            inactive,
            status_without_file path _ p.processes (L.remove_here events.files_then path removed),
          )
