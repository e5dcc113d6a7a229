-- ===== src/Daemon/OtherUnix/Commands.antt =====
-- `start_daemon`, `stop_daemon` and `print_status` of src/main.rs on a Unix other than Linux, and what
-- they say of a daemon that `ps` lists.
use vorto.Prelude.{
  ℕ, ◌<◌, ◌^◌, ◌≡◌, refl, true, Option, none, some, ◌∷◌, ◌++◌, arith, if◌then◌else◌,
}
use vorto.Text.{Text, is_whitespace}
use vorto.Text.Words.{Unspaced}
use vorto.Result.{AppResult, ok, err, ◌>>=◌}
use vorto.Fs.{FilePath, Fs, IsLawful}
use vorto.Config.Store.{Yaml, load_for_runtime}
use vorto.Daemon.Pid.{read_pid}
use vorto.Daemon.Cmdline.{as_bytes}
use vorto.Daemon.Control.{Processes, Report, Host, stop_matching, launch, start_matching}
use vorto.Daemon.Safety.{Reads, start_matching-Reads, spawn_configured-Reads}
use vorto.Daemon.Recognition.{IsFileName}
use vorto.Daemon.OtherUnix.{
  Ps, daemon_process_matches, ps_line, worker-matches, worker_in_spaced_dir-mismatches,
}

module _ (F : Fs) (P : Processes) (Q : Ps P) where
  abbrev pub status_of : Option ℕ → P.State → AppResult Report
  status_of none p = ok Report.not_running
  status_of (some pid) p = do
    matches ← daemon_process_matches F P Q pid p
    ok (if matches then Report.running pid else Report.stale_pid_file)

  unfoldable pub print_status : FilePath → Host F P → AppResult Report
  print_status path (s, p) = do found ← read_pid F s path; status_of found p

  abbrev pub stop_found : FilePath → AppResult (Option ℕ) → Host F P → AppResult Report × Host F P
  stop_found path (err e) h = (err e, h)
  stop_found path (ok none) h = (ok Report.not_running, h)
  stop_found path (ok (some pid)) (s, p) =
      stop_matching F P path pid (daemon_process_matches F P Q pid p) (s, p)

  unfoldable pub stop_daemon : FilePath → Host F P → AppResult Report × Host F P
  stop_daemon path (s, p) = stop_found path (read_pid F s path) (s, p)

  module _ (Y : Yaml) (config_path path log_path : FilePath) where
    abbrev pub start_found : AppResult (Option ℕ) → Host F P → AppResult Report × Host F P
    start_found (err e) h = (err e, h)
    start_found (ok none) h = launch F P Y config_path path log_path h
    start_found (ok (some pid)) (s, p) =
        start_matching F P Y config_path path log_path pid (daemon_process_matches F P Q pid p)
          (s, p)

    unfoldable pub start_daemon : Host F P → AppResult Report × Host F P
    start_daemon (s, p) = start_found (read_pid F s path) (s, p)

    module _ (L : IsLawful F) (pid : ℕ) (fits : pid < 2 ^ 32) where
      start_found-Reads :
          (o : AppResult (Option ℕ)) (s : F.State) (p : P.State)
          → Reads F P Y L config_path path log_path pid fits (start_found o (s, p))
      start_found-Reads (err e) s p h = absurd (ground arith)
      start_found-Reads (ok none) s p h =
          spawn_configured-Reads F P Y L config_path path log_path pid fits
            (load_for_runtime Y F s config_path) s p h
      start_found-Reads (ok (some old)) s p h =
          start_matching-Reads F P Y L config_path path log_path pid fits old
            (daemon_process_matches F P Q old p) s p h

      -- What a start leaves behind: `ps` lists the worker of the current executable.
      pub record IsListed (h : Host F P) (dir name : Text) : Type 0 where
        pub listed : Q.output h.1 pid ≡ ok (true, ps_line (dir ++ b'/' ∷ name))
        pub named : (exe : FilePath) × (P.current_exe h.1 ≡ ok exe) × (exe.file_name ≡ some name)
        pub is_file_name : IsFileName (as_bytes name)

      module _ (h : Host F P) (dir name : Text)
          (started : (start_daemon h).0 ≡ ok (Report.started pid))
          (listed : IsListed (start_daemon h).1 dir name) where
        read_pid-start_daemon : read_pid F ((start_daemon h).1).0 path ≡ ok (some pid)
        unfolding start_daemon
        read_pid-start_daemon = start_found-Reads (read_pid F h.0 path) h.0 h.1 started

        -- On a Unix other than Linux, if the file system writes and renames as documented, a
        -- start of the daemon reports a started process whose id fits in 32 bits, `ps` lists that
        -- process as a worker of the current executable, and the path of the executable has no
        -- white space, then the status afterwards is that the daemon runs with this id.
        pub status_of_started :
            Unspaced (dir ++ b'/' ∷ name)
            → print_status path (start_daemon h).1 ≡ ok (Report.running pid)
        unfolding print_status
        status_of_started u =
            rw
              (
                read_pid-start_daemon,
                worker-matches F P Q ((start_daemon h).1).1 pid dir name listed.listed listed.named
                    listed.is_file_name u,
              )
              refl

        -- On a Unix other than Linux, if the file system writes and renames as documented, a
        -- start of the daemon reports a started process whose id fits in 32 bits, and `ps` lists
        -- that process as a worker of the current executable, but the path of the executable has
        -- exactly one white space character, in its directory and not at its start, then the
        -- status afterwards is that the PID file is stale, and a stop removes the PID file and
        -- leaves the processes as they are.
        pub spaced-IsStale :
            (c d : ℕ) (first rest : Text)
            → dir ≡ (c ∷ first) ++ d ∷ rest
            → is_whitespace d ≡ true
            → Unspaced (c ∷ first)
            → Unspaced (rest ++ b'/' ∷ name)
            → (print_status path (start_daemon h).1 ≡ ok Report.stale_pid_file)
              × (stop_daemon path (start_daemon h).1 ≡ (
                ok Report.stale_pid_file,
                ((F.remove_file ((start_daemon h).1).0 path).1, ((start_daemon h).1).1),
              ))
        unfolding print_status stop_daemon
        spaced-IsStale c d first rest e space u v =
            let missed =
              worker_in_spaced_dir-mismatches F P Q ((start_daemon h).1).1 pid dir name
                listed.listed listed.named c d first rest e space u v in
            (rw (read_pid-start_daemon, missed) refl, rw (read_pid-start_daemon, missed) refl)
