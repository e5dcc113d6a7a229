-- ===== src/Daemon/Safety.antt =====
-- What the commands of src/main.rs do to the processes and to the PID file.
use vorto.Prelude.{
  ℕ, ◌^◌, ◌<◌, ◌≡◌, refl, sym, ap, subst, ◌∙◌, ◌⊎◌, inl, inr, Bool, true, false, Option, none, some,
  arith, if◌then◌else◌,
}
use vorto.Result.{AppResult, ok, err, ◌>>=◌, AppResult-cases}
use vorto.Fs.{FilePath, Fs, IsLawful}
use vorto.Config.Tunnel.{AppConfig}
use vorto.Config.Store.{Yaml, load_for_runtime}
use vorto.Daemon.Pid.{read_pid, pid_line, platform_pid}
use vorto.Daemon.RoundTrip.{read_pid_of_written}
use vorto.Daemon.Control.{
  Processes, Report, Host, daemon_process_matches, terminate_process, signal_sent, stop_matching,
  stop_found, stop_daemon, status_of, print_status, record_child, spawn_exe, daemon_stdio,
  spawn_with_log, spawn_configured, start_matching, start_found, start_daemon,
}

platform_pid-eq-ok : (pid target : ℕ) → platform_pid pid ≡ ok target → target ≡ pid
unfolding platform_pid
platform_pid-eq-ok pid target h = ground arith

module _ (F : Fs) (P : Processes) where
  -- The processes are as they were, or the one that the PID file names was sent a signal and is the
  -- daemon's.
  abbrev pub Spares : FilePath → Host F P → P.State → Type 0
  Spares path (s, p) p' =
      (p' ≡ p)
      ⊎ ((pid : ℕ) × (read_pid F s path ≡ ok (some pid))
          × (daemon_process_matches F P pid p ≡ ok true)
          × (p' ≡ (P.kill p pid).1))

  signal_sent-processes :
      (pid : ℕ) (s : F.State) (r : AppResult (Unit {0}) × P.State)
      → ((signal_sent F P pid s r).1).1 ≡ r.1
  signal_sent-processes pid s (ok _, p) = refl
  signal_sent-processes pid s (err e, p) = refl

  terminate_process-processes :
      (pid : ℕ) (p : P.State)
      → ((terminate_process F P pid p).1 ≡ p) ⊎ ((terminate_process F P pid p).1 ≡ (P.kill p pid).1)
  unfolding terminate_process
  terminate_process-processes pid p = elim (AppResult-cases (platform_pid pid)) [
    | inl (target, fits) ↦ inr (
        rw (fits, terminate_process)
          (ap (λ n. (P.kill p n).1) (platform_pid-eq-ok pid target fits)))
    | inr (e, large) ↦ inl (rw (large, terminate_process) refl)
  ]

  stop_matching-Spares :
      (path : FilePath) (pid : ℕ) (m : AppResult Bool) (s : F.State) (p : P.State)
      → read_pid F s path ≡ ok (some pid)
      → daemon_process_matches F P pid p ≡ m
      → Spares path (s, p) ((stop_matching F P path pid m (s, p)).1).1
  stop_matching-Spares path pid (err e) s p found h = inl refl
  stop_matching-Spares path pid (ok false) s p found h = inl refl
  stop_matching-Spares path pid (ok true) s p found h = elim (terminate_process-processes pid p) [
    | inl same ↦ inl (signal_sent-processes pid s _ ∙ same)
    | inr killed ↦ inr (pid, found, h, signal_sent-processes pid s _ ∙ killed)
  ]

  stop_found-Spares :
      (path : FilePath) (o : AppResult (Option ℕ)) (s : F.State) (p : P.State)
      → read_pid F s path ≡ o
      → Spares path (s, p) ((stop_found F P path o (s, p)).1).1
  stop_found-Spares path (err e) s p h = inl refl
  stop_found-Spares path (ok none) s p h = inl refl
  stop_found-Spares path (ok (some pid)) s p h =
      stop_matching-Spares path pid (daemon_process_matches F P pid p) s p h refl

  -- A stop of the daemon leaves the processes as they were, or sends one signal to the process
  -- that the PID file names, which then has the command line of the daemon.
  pub stop_daemon-Spares :
      (path : FilePath) (s : F.State) (p : P.State)
      → Spares path (s, p) ((stop_daemon F P path (s, p)).1).1
  unfolding stop_daemon
  stop_daemon-Spares path s p = stop_found-Spares path (read_pid F s path) s p refl

  module _ (Y : Yaml) where
    record_child-Reads :
        IsLawful F
        → (path : FilePath) (s : F.State) (r : AppResult ℕ × P.State) (pid : ℕ) → pid < 2 ^ 32
        → (record_child F P path s r).0 ≡ ok (Report.started pid)
        → read_pid F ((record_child F P path s r).1).0 path ≡ ok (some pid)
    record_child-Reads L path s (err e, p) pid fits h = absurd (ground arith)
    record_child-Reads L path s (ok child, p) pid fits h =
        elim (AppResult-cases (F.write s path (pid_line child)).0) [
          | inr (e, failed) ↦ absurd (ground (arith, rw failed at h))
          | inl (_, written) ↦
              let same : child ≡ pid = ground (arith, rw written at h) in
              subst (λ n. read_pid F (F.write s path (pid_line child)).1 path ≡ ok (some n)) same
                (read_pid_of_written F L s path child (subst (λ n. n < 2 ^ 32) (sym same) fits)
                  written)
        ]

    module _ (L : IsLawful F) (config_path path log_path : FilePath) (pid : ℕ)
        (fits : pid < 2 ^ 32) where
      -- A report of a start names the process whose id the PID file holds.
      abbrev pub Reads : AppResult Report × Host F P → Type 0
      Reads r = r.0 ≡ ok (Report.started pid) → read_pid F (r.1).0 path ≡ ok (some pid)

      spawn_exe-Reads :
          (s : F.State) (p : P.State) (exe : AppResult FilePath)
          → Reads (spawn_exe F P path s p exe)
      spawn_exe-Reads s p (err e) h = absurd (ground arith)
      spawn_exe-Reads s p (ok exe) h = record_child-Reads L path s (P.spawn_worker p exe) pid fits h

      spawn_with_log-Reads :
          (s : F.State) (r : AppResult (Unit {0}) × P.State) → Reads (spawn_with_log F P path s r)
      spawn_with_log-Reads s (err e, p) h = absurd (ground arith)
      spawn_with_log-Reads s (ok _, p) h = spawn_exe-Reads s p (P.current_exe p) h

      pub spawn_configured-Reads :
          (c : AppResult AppConfig) (s : F.State) (p : P.State)
          → Reads (spawn_configured F P path log_path c (s, p))
      spawn_configured-Reads (err e) s p h = absurd (ground arith)
      spawn_configured-Reads (ok c) s p h =
          spawn_with_log-Reads s (daemon_stdio F P c.daemon_log log_path p) h

      pub start_matching-Reads :
          (old : ℕ) (m : AppResult Bool) (s : F.State) (p : P.State)
          → Reads (start_matching F P Y config_path path log_path old m (s, p))
      start_matching-Reads old (err e) s p h = absurd (ground arith)
      start_matching-Reads old (ok true) s p h = absurd (ground arith)
      start_matching-Reads old (ok false) s p h =
          spawn_configured-Reads (load_for_runtime Y F (F.remove_file s path).1 config_path)
            (F.remove_file s path).1 p h

      start_found-Reads :
          (o : AppResult (Option ℕ)) (s : F.State) (p : P.State)
          → Reads (start_found F P Y config_path path log_path o (s, p))
      start_found-Reads (err e) s p h = absurd (ground arith)
      start_found-Reads (ok none) s p h =
          spawn_configured-Reads (load_for_runtime Y F s config_path) s p h
      start_found-Reads (ok (some old)) s p h =
          start_matching-Reads old (daemon_process_matches F P old p) s p h

      -- If the file system writes and renames as documented and a start of the daemon reports a
      -- started process whose id fits in 32 bits, the PID file is read back afterwards as the id
      -- of that process.
      pub read_pid-start_daemon :
          (s : F.State) (p : P.State)
          → (start_daemon F P Y config_path path log_path (s, p)).0 ≡ ok (Report.started pid)
          → read_pid F ((start_daemon F P Y config_path path log_path (s, p)).1).0 path
            ≡ ok (some pid)
      unfolding start_daemon
      read_pid-start_daemon s p h = start_found-Reads (read_pid F s path) s p h

    -- If the status is that the daemon runs with some process id, a start reports that it already
    -- runs with that id, and changes neither the files nor the processes.
    pub start_daemon_while_running :
        (config_path path log_path : FilePath) (h : Host F P) (pid : ℕ)
        → print_status F P path h ≡ ok (Report.running pid)
        → start_daemon F P Y config_path path log_path h ≡ (ok (Report.already_running pid), h)
    unfolding start_daemon print_status
    start_daemon_while_running config_path path log_path (s, p) pid running =
        by_found (read_pid F s path) running
      where
        by_match :
            (old : ℕ) (m : AppResult Bool)
            → (m >>= λ matches. ok (if matches then Report.running old else Report.stale_pid_file))
              ≡ ok (Report.running pid)
            → start_matching F P Y config_path path log_path old m (s, p)
              ≡ (ok (Report.already_running pid), (s, p))
        by_match old (err e) k = absurd (ground arith)
        by_match old (ok false) k = absurd (ground arith)
        by_match old (ok true) k = ap (λ n. (ok (Report.already_running n), (s, p))) (ground arith)

        by_found :
            (o : AppResult (Option ℕ))
            → (o >>= λ found. status_of F P found p) ≡ ok (Report.running pid)
            → start_found F P Y config_path path log_path o (s, p)
              ≡ (ok (Report.already_running pid), (s, p))
        by_found (err e) k = absurd (ground arith)
        by_found (ok none) k = absurd (ground arith)
        by_found (ok (some old)) k = by_match old (daemon_process_matches F P old p) k
