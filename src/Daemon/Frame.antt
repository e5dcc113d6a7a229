-- ===== src/Daemon/Frame.antt =====
-- Which files the commands of src/main.rs leave alone.
use vorto.Prelude.{ℕ, ◌≡◌, ◌≢◌, refl, ap, ◌∙◌, Bool, true, false, Option, none, some, List, arith}
use vorto.Text.{Text, text}
use vorto.Result.{AppResult, ok, err}
use vorto.HashMap.{Hasher}
use vorto.Fs.{FilePath, Fs, SameAt, IsLawful}
use vorto.Config.Tunnel.{AppConfig}
use vorto.Config.Store.{Yaml, load_for_runtime}
use vorto.Config.Saved.{load_for_runtime-SameAt}
use vorto.Nft.Cli.{NftCommand}
use vorto.Runtime.System.{Os}
use vorto.Daemon.Pid.{read_pid, pid_line}
use vorto.Daemon.Control.{
  Processes, Report, Host, daemon_process_matches, terminate_process, signal_sent, stop_matching,
  stop_found, stop_daemon, record_child, spawn_exe, spawn_with_log, spawn_configured, daemon_stdio,
  start_matching, start_found, start_daemon,
}
use vorto.Daemon.Entry.{
  Command, configure, run, daemon, stop, status, version, help, worker, command_of_args,
  in_directory, config_path, Program, Events, Result, perform, entry,
}
use vorto.Editor.Prompts.{Asked, answered, endless, panicked}

SameAt-refl : (F : Fs) (q : FilePath) (s : F.State) → SameAt F q s s
SameAt-refl F q s = record { exists = refl; content = refl }

SameAt-trans :
    (F : Fs) (q : FilePath) (s t u : F.State) → SameAt F q s t → SameAt F q t u → SameAt F q s u
SameAt-trans F q s t u e f = record {
  exists = e.exists ∙ f.exists;
  content = e.content ∙ f.content;
}

module _ (F : Fs) (P : Processes) (L : IsLawful F) (path q : FilePath) (ne : path ≢ q) where
  -- A command leaves the file at `q` as it was.
  abbrev Leaves : F.State → AppResult Report × Host F P → Type 0
  Leaves s r = SameAt F q (r.1).0 s

  record_child-Leaves :
      (s : F.State) (r : AppResult ℕ × P.State) → Leaves s (record_child F P path s r)
  record_child-Leaves s (err e, p) = SameAt-refl F q s
  record_child-Leaves s (ok child, p) = L.write_elsewhere s path q (pid_line child) ne

  spawn_exe-Leaves :
      (s : F.State) (p : P.State) (exe : AppResult FilePath) → Leaves s (spawn_exe F P path s p exe)
  spawn_exe-Leaves s p (err e) = SameAt-refl F q s
  spawn_exe-Leaves s p (ok exe) = record_child-Leaves s (P.spawn_worker p exe)

  spawn_with_log-Leaves :
      (s : F.State) (r : AppResult (Unit {0}) × P.State) → Leaves s (spawn_with_log F P path s r)
  spawn_with_log-Leaves s (err e, p) = SameAt-refl F q s
  spawn_with_log-Leaves s (ok _, p) = spawn_exe-Leaves s p (P.current_exe p)

  spawn_configured-Leaves :
      (log : FilePath) (c : AppResult AppConfig) (s : F.State) (p : P.State)
      → Leaves s (spawn_configured F P path log c (s, p))
  spawn_configured-Leaves log (err e) s p = SameAt-refl F q s
  spawn_configured-Leaves log (ok c) s p =
      spawn_with_log-Leaves s (daemon_stdio F P c.daemon_log log p)

  start_matching-Leaves :
      (Y : Yaml) (config log : FilePath) (pid : ℕ) (m : AppResult Bool) (s : F.State) (p : P.State)
      → Leaves s (start_matching F P Y config path log pid m (s, p))
  start_matching-Leaves Y config log pid (err e) s p = SameAt-refl F q s
  start_matching-Leaves Y config log pid (ok true) s p = SameAt-refl F q s
  start_matching-Leaves Y config log pid (ok false) s p =
      let s1 = (F.remove_file s path).1 in
      SameAt-trans F q _ s1 s (spawn_configured-Leaves log (load_for_runtime Y F s1 config) s1 p)
        (L.remove_elsewhere s path q ne)

  start_daemon-Leaves :
      (Y : Yaml) (config log : FilePath) (s : F.State) (p : P.State)
      → Leaves s (start_daemon F P Y config path log (s, p))
  unfolding start_daemon
  start_daemon-Leaves Y config log s p = found (read_pid F s path)
    where
      found : (o : AppResult (Option ℕ)) → Leaves s (start_found F P Y config path log o (s, p))
      found (err e) = SameAt-refl F q s
      found (ok none) = spawn_configured-Leaves log (load_for_runtime Y F s config) s p
      found (ok (some pid)) =
          start_matching-Leaves Y config log pid (daemon_process_matches F P pid p) s p

  signal_sent-Leaves :
      (pid : ℕ) (s : F.State) (r : AppResult (Unit {0}) × P.State)
      → Leaves s (signal_sent F P pid s r)
  signal_sent-Leaves pid s (err e, p) = SameAt-refl F q s
  signal_sent-Leaves pid s (ok _, p) = SameAt-refl F q s

  stop_matching-Leaves :
      (pid : ℕ) (m : AppResult Bool) (s : F.State) (p : P.State)
      → Leaves s (stop_matching F P path pid m (s, p))
  stop_matching-Leaves pid (err e) s p = SameAt-refl F q s
  stop_matching-Leaves pid (ok false) s p = L.remove_elsewhere s path q ne
  stop_matching-Leaves pid (ok true) s p = signal_sent-Leaves pid s (terminate_process F P pid p)

  stop_daemon-Leaves : (s : F.State) (p : P.State) → Leaves s (stop_daemon F P path (s, p))
  unfolding stop_daemon
  stop_daemon-Leaves s p = found (read_pid F s path)
    where
      found : (o : AppResult (Option ℕ)) → Leaves s (stop_found F P path o (s, p))
      found (err e) = SameAt-refl F q s
      found (ok none) = SameAt-refl F q s
      found (ok (some pid)) = stop_matching-Leaves pid (daemon_process_matches F P pid p) s p

-- The commands that do not go on with the configuration file for long: neither the editor nor the worker.
abbrev pub is_short : Command → Bool
is_short configure = false
is_short worker = false
is_short run = true
is_short daemon = true
is_short stop = true
is_short status = true
is_short version = true
is_short help = true

in_directory-differs :
    (cwd : Text) → in_directory cwd (text "vorto.pid") ≢ in_directory cwd (text "config.yaml")
unfolding text
in_directory-differs cwd e = ground (arith, ap (λ (p : FilePath). p.file_name) e)

module _ (H : Hasher) (O : Os) (C : NftCommand) (Y : Yaml) (F : Fs) (P : Processes) (cwd : Text)
    (pid : ℕ) where
  abbrev config : FilePath
  config = config_path H O C Y F P cwd pid

  -- The command returns, and the configuration file loads as before.
  abbrev pub KeepsConfig : Program H O C Y F P cwd pid → Asked (Result H O C Y F P cwd pid) → Type 0
  KeepsConfig p (answered (r, q) left) =
      load_for_runtime Y F q.files config ≡ load_for_runtime Y F p.files config
  KeepsConfig p endless = ⊥
  KeepsConfig p panicked = ⊥

  -- With a file system that writes and removes as documented, every command but the editor and
  -- the worker comes to a result, the foreground mode once its signal is given, whatever the
  -- further arguments are, and the configuration file then loads as before.
  pub entry-KeepsConfig :
      IsLawful F
      → (args : List Text) (events : Events H O C Y F P cwd pid) (p : Program H O C Y F P cwd pid)
      → is_short (command_of_args args) ≡ true
      → KeepsConfig p (entry H O C Y F P cwd pid args events p)
  unfolding entry
  entry-KeepsConfig L args events p h = performed (command_of_args args) h
    where
      performed :
          (c : Command) → is_short c ≡ true → KeepsConfig p (perform H O C Y F P cwd pid c events p)
      performed configure k = absurd (ground (arith, k))
      performed worker k = absurd (ground (arith, k))
      performed run k = refl
      performed status k = refl
      performed version k = refl
      performed help k = refl
      performed daemon k = load_for_runtime-SameAt Y F _ p.files config (
          start_daemon-Leaves F P L _ config (in_directory-differs cwd) Y config _ p.files
            p.processes)
      performed stop k =
          load_for_runtime-SameAt Y F _ p.files config
            (stop_daemon-Leaves F P L _ config (in_directory-differs cwd) p.files p.processes)
