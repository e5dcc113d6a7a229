-- ===== src/Daemon/Entry.antt =====
-- `main` and `entry` of src/main.rs: the choice of the command by the first argument, and the worker,
-- which is the watcher of Runtime/Watcher between the two ends of the PID file's guard. The current
-- directory is given.
use vorto.Prelude.{ℕ, ◌||◌, some, List, [], ◌∷◌, if◌then◌else◌}
use vorto.Text.{Text, text}
use vorto.Result.{AppResult, ok, err}
use vorto.HashMap.{Hasher}
use vorto.Fs.{FilePath, Fs}
use vorto.Config.Store.{Yaml, load_for_runtime}
use vorto.Nft.Cli.{NftCommand}
use vorto.Runtime.System.{Os}
use vorto.Runtime.Signal.{SignalArm, wait_for_termination_signal}
use vorto.Runtime.Watcher.{Watch, Round, run_config_watcher, run_foreground}
use vorto.Daemon.Pid.{new_guard, drop_guard}
use vorto.Daemon.Cmdline.{daemon_worker}
use vorto.Daemon.Control.{Processes, Report, start_daemon, stop_daemon, print_status}
use vorto.Editor.Prompts.{Asked, answered, then_ask, is_text}
use vorto.Editor.Session.{Ending, manage_config}

pub data Command : Type 0 where
  configure run daemon stop status version help worker : Command

abbrev command_of : Text → Command
command_of word =
    if is_text word (text "config") || is_text word (text "create")
    then configure
    else if is_text word (text "run")
    then run
    else if is_text word (text "daemon")
    then daemon
    else if is_text word (text "stop")
    then stop
    else if is_text word (text "status")
    then status
    else if is_text word (text "version")
        || is_text word (text "-V")
        || is_text word (text "--version")
    then version
    else if is_text word (text "help") || is_text word (text "-h") || is_text word (text "--help")
    then help
    else if is_text word daemon_worker
    then worker
    else help

-- The arguments without the name of the program; all but the first are ignored.
unfoldable pub command_of_args : List Text → Command
command_of_args [] = help
command_of_args (word ∷ words) = command_of word

unfoldable pub print_help : List Text
print_help =
    text "Usage:"
    ∷ text "  ./vorto config   Interactively manage tunnels in ./config.yaml"
    ∷ text "  ./vorto run      Run in the foreground (./config.yaml)"
    ∷ text "  ./vorto daemon   Run in the background (hot-reload ./config.yaml changes)"
    ∷ text "  ./vorto stop     Stop the background process"
    ∷ text "  ./vorto status   Show background process status"
    ∷ text "  ./vorto version  Show release, commit, and repository information"
    ∷ text "  ./vorto help     Show this help message"
    ∷ []

-- What a command shows when it does not fail.
pub data Shown : Type 0 where
  nothing version_report : Shown
  report : Report → Shown
  lines : List Text → Shown

-- `cwd.join(..)` for `config.yaml`, `vorto.pid` and `vorto.log`.
abbrev pub in_directory : Text → Text → FilePath
in_directory cwd name = record { parent = cwd; file_name = some name }

abbrev pub exit_code : AppResult Shown → ℕ
exit_code (ok shown) = 0
exit_code (err e) = 1

module _ (H : Hasher) (O : Os) (C : NftCommand) (Y : Yaml) (F : Fs) (P : Processes) (cwd : Text)
    (pid : ℕ) where
  abbrev pub config_path : FilePath
  config_path = in_directory cwd (text "config.yaml")

  abbrev pub pid_path : FilePath
  pid_path = in_directory cwd (text "vorto.pid")

  abbrev pub log_path : FilePath
  log_path = in_directory cwd (text "vorto.log")

  -- The files, the processes, and the managers with their systems.
  pub record Program : Type 0 where
    pub files : F.State
    pub processes : P.State
    pub watch : Watch H O C

  -- What comes from outside while the command runs: the lines of the input, the rounds of the watcher,
  -- the ticks of the foreground mode, the handler and the signal, and the files once the watcher has returned.
  pub record Events : Type 0 where
    pub input : List Text
    pub rounds : List (Round H O C Y F config_path)
    pub ticks : List (List ℕ)
    pub installed : AppResult (Unit {0})
    pub arm : SignalArm
    pub files_then : F.State

  abbrev pub Result : Type 0
  Result = AppResult Shown × Program

  abbrev pub showing : {V : Type 0} → (V → Shown) → AppResult V → AppResult Shown
  showing shown (ok v) = ok (shown v)
  showing shown (err e) = err e

  -- The guard is dropped when the watcher returns, with an error or without.
  abbrev guarded : AppResult (Unit {0}) × F.State → Events → Program → Result
  guarded (err e, s) events p = (err e, record p { files = s })
  guarded (ok _, s) events p =
      let (r, w) =
        run_config_watcher H O C Y F config_path events.rounds
          (wait_for_termination_signal events.installed events.arm) p.watch in
      (
        showing (λ _. nothing) r,
        record p { files = drop_guard F pid_path events.files_then; watch = w },
      )

  unfoldable pub run_worker : Events → Program → Result
  run_worker events p = guarded (new_guard F pid pid_path p.files) events p

  abbrev edited : Program → Ending Y F pid config_path → List Text → Asked Result
  edited p (r, s) left = answered (showing (λ _. nothing) r, record p { files = s }) left

  abbrev on_host : Program → AppResult Report × (F.State × P.State) → Result
  on_host p (r, (s, ps)) = (showing report r, record p { files = s; processes = ps })

  abbrev in_foreground : Events → Program → Result
  in_foreground events p =
      let (r, w) =
        run_foreground H O C (load_for_runtime Y F p.files config_path) events.ticks
          (wait_for_termination_signal events.installed events.arm) p.watch in
      (showing (λ _. nothing) r, record p { watch = w })

  abbrev pub perform : Command → Events → Program → Asked Result
  perform configure events p =
      then_ask (manage_config Y F pid config_path p.files events.input) (edited p)
  perform run events p = answered (in_foreground events p) events.input
  perform daemon events p =
      answered (on_host p (start_daemon F P Y config_path pid_path log_path (p.files, p.processes)))
        events.input
  perform stop events p =
      answered (on_host p (stop_daemon F P pid_path (p.files, p.processes))) events.input
  perform status events p =
      answered (showing report (print_status F P pid_path (p.files, p.processes)), p) events.input
  perform version events p = answered (ok version_report, p) events.input
  perform help events p = answered (ok (lines print_help), p) events.input
  perform worker events p = answered (run_worker events p) events.input

  unfoldable pub entry : List Text → Events → Program → Asked Result
  unfolding run_worker
  entry args events p = perform (command_of_args args) events p
