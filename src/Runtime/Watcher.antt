-- ===== src/Runtime/Watcher.antt =====
-- `run_config_watcher` and `run_foreground` of src/runtime.rs. What the program prints is left out. The
-- loops run over what happens at each round, up to the signal that ends them.
pub mod Rounds
pub mod Modes
pub mod Applied
pub mod Table
use vorto.Prelude.{
  ℕ, Bool, true, false, ◌&&◌, Option, none, some, List, [], ◌∷◌, is_yes, if◌then◌else◌,
}
use vorto.Text.{text}
use vorto.HashMap.{Hasher}
use vorto.Result.{AppResult, io, ErrorKind, ok, err}
use vorto.Fs.{FilePath, Fs}
use vorto.Config.Tunnel.{
  AppMode, socket, nft, AppMode-discrete, TunnelConfig, AppConfig, enabled_tunnels,
}
use vorto.Config.Store.{Yaml, load_for_runtime}
use vorto.Nft.Cli.{NftCommand}
use vorto.Nft.Manager as NftManager
use vorto.Nft.Manager.{NftManager as Nft}
use vorto.Runtime.System.{Os, Rt, ended}
use vorto.Runtime.Manager as TunnelManager
use vorto.Runtime.Manager.{World}

-- `config.mode == mode` for the configuration applied last, if there is one.
abbrev pub last_is : AppMode → Option AppConfig → Bool
last_is mode none = false
last_is mode (some current) = is_yes (AppMode-discrete current.mode mode)

module _ (H : Hasher) (O : Os) (C : NftCommand) where
  -- The two managers with the systems that they act on, and the configuration applied last.
  pub record Watch : Type 0 where
    pub sockets : World H O
    pub nft_manager : Nft
    pub nft_state : C.State
    pub last_applied_config : Option AppConfig

  abbrev pub stop_sockets : Watch → Watch
  stop_sockets w = record w { sockets = TunnelManager.stop_all H O w.sockets }

  abbrev pub stop_nft : Watch → Watch
  stop_nft w =
      let (m, s) = NftManager.stop_all C w.nft_manager w.nft_state in
      record w { nft_manager = m; nft_state = s }

  -- The nft manager is dropped when the function returns.
  abbrev pub dropped : Watch → Watch
  dropped w = record w { nft_state = NftManager.drop C w.nft_manager w.nft_state }

  -- The arm of `AppMode::Socket`: the other backend is stopped once this one is in place.
  abbrev pub apply_socket : AppConfig → Watch → Bool × Watch
  apply_socket config w =
      let (applied, sockets) = TunnelManager.reconcile H O (enabled_tunnels config) w.sockets in
      let w' = record w { sockets = sockets } in
      (applied, if applied && last_is nft w.last_applied_config then stop_nft w' else w')

  -- The arm of `AppMode::Nft`.
  abbrev pub apply_nft : AppConfig → Watch → Bool × Watch
  apply_nft config w =
      let (applied, m, s) =
        NftManager.reconcile C w.nft_manager (enabled_tunnels config) w.nft_state in
      let w' = record w { nft_manager = m; nft_state = s } in
      (applied, if applied && last_is socket w.last_applied_config then stop_sockets w' else w')

  abbrev pub apply_mode : AppMode → AppConfig → Watch → Bool × Watch
  apply_mode socket config w = apply_socket config w
  apply_mode nft config w = apply_nft config w

  abbrev pub remember : AppConfig → Bool × Watch → Watch
  remember config (true, w) = record w { last_applied_config = some config }
  remember config (false, w) = w

  -- One round of the watcher, from what `load_for_runtime` returned.
  unfoldable pub poll : AppResult AppConfig → Watch → Watch
  poll (ok config) w = remember config (apply_mode config.mode config w)
  poll (err e) w = w

  -- Tasks that came to their end by themselves.
  unfoldable pub crash : List ℕ → World H O → World H O
  crash [] w = w
  crash (id ∷ ids) (active, rt) = crash ids (active, ended O id rt)

  module _ (Y : Yaml) (F : Fs) (path : FilePath) where
    -- At each round: the tasks that have ended since the one before, and the file system.
    abbrev pub Round : Type 0
    Round = List ℕ × F.State

    unfoldable pub rounds : List Round → Watch → Watch
    unfolding poll crash
    rounds [] w = w
    rounds ((ids, fs) ∷ rs) w =
        rounds rs (poll (load_for_runtime Y F fs path) (record w { sockets = crash ids w.sockets }))

    -- The end of the loop: the signal, or an error in waiting for it, which is returned at once.
    abbrev pub shut_down : AppResult (Unit {0}) → Watch → AppResult (Unit {0}) × Watch
    shut_down (ok _) w = (ok tt, dropped (stop_nft (stop_sockets w)))
    shut_down (err e) w = (err e, dropped w)

    unfoldable pub run_config_watcher :
        List Round → AppResult (Unit {0}) → Watch → AppResult (Unit {0}) × Watch
    unfolding rounds
    run_config_watcher rs signal w = shut_down signal (rounds rs w)

  -- The start of the foreground mode in the mode of the configuration.
  abbrev pub start_mode : AppMode → AppConfig → Watch → Bool × Watch
  start_mode socket config w =
      let (started, sockets) = TunnelManager.start_from_config H O config w.sockets in
      (started, record w { sockets = sockets })
  start_mode nft config w =
      let (started, m, s) =
        NftManager.reconcile C w.nft_manager (enabled_tunnels config) w.nft_state in
      (started, record w { nft_manager = m; nft_state = s })

  -- A tick of the health check restarts what has ended, in socket mode only.
  abbrev pub health_check : AppMode → List TunnelConfig → Watch → Watch
  health_check socket desired w = record w {
    sockets = (TunnelManager.reconcile H O desired w.sockets).1;
  }
  health_check nft desired w = w

  unfoldable pub ticks : AppConfig → List (List ℕ) → Watch → Watch
  unfolding crash
  ticks config [] w = w
  ticks config (ids ∷ rest) w = ticks config rest (
      health_check config.mode (enabled_tunnels config)
        (record w { sockets = crash ids w.sockets }))

  -- A start that fails stops both managers.
  abbrev pub serve :
      AppConfig → List (List ℕ) → AppResult (Unit {0}) → Bool × Watch → AppResult (Unit {0}) × Watch
  serve config rest signal (false, w) = (
    err (io ErrorKind.other (text "Failed to start one or more tunnels.")),
    dropped (stop_nft (stop_sockets w)),
  )
  serve config rest (ok _) (true, w) =
      (ok tt, dropped (stop_nft (stop_sockets (ticks config rest w))))
  serve config rest (err e) (true, w) = (err e, dropped (ticks config rest w))

  unfoldable pub run_foreground :
      AppResult AppConfig
      → List (List ℕ)
      → AppResult (Unit {0})
      → Watch
      → AppResult (Unit {0}) × Watch
  unfolding ticks
  run_foreground (err e) rest signal w = (err e, w)
  run_foreground (ok config) rest signal w =
      serve config rest signal (start_mode config.mode config w)
