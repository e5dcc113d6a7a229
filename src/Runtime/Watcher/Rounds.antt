-- ===== src/Runtime/Watcher/Rounds.antt =====
-- What holds through all rounds of `run_config_watcher` in src/runtime.rs.
use vorto.Prelude.{
  ℕ, ◌≡◌, refl, sym, subst, Bool, true, false, ◌&&◌, List, [], ◌∷◌, inl, inr, Bool-cases,
}
use vorto.HashMap.{Hasher, IsReordering}
use vorto.Result.{AppResult, ok, err, is_ok}
use vorto.Fs.{FilePath, Fs}
use vorto.Config.Tunnel.{AppMode, socket, nft, TunnelConfig, AppConfig, enabled_tunnels}
use vorto.Config.Store.{Yaml, load_for_runtime}
use vorto.Nft.Cli.{NftCommand}
use vorto.Nft.Manager as NftManager
use vorto.Runtime.System.{Os, runs, ended}
use vorto.Runtime.Manager as TunnelManager
use vorto.Runtime.Manager.{World, Active}
use vorto.Runtime.Ownership.{Inv, ended-Inv}
use vorto.Runtime.Convergence.{reconcile-Inv}
use vorto.Runtime.Shutdown.{stop_all_lem, stop_all-Inv}
use vorto.Runtime.Watcher.{
  Watch, last_is, apply_mode, remember, poll, crash, Round, rounds, run_config_watcher, ticks,
  run_foreground, start_mode, health_check, serve,
}

module _ (H : Hasher) (O : Os) (C : NftCommand) (L : IsReordering H) where
  crash-Inv : (ids : List ℕ) (w : World H O) → Inv H O w → Inv H O (crash H O C ids w)
  unfolding crash
  crash-Inv [] w v = v
  crash-Inv (id ∷ ids) (m, rt) v = crash-Inv ids (m, ended O id rt) (ended-Inv H O id m rt v)

  -- The socket tunnels of a watcher are in order.
  abbrev pub SocketsInv : Watch H O C → Type 0
  SocketsInv w = Inv H O w.sockets

  remember-sockets :
      (c : AppConfig) (r : Bool × Watch H O C) → (remember H O C c r).sockets ≡ (r.1).sockets
  remember-sockets c (true, w) = refl
  remember-sockets c (false, w) = refl

  apply_mode-Inv :
      (mode : AppMode) (c : AppConfig) (w : Watch H O C)
      → SocketsInv w
      → SocketsInv (apply_mode H O C mode c w).1
  apply_mode-Inv socket c w v =
      elim (Bool-cases (
        (TunnelManager.reconcile H O (enabled_tunnels c) w.sockets).0
        && last_is nft w.last_applied_config)) [
          | inl stops ↦ rw stops (reconcile-Inv H O L (enabled_tunnels c) w.sockets v).0
          | inr stays ↦ rw stays (reconcile-Inv H O L (enabled_tunnels c) w.sockets v).0
        ]
  apply_mode-Inv nft c w v =
      elim (Bool-cases (
        (NftManager.reconcile C w.nft_manager (enabled_tunnels c) w.nft_state).0
        && last_is socket w.last_applied_config)) [
          | inl stops ↦ rw stops (stop_all-Inv H O L w.sockets v)
          | inr stays ↦ rw stays v
        ]

  pub poll-Inv :
      (loaded : AppResult AppConfig) (w : Watch H O C)
      → SocketsInv w
      → SocketsInv (poll H O C loaded w)
  unfolding poll
  poll-Inv (ok c) w v =
      subst (Inv H O) (sym (remember-sockets c (apply_mode H O C c.mode c w)))
        (apply_mode-Inv c.mode c w v)
  poll-Inv (err e) w v = v

  module _ (Y : Yaml) (F : Fs) (path : FilePath) where
    rounds-Inv :
        (rs : List (Round H O C Y F path)) (w : Watch H O C)
        → SocketsInv w
        → SocketsInv (rounds H O C Y F path rs w)
    unfolding rounds
    rounds-Inv [] w v = v
    rounds-Inv ((ids, fs) ∷ rs) w v =
        rounds-Inv rs
          (poll H O C (load_for_runtime Y F fs path)
            (record w { sockets = crash H O C ids w.sockets }))
          (poll-Inv (load_for_runtime Y F fs path)
            (record w { sockets = crash H O C ids w.sockets }) (crash-Inv ids w.sockets v))

    -- If maps iterate over their own entries and the invariant of the tunnel manager holds at the
    -- start, then a watcher that a signal ends returns without an error, with no tunnel active,
    -- no task running and the nft table marked inactive, however the rounds went.
    pub run_config_watcher-stops :
        (rs : List (Round H O C Y F path)) (w : Watch H O C)
        → SocketsInv w
        → let r = run_config_watcher H O C Y F path rs (ok tt) w in
          (r.0 ≡ ok tt)
          × (((r.1).sockets).0 ≡ [])
          × ((id : ℕ) → runs O ((r.1).sockets).1 id ≡ false)
          × ((r.1).nft_manager.table_active ≡ false)
    unfolding run_config_watcher NftManager.stop_all
    run_config_watcher-stops rs w v =
        let end = stop_all_lem H O L (rounds H O C Y F path rs w).sockets (rounds-Inv rs w v) in
        (refl, end.0, end.1, refl)

  start_mode-Inv :
      (mode : AppMode) (c : AppConfig) (w : Watch H O C)
      → SocketsInv w
      → SocketsInv (start_mode H O C mode c w).1
  unfolding TunnelManager.start_from_config
  start_mode-Inv socket c w v = (reconcile-Inv H O L (enabled_tunnels c) w.sockets v).0
  start_mode-Inv nft c w v = v

  health_check-Inv :
      (mode : AppMode) (desired : List TunnelConfig) (w : Watch H O C)
      → SocketsInv w
      → SocketsInv (health_check H O C mode desired w)
  health_check-Inv socket desired w v = (reconcile-Inv H O L desired w.sockets v).0
  health_check-Inv nft desired w v = v

  ticks-Inv :
      (c : AppConfig) (rest : List (List ℕ)) (w : Watch H O C)
      → SocketsInv w
      → SocketsInv (ticks H O C c rest w)
  unfolding ticks
  ticks-Inv c [] w v = v
  ticks-Inv c (ids ∷ rest) w v =
      ticks-Inv c rest
        (health_check H O C c.mode (enabled_tunnels c)
          (record w { sockets = crash H O C ids w.sockets }))
        (health_check-Inv c.mode (enabled_tunnels c)
          (record w { sockets = crash H O C ids w.sockets }) (crash-Inv ids w.sockets v))

  serve-stops :
      (c : AppConfig) (rest : List (List ℕ)) (b : Bool) (w : Watch H O C)
      → SocketsInv w
      → let r = serve H O C c rest (ok tt) (b, w) in
        (is_ok r.0 ≡ b)
        × (((r.1).sockets).0 ≡ [])
        × ((id : ℕ) → runs O ((r.1).sockets).1 id ≡ false)
  serve-stops c rest true w v =
      let end = stop_all_lem H O L (ticks H O C c rest w).sockets (ticks-Inv c rest w v) in
      (refl, end.0, end.1)
  serve-stops c rest false w v = let end = stop_all_lem H O L w.sockets v in (refl, end.0, end.1)

  -- If maps iterate over their own entries and the invariant of the tunnel manager holds at the
  -- start, then a foreground run whose configuration loads and that a signal ends leaves no
  -- tunnel active and no task running, and returns an error exactly if the start failed.
  pub run_foreground-stops :
      (c : AppConfig) (rest : List (List ℕ)) (w : Watch H O C)
      → SocketsInv w
      → let r = run_foreground H O C (ok c) rest (ok tt) w in
        (is_ok r.0 ≡ (start_mode H O C c.mode c w).0)
        × (((r.1).sockets).0 ≡ [])
        × ((id : ℕ) → runs O ((r.1).sockets).1 id ≡ false)
  unfolding run_foreground
  run_foreground-stops c rest w v =
      serve-stops c rest (start_mode H O C c.mode c w).0 (start_mode H O C c.mode c w).1
        (start_mode-Inv c.mode c w v)
