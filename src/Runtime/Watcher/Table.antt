-- ===== src/Runtime/Watcher/Table.antt =====
-- The nft table of a process that runs `run_config_watcher` of src/runtime.rs.
use vorto.Prelude.{
  ◌≡◌, sym, ap, subst, ◌∙◌, Bool, true, false, ◌&&◌, List, [], ◌∷◌, inl, inr, Bool-cases,
}
use vorto.HashMap.{Hasher}
use vorto.Result.{AppResult, ok, err}
use vorto.Fs.{FilePath, Fs}
use vorto.Config.Tunnel.{AppMode, socket, nft, TunnelConfig, AppConfig, enabled_tunnels}
use vorto.Config.Store.{Yaml, load_for_runtime}
use vorto.Nft.Names.{NftNames}
use vorto.Nft.Cli.{NftCommand, IsLawful, delete_table}
use vorto.Nft.Manager as NftManager
use vorto.Nft.Manager.{NftManager as Nft}
use vorto.Nft.Tracking.{
  Tracks, reconcile-Reconciles, reconcile-Tracks, stop_all-Tracks, has_table-drop,
}
use vorto.Runtime.System.{Os}
use vorto.Runtime.Manager as TunnelManager
use vorto.Runtime.Watcher.{
  Watch, last_is, apply_mode, remember, poll, crash, Round, rounds, run_config_watcher, shut_down,
}

module _ (C : NftCommand) (L : IsLawful C) (names : NftNames) where
  -- The manager has these names and knows of its table.
  abbrev Keeps : Nft → C.State → Type 0
  Keeps m s = (m.names ≡ names) × Tracks C L m s

  names-reconcile :
      (m : Nft) (desired : List TunnelConfig) (s : C.State)
      → ((NftManager.reconcile C m desired s).1).names ≡ m.names
  names-reconcile m desired s = elim (reconcile-Reconciles C L m desired s) [
    | inl (active, same, e) ↦ ap (λ q. (q.1).names) e
    | inr (inl (done, e, there)) ↦ ap (λ (q : Nft). q.names) e
    | inr (inr (failed, e, absent)) ↦ ap (λ (q : Nft). q.names) e
  ]

  reconcile-Keeps :
      (m : Nft) (desired : List TunnelConfig) (s : C.State)
      → Keeps m s
      → let r = NftManager.reconcile C m desired s in Keeps r.1 r.2
  reconcile-Keeps m desired s (n, t) =
      (names-reconcile m desired s ∙ n, reconcile-Tracks C L m desired s t)

  module _ (deletes : (s : C.State) → (delete_table C names.table s).0 ≡ ok tt) where
    deletes_for :
        (m : Nft) (s : C.State) → m.names ≡ names → (delete_table C m.names.table s).0 ≡ ok tt
    deletes_for m s n =
        subst (λ (k : NftNames). (delete_table C k.table s).0 ≡ ok tt) (sym n) (deletes s)

    stop_all-Keeps :
        (m : Nft) (s : C.State)
        → Keeps m s
        → let r = NftManager.stop_all C m s in
          Keeps r.0 r.1 × (r.0.table_active ≡ false) × (C.has_table r.1 names.table ≡ false)
    unfolding NftManager.stop_all
    stop_all-Keeps m s (n, t) =
        let (tracks, idle, gone) = stop_all-Tracks C L m s t (λ h. deletes_for m s n) in
        (
          (n, tracks),
          idle,
          subst (λ (k : NftNames). C.has_table (NftManager.stop_all C m s).1 k.table ≡ false) n
              gone,
        )

    has_table-drop_of_Keeps :
        (m : Nft) (s : C.State)
        → Keeps m s
        → C.has_table (NftManager.drop C m s) names.table ≡ false
    has_table-drop_of_Keeps m s (n, t) =
        subst (λ (k : NftNames). C.has_table (NftManager.drop C m s) k.table ≡ false) n
          (has_table-drop C L m s t (λ h. deletes_for m s n))

    module _ (H : Hasher) (O : Os) where
      abbrev KeepsTable : Watch H O C → Type 0
      KeepsTable w = Keeps w.nft_manager w.nft_state

      apply_mode-Keeps :
          (mode : AppMode) (c : AppConfig) (w : Watch H O C)
          → KeepsTable w
          → KeepsTable (apply_mode H O C mode c w).1
      apply_mode-Keeps socket c w k =
          elim (Bool-cases (
            (TunnelManager.reconcile H O (enabled_tunnels c) w.sockets).0
            && last_is nft w.last_applied_config)) [
              | inl stops ↦ rw stops (stop_all-Keeps w.nft_manager w.nft_state k).0
              | inr stays ↦ rw stays k
            ]
      apply_mode-Keeps nft c w k =
          elim (Bool-cases (
            (NftManager.reconcile C w.nft_manager (enabled_tunnels c) w.nft_state).0
            && last_is socket w.last_applied_config)) [
              | inl stops ↦
                  rw stops (reconcile-Keeps w.nft_manager (enabled_tunnels c) w.nft_state k)
              | inr stays ↦
                  rw stays (reconcile-Keeps w.nft_manager (enabled_tunnels c) w.nft_state k)
            ]

      remember-Keeps :
          (c : AppConfig) (r : Bool × Watch H O C)
          → KeepsTable r.1
          → KeepsTable (remember H O C c r)
      remember-Keeps c (true, w) k = k
      remember-Keeps c (false, w) k = k

      poll-Keeps :
          (loaded : AppResult AppConfig) (w : Watch H O C)
          → KeepsTable w
          → KeepsTable (poll H O C loaded w)
      unfolding poll
      poll-Keeps (ok c) w k =
          remember-Keeps c (apply_mode H O C c.mode c w) (apply_mode-Keeps c.mode c w k)
      poll-Keeps (err e) w k = k

      module _ (Y : Yaml) (F : Fs) (path : FilePath) where
        rounds-Keeps :
            (rs : List (Round H O C Y F path)) (w : Watch H O C)
            → KeepsTable w
            → KeepsTable (rounds H O C Y F path rs w)
        unfolding rounds
        rounds-Keeps [] w k = k
        rounds-Keeps ((ids, fs) ∷ rs) w k =
            rounds-Keeps rs
              (poll H O C (load_for_runtime Y F fs path)
                (record w { sockets = crash H O C ids w.sockets }))
              (poll-Keeps (load_for_runtime Y F fs path)
                (record w { sockets = crash H O C ids w.sockets }) k)

        shut_down-gone :
            (signal : AppResult (Unit {0})) (w : Watch H O C)
            → KeepsTable w
            → C.has_table ((shut_down H O C Y F path signal w).1).nft_state names.table ≡ false
        unfolding NftManager.drop NftManager.stop_all
        shut_down-gone (ok _) w k =
            let (_, _, gone) = stop_all-Keeps w.nft_manager w.nft_state k in gone
        shut_down-gone (err e) w k = has_table-drop_of_Keeps w.nft_manager w.nft_state k

        -- If the `nft` command behaves as documented, every deletion of the table of the manager
        -- succeeds and the manager knows of its table at the start, then the kernel does not have
        -- the table when the watcher returns, however the rounds went and whether or not the wait
        -- for the signal failed.
        pub run_config_watcher-removes_table :
            (rs : List (Round H O C Y F path)) (signal : AppResult (Unit {0})) (w : Watch H O C)
            → w.nft_manager.names ≡ names
            → Tracks C L w.nft_manager w.nft_state
            → C.has_table ((run_config_watcher H O C Y F path rs signal w).1).nft_state names.table
              ≡ false
        unfolding run_config_watcher
        run_config_watcher-removes_table rs signal w n t =
            shut_down-gone signal (rounds H O C Y F path rs w) (rounds-Keeps rs w (n, t))
