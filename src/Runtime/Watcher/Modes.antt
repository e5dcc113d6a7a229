-- ===== src/Runtime/Watcher/Modes.antt =====
-- What a round of `run_config_watcher` in src/runtime.rs does to the backend of the other mode.
use vorto.Prelude.{◌≡◌, refl, ap, true, false, some}
use vorto.HashMap.{Hasher}
use vorto.Result.{ok}
use vorto.Config.Tunnel.{socket, nft, AppConfig, enabled_tunnels}
use vorto.Nft.Cli.{NftCommand, IsLawful, delete_table}
use vorto.Nft.Manager as NftManager
use vorto.Nft.Tracking.{Tracks, stop_all-Tracks}
use vorto.Runtime.System.{Os}
use vorto.Runtime.Manager as TunnelManager
use vorto.Runtime.Watcher.{Watch, last_is, apply_mode, apply_socket, apply_nft, remember, poll}

module _ (H : Hasher) (O : Os) (C : NftCommand) where
  pub poll_of_socket :
      (c : AppConfig) (w : Watch H O C)
      → c.mode ≡ socket
      → poll H O C (ok c) w ≡ remember H O C c (apply_socket H O C c w)
  unfolding poll
  poll_of_socket c w m = ap (λ mode. remember H O C c (apply_mode H O C mode c w)) m

  poll_of_nft :
      (c : AppConfig) (w : Watch H O C)
      → c.mode ≡ nft
      → poll H O C (ok c) w ≡ remember H O C c (apply_nft H O C c w)
  unfolding poll
  poll_of_nft c w m = ap (λ mode. remember H O C c (apply_mode H O C mode c w)) m

  -- After a configuration in nft mode was applied, a round that loads one in socket mode and
  -- starts all its tunnels remembers it, marks the nft table inactive, and leaves the kernel
  -- without the table. The `nft` command behaves as documented, the manager knows of its table,
  -- and the deletion of an active table does not fail.
  pub poll_to_socket :
      (L : IsLawful C) (c : AppConfig) (w : Watch H O C)
      → c.mode ≡ socket
      → last_is nft w.last_applied_config ≡ true
      → Tracks C L w.nft_manager w.nft_state
      → (TunnelManager.reconcile H O (enabled_tunnels c) w.sockets).0 ≡ true
      → (w.nft_manager.table_active ≡ true
          → (delete_table C w.nft_manager.names.table w.nft_state).0 ≡ ok tt)
      → let w' = poll H O C (ok c) w in
        (w'.last_applied_config ≡ some c)
        × (w'.nft_manager.table_active ≡ false)
        × (C.has_table w'.nft_state w.nft_manager.names.table ≡ false)
  poll_to_socket L c w m last t applied deletes =
      let (_, idle, gone) = stop_all-Tracks C L w.nft_manager w.nft_state t deletes in
      rw (poll_of_socket c w m, applied, last) (refl, idle, gone)

  -- If the configuration applied last, if any, is not in socket mode, a round that fails to start
  -- all tunnels of a configuration in socket mode, followed by a round that applies one in nft
  -- mode, remembers the latter and leaves the socket tunnels as the failed round left them.
  pub poll_leaves_stale_sockets :
      (c1 c2 : AppConfig) (w : Watch H O C)
      → c1.mode ≡ socket
      → c2.mode ≡ nft
      → last_is socket w.last_applied_config ≡ false
      → (TunnelManager.reconcile H O (enabled_tunnels c1) w.sockets).0 ≡ false
      → (NftManager.reconcile C w.nft_manager (enabled_tunnels c2) w.nft_state).0 ≡ true
      → let w' = poll H O C (ok c2) (poll H O C (ok c1) w) in
        (w'.last_applied_config ≡ some c2)
        × (w'.sockets ≡ (TunnelManager.reconcile H O (enabled_tunnels c1) w.sockets).1)
  poll_leaves_stale_sockets c1 c2 w m1 m2 last refused applied =
      rw (poll_of_socket c1 w m1, refused)
        (rw (poll_of_nft c2 _ m2, last) (rw applied (refl, refl)))
