-- ===== src/Examples/Watchers.antt =====
-- Rounds of the configuration watcher on the systems of Examples/Systems.
use vorto.Prelude.{ℕ, ◌≡◌, refl, true, false, some, none, List, [], ◌∷◌, All, is_yes}
use vorto.Text.{text, Text-discrete, decimal}
use vorto.HashMap.{get, extend, insert}
use vorto.Net.{parse_socket_addr, is_unspecified}
use vorto.Result.{ok, is_ok}
use vorto.Config.Tunnel.{
  AppMode-discrete, TunnelConfig, TunnelConfigs-discrete, AppConfig, tcp, socket, nft, supports_tcp,
  supports_udp, enabled_tunnels,
}
use vorto.Config.Valid.{validate_iff}
use vorto.Nft.Cli.{delete_table, run_nft_script}
use vorto.Nft.Names.{new_names}
use vorto.Nft.Ruleset.{from_tunnels, has_no_rules}
use vorto.Nft.Manager as NftManager
use vorto.Nft.Manager.{new_manager}
use vorto.Nft.Tracking.{Tracks}
use vorto.Runtime.System.{
  runs, parse_labelled_addr, configure_udp_socket, new_channel, spawn_task, wait_all, send_stop,
}
use vorto.Runtime.Tunnel.{spawn}
use vorto.Runtime.Manager as TunnelManager
use vorto.Runtime.Manager.{desired_map}
use vorto.Runtime.Watcher.{
  Watch, Round, last_is, poll, run_config_watcher, run_foreground, start_mode,
}
use vorto.Runtime.Watcher.Modes.{poll_leaves_stale_sockets}
use vorto.Runtime.Stability.{specs}
use vorto.Runtime.Watcher.Applied.{poll-applies}
use vorto.Runtime.Watcher.Table.{run_config_watcher-removes_table}
use vorto.Runtime.Watcher.Rounds.{run_foreground-stops}
use vorto.Examples.Systems.{
  listed, listed-IsReordering, machine, memory, no_tables, tables, tables-IsLawful, tables-delete,
}
use vorto.Examples.Configs.{
  web, sockets_config, sockets_config-is_valid, nft_config, one_document, file, full_disk,
}
use vorto.Examples.Tunnels.{nothing, nothing-Inv}

abbrev Watcher : Type 0
Watcher = Watch listed machine tables

abbrev pub fresh : Watcher
fresh = record {
  sockets = nothing;
  nft_manager = new_manager 4242 17;
  nft_state = no_tables;
  last_applied_config = none;
}

run_foreground-stops_example :
    let r =
      run_foreground listed machine tables (ok sockets_config) ((0 ∷ []) ∷ []) (ok tt) fresh in
    (is_ok r.0 ≡ (start_mode listed machine tables socket sockets_config fresh).0)
    × (((r.1).sockets).0 ≡ [])
    × ((id : ℕ) → runs machine ((r.1).sockets).1 id ≡ false)
run_foreground-stops_example =
    run_foreground-stops listed machine tables listed-IsReordering sockets_config ((0 ∷ []) ∷ [])
      fresh nothing-Inv

-- A round that loads the configuration, and one after a crash of the first task.
abbrev two_rounds : List (Round listed machine tables one_document memory file)
two_rounds = ([], full_disk) ∷ (0 ∷ [], full_disk) ∷ []

-- A watcher in nft mode.
abbrev forwarding : Watcher
forwarding = record {
  sockets = nothing;
  nft_manager = record (new_manager 4242 17) { active_specs = web ∷ []; table_active = true };
  nft_state = record {
    present = λ t. is_yes (Text-discrete t (new_manager 4242 17).names.table);
    script = [];
    refuses = false;
  };
  last_applied_config = some nft_config;
}

forwarding-Tracks : Tracks tables tables-IsLawful forwarding.nft_manager forwarding.nft_state
forwarding-Tracks = record { tracked = λ h. refl; counted = refl }

last_is_nft : last_is nft forwarding.last_applied_config ≡ true
unfolding AppMode-discrete
last_is_nft = refl

last_is_not_socket : last_is socket forwarding.last_applied_config ≡ false
unfolding AppMode-discrete
last_is_not_socket = refl

started : (TunnelManager.reconcile listed machine (enabled_tunnels sockets_config) nothing).0 ≡ true
unfolding TunnelManager.reconcile extend enabled_tunnels insert Text-discrete text get spawn
    supports_tcp supports_udp parse_labelled_addr parse_socket_addr configure_udp_socket new_channel
    spawn_task
started = refl

poll-applies_example :
    let w' = poll listed machine tables (ok sockets_config) forwarding in
    (w'.last_applied_config ≡ some sockets_config)
    × (specs w'.sockets.0
        ≡ (λ k. get Text-discrete k (desired_map (enabled_tunnels sockets_config))))
    × All (λ t. specs w'.sockets.0 t.name ≡ some t) (enabled_tunnels sockets_config)
poll-applies_example =
    poll-applies listed machine tables listed-IsReordering sockets_config forwarding
      ((validate_iff sockets_config).0 sockets_config-is_valid) refl nothing-Inv started

deletes : (delete_table tables forwarding.nft_manager.names.table forwarding.nft_state).0 ≡ ok tt
unfolding delete_table Text-discrete new_manager new_names text decimal
deletes = refl

run_config_watcher-removes_table_example :
    tables.has_table
      ((run_config_watcher listed machine tables one_document memory file two_rounds
          (ok tt)
          forwarding).1
        ).nft_state
      (new_manager 4242 17).names.table
    ≡ false
run_config_watcher-removes_table_example =
    run_config_watcher-removes_table tables tables-IsLawful (new_manager 4242 17).names
      (tables-delete (new_manager 4242 17).names.table) listed machine one_document memory file
      two_rounds (ok tt) forwarding refl forwarding-Tracks

-- A tunnel that cannot be started, beside one that can.
abbrev busy : TunnelConfig
busy = record {
  name = text "busy";
  listen = text "127.0.0.1:1";
  target = text "10.0.0.2:8080";
  protocol = tcp;
  enabled = true;
}

abbrev half_failing : AppConfig
half_failing = record { daemon_log = true; mode = socket; tunnels = web ∷ busy ∷ [] }

refused : (TunnelManager.reconcile listed machine (enabled_tunnels half_failing) nothing).0 ≡ false
unfolding TunnelManager.reconcile extend enabled_tunnels insert Text-discrete text get spawn
    supports_tcp supports_udp parse_labelled_addr parse_socket_addr configure_udp_socket new_channel
    spawn_task
refused = refl

reverted :
    (NftManager.reconcile tables forwarding.nft_manager
      (enabled_tunnels nft_config)
      forwarding.nft_state).0
    ≡ true
unfolding NftManager.reconcile TunnelConfigs-discrete enabled_tunnels text from_tunnels
    parse_socket_addr is_unspecified NftManager.apply_ruleset has_no_rules supports_tcp
    run_nft_script delete_table
reverted = refl

poll_leaves_stale_sockets_example :
    let w' =
      poll listed machine tables
        (ok nft_config)
        (poll listed machine tables (ok half_failing) forwarding) in
    (w'.last_applied_config ≡ some nft_config)
    × (w'.sockets
        ≡ (TunnelManager.reconcile listed machine (enabled_tunnels half_failing) nothing).1)
poll_leaves_stale_sockets_example =
    poll_leaves_stale_sockets listed machine tables half_failing nft_config forwarding refl refl
      last_is_not_socket refused reverted

-- The tunnel that could be started runs on.
web_runs_on :
    runs machine
      ((TunnelManager.reconcile listed machine (enabled_tunnels half_failing) nothing).1).1
      0
    ≡ true
unfolding TunnelManager.reconcile extend enabled_tunnels insert Text-discrete text get spawn
    supports_tcp supports_udp parse_labelled_addr parse_socket_addr configure_udp_socket new_channel
    spawn_task wait_all send_stop
web_runs_on = refl
