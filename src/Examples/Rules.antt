-- ===== src/Examples/Rules.antt =====
-- Rulesets, and runs of the nft manager, for the configurations of Examples/Configs.
use vorto.Prelude.{ℕ, ◌≡◌, refl, ap, ◌≢◌, true, false, not, ◌&&◌, [], ◌∷◌, arith, is_yes}
use vorto.Text.{text, Text-discrete, decimal}
use vorto.Net.{Ipv4Addr, is_loopback, is_unspecified, parse_socket_addr, Ipv4Addr-discrete}
use vorto.Result.{ok, is_ok}
use vorto.Config.Tunnel.{enabled_tunnels, supports_tcp, supports_udp}
use vorto.Config.NftTunnel.{IsNftTunnel}
use vorto.Prelude.{All}
use vorto.Nft.Names.{new_names}
use vorto.Nft.Ruleset.{NftRule, NftRuleset, from_tunnels}
use vorto.Nft.Forwarding.{IsForwarder, from_tunnels-IsForwarder}
use vorto.Nft.Targets.{IsAscending, has_target, leads_to, from_tunnels-targets}
use vorto.Nft.Script.{render_script}
use vorto.Nft.Cli.{run_nft_script, delete_table}
use vorto.Nft.Script.Reading.{render_script_injective}
use vorto.Nft.Manager.{NftManager, new_manager, reconcile}
use vorto.Nft.Tracking.{Tracks, Reconciles, reconcile-Reconciles}
use vorto.Nft.LostTable.{reconcile-after_lost_table}
use vorto.Examples.Systems.{Tables, no_tables, tables, tables-IsLawful}
use vorto.Examples.Configs.{web, dns, nft_config, nft_config-is_valid}

abbrev pid : ℕ
pid = 4242

abbrev unique : ℕ
unique = 17

abbrev manager : NftManager
manager = new_manager pid unique

from_tunnels-IsForwarder_example :
    (r : NftRuleset) × (from_tunnels (enabled_tunnels nft_config) manager.names ≡ ok r)
    × IsForwarder (enabled_tunnels nft_config) r
from_tunnels-IsForwarder_example =
    from_tunnels-IsForwarder nft_config manager.names refl nft_config-is_valid

abbrev localhost : Ipv4Addr
localhost = record { a = 127; b = 0; c = 0; d = 1 }

abbrev host : ℕ → Ipv4Addr
host n = record { a = 10; b = 0; c = 0; d = n }

abbrev two_tunnels : NftRuleset
two_tunnels = record {
  names = manager.names;
  rules =
      NftRule.tcp localhost 53 (host 3) 53
      ∷ NftRule.udp localhost 53 (host 3) 53
      ∷ NftRule.tcp localhost 80 (host 2) 8080
      ∷ [];
  masquerade_targets = host 2 ∷ host 3 ∷ [];
}

built : from_tunnels (dns ∷ web ∷ []) manager.names ≡ ok two_tunnels
unfolding from_tunnels parse_socket_addr text is_unspecified supports_tcp is_loopback supports_udp
    Ipv4Addr-discrete
built = refl

from_tunnels-targets_example :
    (v : All IsNftTunnel (dns ∷ web ∷ [])) × IsAscending two_tunnels.masquerade_targets
    × ((ip : Ipv4Addr)
        → has_target two_tunnels.masquerade_targets ip
          ≡ (leads_to ip (dns ∷ web ∷ []) v && not (is_loopback ip)))
from_tunnels-targets_example = from_tunnels-targets (dns ∷ web ∷ []) manager.names two_tunnels built

render_script_injective_example :
    (two_tunnels.rules ≡ two_tunnels.rules)
    × (two_tunnels.masquerade_targets ≡ two_tunnels.masquerade_targets)
render_script_injective_example = render_script_injective two_tunnels two_tunnels refl refl

reconcile-Reconciles_example :
    Reconciles tables tables-IsLawful manager
      (web ∷ [])
      no_tables
      (reconcile tables manager (web ∷ []) no_tables)
reconcile-Reconciles_example =
    reconcile-Reconciles tables tables-IsLawful manager (web ∷ []) no_tables

-- A manager that forwards for one tunnel, and a kernel with its table that refuses the next script.
abbrev active : NftManager
active = record manager { active_specs = web ∷ []; table_active = true }

abbrev refusing : Tables
refusing = record {
  present = λ t. is_yes (Text-discrete t active.names.table);
  script = [];
  refuses = true;
}

active-Tracks : Tracks tables tables-IsLawful active refusing
active-Tracks = record { tracked = λ h. refl; counted = refl }

deletes : (delete_table tables active.names.table refusing).0 ≡ ok tt
unfolding delete_table Text-discrete new_manager new_names text decimal
deletes = refl

refusal :
    is_ok
      (run_nft_script tables
        (render_script two_tunnels)
        (delete_table tables active.names.table refusing).1).0
    ≡ false
unfolding run_nft_script delete_table
refusal = refl

refused :
    (run_nft_script tables
      (render_script two_tunnels)
      (delete_table tables active.names.table refusing).1).0
    ≢ ok tt
refused h = ground (arith, refusal, ap is_ok h)

reconcile-after_lost_table_example :
    let q = reconcile tables active (dns ∷ web ∷ []) refusing in
    (q.0 ≡ false)
    × (q.1 ≡ active)
    × (tables.has_table q.2 active.names.table ≡ false)
    × (reconcile tables active active.active_specs q.2 ≡ (true, active, q.2))
reconcile-after_lost_table_example =
    reconcile-after_lost_table tables tables-IsLawful active (dns ∷ web ∷ []) two_tunnels refusing
      refl (λ e. ground arith) built refl deletes refused
