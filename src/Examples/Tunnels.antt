-- ===== src/Examples/Tunnels.antt =====
-- Runs of the tunnel manager for the tunnels of Examples/Configs.
use mathlib.Core.List.{Permᴰ}
use vorto.Prelude.{ℕ, ◌≡◌, refl, true, false, some, [], ◌∷◌, arith, IsDistinct}
use vorto.Text.{Text, text, Text-discrete}
use vorto.HashMap.{get, extend, insert}
use vorto.Config.Tunnel.{supports_tcp, supports_udp}
use vorto.Runtime.System.{
  Rt, runs, parse_labelled_addr, configure_udp_socket, new_channel, spawn_task,
}
use vorto.Net.{parse_socket_addr}
use vorto.Runtime.Tunnel.{ActiveTunnel, spawn, has_finished, any_finished}
use vorto.Runtime.Tasks.{Spawns, spawn-Spawns}
use vorto.Runtime.Manager.{World, no_tunnels, desired_map, reconcile, stop_all}
use vorto.Runtime.Ownership.{Inv}
use vorto.Runtime.Loop.{Fits}
use vorto.Runtime.Convergence.{reconcile-Inv, reconcile_uninterrupted}
use vorto.Runtime.Stability.{specs, reconcile_again, specs-reconcile}
use vorto.Runtime.Shutdown.{stop_all_lem}
use vorto.Runtime.Unordered.{names, reconcile-IsUnordered}
use vorto.Examples.Systems.{listed, listed-IsReordering, machine}
use vorto.Examples.Configs.{web, dns}

abbrev pub idle : Rt machine
idle = record { os_state = 3; running = []; next_task = 0; stopped = []; next_channel = 0 }

abbrev pub nothing : World listed machine
nothing = ([], idle)

pub nothing-Inv : Inv listed machine nothing
unfolding get
nothing-Inv = record {
  distinct = tt;
  below = λ id h. absurd (ground arith);
  given = λ id h. absurd (ground arith);
  owned = λ id h. absurd (ground arith);
  separate = λ n k a b id h i mine yours. absurd (nothing_there n a h);
}
  where
    nothing_there : (n : Text) (a : ActiveTunnel) → get Text-discrete n no_tunnels ≡ some a → ⊥
    nothing_there n a h = ground arith

spawn-Spawns_example : Spawns machine dns idle (spawn machine dns idle)
spawn-Spawns_example = spawn-Spawns machine dns idle (λ id h. absurd (ground arith))

-- The world after both tunnels were started.
abbrev pub both_tunnels : World listed machine
both_tunnels = (reconcile listed machine (web ∷ dns ∷ []) nothing).1

pub both_tunnels-Inv : Inv listed machine both_tunnels
both_tunnels-Inv =
    (reconcile-Inv listed machine listed-IsReordering (web ∷ dns ∷ []) nothing nothing-Inv).0

reconcile-Inv_example :
    Inv listed machine (reconcile listed machine (web ∷ []) both_tunnels).1
    × Fits (desired_map (web ∷ [])) ((reconcile listed machine (web ∷ []) both_tunnels).1).0
reconcile-Inv_example =
    reconcile-Inv listed machine listed-IsReordering (web ∷ []) both_tunnels both_tunnels-Inv

pub started : (reconcile listed machine (web ∷ dns ∷ []) nothing).0 ≡ true
unfolding reconcile extend insert Text-discrete text get spawn supports_tcp supports_udp
    parse_labelled_addr parse_socket_addr configure_udp_socket new_channel spawn_task any_finished
started = refl

abbrev pub web_tunnel : ActiveTunnel
web_tunnel = record { spec = web; stop_tx = 0; handles = 0 ∷ [] }

pub web_is_active : get Text-discrete web.name both_tunnels.0 ≡ some web_tunnel
unfolding reconcile extend insert Text-discrete text get spawn supports_tcp supports_udp
    parse_labelled_addr parse_socket_addr configure_udp_socket new_channel spawn_task any_finished
web_is_active = refl

pub web_is_alive : has_finished machine web_tunnel both_tunnels.1 ≡ false
unfolding reconcile extend insert Text-discrete text get spawn supports_tcp supports_udp
    parse_labelled_addr parse_socket_addr configure_udp_socket new_channel spawn_task any_finished
web_is_alive = refl

pub web_is_desired : get Text-discrete web.name (desired_map (web ∷ [])) ≡ some web
unfolding get desired_map extend insert Text-discrete text
web_is_desired = refl

reconcile_uninterrupted_example :
    (get Text-discrete web.name ((reconcile listed machine (web ∷ []) both_tunnels).1).0
      ≡ some web_tunnel)
    × (has_finished machine web_tunnel ((reconcile listed machine (web ∷ []) both_tunnels).1).1
        ≡ false)
reconcile_uninterrupted_example =
    reconcile_uninterrupted listed machine listed-IsReordering (web ∷ []) both_tunnels
      both_tunnels-Inv web.name web_tunnel web_is_active web_is_alive web_is_desired

stop_all_lem_example :
    ((stop_all listed machine both_tunnels).0 ≡ [])
    × ((id : ℕ) → runs machine (stop_all listed machine both_tunnels).1 id ≡ false)
stop_all_lem_example = stop_all_lem listed machine listed-IsReordering both_tunnels both_tunnels-Inv

reconcile_again_example :
    reconcile listed machine (web ∷ dns ∷ []) both_tunnels ≡ (true, both_tunnels)
reconcile_again_example =
    reconcile_again listed machine listed-IsReordering (web ∷ dns ∷ []) nothing nothing-Inv started

specs-reconcile_example :
    specs both_tunnels.0 ≡ (λ k. get Text-discrete k (desired_map (web ∷ dns ∷ [])))
specs-reconcile_example =
    specs-reconcile listed machine listed-IsReordering (web ∷ dns ∷ []) nothing nothing-Inv started

started_reversed : (reconcile listed machine (dns ∷ web ∷ []) nothing).0 ≡ true
unfolding reconcile extend insert Text-discrete text get spawn supports_tcp supports_udp
    parse_labelled_addr parse_socket_addr configure_udp_socket new_channel spawn_task any_finished
started_reversed = refl

web-dns-IsDistinct : IsDistinct (names (web ∷ dns ∷ []))
unfolding text
web-dns-IsDistinct = (((λ e. ground arith), tt), (tt, tt))

reconcile-IsUnordered_example :
    specs both_tunnels.0 ≡ specs ((reconcile listed machine (dns ∷ web ∷ []) nothing).1).0
reconcile-IsUnordered_example =
    reconcile-IsUnordered listed listed machine machine listed-IsReordering listed-IsReordering
      (web ∷ dns ∷ []) (dns ∷ web ∷ []) web-dns-IsDistinct ∣ Permᴰ.swap refl refl ∣₁ nothing nothing
      nothing-Inv nothing-Inv started started_reversed
