-- ===== src/Examples/Interrupted.antt =====
-- A reload keeps one of two tunnels, whose task fails when the finished tunnels have been collected.
use vorto.Prelude.{ap, ℕ, ◌≡◌, refl, Bool, true, false, some, [], ◌∷◌}
use vorto.Text.{Text, Text-discrete}
use vorto.HashMap.{get}
use vorto.Config.Tunnel.{TunnelConfig}
use vorto.Runtime.System.{runs, ended}
use vorto.Runtime.Tasks.{has}
use vorto.Runtime.Tunnel.{ActiveTunnel}
use vorto.Runtime.Manager.{desired_map, no_tunnels, stop_each}
use vorto.Runtime.Stopping.{Stopping, Steps, stopping}
use vorto.Runtime.Stopping.Schedule.{stop_each-IsSchedule}
use vorto.Runtime.History.{History, begins, reconciles, stops, History-Inv}
use vorto.Runtime.Ownership.{Inv}
use vorto.Runtime.Loop.{Fits}
use vorto.Runtime.Interrupted as Interrupted
use vorto.Runtime.Interrupted.{At, returned, Reconciling, entering, crashes}
use vorto.Runtime.Interrupted.Schedule.{can_return, reconcile-IsSchedule}
use vorto.Runtime.Interrupted.Outcome.{Serves, interrupted-Reached}
use vorto.Runtime.Interrupted.Kept.{interrupted-Keeps}
use vorto.Examples.Systems.{listed, listed-IsReordering, machine}
use vorto.Examples.Configs.{web, dns}
use vorto.Examples.Tunnels.{
  nothing, started, both_tunnels, both_tunnels-Inv, web_tunnel, web_is_active, web_is_alive,
  web_is_desired,
}

-- The task of the kept tunnel has failed.
abbrev failed : Reconciling listed machine
failed = record (entering listed machine both_tunnels) {
  world = (both_tunnels.0, ended machine 0 both_tunnels.1);
}

-- The reload goes on to its end.
abbrev ending :
    (t : Reconciling listed machine) × (b : Bool) × (t.at ≡ returned b)
    × Interrupted.Steps listed machine (web ∷ []) [] failed t
ending = can_return listed machine (web ∷ []) failed

interrupted :
    Interrupted.Steps listed machine
      (web ∷ [])
      (0 ∷ [])
      (entering listed machine both_tunnels)
      ending.0
interrupted = crashes 0 ending.3

interrupted-Reached_example :
    Inv listed machine ending.0.world
    × Fits (desired_map (web ∷ [])) ending.0.world.0
    × ((k : Text) (tunnel : TunnelConfig)
        → ending.1 ≡ true
        → get Text-discrete k (desired_map (web ∷ [])) ≡ some tunnel
        → Serves ending.0.world.0 k tunnel)
interrupted-Reached_example =
    interrupted-Reached listed machine listed-IsReordering (web ∷ []) both_tunnels both_tunnels-Inv
      (0 ∷ []) ending.0 interrupted ending.1 ending.2

interrupted-Keeps_example :
    (get Text-discrete web.name ending.0.world.0 ≡ some web_tunnel)
    × ((id : ℕ)
        → has web_tunnel.handles id ≡ true
        → has (0 ∷ []) id ≡ false
        → runs machine ending.0.world.1 id ≡ true)
interrupted-Keeps_example =
    interrupted-Keeps listed machine listed-IsReordering (web ∷ []) web.name web_tunnel
      web_is_desired both_tunnels both_tunnels-Inv web_is_active web_is_alive (0 ∷ []) ending.0
      interrupted

-- Two tunnels are started, one of them is removed while the task of the other fails, and the rest
-- is stopped.
both_started : History listed machine both_tunnels
both_started =
    reconciles true (begins refl) (reconcile-IsSchedule listed machine (web ∷ dns ∷ []) nothing).0
      (ap returned started)

abbrev stopped :
    (n : ℕ) × (t : Stopping machine) × Steps machine n
      (stopping machine (listed.order ActiveTunnel ending.0.world.0) ending.0.world.1)
      t
    × (t.jobs ≡ [])
    × ((id : ℕ)
        → runs machine t.rt id
          ≡ runs machine
              (stop_each listed machine
                (listed.order ActiveTunnel ending.0.world.0)
                ending.0.world.1)
              id)
stopped =
    stop_each-IsSchedule machine listed (listed.order ActiveTunnel ending.0.world.0)
      ending.0.world.1

History-Inv_example : Inv listed machine (no_tunnels, stopped.1.rt)
History-Inv_example =
    History-Inv listed machine listed-IsReordering (no_tunnels, stopped.1.rt)
      (stops (reconciles ending.1 both_started interrupted ending.2) stopped.2 stopped.3)
