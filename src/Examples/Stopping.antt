-- ===== src/Examples/Stopping.antt =====
-- Two tunnels are stopped at once: the task of one outlives the grace period, that of the other ends.
use vorto.Prelude.{ℕ, ◌+◌, ◌≤◌, ◌≡◌, refl, true, false, ◌⊎◌, [], ◌∷◌, ℕ_discrete}
use vorto.Text.{text}
use vorto.Runtime.System.{Rt, runs, ended, send_stop}
use vorto.Runtime.Tunnel.{ActiveTunnel}
use vorto.Runtime.Tasks.{has}
use vorto.Runtime.Manager.{Active, stop_each}
use vorto.Runtime.Ownership.{owns}
use vorto.Runtime.Stopping.{
  in_grace, after_abort, over, waiting, unsent, Stopping, resolved, grace_passed, aborted, joined,
  begins, waits, returns, task_ends, cancelled, Steps, none_taken, then_step, stopping,
}
use vorto.Runtime.Stopping.Pending.{channel_of}
use vorto.Runtime.Stopping.Safety.{stopped-refines_stop_each}
use vorto.Runtime.Stopping.Progress.{steps_left, HasDriven, stopping_terminates}
use vorto.Examples.Systems.{listed, machine}
use vorto.Examples.Configs.{web, dns}

abbrev web_tunnel : ActiveTunnel
web_tunnel = record { spec = web; stop_tx = 0; handles = 0 ∷ [] }

abbrev dns_tunnel : ActiveTunnel
dns_tunnel = record { spec = dns; stop_tx = 1; handles = 1 ∷ [] }

abbrev two_tunnels : Active
two_tunnels = (text "web", web_tunnel) ∷ (text "dns", dns_tunnel) ∷ []

abbrev both_run : Rt machine
both_run = record {
  os_state = 3;
  running = 1 ∷ 0 ∷ [];
  next_task = 2;
  stopped = [];
  next_channel = 2;
}

abbrev all_stopped : Stopping machine
all_stopped = record {
  rt = record both_run { running = []; stopped = 0 ∷ 1 ∷ [] };
  aborts = 0 ∷ [];
  jobs = [];
}

-- The stop of the second tunnel begins first, and the task of the first one is aborted.
interleaved : Steps machine 11 (stopping machine two_tunnels both_run) all_stopped
unfolding send_stop ended ℕ_discrete
interleaved = then_step (begins (unsent web_tunnel ∷ []) [] dns_tunnel refl refl) (
    then_step (begins [] (waiting ((1, in_grace) ∷ []) ∷ []) web_tunnel refl refl) (
      then_step
        (waits [] (waiting ((1, in_grace) ∷ []) ∷ []) _ _ _ _ refl
          (grace_passed [] [] 0 refl refl refl refl refl) refl)
        (then_step (task_ends 1 refl refl) (
          then_step
            (waits (waiting ((0, after_abort) ∷ []) ∷ []) [] _ _ _ _ refl
              (resolved [] [] 1 refl refl refl refl refl) refl)
            (then_step (cancelled 0 refl refl refl) (
              then_step
                (waits (waiting ((0, after_abort) ∷ []) ∷ []) [] _ _ _ _ refl
                  (joined [] [] 1 refl refl refl refl) refl)
                (then_step
                  (waits [] (waiting [] ∷ []) _ _ _ _ refl
                    (aborted [] [] 0 refl refl refl refl refl) refl)
                  (then_step (returns (waiting ((0, over) ∷ []) ∷ []) [] refl refl) (
                    then_step (waits [] [] _ _ _ _ refl (joined [] [] 0 refl refl refl refl) refl)
                      (then_step (returns [] [] refl refl) none_taken))))))))))

stopped-refines_stop_each_example :
    ((c : ℕ) → channel_of two_tunnels c ≡ true → has (all_stopped.rt).stopped c ≡ true)
    × ((id : ℕ) → owns two_tunnels id ≡ true → runs machine all_stopped.rt id ≡ false)
    × ((id : ℕ)
        → runs machine all_stopped.rt id ≡ true
        → runs machine (stop_each listed machine two_tunnels both_run) id ≡ true)
stopped-refines_stop_each_example =
    stopped-refines_stop_each machine listed two_tunnels both_run 11 all_stopped interleaved refl

stopping_terminates_example :
    (11 + steps_left machine all_stopped
      ≤ steps_left machine (stopping machine two_tunnels both_run))
    × ((all_stopped.jobs ≡ []) ⊎ HasDriven machine all_stopped)
stopping_terminates_example =
    stopping_terminates machine two_tunnels both_run 11 all_stopped interleaved
