-- ===== src/Runtime/History.antt =====
-- Whole histories of a `TunnelManager` of src/runtime.rs: reloads in which tasks end by themselves, ends
-- of tasks between them, and shutdowns whose parts interleave, as when the backend changes and changes
-- back.
use vorto.Prelude.{ℕ, ◌≡◌, refl, sym, subst, Bool, false, List, [], contains, ℕ_discrete}
use vorto.HashMap.{Hasher, IsReordering}
use vorto.Config.Tunnel.{TunnelConfig}
use vorto.Runtime.System.{Os, Rt, ended}
use vorto.Runtime.Tunnel.{ActiveTunnel}
use vorto.Runtime.Manager.{World, no_tunnels}
use vorto.Runtime.Ownership.{Inv, ended-Inv, idle-Inv}
use vorto.Runtime.Stopping as Stopping
use vorto.Runtime.Stopping.{Stopping, stopping}
use vorto.Runtime.Stopping.Safety.{stopped-leaves_no_task}
use vorto.Runtime.Interrupted as Interrupted
use vorto.Runtime.Interrupted.{Reconciling, entering, returned}
use vorto.Runtime.Interrupted.Outcome.{interrupted-Reached}

module _ (H : Hasher) (O : Os) where
  -- The states between the calls of a manager that starts without tunnels and tasks.
  pub data History : World H O → Type 0 where
    begins : {rt : Rt O} → rt.running ≡ [] → History (no_tunnels, rt)
    reconciles :
        {w : World H O} {ts : List TunnelConfig} {ids : List ℕ} {t : Reconciling H O}
        (all_started : Bool)
        → History w
        → Interrupted.Steps H O ts ids (entering H O w) t
        → t.at ≡ returned all_started
        → History t.world
    task_ends : {w : World H O} (id : ℕ) → History w → History (w.0, ended O id w.1)
    stops :
        {w : World H O} {n : ℕ} {t : Stopping O}
        → History w
        → Stopping.Steps O n (stopping O (H.order ActiveTunnel w.0) w.1) t
        → t.jobs ≡ []
        → History (no_tunnels, t.rt)

  -- If the map iterates over its own entries, then through any history of the manager, with any
  -- configurations, whatever tasks end by themselves during a reload or between two calls, and
  -- however the parts of a shutdown interleave, no name is entered twice and every running task
  -- is one of an active tunnel's, and of no other tunnel's.
  pub History-Inv : IsReordering H → (w : World H O) → History w → Inv H O w
  History-Inv L w (begins {rt} none_runs) =
      idle-Inv H O rt (λ id. subst (λ js. contains ℕ_discrete js id ≡ false) (sym none_runs) refl)
  History-Inv L w (reconciles {w = v} {ts} {ids} {t} b h r e) =
      (interrupted-Reached H O L ts v (History-Inv L v h) ids t r b e).0
  History-Inv L w (task_ends {w = v} id h) = ended-Inv H O id v.0 v.1 (History-Inv L v h)
  History-Inv L w (stops {w = v} {n} {t} h r done) =
      idle-Inv H O t.rt (stopped-leaves_no_task O H L v (History-Inv L v h) n t r done)
