-- ===== src/Runtime/Stopping/Safety.antt =====
-- However the parts of `TunnelManager::stop_all` in src/runtime.rs interleave, when it returns the tasks
-- of its tunnels have ended.
use vorto.Prelude.{
  ℕ, ◌≡◌, sym, ap, subst, ◌∙◌, inl, inr, true, false, ◌||◌, [], ◌∷◌, arith, Bool-cases,
}
use vorto.HashMap.{Hasher, IsReordering}
use vorto.Runtime.System.{Os, Rt, runs, ended, send_stop}
use vorto.Runtime.Tunnel.{ActiveTunnel}
use vorto.Runtime.Tasks.{has, runs-ended}
use vorto.Runtime.Manager.{Active, World, stop_each}
use vorto.Runtime.Ownership.{Inv, owns}
use vorto.Runtime.Shutdown.{runs-stop_each, owns-order}
use vorto.Runtime.Stopping.{
  unsent, waiting, Stopping, spawn_waits, Step, begins, waits, returns, task_ends, cancelled, Steps,
  none_taken, then_step, stopping,
}
use vorto.Runtime.Stopping.Pending.{
  pending, unsent_on, channel_of, pending-append, unsent_on-append, awaited-spawn_waits,
  pending-spawn_jobs, unsent_on-spawn_jobs, Waits-Keeps,
}

module _ (O : Os) where
  -- Whatever still runs of the tunnels' tasks is still to be awaited, every channel was told or is
  -- still to be told, and no task runs that did not.
  record Holds (es : Active) (rt0 : Rt O) (s : Stopping O) : Type 0 where
    covered : (id : ℕ) → owns es id ≡ true → runs O s.rt id ≡ true → pending s.jobs id ≡ true
    told : (c : ℕ) → channel_of es c ≡ true → (has (s.rt).stopped c || unsent_on s.jobs c) ≡ true
    fewer : (id : ℕ) → runs O s.rt id ≡ true → runs O rt0 id ≡ true

  stopping-Holds : (es : Active) (rt : Rt O) → Holds es rt (stopping O es rt)
  stopping-Holds es rt = record {
    covered = λ id h r. pending-spawn_jobs es id ∙ h;
    told = λ c h. ground (arith, unsent_on-spawn_jobs es c);
    fewer = λ id h. h;
  }

  ended-Holds :
      (es : Active) (rt0 : Rt O) (s : Stopping O) (j : ℕ)
      → Holds es rt0 s
      → Holds es rt0 (record s { rt = ended O j s.rt })
  unfolding ended
  ended-Holds es rt0 s j v = record {
    covered = λ id h r. ground (arith, v.covered id, runs-ended O j id s.rt);
    told = v.told;
    fewer = λ id h. ground (arith, v.fewer id, runs-ended O j id s.rt);
  }

  Step-Holds :
      (es : Active) (rt0 : Rt O) {s t : Stopping O} → Holds es rt0 s → Step O s t → Holds es rt0 t
  unfolding send_stop ended
  Step-Holds es rt0 {s} v (begins bs cs a e q) = subst (Holds es rt0) (sym q) (record {
    covered = λ id h r. ground (
      arith,
      v.covered id,
      ap (λ x. pending x id) e,
      pending-append bs (unsent a ∷ cs) id,
      pending-append bs (waiting (spawn_waits a.handles) ∷ cs) id,
      awaited-spawn_waits a.handles id,
    );
    told = λ c h. ground (
      arith,
      v.told c,
      ap (λ x. unsent_on x c) e,
      unsent_on-append bs (unsent a ∷ cs) c,
      unsent_on-append bs (waiting (spawn_waits a.handles) ∷ cs) c,
    );
    fewer = v.fewer;
  })
  Step-Holds es rt0 {s} v (waits bs cs hs hs' rt' ids' e w q) =
      let k = Waits-Keeps O w in
      subst (Holds es rt0) (sym q) (record {
        covered = λ id h r. ground (
          arith,
          v.covered id,
          ap (λ x. pending x id) e,
          pending-append bs (waiting hs ∷ cs) id,
          pending-append bs (waiting hs' ∷ cs) id,
          k.same_tasks id,
          k.still_awaited id,
        );
        told = λ c h. ground (
          arith,
          v.told c,
          ap (λ x. unsent_on x c) e,
          unsent_on-append bs (waiting hs ∷ cs) c,
          unsent_on-append bs (waiting hs' ∷ cs) c,
          k.same_channels c,
        );
        fewer = λ id h. ground (arith, v.fewer id, k.same_tasks id);
      })
  Step-Holds es rt0 {s} v (returns bs cs e q) = subst (Holds es rt0) (sym q) (record {
    covered = λ id h r. ground (
      arith,
      v.covered id,
      ap (λ x. pending x id) e,
      pending-append bs (waiting [] ∷ cs) id,
      pending-append bs cs id,
    );
    told = λ c h. ground (
      arith,
      v.told c,
      ap (λ x. unsent_on x c) e,
      unsent_on-append bs (waiting [] ∷ cs) c,
      unsent_on-append bs cs c,
    );
    fewer = v.fewer;
  })
  Step-Holds es rt0 {s} v (task_ends j busy q) =
      subst (Holds es rt0) (sym q) (ended-Holds es rt0 s j v)
  Step-Holds es rt0 {s} v (cancelled j busy told q) =
      subst (Holds es rt0) (sym q) (ended-Holds es rt0 s j v)

  Steps-Holds :
      (es : Active) (rt0 : Rt O) {n : ℕ} {s t : Stopping O}
      → Holds es rt0 s
      → Steps O n s t
      → Holds es rt0 t
  Steps-Holds es rt0 v none_taken = v
  Steps-Holds es rt0 v (then_step a r) = Steps-Holds es rt0 (Step-Holds es rt0 v a) r

  -- Let the tasks of `stop_all` for the tunnels take any number of steps, interleaved with each
  -- other and with the ends of tasks. When all of them have been joined, every tunnel has been
  -- told to stop, none of the tunnels' tasks runs, and what runs would also run if the tunnels
  -- had been stopped one after the other.
  pub stopped-refines_stop_each :
      (H : Hasher) (es : Active) (rt : Rt O) (n : ℕ) (t : Stopping O)
      → Steps O n (stopping O es rt) t
      → t.jobs ≡ []
      → ((c : ℕ) → channel_of es c ≡ true → has (t.rt).stopped c ≡ true)
        × ((id : ℕ) → owns es id ≡ true → runs O t.rt id ≡ false)
        × ((id : ℕ) → runs O t.rt id ≡ true → runs O (stop_each H O es rt) id ≡ true)
  stopped-refines_stop_each H es rt n t steps done = (
    λ c h. ground (arith, v.told c, ap (λ x. unsent_on x c) done),
    λ id h. ground (arith, v.covered id, ap (λ x. pending x id) done),
    λ id h.
        ground (
          arith,
          v.covered id,
          v.fewer id,
          ap (λ x. pending x id) done,
          runs-stop_each H O es id rt,
        ),
  )
    where
      v : Holds es rt t
      v = Steps-Holds es rt (stopping-Holds es rt) steps

  -- If the map iterates over its own entries and the invariant of the manager holds, then however
  -- the tasks that `stop_all` spawns interleave with each other and with the ends of tasks, no
  -- task runs when all of them have been joined.
  pub stopped-leaves_no_task :
      (H : Hasher)
      → IsReordering H
      → (w : World H O) → Inv H O w
      → (n : ℕ) (t : Stopping O) → Steps O n (stopping O (H.order ActiveTunnel w.0) w.1) t
      → t.jobs ≡ []
      → (id : ℕ) → runs O t.rt id ≡ false
  stopped-leaves_no_task H L w v n t steps done id = elim (Bool-cases (runs O t.rt id)) [
    | inr idle ↦ idle
    | inl busy ↦
        let es = H.order ActiveTunnel w.0 in
        let held = Steps-Holds es w.1 (stopping-Holds es w.1) steps in
        absurd (
          ground (
            arith,
            held.fewer id,
            held.covered id,
            owns-order H O L w v id,
            ap (λ x. pending x id) done,
          ))
  ]
