-- ===== src/Runtime/Stopping/Schedule.antt =====
-- Stopping the tunnels one after the other is one of the ways in which the parts of
-- `TunnelManager::stop_all` in src/runtime.rs can interleave.
use vorto.Prelude.{
  ℕ, suc, ◌≡◌, refl, sym, ap, subst, inl, inr, false, not, ◌&&◌, List, [], ◌∷◌, arith, keep_if,
  is_yes, ℕ_discrete, Bool-cases,
}
use vorto.HashMap.{Hasher}
use vorto.Runtime.System.{Os, Rt, runs, ended, send_stop}
use vorto.Runtime.Tasks.{has, runs-ended}
use vorto.Runtime.Manager.{Active, stop_each}
use vorto.Runtime.Ownership.{owns}
use vorto.Runtime.Shutdown.{runs-stop_each}
use vorto.Runtime.Stopping.{
  in_grace, over, Job, waiting, Stopping, spawn_waits, spawn_jobs, resolved, joined, Step, begins,
  waits, returns, task_ends, Steps, none_taken, then_step, stopping,
}

keep_if_absent :
    (h : ℕ) (js : List ℕ) → has js h ≡ false → keep_if (λ j. not (is_yes (ℕ_discrete h j))) js ≡ js
keep_if_absent h [] e = refl
keep_if_absent h (j ∷ js) e = ground (arith, keep_if_absent h js)

module _ (O : Os) where
  ended_idle : (h : ℕ) (rt : Rt O) → runs O rt h ≡ false → ended O h rt ≡ rt
  unfolding ended
  ended_idle h rt idle = ap (λ js. record rt { running = js }) (keep_if_absent h rt.running idle)

  -- Some number of steps leads from one state to the other.
  abbrev Reaches : Stopping O → Stopping O → Type 0
  Reaches s t = (n : ℕ) × Steps O n s t

  Reaches-trans : {s t u : Stopping O} → Reaches s t → Reaches t u → Reaches s u
  Reaches-trans (_, none_taken) r = r
  Reaches-trans (_, then_step a p) r = let (n, q) = Reaches-trans (_, p) r in (suc n, then_step a q)

  prepended : {s t u : Stopping O} → Step O s t → Reaches t u → Reaches s u
  prepended a (n, r) = (suc n, then_step a r)

  -- A wait whose task does not run resolves and is joined.
  join_first :
      (h : ℕ) (hs : List _) (js : List Job) (rt : Rt O)
      → runs O rt h ≡ false
      → Reaches
          (record { rt = rt; aborts = []; jobs = waiting ((h, in_grace) ∷ hs) ∷ js })
          (record { rt = rt; aborts = []; jobs = waiting hs ∷ js })
  join_first h hs js rt idle =
      prepended
        (waits [] js ((h, in_grace) ∷ hs) _ rt [] refl (resolved [] hs h refl idle refl refl refl)
          refl)
        (prepended
          (waits [] js ((h, over) ∷ hs) _ rt [] refl (joined [] hs h refl refl refl refl) refl)
          (0, none_taken))

  -- The first task ends, and then its wait is joined.
  end_first :
      (h : ℕ) (hs : List _) (js : List Job) (rt : Rt O)
      → Reaches
          (record { rt = rt; aborts = []; jobs = waiting ((h, in_grace) ∷ hs) ∷ js })
          (record { rt = ended O h rt; aborts = []; jobs = waiting hs ∷ js })
  end_first h hs js rt = elim (Bool-cases (runs O rt h)) [
    | inl busy ↦
        prepended (task_ends h busy refl)
          (join_first h hs js (ended O h rt) (ground (arith, runs-ended O h h rt)))
    | inr idle ↦
        subst
          (λ (x : Rt O).
            Reaches (record { rt = rt; aborts = []; jobs = waiting ((h, in_grace) ∷ hs) ∷ js })
              (record { rt = x; aborts = []; jobs = waiting hs ∷ js }))
          (sym (ended_idle h rt idle)) (join_first h hs js rt idle)
  ]

  end_tasks : List ℕ → Rt O → Rt O
  end_tasks [] rt = rt
  end_tasks (h ∷ hs) rt = end_tasks hs (ended O h rt)

  end_all :
      (hs : List ℕ) (js : List Job) (rt : Rt O)
      → Reaches
          (record { rt = rt; aborts = []; jobs = waiting (spawn_waits hs) ∷ js })
          (record { rt = end_tasks hs rt; aborts = []; jobs = js })
  unfolding end_tasks
  end_all [] js rt = prepended (returns [] js refl refl) (0, none_taken)
  end_all (h ∷ hs) js rt =
      Reaches-trans (end_first h (spawn_waits hs) js rt) (end_all hs js (ended O h rt))

  end_tunnels : Active → Rt O → Rt O
  end_tunnels [] rt = rt
  end_tunnels ((name, a) ∷ es) rt = end_tunnels es (end_tasks a.handles (send_stop O a.stop_tx rt))

  end_each :
      (es : Active) (rt : Rt O)
      → Reaches (stopping O es rt) (record { rt = end_tunnels es rt; aborts = []; jobs = [] })
  unfolding end_tunnels
  end_each [] rt = (0, none_taken)
  end_each ((name, a) ∷ es) rt = prepended (begins [] (spawn_jobs es) a refl refl) (
      Reaches-trans (end_all a.handles (spawn_jobs es) (send_stop O a.stop_tx rt))
        (end_each es (end_tasks a.handles (send_stop O a.stop_tx rt))))

  runs-end_tasks :
      (hs : List ℕ) (id : ℕ) (rt : Rt O)
      → runs O (end_tasks hs rt) id ≡ (not (has hs id) && runs O rt id)
  unfolding end_tasks
  runs-end_tasks [] id rt = refl
  runs-end_tasks (h ∷ hs) id rt =
      ground (arith, runs-end_tasks hs id (ended O h rt), runs-ended O h id rt)

  runs-end_tunnels :
      (es : Active) (id : ℕ) (rt : Rt O)
      → runs O (end_tunnels es rt) id ≡ (not (owns es id) && runs O rt id)
  unfolding end_tunnels send_stop
  runs-end_tunnels [] id rt = refl
  runs-end_tunnels ((name, a) ∷ es) id rt = ground (
    arith,
    runs-end_tunnels es id (end_tasks a.handles (send_stop O a.stop_tx rt)),
    runs-end_tasks a.handles id (send_stop O a.stop_tx rt),
  )

  -- The tasks that `stop_all` spawns for the tunnels can take steps after which all of them have
  -- been joined and exactly those tasks run that run after the tunnels have been stopped one after
  -- the other.
  pub stop_each-IsSchedule :
      (H : Hasher) (es : Active) (rt : Rt O)
      → (n : ℕ) × (t : Stopping O) × Steps O n (stopping O es rt) t
        × (t.jobs ≡ [])
        × ((id : ℕ) → runs O t.rt id ≡ runs O (stop_each H O es rt) id)
  stop_each-IsSchedule H es rt =
      let (n, steps) = end_each es rt in
      (
        n,
        _,
        steps,
        refl,
        λ id. ground (arith, runs-end_tunnels es id rt, runs-stop_each H O es id rt),
      )
