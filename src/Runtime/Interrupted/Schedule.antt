-- ===== src/Runtime/Interrupted/Schedule.antt =====
-- `TunnelManager::reconcile` of src/runtime.rs as a function is what the steps of its loops come to.
use vorto.Prelude.{◌≡◌, refl, Bool, true, false, List, [], ◌∷◌, if◌then◌else◌}
use vorto.Text.{Text}
use vorto.HashMap.{Hasher}
use vorto.Config.Tunnel.{TunnelConfig}
use vorto.Runtime.System.{Os}
use vorto.Runtime.Manager.{
  Desired, World, desired_map, remove_and_stop, remove_all, to_remove, start_one, start_all,
  finished, retire_finished_tunnels, remove_obsolete, reconcile,
}
use vorto.Runtime.Interrupted.{
  At, retiring, removing, starting, returned, Reconciling, entering, retires, compares, removes,
  enters_loop, starts, returns, Steps, none_taken, steps,
}

module _ (H : Hasher) (O : Os) (ts : List TunnelConfig) where
  abbrev Leads : Reconciling H O → Reconciling H O → Type 0
  Leads s t = Steps H O ts [] s t

  finish_starting :
      (es : Desired) (b : Bool) (w : World H O)
      → Leads
          (record { at = starting es b; world = w })
          (record { at = returned (start_all H O es b w).0; world = (start_all H O es b w).1 })
  unfolding start_all
  finish_starting [] b w = steps (returns b refl refl) none_taken
  finish_starting ((name, tunnel) ∷ es) b w =
      let (started, w') = start_one H O name tunnel w in
      steps (starts name tunnel es b refl refl)
        (finish_starting es (if started then b else false) w')

  finish_removing :
      (names : List Text) (w : World H O) {t : Reconciling H O}
      → Leads (record { at = removing []; world = remove_all H O names w }) t
      → Leads (record { at = removing names; world = w }) t
  unfolding remove_all
  finish_removing [] w r = r
  finish_removing (name ∷ names) w r =
      steps (removes name names refl refl) (finish_removing names (remove_and_stop H O name w) r)

  finish_retiring :
      (names : List Text) (w : World H O) {t : Reconciling H O}
      → Leads (record { at = retiring []; world = remove_all H O names w }) t
      → Leads (record { at = retiring names; world = w }) t
  unfolding remove_all
  finish_retiring [] w r = r
  finish_retiring (name ∷ names) w r =
      steps (retires name names refl refl) (finish_retiring names (remove_and_stop H O name w) r)

  -- From every state of its loops, `reconcile` can return.
  pub can_return :
      (s : Reconciling H O) → (t : Reconciling H O) × (b : Bool) × (t.at ≡ returned b) × Leads s t
  can_return s = go s.at s.world
    where
      from_starting :
          (es : Desired) (b : Bool) (w : World H O)
          → (t : Reconciling H O) × (b' : Bool) × (t.at ≡ returned b')
            × Leads (record { at = starting es b; world = w }) t
      from_starting es b w = (_, _, refl, finish_starting es b w)

      from_removing :
          (names : List Text) (w : World H O)
          → (t : Reconciling H O) × (b' : Bool) × (t.at ≡ returned b')
            × Leads (record { at = removing names; world = w }) t
      from_removing names w =
          let (t, b, e, r) =
            from_starting (H.order TunnelConfig (desired_map ts)) true (remove_all H O names w) in
          (t, b, e, finish_removing names w (steps (enters_loop refl refl) r))

      go :
          (p : At) (w : World H O)
          → (t : Reconciling H O) × (b : Bool) × (t.at ≡ returned b)
            × Leads (record { at = p; world = w }) t
      go (retiring names) w =
          let w1 = remove_all H O names w in
          let (t, b, e, r) = from_removing (to_remove H O (desired_map ts) w1) w1 in
          (t, b, e, finish_retiring names w (steps (compares refl refl) r))
      go (removing names) w = from_removing names w
      go (starting es b) w = from_starting es b w
      go (returned b) w = (_, b, refl, none_taken)

  -- If no task ends by itself meanwhile, the steps of the loops lead from the call of `reconcile`
  -- to the result and the state that the function `reconcile` gives. From every state that the
  -- loops can be in, there are steps to a return.
  pub reconcile-IsSchedule :
      (w : World H O)
      → Leads
          (entering H O w)
          (record { at = returned (reconcile H O ts w).0; world = (reconcile H O ts w).1 })
        × ((s : Reconciling H O)
            → (t : Reconciling H O) × (b : Bool) × (t.at ≡ returned b) × Leads s t)
  unfolding reconcile retire_finished_tunnels remove_obsolete
  reconcile-IsSchedule w =
      let desired = desired_map ts in
      let w1 = retire_finished_tunnels H O w in
      let w2 = remove_obsolete H O desired w1 in
      (
        finish_retiring (finished H O w) w (
            steps (compares refl refl) (
              finish_removing (to_remove H O desired w1) w1 (
                steps (enters_loop refl refl)
                  (finish_starting (H.order TunnelConfig desired) true w2)))),
        can_return,
      )
