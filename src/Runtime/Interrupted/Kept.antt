-- ===== src/Runtime/Interrupted/Kept.antt =====
-- Which tunnels `TunnelManager::reconcile` of src/runtime.rs leaves alone although tasks end by
-- themselves meanwhile.
use vorto.Prelude.{ℕ, ◌≡◌, sym, subst, true, false, not, some, List, ◌∷◌, arith}
use vorto.Text.{Text, Text-discrete}
use vorto.HashMap.{get, Hasher, IsReordering}
use vorto.Config.Tunnel.{TunnelConfig}
use vorto.Runtime.System.{Os, runs}
use vorto.Runtime.Tunnel.{ActiveTunnel, has_finished}
use vorto.Runtime.Tasks.{has, runs-ended}
use vorto.Runtime.Manager.{World, desired_map, remove_and_stop, finished, to_remove, wants}
use vorto.Runtime.Ownership.{Inv}
use vorto.Runtime.Removal.{named, named-names_of, get-remove_and_stop, runs-remove_and_stop}
use vorto.Runtime.Loop.{start_one-Round}
use vorto.Runtime.Convergence.{wants_same, runs_of_unfinished}
use vorto.Runtime.Interrupted.{
  At, retiring, removing, starting, returned, Reconciling, entering, Step, retires, compares,
  removes, enters_loop, starts, returns, Steps, none_taken, steps, crashes,
}
use vorto.Runtime.Interrupted.Outcome.{Reached, Good, Step-Good, crash-Good}

-- The name is not among those whose tunnels are still to be stopped.
abbrev Spared : Text → At → Type 0
Spared k (retiring names) = named names k ≡ false
Spared k (removing names) = named names k ≡ false
Spared k (starting es all_started) = Unit
Spared k (returned all_started) = Unit

module _ (H : Hasher) (O : Os) (L : IsReordering H) (ts : List TunnelConfig) (k : Text)
    (a : ActiveTunnel) (wanted : get Text-discrete k (desired_map ts) ≡ some a.spec) where
  record Stays (s : Reconciling H O) : Type 0 where
    there : get Text-discrete k s.world.0 ≡ some a
    spared : Spared k s.at

  -- A step leaves the entry and the running tasks of the tunnel.
  abbrev Keeps : World H O → Reconciling H O → Type 0
  Keeps w t =
      Stays t
      × ((id : ℕ) → has a.handles id ≡ true → runs O w.1 id ≡ true → runs O t.world.1 id ≡ true)

  stop_other :
      (name : Text) (names : List Text) (w : World H O) (at : At)
      → Inv H O w
      → get Text-discrete k w.0 ≡ some a
      → named (name ∷ names) k ≡ false
      → (named names k ≡ false → Spared k at)
      → Keeps w (record { at = at; world = remove_and_stop H O name w })
  stop_other name names w at v there h spare = (
    record {
      there = ground (arith, get-remove_and_stop H O name k w);
      spared = spare (ground arith);
    },
    λ id mine r. runs-remove_and_stop H O name k a id w v there (λ e. ground arith) mine r,
  )

  compared :
      (w : World H O)
      → Inv H O w
      → get Text-discrete k w.0 ≡ some a
      → named (to_remove H O (desired_map ts) w) k ≡ false
  compared w v there = ground (
    arith,
    named-names_of H O L (λ e. not (wants (get Text-discrete e.0 (desired_map ts)) e.1.spec)) k w.0
        v.distinct,
    there,
    wanted,
    wants_same a.spec,
  )

  Step-Keeps :
      {s t : Reconciling H O} → Good H O L ts s → Stays s → Step H O ts s t → Keeps s.world t
  Step-Keeps {s} (v, g) y (retires name names p q) = subst (Keeps s.world) (sym q) (
      stop_other name names s.world (retiring names) v y.there (subst (Spared k) p y.spared)
        (λ h. h))
  Step-Keeps {s} (v, g) y (compares p q) =
      subst (Keeps s.world) (sym q)
        (record { there = y.there; spared = compared s.world v y.there }, λ id mine r. r)
  Step-Keeps {s} (v, g) y (removes name names p q) = subst (Keeps s.world) (sym q) (
      stop_other name names s.world (removing names) v y.there (subst (Spared k) p y.spared)
        (λ h. h))
  Step-Keeps {s} (v, g) y (enters_loop p q) =
      subst (Keeps s.world) (sym q) (record { there = y.there; spared = tt }, λ id mine r. r)
  Step-Keeps {s} (v, g) y (starts name tunnel es b p q) =
      let (fits, (want, _), _) = subst (λ x. Reached (desired_map ts) x s.world.0) p g in
      let one = start_one-Round H O (desired_map ts) name tunnel s.world v fits want in
      subst (Keeps s.world) (sym q)
        (record { there = one.entries k a y.there; spared = tt }, λ id mine r. one.running id r)
  Step-Keeps {s} (v, g) y (returns b p q) =
      subst (Keeps s.world) (sym q) (record { there = y.there; spared = tt }, λ id mine r. r)

  Steps-Keeps :
      {ids : List ℕ} {s t : Reconciling H O}
      → Good H O L ts s
      → Stays s
      → Steps H O ts ids s t
      → (get Text-discrete k t.world.0 ≡ some a)
        × ((id : ℕ)
            → has a.handles id ≡ true
            → has ids id ≡ false
            → runs O s.world.1 id ≡ true
            → runs O t.world.1 id ≡ true)
  Steps-Keeps g y none_taken = (y.there, λ id mine free r. r)
  Steps-Keeps g y (steps c r) =
      let (y', keeps) = Step-Keeps g y c in
      let (there, rest) = Steps-Keeps (Step-Good H O L ts g c) y' r in
      (there, λ id mine free busy. rest id mine free (keeps id mine busy))
  Steps-Keeps {s = s} g y (crashes j r) =
      let (there, rest) =
        Steps-Keeps (crash-Good H O L ts j s g) (record { there = y.there; spared = y.spared }) r in
      (
        there,
        λ id mine free busy.
            rest id mine (ground arith) (ground (arith, runs-ended O j id s.world.1)),
      )

  -- If the map iterates over its own entries and the invariant of the manager holds, take an
  -- active tunnel whose tasks all run and that is desired with the same settings. Whatever tasks
  -- end by themselves while `reconcile` runs, at every moment of it the tunnel keeps its entry,
  -- with the same handles, and each of its tasks that has not ended by itself runs.
  pub interrupted-Keeps :
      (w : World H O)
      → Inv H O w
      → get Text-discrete k w.0 ≡ some a
      → has_finished O a w.1 ≡ false
      → (ids : List ℕ) (t : Reconciling H O) → Steps H O ts ids (entering H O w) t
      → (get Text-discrete k t.world.0 ≡ some a)
        × ((id : ℕ) → has a.handles id ≡ true → has ids id ≡ false → runs O t.world.1 id ≡ true)
  interrupted-Keeps w v there alive ids t r =
      let spared : named (finished H O w) k ≡ false =
        ground
          (arith, named-names_of H O L (λ e. has_finished O e.1 w.1) k w.0 v.distinct, there) in
      let (still, keeps) = Steps-Keeps (v, tt) (record { there = there; spared = spared }) r in
      (still, λ id mine free. keeps id mine free (runs_of_unfinished O a.handles w.1 id alive mine))
