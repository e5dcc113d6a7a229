-- ===== src/Runtime/Convergence.antt =====
-- `TunnelManager::reconcile` of src/runtime.rs brings the active tunnels to the desired ones, and leaves
-- alone those that need no change.
use mathlib.Core.Option.{some-injective}
use vorto.Prelude.{
  ℕ, ◌≡◌, refl, sym, subst, ◌∙◌, inl, inr, true, false, Option, none, some, List, [], ◌∷◌, map,
  arith, IsDistinct, Option-cases,
}
use vorto.Text.{Text, Text-discrete}
use vorto.HashMap.{get, keys, AreEntries-order, extend-IsDistinct, Hasher, IsReordering}
use vorto.Config.Tunnel.{TunnelConfig}
use vorto.Runtime.System.{Os, Rt, runs}
use vorto.Runtime.Tunnel.{ActiveTunnel, has_finished, any_finished}
use vorto.Runtime.Tasks.{has}
use vorto.Runtime.Manager.{
  Active, Desired, World, retire_finished_tunnels, remove_obsolete, desired_map, reconcile, wants,
}
use vorto.Runtime.Ownership.{Inv}
use vorto.Runtime.Loop.{Fits, AllActive, Loops, start_all-Loops}
use vorto.Runtime.Removal.{
  get-retire_finished_tunnels, get-remove_obsolete, runs-retire, runs-remove_obsolete, retire-Inv,
  remove_obsolete-Inv,
}

pub desired_map-IsDistinct :
    (ts : List TunnelConfig) → IsDistinct (keys Text-discrete (desired_map ts))
unfolding desired_map
desired_map-IsDistinct ts = extend-IsDistinct Text-discrete [] (map (λ t. (t.name, t)) ts) tt

AllActive-get :
    (es : Desired) (m : Active) (k : Text) (t : TunnelConfig)
    → AllActive es m
    → get Text-discrete k es ≡ some t
    → (a : ActiveTunnel) × (get Text-discrete k m ≡ some a)
unfolding get
AllActive-get [] m k t h e = absurd (ground arith)
AllActive-get ((n, u) ∷ es) m k t ((a, there), h) e = elim (Text-discrete k n) [
  | yes same ↦ (a, subst (λ x. get Text-discrete x m ≡ some a) (sym same) there)
  | no ne ↦ AllActive-get es m k t h (ground arith)
]

-- A tunnel has finished as soon as one of its tasks does not run.
pub runs_of_unfinished :
    (O : Os) (hs : List ℕ) (rt : Rt O) (id : ℕ)
    → any_finished O hs rt ≡ false
    → has hs id ≡ true
    → runs O rt id ≡ true
unfolding any_finished
runs_of_unfinished O [] rt id h k = absurd (ground arith)
runs_of_unfinished O (x ∷ xs) rt id h k = ground (arith, runs_of_unfinished O xs rt id)

pub unfinished_of_runs :
    (O : Os) (hs : List ℕ) (rt : Rt O)
    → ((id : ℕ) → has hs id ≡ true → runs O rt id ≡ true)
    → any_finished O hs rt ≡ false
unfolding any_finished
unfinished_of_runs O [] rt h = refl
unfinished_of_runs O (x ∷ xs) rt h =
    ground (arith, h x, unfinished_of_runs O xs rt (λ id k. h id (ground arith)))

pub wants-eq-some :
    (o : Option TunnelConfig) (spec : TunnelConfig) → wants o spec ≡ true → o ≡ some spec
wants-eq-some none spec h = ground arith
wants-eq-some (some next) spec h = ground arith

pub wants_same : (spec : TunnelConfig) → wants (some spec) spec ≡ true
wants_same spec = ground arith

module _ (H : Hasher) (O : Os) (L : IsReordering H) (ts : List TunnelConfig) (w : World H O)
    (v : Inv H O w) where
  abbrev pub desired : Desired
  desired = desired_map ts

  abbrev pub retired : World H O
  retired = retire_finished_tunnels H O w

  abbrev pub cleared : World H O
  cleared = remove_obsolete H O desired retired

  pub cleared-Fits : Fits desired cleared.0
  cleared-Fits k a h = elim (Option-cases (get Text-discrete k retired.0)) [
    | inl absent ↦
        absurd (ground (arith, get-remove_obsolete H O L desired k retired (retire-Inv H O w v)))
    | inr (b, there) ↦ ground (
      arith,
      get-remove_obsolete H O L desired k retired (retire-Inv H O w v),
      wants-eq-some (get Text-discrete k desired) b.spec,
    )
  ]

  pub loop : Loops H O desired (H.order TunnelConfig desired) cleared true (reconcile H O ts w)
  unfolding reconcile
  loop =
      start_all-Loops H O desired (H.order TunnelConfig desired) cleared true
        (remove_obsolete-Inv H O desired retired (retire-Inv H O w v)) cleared-Fits
        (AreEntries-order H L desired (desired_map-IsDistinct ts))

  -- If the map iterates over its own entries, `reconcile` keeps the invariant of the manager:
  -- names are distinct, every running task belongs to an active tunnel, and to one only.
  -- Afterwards every active tunnel is desired with the settings that it runs.
  pub reconcile-Inv : Inv H O (reconcile H O ts w).1 × Fits desired ((reconcile H O ts w).1).0
  reconcile-Inv = (loop.inv, loop.fits)

  -- If the map iterates over its own entries, the invariant of the manager holds and `reconcile`
  -- reports success, every desired tunnel is active afterwards with the desired settings.
  pub reconcile_complete :
      (k : Text) (t : TunnelConfig)
      → (reconcile H O ts w).0 ≡ true
      → get Text-discrete k desired ≡ some t
      → (a : ActiveTunnel) × (get Text-discrete k ((reconcile H O ts w).1).0 ≡ some a)
        × (a.spec ≡ t)
  reconcile_complete k t done wanted =
      let all = (loop.complete done).1 in
      let (a, there) =
        AllActive-get (H.order TunnelConfig desired) _ k t all
          (L.get_order k desired (desired_map-IsDistinct ts) ∙ wanted) in
      (a, there, some-injective _ _ (sym (loop.fits k a there) ∙ wanted))

  -- If the map iterates over its own entries and the invariant of the manager holds, an active
  -- tunnel whose tasks all run and that is desired with the same settings keeps its entry through
  -- `reconcile`, with the same handles, and all its tasks run on.
  pub reconcile_uninterrupted :
      (k : Text) (a : ActiveTunnel)
      → get Text-discrete k w.0 ≡ some a
      → has_finished O a w.1 ≡ false
      → get Text-discrete k desired ≡ some a.spec
      → (get Text-discrete k ((reconcile H O ts w).1).0 ≡ some a)
        × (has_finished O a ((reconcile H O ts w).1).1 ≡ false)
  reconcile_uninterrupted k a there alive wanted =
      (loop.entries k a still_there, unfinished_of_runs O a.handles _ runs_on)
    where
      kept : get Text-discrete k retired.0 ≡ some a
      kept = ground (arith, get-retire_finished_tunnels H O L k w v)

      still_there : get Text-discrete k cleared.0 ≡ some a
      still_there = ground (
        arith,
        get-remove_obsolete H O L desired k retired (retire-Inv H O w v),
        wants_same a.spec,
        kept,
      )

      runs_on : (id : ℕ) → has a.handles id ≡ true → runs O ((reconcile H O ts w).1).1 id ≡ true
      runs_on id mine =
          let r = runs_of_unfinished O a.handles w.1 id alive mine in
          let r1 = runs-retire H O L k a id w v there alive mine r in
          loop.running id (
            runs-remove_obsolete H O L desired k a id retired (retire-Inv H O w v) kept wanted mine
              r1)
