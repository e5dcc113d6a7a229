-- ===== src/Runtime/Stability.antt =====
-- `TunnelManager::reconcile` of src/runtime.rs against the map of the desired tunnels: a success brings
-- the manager to that map, and a further call then changes nothing.
use mathlib.Core.Option.{some-injective}
use mathlib.Core.Path.{fun_ext}
use vorto.Prelude.{
  ◌≡◌, refl, sym, ap, subst, ◌∙◌, inl, inr, Bool, true, false, not, Option, none, some, List, [],
  ◌∷◌, arith, keep_if, Option-cases, Bool-cases,
}
use vorto.Text.{Text, Text-discrete}
use vorto.HashMap.{get, AreEntries, AreEntries-order, Hasher, IsReordering}
use vorto.Config.Tunnel.{TunnelConfig}
use vorto.Runtime.System.{Os}
use vorto.Runtime.Tunnel.{ActiveTunnel, has_finished}
use vorto.Runtime.Manager.{
  Active, Desired, World, desired_map, wants, names_of, remove_all, retire_finished_tunnels,
  remove_obsolete, start_one, start_all, reconcile,
}
use vorto.Runtime.Ownership.{Inv}
use vorto.Runtime.Loop.{Fits, AllLive}
use vorto.Runtime.Removal.{
  get-retire_finished_tunnels, get-remove_obsolete, runs-retire, runs-remove_obsolete, retire-Inv,
}
use vorto.Runtime.Convergence.{
  loop, cleared, retired, desired_map-IsDistinct, cleared-Fits, runs_of_unfinished,
  unfinished_of_runs, wants_same, reconcile_complete,
}

-- The abstract view of the manager: the settings that run under each name.
abbrev pub specs : Active → Text → Option TunnelConfig
specs m k = elim (get Text-discrete k m) [ none ↦ none | some a ↦ some a.spec ]

keep_if_none :
    {V : Type 0} (p : Text × V → Bool) (m es : List (Text × V))
    → AreEntries Text-discrete m es
    → ((k : Text) (v : V) → get Text-discrete k m ≡ some v → p (k, v) ≡ false)
    → keep_if p es ≡ []
keep_if_none p m [] h f = refl
keep_if_none p m ((k, v) ∷ es) (e, h) f = ground (arith, f k v e, keep_if_none p m es h f)

module _ (H : Hasher) (O : Os) (L : IsReordering H) (ts : List TunnelConfig) where
  -- The active tunnels are the desired ones, and all their tasks run.
  pub record IsSettled (w : World H O) : Type 0 where
    pub fits : Fits (desired_map ts) w.0
    pub live : AllLive H O w
    pub all :
        (k : Text) (t : TunnelConfig)
        → get Text-discrete k (desired_map ts) ≡ some t
        → (a : ActiveTunnel) × (get Text-discrete k w.0 ≡ some a)

  settled_round :
      (w : World H O)
      → IsSettled w
      → (name : Text) (t : TunnelConfig) → get Text-discrete name (desired_map ts) ≡ some t
      → start_one H O name t w ≡ (true, w)
  unfolding start_one
  settled_round (m, rt) s name t wanted =
      let (a, there) = s.all name t wanted in
      let same : a.spec ≡ t = some-injective _ _ (sym (s.fits name a there) ∙ wanted) in
      ground (arith, there, same)

  settled_loop :
      (w : World H O)
      → IsSettled w
      → (es : Desired) (b : Bool) → AreEntries Text-discrete (desired_map ts) es
      → start_all H O es b w ≡ (b, w)
  unfolding start_all
  settled_loop w s [] b h = refl
  settled_loop w s ((name, t) ∷ es) b (e, h) =
      rw (settled_round w s name t e) (settled_loop w s es b h)

  module _ (w : World H O) (v : Inv H O w) (s : IsSettled w) where
    settled_retire : retire_finished_tunnels H O w ≡ w
    unfolding retire_finished_tunnels remove_all
    settled_retire =
        let none' =
          keep_if_none (λ e. has_finished O e.1 w.1) w.0 (H.order ActiveTunnel w.0)
            (AreEntries-order H L w.0 v.distinct)
            (λ k a there.
              unfinished_of_runs O a.handles w.1 (λ id mine. s.live k a id there mine)) in
        ap (λ es. remove_all H O (names_of es) w) none'

    settled_remove : remove_obsolete H O (desired_map ts) w ≡ w
    unfolding remove_obsolete remove_all
    settled_remove =
        let none' =
          keep_if_none (λ e. not (wants (get Text-discrete e.0 (desired_map ts)) e.1.spec)) w.0
            (H.order ActiveTunnel w.0) (AreEntries-order H L w.0 v.distinct)
            (λ k a there. ground (arith, s.fits k a there, wants_same a.spec)) in
        ap (λ es. remove_all H O (names_of es) w) none'

    reconcile_settled : reconcile H O ts w ≡ (true, w)
    unfolding reconcile
    reconcile_settled =
        rw (settled_retire, settled_remove)
          (settled_loop w s (H.order TunnelConfig (desired_map ts)) true
            (AreEntries-order H L (desired_map ts) (desired_map-IsDistinct ts)))

  module _ (w : World H O) (v : Inv H O w) where
    cleared_live : AllLive H O (cleared H O L ts w v)
    cleared_live k a id there mine =
        let v1 = retire-Inv H O w v in
        let wanted = cleared-Fits H O L ts w v k a there in
        let kept : get Text-discrete k (retired H O L ts w v).0 ≡ some a =
          ground (arith, get-remove_obsolete H O L (desired_map ts) k (retired H O L ts w v) v1) in
        let (here, alive) = before k a kept in
        let r = runs_of_unfinished O a.handles w.1 id alive mine in
        runs-remove_obsolete H O L (desired_map ts) k a id (retired H O L ts w v) v1 kept wanted
          mine (runs-retire H O L k a id w v here alive mine r)
      where
        before :
            (k : Text) (a : ActiveTunnel)
            → get Text-discrete k (retired H O L ts w v).0 ≡ some a
            → (get Text-discrete k w.0 ≡ some a) × (has_finished O a w.1 ≡ false)
        before k a kept = elim (Option-cases (get Text-discrete k w.0)) [
          | inl absent ↦ absurd (ground (arith, get-retire_finished_tunnels H O L k w v))
          | inr (b, there) ↦ elim (Bool-cases (has_finished O b w.1)) [
            | inl gone ↦ absurd (ground (arith, get-retire_finished_tunnels H O L k w v))
            | inr alive ↦
                let same : b ≡ a =
                  some-injective _ _
                    (ground (arith, there, kept, alive, get-retire_finished_tunnels H O L k w v)) in
                (
                  there ∙ ap some same,
                  subst (λ (x : ActiveTunnel). has_finished O x w.1 ≡ false) same alive,
                )
          ]
        ]

    reconcile-IsSettled : (reconcile H O ts w).0 ≡ true → IsSettled (reconcile H O ts w).1
    reconcile-IsSettled done = record {
      fits = (loop H O L ts w v).fits;
      live = (loop H O L ts w v).live cleared_live;
      all = λ k t wanted.
          let (a, there, _) = reconcile_complete H O L ts w v k t done wanted in (a, there);
    }

    -- If the map iterates over its own entries, the invariant of the manager holds and
    -- `reconcile` reports success, a second `reconcile` to the same tunnels reports success and
    -- changes nothing, neither the active tunnels nor the tasks.
    pub reconcile_again :
        (reconcile H O ts w).0 ≡ true
        → reconcile H O ts (reconcile H O ts w).1 ≡ (true, (reconcile H O ts w).1)
    reconcile_again done =
        reconcile_settled (reconcile H O ts w).1 (loop H O L ts w v).inv (reconcile-IsSettled done)

    -- If the map iterates over its own entries, the invariant of the manager holds and
    -- `reconcile` reports success, the settings that are active under each name afterwards are
    -- exactly those that are desired under it.
    pub specs-reconcile :
        (reconcile H O ts w).0 ≡ true
        → specs ((reconcile H O ts w).1).0 ≡ (λ k. get Text-discrete k (desired_map ts))
    specs-reconcile done = fun_ext (λ k.
        elim (Option-cases (get Text-discrete k ((reconcile H O ts w).1).0)) [
          | inr (a, there) ↦ ground (arith, there, (loop H O L ts w v).fits k a there)
          | inl absent ↦ elim (Option-cases (get Text-discrete k (desired_map ts))) [
            | inl unwanted ↦ ground (arith, absent, unwanted)
            | inr (t, wanted) ↦
                let (a, there, _) = reconcile_complete H O L ts w v k t done wanted in
                absurd (ground (arith, absent, there))
          ]
        ])
