-- ===== src/Runtime/Interrupted/Outcome.antt =====
-- What `TunnelManager::reconcile` of src/runtime.rs achieves although tasks end by themselves meanwhile.
use mathlib.Core.Option.{some-injective}
use vorto.Prelude.{
  ℕ, ◌≡◌, sym, subst, ◌∙◌, ◌⊎◌, inl, inr, Bool, true, false, not, some, List, [], ◌∷◌, arith,
  if◌then◌else◌, Bool-cases,
}
use vorto.Text.{Text, Text-discrete}
use vorto.HashMap.{get, AreEntries, AreEntries-order, Hasher, IsReordering}
use vorto.Config.Tunnel.{TunnelConfig}
use vorto.Runtime.System.{Os, ended}
use vorto.Runtime.Tunnel.{ActiveTunnel}
use vorto.Runtime.Manager.{
  Active, Desired, World, desired_map, remove_and_stop, to_remove, start_one, wants,
}
use vorto.Runtime.Ownership.{Inv, remove_and_stop-Inv, ended-Inv}
use vorto.Runtime.Removal.{named, named-names_of, get-remove_and_stop}
use vorto.Runtime.Loop.{Fits, start_one-Round}
use vorto.Runtime.Convergence.{desired_map-IsDistinct, wants-eq-some}
use vorto.Runtime.Interrupted.{
  At, retiring, removing, starting, returned, Reconciling, entering, Step, retires, compares,
  removes, enters_loop, starts, returns, Steps, none_taken, steps, crashes,
}

-- The name leads to an active tunnel with these settings.
abbrev pub Serves : Active → Text → TunnelConfig → Type 0
Serves m k t = (a : ActiveTunnel) × (get Text-discrete k m ≡ some a) × (a.spec ≡ t)

-- What holds of the active tunnels at each place of `reconcile`.
abbrev pub Reached : Desired → At → Active → Type 0
Reached desired (retiring names) m = Unit
Reached desired (removing names) m =
    (k : Text) (a : ActiveTunnel)
    → get Text-discrete k m ≡ some a
    → (named names k ≡ true) ⊎ (get Text-discrete k desired ≡ some a.spec)
Reached desired (starting es all_started) m =
    Fits desired m
    × AreEntries Text-discrete desired es
    × ((k : Text) (t : TunnelConfig)
        → all_started ≡ true
        → get Text-discrete k desired ≡ some t
        → Serves m k t ⊎ (get Text-discrete k es ≡ some t))
Reached desired (returned all_started) m =
    Fits desired m
    × ((k : Text) (t : TunnelConfig)
        → all_started ≡ true
        → get Text-discrete k desired ≡ some t
        → Serves m k t)

module _ (H : Hasher) (O : Os) (L : IsReordering H) (ts : List TunnelConfig) where
  abbrev desired : Desired
  desired = desired_map ts

  abbrev pub Good : Reconciling H O → Type 0
  Good s = Inv H O s.world × Reached desired s.at s.world.0

  compared : (w : World H O) → Inv H O w → Reached desired (removing (to_remove H O desired w)) w.0
  compared w v k a there = elim (Bool-cases (wants (get Text-discrete k desired) a.spec)) [
    | inl same ↦ inr (wants-eq-some _ a.spec same)
    | inr other ↦ inl (
        ground (
          arith,
          named-names_of H O L (λ e. not (wants (get Text-discrete e.0 desired) e.1.spec)) k w.0
              v.distinct,
          there,
        ))
  ]

  removed :
      (name : Text) (names : List Text) (w : World H O)
      → Reached desired (removing (name ∷ names)) w.0
      → Reached desired (removing names) (remove_and_stop H O name w).0
  removed name names w g k a there = elim (Text-discrete k name) [
    | yes same ↦ absurd (ground (arith, get-remove_and_stop H O name k w))
    | no ne ↦ elim (g k a (ground (arith, get-remove_and_stop H O name k w))) [
      | inl left ↦ inl (ground arith)
      | inr fits ↦ inr fits
    ]
  ]

  entered_loop :
      (m : Active)
      → Reached desired (removing []) m
      → Reached desired (starting (H.order TunnelConfig desired) true) m
  entered_loop m g = (
    λ k a there. elim (g k a there) [ inl left ↦ absurd (ground arith) | inr fits ↦ fits ],
    AreEntries-order H L desired (desired_map-IsDistinct ts),
    λ k t h wanted. inr (L.get_order k desired (desired_map-IsDistinct ts) ∙ wanted),
  )

  started :
      (name : Text) (tunnel : TunnelConfig) (es : Desired) (b : Bool) (w : World H O)
      → Inv H O w
      → Reached desired (starting ((name, tunnel) ∷ es) b) w.0
      → let (ok', w') = start_one H O name tunnel w in
        Good (record { at = starting es (if ok' then b else false); world = w' })
  unfolding get
  started name tunnel es b w v (fits, (wanted, entries), served) =
      let one = start_one-Round H O desired name tunnel w v fits wanted in
      (
        one.inv,
        (
          one.fits,
          entries,
          λ k t h want. elim (served k t (ground arith) want) [
            | inl (a, there, same) ↦ inl (a, one.entries k a there, same)
            | inr left ↦ elim (Text-discrete k name) [
              | no ne ↦ inr (ground arith)
              | yes same ↦
                  let (a, there) = one.complete (ground arith) in
                  let at_k : get Text-discrete k (start_one H O name tunnel w).1.0 ≡ some a =
                    ground (arith, there, same) in
                  inl (a, at_k, some-injective _ _ (sym (one.fits k a at_k) ∙ want))
            ]
          ],
        ),
      )

  pub Step-Good : {s t : Reconciling H O} → Good s → Step H O ts s t → Good t
  Step-Good {s} (v, g) (retires name names p q) =
      subst Good (sym q) (remove_and_stop-Inv H O name s.world v, tt)
  Step-Good {s} (v, g) (compares p q) = subst Good (sym q) (v, compared s.world v)
  Step-Good {s} (v, g) (removes name names p q) = subst Good (sym q) (
    remove_and_stop-Inv H O name s.world v,
    removed name names s.world (subst (λ x. Reached desired x s.world.0) p g),
  )
  Step-Good {s} (v, g) (enters_loop p q) =
      subst Good (sym q) (v, entered_loop s.world.0 (subst (λ x. Reached desired x s.world.0) p g))
  Step-Good {s} (v, g) (starts name tunnel es b p q) =
      subst Good (sym q)
        (started name tunnel es b s.world v (subst (λ x. Reached desired x s.world.0) p g))
  Step-Good {s} (v, g) (returns b p q) =
      let r = subst (λ x. Reached desired x s.world.0) p g in
      subst Good (sym q) (
        v,
        (
          r.0,
          λ k t h wanted. elim (r.2 k t h wanted) [
            | inl there ↦ there
            | inr left ↦ absurd (nothing_left k t left)
          ],
        ),
      )
    where
      nothing_left : (k : Text) (t : TunnelConfig) → get Text-discrete k [] ≡ some t → ⊥
      nothing_left k t h = unfold get in (ground arith)

  pub crash-Good :
      (id : ℕ) (s : Reconciling H O)
      → Good s
      → Good (record s { world = (s.world.0, ended O id s.world.1) })
  crash-Good id s (v, g) = (ended-Inv H O id s.world.0 s.world.1 v, g)

  Steps-Good : {ids : List ℕ} {s t : Reconciling H O} → Good s → Steps H O ts ids s t → Good t
  Steps-Good g none_taken = g
  Steps-Good g (steps a r) = Steps-Good (Step-Good g a) r
  Steps-Good {s = s} g (crashes id r) = Steps-Good (crash-Good id s g) r

  -- If the map iterates over its own entries and the invariant of the manager holds, then,
  -- whatever tasks end by themselves while `reconcile` runs, the invariant holds when it returns,
  -- every active tunnel is desired with the settings that it has, and if it returns true, every
  -- desired tunnel is active with its settings.
  pub interrupted-Reached :
      (w : World H O)
      → Inv H O w
      → (ids : List ℕ) (t : Reconciling H O) → Steps H O ts ids (entering H O w) t
      → (all_started : Bool) → t.at ≡ returned all_started
      → Inv H O t.world
        × Fits desired t.world.0
        × ((k : Text) (tunnel : TunnelConfig)
            → all_started ≡ true
            → get Text-discrete k desired ≡ some tunnel
            → Serves t.world.0 k tunnel)
  interrupted-Reached w v ids t r b p =
      let (inv, g) = Steps-Good (v, tt) r in
      let r' = subst (λ x. Reached desired x t.world.0) p g in (inv, r'.0, r'.1)
