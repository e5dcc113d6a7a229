-- ===== src/Runtime/Shutdown.antt =====
-- `TunnelManager::stop_all` of src/runtime.rs.
use vorto.Prelude.{
  ℕ, ◌≡◌, refl, sym, subst, ◌∙◌, inl, inr, true, false, not, ◌&&◌, some, [], ◌∷◌, arith, IsDistinct,
  Bool-cases,
}
use vorto.Text.{Text, Text-discrete}
use vorto.HashMap.{get, keys, get_of_fresh, Hasher, IsReordering}
use vorto.Runtime.System.{Os, Rt, runs}
use vorto.Runtime.Tunnel.{ActiveTunnel, stop}
use vorto.Runtime.Tasks.{has, runs-stop}
use vorto.Runtime.Manager.{Active, World, stop_each, stop_all}
use vorto.Runtime.Ownership.{Inv, owns, owns_of_get, idle-Inv}

-- The tunnel that owns a task.
owner :
    (m : Active) (id : ℕ)
    → IsDistinct (keys Text-discrete m)
    → owns m id ≡ true
    → (k : Text) × (a : ActiveTunnel) × (get Text-discrete k m ≡ some a) × (has a.handles id ≡ true)
unfolding get
owner [] id u h = absurd (ground arith)
owner ((n, b) ∷ m) id (f, u) h = elim (Bool-cases (has b.handles id)) [
  | inl mine ↦ (n, b, ground arith, mine)
  | inr other ↦
      let (k, a, there, mine) = owner m id u (ground arith) in
      (k, a, ground (arith, get_of_fresh Text-discrete n m f), mine)
]

module _ (H : Hasher) (O : Os) where
  -- Every running task is among the entries that the map iterates over.
  pub owns-order :
      IsReordering H
      → (w : World H O) → Inv H O w
      → (id : ℕ) → runs O w.1 id ≡ true
      → owns (H.order ActiveTunnel w.0) id ≡ true
  owns-order L w v id busy =
      let (k, a, there, mine) = owner w.0 id v.distinct (v.owned id busy) in
      owns_of_get k a (H.order ActiveTunnel w.0) id (L.get_order k w.0 v.distinct ∙ there) mine

  pub runs-stop_each :
      (es : Active) (id : ℕ) (rt : Rt O)
      → runs O (stop_each H O es rt) id ≡ (not (owns es id) && runs O rt id)
  unfolding stop_each
  runs-stop_each [] id rt = refl
  runs-stop_each ((n, a) ∷ es) id rt =
      ground (arith, runs-stop_each es id (stop O a rt), runs-stop O a id rt)

  -- If the map iterates over its own entries and the invariant of the manager holds, then after
  -- `stop_all` no tunnel is active and no task runs.
  pub stop_all_lem :
      IsReordering H
      → (w : World H O) → Inv H O w
      → ((stop_all H O w).0 ≡ []) × ((id : ℕ) → runs O (stop_all H O w).1 id ≡ false)
  unfolding stop_all
  stop_all_lem L w v = (refl, ended)
    where
      ended : (id : ℕ) → runs O (stop_each H O (H.order ActiveTunnel w.0) w.1) id ≡ false
      ended id = elim (Bool-cases (runs O w.1 id)) [
        | inr idle ↦ ground (arith, runs-stop_each (H.order ActiveTunnel w.0) id w.1)
        | inl busy ↦
            ground
              (arith, runs-stop_each (H.order ActiveTunnel w.0) id w.1, owns-order L w v id busy)
      ]

  pub stop_all-Inv : IsReordering H → (w : World H O) → Inv H O w → Inv H O (stop_all H O w)
  stop_all-Inv L w v =
      let (empty, idle) = stop_all_lem L w v in
      subst (λ m. Inv H O (m, (stop_all H O w).1)) (sym empty)
        (idle-Inv H O (stop_all H O w).1 idle)
