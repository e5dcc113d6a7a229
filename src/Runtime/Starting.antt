-- ===== src/Runtime/Starting.antt =====
-- One round of the loop over the desired tunnels in `TunnelManager::reconcile` of src/runtime.rs keeps
-- the invariant of Runtime/Ownership.
use vorto.Prelude.{
  ℕ, ◌≤◌, ◌<◌, ◌≡◌, refl, sym, ◌∙◌, ◌⊎◌, inl, inr, Bool, true, false, ◌||◌, none, some, arith,
  Option-cases,
}
use vorto.Text.{Text, Text-discrete}
use vorto.HashMap.{get, insert, get-insert, insert-IsDistinct, Hasher}
use vorto.Config.Tunnel.{TunnelConfig}
use vorto.Runtime.System.{Os, Rt, runs}
use vorto.Runtime.Tunnel.{ActiveTunnel, spawn}
use vorto.Runtime.Tasks.{has, IsBelow, spawn-Spawns}
use vorto.Runtime.Manager.{Active, World, entered, start_one}
use vorto.Runtime.Ownership.{owns_of_get, owns-insert, Inv}

module _ (H : Hasher) (O : Os) where
  -- Whatever ran still runs.
  abbrev pub KeepsRunning : Rt O → Rt O → Type 0
  KeepsRunning rt rt' = (id : ℕ) → runs O rt id ≡ true → runs O rt' id ≡ true

  -- What one round does where a tunnel that is active under the name has the desired settings.
  abbrev pub Starts : Text → TunnelConfig → World H O → Bool × World H O → Type 0
  Starts name tunnel (m, rt) r =
      ((a : ActiveTunnel) × (get Text-discrete name m ≡ some a)
        × (a.spec ≡ tunnel)
        × (r ≡ (true, (m, rt))))
      ⊎ ((a : ActiveTunnel) × (get Text-discrete name m ≡ none)
          × (a.spec ≡ tunnel)
          × (r.0 ≡ true)
          × ((r.1).0 ≡ insert Text-discrete name a m)
          × (Inv H O (m, rt) → Inv H O (insert Text-discrete name a m, (r.1).1))
          × ((id : ℕ) → has a.handles id ≡ true → runs O (r.1).1 id ≡ true)
          × KeepsRunning rt (r.1).1)
      ⊎ ((get Text-discrete name m ≡ none)
          × (r.0 ≡ false)
          × ((r.1).0 ≡ m)
          × (Inv H O (m, rt) → Inv H O (m, (r.1).1))
          × KeepsRunning rt (r.1).1)

  module _ (name : Text) (m : Active) (rt : Rt O) (absent : get Text-discrete name m ≡ none) where
    enter-Inv :
        (a : ActiveTunnel) (rt' : Rt O)
        → ((id : ℕ) → runs O rt' id ≡ (has a.handles id || runs O rt id))
        → ((id : ℕ) → has a.handles id ≡ true → (rt.next_task ≤ id) × (id < rt'.next_task))
        → rt.next_task ≤ rt'.next_task
        → Inv H O (m, rt)
        → Inv H O (insert Text-discrete name a m, rt')
    enter-Inv a rt' added fresh grows v = record {
      distinct = insert-IsDistinct Text-discrete name a m v.distinct;
      below = λ id h. ground (arith, v.below id, added id, fresh id);
      given = λ id h. ground (arith, v.given id, fresh id, owns-insert name a m id absent);
      owned = λ id h. ground (arith, v.owned id, added id, owns-insert name a m id absent);
      separate = separate;
    }
      where
        old :
            (k : Text) (b : ActiveTunnel) (id : ℕ)
            → get Text-discrete k m ≡ some b
            → has b.handles id ≡ true
            → id < rt.next_task
        old k b id h i = v.given id (owns_of_get k b m id h i)

        entry :
            (n : Text) (b : ActiveTunnel)
            → get Text-discrete n (insert Text-discrete name a m) ≡ some b
            → ((n ≡ name) × (b ≡ a)) ⊎ (get Text-discrete n m ≡ some b)
        entry n b h = elim (Text-discrete n name) [
          | yes same ↦ inl (same, ground (arith, get-insert Text-discrete name n a m))
          | no ne ↦ inr (ground (arith, get-insert Text-discrete name n a m))
        ]

        separate :
            (n k : Text) (b c : ActiveTunnel) (id : ℕ)
            → get Text-discrete n (insert Text-discrete name a m) ≡ some b
            → get Text-discrete k (insert Text-discrete name a m) ≡ some c
            → has b.handles id ≡ true
            → has c.handles id ≡ true
            → n ≡ k
        separate n k b c id hn hk ib ic = elim (entry n b hn) [
          | inl (en, eb) ↦ elim (entry k c hk) [
            | inl (ek, ec) ↦ en ∙ sym ek
            | inr oc ↦ absurd (ground (arith, fresh id, old k c id oc ic))
          ]
          | inr ob ↦ elim (entry k c hk) [
            | inl (ek, ec) ↦ absurd (ground (arith, fresh id, old n b id ob ib))
            | inr oc ↦ v.separate n k b c id ob oc ib ic
          ]
        ]

    fail-Inv :
        (rt' : Rt O)
        → ((id : ℕ) → runs O rt' id ≡ runs O rt id)
        → rt.next_task ≤ rt'.next_task
        → Inv H O (m, rt)
        → Inv H O (m, rt')
    fail-Inv rt' same grows v = record {
      distinct = v.distinct;
      below = λ id h. ground (arith, v.below id, same id);
      given = λ id h. ground (arith, v.given id);
      owned = λ id h. ground (arith, v.owned id, same id);
      separate = v.separate;
    }

    start_absent :
        (tunnel : TunnelConfig)
        → IsBelow O rt
        → Starts name tunnel (m, rt) (entered H O name m (spawn O tunnel rt))
    start_absent tunnel below = elim (spawn-Spawns O tunnel rt below) [
      | inl (a, started, same, added, fresh, grows) ↦ rw started (
          inr (
            inl (
              a,
              absent,
              same,
              refl,
              refl,
              enter-Inv a (spawn O tunnel rt).1 added fresh grows,
              λ id h. ground (arith, added id),
              λ id h. ground (arith, added id),
            )))
      | inr (e, failed, same, grows) ↦ rw failed (
          inr (
            inr (
              absent,
              refl,
              refl,
              fail-Inv (spawn O tunnel rt).1 same grows,
              λ id h. ground (arith, same id),
            )))
    ]

  pub start_one-Starts :
      (name : Text) (tunnel : TunnelConfig) (m : Active) (rt : Rt O)
      → IsBelow O rt
      → ((a : ActiveTunnel) → get Text-discrete name m ≡ some a → a.spec ≡ tunnel)
      → Starts name tunnel (m, rt) (start_one H O name tunnel (m, rt))
  unfolding start_one
  start_one-Starts name tunnel m rt below fits = elim (Option-cases (get Text-discrete name m)) [
    | inl absent ↦
        rw (absent, start_one) (rw absent at (start_absent name m rt absent tunnel below))
    | inr (a, there) ↦ inl (a, there, fits a there, ground (arith, there, fits a there))
  ]
