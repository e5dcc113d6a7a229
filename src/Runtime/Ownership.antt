-- ===== src/Runtime/Ownership.antt =====
-- Every running task of src/runtime.rs belongs to one active tunnel: no operation of `TunnelManager`
-- loses track of a task.
use vorto.Prelude.{
  ℕ, ◌<◌, ◌≡◌, refl, sym, subst, ◌≢◌, inl, inr, Bool, true, false, ◌||◌, none, some, List, [], ◌∷◌,
  arith, All, IsDistinct, Option-cases,
}
use vorto.Text.{Text, Text-discrete}
use vorto.HashMap.{
  get, insert, remove, keys, get-remove, remove-IsDistinct, remove_of_fresh, Hasher,
}
use vorto.Runtime.System.{Os, Rt, runs, ended}
use vorto.Runtime.Tunnel.{ActiveTunnel}
use vorto.Runtime.Tasks.{has, runs-stop, runs-ended, next_task-stop, IsBelow}
use vorto.Runtime.Manager.{Active, World, no_tunnels, remove_and_stop, remove_all}

-- Whether a task is one of an active tunnel's.
abbrev pub owns : Active → ℕ → Bool
owns [] id = false
owns ((name, tunnel) ∷ es) id = has tunnel.handles id || owns es id

pub owns_of_get :
    (name : Text) (a : ActiveTunnel) (m : Active) (id : ℕ)
    → get Text-discrete name m ≡ some a
    → has a.handles id ≡ true
    → owns m id ≡ true
unfolding get
owns_of_get name a [] id h k = ground arith
owns_of_get name a ((n, b) ∷ m) id h k = ground (arith, owns_of_get name a m id)

pub owns-insert :
    (name : Text) (a : ActiveTunnel) (m : Active) (id : ℕ)
    → get Text-discrete name m ≡ none
    → owns (insert Text-discrete name a m) id ≡ (has a.handles id || owns m id)
unfolding get insert
owns-insert name a [] id h = refl
owns-insert name a ((n, b) ∷ m) id h = ground (arith, owns-insert name a m id)

owns-remove :
    (name : Text) (a : ActiveTunnel) (m : Active) (id : ℕ)
    → IsDistinct (keys Text-discrete m)
    → get Text-discrete name m ≡ some a
    → owns m id ≡ (has a.handles id || owns (remove Text-discrete name m) id)
unfolding get remove
owns-remove name a [] id u h = ground arith
owns-remove name a ((n, b) ∷ m) id (f, u) h = elim (Text-discrete name n) [
  | yes same ↦ ground (
    arith,
    remove_of_fresh Text-discrete name m
        (subst (λ x. All (λ j. x ≢ j) (keys Text-discrete m)) (sym same) f),
  )
  | no ne ↦ ground (arith, owns-remove name a m id u)
]

module _ (H : Hasher) (O : Os) where
  pub record Inv (w : World H O) : Type 0 where
    -- Names are not entered twice.
    pub distinct : IsDistinct (keys Text-discrete w.0)
    -- Tasks and handles have been given out.
    pub below : IsBelow O w.1
    pub given : (id : ℕ) → owns w.0 id ≡ true → id < (w.1).next_task
    -- Every running task is some tunnel's.
    pub owned : (id : ℕ) → runs O w.1 id ≡ true → owns w.0 id ≡ true
    -- No task is two tunnels'.
    pub separate :
        (n k : Text) (a b : ActiveTunnel) (id : ℕ)
        → get Text-discrete n w.0 ≡ some a
        → get Text-discrete k w.0 ≡ some b
        → has a.handles id ≡ true
        → has b.handles id ≡ true
        → n ≡ k

  pub remove_and_stop-Inv : (name : Text) (w : World H O) → Inv w → Inv (remove_and_stop H O name w)
  unfolding remove_and_stop
  remove_and_stop-Inv name (m, rt) v = elim (Option-cases (get Text-discrete name m)) [
    | inl absent ↦ rw (absent, remove_and_stop) v
    | inr (a, there) ↦
        rw (there, remove_and_stop)
          (record {
            distinct = remove-IsDistinct Text-discrete name m v.distinct;
            below = λ id h. ground (arith, v.below id, runs-stop O a id rt, next_task-stop O a rt);
            given = λ id h. ground (
              arith,
              v.given id,
              owns-remove name a m id v.distinct there,
              next_task-stop O a rt,
            );
            owned = λ id h.
                ground (
                  arith,
                  v.owned id,
                  runs-stop O a id rt,
                  owns-remove name a m id v.distinct there,
                );
            separate =
                λ n k b c id hn hk. v.separate n k b c id (kept name n m b hn) (kept name k m c hk);
          })
  ]
    where
      kept :
          (name n : Text) (m : Active) (b : ActiveTunnel)
          → get Text-discrete n (remove Text-discrete name m) ≡ some b
          → get Text-discrete n m ≡ some b
      kept name n m b h = ground (arith, get-remove Text-discrete name n m)

  pub remove_all-Inv : (names : List Text) (w : World H O) → Inv w → Inv (remove_all H O names w)
  unfolding remove_all
  remove_all-Inv [] w v = v
  remove_all-Inv (n ∷ ns) w v =
      remove_all-Inv ns (remove_and_stop H O n w) (remove_and_stop-Inv n w v)

  -- A task that ends by itself stays a tunnel's.
  pub ended-Inv : (id : ℕ) (m : Active) (rt : Rt O) → Inv (m, rt) → Inv (m, ended O id rt)
  unfolding ended
  ended-Inv id m rt v = record {
    distinct = v.distinct;
    below = λ j h. v.below j (ground (arith, runs-ended O id j rt));
    given = v.given;
    owned = λ j h. v.owned j (ground (arith, runs-ended O id j rt));
    separate = v.separate;
  }

  -- A manager without tunnels is in order if no task runs.
  pub idle-Inv : (rt : Rt O) → ((id : ℕ) → runs O rt id ≡ false) → Inv (no_tunnels, rt)
  idle-Inv rt idle = record {
    distinct = tt;
    below = λ id h. absurd (ground (arith, idle id));
    given = λ id h. absurd (ground arith);
    owned = λ id h. absurd (ground (arith, idle id));
    separate = λ n k a b id hn hk. absurd (no_entry n a hn);
  }
    where
      no_entry : (n : Text) (a : ActiveTunnel) → get Text-discrete n [] ≡ some a → ⊥
      no_entry n a h = unfold get in (ground arith)
