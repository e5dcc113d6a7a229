-- ===== src/Runtime/Removal.antt =====
-- The parts of `TunnelManager::reconcile` in src/runtime.rs that stop tunnels: those with a finished
-- task, and those that are not desired as they are.
use vorto.Prelude.{
  ℕ, ◌≡◌, refl, sym, ap, subst, ◌∙◌, ◌≢◌, inl, inr, Bool, true, false, not, Option, none, some,
  List, [], ◌∷◌, arith, All, IsDistinct, contains, keep_if, is_yes, Option-cases, if◌then◌else◌,
}
use vorto.Text.{Text, Text-discrete}
use vorto.HashMap.{get, keys, get-remove, Hasher, IsReordering}
use vorto.Runtime.System.{Os, runs}
use vorto.Runtime.Tunnel.{ActiveTunnel, has_finished}
use vorto.Runtime.Tasks.{has, runs-stop}
use vorto.Runtime.Manager.{
  Active, Desired, World, remove_and_stop, remove_all, retire_finished_tunnels, remove_obsolete,
  names_of, wants, finished, to_remove,
}
use vorto.Runtime.Ownership.{Inv, remove_all-Inv, remove_and_stop-Inv}

abbrev pub named : List Text → Text → Bool
named = contains Text-discrete

-- The name leads to an entry that passes the test.
abbrev pub passes : (Text × ActiveTunnel → Bool) → Text → Option ActiveTunnel → Bool
passes p k none = false
passes p k (some a) = p (k, a)

names-keep_if_fresh :
    (p : Text × ActiveTunnel → Bool) (k : Text) (m : Active)
    → All (λ j. k ≢ j) (keys Text-discrete m)
    → named (names_of (keep_if p m)) k ≡ false
names-keep_if_fresh p k [] f = refl
names-keep_if_fresh p k ((n, b) ∷ m) (ne, f) = ground (arith, names-keep_if_fresh p k m f)

names-keep_if :
    (p : Text × ActiveTunnel → Bool) (k : Text) (m : Active)
    → IsDistinct (keys Text-discrete m)
    → named (names_of (keep_if p m)) k ≡ passes p k (get Text-discrete k m)
unfolding get
names-keep_if p k [] u = refl
names-keep_if p k ((n, b) ∷ m) (f, u) = elim (Text-discrete k n) [
  | yes same ↦ ground (
    arith,
    names-keep_if_fresh p k m (subst (λ x. All (λ j. x ≢ j) (keys Text-discrete m)) (sym same) f),
    ap (λ (x : Text). p (x, b)) same,
  )
  | no ne ↦ ground (arith, names-keep_if p k m u)
]

module _ (H : Hasher) (O : Os) where
  pub get-remove_and_stop :
      (name k : Text) (w : World H O)
      → get Text-discrete k (remove_and_stop H O name w).0
        ≡ (if is_yes (Text-discrete k name) then none else get Text-discrete k w.0)
  unfolding remove_and_stop
  get-remove_and_stop name k (m, rt) = ground (arith, get-remove Text-discrete name k m)

  get-remove_all :
      (names : List Text) (k : Text) (w : World H O)
      → get Text-discrete k (remove_all H O names w).0
        ≡ (if named names k then none else get Text-discrete k w.0)
  unfolding remove_all
  get-remove_all [] k w = refl
  get-remove_all (n ∷ ns) k w =
      ground (arith, get-remove_all ns k (remove_and_stop H O n w), get-remove_and_stop n k w)

  -- The tasks of a tunnel that is not named run on.
  pub runs-remove_and_stop :
      (n k : Text) (a : ActiveTunnel) (id : ℕ) (w : World H O)
      → Inv H O w
      → get Text-discrete k w.0 ≡ some a
      → k ≢ n
      → has a.handles id ≡ true
      → runs O w.1 id ≡ true
      → runs O (remove_and_stop H O n w).1 id ≡ true
  unfolding remove_and_stop
  runs-remove_and_stop n k a id (m, rt) v there ne mine r =
      elim (Option-cases (get Text-discrete n m)) [
        | inl absent ↦ rw (absent, remove_and_stop) r
        | inr (b, other) ↦
            rw (other, remove_and_stop)
              (ground (arith, runs-stop O b id rt, v.separate k n a b id there other mine))
      ]

  pub runs-remove_all :
      (names : List Text) (k : Text) (a : ActiveTunnel) (id : ℕ) (w : World H O)
      → Inv H O w
      → get Text-discrete k w.0 ≡ some a
      → named names k ≡ false
      → has a.handles id ≡ true
      → runs O w.1 id ≡ true
      → runs O (remove_all H O names w).1 id ≡ true
  unfolding remove_all
  runs-remove_all [] k a id w v there apart mine r = r
  runs-remove_all (n ∷ ns) k a id w v there apart mine r =
      runs-remove_all ns k a id (remove_and_stop H O n w) (remove_and_stop-Inv H O n w v)
        (ground (arith, get-remove_and_stop n k w)) (ground arith) mine
        (runs-remove_and_stop n k a id w v there (λ e. ground arith) mine r)

  module _ (L : IsReordering H) where
    -- The names that a pass over the active tunnels collects.
    pub named-names_of :
        (p : Text × ActiveTunnel → Bool) (k : Text) (m : Active)
        → IsDistinct (keys Text-discrete m)
        → named (names_of (keep_if p (H.order ActiveTunnel m))) k
          ≡ passes p k (get Text-discrete k m)
    named-names_of p k m u =
        names-keep_if p k (H.order ActiveTunnel m) (L.distinct_order m u)
        ∙ ap (passes p k) (L.get_order k m u)

    pub get-retire_finished_tunnels :
        (k : Text) (w : World H O)
        → Inv H O w
        → get Text-discrete k (retire_finished_tunnels H O w).0 ≡ (
            if passes (λ e. has_finished O e.1 w.1) k (get Text-discrete k w.0)
            then none
            else get Text-discrete k w.0)
    unfolding retire_finished_tunnels
    get-retire_finished_tunnels k w v = ground (
      arith,
      get-remove_all (finished H O w) k w,
      named-names_of (λ e. has_finished O e.1 w.1) k w.0 v.distinct,
    )

    abbrev pub is_obsolete : Desired → Text × ActiveTunnel → Bool
    is_obsolete desired e = not (wants (get Text-discrete e.0 desired) e.1.spec)

    pub get-remove_obsolete :
        (desired : Desired) (k : Text) (w : World H O)
        → Inv H O w
        → get Text-discrete k (remove_obsolete H O desired w).0 ≡ (
            if passes (is_obsolete desired) k (get Text-discrete k w.0)
            then none
            else get Text-discrete k w.0)
    unfolding remove_obsolete
    get-remove_obsolete desired k w v = ground (
      arith,
      get-remove_all (to_remove H O desired w) k w,
      named-names_of (is_obsolete desired) k w.0 v.distinct,
    )

    pub runs-retire :
        (k : Text) (a : ActiveTunnel) (id : ℕ) (w : World H O)
        → Inv H O w
        → get Text-discrete k w.0 ≡ some a
        → has_finished O a w.1 ≡ false
        → has a.handles id ≡ true
        → runs O w.1 id ≡ true
        → runs O (retire_finished_tunnels H O w).1 id ≡ true
    unfolding retire_finished_tunnels
    runs-retire k a id w v there alive mine r =
        runs-remove_all (finished H O w) k a id w v there
          (ground (arith, named-names_of (λ e. has_finished O e.1 w.1) k w.0 v.distinct)) mine r

    pub runs-remove_obsolete :
        (desired : Desired) (k : Text) (a : ActiveTunnel) (id : ℕ) (w : World H O)
        → Inv H O w
        → get Text-discrete k w.0 ≡ some a
        → get Text-discrete k desired ≡ some a.spec
        → has a.handles id ≡ true
        → runs O w.1 id ≡ true
        → runs O (remove_obsolete H O desired w).1 id ≡ true
    unfolding remove_obsolete
    runs-remove_obsolete desired k a id w v there wanted mine r =
        runs-remove_all (to_remove H O desired w) k a id w v there
          (ground (arith, named-names_of (is_obsolete desired) k w.0 v.distinct)) mine r

  pub retire-Inv : (w : World H O) → Inv H O w → Inv H O (retire_finished_tunnels H O w)
  unfolding retire_finished_tunnels
  retire-Inv w v = remove_all-Inv H O (finished H O w) w v

  pub remove_obsolete-Inv :
      (desired : Desired) (w : World H O) → Inv H O w → Inv H O (remove_obsolete H O desired w)
  unfolding remove_obsolete
  remove_obsolete-Inv desired w v = remove_all-Inv H O (to_remove H O desired w) w v
