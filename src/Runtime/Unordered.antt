-- ===== src/Runtime/Unordered.antt =====
-- What `TunnelManager::reconcile` of src/runtime.rs achieves does not depend on the order of the tunnels
-- in the configuration, nor on the order in which hash maps iterate.
use mathlib.Core.Path.{fun_ext}
use mathlib.Core.Logic.{∥∥₁_elim}
use mathlib.Core.List.{Perm, Permᴰ}
use vorto.Prelude.{
  ◌≡◌, refl, sym, ap, subst, ◌∙◌, ◌≢◌, true, List, [], ◌∷◌, map, arith, All, IsDistinct,
}
use vorto.Text.{Text, Text-discrete}
use vorto.HashMap.{get, insert, extend, get-insert, Hasher, IsReordering}
use vorto.Config.Tunnel.{TunnelConfig, TunnelConfig-discrete}
use vorto.Runtime.System.{Os}
use vorto.Runtime.Manager.{Desired, World, desired_map, reconcile}
use vorto.Runtime.Ownership.{Inv}
use vorto.Runtime.Stability.{specs, specs-reconcile}

abbrev pub names : List TunnelConfig → List Text
names = map (λ t. t.name)

-- Two maps lead from every name to the same settings.
abbrev Agree : Desired → Desired → Type 0
Agree m n = (k : Text) → get Text-discrete k m ≡ get Text-discrete k n

insert-Agree :
    (t : TunnelConfig) (m n : Desired)
    → Agree m n
    → Agree (insert Text-discrete t.name t m) (insert Text-discrete t.name t n)
insert-Agree t m n h k =
    ground
      (arith, h k, get-insert Text-discrete t.name k t m, get-insert Text-discrete t.name k t n)

-- The order of two insertions under different names does not matter.
insert_comm :
    (t u : TunnelConfig) (m n : Desired)
    → t.name ≢ u.name
    → Agree m n
    → Agree
        (insert Text-discrete u.name u (insert Text-discrete t.name t m))
        (insert Text-discrete t.name t (insert Text-discrete u.name u n))
insert_comm t u m n ne h k = ground (
  arith,
  h k,
  get-insert Text-discrete u.name k u (insert Text-discrete t.name t m),
  get-insert Text-discrete t.name k t m,
  get-insert Text-discrete t.name k t (insert Text-discrete u.name u n),
  get-insert Text-discrete u.name k u n,
)

abbrev entered : Desired → List TunnelConfig → Desired
entered m ts = extend Text-discrete m (map (λ t. (t.name, t)) ts)

entered-Agree :
    (ts : List TunnelConfig) (m n : Desired) → Agree m n → Agree (entered m ts) (entered n ts)
unfolding extend
entered-Agree [] m n h = h
entered-Agree (t ∷ ts) m n h = entered-Agree ts _ _ (insert-Agree t m n h)

All-names :
    (P : Text → Type 0) {ts us : List TunnelConfig}
    → Permᴰ ts us
    → All P (names ts)
    → All P (names us)
All-names P Permᴰ.nil a = tt
All-names P (Permᴰ.cons e d) (p, a) = (subst (λ (t : TunnelConfig). P t.name) e p, All-names P d a)
All-names P (Permᴰ.swap e f) (p, (q, a)) =
    (subst (λ (t : TunnelConfig). P t.name) f q, (subst (λ (t : TunnelConfig). P t.name) e p, a))
All-names P (Permᴰ.trans d e) a = All-names P e (All-names P d a)

IsDistinct-names :
    {ts us : List TunnelConfig} → Permᴰ ts us → IsDistinct (names ts) → IsDistinct (names us)
IsDistinct-names Permᴰ.nil u = tt
IsDistinct-names (Permᴰ.cons {a = t} {l₂ = us} e d) (f, u) = (
  subst (λ (x : TunnelConfig). All (λ j. x.name ≢ j) (names us)) e
      (All-names (λ j. t.name ≢ j) d f),
  IsDistinct-names d u,
)
IsDistinct-names (Permᴰ.swap {l = l} e f) ((ne, g), (h, u)) = (
  (
    λ same. ne (
        ap (λ (x : TunnelConfig). x.name) e ∙ sym same ∙ sym (ap (λ (x : TunnelConfig). x.name) f)),
    subst (λ (x : TunnelConfig). All (λ j. x.name ≢ j) (names l)) f h,
  ),
  (subst (λ (x : TunnelConfig). All (λ j. x.name ≢ j) (names l)) e g, u),
)
IsDistinct-names (Permᴰ.trans d e) u = IsDistinct-names e (IsDistinct-names d u)

Permᴰ-Agree :
    {ts us : List TunnelConfig}
    → Permᴰ ts us
    → IsDistinct (names ts)
    → (m n : Desired) → Agree m n
    → Agree (entered m ts) (entered n us)
unfolding extend
Permᴰ-Agree Permᴰ.nil u m n h = h
Permᴰ-Agree (Permᴰ.cons {a = t} {l₁ = ts} {l₂ = us} e d) (f, u) m n h =
    subst
      (λ (x : TunnelConfig).
        Agree (entered (insert Text-discrete t.name t m) ts)
          (entered (insert Text-discrete x.name x n) us))
      e (Permᴰ-Agree d u _ _ (insert-Agree t m n h))
Permᴰ-Agree (Permᴰ.swap {a = t} {b = u} {b' = b'} {l = l} e f) ((ne, _), _) m n h =
    subst (λ (x : TunnelConfig). Agree (entered m (t ∷ u ∷ l)) (entered n (x ∷ b' ∷ l))) f
      (subst (λ (x : TunnelConfig). Agree (entered m (t ∷ u ∷ l)) (entered n (u ∷ x ∷ l))) e
        (entered-Agree l _ _ (insert_comm t u m n ne h)))
Permᴰ-Agree (Permᴰ.trans d e) u m n h =
    λ k. Permᴰ-Agree d u m m (λ j. refl) k ∙ Permᴰ-Agree e (IsDistinct-names d u) m n h k

desired_map-Agree :
    (ts us : List TunnelConfig)
    → IsDistinct (names ts)
    → Perm ts us
    → Agree (desired_map ts) (desired_map us)
unfolding desired_map TunnelConfig-discrete
desired_map-Agree ts us u p k =
    ∥∥₁_elim p (hlevel TunnelConfig-discrete) (λ d. Permᴰ-Agree d u [] [] (λ j. refl) k)

-- Take two runs of `reconcile` that report success, on two systems, from two states in which the
-- invariant of the manager holds, with maps that iterate over their own entries in orders of
-- their own, to the same tunnels in two orders. If the names of the tunnels are distinct, the
-- settings that are active under each name are the same after both.
pub reconcile-IsUnordered :
    (H J : Hasher) (O Q : Os)
    → IsReordering H
    → IsReordering J
    → (ts us : List TunnelConfig) → IsDistinct (names ts)
    → Perm ts us
    → (w : World H O) (x : World J Q) → Inv H O w
    → Inv J Q x
    → (reconcile H O ts w).0 ≡ true
    → (reconcile J Q us x).0 ≡ true
    → specs (reconcile H O ts w).1.0 ≡ specs (reconcile J Q us x).1.0
reconcile-IsUnordered H J O Q L N ts us u p w x v z done done' =
    specs-reconcile H O L ts w v done
    ∙ fun_ext (λ k. desired_map-Agree ts us u p k)
    ∙ sym (specs-reconcile J Q N us x z done')
