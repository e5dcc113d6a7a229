-- ===== src/HashMap.antt =====
-- `std::collections::HashMap` with text keys: a list of entries, in the order in which an iteration
-- meets them.
use mathlib.Core.List.{List, [], ◌∷◌, map}
use mathlib.Core.Logic.{◌≢◌}
use mathlib.Core.Option.{Option, none, some}
use mathlib.Core.Path.{◌≡◌, refl, sym, subst, ◌∙◌}
use native.Mathlib.Omega.{arith}
use vorto.Prelude.Tests.{if◌then◌else◌, is_yes}
use vorto.Text.{Text, Text-discrete}
use vorto.Prelude.Lists.{IsDistinct, All}

module _ {K : Type 0} (d : Discrete K) {V : Type 0} where
  abbrev pub keys : List (K × V) → List K
  keys = map (λ e. e.0)

  unfoldable pub get : K → List (K × V) → Option V
  get k [] = none
  get k ((j, v) ∷ m) = if is_yes (d k j) then some v else get k m

  unfoldable pub insert : K → V → List (K × V) → List (K × V)
  insert k v [] = (k, v) ∷ []
  insert k v ((j, w) ∷ m) = if is_yes (d k j) then (k, v) ∷ m else (j, w) ∷ insert k v m

  unfoldable pub remove : K → List (K × V) → List (K × V)
  remove k [] = []
  remove k ((j, w) ∷ m) = if is_yes (d k j) then remove k m else (j, w) ∷ remove k m

  pub get-insert :
      (k j : K) (v : V) (m : List (K × V))
      → get j (insert k v m) ≡ (if is_yes (d j k) then some v else get j m)
  unfolding get insert
  get-insert k j v [] = refl
  get-insert k j v ((i, w) ∷ m) = ground (arith, get-insert k j v m)

  pub get-remove :
      (k j : K) (m : List (K × V)) → get j (remove k m) ≡ (if is_yes (d j k) then none else get j m)
  unfolding get remove
  get-remove k j [] = ground arith
  get-remove k j ((i, w) ∷ m) = ground (arith, get-remove k j m)

  pub get_of_fresh : (k : K) (m : List (K × V)) → All (λ j. k ≢ j) (keys m) → get k m ≡ none
  unfolding get
  get_of_fresh k [] h = refl
  get_of_fresh k ((j, w) ∷ m) (ne, h) = ground (arith, get_of_fresh k m h)

  -- Every entry of a list is what its key leads to in a map.
  abbrev pub AreEntries : List (K × V) → List (K × V) → Type 0
  AreEntries m es = All (λ e. get e.0 m ≡ some e.1) es

  AreEntries-cons :
      (k : K) (v : V) (m es : List (K × V))
      → All (λ j. k ≢ j) (keys es)
      → AreEntries m es
      → AreEntries ((k, v) ∷ m) es
  unfolding get
  AreEntries-cons k v m [] f h = tt
  AreEntries-cons k v m ((j, w) ∷ es) (ne, f) (e, h) = (ground arith, AreEntries-cons k v m es f h)

  pub entries-AreEntries : (m : List (K × V)) → IsDistinct (keys m) → AreEntries m m
  unfolding get
  entries-AreEntries [] u = tt
  entries-AreEntries ((k, v) ∷ m) (f, u) =
      (ground arith, AreEntries-cons k v m m f (entries-AreEntries m u))

  keys-insert_fresh :
      (i k : K) (v : V) (m : List (K × V))
      → i ≢ k
      → All (λ j. i ≢ j) (keys m)
      → All (λ j. i ≢ j) (keys (insert k v m))
  unfolding insert
  keys-insert_fresh i k v [] ne f = (ne, tt)
  keys-insert_fresh i k v ((j, w) ∷ m) ne (n, f) = ground (arith, keys-insert_fresh i k v m ne f)

  pub insert-IsDistinct :
      (k : K) (v : V) (m : List (K × V)) → IsDistinct (keys m) → IsDistinct (keys (insert k v m))
  unfolding insert
  insert-IsDistinct k v [] u = (tt, tt)
  insert-IsDistinct k v ((j, w) ∷ m) (f, u) = elim (d k j) [
    | yes same ↦
        let f' : All (λ i. k ≢ i) (keys m) = subst (λ x. All (λ i. x ≢ i) (keys m)) (sym same) f in
        ground arith
    | no ne ↦
        let f' = keys-insert_fresh j k v m (λ e. ne (sym e)) f in
        let u' = insert-IsDistinct k v m u in ground arith
  ]

-- `collect` into a map: of two entries with one key the later one wins.
module _ {K : Type 0} (d : Discrete K) {V : Type 0} where
  unfoldable pub extend : List (K × V) → List (K × V) → List (K × V)
  extend m [] = m
  extend m ((k, v) ∷ es) = extend (insert d k v m) es

  abbrev pub collect : List (K × V) → List (K × V)
  collect = extend []

  pub extend-IsDistinct :
      (m es : List (K × V)) → IsDistinct (keys d m) → IsDistinct (keys d (extend m es))
  unfolding extend
  extend-IsDistinct m [] u = u
  extend-IsDistinct m ((k, v) ∷ es) u =
      extend-IsDistinct (insert d k v m) es (insert-IsDistinct d k v m u)

-- The order in which an iteration meets the entries is not known: it is some reordering.
pub record Hasher : Type 1 where
  pub order : (V : Type 0) → List (Text × V) → List (Text × V)

pub record IsReordering (H : Hasher) : Type 1 where
  pub get_order :
      {V : Type 0} (k : Text) (m : List (Text × V))
      → IsDistinct (keys Text-discrete m)
      → get Text-discrete k (H.order V m) ≡ get Text-discrete k m
  pub distinct_order :
      {V : Type 0} (m : List (Text × V))
      → IsDistinct (keys Text-discrete m)
      → IsDistinct (keys Text-discrete (H.order V m))

module _ {K : Type 0} (d : Discrete K) {V : Type 0} where
  keys-remove_fresh :
      (i k : K) (m : List (K × V))
      → All (λ j. i ≢ j) (keys d m)
      → All (λ j. i ≢ j) (keys d (remove d k m))
  unfolding remove
  keys-remove_fresh i k [] f = tt
  keys-remove_fresh i k ((j, w) ∷ m) (n, f) = ground (arith, keys-remove_fresh i k m f)

  pub remove-IsDistinct :
      (k : K) (m : List (K × V)) → IsDistinct (keys d m) → IsDistinct (keys d (remove d k m))
  unfolding remove
  remove-IsDistinct k [] u = tt
  remove-IsDistinct k ((j, w) ∷ m) (f, u) =
      let f' = keys-remove_fresh j k m f in let u' = remove-IsDistinct k m u in ground arith

  -- A removal of a key that is not there changes nothing.
  pub remove_of_fresh : (k : K) (m : List (K × V)) → All (λ j. k ≢ j) (keys d m) → remove d k m ≡ m
  unfolding remove
  remove_of_fresh k [] f = refl
  remove_of_fresh k ((j, w) ∷ m) (n, f) = ground (arith, remove_of_fresh k m f)

AreEntries-of_same :
    {V : Type 0} (m n : List (Text × V))
    → ((k : Text) → get Text-discrete k n ≡ get Text-discrete k m)
    → (es : List (Text × V)) → AreEntries Text-discrete n es
    → AreEntries Text-discrete m es
AreEntries-of_same m n same [] h = tt
AreEntries-of_same m n same ((k, v) ∷ es) (e, h) =
    (sym (same k) ∙ e, AreEntries-of_same m n same es h)

-- An iteration meets entries of the map only.
pub AreEntries-order :
    {V : Type 0} (H : Hasher) (L : IsReordering H) (m : List (Text × V))
    → IsDistinct (keys Text-discrete m)
    → AreEntries Text-discrete m (H.order V m)
AreEntries-order {V} H L m u =
    AreEntries-of_same m (H.order V m) (λ k. L.get_order k m u) (H.order V m)
      (entries-AreEntries Text-discrete (H.order V m) (L.distinct_order m u))
