-- ===== src/Prelude/Lists.antt =====
-- Lists measured by native numbers under the library's names, and predicates by recursion.
use Prim.Native.Nat.{ℕ, zero, suc, ◌+◌}
use mathlib.Core.Bool.{Bool, true, false, ◌||◌}
use mathlib.Core.List.{List, [], ◌∷◌, ◌++◌}
use mathlib.Core.Logic.{◌≢◌}
use mathlib.Core.Path.{◌≡◌, refl}
use native.Mathlib.Omega.{arith}
use vorto.Prelude.Tests.{is_yes, if◌then◌else◌}

module _ {ℓ} {A : Type ℓ} where
  abbrev pub length : List A → ℕ
  length [] = 0
  length (x ∷ xs) = suc (length xs)

  pub length-append : (xs ys : List A) → length (xs ++ ys) ≡ length xs + length ys
  length-append [] ys = omega arith
  length-append (x ∷ xs) ys = omega (arith, length-append xs ys)

  -- `Vec::is_empty`, `str::is_empty`.
  abbrev pub is_empty : List A → Bool
  is_empty [] = true
  is_empty (x ∷ xs) = false

  pub is_empty-eq-nil : (xs : List A) → is_empty xs ≡ true → xs ≡ []
  is_empty-eq-nil [] h = refl
  is_empty-eq-nil (x ∷ xs) h = ground arith

  abbrev pub All {κ} : (A → Type κ) → List A → Type κ
  All P [] = Unit
  All P (x ∷ xs) = P x × All P xs

  pub All-append {κ} : (P : A → Type κ) (xs ys : List A) → All P xs → All P ys → All P (xs ++ ys)
  All-append P [] ys hx hy = hy
  All-append P (x ∷ xs) ys hx hy = (hx.0, All-append P xs ys hx.1 hy)

  pub All-imp {κ μ} :
      (P : A → Type κ) (Q : A → Type μ) (xs : List A) → ((x : A) → P x → Q x) → All P xs → All Q xs
  All-imp P Q [] f h = tt
  All-imp P Q (x ∷ xs) f h = (f x h.0, All-imp P Q xs f h.1)

  -- The elements that pass a Boolean test, in order.
  abbrev pub keep_if : (A → Bool) → List A → List A
  keep_if p [] = []
  keep_if p (x ∷ xs) = if p x then x ∷ keep_if p xs else keep_if p xs

  pub All-keep_if {κ} :
      (P : A → Type κ) (p : A → Bool) (xs : List A) → All P xs → All P (keep_if p xs)
  All-keep_if P p [] h = tt
  All-keep_if P p (x ∷ xs) h = ground (arith, All-keep_if P p xs h.1)

  -- Every element that stays has passed the test.
  pub All-keep_if-true : (p : A → Bool) (xs : List A) → All (λ x. p x ≡ true) (keep_if p xs)
  All-keep_if-true p [] = tt
  All-keep_if-true p (x ∷ xs) = ground (arith, All-keep_if-true p xs)

module _ {ℓ} {A : Type ℓ} (d : Discrete A) where
  -- `HashSet::contains` and `Vec::contains`, on a list of the elements.
  abbrev pub contains : List A → A → Bool
  contains [] a = false
  contains (x ∷ xs) a = is_yes (d a x) || contains xs a

  -- `a` differs from every element.
  abbrev pub IsFresh : A → List A → Type ℓ
  IsFresh a xs = All (λ x. a ≢ x) xs

  pub contains-IsFresh : (a : A) (xs : List A) → contains xs a ≡ false → IsFresh a xs
  contains-IsFresh a [] h = tt
  contains-IsFresh a (x ∷ xs) h = ground (arith, contains-IsFresh a xs)

  pub contains_of_IsFresh : (a : A) (xs : List A) → IsFresh a xs → contains xs a ≡ false
  contains_of_IsFresh a [] h = refl
  contains_of_IsFresh a (x ∷ xs) h = ground (arith, contains_of_IsFresh a xs h.1)

-- No two elements are equal.
abbrev pub IsDistinct {ℓ} : {A : Type ℓ} → List A → Type ℓ
IsDistinct [] = Unit
IsDistinct (x ∷ xs) = All (λ y. x ≢ y) xs × IsDistinct xs

-- `Iterator::take`.
abbrev pub take {ℓ} : {V : Type ℓ} → ℕ → List V → List V
take zero xs = []
take (suc n) [] = []
take (suc n) (x ∷ xs) = x ∷ take n xs
