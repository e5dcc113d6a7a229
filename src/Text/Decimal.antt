-- ===== src/Text/Decimal.antt =====
-- The decimal display of a number is read back as the number, and holds digits only.
use mathlib.Core.List.{foldl, foldl-append}
use native.Mathlib.Nat.{pow-succ'}
use vorto.Prelude.{
  ℕ, zero, suc, ◌+◌, ◌-◌, ◌*◌, ◌/◌, ◌%◌, ◌<◌, ◌≤◌, ◌^◌, ◌≡◌, refl, sym, ap, ◌∙◌, [], ◌∷◌, ◌++◌,
  arith, All, All-append, length, length-append, ltb, Bool-cases, inl, inr,
}
use vorto.Text.{Text, decimal, decimal_digits}

-- The number that a run of digits stands for.
abbrev pub digits_value : ℕ → Text → ℕ
digits_value = foldl (λ n c. n * 10 + (c - 48))

abbrev pub IsDigit : ℕ → Type 0
IsDigit c = (48 ≤ c) × (c < 58)

decimal_digits-value : (fuel n : ℕ) → n < fuel → digits_value 0 (decimal_digits fuel n) ≡ n
unfolding decimal_digits
decimal_digits-value zero n h = elim h [ ]
decimal_digits-value (suc fuel) n h = elim (Bool-cases (ltb n 10)) [
  | inl small ↦ rw small (ground arith)
  | inr large ↦
      rw (large, foldl-append)
        (rw (decimal_digits-value fuel (n / 10) (ground arith)) (omega arith))
]

decimal_digits-IsDigit : (fuel n : ℕ) → All IsDigit (decimal_digits fuel n)
unfolding decimal_digits
decimal_digits-IsDigit zero n = tt
decimal_digits-IsDigit (suc fuel) n = elim (Bool-cases (ltb n 10)) [
  | inl small ↦ rw small (ground arith)
  | inr large ↦ rw large (
      All-append IsDigit (decimal_digits fuel (n / 10)) _ (decimal_digits-IsDigit fuel (n / 10))
        ((omega arith, omega arith), tt))
]

pub decimal-value : (n : ℕ) → digits_value 0 (decimal n) ≡ n
unfolding decimal
decimal-value n = decimal_digits-value (suc n) n (omega arith)

pub decimal-IsDigit : (n : ℕ) → All IsDigit (decimal n)
unfolding decimal
decimal-IsDigit n = decimal_digits-IsDigit (suc n) n

-- Two numbers with one display are equal.
pub decimal_injective : (m n : ℕ) → decimal m ≡ decimal n → m ≡ n
decimal_injective m n e = sym (decimal-value m) ∙ ap (digits_value 0) e ∙ decimal-value n

-- Texts of digits that end at the first `c`, no digit, are split there in one way.
pub split_at_mark :
    (c : ℕ) (xs ys s t : Text)
    → (¬ IsDigit c)
    → All IsDigit xs
    → All IsDigit ys
    → xs ++ c ∷ s ≡ ys ++ c ∷ t
    → (xs ≡ ys) × (s ≡ t)
split_at_mark c [] [] s t n dx dy e = (refl, ground arith)
split_at_mark c [] (y ∷ ys) s t n dx dy e = absurd (n (ground arith))
split_at_mark c (x ∷ xs) [] s t n dx dy e = absurd (n (ground arith))
split_at_mark c (x ∷ xs) (y ∷ ys) s t n dx dy e =
    ground (arith, split_at_mark c xs ys s t n dx.1 dy.1)

pub decimal_cons : (n : ℕ) → (c : ℕ) × (s : Text) × (decimal n ≡ c ∷ s)
unfolding decimal decimal_digits
decimal_cons n = elim (Bool-cases (ltb n 10)) [
  | inl one ↦ (48 + n, [], ground arith)
  | inr more ↦
      let (c, s, e) = last_digit (decimal_digits n (n / 10)) (48 + n % 10) in (c, s, rw more e)
]
  where
    last_digit : (front : Text) (d : ℕ) → (c : ℕ) × (s : Text) × (front ++ d ∷ [] ≡ c ∷ s)
    last_digit [] d = (d, [], refl)
    last_digit (c ∷ s) d = (c, s ++ d ∷ [], refl)

length-decimal_digits : (k fuel n : ℕ) → n < 10 ^ suc k → length (decimal_digits fuel n) ≤ suc k
unfolding decimal_digits
length-decimal_digits k zero n h = omega arith
length-decimal_digits zero (suc fuel) n h = ground (arith, h)
length-decimal_digits (suc k) (suc fuel) n h = elim (Bool-cases (ltb n 10)) [
  | inl small ↦ rw small (omega arith)
  | inr large ↦
      let shorter : n / 10 < 10 ^ suc k = omega (arith, h, pow-succ' 10 (suc k)) in
      rw (large) (
        omega (
          arith,
          length-append (decimal_digits fuel (n / 10)) ((48 + n % 10) ∷ []),
          length-decimal_digits k fuel (n / 10) shorter,
        ))
]

-- A number below a power of ten has at most so many digits.
pub length-decimal : (k n : ℕ) → n < 10 ^ suc k → length (decimal n) ≤ suc k
unfolding decimal
length-decimal k n h = length-decimal_digits k (suc n) n h

-- A number before a mark that is no digit.
pub decimal_before :
    (c m n : ℕ) (s t : Text)
    → (¬ IsDigit c)
    → decimal m ++ c ∷ s ≡ decimal n ++ c ∷ t
    → (m ≡ n) × (s ≡ t)
decimal_before c m n s t mark e =
    let (same, rest) =
      split_at_mark c (decimal m) (decimal n) s t mark (decimal-IsDigit m) (decimal-IsDigit n) e in
    (decimal_injective m n same, rest)
