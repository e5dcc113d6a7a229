-- ===== src/Text/Trim.antt =====
-- `str::trim` on a line of digits.
use mathlib.Core.List.{reverse, reverse-append, reverse-reverse, reverse-cons}
use vorto.Prelude.{ℕ, ◌≡◌, refl, sym, subst, [], ◌∷◌, ◌++◌, arith, All, All-append}
use vorto.Text.{Text, is_whitespace, trim_start, trim_end, trim}
use vorto.Text.Decimal.{IsDigit}

trim_start_of_digits : (s : Text) → All IsDigit s → trim_start s ≡ s
unfolding trim_start is_whitespace
trim_start_of_digits [] d = refl
trim_start_of_digits (c ∷ s) (h, d) = ground arith

All-reverse : (s : Text) → All IsDigit s → All IsDigit (reverse s)
All-reverse [] d = tt
All-reverse (c ∷ s) (h, d) =
    subst (All IsDigit) (sym (reverse-cons c s))
      (All-append IsDigit (reverse s) (c ∷ []) (All-reverse s d) (h, tt))

trim_end_of_line : (s : Text) → All IsDigit s → trim_end (s ++ 10 ∷ []) ≡ s
unfolding trim_end trim_start is_whitespace
trim_end_of_line s d =
    rw (reverse-append s (10 ∷ []), trim_start_of_digits (reverse s) (All-reverse s d))
      (reverse-reverse s)

-- The end of line goes, and the digits stay.
pub trim_of_line : (c : ℕ) (s : Text) → All IsDigit (c ∷ s) → trim (c ∷ s ++ 10 ∷ []) ≡ c ∷ s
unfolding trim trim_start is_whitespace
trim_of_line c s d = rw (started c s d) (trim_end_of_line (c ∷ s) d)
  where
    started :
        (c : ℕ) (s : Text) → All IsDigit (c ∷ s) → trim_start (c ∷ s ++ 10 ∷ []) ≡ c ∷ s ++ 10 ∷ []
    started c s (h, _) = ground arith
