-- ===== src/Text/Words.antt =====
-- `str::split_whitespace`, and that `str::trim` does not change the words of a text.
use mathlib.Core.List.{append-nil, reverse, reverse-reverse, reverse-cons}
use vorto.Prelude.{
  ℕ, ◌≡◌, refl, ap, ◌∙◌, inl, inr, Bool, true, false, not, List, [], ◌∷◌, ◌++◌, arith, All, keep_if,
  is_empty, if◌then◌else◌, Bool-cases,
}
use vorto.Text.{Text, is_whitespace, trim_start, trim_end, trim}

abbrev push_char : ℕ → List Text → List Text
push_char c [] = (c ∷ []) ∷ []
push_char c (word ∷ words) = (c ∷ word) ∷ words

-- The pieces between characters of white space.
pieces : Text → List Text
pieces [] = [] ∷ []
pieces (c ∷ s) = let rest = pieces s in if is_whitespace c then [] ∷ rest else push_char c rest

abbrev filled : Text → Bool
filled w = not (is_empty w)

-- `str::split_whitespace`: the pieces that are not empty.
unfoldable pub split_whitespace : Text → List Text
unfolding pieces
split_whitespace s = keep_if filled (pieces s)

push_char-append :
    (c : ℕ) (ps qs : List Text)
    → is_empty ps ≡ false
    → push_char c (ps ++ qs) ≡ push_char c ps ++ qs
push_char-append c [] qs h = cc
push_char-append c (p ∷ ps) qs h = refl

push_char-full : (c : ℕ) (ps : List Text) → is_empty (push_char c ps) ≡ false
push_char-full c [] = refl
push_char-full c (p ∷ ps) = refl

pieces-full : (s : Text) → is_empty (pieces s) ≡ false
unfolding pieces
pieces-full [] = refl
pieces-full (c ∷ s) = ground (arith, push_char-full c (pieces s))

pieces-append :
    (s : Text) (c : ℕ) (t : Text)
    → is_whitespace c ≡ true
    → pieces (s ++ c ∷ t) ≡ pieces s ++ pieces t
unfolding pieces
pieces-append [] c t h = ground (arith, h)
pieces-append (d ∷ s) c t h =
    ground (arith, pieces-append s c t h, push_char-append d (pieces s) (pieces t), pieces-full s)

keep_if-append :
    (ps qs : List Text) → keep_if filled (ps ++ qs) ≡ keep_if filled ps ++ keep_if filled qs
keep_if-append [] qs = refl
keep_if-append (p ∷ ps) qs = ground (arith, keep_if-append ps qs)

-- The words on both sides of a character of white space.
pub split_whitespace-append :
    (s : Text) (c : ℕ) (t : Text)
    → is_whitespace c ≡ true
    → split_whitespace (s ++ c ∷ t) ≡ split_whitespace s ++ split_whitespace t
unfolding split_whitespace
split_whitespace-append s c t h =
    ap (keep_if filled) (pieces-append s c t h) ∙ keep_if-append (pieces s) (pieces t)

-- No character of the text is white space.
abbrev pub Unspaced : Text → Type 0
Unspaced = All (λ c. is_whitespace c ≡ false)

pieces_of_Unspaced : (s : Text) → Unspaced s → pieces s ≡ s ∷ []
unfolding pieces
pieces_of_Unspaced [] u = refl
pieces_of_Unspaced (c ∷ s) (h, u) = ground (arith, pieces_of_Unspaced s u)

pub split_whitespace_of_Unspaced :
    (c : ℕ) (s : Text) → Unspaced (c ∷ s) → split_whitespace (c ∷ s) ≡ (c ∷ s) ∷ []
unfolding split_whitespace
split_whitespace_of_Unspaced c s u = ap (keep_if filled) (pieces_of_Unspaced (c ∷ s) u)

pub split_whitespace_of_nothing : split_whitespace [] ≡ []
unfolding split_whitespace pieces
split_whitespace_of_nothing = refl

split_whitespace_of_space :
    (c : ℕ) (s : Text) → is_whitespace c ≡ true → split_whitespace (c ∷ s) ≡ split_whitespace s
unfolding split_whitespace pieces
split_whitespace_of_space c s h = ground (arith, h)

split_whitespace-trim_start : (s : Text) → split_whitespace (trim_start s) ≡ split_whitespace s
unfolding trim_start
split_whitespace-trim_start [] = refl
split_whitespace-trim_start (c ∷ s) = elim (Bool-cases (is_whitespace c)) [
  | inl space ↦ ground (arith, split_whitespace-trim_start s, split_whitespace_of_space c s)
  | inr other ↦ ground (arith, other)
]

split_whitespace-last :
    (s : Text) (c : ℕ)
    → is_whitespace c ≡ true
    → split_whitespace (s ++ c ∷ []) ≡ split_whitespace s
split_whitespace-last s c h =
    split_whitespace-append s c [] h
    ∙ ap (λ ws. split_whitespace s ++ ws) split_whitespace_of_nothing
    ∙ append-nil (split_whitespace s)

split_whitespace-trim_reversed :
    (s : Text) → split_whitespace (reverse (trim_start s)) ≡ split_whitespace (reverse s)
unfolding trim_start
split_whitespace-trim_reversed [] = refl
split_whitespace-trim_reversed (c ∷ s) = elim (Bool-cases (is_whitespace c)) [
  | inl space ↦ ground (
    arith,
    split_whitespace-trim_reversed s,
    split_whitespace-last (reverse s) c space,
    reverse-cons c s,
  )
  | inr other ↦ ground (arith, other)
]

-- Trimming a text leaves its words as they are.
pub split_whitespace-trim : (s : Text) → split_whitespace (trim s) ≡ split_whitespace s
unfolding trim trim_end
split_whitespace-trim s =
    split_whitespace-trim_reversed (reverse (trim_start s))
    ∙ ap split_whitespace (reverse-reverse (trim_start s))
    ∙ split_whitespace-trim_start s
