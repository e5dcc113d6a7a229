-- ===== src/Daemon/Splitting.antt =====
-- How `slice::split` in src/main.rs cuts a text at its marks.
use vorto.Prelude.{
  ℕ, ◌≡◌, ◌≢◌, refl, Bool, false, some, List, [], ◌∷◌, ◌++◌, arith, All, keep_if, is_empty,
}
use vorto.Daemon.Cmdline.{push_front, split_at_byte, last_part}

push_front-append :
    (c : ℕ) (ps qs : List (List ℕ))
    → is_empty ps ≡ false
    → push_front c (ps ++ qs) ≡ push_front c ps ++ qs
push_front-append c [] qs h = cc
push_front-append c (p ∷ ps) qs h = refl

push_front-full : (c : ℕ) (ps : List (List ℕ)) → is_empty (push_front c ps) ≡ false
push_front-full c [] = refl
push_front-full c (p ∷ ps) = refl

split-full : (mark : ℕ) (s : List ℕ) → is_empty (split_at_byte mark s) ≡ false
unfolding split_at_byte
split-full mark [] = refl
split-full mark (c ∷ s) = ground (arith, push_front-full c (split_at_byte mark s))

-- The parts on both sides of a mark.
pub split-append :
    (mark : ℕ) (s t : List ℕ)
    → split_at_byte mark (s ++ mark ∷ t) ≡ split_at_byte mark s ++ split_at_byte mark t
unfolding split_at_byte
split-append mark [] t = ground arith
split-append mark (c ∷ s) t = ground (
  arith,
  split-append mark s t,
  push_front-append c (split_at_byte mark s) (split_at_byte mark t),
  split-full mark s,
)

pub split_of_unmarked :
    (mark : ℕ) (s : List ℕ) → All (λ c. c ≢ mark) s → split_at_byte mark s ≡ s ∷ []
unfolding split_at_byte
split_of_unmarked mark [] h = refl
split_of_unmarked mark (c ∷ s) (ne, h) = ground (arith, split_of_unmarked mark s h)

pub keep_if-append :
    {V : Type 0} (p : V → Bool) (xs ys : List V)
    → keep_if p (xs ++ ys) ≡ keep_if p xs ++ keep_if p ys
keep_if-append p [] ys = refl
keep_if-append p (x ∷ xs) ys = ground (arith, keep_if-append p xs ys)

pub last_part-append : (ps : List (List ℕ)) (p : List ℕ) → last_part (ps ++ p ∷ []) ≡ some p
last_part-append [] p = refl
last_part-append (q ∷ []) p = refl
last_part-append (q ∷ r ∷ ps) p = last_part-append (r ∷ ps) p

pub split_of_nothing : (mark : ℕ) → split_at_byte mark [] ≡ [] ∷ []
unfolding split_at_byte
split_of_nothing mark = refl
