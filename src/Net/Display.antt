-- ===== src/Net/Display.antt =====
-- The display of an IPv4 address determines the address, so the program may key a set by it.
use mathlib.Core.List.{append_assoc}
use vorto.Prelude.{ℕ, ◌≡◌, sym, ap, ◌∙◌, [], ◌++◌, ◌∷◌, arith}
use vorto.Text.{Text, decimal}
use vorto.Text.Decimal.{decimal_before, IsDigit}
use vorto.Net.{Ipv4Addr, show_ipv4}

dot_no-IsDigit : ¬ IsDigit b'.'
dot_no-IsDigit d = omega arith

show_ipv4-append :
    (ip : Ipv4Addr) (s : Text)
    → show_ipv4 ip ++ s
      ≡ decimal ip.a ++ b'.' ∷ (decimal ip.b ++ b'.' ∷ (decimal ip.c ++ b'.' ∷ (decimal ip.d ++ s)))
unfolding show_ipv4
show_ipv4-append ip s =
    append_assoc (decimal ip.a) _ s
    ∙ ap (λ (x : Text). decimal ip.a ++ b'.' ∷ x)
        (append_assoc (decimal ip.b) _ s
          ∙ ap (λ (x : Text). decimal ip.b ++ b'.' ∷ x) (append_assoc (decimal ip.c) _ s))

-- An address before such a mark.
pub show_ipv4_before :
    (c : ℕ) (ip jp : Ipv4Addr) (s t : Text)
    → (¬ IsDigit c)
    → show_ipv4 ip ++ c ∷ s ≡ show_ipv4 jp ++ c ∷ t
    → (ip ≡ jp) × (s ≡ t)
show_ipv4_before c ip jp s t mark e =
    let e' = sym (show_ipv4-append ip (c ∷ s)) ∙ e ∙ show_ipv4-append jp (c ∷ t) in
    let (ea, e1) = decimal_before b'.' ip.a jp.a _ _ dot_no-IsDigit e' in
    let (eb, e2) = decimal_before b'.' ip.b jp.b _ _ dot_no-IsDigit e1 in
    let (ec, e3) = decimal_before b'.' ip.c jp.c _ _ dot_no-IsDigit e2 in
    let (ed, e4) = decimal_before c ip.d jp.d s t mark e3 in (ground (arith, ea, eb, ec, ed), e4)

pub show_ipv4_injective : (ip jp : Ipv4Addr) → show_ipv4 ip ≡ show_ipv4 jp → ip ≡ jp
show_ipv4_injective ip jp e =
    (show_ipv4_before b':' ip jp [] [] (λ d. omega arith) (ap (λ (s : Text). s ++ b':' ∷ []) e)).0
