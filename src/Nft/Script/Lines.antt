-- ===== src/Nft/Script/Lines.antt =====
-- A line that `NftRule::render` of src/nft.rs writes tells its rule.
use mathlib.Core.List.{append_cancel_left, append_assoc}
use vorto.Prelude.{ℕ, ◌≡◌, refl, sym, ap, ◌∙◌, List, [], ◌∷◌, ◌++◌, arith}
use vorto.Text.{Text, text, decimal}
use vorto.Text.Decimal.{decimal_before}
use vorto.Net.{Ipv4Addr, show_ipv4}
use vorto.Net.Display.{show_ipv4_before}
use vorto.Nft.Ruleset.{NftRule, tcp, udp}
use vorto.Nft.Script.{concat, render_rule, render, writeln_all}

-- The pieces of a line one after the other, and what follows.
abbrev pub append_all : List Text → Text → Text
append_all [] t = t
append_all (s ∷ ss) t = s ++ append_all ss t

pub concat-append : (ss : List Text) (t : Text) → concat ss ++ t ≡ append_all ss t
concat-append [] t = refl
concat-append (s ∷ ss) t =
    append_assoc s (concat ss) t ∙ ap (λ (x : Text). s ++ x) (concat-append ss t)

pub append_all_cancel : (ss : List Text) (s t : Text) → append_all ss s ≡ append_all ss t → s ≡ t
append_all_cancel [] s t e = e
append_all_cancel (x ∷ ss) s t e =
    append_all_cancel ss s t (append_cancel_left x (append_all ss s) (append_all ss t) e)

-- What follows the listen address of a rule, up to the end of the script.
abbrev after_address : Text → ℕ → Ipv4Addr → ℕ → Text → Text
after_address dport lport tip tport rest =
    dport
    ++ (decimal lport
        ++ (text " dnat to " ++ (show_ipv4 tip ++ (text ":" ++ (decimal tport ++ 10 ∷ rest)))))

-- The pieces of a rule before its listen address.
abbrev head_of : Text → Text → List Text
head_of table chain = text "add rule ip " ∷ table ∷ text " " ∷ chain ∷ text " ip daddr " ∷ []

render_rule-append :
    (table chain : Text) (lip : Ipv4Addr) (dport : Text) (lport : ℕ) (tip : Ipv4Addr) (tport : ℕ)
    (rest : Text)
    → render_rule table chain lip dport lport tip tport ++ 10 ∷ rest
      ≡ append_all (head_of table chain) (show_ipv4 lip ++ after_address dport lport tip tport rest)
unfolding render_rule
render_rule-append table chain lip dport lport tip tport rest =
    concat-append
      (text "add rule ip "
        ∷ table
        ∷ text " "
        ∷ chain
        ∷ text " ip daddr "
        ∷ show_ipv4 lip
        ∷ dport
        ∷ decimal lport
        ∷ text " dnat to "
        ∷ show_ipv4 tip
        ∷ text ":"
        ∷ decimal tport
        ∷ [])
      (10 ∷ rest)

after_port :
    (lport lport' : ℕ) (tip tip' : Ipv4Addr) (tport tport' : ℕ) (rest rest' : Text)
    → after_address [] lport tip tport rest ≡ after_address [] lport' tip' tport' rest'
    → (lport ≡ lport') × (tip ≡ tip') × (tport ≡ tport') × (rest ≡ rest')
unfolding text
after_port lport lport' tip tip' tport tport' rest rest' e =
    let (same_port, e1) = decimal_before b' ' lport lport' _ _ (λ d. omega arith) e in
    let (same_ip, e2) =
      show_ipv4_before b':' tip tip' _ _ (λ d. omega arith)
        (append_cancel_left (text "dnat to ") _ _ e1) in
    let (same_target, e3) = decimal_before 10 tport tport' rest rest' (λ d. omega arith) e2 in
    (same_port, same_ip, same_target, e3)

-- The listen address of two lines is the same, and so is what follows.
after_head :
    (table chain : Text) (d d' : Text) (lip lip' : Ipv4Addr) (lport lport' : ℕ)
    (tip tip' : Ipv4Addr) (tport tport' : ℕ) (rest rest' : Text)
    → render_rule table chain lip (b' ' ∷ d) lport tip tport ++ 10 ∷ rest
      ≡ render_rule table chain lip' (b' ' ∷ d') lport' tip' tport' ++ 10 ∷ rest'
    → (lip ≡ lip')
      × (after_address d lport tip tport rest ≡ after_address d' lport' tip' tport' rest')
after_head table chain d d' lip lip' lport lport' tip tip' tport tport' rest rest' e =
    show_ipv4_before b' ' lip lip' _ _ (λ i. omega arith)
      (append_all_cancel (head_of table chain) _ _ (
        sym (render_rule-append table chain lip (b' ' ∷ d) lport tip tport rest)
        ∙ e
        ∙ render_rule-append table chain lip' (b' ' ∷ d') lport' tip' tport' rest'))

-- A line tells its rule.
pub render-line :
    (table chain : Text) (r r' : NftRule) (rest rest' : Text)
    → writeln_all (render r table chain) rest ≡ writeln_all (render r' table chain) rest'
    → (r ≡ r') × (rest ≡ rest')
unfolding render writeln_all text
render-line table chain (tcp lip lport tip tport) (tcp lip' lport' tip' tport') rest rest' e =
    let (a, e1) =
      after_head table chain (text "tcp dport ") (text "tcp dport ") lip lip' lport lport' tip tip'
        tport tport' rest rest' e in
    let (b, c, d, same) =
      after_port lport lport' tip tip' tport tport' rest rest'
        (append_cancel_left (text "tcp dport ") _ _ e1) in
    (ground (arith, a, b, c, d), same)
render-line table chain (udp lip lport tip tport) (udp lip' lport' tip' tport') rest rest' e =
    let (a, e1) =
      after_head table chain (text "udp dport ") (text "udp dport ") lip lip' lport lport' tip tip'
        tport tport' rest rest' e in
    let (b, c, d, same) =
      after_port lport lport' tip tip' tport tport' rest rest'
        (append_cancel_left (text "udp dport ") _ _ e1) in
    (ground (arith, a, b, c, d), same)
render-line table chain (tcp lip lport tip tport) (udp lip' lport' tip' tport') rest rest' e =
    let (a, e1) =
      after_head table chain (text "tcp dport ") (text "udp dport ") lip lip' lport lport' tip tip'
        tport tport' rest rest' e in
    absurd (ground (arith, e1))
render-line table chain (udp lip lport tip tport) (tcp lip' lport' tip' tport') rest rest' e =
    let (a, e1) =
      after_head table chain (text "udp dport ") (text "tcp dport ") lip lip' lport lport' tip tip'
        tport tport' rest rest' e in
    absurd (ground (arith, e1))
