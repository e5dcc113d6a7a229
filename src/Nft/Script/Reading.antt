-- ===== src/Nft/Script/Reading.antt =====
-- What the script of src/nft.rs tells: under the same names, two rulesets with one script have the same
-- rules and the same targets.
use mathlib.Core.List.{append_cancel_left}
use vorto.Prelude.{◌≡◌, refl, sym, subst, ◌∙◌, List, [], ◌∷◌, ◌++◌, arith}
use vorto.Text.{Text, text}
use vorto.Net.{Ipv4Addr, show_ipv4}
use vorto.Net.Display.{show_ipv4_before}
use vorto.Nft.Names.{NftNames}
use vorto.Nft.Ruleset.{NftRule, tcp, udp, NftRuleset}
use vorto.Nft.Script.{
  concat, add_chain, render_rule, render, writeln, writeln_all, write_rules, write_elements,
  write_masquerade, render_rest, render_script,
}
use vorto.Nft.Script.Lines.{append_all, concat-append, append_all_cancel, render-line}

write_rules-cons :
    (names : NftNames) (r : NftRule) (rs : List NftRule)
    → (t : Text) × (write_rules names (r ∷ rs) [] ≡ text "add r" ++ t)
unfolding write_rules render render_rule writeln_all text
write_rules-cons names (tcp lip lport tip tport) rs = (_, refl)
write_rules-cons names (udp lip lport tip tport) rs = (_, refl)

nothing-starts : (t : Text) → [] ≡ text "add r" ++ t → ⊥
unfolding text
nothing-starts t e = cc

write_rules_injective :
    (names : NftNames) (rs rs' : List NftRule)
    → write_rules names rs [] ≡ write_rules names rs' []
    → rs ≡ rs'
unfolding write_rules
write_rules_injective names [] [] e = refl
write_rules_injective names [] (r ∷ rs') e =
    let (t, starts) = write_rules-cons names r rs' in absurd (nothing-starts t (e ∙ starts))
write_rules_injective names (r ∷ rs) [] e =
    let (t, starts) = write_rules-cons names r rs in absurd (nothing-starts t (sym e ∙ starts))
write_rules_injective names (r ∷ rs) (r' ∷ rs') e =
    let (same, e1) = render-line names.table names.prerouting_chain r r' _ _ e in
    let (_, e2) = render-line names.table names.output_chain r r' _ _ e1 in
    ground (arith, same, write_rules_injective names rs rs' e2)

-- The line of a target, and what follows.
abbrev element_head : NftNames → List Text
element_head names =
    text "add element ip " ∷ names.table ∷ text " " ∷ names.target_set ∷ text " { " ∷ []

write_elements-cons :
    (names : NftNames) (ip : Ipv4Addr) (ips : List Ipv4Addr) (rest : Text)
    → write_elements names (ip ∷ ips) rest
      ≡ append_all
          (element_head names)
          (show_ipv4 ip ++ (text " }" ++ 10 ∷ write_elements names ips rest))
unfolding write_elements
write_elements-cons names ip ips rest =
    concat-append
      (text "add element ip "
        ∷ names.table
        ∷ text " "
        ∷ names.target_set
        ∷ text " { "
        ∷ show_ipv4 ip
        ∷ text " }"
        ∷ [])
      (10 ∷ write_elements names ips rest)

-- An element is no rule.
element-differs :
    (names : NftNames) (x y : Text) → append_all (element_head names) x ≡ text "add r" ++ y → ⊥
unfolding text
element-differs names x y e = ground arith

element_end :
    (ip jp : Ipv4Addr) (s t : Text)
    → show_ipv4 ip ++ (text " }" ++ 10 ∷ s) ≡ show_ipv4 jp ++ (text " }" ++ 10 ∷ t)
    → (ip ≡ jp) × (s ≡ t)
unfolding text
element_end ip jp s t e =
    let (same, e1) = show_ipv4_before b' ' ip jp _ _ (λ d. omega arith) e in
    (same, ground (arith, e1))

write_elements_injective :
    (names : NftNames) (ips jps : List Ipv4Addr) (x y : Text)
    → write_elements names ips (text "add r" ++ x) ≡ write_elements names jps (text "add r" ++ y)
    → (ips ≡ jps) × (x ≡ y)
unfolding write_elements
write_elements_injective names [] [] x y e = (refl, append_cancel_left (text "add r") x y e)
write_elements_injective names [] (jp ∷ jps) x y e =
    absurd (element-differs names _ x (sym (write_elements-cons names jp jps _) ∙ sym e))
write_elements_injective names (ip ∷ ips) [] x y e =
    absurd (element-differs names _ y (sym (write_elements-cons names ip ips _) ∙ e))
write_elements_injective names (ip ∷ ips) (jp ∷ jps) x y e =
    let e1 =
      append_all_cancel (element_head names) _ _
        (sym (write_elements-cons names ip ips _) ∙ e ∙ write_elements-cons names jp jps _) in
    let (same, e2) = element_end ip jp _ _ e1 in
    let (all_same, e3) = write_elements_injective names ips jps x y e2 in
    (ground (arith, same, all_same), e3)

line_cancel : (line s t : Text) → writeln line s ≡ writeln line t → s ≡ t
line_cancel line s t e = ground (arith, append_cancel_left line (10 ∷ s) (10 ∷ t) e)

abbrev set_line : NftNames → Text
set_line names = concat (
    text "add set ip "
    ∷ names.table
    ∷ text " "
    ∷ names.target_set
    ∷ text " { type ipv4_addr; flags interval; }"
    ∷ [])

-- The line that masquerades, after its first letters.
abbrev masquerade_end : NftNames → Text
masquerade_end names =
    text "ule ip "
    ++ concat (
        names.table
        ∷ text " "
        ∷ names.postrouting_chain
        ∷ text " ip daddr @"
        ∷ names.target_set
        ∷ text " masquerade"
        ∷ [])

write_masquerade-cons :
    (names : NftNames) (ip : Ipv4Addr) (ips : List Ipv4Addr) (rest : Text)
    → write_masquerade names (ip ∷ ips) rest
      ≡ set_line names
        ++ 10
          ∷ write_elements names (ip ∷ ips) (text "add r" ++ (masquerade_end names ++ 10 ∷ rest))
unfolding write_masquerade text
write_masquerade-cons names ip ips rest = refl

rules-no_set :
    (names : NftNames) (rs : List NftRule) (x : Text)
    → write_rules names rs [] ≡ set_line names ++ x
    → ⊥
unfolding text write_rules
rules-no_set names [] x e = absurd (ground (arith, e))
rules-no_set names (r ∷ rs) x e =
    let (t, starts) = write_rules-cons names r rs in ground (arith, sym starts ∙ e)

write_masquerade_injective :
    (names : NftNames) (ips jps : List Ipv4Addr) (rs rs' : List NftRule)
    → write_masquerade names ips (write_rules names rs [])
      ≡ write_masquerade names jps (write_rules names rs' [])
    → (ips ≡ jps) × (rs ≡ rs')
unfolding write_masquerade
write_masquerade_injective names [] [] rs rs' e = (refl, write_rules_injective names rs rs' e)
write_masquerade_injective names [] (jp ∷ jps) rs rs' e =
    absurd
      (rules-no_set names rs _ (e ∙ write_masquerade-cons names jp jps (write_rules names rs' [])))
write_masquerade_injective names (ip ∷ ips) [] rs rs' e = absurd (
    rules-no_set names rs' _ (sym e ∙ write_masquerade-cons names ip ips (write_rules names rs [])))
write_masquerade_injective names (ip ∷ ips) (jp ∷ jps) rs rs' e =
    let e1 =
      line_cancel (set_line names) _ _
        (sym (write_masquerade-cons names ip ips _) ∙ e ∙ write_masquerade-cons names jp jps _) in
    let (same, e2) = write_elements_injective names (ip ∷ ips) (jp ∷ jps) _ _ e1 in
    (same, write_rules_injective names rs rs' (line_cancel (masquerade_end names) _ _ e2))

-- Two rulesets with the same names and the same script have the same rules, in the same order,
-- and the same masquerade targets.
pub render_script_injective :
    (r r' : NftRuleset)
    → r.names ≡ r'.names
    → render_script r ≡ render_script r'
    → (r.rules ≡ r'.rules) × (r.masquerade_targets ≡ r'.masquerade_targets)
unfolding render_script render_rest
render_script_injective r r' n e =
    let names = r.names in
    let e0 =
      subst (λ (m : NftNames). render_script r ≡ render_script (record r' { names = m })) (sym n)
        e in
    let e1 = line_cancel (text "add table ip " ++ names.table) _ _ e0 in
    let e2 =
      line_cancel
        (add_chain names.table names.prerouting_chain
          (text " { type nat hook prerouting priority -100; }"))
        _ _ e1 in
    let e3 =
      line_cancel
        (add_chain names.table names.output_chain (text " { type nat hook output priority -100; }"))
        _ _ e2 in
    let e4 =
      line_cancel
        (add_chain names.table names.postrouting_chain
          (text " { type nat hook postrouting priority 100; }"))
        _ _ e3 in
    let (targets, rules) =
      write_masquerade_injective names r.masquerade_targets r'.masquerade_targets r.rules r'.rules
        e4 in
    (rules, targets)
