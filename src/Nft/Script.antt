-- ===== src/Nft/Script.antt =====
-- `NftRule::render` and `NftRuleset::render_script` of src/nft.rs.
pub mod Lines
pub mod Reading
use vorto.Prelude.{ℕ, ◌≡◌, ap, List, [], ◌∷◌, ◌++◌, is_empty, if◌then◌else◌, not}
use vorto.Text.{Text, text, decimal}
use vorto.Net.{Ipv4Addr, show_ipv4}
use vorto.Nft.Names.{NftNames}
use vorto.Nft.Ruleset.{NftRule, tcp, udp, NftRuleset}

-- `writeln!`: the line, the end of line, and what is written after it.
abbrev pub writeln : Text → Text → Text
writeln line rest = line ++ 10 ∷ rest

-- Pieces of a format string in turn.
abbrev concat : List Text → Text
concat [] = []
concat (s ∷ ss) = s ++ concat ss

-- The one line of a rule in a chain.
unfoldable pub render_rule : Text → Text → Ipv4Addr → Text → ℕ → Ipv4Addr → ℕ → Text
unfolding show_ipv4
render_rule table chain listen_ip dport listen_port target_ip target_port = concat (
    text "add rule ip "
    ∷ table
    ∷ text " "
    ∷ chain
    ∷ text " ip daddr "
    ∷ show_ipv4 listen_ip
    ∷ dport
    ∷ decimal listen_port
    ∷ text " dnat to "
    ∷ show_ipv4 target_ip
    ∷ text ":"
    ∷ decimal target_port
    ∷ [])

unfoldable pub render : NftRule → Text → Text → List Text
unfolding render_rule
render (tcp lip lport tip tport) table chain =
    render_rule table chain lip (text " tcp dport ") lport tip tport ∷ []
render (udp lip lport tip tport) table chain =
    render_rule table chain lip (text " udp dport ") lport tip tport ∷ []

pub writeln_all : List Text → Text → Text
writeln_all [] rest = rest
writeln_all (line ∷ lines) rest = writeln line (writeln_all lines rest)

-- The lines of each rule, for the prerouting chain and for the output chain.
write_rules : NftNames → List NftRule → Text → Text
unfolding writeln_all render
write_rules names [] rest = rest
write_rules names (r ∷ rs) rest =
    writeln_all (render r names.table names.prerouting_chain)
      (writeln_all (render r names.table names.output_chain) (write_rules names rs rest))

write_elements : NftNames → List Ipv4Addr → Text → Text
write_elements names [] rest = rest
write_elements names (target ∷ targets) rest =
    writeln
      (concat (
        text "add element ip "
        ∷ names.table
        ∷ text " "
        ∷ names.target_set
        ∷ text " { "
        ∷ show_ipv4 target
        ∷ text " }"
        ∷ []))
      (write_elements names targets rest)

-- The set of targets and the rule that masquerades connections to them, if there are any.
write_masquerade : NftNames → List Ipv4Addr → Text → Text
unfolding write_elements
write_masquerade names targets rest =
    if not (is_empty targets)
    then writeln
        (concat (
          text "add set ip "
          ∷ names.table
          ∷ text " "
          ∷ names.target_set
          ∷ text " { type ipv4_addr; flags interval; }"
          ∷ []))
        (write_elements names targets (
          writeln
            (concat (
              text "add rule ip "
              ∷ names.table
              ∷ text " "
              ∷ names.postrouting_chain
              ∷ text " ip daddr @"
              ∷ names.target_set
              ∷ text " masquerade"
              ∷ []))
            rest))
    else rest

add_chain : Text → Text → Text → Text
add_chain table chain hook = concat (text "add chain ip " ∷ table ∷ text " " ∷ chain ∷ hook ∷ [])

-- What follows the line that adds the table.
unfoldable pub render_rest : NftRuleset → Text
unfolding add_chain write_masquerade write_rules
render_rest r =
    writeln
      (add_chain r.names.table r.names.prerouting_chain
        (text " { type nat hook prerouting priority -100; }"))
      (writeln
        (add_chain r.names.table r.names.output_chain
          (text " { type nat hook output priority -100; }"))
        (writeln
          (add_chain r.names.table r.names.postrouting_chain
            (text " { type nat hook postrouting priority 100; }"))
          (write_masquerade r.names r.masquerade_targets (write_rules r.names r.rules []))))

-- `NftRuleset::render_script`.
unfoldable pub render_script : NftRuleset → Text
unfolding render_rest
render_script r = writeln (text "add table ip " ++ r.names.table) (render_rest r)

-- The script begins by adding the table.
pub render_script-adds :
    (r : NftRuleset) (names : NftNames)
    → r.names ≡ names
    → render_script r ≡ writeln (text "add table ip " ++ names.table) (render_rest r)
unfolding render_script
render_script-adds r names e =
    ap (λ (n : NftNames). writeln (text "add table ip " ++ n.table) (render_rest r)) e
