-- ===== src/Nft/Forwarding.antt =====
-- What the rules of src/nft.rs do to a connection: the first rule whose listen endpoint and transport
-- fit rewrites the destination.
use mathlib.Core.Option.{some-injective}
use vorto.Prelude.{
  ◌≡◌, refl, sym, ap, ◌∙◌, ◌⊎◌, inl, inr, Bool, true, Option, none, some, List, [], ◌∷◌, ◌++◌,
  arith, All, is_yes, Bool-cases, ℕ_discrete, if◌then◌else◌,
}
use vorto.Result.{ok}
use vorto.Config.Tunnel.{
  Protocol, nft, TunnelConfig, AppConfig, supports_tcp, supports_udp, enabled_tunnels,
}
use vorto.Config.NftTunnel.{IsNftTunnel, AllApart, Apart, share_transport}
use vorto.Config.Validate.{validate}
use vorto.Config.Valid.{validate_iff}
use vorto.Nft.Names.{NftNames}
use vorto.Nft.Ruleset.{NftRule, tcp, udp, NftRuleset, Endpoint, rules_of, from_tunnels}
use vorto.Nft.Rules.{all_rules, from_tunnels_complete}

pub data Transport : Type 0 where
  over_tcp over_udp : Transport

abbrev pub serves : Transport → Protocol → Bool
serves over_tcp p = supports_tcp p
serves over_udp p = supports_udp p

abbrev pub Destination : Type 0
Destination = Transport × Endpoint

unfoldable pub Destination-discrete : Discrete Destination
unfolding ℕ_discrete
Destination-discrete = hlevel ℕ_discrete

abbrev destination_of : NftRule → Destination
destination_of (tcp lip lport tip tport) = (over_tcp, (lip, lport))
destination_of (udp lip lport tip tport) = (over_udp, (lip, lport))

abbrev target_of : NftRule → Endpoint
target_of (tcp lip lport tip tport) = (tip, tport)
target_of (udp lip lport tip tport) = (tip, tport)

-- The chain of `dnat` rules.
unfoldable pub translate : List NftRule → Destination → Option Endpoint
translate [] d = none
translate (r ∷ rs) d =
    if is_yes (Destination-discrete d (destination_of r))
    then some (target_of r)
    else translate rs d

-- `t` asks for connections to `d`.
abbrev pub Takes : TunnelConfig → Endpoint → Destination → Type 0
Takes t listen (tr, e) = (serves tr t.protocol ≡ true) × (e ≡ listen)

translate-rules_of :
    (t : TunnelConfig) (l g : Endpoint) (rs : List NftRule) (d : Destination)
    → (Takes t l d × (translate (rules_of t l g ++ rs) d ≡ some g))
      ⊎ ((¬ Takes t l d) × (translate (rules_of t l g ++ rs) d ≡ translate rs d))
unfolding translate rules_of
translate-rules_of t (lip, lport) (tip, tport) rs (over_tcp, e) =
    elim (Destination-discrete (over_tcp, e) (over_tcp, (lip, lport))) [
      | no p ↦ inr ((λ h. p (ap (λ (x : Endpoint). (over_tcp, x)) h.1)), ground arith)
      | yes p ↦ elim (Bool-cases (supports_tcp t.protocol)) [
        | inl s ↦ inl ((s, ground arith), ground arith)
        | inr s ↦ inr ((λ h. ground arith), ground arith)
      ]
    ]
translate-rules_of t (lip, lport) (tip, tport) rs (over_udp, e) =
    elim (Destination-discrete (over_udp, e) (over_udp, (lip, lport))) [
      | no p ↦ inr ((λ h. p (ap (λ (x : Endpoint). (over_udp, x)) h.1)), ground arith)
      | yes p ↦ elim (Bool-cases (supports_udp t.protocol)) [
        | inl s ↦ inl ((s, ground arith), ground arith)
        | inr s ↦ inr ((λ h. ground arith), ground arith)
      ]
    ]

-- Each tunnel's connections go to its target.
abbrev pub Forwards : List NftRule → (ts : List TunnelConfig) → All IsNftTunnel ts → Type 0
Forwards rules [] v = Unit
Forwards rules (t ∷ ts) (v, vs) =
    ((tr : Transport)
      → serves tr t.protocol ≡ true
      → translate rules (tr, v.listen) ≡ some v.target)
    × Forwards rules ts vs

-- Some tunnel takes `d` and has the target `g`.
abbrev pub IsWanted :
    (ts : List TunnelConfig) → All IsNftTunnel ts → Destination → Endpoint → Type 0
IsWanted [] v d g = ⊥
IsWanted (t ∷ ts) (v, vs) d g = (Takes t v.listen d × (g ≡ v.target)) ⊎ IsWanted ts vs d g

share_of_serves :
    (tr : Transport) (p q : Protocol)
    → serves tr p ≡ true
    → serves tr q ≡ true
    → share_transport p q ≡ true
share_of_serves over_tcp p q hp hq = ground arith
share_of_serves over_udp p q hp hq = ground arith

module _ (t : TunnelConfig) (v : IsNftTunnel t) where
  Forwards-later :
      (rules : List NftRule) (ts : List TunnelConfig) (vs : All IsNftTunnel ts)
      → All (Apart t) ts
      → Forwards rules ts vs
      → Forwards (rules_of t v.listen v.target ++ rules) ts vs
  Forwards-later rules [] vs a f = tt
  Forwards-later rules (u ∷ us) (w, ws) (a, as') (f, fs) =
      (first, Forwards-later rules us ws as' fs)
    where
      first :
          (tr : Transport)
          → serves tr u.protocol ≡ true
          → translate (rules_of t v.listen v.target ++ rules) (tr, w.listen) ≡ some w.target
      first tr s = elim (translate-rules_of t v.listen v.target rules (tr, w.listen)) [
        | inr (_, e) ↦ e ∙ f tr s
        | inl ((st, same), _) ↦ absurd (
            a (share_of_serves tr t.protocol u.protocol st s)
              (v.listens ∙ ap some (sym same) ∙ sym w.listens))
      ]

all_rules-Forwards :
    (ts : List TunnelConfig) (v : All IsNftTunnel ts) → AllApart ts → Forwards (all_rules ts v) ts v
all_rules-Forwards [] v a = tt
all_rules-Forwards (t ∷ ts) (v, vs) (a, as') =
    (first, Forwards-later t v (all_rules ts vs) ts vs a (all_rules-Forwards ts vs as'))
  where
    first :
        (tr : Transport)
        → serves tr t.protocol ≡ true
        → translate (rules_of t v.listen v.target ++ all_rules ts vs) (tr, v.listen) ≡ some v.target
    first tr s = elim (translate-rules_of t v.listen v.target (all_rules ts vs) (tr, v.listen)) [
      | inl (_, e) ↦ e
      | inr (h, _) ↦ absurd (h (s, refl))
    ]

all_rules-IsWanted :
    (ts : List TunnelConfig) (v : All IsNftTunnel ts) (d : Destination) (g : Endpoint)
    → translate (all_rules ts v) d ≡ some g
    → IsWanted ts v d g
unfolding translate
all_rules-IsWanted [] v d g h = ground arith
all_rules-IsWanted (t ∷ ts) (v, vs) d g h =
    elim (translate-rules_of t v.listen v.target (all_rules ts vs) d) [
      | inl (takes, e) ↦ inl (takes, some-injective _ _ (sym h ∙ e))
      | inr (_, e) ↦ inr (all_rules-IsWanted ts vs d g (sym e ∙ h))
    ]

-- What the rules for a validated configuration do.
pub record IsForwarder (ts : List TunnelConfig) (r : NftRuleset) : Type 0 where
  pub tunnels : All IsNftTunnel ts
  pub forwards : Forwards r.rules ts tunnels
  pub wanted :
      (d : Destination) (g : Endpoint) → translate r.rules d ≡ some g → IsWanted ts tunnels d g

-- For a configuration in nft mode that `validate` accepts, the ruleset is built. It sends the
-- connections of every enabled tunnel to the target of that tunnel, and it translates no
-- destination but those of the enabled tunnels.
pub from_tunnels-IsForwarder :
    (c : AppConfig) (names : NftNames)
    → c.mode ≡ nft
    → validate c ≡ ok tt
    → (r : NftRuleset) × (from_tunnels (enabled_tunnels c) names ≡ ok r)
      × IsForwarder (enabled_tunnels c) r
from_tunnels-IsForwarder c names m h =
    let n = ((validate_iff c).0 h).nft_mode m in
    (
      _,
      from_tunnels_complete (enabled_tunnels c) names n.tunnels,
      record {
        tunnels = n.tunnels;
        forwards = all_rules-Forwards (enabled_tunnels c) n.tunnels n.apart;
        wanted = all_rules-IsWanted (enabled_tunnels c) n.tunnels;
      },
    )
