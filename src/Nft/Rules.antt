-- ===== src/Nft/Rules.antt =====
-- Which rules and masquerade targets `NftRuleset::from_tunnels` of src/nft.rs builds.
use mathlib.Core.List.{append-nil, append_assoc}
use vorto.Prelude.{◌≡◌, refl, false, Option, none, some, List, [], ◌∷◌, ◌++◌, arith, All, is_empty}
use vorto.Net.{Ipv4Addr, SocketAddr, v4, v6, parse_socket_addr}
use vorto.Result.{ok, >>=-eq-ok}
use vorto.Config.Tunnel.{Protocol, TunnelConfig, supports_tcp, supports_udp}
use vorto.Config.NftTunnel.{IsNftTunnel}
use vorto.Nft.Names.{NftNames}
use vorto.Nft.Ruleset.{
  NftRule, NftRuleset, Endpoint, endpoints, rules_of, add_target, build, from_tunnels,
  sort_unstable, has_no_rules,
}

endpoints_sound :
    (t : TunnelConfig) (l r : Endpoint)
    → endpoints t ≡ ok (l, r)
    → (v : IsNftTunnel t) × (v.listen ≡ l) × (v.target ≡ r)
unfolding endpoints
endpoints_sound t l r h = go (parse_socket_addr t.listen) (parse_socket_addr t.target) refl refl
  where
    go :
        (x y : Option SocketAddr)
        → parse_socket_addr t.listen ≡ x
        → parse_socket_addr t.target ≡ y
        → (v : IsNftTunnel t) × (v.listen ≡ l) × (v.target ≡ r)
    go none y ex ey = ground arith
    go (some x) none ex ey = ground arith
    go (some (v6 gs p s)) (some y) ex ey = ground arith
    go (some (v4 ip p)) (some (v6 gs q s)) ex ey = ground arith
    go (some (v4 ip p)) (some (v4 jp q)) ex ey = (
      record {
        listen = (ip, p);
        target = (jp, q);
        listens = ground arith;
        targets = ground arith;
        specific = ground arith;
      },
      ground arith,
      ground arith,
    )

endpoints_complete : (t : TunnelConfig) (v : IsNftTunnel t) → endpoints t ≡ ok (v.listen, v.target)
unfolding endpoints
endpoints_complete t v = go (parse_socket_addr t.listen) (parse_socket_addr t.target) refl refl
  where
    go :
        (x y : Option SocketAddr)
        → parse_socket_addr t.listen ≡ x
        → parse_socket_addr t.target ≡ y
        → endpoints t ≡ ok (v.listen, v.target)
    go none y ex ey = ground (arith, v.listens)
    go (some x) none ex ey = ground (arith, v.targets)
    go (some (v6 gs p s)) (some y) ex ey = ground (arith, v.listens)
    go (some (v4 ip p)) (some (v6 gs q s)) ex ey = ground (arith, v.targets)
    go (some (v4 ip p)) (some (v4 jp q)) ex ey = ground (arith, v.listens, v.targets, v.specific)

-- The rules of all tunnels, in the tunnels' order.
abbrev pub all_rules : (ts : List TunnelConfig) → All IsNftTunnel ts → List NftRule
all_rules [] v = []
all_rules (t ∷ ts) (v, vs) = rules_of t v.listen v.target ++ all_rules ts vs

-- The targets that are not loopback addresses, none twice.
abbrev pub all_targets :
    List Ipv4Addr → (ts : List TunnelConfig) → All IsNftTunnel ts → List Ipv4Addr
all_targets ips [] v = ips
all_targets ips (t ∷ ts) (v, vs) = all_targets (add_target v.target.0 ips) ts vs

build_sound :
    (rules : List NftRule) (ips : List Ipv4Addr) (ts : List TunnelConfig)
    (r : List NftRule × List Ipv4Addr)
    → build rules ips ts ≡ ok r
    → All IsNftTunnel ts
unfolding build
build_sound rules ips [] r h = tt
build_sound rules ips (t ∷ ts) r h =
    let ((l, e), found, h1) = >>=-eq-ok (endpoints t) _ h in
    (
      (endpoints_sound t l e found).0,
      build_sound (rules ++ rules_of t l e) (add_target e.0 ips) ts r h1,
    )

build_complete :
    (rules : List NftRule) (ips : List Ipv4Addr) (ts : List TunnelConfig) (v : All IsNftTunnel ts)
    → build rules ips ts ≡ ok (rules ++ all_rules ts v, all_targets ips ts v)
unfolding build
build_complete rules ips [] v = rw append-nil
build_complete rules ips (t ∷ ts) (v, vs) =
    rw (endpoints_complete t v, ← append_assoc)
      (build_complete (rules ++ rules_of t v.listen v.target) (add_target v.target.0 ips) ts vs)

-- A ruleset is built exactly for IPv4 tunnels that listen at specific addresses, and it holds their
-- rules in order and their targets sorted.
pub from_tunnels_sound :
    (ts : List TunnelConfig) (names : NftNames) (r : NftRuleset)
    → from_tunnels ts names ≡ ok r
    → All IsNftTunnel ts
unfolding from_tunnels
from_tunnels_sound ts names r h =
    let (found, built, _) = >>=-eq-ok (build [] [] ts) _ h in build_sound [] [] ts found built

pub from_tunnels_complete :
    (ts : List TunnelConfig) (names : NftNames) (v : All IsNftTunnel ts)
    → from_tunnels ts names
      ≡ ok (record {
        names = names;
        rules = all_rules ts v;
        masquerade_targets = sort_unstable (all_targets [] ts v);
      })
from_tunnels_complete ts names v = unfold from_tunnels in rw (build_complete [] [] ts v)

module _ (ts : List TunnelConfig) (names : NftNames) (r : NftRuleset) (v : All IsNftTunnel ts)
    (h : from_tunnels ts names ≡ ok r) where
  pub rules_of_all : r.rules ≡ all_rules ts v
  rules_of_all = ground (arith, from_tunnels_complete ts names v)

  pub masquerade_targets_of : r.masquerade_targets ≡ sort_unstable (all_targets [] ts v)
  masquerade_targets_of = ground (arith, from_tunnels_complete ts names v)

  pub names_of_all : r.names ≡ names
  names_of_all = ground (arith, from_tunnels_complete ts names v)

rules_of-ne-nil :
    (t : TunnelConfig) (l g : Endpoint) (rs : List NftRule)
    → is_empty (rules_of t l g ++ rs) ≡ false
unfolding rules_of supports_tcp supports_udp
rules_of-ne-nil t l g rs = go t.protocol refl
  where
    go : (p : Protocol) → t.protocol ≡ p → is_empty (rules_of t l g ++ rs) ≡ false
    go Protocol.tcp e = ground arith
    go Protocol.udp e = ground arith
    go Protocol.both e = ground arith

is_empty-all_rules :
    (ts : List TunnelConfig) (v : All IsNftTunnel ts) → is_empty (all_rules ts v) ≡ is_empty ts
is_empty-all_rules [] v = refl
is_empty-all_rules (t ∷ ts) (v, vs) = rules_of-ne-nil t v.listen v.target (all_rules ts vs)

-- A ruleset that was built has no rules exactly if there are no tunnels.
pub has_no_rules-from_tunnels :
    (ts : List TunnelConfig) (names : NftNames) (r : NftRuleset)
    → from_tunnels ts names ≡ ok r
    → has_no_rules r ≡ is_empty ts
unfolding has_no_rules
has_no_rules-from_tunnels ts names r h =
    let v = from_tunnels_sound ts names r h in
    rw (rules_of_all ts names r v h) (is_empty-all_rules ts v)
