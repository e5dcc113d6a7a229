-- ===== src/Nft/Ruleset.antt =====
-- `NftRule` and `NftRuleset` of src/nft.rs.
use vorto.Prelude.{
  ℕ, Bool, not, ◌&&◌, ◌||◌, List, [], ◌∷◌, ◌++◌, contains, is_empty, ltb, leb, ◌==◌, if◌then◌else◌,
}
use vorto.Text.{text}
use vorto.Net.{Ipv4Addr, Ipv4Addr-discrete, parse_socket_addr, is_unspecified, is_loopback}
use vorto.Result.{AppResult, addr_parse, ok, ◌>>=◌, ◌>>◌, fail_if, ok_or}
use vorto.Config.Tunnel.{TunnelConfig, supports_tcp, supports_udp}
use vorto.Config.Nft.{expect_v4, invalid}
use vorto.Nft.Names.{NftNames}

-- The listen address and port, and the target address and port.
pub data NftRule : Type 0 where
  tcp udp : Ipv4Addr → ℕ → Ipv4Addr → ℕ → NftRule

pub record NftRuleset : Type 0 where
  pub names : NftNames
  pub rules : List NftRule
  pub masquerade_targets : List Ipv4Addr

-- The order of `Ipv4Addr`: octet by octet.
unfoldable pub ip_le : Ipv4Addr → Ipv4Addr → Bool
ip_le x y =
    ltb x.a y.a
    || (x.a == y.a && (ltb x.b y.b || (x.b == y.b && (ltb x.c y.c || (x.c == y.c && leb x.d y.d)))))

unfoldable pub insert_sorted : Ipv4Addr → List Ipv4Addr → List Ipv4Addr
unfolding ip_le
insert_sorted x [] = x ∷ []
insert_sorted x (y ∷ ys) = if ip_le x y then x ∷ y ∷ ys else y ∷ insert_sorted x ys

-- `sort_unstable`; the order of equal addresses cannot be seen.
unfoldable pub sort_unstable : List Ipv4Addr → List Ipv4Addr
unfolding insert_sorted
sort_unstable [] = []
sort_unstable (x ∷ xs) = insert_sorted x (sort_unstable xs)

-- `HashSet::insert`.
unfoldable pub insert_target : Ipv4Addr → List Ipv4Addr → List Ipv4Addr
insert_target ip ips = if contains Ipv4Addr-discrete ips ip then ips else ip ∷ ips

abbrev pub Endpoint : Type 0
Endpoint = Ipv4Addr × ℕ

-- The endpoints of one tunnel, or the error that ends the construction.
unfoldable pub endpoints : TunnelConfig → AppResult (Endpoint × Endpoint)
endpoints t = do
  listen ← ok_or (parse_socket_addr t.listen) addr_parse
  target ← ok_or (parse_socket_addr t.target) addr_parse
  listen_v4 ←
      expect_v4 listen (invalid (text "nft mode only supports IPv4 listen addresses: ") t.listen)
  target_v4 ←
      expect_v4 target (invalid (text "nft mode only supports IPv4 target addresses: ") t.target)
  fail_if (is_unspecified listen_v4.0)
      (invalid (text "nft mode requires a specific IPv4 listen address, not ") t.listen)
  ok (listen_v4, target_v4)

-- The rules that one tunnel pushes.
unfoldable pub rules_of : TunnelConfig → Endpoint → Endpoint → List NftRule
rules_of t (lip, lport) (tip, tport) =
    (if supports_tcp t.protocol then tcp lip lport tip tport ∷ [] else [])
    ++ (if supports_udp t.protocol then udp lip lport tip tport ∷ [] else [])

unfoldable pub add_target : Ipv4Addr → List Ipv4Addr → List Ipv4Addr
unfolding insert_target
add_target ip targets = if not (is_loopback ip) then insert_target ip targets else targets

-- The loop over the tunnels, with the rules and the targets so far.
unfoldable pub build :
    List NftRule → List Ipv4Addr → List TunnelConfig → AppResult (List NftRule × List Ipv4Addr)
build rules targets [] = ok (rules, targets)
build rules targets (t ∷ ts) = do
  (listen, target) ← endpoints t
  build (rules ++ rules_of t listen target) (add_target target.0 targets) ts

-- `NftRuleset::from_tunnels`.
unfoldable pub from_tunnels : List TunnelConfig → NftNames → AppResult NftRuleset
unfolding build endpoints rules_of add_target sort_unstable
from_tunnels tunnels names = do
  (rules, targets) ← build [] [] tunnels
  ok (record { names = names; rules = rules; masquerade_targets = sort_unstable targets })

-- `NftRuleset::is_empty`.
unfoldable pub has_no_rules : NftRuleset → Bool
has_no_rules r = is_empty r.rules
