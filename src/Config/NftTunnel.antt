-- ===== src/Config/NftTunnel.antt =====
-- The tunnels that `AppConfig::validate_nft_mode` of src/config.rs accepts one by one.
use vorto.Prelude.{
  ℕ, ◌≡◌, refl, ◌≢◌, Bool, true, false, ◌&&◌, ◌||◌, Option, none, some, List, [], ◌∷◌, arith, All,
}
use vorto.Text.{Text}
use vorto.Net.{Ipv4Addr, SocketAddr, v4, v6, parse_socket_addr, is_unspecified}
use vorto.Result.{ok}
use vorto.Config.Tunnel.{Protocol, TunnelConfig, supports_tcp, supports_udp}
use vorto.Config.Nft.{check_tunnel}

abbrev pub only_v4 : Option SocketAddr → Option (Ipv4Addr × ℕ)
only_v4 none = none
only_v4 (some (v4 ip port)) = some (ip, port)
only_v4 (some (v6 groups port scope)) = none

-- The IPv4 endpoint that a text denotes, if it does.
abbrev pub ipv4_of : Text → Option (Ipv4Addr × ℕ)
ipv4_of s = only_v4 (parse_socket_addr s)

-- A tunnel between IPv4 endpoints that listens at a specific address.
pub record IsNftTunnel (t : TunnelConfig) : Type 0 where
  pub listen : Ipv4Addr × ℕ
  pub target : Ipv4Addr × ℕ
  pub listens : ipv4_of t.listen ≡ some listen
  pub targets : ipv4_of t.target ≡ some target
  pub specific : is_unspecified listen.0 ≡ false

-- Whether two protocols have a transport in common.
abbrev pub share_transport : Protocol → Protocol → Bool
share_transport p q = (supports_tcp p && supports_tcp q) || (supports_udp p && supports_udp q)

-- Two tunnels do not listen at one endpoint of one transport.
abbrev pub Apart : TunnelConfig → TunnelConfig → Type 0
Apart t u = share_transport t.protocol u.protocol ≡ true → ipv4_of t.listen ≢ ipv4_of u.listen

abbrev pub AllApart : List TunnelConfig → Type 0
AllApart [] = Unit
AllApart (t ∷ ts) = All (Apart t) ts × AllApart ts

pub check_tunnel_sound :
    (t : TunnelConfig) (e : Ipv4Addr × ℕ)
    → check_tunnel t ≡ ok e
    → (v : IsNftTunnel t) × (v.listen ≡ e)
unfolding check_tunnel
check_tunnel_sound t e h = go (parse_socket_addr t.listen) (parse_socket_addr t.target) refl refl
  where
    go :
        (l r : Option SocketAddr)
        → parse_socket_addr t.listen ≡ l
        → parse_socket_addr t.target ≡ r
        → (v : IsNftTunnel t) × (v.listen ≡ e)
    go none r el er = ground arith
    go (some l) none el er = ground arith
    go (some (v6 gs p s)) (some r) el er = ground arith
    go (some (v4 ip p)) (some (v6 gs q s)) el er = ground arith
    go (some (v4 ip p)) (some (v4 jp q)) el er = (
      record {
        listen = (ip, p);
        target = (jp, q);
        listens = ground arith;
        targets = ground arith;
        specific = ground arith;
      },
      ground arith,
    )

pub check_tunnel_complete : (t : TunnelConfig) (v : IsNftTunnel t) → check_tunnel t ≡ ok v.listen
unfolding check_tunnel
check_tunnel_complete t v = go (parse_socket_addr t.listen) (parse_socket_addr t.target) refl refl
  where
    go :
        (l r : Option SocketAddr)
        → parse_socket_addr t.listen ≡ l
        → parse_socket_addr t.target ≡ r
        → check_tunnel t ≡ ok v.listen
    go none r el er = ground (arith, v.listens)
    go (some l) none el er = ground (arith, v.targets)
    go (some (v6 gs p s)) (some r) el er = ground (arith, v.listens)
    go (some (v4 ip p)) (some (v6 gs q s)) el er = ground (arith, v.targets)
    go (some (v4 ip p)) (some (v4 jp q)) el er = ground (arith, v.listens, v.targets, v.specific)
