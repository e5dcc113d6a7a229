-- ===== src/Config/Nft.antt =====
-- `AppConfig::validate_nft_mode` of src/config.rs, built for Linux.
use vorto.Prelude.{ℕ, Bool, ◌&&◌, List, [], ◌∷◌, ◌++◌, contains, ℕ_discrete, if◌then◌else◌}
use vorto.Text.{Text, text}
use vorto.Net.{Ipv4Addr, SocketAddr, v4, v6, parse_socket_addr, is_unspecified, show_ipv4}
use vorto.Result.{AppResult, AppError, io, ErrorKind, ok, err, ◌>>=◌, ◌>>◌, fail_if, ok_or}
use vorto.Config.Tunnel.{
  TunnelConfig, AppConfig, supports_tcp, supports_udp, enabled_tunnels, invalid_listen,
  invalid_target,
}

abbrev pub invalid : Text → Text → AppError
invalid message detail = io ErrorKind.invalid_input (message ++ detail)

-- `let SocketAddr::V4(v) = addr else { return Err(e) }`.
abbrev pub expect_v4 : SocketAddr → AppError → AppResult (Ipv4Addr × ℕ)
expect_v4 (v4 ip port) e = ok (ip, port)
expect_v4 (v6 groups port scope) e = err e

-- `(listen_v4.ip().to_string(), listen_v4.port())`.
abbrev pub ListenKey : Type 0
ListenKey = Text × ℕ

unfoldable pub ListenKey-discrete : Discrete ListenKey
unfolding ℕ_discrete
ListenKey-discrete = hlevel ℕ_discrete

abbrev pub listen_key : Ipv4Addr × ℕ → ListenKey
listen_key (ip, port) = (show_ipv4 ip, port)

-- The checks of one tunnel, up to the listen endpoint that it asks for.
unfoldable pub check_tunnel : TunnelConfig → AppResult (Ipv4Addr × ℕ)
check_tunnel t = do
  listen ← ok_or (parse_socket_addr t.listen) (invalid_listen t.listen)
  target ← ok_or (parse_socket_addr t.target) (invalid_target t.target)
  listen_v4 ←
      expect_v4 listen (invalid (text "nft mode only supports IPv4 listen addresses: ") t.listen)
  target_v4 ←
      expect_v4 target (invalid (text "nft mode only supports IPv4 target addresses: ") t.target)
  fail_if (is_unspecified listen_v4.0)
      (invalid (text "nft mode requires a specific IPv4 listen address, not ") t.listen)
  ok listen_v4

-- `HashSet::insert` on the endpoints taken.
abbrev pub take_if : Bool → ListenKey → List ListenKey → List ListenKey
take_if b key keys = if b then key ∷ keys else keys

-- The loop over the enabled tunnels, with the TCP and UDP endpoints taken so far.
unfoldable pub check_tunnels :
    List ListenKey → List ListenKey → List TunnelConfig → AppResult (Unit {0})
check_tunnels tcp_listens udp_listens [] = ok tt
check_tunnels tcp_listens udp_listens (t ∷ ts) = do
  listen_v4 ← check_tunnel t
  let key = listen_key listen_v4
  fail_if (supports_tcp t.protocol && contains ListenKey-discrete tcp_listens key)
      (invalid (text "Duplicate TCP listen endpoint in nft mode: ") t.listen)
  fail_if (supports_udp t.protocol && contains ListenKey-discrete udp_listens key)
      (invalid (text "Duplicate UDP listen endpoint in nft mode: ") t.listen)
  check_tunnels (take_if (supports_tcp t.protocol) key tcp_listens)
      (take_if (supports_udp t.protocol) key udp_listens) ts

unfoldable pub validate_nft_mode : AppConfig → AppResult (Unit {0})
unfolding check_tunnels
validate_nft_mode c = check_tunnels [] [] (enabled_tunnels c)
