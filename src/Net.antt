-- ===== src/Net.antt =====
-- `std::net` as the program uses it: socket addresses, their parser and their display.
pub mod Parser
pub mod Display
pub use Parser.{Ipv4Addr, SocketAddr, v4, v6}
unfoldable pub use Parser.{parse_socket_addr}
use vorto.Prelude.{Bool, ◌&&◌, ◌∷◌, ◌++◌, ◌==◌, ℕ_discrete}
use vorto.Text.{Text, text, decimal}

unfoldable pub Ipv4Addr-discrete : Discrete Ipv4Addr
unfolding ℕ_discrete
Ipv4Addr-discrete = hlevel ℕ_discrete

-- `Ipv4Addr::is_unspecified`: 0.0.0.0.
unfoldable pub is_unspecified : Ipv4Addr → Bool
is_unspecified ip = ip.a == 0 && ip.b == 0 && ip.c == 0 && ip.d == 0

-- `Ipv4Addr::is_loopback`: 127.0.0.0/8.
unfoldable pub is_loopback : Ipv4Addr → Bool
is_loopback ip = ip.a == 127

-- `Display` of an `Ipv4Addr`.
unfoldable pub show_ipv4 : Ipv4Addr → Text
unfolding decimal
show_ipv4 ip = decimal ip.a ++ b'.' ∷ (decimal ip.b ++ b'.' ∷ (decimal ip.c ++ b'.' ∷ decimal ip.d))

-- `Display` of an `AddrParseError` of a socket address.
abbrev pub addr_error : Text
addr_error = text "invalid socket address syntax"
