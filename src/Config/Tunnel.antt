-- ===== src/Config/Tunnel.antt =====
-- `Protocol`, `AppMode`, `TunnelConfig` and `AppConfig` of src/config.rs, with the operations on one
-- tunnel.
use vorto.Prelude.{Bool, true, false, List, [], ◌++◌, keep_if, is_empty, ℕ_discrete}
use vorto.Text.{Text, text, trim}
use vorto.Net.{parse_socket_addr, addr_error}
use vorto.Result.{AppResult, AppError, io, ErrorKind, ok, ◌>>=◌, ◌>>◌, fail_if, ok_or}

pub data Protocol : Type 0 where
  tcp udp both : Protocol

pub data AppMode : Type 0 where
  socket nft : AppMode

pub record TunnelConfig : Type 0 where
  pub name : Text
  pub listen : Text
  pub target : Text
  pub protocol : Protocol
  pub enabled : Bool

pub record AppConfig : Type 0 where
  pub daemon_log : Bool
  pub mode : AppMode
  pub tunnels : List TunnelConfig

-- The derived `PartialEq`.
unfoldable pub AppMode-discrete : Discrete AppMode
AppMode-discrete = hlevel

unfoldable pub TunnelConfig-discrete : Discrete TunnelConfig
unfolding ℕ_discrete
TunnelConfig-discrete = hlevel ℕ_discrete

unfoldable pub TunnelConfigs-discrete : Discrete (List TunnelConfig)
unfolding ℕ_discrete
TunnelConfigs-discrete = hlevel ℕ_discrete

unfoldable pub AppConfig-discrete : Discrete AppConfig
unfolding ℕ_discrete
AppConfig-discrete = hlevel ℕ_discrete

unfoldable pub supports_tcp : Protocol → Bool
supports_tcp tcp = true
supports_tcp udp = false
supports_tcp both = true

unfoldable pub supports_udp : Protocol → Bool
supports_udp tcp = false
supports_udp udp = true
supports_udp both = true

unfoldable pub protocol_label : Protocol → Text
protocol_label tcp = text "tcp"
protocol_label udp = text "udp"
protocol_label both = text "both"

unfoldable pub mode_label : AppMode → Text
mode_label socket = text "socket"
mode_label nft = text "nft"

-- `TunnelConfig::default`.
abbrev pub default_tunnel : TunnelConfig
default_tunnel = record {
  name = [];
  listen = text "0.0.0.0:0";
  target = text "127.0.0.1:0";
  protocol = tcp;
  enabled = true;
}

-- The derived `AppConfig::default`.
abbrev pub default_config : AppConfig
default_config = record { daemon_log = false; mode = socket; tunnels = [] }

unfoldable pub enabled_tunnels : AppConfig → List TunnelConfig
enabled_tunnels c = keep_if (λ t. t.enabled) c.tunnels

abbrev pub invalid_listen : Text → AppError
invalid_listen listen =
    io ErrorKind.invalid_input (text "Invalid listen address " ++ listen ++ text ": " ++ addr_error)

abbrev pub invalid_target : Text → AppError
invalid_target target =
    io ErrorKind.invalid_input (text "Invalid target address " ++ target ++ text ": " ++ addr_error)

-- `TunnelConfig::validate`.
unfoldable pub validate : TunnelConfig → AppResult (Unit {0})
validate t = do
  fail_if (is_empty (trim t.name))
      (io ErrorKind.invalid_input (text "Tunnel name cannot be empty."))
  listen ← ok_or (parse_socket_addr t.listen) (invalid_listen t.listen)
  target ← ok_or (parse_socket_addr t.target) (invalid_target t.target)
  ok tt
