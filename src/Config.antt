-- ===== src/Config.antt =====
-- The data of src/config.rs, and its decoding from YAML. Validation, loading and saving are the
-- children.
pub mod Tunnel
pub mod Nft
pub mod Validate
pub mod Valid
pub mod Elsewhere
pub mod NftTunnel
pub mod NftValid
pub mod Store
pub mod Saved
pub use Tunnel.{
  Protocol, tcp, udp, both, AppMode, socket, nft, TunnelConfig, AppConfig, TunnelConfig-discrete,
  TunnelConfigs-discrete, AppConfig-discrete, AppMode-discrete,
}
unfoldable pub use Tunnel.{supports_tcp, supports_udp, enabled_tunnels}
