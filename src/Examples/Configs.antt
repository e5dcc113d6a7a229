-- ===== src/Examples/Configs.antt =====
-- Configurations, what the checks of Config.antt say of them, and loading and saving.
use vorto.Prelude.{
  ◌≡◌, refl, ◌⊎◌, ◌≢◌, ◌↔◌, is_yes, if◌then◌else◌, true, false, none, some, [], ◌∷◌, arith,
  ℕ_discrete, is_empty,
}
use vorto.Text.{Text, text, trim, Text-discrete, decimal}
use vorto.Net.{parse_socket_addr, v4, v6, show_ipv4}
use vorto.Result.{ok, err, yaml}
use vorto.Fs.{FilePath}
use vorto.Config.Tunnel as Tunnel
use vorto.Net.{is_unspecified}
use vorto.Config.Nft.{check_tunnel, ListenKey-discrete}
use vorto.Config.Tunnel.{
  enabled_tunnels, supports_tcp, supports_udp, tcp, udp, both, socket, nft, TunnelConfig, AppConfig,
}
use vorto.Config.Nft.{validate_nft_mode}
use vorto.Config.Validate.{validate}
use vorto.Config.Valid.{IsValid, validate_iff}
use vorto.Config.NftValid.{IsNftValid, validate_nft_mode_iff}
use vorto.Config.Store.{
  RawConfig, Yaml, temp_path, parse, deserialize, serialize, save, load_for_runtime,
  load_or_default,
}
use vorto.Config.Saved.{IsRoundTrip, load_for_runtime-save}
use vorto.Examples.Systems.{Files, FilePath-discrete, put, memory, memory-IsLawful}

abbrev pub web : TunnelConfig
web = record {
  name = text "web";
  listen = text "127.0.0.1:80";
  target = text "10.0.0.2:8080";
  protocol = tcp;
  enabled = true;
}

abbrev pub dns : TunnelConfig
dns = record {
  name = text "dns";
  listen = text "127.0.0.1:53";
  target = text "10.0.0.3:53";
  protocol = both;
  enabled = true;
}

abbrev pub sockets_config : AppConfig
sockets_config = record { daemon_log = true; mode = socket; tunnels = web ∷ dns ∷ [] }

abbrev pub nft_config : AppConfig
nft_config = record { daemon_log = true; mode = nft; tunnels = web ∷ dns ∷ [] }

parse_v4 :
    parse_socket_addr (text "127.0.0.1:8080")
    ≡ some (v4 (record { a = 127; b = 0; c = 0; d = 1 }) 8080)
unfolding parse_socket_addr text
parse_v4 = refl

parse_leading_zero : parse_socket_addr (text "127.0.0.01:8080") ≡ none
unfolding parse_socket_addr text
parse_leading_zero = refl

parse_v6 :
    parse_socket_addr (text "[fe80::1:2]:80")
    ≡ some (v6 (0xfe80 ∷ 0 ∷ 0 ∷ 0 ∷ 0 ∷ 0 ∷ 1 ∷ 2 ∷ []) 80 0)
unfolding parse_socket_addr text
parse_v6 = refl

show_v4 : show_ipv4 (record { a = 127; b = 0; c = 0; d = 10 }) ≡ text "127.0.0.10"
unfolding show_ipv4 text
show_v4 = refl

trim_both_ends : trim (text "  a b ") ≡ text "a b"
unfolding trim text
trim_both_ends = refl

pub nft_config-is_valid : validate nft_config ≡ ok tt
unfolding validate text Tunnel.validate trim parse_socket_addr Text-discrete validate_nft_mode
    enabled_tunnels check_tunnel is_unspecified supports_tcp supports_udp ListenKey-discrete
    show_ipv4
nft_config-is_valid = refl

pub sockets_config-is_valid : validate sockets_config ≡ ok tt
unfolding validate text Tunnel.validate trim parse_socket_addr Text-discrete
sockets_config-is_valid = refl

validate_iff_example : (validate nft_config ≡ ok tt) ↔ IsValid nft_config
validate_iff_example = validate_iff nft_config

validate_nft_mode_iff_example :
    (validate_nft_mode nft_config ≡ ok tt) ↔ IsNftValid (enabled_tunnels nft_config)
validate_nft_mode_iff_example = validate_nft_mode_iff nft_config

-- A library that knows one document.
unfoldable pub RawConfig-discrete : Discrete RawConfig
unfolding ℕ_discrete
RawConfig-discrete = hlevel ℕ_discrete

abbrev pub document : RawConfig
document = serialize sockets_config

abbrev pub written : Text
written = text "tunnels: [web, dns]"

abbrev pub one_document : Yaml
one_document = record {
  from_str =
      λ t. if is_yes (Text-discrete t written) then ok document else err (yaml (text "unknown"));
  to_string = λ r.
      if is_yes (RawConfig-discrete r document) then ok written else err (yaml (text "unknown"));
}

written-is_full : is_empty (trim written) ≡ false
unfolding trim text
written-is_full = refl

pub one_document-IsRoundTrip : IsRoundTrip one_document
one_document-IsRoundTrip = record {
  reads_back = λ r t h. ground arith;
  not_blank = λ r t h. ground (arith, written-is_full);
}

abbrev pub file : FilePath
file = record { parent = text "/etc/vorto"; file_name = some (text "config.yaml") }

abbrev pub empty_disk : Files
empty_disk p = none

abbrev pub full_disk : Files
full_disk = put file (some written) empty_disk

loaded : load_for_runtime one_document memory full_disk file ≡ ok sockets_config
unfolding load_for_runtime FilePath-discrete text trim parse Text-discrete validate deserialize
    serialize Tunnel.validate parse_socket_addr
loaded = refl

loaded_or_default : load_or_default one_document memory full_disk file ≡ ok sockets_config
unfolding load_or_default FilePath-discrete text trim parse Text-discrete validate deserialize
    serialize Tunnel.validate parse_socket_addr
loaded_or_default = refl

saved : (save one_document memory 7 sockets_config file empty_disk).0 ≡ ok tt
unfolding save temp_path decimal RawConfig-discrete validate Tunnel.validate trim text
    parse_socket_addr Text-discrete serialize FilePath-discrete
saved = refl

load_for_runtime-save_example :
    let r = save one_document memory 7 sockets_config file empty_disk in
    ((r.0 ≡ ok tt) × (load_for_runtime one_document memory r.1 file ≡ ok sockets_config))
    ⊎ ((r.0 ≢ ok tt)
        × (load_for_runtime one_document memory r.1 file
            ≡ load_for_runtime one_document memory empty_disk file))
load_for_runtime-save_example =
    load_for_runtime-save one_document memory one_document-IsRoundTrip memory-IsLawful 7
      sockets_config file empty_disk
