-- ===== src/Config/Validate.antt =====
-- `AppConfig::validate` of src/config.rs.
use vorto.Prelude.{List, [], ◌∷◌, ◌++◌, contains}
use vorto.Text.{Text, text, Text-discrete}
use vorto.Result.{AppResult, io, ErrorKind, ok, ◌>>◌, fail_if}
use vorto.Config.Tunnel
use vorto.Config.Tunnel.{AppMode, socket, nft, TunnelConfig, AppConfig}
use vorto.Config.Nft.{validate_nft_mode}

-- The loop over the tunnels, with the names seen so far.
unfoldable pub validate_names : List Text → List TunnelConfig → AppResult (Unit {0})
validate_names names [] = ok tt
validate_names names (t ∷ ts) = do
  Tunnel.validate t
  fail_if (contains Text-discrete names t.name)
      (io ErrorKind.invalid_input (text "Duplicate tunnel name: " ++ t.name))
  validate_names (t.name ∷ names) ts

-- The checks that only one forwarding mode asks for.
abbrev pub validate_mode : AppMode → AppConfig → AppResult (Unit {0})
validate_mode socket c = ok tt
validate_mode nft c = validate_nft_mode c

unfoldable pub validate : AppConfig → AppResult (Unit {0})
unfolding validate_names
validate c = do validate_names [] c.tunnels; validate_mode c.mode c
