-- ===== src/Config/Elsewhere.antt =====
-- `AppConfig::validate` of src/config.rs where it is not built for Linux.
use vorto.Prelude.{◌≡◌, refl, sym, ◌∙◌, ◌≢◌, ◌⊎◌, ◌↔◌, arith, [], inl, inr}
use vorto.Text.{text}
use vorto.Result.{AppResult, io, ErrorKind, ok, err, ◌>>◌, >>=-eq-ok}
use vorto.Config.Tunnel.{AppMode, socket, nft, AppConfig}
use vorto.Config.Validate.{validate_names}
use vorto.Config.Validate as Linux
use vorto.Config.Valid.{IsValid, validate_iff}

unfoldable pub validate_nft_mode : AppConfig → AppResult (Unit {0})
validate_nft_mode c = err (io ErrorKind.unsupported (text "nft mode is only supported on Linux."))

abbrev pub validate_mode : AppMode → AppConfig → AppResult (Unit {0})
validate_mode socket c = ok tt
validate_mode nft c = validate_nft_mode c

unfoldable pub validate : AppConfig → AppResult (Unit {0})
validate c = do validate_names [] c.tunnels; validate_mode c.mode c

same_in_socket_mode : (c : AppConfig) → c.mode ≡ socket → validate c ≡ Linux.validate c
unfolding validate Linux.validate
same_in_socket_mode c e = rw e refl

refused_in_nft_mode : (c : AppConfig) → c.mode ≡ nft → validate c ≢ ok tt
unfolding validate validate_nft_mode
refused_in_nft_mode c e h =
    let (_, _, mode) = >>=-eq-ok (validate_names [] c.tunnels) _ h in absurd (ground (arith, e))

AppMode-cases : (m : AppMode) → (m ≡ socket) ⊎ (m ≡ nft)
AppMode-cases socket = inl refl
AppMode-cases nft = inr refl

-- On a system other than Linux a configuration is accepted exactly if it is valid and in socket
-- mode.
pub validate_elsewhere_iff :
    (c : AppConfig) → (validate c ≡ ok tt) ↔ (IsValid c × (c.mode ≡ socket))
validate_elsewhere_iff c = (
  λ h. elim (AppMode-cases c.mode) [
    | inl e ↦ ((validate_iff c).0 (sym (same_in_socket_mode c e) ∙ h), e)
    | inr e ↦ absurd (refused_in_nft_mode c e h)
  ],
  λ (v, e). same_in_socket_mode c e ∙ (validate_iff c).1 v,
)
