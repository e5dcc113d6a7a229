-- ===== src/Config/Valid.antt =====
-- What `AppConfig::validate` of src/config.rs accepts, described without its loops.
use vorto.Prelude.{
  ◌≡◌, refl, sym, ◌≢◌, ◌↔◌, some, List, [], ◌∷◌, map, arith, All, IsDistinct, IsFresh, contains,
  contains-IsFresh, contains_of_IsFresh, is_empty-eq-nil, some_of_ne_none,
}
use vorto.Text.{Text, trim, Text-discrete}
use vorto.Net.{SocketAddr, parse_socket_addr}
use vorto.Result.{ok, fail_if, >>=-eq-ok}
use vorto.Config.Tunnel
use vorto.Config.Tunnel.{
  AppMode, socket, nft, TunnelConfig, AppConfig, supports_tcp, supports_udp, enabled_tunnels,
}
use vorto.Config.NftValid.{IsNftValid, validate_nft_mode_iff}
use vorto.Config.Validate.{validate, validate_names, validate_mode}

abbrev pub Parses : Text → Type 0
Parses s = (addr : SocketAddr) × (parse_socket_addr s ≡ some addr)

-- A tunnel with a name that is not blank and two socket addresses.
pub record IsTunnel (t : TunnelConfig) : Type 0 where
  pub named : trim t.name ≢ []
  pub listens : Parses t.listen
  pub targets : Parses t.target

pub IsTunnel-of_validate : (t : TunnelConfig) → Tunnel.validate t ≡ ok tt → IsTunnel t
unfolding Tunnel.validate
IsTunnel-of_validate t h = record {
  named = λ e. ground arith;
  listens = some_of_ne_none _ (λ e. ground arith);
  targets = some_of_ne_none _ (λ e. ground arith);
}

pub validate_of_IsTunnel : (t : TunnelConfig) → IsTunnel t → Tunnel.validate t ≡ ok tt
unfolding Tunnel.validate
validate_of_IsTunnel t v = ground (arith, is_empty-eq-nil (trim t.name), v.listens.1, v.targets.1)

-- The name of `t` is not among the names seen so far.
abbrev IsNew : List Text → TunnelConfig → Type 0
IsNew names t = IsFresh Text-discrete t.name names

abbrev pub names_of : List TunnelConfig → List Text
names_of = map (λ t. t.name)

-- The loop accepts lists of tunnels with names that are new and differ.
record Accepts (names : List Text) (ts : List TunnelConfig) : Type 0 where
  tunnels : All IsTunnel ts
  fresh : All (IsNew names) ts
  distinct : IsDistinct (names_of ts)

All-IsNew-cons :
    (name : Text) (names : List Text) (ts : List TunnelConfig)
    → All (IsNew (name ∷ names)) ts
    → All (λ x. name ≢ x) (names_of ts) × All (IsNew names) ts
All-IsNew-cons name names [] h = (tt, tt)
All-IsNew-cons name names (t ∷ ts) ((ne, new), h) =
    let (a, b) = All-IsNew-cons name names ts h in ((λ e. ne (sym e), a), (new, b))

All-IsNew_of_cons :
    (name : Text) (names : List Text) (ts : List TunnelConfig)
    → All (λ x. name ≢ x) (names_of ts)
    → All (IsNew names) ts
    → All (IsNew (name ∷ names)) ts
All-IsNew_of_cons name names [] a b = tt
All-IsNew_of_cons name names (t ∷ ts) (a, as') (b, bs) =
    ((λ e. a (sym e), b), All-IsNew_of_cons name names ts as' bs)

validate_names-Accepts :
    (names : List Text) (ts : List TunnelConfig)
    → validate_names names ts ≡ ok tt
    → Accepts names ts
unfolding validate_names
validate_names-Accepts names [] h = record { tunnels = tt; fresh = tt; distinct = tt }
validate_names-Accepts names (t ∷ ts) h =
    let (_, valid, h') = >>=-eq-ok (Tunnel.validate t) _ h in
    let (_, new, h'') = >>=-eq-ok (fail_if (contains Text-discrete names t.name) _) _ h' in
    let rest = validate_names-Accepts (t.name ∷ names) ts h'' in
    let apart = All-IsNew-cons t.name names ts rest.fresh in
    record {
      tunnels = (IsTunnel-of_validate t valid, rest.tunnels);
      fresh = (contains-IsFresh Text-discrete t.name names (ground arith), apart.1);
      distinct = (apart.0, rest.distinct);
    }

validate_names_of_Accepts :
    (names : List Text) (ts : List TunnelConfig)
    → Accepts names ts
    → validate_names names ts ≡ ok tt
unfolding validate_names
validate_names_of_Accepts names [] v = refl
validate_names_of_Accepts names (t ∷ ts) v =
    rw
      (validate_of_IsTunnel t v.tunnels.0, contains_of_IsFresh Text-discrete t.name names v.fresh.0)
      (validate_names_of_Accepts (t.name ∷ names) ts (record {
        tunnels = v.tunnels.1;
        fresh = All-IsNew_of_cons t.name names ts v.distinct.0 v.fresh.1;
        distinct = v.distinct.1;
      }))

All-IsNew-nil : (ts : List TunnelConfig) → All (IsNew []) ts
All-IsNew-nil [] = tt
All-IsNew-nil (t ∷ ts) = (tt, All-IsNew-nil ts)

-- A valid configuration: tunnels with names that are not blank and differ, with socket addresses,
-- and in nft mode enabled tunnels as that mode needs them.
pub record IsValid (c : AppConfig) : Type 0 where
  pub tunnels : All IsTunnel c.tunnels
  pub distinct : IsDistinct (names_of c.tunnels)
  pub nft_mode : c.mode ≡ nft → IsNftValid (enabled_tunnels c)

validate_mode_iff :
    (m : AppMode) (c : AppConfig)
    → (validate_mode m c ≡ ok tt) ↔ (m ≡ nft → IsNftValid (enabled_tunnels c))
validate_mode_iff socket c = (λ h e. absurd (ground arith), λ h. refl)
validate_mode_iff nft c =
    (λ h e. (validate_nft_mode_iff c).0 h, λ h. (validate_nft_mode_iff c).1 (h refl))

-- `validate` accepts a configuration exactly if every tunnel has a name that is not blank and
-- addresses that parse, the names are distinct, and the enabled tunnels are valid for nft mode
-- where that is the mode.
pub validate_iff : (c : AppConfig) → (validate c ≡ ok tt) ↔ IsValid c
unfolding validate
validate_iff c = (sound, complete)
  where
    sound : validate c ≡ ok tt → IsValid c
    sound h =
        let (_, names, mode) = >>=-eq-ok (validate_names [] c.tunnels) _ h in
        let a = validate_names-Accepts [] c.tunnels names in
        record {
          tunnels = a.tunnels;
          distinct = a.distinct;
          nft_mode = (validate_mode_iff c.mode c).0 mode;
        }

    complete : IsValid c → validate c ≡ ok tt
    complete v =
        rw
          (validate_names_of_Accepts [] c.tunnels (record {
            tunnels = v.tunnels;
            fresh = All-IsNew-nil c.tunnels;
            distinct = v.distinct;
          }))
          ((validate_mode_iff c.mode c).1 v.nft_mode)
