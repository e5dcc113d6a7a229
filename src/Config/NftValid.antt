-- ===== src/Config/NftValid.antt =====
-- What `AppConfig::validate_nft_mode` of src/config.rs accepts, described without its loop and
-- without the displays by which it keys the endpoints.
use mathlib.Core.Option.{some-injective}
use vorto.Prelude.{
  ℕ, ◌≡◌, refl, sym, ap, subst, ◌∙◌, ◌↔◌, Bool, true, false, ◌&&◌, some, List, [], ◌∷◌, arith, All,
  IsFresh, contains, contains-IsFresh, contains_of_IsFresh,
}
use vorto.Net.{Ipv4Addr}
use vorto.Net.Display.{show_ipv4_injective}
use vorto.Result.{AppError, ok, fail_if, >>=-eq-ok}
use vorto.Config.Tunnel.{TunnelConfig, AppConfig, supports_tcp, supports_udp, enabled_tunnels}
use vorto.Config.Nft.{
  ListenKey, ListenKey-discrete, listen_key, check_tunnel, check_tunnels, validate_nft_mode,
  take_if,
}
use vorto.Config.NftTunnel.{
  ipv4_of, IsNftTunnel, Apart, AllApart, check_tunnel_sound, check_tunnel_complete,
}

listen_key_injective : (e f : Ipv4Addr × ℕ) → listen_key e ≡ listen_key f → e ≡ f
listen_key_injective (ip, p) (jp, q) h = ground (arith, show_ipv4_injective ip jp (ap (λ k. k.0) h))

abbrev IsNewKey : ListenKey → List ListenKey → Type 0
IsNewKey = IsFresh ListenKey-discrete

-- The endpoint of `t` is free in the sets of its transports.
record IsNew (tcps udps : List ListenKey) (t : TunnelConfig) : Type 0 where
  on_tcp :
      (e : Ipv4Addr × ℕ)
      → ipv4_of t.listen ≡ some e
      → supports_tcp t.protocol ≡ true
      → IsNewKey (listen_key e) tcps
  on_udp :
      (e : Ipv4Addr × ℕ)
      → ipv4_of t.listen ≡ some e
      → supports_udp t.protocol ≡ true
      → IsNewKey (listen_key e) udps

module _ (t : TunnelConfig) (e : Ipv4Addr × ℕ) (listens : ipv4_of t.listen ≡ some e)
    (tcps udps : List ListenKey) where
  abbrev tcps' : List ListenKey
  tcps' = take_if (supports_tcp t.protocol) (listen_key e) tcps

  abbrev udps' : List ListenKey
  udps' = take_if (supports_udp t.protocol) (listen_key e) udps

  tail_of_take_if :
      (b : Bool) (k k' : ListenKey) (keys : List ListenKey)
      → IsNewKey k (take_if b k' keys)
      → IsNewKey k keys
  tail_of_take_if true k k' keys h = h.1
  tail_of_take_if false k k' keys h = h

  IsNew_of_take : (u : TunnelConfig) → IsNew tcps' udps' u → IsNew tcps udps u
  IsNew_of_take u v = record {
    on_tcp = λ f h s. tail_of_take_if (supports_tcp t.protocol) _ _ tcps (v.on_tcp f h s);
    on_udp = λ f h s. tail_of_take_if (supports_udp t.protocol) _ _ udps (v.on_udp f h s);
  }

  Apart-of_take : (u : TunnelConfig) → IsNew tcps' udps' u → Apart t u
  Apart-of_take u v shared same =
      ground (arith, v.on_tcp e (sym same ∙ listens), v.on_udp e (sym same ∙ listens))

  IsNew-take : (u : TunnelConfig) → IsNew tcps udps u → Apart t u → IsNew tcps' udps' u
  IsNew-take u v apart = record {
    on_tcp = λ f h s. ground (arith, v.on_tcp f h s, apart, listen_key_injective f e);
    on_udp = λ f h s. ground (arith, v.on_udp f h s, apart, listen_key_injective f e);
  }

  All-IsNew_of_take :
      (us : List TunnelConfig)
      → All (IsNew tcps' udps') us
      → All (Apart t) us × All (IsNew tcps udps) us
  All-IsNew_of_take [] h = (tt, tt)
  All-IsNew_of_take (u ∷ us) (v, h) =
      let (apart, new) = All-IsNew_of_take us h in
      ((Apart-of_take u v, apart), (IsNew_of_take u v, new))

  All-IsNew-take :
      (us : List TunnelConfig)
      → All (Apart t) us
      → All (IsNew tcps udps) us
      → All (IsNew tcps' udps') us
  All-IsNew-take [] a h = tt
  All-IsNew-take (u ∷ us) (a, as') (v, h) = (IsNew-take u v a, All-IsNew-take us as' h)

new_key :
    (b : Bool) (keys : List ListenKey) (k : ListenKey) (e : AppError) {u : Unit {0}}
    → fail_if (b && contains ListenKey-discrete keys k) e ≡ ok u
    → b ≡ true
    → IsNewKey k keys
new_key b keys k e h s = contains-IsFresh ListenKey-discrete k keys (ground arith)

not_taken :
    (b : Bool) (keys : List ListenKey) (k : ListenKey)
    → (b ≡ true → IsNewKey k keys)
    → (b && contains ListenKey-discrete keys k) ≡ false
not_taken true keys k h = contains_of_IsFresh ListenKey-discrete k keys (h refl)
not_taken false keys k h = refl

IsNew_of_keys :
    (t : TunnelConfig) (e : Ipv4Addr × ℕ) {tcps udps : List ListenKey}
    → ipv4_of t.listen ≡ some e
    → (supports_tcp t.protocol ≡ true → IsNewKey (listen_key e) tcps)
    → (supports_udp t.protocol ≡ true → IsNewKey (listen_key e) udps)
    → IsNew tcps udps t
IsNew_of_keys t e {tcps} {udps} listens on_tcp on_udp = record {
  on_tcp = λ f h s. subst (λ g. IsNewKey (listen_key g) tcps) (same f h) (on_tcp s);
  on_udp = λ f h s. subst (λ g. IsNewKey (listen_key g) udps) (same f h) (on_udp s);
}
  where
    same : (f : Ipv4Addr × ℕ) → ipv4_of t.listen ≡ some f → e ≡ f
    same f h = some-injective _ _ (sym listens ∙ h)

-- The loop accepts IPv4 tunnels whose endpoints are free and do not collide.
record Accepts (tcps udps : List ListenKey) (ts : List TunnelConfig) : Type 0 where
  tunnels : All IsNftTunnel ts
  fresh : All (IsNew tcps udps) ts
  apart : AllApart ts

check_tunnels-Accepts :
    (tcps udps : List ListenKey) (ts : List TunnelConfig)
    → check_tunnels tcps udps ts ≡ ok tt
    → Accepts tcps udps ts
unfolding check_tunnels
check_tunnels-Accepts tcps udps [] h = record { tunnels = tt; fresh = tt; apart = tt }
check_tunnels-Accepts tcps udps (t ∷ ts) h =
    let (e, checked, h1) = >>=-eq-ok (check_tunnel t) _ h in
    let (_, tcp_new, h2) =
      >>=-eq-ok
        (fail_if (supports_tcp t.protocol && contains ListenKey-discrete tcps (listen_key e)) _) _
        h1 in
    let (_, udp_new, h3) =
      >>=-eq-ok
        (fail_if (supports_udp t.protocol && contains ListenKey-discrete udps (listen_key e)) _) _
        h2 in
    let (v, same) = check_tunnel_sound t e checked in
    let listens = v.listens ∙ ap some same in
    let rest =
      check_tunnels-Accepts (tcps' t e listens tcps udps) (udps' t e listens tcps udps) ts h3 in
    let (apart, fresh) = All-IsNew_of_take t e listens tcps udps ts rest.fresh in
    record {
      tunnels = (v, rest.tunnels);
      fresh = (
        IsNew_of_keys t e listens (new_key _ tcps _ _ tcp_new) (new_key _ udps _ _ udp_new),
        fresh,
      );
      apart = (apart, rest.apart);
    }

check_tunnels_of_Accepts :
    (tcps udps : List ListenKey) (ts : List TunnelConfig)
    → Accepts tcps udps ts
    → check_tunnels tcps udps ts ≡ ok tt
unfolding check_tunnels
check_tunnels_of_Accepts tcps udps [] h = refl
check_tunnels_of_Accepts tcps udps (t ∷ ts) h =
    let v = h.tunnels.0 in
    let new = h.fresh.0 in
    rw
      (
        check_tunnel_complete t v,
        not_taken (supports_tcp t.protocol) tcps (listen_key v.listen)
            (new.on_tcp v.listen v.listens),
        not_taken (supports_udp t.protocol) udps (listen_key v.listen)
            (new.on_udp v.listen v.listens),
      )
      (check_tunnels_of_Accepts (tcps' t v.listen v.listens tcps udps)
        (udps' t v.listen v.listens tcps udps) ts
        (record {
          tunnels = h.tunnels.1;
          fresh = All-IsNew-take t v.listen v.listens tcps udps ts h.apart.0 h.fresh.1;
          apart = h.apart.1;
        }))

-- IPv4 tunnels that listen at specific addresses, and at different endpoints of each transport.
pub record IsNftValid (ts : List TunnelConfig) : Type 0 where
  pub tunnels : All IsNftTunnel ts
  pub apart : AllApart ts

All-IsNew-nil : (ts : List TunnelConfig) → All (IsNew [] []) ts
All-IsNew-nil [] = tt
All-IsNew-nil (t ∷ ts) = (record { on_tcp = λ e h s. tt; on_udp = λ e h s. tt }, All-IsNew-nil ts)

-- `validate_nft_mode` accepts a configuration exactly if every enabled tunnel has IPv4 endpoints
-- and a specific listen address, and no two of them with a transport in common listen at one
-- endpoint.
pub validate_nft_mode_iff :
    (c : AppConfig) → (validate_nft_mode c ≡ ok tt) ↔ IsNftValid (enabled_tunnels c)
unfolding validate_nft_mode
validate_nft_mode_iff c = (
  (λ h.
      let a = check_tunnels-Accepts [] [] (enabled_tunnels c) h in
      record { tunnels = a.tunnels; apart = a.apart }),
  (λ v.
      check_tunnels_of_Accepts [] [] (enabled_tunnels c)
        (record { tunnels = v.tunnels; fresh = All-IsNew-nil _; apart = v.apart })),
)
