-- ===== src/Runtime/Watcher/Applied.antt =====
-- What a round of `run_config_watcher` in src/runtime.rs has running once it has applied a configuration
-- in socket mode.
use vorto.Prelude.{
  ◌≡◌, ◌≢◌, refl, ap, ◌∙◌, Bool, true, some, List, [], ◌∷◌, arith, All, All-imp, IsDistinct, map,
  keep_if, Bool-cases, inl, inr,
}
use vorto.Text.{Text, Text-discrete}
use vorto.Result.{ok}
use vorto.HashMap.{get, insert, get-insert, extend, Hasher, IsReordering}
use vorto.Config.Tunnel.{socket, nft, TunnelConfig, AppConfig, enabled_tunnels}
use vorto.Config.Valid.{IsValid, names_of}
use vorto.Nft.Cli.{NftCommand}
use vorto.Runtime.System.{Os}
use vorto.Runtime.Manager as TunnelManager
use vorto.Runtime.Manager.{Desired, desired_map}
use vorto.Runtime.Ownership.{Inv}
use vorto.Runtime.Stability.{specs, specs-reconcile}
use vorto.Runtime.Watcher.{Watch, last_is, poll}
use vorto.Runtime.Watcher.Modes.{poll_of_socket}

abbrev pairs : List TunnelConfig → Desired
pairs = map (λ t. (t.name, t))

extend-other :
    (k : Text) (m : Desired) (ts : List TunnelConfig)
    → All (λ n. k ≢ n) (names_of ts)
    → get Text-discrete k (extend Text-discrete m (pairs ts)) ≡ get Text-discrete k m
unfolding extend
extend-other k m [] h = refl
extend-other k m (t ∷ ts) (ne, h) =
    extend-other k (insert Text-discrete t.name t m) ts h
    ∙ ground (arith, get-insert Text-discrete t.name k t m)

extend-named :
    (m : Desired) (ts : List TunnelConfig)
    → IsDistinct (names_of ts)
    → All (λ t. get Text-discrete t.name (extend Text-discrete m (pairs ts)) ≡ some t) ts
unfolding extend
extend-named m [] d = tt
extend-named m (t ∷ ts) (f, d) = (
  extend-other t.name (insert Text-discrete t.name t m) ts f
      ∙ ground (arith, get-insert Text-discrete t.name t.name t m),
  extend-named (insert Text-discrete t.name t m) ts d,
)

All-names_of_kept :
    (P : Text → Type 0) (p : TunnelConfig → Bool) (ts : List TunnelConfig)
    → All P (names_of ts)
    → All P (names_of (keep_if p ts))
All-names_of_kept P p [] h = tt
All-names_of_kept P p (t ∷ ts) (x, h) = elim (Bool-cases (p t)) [
  | inl stays ↦ rw (stays) (x, All-names_of_kept P p ts h)
  | inr goes ↦ rw (goes) (All-names_of_kept P p ts h)
]

names_of_kept-IsDistinct :
    (p : TunnelConfig → Bool) (ts : List TunnelConfig)
    → IsDistinct (names_of ts)
    → IsDistinct (names_of (keep_if p ts))
names_of_kept-IsDistinct p [] d = tt
names_of_kept-IsDistinct p (t ∷ ts) (f, d) = elim (Bool-cases (p t)) [
  | inl stays ↦
      rw (stays) (All-names_of_kept (λ n. t.name ≢ n) p ts f, names_of_kept-IsDistinct p ts d)
  | inr goes ↦ rw (goes) (names_of_kept-IsDistinct p ts d)
]

-- The enabled tunnels of a valid configuration are desired under their names.
desired_map-named :
    (c : AppConfig)
    → IsValid c
    → All
        (λ t. get Text-discrete t.name (desired_map (enabled_tunnels c)) ≡ some t)
        (enabled_tunnels c)
unfolding desired_map enabled_tunnels
desired_map-named c v =
    extend-named [] (enabled_tunnels c)
      (names_of_kept-IsDistinct (λ t. t.enabled) c.tunnels v.distinct)

module _ (H : Hasher) (O : Os) (C : NftCommand) (L : IsReordering H) where
  -- The managers agree on the sockets whichever backend was in place before.
  poll_of_applied :
      (c : AppConfig) (w : Watch H O C)
      → c.mode ≡ socket
      → (TunnelManager.reconcile H O (enabled_tunnels c) w.sockets).0 ≡ true
      → let w' = poll H O C (ok c) w in
        (w'.last_applied_config ≡ some c)
        × (w'.sockets ≡ (TunnelManager.reconcile H O (enabled_tunnels c) w.sockets).1)
  poll_of_applied c w m applied = elim (Bool-cases (last_is nft w.last_applied_config)) [
    | inl was_nft ↦ rw (poll_of_socket H O C c w m, applied, was_nft) (refl, refl)
    | inr was_not ↦ rw (poll_of_socket H O C c w m, applied, was_not) (refl, refl)
  ]

  -- If maps iterate over their own entries, the invariant of the tunnel manager holds and a round
  -- loads a valid configuration in socket mode and starts all its tunnels, then it remembers the
  -- configuration, the settings that are active under each name are exactly those of the map of
  -- the enabled tunnels, and every enabled tunnel is active under its name.
  pub poll-applies :
      (c : AppConfig) (w : Watch H O C)
      → IsValid c
      → c.mode ≡ socket
      → Inv H O w.sockets
      → (TunnelManager.reconcile H O (enabled_tunnels c) w.sockets).0 ≡ true
      → let w' = poll H O C (ok c) w in
        (w'.last_applied_config ≡ some c)
        × (specs w'.sockets.0 ≡ (λ k. get Text-discrete k (desired_map (enabled_tunnels c))))
        × All (λ t. specs w'.sockets.0 t.name ≡ some t) (enabled_tunnels c)
  poll-applies c w valid m v applied =
      let (remembered, same) = poll_of_applied c w m applied in
      let running =
        ap (λ s. specs s.0) same ∙ specs-reconcile H O L (enabled_tunnels c) w.sockets v applied in
      (
        remembered,
        running,
        All-imp _ _ (enabled_tunnels c) (λ t wanted. ap (λ f. f t.name) running ∙ wanted)
            (desired_map-named c valid),
      )
