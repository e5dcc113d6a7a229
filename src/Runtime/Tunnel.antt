-- ===== src/Runtime/Tunnel.antt =====
-- `ActiveTunnel` of src/runtime.rs.
use vorto.Prelude.{ℕ, Bool, not, ◌||◌, List, [], ◌∷◌, ◌++◌, false, if◌then◌else◌}
use vorto.Text.{Text, text}
use vorto.Result.{AppResult, ok, err}
use vorto.Config.Tunnel.{TunnelConfig, supports_tcp, supports_udp}
use vorto.Runtime.System.{
  Os, Rt, parse_labelled_addr, configure_udp_socket, spawn_task, runs, wait_all, send_stop,
  new_channel,
}

pub record ActiveTunnel : Type 0 where
  pub spec : TunnelConfig
  pub stop_tx : ℕ
  pub handles : List ℕ

module _ (O : Os) where
  -- The outcome of a part of `spawn`, the handles pushed so far, and the runtime.
  abbrev pub Started : Type 0
  Started = AppResult (Unit {0}) × List ℕ × Rt O

  -- `handles.push(tokio::spawn(..))`.
  abbrev pub push_task : List ℕ → Rt O → Started
  push_task handles rt = let (handle, rt') = spawn_task O rt in (ok tt, handles ++ handle ∷ [], rt')

  unfoldable pub start_tcp : TunnelConfig → List ℕ → Rt O → Started
  start_tcp spec handles rt =
      if supports_tcp spec.protocol
      then (let (bound, s) = O.bind_tcp spec.listen rt.os_state in
          elim bound [
            | err e ↦ (err e, handles, record rt { os_state = s })
            | ok _ ↦ push_task handles (record rt { os_state = s })
          ])
      else (ok tt, handles, rt)

  -- A bound socket is configured before its task starts.
  unfoldable pub serve_udp : ℕ → List ℕ → Rt O → Started
  serve_udp socket handles rt =
      let (configured, s) = configure_udp_socket O socket rt.os_state in
      elim configured [
        | err e ↦ (err e, handles, record rt { os_state = s })
        | ok _ ↦ push_task handles (record rt { os_state = s })
      ]

  unfoldable pub bind_and_serve_udp : Text → List ℕ → Rt O → Started
  unfolding serve_udp
  bind_and_serve_udp listen handles rt =
      let (bound, s) = O.bind_udp listen rt.os_state in
      elim bound [
        | err e ↦ (err e, handles, record rt { os_state = s })
        | ok socket ↦ serve_udp socket handles (record rt { os_state = s })
      ]

  unfoldable pub start_udp : TunnelConfig → List ℕ → Rt O → Started
  unfolding bind_and_serve_udp
  start_udp spec handles rt =
      if supports_udp spec.protocol
      then elim (parse_labelled_addr spec.target (text "target")) [
        | err e ↦ (err e, handles, rt)
        | ok target ↦ bind_and_serve_udp spec.listen handles rt
      ]
      else (ok tt, handles, rt)

  -- UDP is started only after TCP.
  abbrev pub then_udp : TunnelConfig → Started → Started
  then_udp spec (err e, handles, rt) = (err e, handles, rt)
  then_udp spec (ok _, handles, rt) = start_udp spec handles rt

  -- A failed start stops the tasks that were started.
  abbrev pub finish_spawn : TunnelConfig → ℕ → Started → AppResult ActiveTunnel × Rt O
  finish_spawn spec stop_tx (ok _, handles, rt) =
      (ok (record { spec = spec; stop_tx = stop_tx; handles = handles }), rt)
  finish_spawn spec stop_tx (err e, handles, rt) =
      (err e, wait_all O handles (send_stop O stop_tx rt))

  -- `ActiveTunnel::spawn`.
  unfoldable pub spawn : TunnelConfig → Rt O → AppResult ActiveTunnel × Rt O
  unfolding start_tcp start_udp
  spawn spec rt =
      let (stop_tx, rt1) = new_channel O rt in
      finish_spawn spec stop_tx (then_udp spec (start_tcp spec [] rt1))

  -- `ActiveTunnel::has_finished`.
  unfoldable pub any_finished : List ℕ → Rt O → Bool
  any_finished [] rt = false
  any_finished (h ∷ hs) rt = not (runs O rt h) || any_finished hs rt

  abbrev pub has_finished : ActiveTunnel → Rt O → Bool
  has_finished active rt = any_finished active.handles rt

  -- `ActiveTunnel::stop`.
  unfoldable pub stop : ActiveTunnel → Rt O → Rt O
  stop active rt = wait_all O active.handles (send_stop O active.stop_tx rt)
