-- ===== src/Editor/Edits.antt =====
-- The edits of src/interactive.rs. An edit returns whether it changed the configuration, or the error
-- that ends the editor, with the configuration.
use vorto.Prelude.{ℕ, zero, suc, Bool, true, false, not, Option, none, some, List, [], ◌∷◌, ◌++◌}
use vorto.Text.{Text}
use vorto.Result.{AppResult, ok, err}
use vorto.Config.Tunnel as Tunnel
use vorto.Config.Tunnel.{AppMode, socket, nft, TunnelConfig, AppConfig}
use vorto.Editor.Prompts.{
  Asked, answered, panicked, then_ask, prompt_bool, prompt_protocol, prompt_socket_addr,
  prompt_new_name, select_tunnel,
}

abbrev pub Edited : Type 0
Edited = AppResult Bool × AppConfig

-- Indexing, `Vec::remove`, and the assignment to an element.
unfoldable pub tunnel_at : ℕ → List TunnelConfig → Option TunnelConfig
tunnel_at i [] = none
tunnel_at zero (t ∷ ts) = some t
tunnel_at (suc i) (t ∷ ts) = tunnel_at i ts

unfoldable pub remove_at : ℕ → List TunnelConfig → List TunnelConfig
remove_at i [] = []
remove_at zero (t ∷ ts) = ts
remove_at (suc i) (t ∷ ts) = t ∷ remove_at i ts

unfoldable pub set_at : ℕ → TunnelConfig → List TunnelConfig → List TunnelConfig
set_at i u [] = []
set_at zero u (t ∷ ts) = u ∷ ts
set_at (suc i) u (t ∷ ts) = t ∷ set_at i u ts

-- A confirmed change is made.
abbrev pub confirmed : Bool → AppConfig → List TunnelConfig → Edited
confirmed false config tunnels = (ok false, config)
confirmed true config tunnels = (ok true, record config { tunnels = tunnels })

-- A tunnel is checked before the change is confirmed.
abbrev pub confirm_valid :
    AppResult (Unit {0}) → AppConfig → List TunnelConfig → List Text → Asked Edited
confirm_valid (err e) config tunnels lines = answered (err e, config) lines
confirm_valid (ok _) config tunnels lines =
    then_ask (prompt_bool true lines) (λ apply left. answered (confirmed apply config tunnels) left)

unfoldable pub add_tunnel : AppConfig → List Text → Asked Edited
add_tunnel config lines = then_ask (prompt_new_name config none none lines) (λ name l1.
    then_ask (prompt_protocol none l1) (λ protocol l2.
      then_ask (prompt_socket_addr none l2) (λ target l3.
        then_ask (prompt_socket_addr none l3) (λ listen l4.
          then_ask (prompt_bool true l4) (λ enabled l5.
            let tunnel : TunnelConfig = record {
              name = name;
              listen = listen;
              target = target;
              protocol = protocol;
              enabled = enabled;
            } in
            confirm_valid (Tunnel.validate tunnel) config (config.tunnels ++ tunnel ∷ []) l5)))))

-- What an operation does with the selected tunnel; an index out of range panics.
abbrev pub with_selected :
    AppConfig → (ℕ → TunnelConfig → List Text → Asked Edited) → Option ℕ → List Text → Asked Edited
with_selected config operation none lines = answered (ok false, config) lines
with_selected config operation (some index) lines = elim (tunnel_at index config.tunnels) [
  | none ↦ panicked
  | some tunnel ↦ operation index tunnel lines
]

abbrev pub edit_selected : AppConfig → ℕ → TunnelConfig → List Text → Asked Edited
edit_selected config index t lines =
    then_ask (prompt_new_name config (some index) (some t.name) lines) (λ name l1.
      then_ask (prompt_protocol (some t.protocol) l1) (λ protocol l2.
        then_ask (prompt_socket_addr (some t.target) l2) (λ target l3.
          then_ask (prompt_socket_addr (some t.listen) l3) (λ listen l4.
            then_ask (prompt_bool t.enabled l4) (λ enabled l5.
              let tunnel : TunnelConfig = record {
                name = name;
                listen = listen;
                target = target;
                protocol = protocol;
                enabled = enabled;
              } in
              confirm_valid (Tunnel.validate tunnel) config (set_at index tunnel config.tunnels)
                l5)))))

unfoldable pub edit_tunnel : AppConfig → List Text → Asked Edited
edit_tunnel config lines =
    then_ask (select_tunnel config lines) (with_selected config (edit_selected config))

abbrev pub toggle_selected : AppConfig → ℕ → TunnelConfig → List Text → Asked Edited
toggle_selected config index t lines =
    answered
      (confirmed true config (set_at index (record t { enabled = not t.enabled }) config.tunnels))
      lines

unfoldable pub toggle_tunnel : AppConfig → List Text → Asked Edited
toggle_tunnel config lines =
    then_ask (select_tunnel config lines) (with_selected config (toggle_selected config))

abbrev pub delete_selected : AppConfig → ℕ → TunnelConfig → List Text → Asked Edited
delete_selected config index t lines =
    then_ask (prompt_bool false lines)
      (λ delete left. answered (confirmed delete config (remove_at index config.tunnels)) left)

unfoldable pub delete_tunnel : AppConfig → List Text → Asked Edited
delete_tunnel config lines =
    then_ask (select_tunnel config lines) (with_selected config (delete_selected config))

unfoldable pub toggle_daemon_log : AppConfig → AppConfig
toggle_daemon_log config = record config { daemon_log = not config.daemon_log }

abbrev other_mode : AppMode → AppMode
other_mode socket = nft
other_mode nft = socket

unfoldable pub toggle_mode : AppConfig → AppConfig
toggle_mode config = record config { mode = other_mode config.mode }
