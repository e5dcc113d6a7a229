-- ===== src/Examples/Edits.antt =====
-- The editor on lines of input.
use vorto.Prelude.{◌≡◌, refl, true, some, none, List, [], ◌∷◌}
use vorto.Text.{Text, text, trim, to_ascii_lowercase, Text-discrete}
use vorto.Net.{parse_socket_addr}
use vorto.Result.{ok}
use vorto.Config.Tunnel as Tunnel
use vorto.Config.Tunnel.{tcp, TunnelConfig, AppConfig}
use vorto.Config.Valid.{validate_iff}
use vorto.Daemon.Pid.{parse_unsigned}
use vorto.Editor.Prompts.{
  answered, endless, ask, prompt_bool, prompt_protocol, prompt_socket_addr, prompt_new_name,
  has_duplicate, find_name, select_tunnel,
}
use vorto.Editor.Edits.{add_tunnel}
use vorto.Editor.Keeping.{IsEditable}
use vorto.Examples.Configs.{web, dns, sockets_config, sockets_config-is_valid}

-- No tunnel has the name of the first line, and the second tunnel is the one with the second.
abbrev selection : List Text
selection = text "ftp" ∷ text "DNS " ∷ text "rest" ∷ []

selected : select_tunnel sockets_config selection ≡ answered (some 1) (text "rest" ∷ [])
unfolding select_tunnel ask trim text parse_unsigned find_name Text-discrete to_ascii_lowercase
selected = refl

-- At the end of the input the prompt for a name asks without end.
no_name : prompt_new_name sockets_config none none (text "web" ∷ []) ≡ endless
unfolding prompt_new_name ask trim text has_duplicate Text-discrete to_ascii_lowercase
no_name = refl

abbrev ssh : TunnelConfig
ssh = record {
  name = text "ssh";
  listen = text "127.0.0.1:22";
  target = text "10.0.0.4:22";
  protocol = tcp;
  enabled = true;
}

abbrev answers : List Text
answers = text "Web" ∷ text "ssh" ∷ text "1" ∷ ssh.target ∷ ssh.listen ∷ [] ∷ text "YES" ∷ []

abbrev three_tunnels : AppConfig
three_tunnels = record sockets_config { tunnels = web ∷ dns ∷ ssh ∷ [] }

added : add_tunnel sockets_config answers ≡ answered (ok true, three_tunnels) []
unfolding add_tunnel prompt_new_name ask trim text has_duplicate Text-discrete to_ascii_lowercase
    prompt_protocol prompt_socket_addr parse_socket_addr prompt_bool Tunnel.validate
added = refl

pub sockets_config-IsEditable : IsEditable sockets_config
sockets_config-IsEditable =
    let v = (validate_iff sockets_config).0 sockets_config-is_valid in
    record { tunnels = v.tunnels; distinct = v.distinct }
