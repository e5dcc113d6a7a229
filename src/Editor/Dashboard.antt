-- ===== src/Editor/Dashboard.antt =====
-- `render_dashboard`, `print_tunnel_details`, `truncate` and `prompt_optional` of src/interactive.rs: the
-- texts that they print, line by line.
use vorto.Prelude.{
  ℕ, zero, suc, ◌+◌, ◌-◌, Bool, true, false, not, ◌&&◌, Option, none, some, List, [], ◌∷◌, ◌++◌,
  length, take, keep_if, is_empty, ltb, if◌then◌else◌,
}
use vorto.Text.{Text, text, decimal}
use vorto.Fs.{FilePath, display}
use vorto.Config.Tunnel.{AppMode, socket, nft, TunnelConfig, AppConfig, protocol_label}

-- `truncate`: three dots stand for what is left out, if there is room for them.
unfoldable pub truncate : Text → ℕ → Text
truncate value width =
    if ltb width (length value) && ltb 3 width
    then take (width - 3) (take width value) ++ text "..."
    else take width value

-- `str::repeat` of one character.
abbrev pub repeat : ℕ → ℕ → Text
repeat c zero = []
repeat c (suc n) = c ∷ repeat c n

-- `{:<n}` in a format: blanks to the right up to a width.
abbrev pub padded : ℕ → Text → Text
padded width s = s ++ repeat b' ' (width - length s)

-- `{:<4} {:<18} {:<8} {:<10} {:<24} `
unfoldable pub columns : Text → Text → Text → Text → Text → Text
columns number name protocol state target =
    padded 4 number
    ++ (b' '
        ∷ (padded 18 name
            ++ (b' '
                ∷ (padded 8 protocol
                    ++ (b' ' ∷ (padded 10 state ++ (b' ' ∷ (padded 24 target ++ (b' ' ∷ [])))))))))

abbrev pub state_label : Bool → Text
state_label true = text "enabled"
state_label false = text "disabled"

unfoldable pub header_columns : Text
unfolding columns
header_columns =
    columns (text "No.") (text "Name") (text "Proto") (text "State") (text "Remote target")

-- The columns of the tunnel at an index, without the last one.
unfoldable pub row_columns : ℕ → TunnelConfig → Text
unfolding columns truncate
row_columns index t =
    columns (decimal (index + 1)) (truncate t.name 18) (protocol_label t.protocol)
      (state_label t.enabled) (truncate t.target 24)

abbrev pub rows : ℕ → List TunnelConfig → List Text
rows index [] = []
rows index (t ∷ ts) = (row_columns index t ++ t.listen) ∷ rows (suc index) ts

abbrev pub table : List TunnelConfig → List Text
table [] = text "(no tunnels configured)" ∷ []
table (t ∷ ts) = rows 0 (t ∷ ts)

abbrev mode_text : AppMode → Text
mode_text socket = text "socket listeners"
mode_text nft = text "nftables NAT"

abbrev log_text : Bool → Text
log_text true = text "enabled (./vorto.log)"
log_text false = text "disabled"

abbrev unsaved : Bool → Text
unsaved true = text " | unsaved changes"
unsaved false = []

abbrev count : (TunnelConfig → Bool) → List TunnelConfig → Text
count p ts = decimal (length (keep_if p ts))

abbrev pub summary : AppConfig → Bool → Text
summary config dirty =
    text "Tunnels: "
    ++ decimal (length config.tunnels)
    ++ text " total, "
    ++ count (λ t. t.enabled) config.tunnels
    ++ text " enabled, "
    ++ count (λ t. not t.enabled) config.tunnels
    ++ text " disabled"
    ++ unsaved dirty

abbrev pub actions : List Text
actions =
    text "Actions:"
    ∷ text "  a = add tunnel"
    ∷ text "  e = edit tunnel"
    ∷ text "  t = toggle enabled/disabled"
    ∷ text "  d = delete tunnel"
    ∷ text "  m = toggle forwarding mode (socket/nft)"
    ∷ text "  l = toggle daemon log file"
    ∷ text "  s = save and exit"
    ∷ text "  q = quit"
    ∷ []

unfoldable pub render_dashboard : FilePath → AppConfig → Bool → List Text
render_dashboard path config dirty =
    ([]
      ∷ text "Config editor"
      ∷ (text "File: " ++ display path)
      ∷ summary config dirty
      ∷ (text "Forwarding mode: " ++ mode_text config.mode)
      ∷ (text "Daemon log file: " ++ log_text config.daemon_log)
      ∷ []
      ∷ (header_columns ++ text "Local listen")
      ∷ repeat b'-' 87
      ∷ [])
    ++ table config.tunnels
    ++ ([] ∷ actions)
    ++ [] ∷ []

unfoldable pub print_tunnel_details : TunnelConfig → List Text
print_tunnel_details t =
    (text "  Name         : " ++ t.name)
    ∷ (text "  Protocol     : " ++ protocol_label t.protocol)
    ∷ (text "  Remote target: " ++ t.target)
    ∷ (text "  Local listen : " ++ t.listen)
    ∷ (text "  State        : " ++ state_label t.enabled)
    ∷ []

abbrev pub suffix_of : Option Text → Text
suffix_of none = []
suffix_of (some value) = if is_empty value then [] else text " [default: " ++ value ++ text "]"

-- The label that `prompt_optional` gives to `prompt`.
unfoldable pub prompt_label : Text → Option Text → Text
prompt_label label current = label ++ suffix_of current
