-- ===== src/Editor/Prompts.antt =====
-- The prompts of src/interactive.rs over the lines of the standard input that are still to come. At
-- its end a read gives an empty line each time. What is printed is left out.
use vorto.Prelude.{
  ℕ, suc, ◌-◌, Bool, true, false, not, ◌&&◌, ◌||◌, Option, none, some, List, [], ◌∷◌, is_empty,
  is_yes, leb, ◌==◌, if◌then◌else◌, inl, inr, length, ◌⊎◌,
}
use vorto.Text.{Text, text, trim, to_ascii_lowercase, Text-discrete}
use vorto.Net.{SocketAddr, parse_socket_addr}
use vorto.Config.Tunnel.{Protocol, tcp, udp, both, TunnelConfig, AppConfig}
use vorto.Daemon.Pid.{ParseIntError, parse_unsigned}

-- An answer and the lines left, a prompt that goes on without end, or a panic.
pub data Asked {ℓ} (V : Type ℓ) : Type ℓ where
  answered : V → List Text → Asked V
  endless panicked : Asked V

abbrev pub then_ask {ℓ κ} :
    {V : Type ℓ} {W : Type κ} → Asked V → (V → List Text → Asked W) → Asked W
then_ask (answered v lines) next = next v lines
then_ask endless next = endless
then_ask panicked next = panicked

-- What a loop makes of one line: it returns, or asks again.
pub data Turn {ℓ} (V : Type ℓ) : Type ℓ where
  returns : V → Turn V
  again : Turn V

abbrev pub after_turn {ℓ} : {V : Type ℓ} → Turn V → List Text → Asked V → Asked V
after_turn (returns v) left rest = answered v left
after_turn again left rest = rest

-- A loop around `prompt`, which trims the end of each line. At the end of the input every line is
-- empty, so that a loop that asks again then does so forever.
unfoldable pub ask {ℓ} : {V : Type ℓ} → (Text → Turn V) → List Text → Asked V
ask turn [] = after_turn (turn []) [] endless
ask turn (line ∷ lines) = after_turn (turn (trim line)) lines (ask turn lines)

abbrev pub is_text : Text → Text → Bool
is_text s t = is_yes (Text-discrete s t)

-- `str::eq_ignore_ascii_case`.
abbrev pub eq_ignore_ascii_case : Text → Text → Bool
eq_ignore_ascii_case s t = is_text (to_ascii_lowercase s) (to_ascii_lowercase t)

abbrev bool_of : Text → Turn Bool
bool_of value =
    if is_text value (text "y") || is_text value (text "yes")
    then returns true
    else if is_text value (text "n") || is_text value (text "no")
    then returns false
    else again

abbrev pub bool_turn : Bool → Text → Turn Bool
bool_turn default value =
    if is_empty value then returns default else bool_of (to_ascii_lowercase value)

unfoldable pub prompt_bool : Bool → List Text → Asked Bool
prompt_bool default = ask (bool_turn default)

abbrev kept {ℓ} : {V : Type ℓ} → Option V → Turn V
kept none = again
kept (some v) = returns v

abbrev protocol_of : Text → Turn Protocol
protocol_of value =
    if is_text value (text "1") || is_text value (text "tcp")
    then returns tcp
    else if is_text value (text "2") || is_text value (text "udp")
    then returns udp
    else if is_text value (text "3") || is_text value (text "both")
    then returns both
    else again

abbrev pub protocol_turn : Option Protocol → Text → Turn Protocol
protocol_turn current value =
    if is_empty value then kept current else protocol_of (to_ascii_lowercase value)

unfoldable pub prompt_protocol : Option Protocol → List Text → Asked Protocol
prompt_protocol current = ask (protocol_turn current)

abbrev address_of : Text → Option SocketAddr → Turn Text
address_of value none = again
address_of value (some addr) = returns value

abbrev pub addr_turn : Option Text → Text → Turn Text
addr_turn current value =
    if is_empty value then kept current else address_of value (parse_socket_addr value)

unfoldable pub prompt_socket_addr : Option Text → List Text → Asked Text
prompt_socket_addr current = ask (addr_turn current)

abbrev pub is_index : Option ℕ → ℕ → Bool
is_index none i = false
is_index (some j) i = j == i

-- Whether a tunnel but the one at the index, counted from `i`, has the name.
unfoldable pub has_duplicate : ℕ → Option ℕ → Text → List TunnelConfig → Bool
has_duplicate i current_index name [] = false
has_duplicate i current_index name (t ∷ ts) =
    (not (is_index current_index i) && eq_ignore_ascii_case t.name name)
    || has_duplicate (suc i) current_index name ts

abbrev chosen : AppConfig → Option ℕ → Text → Turn Text
chosen config current_index name =
    if has_duplicate 0 current_index name config.tunnels then again else returns name

abbrev or_current : AppConfig → Option ℕ → Option Text → Turn Text
or_current config current_index none = again
or_current config current_index (some current) = chosen config current_index current

abbrev pub name_turn : AppConfig → Option ℕ → Option Text → Text → Turn Text
name_turn config current_index current_name value =
    if is_empty value
    then or_current config current_index current_name
    else chosen config current_index value

-- The name at the index goes with the index.
unfoldable pub prompt_new_name : AppConfig → Option ℕ → Option Text → List Text → Asked Text
prompt_new_name config current_index current_name =
    ask (name_turn config current_index current_name)

-- The index of the first tunnel with the name, counted from `i`.
unfoldable pub find_name : ℕ → Text → List TunnelConfig → Option ℕ
find_name i value [] = none
find_name i value (t ∷ ts) =
    if eq_ignore_ascii_case t.name value then some i else find_name (suc i) value ts

abbrev pub by_name : Option ℕ → Turn (Option ℕ)
by_name none = again
by_name (some index) = returns (some index)

abbrev pub by_number : ParseIntError ⊎ ℕ → ℕ → Turn (Option ℕ) → Turn (Option ℕ)
by_number (inl e) count otherwise = otherwise
by_number (inr number) count otherwise =
    if leb 1 number && leb number count then returns (some (number - 1)) else otherwise

abbrev pub select_turn : List TunnelConfig → Text → Turn (Option ℕ)
select_turn tunnels value =
    if is_empty value
    then returns none
    else by_number (parse_unsigned 64 value) (length tunnels) (by_name (find_name 0 value tunnels))

unfoldable pub select_tunnel : AppConfig → List Text → Asked (Option ℕ)
select_tunnel config lines =
    if is_empty config.tunnels then answered none lines else ask (select_turn config.tunnels) lines
