-- ===== src/Daemon/Cmdline.antt =====
-- How src/main.rs recognises the daemon's process by its command line.
use vorto.Prelude.{
  ℕ, ◌+◌, ◌/◌, ◌%◌, Bool, false, not, ◌&&◌, Option, none, some, List, [], ◌∷◌, ◌++◌, keep_if,
  is_empty, is_yes, ltb, ◌==◌, if◌then◌else◌,
}
use vorto.Text.{Text, text, Text-discrete}

-- The bytes of a text in UTF-8.
abbrev pub utf8_char : ℕ → List ℕ
utf8_char c =
    if ltb c 0x80
    then c ∷ []
    else if ltb c 0x800
    then (0xc0 + c / 64) ∷ (0x80 + c % 64) ∷ []
    else if ltb c 0x10000
    then (0xe0 + c / 4096) ∷ (0x80 + c / 64 % 64) ∷ (0x80 + c % 64) ∷ []
    else (0xf0 + c / 262144) ∷ (0x80 + c / 4096 % 64) ∷ (0x80 + c / 64 % 64) ∷ (0x80 + c % 64) ∷ []

unfoldable pub as_bytes : Text → List ℕ
as_bytes [] = []
as_bytes (c ∷ s) = utf8_char c ++ as_bytes s

abbrev pub push_front : ℕ → List (List ℕ) → List (List ℕ)
push_front c [] = (c ∷ []) ∷ []
push_front c (part ∷ parts) = (c ∷ part) ∷ parts

-- `slice::split` at a byte.
unfoldable pub split_at_byte : ℕ → List ℕ → List (List ℕ)
split_at_byte mark [] = [] ∷ []
split_at_byte mark (c ∷ s) =
    let rest = split_at_byte mark s in if c == mark then [] ∷ rest else push_front c rest

abbrev pub daemon_worker : Text
daemon_worker = text "__daemon_worker"

abbrev pub last_part : List (List ℕ) → Option (List ℕ)
last_part [] = none
last_part (p ∷ []) = some p
last_part (p ∷ q ∷ ps) = last_part (q ∷ ps)

-- `Path::file_name`: the last component, unless that is `..`; a component `.` or an empty one does
-- not count.
unfoldable pub file_name : List ℕ → Option (List ℕ)
unfolding split_at_byte
file_name path =
    elim (last_part (
      keep_if (λ p. not (is_yes (Text-discrete p (b'.' ∷ []))) && not (is_empty p))
        (split_at_byte b'/' path))) [
          | none ↦ none
          | some p ↦ if is_yes (Text-discrete p (b'.' ∷ b'.' ∷ [])) then none else some p
        ]

abbrev pub is_name : Option (List ℕ) → Text → Bool
is_name none binary_name = false
is_name (some name) binary_name = is_yes (Text-discrete name (as_bytes binary_name))

unfoldable pub daemon_program_name : List ℕ → Text → Bool
daemon_program_name program binary_name = is_name (file_name program) binary_name

abbrev pub is_worker : List (List ℕ) → Text → Bool
is_worker (program ∷ worker_arg ∷ parts) binary_name =
    daemon_program_name program binary_name
    && is_yes (Text-discrete worker_arg (as_bytes daemon_worker))
is_worker (program ∷ []) binary_name = false
is_worker [] binary_name = false

unfoldable pub is_daemon_worker_cmdline : List ℕ → Text → Bool
unfolding split_at_byte
is_daemon_worker_cmdline cmdline binary_name =
    is_worker (keep_if (λ p. not (is_empty p)) (split_at_byte 0 cmdline)) binary_name
