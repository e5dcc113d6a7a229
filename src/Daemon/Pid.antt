-- ===== src/Daemon/Pid.antt =====
-- The PID file of src/main.rs, and `u32::from_str` of std.
use vorto.Prelude.{
  ℕ, ◌+◌, ◌-◌, ◌*◌, ◌^◌, ◌&&◌, Option, none, some, [], ◌∷◌, ◌++◌, ◌⊎◌, inl, inr, leb, ltb, ◌==◌,
  if◌then◌else◌, is_empty, not,
}
use vorto.Text.{Text, text, trim, decimal}
use vorto.Result.{AppResult, io, ErrorKind, ok, err, ◌>>=◌}
use vorto.Fs.{FilePath, Fs}

-- `IntErrorKind` as far as an unsigned parse gives it.
pub data ParseIntError : Type 0 where
  empty invalid_digit pos_overflow : ParseIntError

abbrev pub parse_int_message : ParseIntError → Text
parse_int_message empty = text "cannot parse integer from empty string"
parse_int_message invalid_digit = text "invalid digit found in string"
parse_int_message pos_overflow = text "number too large to fit in target type"

-- The number after one more digit, if it is one and the sum fits in the bits.
abbrev pub push_digit : ℕ → ℕ → ℕ → ParseIntError ⊎ ℕ
push_digit bits value c =
    if leb 48 c && leb c 57
    then (if ltb (value * 10 + (c - 48)) (2 ^ bits)
        then inr (value * 10 + (c - 48))
        else inl pos_overflow)
    else inl invalid_digit

unfoldable pub parse_digits : ℕ → ℕ → Text → ParseIntError ⊎ ℕ
parse_digits bits value [] = inr value
parse_digits bits value (c ∷ s) = elim (push_digit bits value c) [
  | inl e ↦ inl e
  | inr next ↦ parse_digits bits next s
]

-- `from_str` of an unsigned type: a plus is skipped, unless it stands alone.
unfoldable pub parse_unsigned : ℕ → Text → ParseIntError ⊎ ℕ
unfolding parse_digits
parse_unsigned bits [] = inl empty
parse_unsigned bits (c ∷ s) =
    if c == b'+' && not (is_empty s) then parse_digits bits 0 s else parse_digits bits 0 (c ∷ s)

abbrev pub parse_u32 : Text → ParseIntError ⊎ ℕ
parse_u32 s = parse_unsigned 32 s

abbrev pub pid_of : ParseIntError ⊎ ℕ → AppResult ℕ
pid_of (inl e) =
    err (io ErrorKind.invalid_data (text "Invalid PID file contents: " ++ parse_int_message e))
pid_of (inr pid) = ok pid

unfoldable pub parse_pid : Text → AppResult ℕ
parse_pid content = pid_of (parse_u32 (trim content))

-- `i32::try_from`.
unfoldable pub platform_pid : ℕ → AppResult ℕ
platform_pid pid =
    if ltb pid (2 ^ 31)
    then ok pid
    else err (
        io ErrorKind.invalid_input
          (text "PID " ++ decimal pid ++ text " is too large for platform APIs."))

-- `format!("{}\n", pid)`.
abbrev pub pid_line : ℕ → Text
pid_line pid = decimal pid ++ 10 ∷ []

module _ (F : Fs) where
  unfoldable pub read_pid : F.State → FilePath → AppResult (Option ℕ)
  read_pid s path =
      if F.exists s path
      then (do content ← F.read_to_string s path; pid ← parse_pid content; ok (some pid))
      else ok none

  -- `PidFileGuard::new`.
  unfoldable pub new_guard : ℕ → FilePath → F.State → AppResult (Unit {0}) × F.State
  new_guard pid path s = F.write s path (pid_line pid)

  -- `PidFileGuard::drop`.
  unfoldable pub drop_guard : FilePath → F.State → F.State
  drop_guard path s = (F.remove_file s path).1
