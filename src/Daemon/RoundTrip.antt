-- ===== src/Daemon/RoundTrip.antt =====
-- The PID file of src/main.rs is read back as it was written.
use vorto.Prelude.{
  ℕ, ◌+◌, ◌-◌, ◌*◌, ◌^◌, ◌≤◌, ◌<◌, ◌≡◌, refl, sym, subst, some, [], ◌∷◌, inr, arith, All,
}
use vorto.Text.{Text}
use vorto.Text.Decimal.{digits_value, IsDigit, decimal-value, decimal-IsDigit, decimal_cons}
use vorto.Text.Trim.{trim_of_line}
use vorto.Result.{ok}
use vorto.Fs.{FilePath, Fs, IsLawful}
use vorto.Daemon.Pid.{parse_digits, parse_u32, parse_unsigned, parse_pid, pid_line, read_pid}

digits_value-grows : (v : ℕ) (s : Text) → v ≤ digits_value v s
digits_value-grows v [] = omega arith
digits_value-grows v (c ∷ s) = omega (arith, digits_value-grows (v * 10 + (c - 48)) s)

parse_digits-eq-value :
    (v : ℕ) (s : Text)
    → All IsDigit s
    → digits_value v s < 2 ^ 32
    → parse_digits 32 v s ≡ inr (digits_value v s)
unfolding parse_digits
parse_digits-eq-value v [] d h = refl
parse_digits-eq-value v (c ∷ s) (dc, d) h =
    ground
      (arith, digits_value-grows (v * 10 + (c - 48)) s, parse_digits-eq-value (v * 10 + (c - 48)) s)

parse_u32_of_digits :
    (c : ℕ) (s : Text)
    → All IsDigit (c ∷ s)
    → digits_value 0 (c ∷ s) < 2 ^ 32
    → parse_u32 (c ∷ s) ≡ inr (digits_value 0 (c ∷ s))
unfolding parse_unsigned
parse_u32_of_digits c s (dc, d) h = ground (arith, parse_digits-eq-value 0 (c ∷ s))

-- A process id below 2 ^ 32 is read back from the line that is written for it.
pub parse_pid-line : (pid : ℕ) → pid < 2 ^ 32 → parse_pid (pid_line pid) ≡ ok pid
unfolding parse_pid
parse_pid-line pid h =
    let (c, s, shape) = decimal_cons pid in
    let digits : All IsDigit (c ∷ s) = subst (All IsDigit) shape (decimal-IsDigit pid) in
    let value : digits_value 0 (c ∷ s) ≡ pid =
      subst (λ x. digits_value 0 x ≡ pid) shape (decimal-value pid) in
    rw
      (
        shape,
        trim_of_line c s digits,
        parse_u32_of_digits c s digits (subst (λ n. n < 2 ^ 32) (sym value) h),
        value,
      )
      refl

module _ (F : Fs) (L : IsLawful F) where
  pub read_pid_of_written :
      (s : F.State) (path : FilePath) (pid : ℕ)
      → pid < 2 ^ 32
      → (F.write s path (pid_line pid)).0 ≡ ok tt
      → read_pid F (F.write s path (pid_line pid)).1 path ≡ ok (some pid)
  unfolding read_pid
  read_pid_of_written s path pid h written =
      let (found, content) = L.write_here s path (pid_line pid) written in
      rw (found, content, parse_pid-line pid h) refl
