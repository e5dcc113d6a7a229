-- ===== src/Result.antt =====
-- `AppResult` of src/main.rs: results whose error is a boxed `std::error::Error`.
use vorto.Prelude.{◌≡◌, ◌⊎◌, inl, inr, refl, Bool, true, false, ℕ, Option, none, some, arith}
use vorto.Text.{Text}

-- The kinds of `io::Error` that the program makes.
pub data ErrorKind : Type 0 where
  not_found invalid_data invalid_input unsupported timed_out write_zero broken_pipe other :
      ErrorKind

-- The errors that reach an `AppResult`: an `io::Error` with a message, one with an OS error code,
-- an `AddrParseError`, and an error of the YAML library with its message.
pub data AppError : Type 0 where
  io : ErrorKind → Text → AppError
  os : ℕ → AppError
  addr_parse : AppError
  yaml : Text → AppError

pub data AppResult {ℓ} (V : Type ℓ) : Type ℓ where
  ok : V → AppResult V
  err : AppError → AppResult V

-- `Result::is_ok`.
abbrev pub is_ok {ℓ} : {V : Type ℓ} → AppResult V → Bool
is_ok (ok v) = true
is_ok (err e) = false

-- `Option::ok_or`.
abbrev pub ok_or {ℓ} : {V : Type ℓ} → Option V → AppError → AppResult V
ok_or none e = err e
ok_or (some v) e = ok v

-- `if b { return Err(e) }`.
abbrev pub fail_if : Bool → AppError → AppResult (Unit {0})
fail_if false _ = ok tt
fail_if true e = err e

-- The operator `?`.
infixl 5 ◌>>=◌ ◌>>◌
abbrev pub ◌>>=◌ {ℓ κ} : {V : Type ℓ} {W : Type κ} → AppResult V → (V → AppResult W) → AppResult W
err e >>= next = err e
ok v >>= next = next v

abbrev pub ◌>>◌ {κ} : {W : Type κ} → AppResult (Unit {0}) → AppResult W → AppResult W
first >> second = first >>= λ _. second

-- A chain that succeeds: its first part did, and so did the rest on the value of the first.
pub >>=-eq-ok {ℓ κ} :
    {V : Type ℓ} {W : Type κ} (first : AppResult V) (next : V → AppResult W) {w : W}
    → (first >>= next) ≡ ok w
    → (v : V) × (first ≡ ok v) × (next v ≡ ok w)
>>=-eq-ok (err e) next done = absurd (ground arith)
>>=-eq-ok (ok v) next done = (v, refl, done)

-- To split on a computed result and keep the equation.
pub AppResult-cases {ℓ} :
    {V : Type ℓ} (r : AppResult V) → ((v : V) × (r ≡ ok v)) ⊎ ((e : AppError) × (r ≡ err e))
AppResult-cases (err e) = inr (e, refl)
AppResult-cases (ok v) = inl (v, refl)
