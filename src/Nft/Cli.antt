-- ===== src/Nft/Cli.antt =====
-- `run_nft_script` and `delete_table` of src/nft.rs over the `nft` command, which is an interface
-- with an unknown state.
use vorto.Prelude.{ℕ, ◌≡◌, ◌⊎◌, Bool, true, false, ◌++◌, if◌then◌else◌}
use vorto.Text.{Text, text, trim, contains_text}
use vorto.Result.{AppResult, io, ErrorKind, ok, err}
use vorto.Nft.Script.{writeln}

-- `std::process::Output`, with the error stream decoded.
pub record Output : Type 0 where
  pub success : Bool
  pub stderr : Text

pub record NftCommand : Type 1 where
  pub State : Type 0
  -- Whether a table of this name exists in the kernel.
  pub has_table : State → Text → Bool
  -- The script that a child process has been given so far.
  pub input : State → ℕ → Text
  -- `nft delete table ip <table>`, run to its end.
  pub delete : State → Text → AppResult Output × State
  -- `nft -f -`, started with a pipe for its input.
  pub spawn : State → AppResult ℕ × State
  pub write_all : State → ℕ → Text → AppResult (Unit {0}) × State
  pub wait_with_output : State → ℕ → AppResult Output × State

module _ (C : NftCommand) where
  abbrev pub finish : AppResult Output × C.State → AppResult (Unit {0}) × C.State
  finish (err e, s) = (err e, s)
  finish (ok output, s) = (
    if output.success
        then ok tt
        else err (io ErrorKind.other (text "nft apply failed: " ++ trim output.stderr)),
    s,
  )

  -- The child is given the script and awaited.
  unfoldable pub feed : Text → ℕ → C.State → AppResult (Unit {0}) × C.State
  feed script child s =
      let (written, s1) = C.write_all s child script in
      elim written [ err e ↦ (err e, s1) | ok _ ↦ finish (C.wait_with_output s1 child) ]

  unfoldable pub run_nft_script : Text → C.State → AppResult (Unit {0}) × C.State
  unfolding feed
  run_nft_script script s =
      let (child, s1) = C.spawn s in
      elim child [ err e ↦ (err e, s1) | ok pid ↦ feed script pid s1 ]

  -- How `delete_table` reads the outcome of the command.
  abbrev deleted : AppResult Output → AppResult (Unit {0})
  deleted (err e) = err e
  deleted (ok output) =
      if output.success
      then ok tt
      else if contains_text output.stderr (text "No such file or directory")
      then ok tt
      else err (io ErrorKind.other (text "nft delete table failed: " ++ trim output.stderr))

  unfoldable pub delete_table : Text → C.State → AppResult (Unit {0}) × C.State
  delete_table table s = let (result, s1) = C.delete s table in (deleted result, s1)

-- What `nft` documents: a table is gone after it was deleted or was found missing, no other outcome
-- of a deletion changes the tables, a script runs as one transaction once it has been read, and one
-- that succeeds and begins by adding a table leaves that table in place.
pub record IsLawful (C : NftCommand) : Type 0 where
  pub delete_gone :
      (s : C.State) (table : Text) (o : Output)
      → (C.delete s table).0 ≡ ok o
      → (o.success ≡ true) ⊎ (contains_text o.stderr (text "No such file or directory") ≡ true)
      → C.has_table (C.delete s table).1 table ≡ false
  pub delete_never_adds :
      (s : C.State) (table : Text)
      → C.has_table s table ≡ false
      → C.has_table (C.delete s table).1 table ≡ false
  pub spawn_keeps : (s : C.State) (t : Text) → C.has_table (C.spawn s).1 t ≡ C.has_table s t
  pub write_keeps :
      (s : C.State) (child : ℕ) (script t : Text)
      → C.has_table (C.write_all s child script).1 t ≡ C.has_table s t
  pub write_input :
      (s : C.State) (child : ℕ) (script : Text)
      → (C.write_all s child script).0 ≡ ok tt
      → C.input (C.write_all s child script).1 child ≡ script
  pub wait_fails :
      (s : C.State) (child : ℕ) (t : Text)
      → ((o : Output) → (C.wait_with_output s child).0 ≡ ok o → o.success ≡ false)
      → C.has_table (C.wait_with_output s child).1 t ≡ C.has_table s t
  pub wait_adds :
      (s : C.State) (child : ℕ) (t rest : Text) (o : Output)
      → (C.wait_with_output s child).0 ≡ ok o
      → o.success ≡ true
      → C.input s child ≡ writeln (text "add table ip " ++ t) rest
      → C.has_table (C.wait_with_output s child).1 t ≡ true
