-- ===== src/Nft/Tables.antt =====
-- Which tables of the kernel `NftManager` of src/nft.rs leaves behind.
use vorto.Prelude.{◌≡◌, refl, ◌≢◌, ◌⊎◌, inl, inr, true, false, ◌++◌, arith, Bool-cases, ℕ}
use vorto.Text.{Text, text}
use vorto.Result.{AppResult, ok, err, AppResult-cases}
use vorto.Nft.Script.{writeln}
use vorto.Nft.Cli.{Output, NftCommand, IsLawful, finish, feed, run_nft_script, delete_table}

-- An output of a command that succeeded.
abbrev Succeeded : AppResult Output → Type 0
Succeeded r = (o : Output) × (r ≡ ok o) × (o.success ≡ true)

Succeeded-cases :
    (r : AppResult Output) → Succeeded r ⊎ ((o : Output) → r ≡ ok o → o.success ≡ false)
Succeeded-cases (err e) = inr λ o h. ground arith
Succeeded-cases (ok o) = elim (Bool-cases o.success) [
  | inl s ↦ inl (o, refl, s)
  | inr f ↦ inr λ o' h. ground arith
]

module _ (C : NftCommand) (L : IsLawful C) where
  pub delete_table_gone :
      (table : Text) (s : C.State)
      → (delete_table C table s).0 ≡ ok tt
      → C.has_table (delete_table C table s).1 table ≡ false
  unfolding delete_table
  delete_table_gone table s h = elim (AppResult-cases (C.delete s table).0) [
    | inr (e, failed) ↦ ground arith
    | inl (o, done) ↦ elim (Bool-cases o.success) [
      | inl yes' ↦ L.delete_gone s table o done (inl yes')
      | inr no' ↦ L.delete_gone s table o done (inr (ground arith))
    ]
  ]

  pub delete_table_absent :
      (table : Text) (s : C.State)
      → C.has_table s table ≡ false
      → C.has_table (delete_table C table s).1 table ≡ false
  unfolding delete_table
  delete_table_absent table s h = L.delete_never_adds s table h

  -- A script that succeeds adds its table; one that fails changes no table.
  abbrev pub Runs : Text → C.State → AppResult (Unit {0}) × C.State → Type 0
  Runs table s r =
      ((r.0 ≡ ok tt) × (C.has_table r.1 table ≡ true))
      ⊎ ((r.0 ≢ ok tt) × (C.has_table r.1 table ≡ C.has_table s table))

  abbrev adding : Text → Text → Text
  adding table rest = writeln (text "add table ip " ++ table) rest

  finish-Runs :
      (table rest : Text) (child : ℕ) (s : C.State)
      → C.input s child ≡ adding table rest
      → Runs table s (finish C (C.wait_with_output s child))
  finish-Runs table rest child s given = elim (Succeeded-cases (C.wait_with_output s child).0) [
    | inl (o, done, success) ↦
        inl (ground arith, ground (arith, L.wait_adds s child table rest o done success given))
    | inr failed ↦ elim (AppResult-cases (C.wait_with_output s child).0) [
      | inl (o, done) ↦
          inr (
            (λ h. ground (arith, failed o done)),
            ground (arith, L.wait_fails s child table failed),
          )
      | inr (e, broken) ↦
          inr ((λ h. ground arith), ground (arith, L.wait_fails s child table failed))
    ]
  ]

  feed-Runs :
      (table rest : Text) (child : ℕ) (s : C.State)
      → Runs table s (feed C (adding table rest) child s)
  unfolding feed
  feed-Runs table rest child s =
      elim (AppResult-cases (C.write_all s child (adding table rest)).0) [
        | inr (e, failed) ↦
            rw (failed, feed) (inr ((λ h. ground arith), L.write_keeps s child _ table))
        | inl (_, written) ↦
            rw (written, feed)
              (rw (L.write_keeps s child (adding table rest) table) at (
                finish-Runs table rest child (C.write_all s child (adding table rest)).1
                  (L.write_input s child _ written)))
      ]

  -- With an `nft` command that behaves as documented, a script that begins by adding a table
  -- either succeeds, and the kernel has that table, or fails, and the table is there exactly if
  -- it was before.
  pub run_nft_script-Runs :
      (table rest : Text) (s : C.State) → Runs table s (run_nft_script C (adding table rest) s)
  unfolding run_nft_script
  run_nft_script-Runs table rest s = elim (AppResult-cases (C.spawn s).0) [
    | inr (e, failed) ↦
        rw (failed, run_nft_script) (inr ((λ h. ground arith), L.spawn_keeps s table))
    | inl (pid, started) ↦
        rw (started, run_nft_script)
          (rw (L.spawn_keeps s table) at (feed-Runs table rest pid (C.spawn s).1))
  ]
