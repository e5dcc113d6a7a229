-- ===== src/Nft/Names.antt =====
-- `NftNames` of src/nft.rs.
use mathlib.Core.List.{append_cancel_left}
use vorto.Prelude.{ℕ, ◌≡◌, ◌∷◌, ◌++◌, arith}
use vorto.Text.{Text, text, decimal}
use vorto.Text.Decimal.{decimal-IsDigit, decimal_injective, split_at_mark}

pub record NftNames : Type 0 where
  pub table : Text
  pub prerouting_chain : Text
  pub output_chain : Text
  pub postrouting_chain : Text
  pub target_set : Text

abbrev suffix : ℕ → ℕ → Text
suffix pid unique = decimal pid ++ b'_' ∷ decimal unique

-- `NftNames::new`, from the process id and the nanoseconds since the epoch.
unfoldable pub new_names : ℕ → ℕ → NftNames
new_names pid unique = record {
  table = text "vorto_nat_" ++ suffix pid unique;
  prerouting_chain = text "vorto_pre_" ++ suffix pid unique;
  output_chain = text "vorto_out_" ++ suffix pid unique;
  postrouting_chain = text "vorto_post_" ++ suffix pid unique;
  target_set = text "vorto_targets_" ++ suffix pid unique;
}

-- Two managers have one table name only if they have the same process id and the same creation
-- time.
pub table_injective :
    (pid unique pid' unique' : ℕ)
    → (new_names pid unique).table ≡ (new_names pid' unique').table
    → (pid ≡ pid') × (unique ≡ unique')
unfolding new_names
table_injective pid unique pid' unique' e =
    let (p, u) =
      split_at_mark b'_' (decimal pid) (decimal pid') _ _ (λ d. omega arith) (decimal-IsDigit pid)
        (decimal-IsDigit pid') (append_cancel_left (text "vorto_nat_") _ _ e) in
    (decimal_injective pid pid' p, decimal_injective unique unique' u)
