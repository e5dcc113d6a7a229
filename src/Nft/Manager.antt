-- ===== src/Nft/Manager.antt =====
-- `NftManager` of src/nft.rs. Each method takes the state of the `nft` command and returns the new
-- one; what the program prints is left out.
use vorto.Prelude.{Bool, true, false, not, ◌&&◌, List, [], is_empty, is_yes, if◌then◌else◌, ℕ}
use vorto.Result.{AppResult, ok, err}
use vorto.Config.Tunnel.{TunnelConfig, TunnelConfigs-discrete}
use vorto.Nft.Names.{NftNames, new_names}
use vorto.Nft.Ruleset.{NftRuleset, from_tunnels, has_no_rules}
use vorto.Nft.Script.{render_script}
use vorto.Nft.Cli.{NftCommand, run_nft_script, delete_table}

pub record NftManager : Type 0 where
  pub names : NftNames
  pub active_specs : List TunnelConfig
  pub table_active : Bool

-- `NftManager::new`.
unfoldable pub new_manager : ℕ → ℕ → NftManager
new_manager pid unique = record {
  names = new_names pid unique;
  active_specs = [];
  table_active = false;
}

module _ (C : NftCommand) where
  -- `apply_ruleset`: a failed deletion before a new script is ignored.
  unfoldable pub apply_ruleset : NftManager → NftRuleset → C.State → AppResult (Unit {0}) × C.State
  apply_ruleset m r s =
      if has_no_rules r
      then delete_table C m.names.table s
      else run_nft_script C (render_script r) (delete_table C m.names.table s).1

  abbrev pub applied :
      NftManager → List TunnelConfig → AppResult (Unit {0}) × C.State → Bool × NftManager × C.State
  applied m desired (ok _, s) =
      (true, record m { active_specs = desired; table_active = not (is_empty desired) }, s)
  applied m desired (err e, s) = (false, m, s)

  abbrev pub rebuild :
      NftManager → List TunnelConfig → AppResult NftRuleset → C.State → Bool × NftManager × C.State
  rebuild m desired (err e) s = (false, m, s)
  rebuild m desired (ok r) s = applied m desired (apply_ruleset m r s)

  unfoldable pub reconcile : NftManager → List TunnelConfig → C.State → Bool × NftManager × C.State
  reconcile m desired s =
      if m.table_active && is_yes (TunnelConfigs-discrete m.active_specs desired)
      then (true, m, s)
      else rebuild m desired (from_tunnels desired m.names) s

  unfoldable pub stop_all : NftManager → C.State → NftManager × C.State
  stop_all m s = (
    record m { active_specs = []; table_active = false },
    if m.table_active then (delete_table C m.names.table s).1 else s,
  )

  -- `Drop::drop`.
  unfoldable pub drop : NftManager → C.State → C.State
  drop m s = if m.table_active then (delete_table C m.names.table s).1 else s
