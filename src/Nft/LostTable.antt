-- ===== src/Nft/LostTable.antt =====
-- A failed `NftManager::reconcile` of src/nft.rs and the one that follows it.
use vorto.Prelude.{◌≡◌, refl, ap, ◌∙◌, ◌≢◌, inl, inr, true, false, List, arith, is_empty}
use vorto.Result.{AppResult, ok, err}
use vorto.Config.Tunnel.{TunnelConfig, TunnelConfigs-discrete}
use vorto.Nft.Ruleset.{NftRuleset, from_tunnels}
use vorto.Nft.Rules.{has_no_rules-from_tunnels, names_of_all, from_tunnels_sound}
use vorto.Nft.Script.{render_script, render_rest, render_script-adds}
use vorto.Nft.Cli.{NftCommand, IsLawful, run_nft_script, delete_table}
use vorto.Nft.Manager.{NftManager, apply_ruleset, applied, reconcile}
use vorto.Nft.Tables.{Runs, delete_table_gone, run_nft_script-Runs}

module _ (C : NftCommand) (L : IsLawful C) where
  rebuild_of_change :
      (m : NftManager) (desired : List TunnelConfig) (r : NftRuleset) (s : C.State)
      → m.active_specs ≢ desired
      → from_tunnels desired m.names ≡ ok r
      → reconcile C m desired s ≡ applied C m desired (apply_ruleset C m r s)
  unfolding reconcile
  rebuild_of_change m desired r s differ built =
      elim (TunnelConfigs-discrete m.active_specs desired) [
        | yes same ↦ absurd (differ same)
        | no other ↦ ground arith
      ]

  apply_ruleset_of_rules :
      (m : NftManager) (desired : List TunnelConfig) (r : NftRuleset) (s : C.State)
      → from_tunnels desired m.names ≡ ok r
      → is_empty desired ≡ false
      → apply_ruleset C m r s
        ≡ run_nft_script C (render_script r) (delete_table C m.names.table s).1
  unfolding apply_ruleset
  apply_ruleset_of_rules m desired r s built some' =
      rw (has_no_rules-from_tunnels desired m.names r built, some')

  applied_failed :
      (m : NftManager) (desired : List TunnelConfig) (r : AppResult (Unit {0}) × C.State)
      → r.0 ≢ ok tt
      → applied C m desired r ≡ (false, m, r.1)
  applied_failed m desired (ok _, s) h = absurd (h refl)
  applied_failed m desired (err e, s) h = refl

  -- If the table is active for other tunnels, its deletion succeeds and the new script then
  -- fails, `reconcile` reports a failure and keeps the manager as it was, but the kernel has lost
  -- the table. A later `reconcile` to the recorded tunnels reports success and changes nothing.
  -- The `nft` command behaves as documented, and the new ruleset is built for at least one
  -- tunnel.
  pub reconcile-after_lost_table :
      (m : NftManager) (desired : List TunnelConfig) (r : NftRuleset) (s : C.State)
      → m.table_active ≡ true
      → m.active_specs ≢ desired
      → from_tunnels desired m.names ≡ ok r
      → is_empty desired ≡ false
      → (delete_table C m.names.table s).0 ≡ ok tt
      → (run_nft_script C (render_script r) (delete_table C m.names.table s).1).0 ≢ ok tt
      → let q = reconcile C m desired s in
        (q.0 ≡ false)
        × (q.1 ≡ m)
        × (C.has_table q.2 m.names.table ≡ false)
        × (reconcile C m m.active_specs q.2 ≡ (true, m, q.2))
  reconcile-after_lost_table m desired r s active differ built some' deleted fails =
      rw outcome (refl, refl, lost, unfold reconcile in ground arith)
    where
      after : AppResult (Unit {0}) × C.State
      after = run_nft_script C (render_script r) (delete_table C m.names.table s).1

      outcome : reconcile C m desired s ≡ (false, m, after.1)
      outcome =
          rebuild_of_change m desired r s differ built
          ∙ ap (applied C m desired) (apply_ruleset_of_rules m desired r s built some')
          ∙ applied_failed m desired after fails

      runs : Runs C L m.names.table (delete_table C m.names.table s).1 after
      runs =
          let names =
            names_of_all desired m.names r (from_tunnels_sound desired m.names r built) built in
          rw (render_script-adds r m.names names) (
            run_nft_script-Runs C L m.names.table (render_rest r)
              (delete_table C m.names.table s).1)

      lost : C.has_table after.1 m.names.table ≡ false
      lost = elim runs [
        | inl (fine, _) ↦ absurd (fails fine)
        | inr (_, same) ↦ same ∙ delete_table_gone C L m.names.table s deleted
      ]
