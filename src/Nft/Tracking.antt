-- ===== src/Nft/Tracking.antt =====
-- `NftManager` of src/nft.rs knows of every table that it has in the kernel, so that `stop_all` and
-- `drop` find it.
use vorto.Prelude.{
  ◌≡◌, refl, sym, subst, ◌∙◌, ◌≢◌, ◌⊎◌, inl, inr, Bool, true, false, not, List, arith, is_empty,
  Bool-cases,
}
use vorto.Result.{AppResult, ok, AppResult-cases}
use vorto.Config.Tunnel.{TunnelConfig, TunnelConfigs-discrete}
use vorto.Nft.Ruleset.{NftRuleset, from_tunnels}
use vorto.Nft.Rules.{has_no_rules-from_tunnels, names_of_all, from_tunnels_sound}
use vorto.Nft.Script.{render_rest, render_script-adds}
use vorto.Nft.Cli.{NftCommand, IsLawful, delete_table}
use vorto.Nft.Manager.{NftManager, apply_ruleset, applied, rebuild, reconcile, stop_all, drop}
use vorto.Nft.Tables.{delete_table_gone, delete_table_absent, run_nft_script-Runs}

module _ (C : NftCommand) (L : IsLawful C) where
  -- The table of `m` exists after success exactly if there are tunnels, and a failure adds none.
  abbrev Applies :
      NftManager → List TunnelConfig → C.State → AppResult (Unit {0}) × C.State → Type 0
  Applies m desired s r =
      ((r.0 ≡ ok tt) × (C.has_table r.1 m.names.table ≡ not (is_empty desired)))
      ⊎ ((r.0 ≢ ok tt)
          × (C.has_table s m.names.table ≡ false → C.has_table r.1 m.names.table ≡ false))

  apply_ruleset-Applies :
      (m : NftManager) (desired : List TunnelConfig) (r : NftRuleset) (s : C.State)
      → from_tunnels desired m.names ≡ ok r
      → Applies m desired s (apply_ruleset C m r s)
  unfolding apply_ruleset
  apply_ruleset-Applies m desired r s built = elim (Bool-cases (is_empty desired)) [
    | inl none' ↦
        rw (has_no_rules-from_tunnels desired m.names r built, none')
          (elim (AppResult-cases (delete_table C m.names.table s).0) [
            | inl (_, done) ↦ inl (done, delete_table_gone C L m.names.table s done)
            | inr (e, failed) ↦ inr ((λ h. ground arith), delete_table_absent C L m.names.table s)
          ])
    | inr some' ↦
        let names =
          names_of_all desired m.names r (from_tunnels_sound desired m.names r built) built in
        rw
          (
            has_no_rules-from_tunnels desired m.names r built,
            some',
            render_script-adds r m.names names,
          )
          (elim (run_nft_script-Runs C L m.names.table (render_rest r)
            (delete_table C m.names.table s).1) [
              | inl (done, there) ↦ inl (done, there)
              | inr (failed, same) ↦
                  inr (failed, λ h. same ∙ delete_table_absent C L m.names.table s h)
            ])
  ]

  pub record Tracks (m : NftManager) (s : C.State) : Type 0 where
    pub tracked : C.has_table s m.names.table ≡ true → m.table_active ≡ true
    pub counted : m.table_active ≡ not (is_empty m.active_specs)

  -- Nothing had to be done, or the ruleset is in place, or the manager is as it was and has no
  -- table that it did not have.
  abbrev pub Reconciles :
      NftManager → List TunnelConfig → C.State → Bool × NftManager × C.State → Type 0
  Reconciles m desired s r =
      ((m.table_active ≡ true) × (m.active_specs ≡ desired) × (r ≡ (true, m, s)))
      ⊎ ((r.0 ≡ true)
          × (r.1 ≡ record m { active_specs = desired; table_active = not (is_empty desired) })
          × (C.has_table r.2 m.names.table ≡ not (is_empty desired)))
      ⊎ ((r.0 ≡ false)
          × (r.1 ≡ m)
          × (C.has_table s m.names.table ≡ false → C.has_table r.2 m.names.table ≡ false))

  failed_case :
      (m : NftManager) (desired : List TunnelConfig) (r : NftRuleset) (s : C.State)
      → (apply_ruleset C m r s).0 ≢ ok tt
      → (C.has_table s m.names.table ≡ false
          → C.has_table (apply_ruleset C m r s).1 m.names.table ≡ false)
      → let q = applied C m desired (apply_ruleset C m r s) in
        (q.0 ≡ false)
        × (q.1 ≡ m)
        × (C.has_table s m.names.table ≡ false → C.has_table q.2 m.names.table ≡ false)
  failed_case m desired r s failed absent = elim (AppResult-cases (apply_ruleset C m r s).0) [
    | inl (_, done) ↦ absurd (failed done)
    | inr (e, broken) ↦ rw broken (refl, refl, absent)
  ]

  rebuild-Reconciles :
      (m : NftManager) (desired : List TunnelConfig) (s : C.State)
      → Reconciles m desired s (rebuild C m desired (from_tunnels desired m.names) s)
  rebuild-Reconciles m desired s = elim (AppResult-cases (from_tunnels desired m.names)) [
    | inr (e, refused) ↦ rw refused (inr (inr (refl, refl, λ h. h)))
    | inl (r, built) ↦ rw built (elim (apply_ruleset-Applies m desired r s built) [
      | inl (done, there) ↦
          inr (inl (ground (arith, done), ground (arith, done), ground (arith, done, there)))
      | inr (failed, absent) ↦ inr (inr (failed_case m desired r s failed absent))
    ])
  ]

  -- With an `nft` command that behaves as documented, `reconcile` has three outcomes for any
  -- manager. The table is active for these tunnels already, and nothing changes. It succeeds,
  -- records the tunnels, and the kernel has the table exactly if there are tunnels. It fails,
  -- leaves the manager as it was, and adds no table.
  pub reconcile-Reconciles :
      (m : NftManager) (desired : List TunnelConfig) (s : C.State)
      → Reconciles m desired s (reconcile C m desired s)
  unfolding reconcile
  reconcile-Reconciles m desired s = elim (Bool-cases m.table_active) [
    | inr idle ↦ subst (Reconciles m desired s) (ground arith) (rebuild-Reconciles m desired s)
    | inl active ↦ elim (TunnelConfigs-discrete m.active_specs desired) [
      | yes same ↦ inl (active, same, ground arith)
      | no differ ↦ subst (Reconciles m desired s) (ground arith) (rebuild-Reconciles m desired s)
    ]
  ]

  -- With an `nft` command that behaves as documented, `reconcile` keeps the invariant of the nft
  -- manager: if the kernel has its table, the table is marked active, and it is marked active
  -- exactly if tunnels are recorded.
  pub reconcile-Tracks :
      (m : NftManager) (desired : List TunnelConfig) (s : C.State)
      → Tracks m s
      → let r = reconcile C m desired s in Tracks r.1 r.2
  reconcile-Tracks m desired s t = elim (reconcile-Reconciles m desired s) [
    | inl (active, same, e) ↦ subst (λ q. Tracks q.1 q.2) (sym e) t
    | inr (inl (done, e, there)) ↦
        subst (λ n. Tracks n (reconcile C m desired s).2) (sym e)
          (record { tracked = λ h. sym there ∙ h; counted = refl })
    | inr (inr (failed, e, absent)) ↦
        subst (λ n. Tracks n (reconcile C m desired s).2) (sym e)
          (record { tracked = λ h. ground (arith, t.tracked, absent); counted = t.counted })
  ]

  -- With an `nft` command that behaves as documented and a manager that knows of its table,
  -- `stop_all` leaves the manager inactive, and leaves the kernel without the table unless the
  -- deletion of an active table fails.
  pub stop_all-Tracks :
      (m : NftManager) (s : C.State)
      → Tracks m s
      → (m.table_active ≡ true → (delete_table C m.names.table s).0 ≡ ok tt)
      → let r = stop_all C m s in
        Tracks r.0 r.1 × (r.0.table_active ≡ false) × (C.has_table r.1 m.names.table ≡ false)
  unfolding stop_all
  stop_all-Tracks m s t deletes = elim (Bool-cases m.table_active) [
    | inl active ↦
        let gone = delete_table_gone C L m.names.table s (deletes active) in
        rw active (record { tracked = λ h. ground arith; counted = refl }, refl, gone)
    | inr idle ↦
        let gone : C.has_table s m.names.table ≡ false = ground (arith, t.tracked) in
        rw idle (record { tracked = λ h. ground arith; counted = refl }, refl, gone)
  ]

  -- With an `nft` command that behaves as documented and a manager that knows of its table, a
  -- dropped manager leaves the kernel without the table unless the deletion of an active table
  -- fails.
  pub has_table-drop :
      (m : NftManager) (s : C.State)
      → Tracks m s
      → (m.table_active ≡ true → (delete_table C m.names.table s).0 ≡ ok tt)
      → C.has_table (drop C m s) m.names.table ≡ false
  unfolding drop
  has_table-drop m s t deletes = elim (Bool-cases m.table_active) [
    | inl active ↦ rw active (delete_table_gone C L m.names.table s (deletes active))
    | inr idle ↦ rw idle (ground (arith, t.tracked))
  ]
