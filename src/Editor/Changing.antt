-- ===== src/Editor/Changing.antt =====
-- `edit_tunnel`, `toggle_tunnel` and `delete_tunnel` of src/interactive.rs keep the tunnels valid, and do
-- not index out of range.
use vorto.Prelude.{
  ℕ, zero, suc, ◌+◌, ◌<◌, ◌≤◌, ◌≡◌, ◌≢◌, refl, sym, ap, subst, false, not, Option, none, some, List,
  [], ◌∷◌, arith, All, IsDistinct, length, Bool-cases, inl, inr, is_empty,
}
use vorto.Text.{Text, to_ascii_lowercase}
use vorto.Result.{ok}
use vorto.Config.Tunnel as Tunnel
use vorto.Config.Tunnel.{TunnelConfig, AppConfig}
use vorto.Config.Valid.{IsTunnel, IsTunnel-of_validate, names_of}
use vorto.Editor.Prompts.{Asked, answered, then_ask, has_duplicate, select_tunnel}
use vorto.Editor.Edits.{
  Edited, tunnel_at, set_at, remove_at, with_selected, edit_selected, edit_tunnel, toggle_selected,
  toggle_tunnel, delete_selected, delete_tunnel,
}
use vorto.Editor.Answers.{select_tunnel-selects}
use vorto.Editor.Keeping.{
  IsEditable, IsPrompt, Keeps, Keeps-then_ask, ask-IsPrompt, confirm-Keeps, questions-Keeps,
}

module _ (P : TunnelConfig → Type 0) where
  All-set_at :
      (i : ℕ) (t : TunnelConfig) (ts : List TunnelConfig) → All P ts → P t → All P (set_at i t ts)
  unfolding set_at
  All-set_at i t [] h p = tt
  All-set_at zero t (u ∷ ts) (_, h) p = (p, h)
  All-set_at (suc i) t (u ∷ ts) (q, h) p = (q, All-set_at i t ts h p)

  All-remove_at : (i : ℕ) (ts : List TunnelConfig) → All P ts → All P (remove_at i ts)
  unfolding remove_at
  All-remove_at i [] h = tt
  All-remove_at zero (u ∷ ts) (_, h) = h
  All-remove_at (suc i) (u ∷ ts) (q, h) = (q, All-remove_at i ts h)

  All-tunnel_at :
      (i : ℕ) (t : TunnelConfig) (ts : List TunnelConfig) → All P ts → tunnel_at i ts ≡ some t → P t
  unfolding tunnel_at
  All-tunnel_at i t [] h e = absurd (ground arith)
  All-tunnel_at zero t (u ∷ ts) (p, h) e = subst P (ground arith) p
  All-tunnel_at (suc i) t (u ∷ ts) (p, h) e = All-tunnel_at i t ts h e

module _ (P : Text → Type 0) where
  names_of-All-set_at :
      (i : ℕ) (t : TunnelConfig) (ts : List TunnelConfig)
      → All P (names_of ts)
      → P t.name
      → All P (names_of (set_at i t ts))
  unfolding set_at
  names_of-All-set_at i t [] h p = tt
  names_of-All-set_at zero t (u ∷ ts) (_, h) p = (p, h)
  names_of-All-set_at (suc i) t (u ∷ ts) (q, h) p = (q, names_of-All-set_at i t ts h p)

  names_of-All-remove_at :
      (i : ℕ) (ts : List TunnelConfig) → All P (names_of ts) → All P (names_of (remove_at i ts))
  unfolding remove_at
  names_of-All-remove_at i [] h = tt
  names_of-All-remove_at zero (u ∷ ts) (_, h) = h
  names_of-All-remove_at (suc i) (u ∷ ts) (q, h) = (q, names_of-All-remove_at i ts h)

remove_at-IsDistinct :
    (i : ℕ) (ts : List TunnelConfig)
    → IsDistinct (names_of ts)
    → IsDistinct (names_of (remove_at i ts))
unfolding remove_at
remove_at-IsDistinct i [] d = tt
remove_at-IsDistinct zero (u ∷ ts) (f, d) = d
remove_at-IsDistinct (suc i) (u ∷ ts) (f, d) =
    (names_of-All-remove_at (λ y. u.name ≢ y) i ts f, remove_at-IsDistinct i ts d)

-- The index itself lies before these tunnels.
others_above :
    (k j : ℕ) (name : Text) (ts : List TunnelConfig)
    → k < j
    → has_duplicate j (some k) name ts ≡ false
    → All (λ n. name ≢ n) (names_of ts)
unfolding has_duplicate
others_above k j name [] below h = tt
others_above k j name (t ∷ ts) below h = (
  (λ same. ground (arith, ap to_ascii_lowercase same)),
  others_above k (suc j) name ts (omega (arith, below)) (ground arith),
)

set_at-IsDistinct :
    (i j : ℕ) (t : TunnelConfig) (ts : List TunnelConfig)
    → IsDistinct (names_of ts)
    → has_duplicate j (some (j + i)) t.name ts ≡ false
    → IsDistinct (names_of (set_at i t ts))
unfolding set_at has_duplicate
set_at-IsDistinct i j t [] d h = tt
set_at-IsDistinct zero j t (u ∷ ts) (f, d) h =
    (others_above (j + 0) (suc j) t.name ts (omega arith) (ground arith), d)
set_at-IsDistinct (suc i) j t (u ∷ ts) (f, d) h = (
  names_of-All-set_at (λ y. u.name ≢ y) i t ts f
      (λ same. ground (arith, ap to_ascii_lowercase same)),
  set_at-IsDistinct i (suc j) t ts d (ground arith),
)

names_of-set_at :
    (i : ℕ) (t u : TunnelConfig) (ts : List TunnelConfig)
    → tunnel_at i ts ≡ some t
    → u.name ≡ t.name
    → names_of (set_at i u ts) ≡ names_of ts
unfolding set_at tunnel_at
names_of-set_at i t u [] e same = refl
names_of-set_at zero t u (x ∷ ts) e same = ground (arith, same)
names_of-set_at (suc i) t u (x ∷ ts) e same = ap (◌∷◌ x.name) (names_of-set_at i t u ts e same)

module _ (c : AppConfig) (v : IsEditable c) where
  edited-IsEditable :
      (i : ℕ) (t : TunnelConfig)
      → has_duplicate 0 (some i) t.name c.tunnels ≡ false
      → Tunnel.validate t ≡ ok tt
      → IsEditable (record c { tunnels = set_at i t c.tunnels })
  edited-IsEditable i t free valid = record {
    tunnels = All-set_at IsTunnel i t c.tunnels v.tunnels (IsTunnel-of_validate t valid);
    distinct =
        set_at-IsDistinct i 0 t c.tunnels v.distinct
          (subst (λ k. has_duplicate 0 (some k) t.name c.tunnels ≡ false) (omega arith) free);
  }

  removed-IsEditable : (i : ℕ) → IsEditable (record c { tunnels = remove_at i c.tunnels })
  removed-IsEditable i = record {
    tunnels = All-remove_at IsTunnel i c.tunnels v.tunnels;
    distinct = remove_at-IsDistinct i c.tunnels v.distinct;
  }

  toggled-IsEditable :
      (i : ℕ) (t : TunnelConfig)
      → tunnel_at i c.tunnels ≡ some t
      → IsEditable
          (record c { tunnels = set_at i (record t { enabled = not t.enabled }) c.tunnels })
  toggled-IsEditable i t there =
      let u : TunnelConfig = record t { enabled = not t.enabled } in
      let old = All-tunnel_at IsTunnel i t c.tunnels v.tunnels there in
      record {
        tunnels =
            All-set_at IsTunnel i u c.tunnels v.tunnels
              (record { named = old.named; listens = old.listens; targets = old.targets });
        distinct = subst IsDistinct (sym (names_of-set_at i t u c.tunnels there refl)) v.distinct;
      }

  select_tunnel-IsPrompt :
      (n : ℕ) (lines : List Text) → length lines ≤ n → IsPrompt n (select_tunnel c lines)
  unfolding select_tunnel
  select_tunnel-IsPrompt n lines h = elim (Bool-cases (is_empty c.tunnels)) [
    | inl none_there ↦ rw (none_there) h
    | inr some_there ↦ rw (some_there) (ask-IsPrompt n _ lines h)
  ]

  module _ (operation : ℕ → TunnelConfig → List Text → Asked Edited) (n : ℕ) (lines : List Text)
      (h : length lines ≤ n)
      (keeps : (i : ℕ) (t : TunnelConfig) (l : List Text)
        → tunnel_at i c.tunnels ≡ some t
        → length l ≤ n
        → Keeps n (operation i t l)) where
    selected-Keeps : Keeps n (then_ask (select_tunnel c lines) (with_selected c operation))
    selected-Keeps =
        Keeps-then_ask n (select_tunnel c lines) (with_selected c operation)
          (select_tunnel-IsPrompt n lines h) go
      where
        go :
            (o : Option ℕ) (l : List Text)
            → select_tunnel c lines ≡ answered o l
            → length l ≤ n
            → Keeps n (with_selected c operation o l)
        go none l e k = (v, k)
        go (some i) l e k =
            let (t, there) = select_tunnel-selects c lines i l e in
            rw (with_selected, Keeps, there) (keeps i t l there k)

  module _ (n : ℕ) (lines : List Text) (h : length lines ≤ n) where
    pub edit_tunnel-Keeps : Keeps n (edit_tunnel c lines)
    unfolding edit_tunnel
    edit_tunnel-Keeps = selected-Keeps (edit_selected c) n lines h (λ i t l there k.
        questions-Keeps c v (some i) (λ u. set_at i u c.tunnels) (some t.name) (some t.protocol)
          (some t.target) (some t.listen) t.enabled n l k (edited-IsEditable i))

    pub toggle_tunnel-Keeps : Keeps n (toggle_tunnel c lines)
    unfolding toggle_tunnel
    toggle_tunnel-Keeps =
        selected-Keeps (toggle_selected c) n lines h
          (λ i t l there k. (toggled-IsEditable i t there, k))

    pub delete_tunnel-Keeps : Keeps n (delete_tunnel c lines)
    unfolding delete_tunnel
    delete_tunnel-Keeps = selected-Keeps (delete_selected c) n lines h (λ i t l there k.
        confirm-Keeps n false c (remove_at i c.tunnels) l k v (removed-IsEditable i))
