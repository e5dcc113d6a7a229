-- ===== src/Editor/Adding.antt =====
-- `add_tunnel` of src/interactive.rs keeps the tunnels valid.
use vorto.Prelude.{
  ℕ, suc, ◌≡◌, ◌≢◌, ◌≤◌, refl, ap, subst, true, false, none, List, [], ◌∷◌, ◌++◌, arith, All,
  All-append, IsDistinct, length,
}
use vorto.Text.{Text, to_ascii_lowercase}
use vorto.Result.{ok}
use vorto.Config.Tunnel as Tunnel
use vorto.Config.Tunnel.{TunnelConfig, AppConfig}
use vorto.Config.Valid.{IsTunnel, IsTunnel-of_validate, names_of}
use vorto.Editor.Prompts.{answered, has_duplicate}
use vorto.Editor.Edits.{Edited, add_tunnel}
use vorto.Editor.Keeping.{IsEditable, Keeps, questions-Keeps}

others_of_has_duplicate :
    (i : ℕ) (name : Text) (ts : List TunnelConfig)
    → has_duplicate i none name ts ≡ false
    → All (λ n. n ≢ name) (names_of ts)
unfolding has_duplicate
others_of_has_duplicate i name [] h = tt
others_of_has_duplicate i name (t ∷ ts) h = (
  (λ same. ground (arith, ap to_ascii_lowercase same)),
  others_of_has_duplicate (suc i) name ts (ground arith),
)

IsDistinct-append :
    (ns : List Text) (n : Text) → IsDistinct ns → All (λ m. m ≢ n) ns → IsDistinct (ns ++ n ∷ [])
IsDistinct-append [] n d a = (tt, tt)
IsDistinct-append (m ∷ ns) n (f, d) (ne, a) =
    (All-append (λ k. m ≢ k) ns (n ∷ []) f (ne, tt), IsDistinct-append ns n d a)

names_of-append :
    (ts : List TunnelConfig) (t : TunnelConfig)
    → names_of (ts ++ t ∷ []) ≡ names_of ts ++ t.name ∷ []
names_of-append [] t = refl
names_of-append (u ∷ ts) t = ap (◌∷◌ u.name) (names_of-append ts t)

added-IsEditable :
    (c : AppConfig) (t : TunnelConfig)
    → IsEditable c
    → has_duplicate 0 none t.name c.tunnels ≡ false
    → Tunnel.validate t ≡ ok tt
    → IsEditable (record c { tunnels = c.tunnels ++ t ∷ [] })
added-IsEditable c t v free valid = record {
  tunnels = All-append IsTunnel c.tunnels (t ∷ []) v.tunnels (IsTunnel-of_validate t valid, tt);
  distinct = rw (names_of-append c.tunnels t) (
      IsDistinct-append (names_of c.tunnels) t.name v.distinct
        (others_of_has_duplicate 0 t.name c.tunnels free));
}

pub add_tunnel-Keeps :
    (n : ℕ) (c : AppConfig) (lines : List Text)
    → length lines ≤ n
    → IsEditable c
    → Keeps n (add_tunnel c lines)
unfolding add_tunnel
add_tunnel-Keeps n c lines h v =
    questions-Keeps c v none (λ t. c.tunnels ++ t ∷ []) none none none none true n lines h
      (λ t. added-IsEditable c t v)

-- If every tunnel is valid and no two have one name, the same holds after `add_tunnel` has
-- answered, for any input.
pub add_tunnel-IsEditable :
    (c : AppConfig) (lines : List Text) (e : Edited) (left : List Text)
    → IsEditable c
    → add_tunnel c lines ≡ answered e left
    → IsEditable e.1
add_tunnel-IsEditable c lines e left v h =
    (subst (Keeps (length lines)) h (add_tunnel-Keeps (length lines) c lines (omega arith) v)).0
