-- ===== src/Nft/Targets.antt =====
-- The masquerade targets that `NftRuleset::from_tunnels` of src/nft.rs collects in a hash set and
-- sorts.
use vorto.Prelude.{
  ◌≡◌, refl, ◌∙◌, ◌≢◌, Bool, true, false, not, ◌&&◌, ◌||◌, List, [], ◌∷◌, arith, All, IsFresh,
  contains, contains-IsFresh, contains_of_IsFresh, IsDistinct, is_yes, Bool-cases, inl, inr,
}
use vorto.Net.{Ipv4Addr, Ipv4Addr-discrete, is_loopback}
use vorto.Config.Tunnel.{TunnelConfig}
use vorto.Config.NftTunnel.{IsNftTunnel}
use vorto.Nft.Ruleset.{
  ip_le, insert_sorted, sort_unstable, insert_target, add_target, NftRuleset, from_tunnels,
}
use vorto.Result.{ok}
use vorto.Nft.Names.{NftNames}
use vorto.Nft.Rules.{all_targets, from_tunnels_sound, masquerade_targets_of}

abbrev pub has_target : List Ipv4Addr → Ipv4Addr → Bool
has_target = contains Ipv4Addr-discrete

abbrev IsNew : Ipv4Addr → List Ipv4Addr → Type 0
IsNew = IsFresh Ipv4Addr-discrete

ip_le_antisym : (x y : Ipv4Addr) → ip_le x y ≡ true → ip_le y x ≡ true → x ≡ y
unfolding ip_le
ip_le_antisym x y h k = ground arith

-- Each address lies strictly below the next.
abbrev pub Chain : Ipv4Addr → List Ipv4Addr → Type 0
Chain x [] = Unit
Chain x (y ∷ ys) = (ip_le y x ≡ false) × Chain y ys

abbrev pub IsAscending : List Ipv4Addr → Type 0
IsAscending [] = Unit
IsAscending (x ∷ xs) = Chain x xs

lt_of_le : (x y : Ipv4Addr) → x ≢ y → ip_le x y ≡ true → ip_le y x ≡ false
lt_of_le x y ne h = ground (arith, ip_le_antisym x y)

insert_sorted-Chain :
    (x y : Ipv4Addr) (ys : List Ipv4Addr)
    → ip_le x y ≡ false
    → IsNew x ys
    → Chain y ys
    → Chain y (insert_sorted x ys)
unfolding insert_sorted
insert_sorted-Chain x y [] h n c = (h, tt)
insert_sorted-Chain x y (z ∷ zs) h (n, ns) (c, cs) = elim (Bool-cases (ip_le x z)) [
  | inl le ↦ rw le (h, (lt_of_le x z n le, cs))
  | inr gt ↦ rw gt (c, insert_sorted-Chain x z zs gt ns cs)
]

insert_sorted-IsAscending :
    (x : Ipv4Addr) (ys : List Ipv4Addr)
    → IsNew x ys
    → IsAscending ys
    → IsAscending (insert_sorted x ys)
unfolding insert_sorted
insert_sorted-IsAscending x [] n c = tt
insert_sorted-IsAscending x (z ∷ zs) (n, ns) c = elim (Bool-cases (ip_le x z)) [
  | inl le ↦ rw le (lt_of_le x z n le, c)
  | inr gt ↦ rw gt (insert_sorted-Chain x z zs gt ns c)
]

has_target-insert_sorted :
    (ip x : Ipv4Addr) (ys : List Ipv4Addr)
    → has_target (insert_sorted x ys) ip ≡ (is_yes (Ipv4Addr-discrete ip x) || has_target ys ip)
unfolding insert_sorted
has_target-insert_sorted ip x [] = refl
has_target-insert_sorted ip x (y ∷ ys) = ground (arith, has_target-insert_sorted ip x ys)

-- Sorting keeps the members.
pub has_target-sort :
    (ip : Ipv4Addr) (xs : List Ipv4Addr) → has_target (sort_unstable xs) ip ≡ has_target xs ip
unfolding sort_unstable
has_target-sort ip [] = refl
has_target-sort ip (x ∷ xs) =
    ground (arith, has_target-insert_sorted ip x (sort_unstable xs), has_target-sort ip xs)

pub sort-IsAscending : (xs : List Ipv4Addr) → IsDistinct xs → IsAscending (sort_unstable xs)
unfolding sort_unstable
sort-IsAscending [] d = tt
sort-IsAscending (x ∷ xs) (n, d) =
    insert_sorted-IsAscending x (sort_unstable xs)
      (contains-IsFresh Ipv4Addr-discrete x _
        (has_target-sort x xs ∙ contains_of_IsFresh Ipv4Addr-discrete x xs n))
      (sort-IsAscending xs d)

add_target-IsDistinct :
    (ip : Ipv4Addr) (ips : List Ipv4Addr) → IsDistinct ips → IsDistinct (add_target ip ips)
unfolding add_target insert_target
add_target-IsDistinct ip ips d = ground (arith, contains-IsFresh Ipv4Addr-discrete ip ips)

all_targets-IsDistinct :
    (ips : List Ipv4Addr) (ts : List TunnelConfig) (v : All IsNftTunnel ts)
    → IsDistinct ips
    → IsDistinct (all_targets ips ts v)
all_targets-IsDistinct ips [] v d = d
all_targets-IsDistinct ips (t ∷ ts) (v, vs) d =
    all_targets-IsDistinct (add_target v.target.0 ips) ts vs
      (add_target-IsDistinct v.target.0 ips d)

-- Some tunnel leads to `ip`.
abbrev pub leads_to : Ipv4Addr → (ts : List TunnelConfig) → All IsNftTunnel ts → Bool
leads_to ip [] v = false
leads_to ip (t ∷ ts) (v, vs) = is_yes (Ipv4Addr-discrete ip v.target.0) || leads_to ip ts vs

has_target-add :
    (ip x : Ipv4Addr) (ips : List Ipv4Addr)
    → has_target (add_target x ips) ip
      ≡ (has_target ips ip || (is_yes (Ipv4Addr-discrete ip x) && not (is_loopback ip)))
unfolding add_target insert_target
has_target-add ip x ips = ground arith

pub has_target-all_targets :
    (ip : Ipv4Addr) (ips : List Ipv4Addr) (ts : List TunnelConfig) (v : All IsNftTunnel ts)
    → has_target (all_targets ips ts v) ip
      ≡ (has_target ips ip || (leads_to ip ts v && not (is_loopback ip)))
has_target-all_targets ip ips [] v = ground arith
has_target-all_targets ip ips (t ∷ ts) (v, vs) = ground (
  arith,
  has_target-all_targets ip (add_target v.target.0 ips) ts vs,
  has_target-add ip v.target.0 ips,
)

-- If the ruleset is built, its masquerade targets are in strictly ascending order, and an address
-- is among them exactly if it is the target of a tunnel and not a loopback address.
pub from_tunnels-targets :
    (ts : List TunnelConfig) (names : NftNames) (r : NftRuleset)
    → from_tunnels ts names ≡ ok r
    → (v : All IsNftTunnel ts) × IsAscending r.masquerade_targets
      × ((ip : Ipv4Addr)
          → has_target r.masquerade_targets ip ≡ (leads_to ip ts v && not (is_loopback ip)))
from_tunnels-targets ts names r h =
    let v = from_tunnels_sound ts names r h in
    let targets = masquerade_targets_of ts names r v h in
    (
      v,
      rw targets (sort-IsAscending _ (all_targets-IsDistinct [] ts v tt)),
      λ ip.
          rw (targets, has_target-sort ip (all_targets [] ts v))
            (has_target-all_targets ip [] ts v),
    )
