-- ===== src/Editor/Answers.antt =====
-- What the prompts of src/interactive.rs can answer.
use vorto.Prelude.{
  ℕ, zero, suc, ◌+◌, ◌<◌, ◌≡◌, refl, ap, false, ◌&&◌, ◌⊎◌, Option, none, some, List, [], ◌∷◌, arith,
  length, Bool-cases, leb, inl, inr, is_empty,
}
use vorto.Text.{Text, trim}
use vorto.Config.Tunnel.{TunnelConfig, AppConfig}
use vorto.Daemon.Pid.{ParseIntError, parse_unsigned}
use vorto.Editor.Prompts.{
  Asked, answered, endless, after_turn, Turn, returns, again, ask, find_name, by_name, by_number,
  select_turn, select_tunnel, has_duplicate, name_turn,
}
use vorto.Editor.Edits.{tunnel_at}

after_turn-eq-answered {ℓ} :
    {V : Type ℓ} (t : Turn V) (some_left : List Text) (rest : Asked V) (v : V) (left : List Text)
    → after_turn t some_left rest ≡ answered v left
    → (t ≡ returns v) ⊎ (rest ≡ answered v left)
after_turn-eq-answered (returns w) some_left rest v left h = inl (ap returns cc)
after_turn-eq-answered again some_left rest v left h = inr h

-- An answer is what the loop makes of some line.
pub ask-eq-answered {ℓ} :
    {V : Type ℓ} (turn : Text → Turn V) (lines : List Text) (v : V) (left : List Text)
    → ask turn lines ≡ answered v left
    → (value : Text) × (turn value ≡ returns v)
unfolding ask
ask-eq-answered turn [] v left h = elim (after_turn-eq-answered (turn []) [] endless v left h) [
  | inl e ↦ ([], e)
  | inr never ↦ absurd cc
]
ask-eq-answered turn (line ∷ lines) v left h =
    elim (after_turn-eq-answered (turn (trim line)) lines (ask turn lines) v left h) [
      | inl e ↦ (trim line, e)
      | inr later ↦ ask-eq-answered turn lines v left later
    ]

find_name-below :
    (i : ℕ) (value : Text) (ts : List TunnelConfig) (index : ℕ)
    → find_name i value ts ≡ some index
    → index < i + length ts
unfolding find_name
find_name-below i value [] index h = ground arith
find_name-below i value (t ∷ ts) index h = ground (arith, find_name-below (suc i) value ts index)

tunnel_at-below :
    (i : ℕ) (ts : List TunnelConfig)
    → i < length ts
    → (t : TunnelConfig) × (tunnel_at i ts ≡ some t)
unfolding tunnel_at
tunnel_at-below i [] h = absurd (omega (arith, h))
tunnel_at-below zero (t ∷ ts) h = (t, refl)
tunnel_at-below (suc i) (t ∷ ts) h = tunnel_at-below i ts (omega (arith, h))

by_name-below :
    (o : Option ℕ) (n index : ℕ)
    → ((i : ℕ) → o ≡ some i → i < n)
    → by_name o ≡ returns (some index)
    → index < n
by_name-below none n index below h = absurd (ground arith)
by_name-below (some i) n index below h = ground (arith, below i refl)

by_number-below :
    (p : ParseIntError ⊎ ℕ) (n index : ℕ) (otherwise : Turn (Option ℕ))
    → (otherwise ≡ returns (some index) → index < n)
    → by_number p n otherwise ≡ returns (some index)
    → index < n
by_number-below (inl e) n index otherwise below h = below h
by_number-below (inr number) n index otherwise below h =
    elim (Bool-cases (leb 1 number && leb number n)) [
      | inl in_range ↦ ground arith
      | inr outside ↦ below (rw outside at h)
    ]

select_turn-below :
    (ts : List TunnelConfig) (value : Text) (index : ℕ)
    → select_turn ts value ≡ returns (some index)
    → index < length ts
select_turn-below ts value index h = elim (Bool-cases (is_empty value)) [
  | inl blank ↦ absurd (ground arith)
  | inr full ↦
      by_number-below (parse_unsigned 64 value) (length ts) index (by_name (find_name 0 value ts))
        (by_name-below (find_name 0 value ts) (length ts) index
          (λ i e. ground (arith, find_name-below 0 value ts i e)))
        (rw full at h)
]

-- An index that `select_tunnel` answers is the index of a tunnel.
pub select_tunnel-selects :
    (c : AppConfig) (lines : List Text) (index : ℕ) (left : List Text)
    → select_tunnel c lines ≡ answered (some index) left
    → (t : TunnelConfig) × (tunnel_at index c.tunnels ≡ some t)
unfolding select_tunnel
select_tunnel-selects c lines index left h =
    let (value, e) =
      ask-eq-answered (select_turn c.tunnels) lines (some index) left (ground arith) in
    tunnel_at-below index c.tunnels (select_turn-below c.tunnels value index e)

-- The index is not a tunnel's but the one given, or the name is different, case aside.
pub name_turn-IsFree :
    (c : AppConfig) (index : Option ℕ) (current : Option Text) (value name : Text)
    → name_turn c index current value ≡ returns name
    → has_duplicate 0 index name c.tunnels ≡ false
name_turn-IsFree c index current value name h = ground arith
