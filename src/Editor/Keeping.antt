-- ===== src/Editor/Keeping.antt =====
-- What the prompts and the confirmations of src/interactive.rs leave: the input that is left is no
-- longer than before, nothing panics, and a change keeps the tunnels valid.
use vorto.Prelude.{
  ℕ, ◌≤◌, ◌≡◌, refl, Bool, true, false, Option, List, [], ◌∷◌, arith, All, IsDistinct, length,
}
use vorto.Text.{Text, trim}
use vorto.Result.{AppResult, ok, err}
use vorto.Config.Tunnel as Tunnel
use vorto.Config.Tunnel.{Protocol, TunnelConfig, AppConfig}
use vorto.Config.Valid.{IsTunnel, names_of}
use vorto.Editor.Prompts.{
  Asked, answered, endless, panicked, then_ask, after_turn, Turn, returns, again, ask,
  has_duplicate, name_turn, prompt_new_name, prompt_protocol, prompt_socket_addr, prompt_bool,
}
use vorto.Editor.Edits.{Edited, confirmed, confirm_valid}
use vorto.Editor.Answers.{ask-eq-answered, name_turn-IsFree}

-- Every tunnel is valid and no two have one name.
pub record IsEditable (c : AppConfig) : Type 0 where
  pub tunnels : All IsTunnel c.tunnels
  pub distinct : IsDistinct (names_of c.tunnels)

-- An answer leaves at most so many lines, and there is no panic.
abbrev pub IsPrompt {ℓ} : {V : Type ℓ} → ℕ → Asked V → Type 0
IsPrompt n (answered v left) = length left ≤ n
IsPrompt n endless = Unit
IsPrompt n panicked = ⊥

-- The configuration that is answered is editable too.
abbrev pub Keeps : ℕ → Asked Edited → Type 0
Keeps n (answered e left) = IsEditable e.1 × (length left ≤ n)
Keeps n endless = Unit
Keeps n panicked = ⊥

pub Keeps-then_ask {ℓ} :
    {V : Type ℓ} (n : ℕ) (a : Asked V) (next : V → List Text → Asked Edited)
    → IsPrompt n a
    → ((v : V) (l : List Text) → a ≡ answered v l → length l ≤ n → Keeps n (next v l))
    → Keeps n (then_ask a next)
Keeps-then_ask n (answered v l) next h k = k v l refl h
Keeps-then_ask n endless next h k = tt
Keeps-then_ask n panicked next h k = h

after_turn-IsPrompt {ℓ} :
    {V : Type ℓ} (n : ℕ) (t : Turn V) (left : List Text) (rest : Asked V)
    → length left ≤ n
    → IsPrompt n rest
    → IsPrompt n (after_turn t left rest)
after_turn-IsPrompt n (returns v) left rest h k = h
after_turn-IsPrompt n again left rest h k = k

pub ask-IsPrompt {ℓ} :
    {V : Type ℓ} (n : ℕ) (turn : Text → Turn V) (lines : List Text)
    → length lines ≤ n
    → IsPrompt n (ask turn lines)
unfolding ask
ask-IsPrompt n turn [] h = after_turn-IsPrompt n (turn []) [] endless h tt
ask-IsPrompt n turn (line ∷ lines) h =
    let fewer : length lines ≤ n = omega (arith, h) in
    after_turn-IsPrompt n (turn (trim line)) lines (ask turn lines) fewer
      (ask-IsPrompt n turn lines fewer)

pub prompt_bool-IsPrompt :
    (n : ℕ) (b : Bool) (lines : List Text) → length lines ≤ n → IsPrompt n (prompt_bool b lines)
unfolding prompt_bool
prompt_bool-IsPrompt n b lines h = ask-IsPrompt n _ lines h

confirmed-IsEditable :
    (b : Bool) (c : AppConfig) (ts : List TunnelConfig)
    → IsEditable c
    → IsEditable (record c { tunnels = ts })
    → IsEditable (confirmed b c ts).1
confirmed-IsEditable false c ts v w = v
confirmed-IsEditable true c ts v w = w

-- A change that is confirmed, by the answer to a last question.
pub confirm-Keeps :
    (n : ℕ) (b : Bool) (c : AppConfig) (ts : List TunnelConfig) (lines : List Text)
    → length lines ≤ n
    → IsEditable c
    → IsEditable (record c { tunnels = ts })
    → Keeps n (then_ask (prompt_bool b lines) (λ apply left. answered (confirmed apply c ts) left))
confirm-Keeps n b c ts lines h v w =
    Keeps-then_ask n (prompt_bool b lines) (λ apply left. answered (confirmed apply c ts) left)
      (prompt_bool-IsPrompt n b lines h) (λ apply l _ k. (confirmed-IsEditable apply c ts v w, k))

confirm_valid-Keeps :
    (n : ℕ) (r : AppResult (Unit {0})) (c : AppConfig) (ts : List TunnelConfig) (lines : List Text)
    → length lines ≤ n
    → IsEditable c
    → (r ≡ ok tt → IsEditable (record c { tunnels = ts }))
    → Keeps n (confirm_valid r c ts lines)
confirm_valid-Keeps n (err x) c ts lines h v w = (v, h)
confirm_valid-Keeps n (ok _) c ts lines h v w = confirm-Keeps n true c ts lines h v (w refl)

-- The questions of `add_tunnel` and `edit_tunnel`, about a tunnel that is then put among the others.
module _ (c : AppConfig) (v : IsEditable c) (index : Option ℕ)
    (put : TunnelConfig → List TunnelConfig) where
  pub questions-Keeps :
      (current : Option Text) (p : Option Protocol) (old_target old_listen : Option Text) (b : Bool)
      (n : ℕ) (lines : List Text)
      → length lines ≤ n
      → ((t : TunnelConfig)
          → has_duplicate 0 index t.name c.tunnels ≡ false
          → Tunnel.validate t ≡ ok tt
          → IsEditable (record c { tunnels = put t }))
      → Keeps n (
          then_ask (prompt_new_name c index current lines) (λ name l1.
            then_ask (prompt_protocol p l1) (λ protocol l2.
              then_ask (prompt_socket_addr old_target l2) (λ target l3.
                then_ask (prompt_socket_addr old_listen l3) (λ listen l4.
                  then_ask (prompt_bool b l4) (λ enabled l5.
                    let tunnel : TunnelConfig = record {
                      name = name;
                      listen = listen;
                      target = target;
                      protocol = protocol;
                      enabled = enabled;
                    } in
                    confirm_valid (Tunnel.validate tunnel) c (put tunnel) l5))))))
  unfolding prompt_new_name prompt_protocol prompt_socket_addr
  questions-Keeps current p old_target old_listen b n lines h good =
      Keeps-then_ask n (prompt_new_name c index current lines) _ (ask-IsPrompt n _ lines h)
        (λ name l1 named h1.
          let (value, turned) = ask-eq-answered (name_turn c index current) lines name l1 named in
          let free = name_turn-IsFree c index current value name turned in
          Keeps-then_ask n (prompt_protocol p l1) _ (ask-IsPrompt n _ l1 h1) (λ protocol l2 _ h2.
            Keeps-then_ask n (prompt_socket_addr old_target l2) _ (ask-IsPrompt n _ l2 h2)
              (λ target l3 _ h3.
                Keeps-then_ask n (prompt_socket_addr old_listen l3) _ (ask-IsPrompt n _ l3 h3)
                  (λ listen l4 _ h4.
                    Keeps-then_ask n (prompt_bool b l4) _ (prompt_bool-IsPrompt n b l4 h4)
                      (λ enabled l5 _ h5.
                        let t : TunnelConfig = record {
                          name = name;
                          listen = listen;
                          target = target;
                          protocol = protocol;
                          enabled = enabled;
                        } in
                        confirm_valid-Keeps n (Tunnel.validate t) c (put t) l5 h5 v
                          (good t free))))))
