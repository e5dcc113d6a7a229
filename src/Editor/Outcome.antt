-- ===== src/Editor/Outcome.antt =====
-- How a session of `manage_config` of src/interactive.rs ends.
use vorto.Prelude.{
  ℕ, zero, suc, ◌≤◌, ◌≡◌, refl, Bool, true, false, ◌||◌, ◌⊎◌, inl, inr, List, [], ◌∷◌, arith,
  length,
}
use vorto.Text.{Text}
use vorto.Result.{AppResult, AppResult-cases, ok, err}
use vorto.Fs.{FilePath, Fs, IsLawful}
use vorto.Config.Tunnel.{AppConfig}
use vorto.Config.Store.{Yaml, load_or_default, load_for_runtime, save}
use vorto.Config.Saved.{IsRoundTrip, load_or_default-IsValid, load_for_runtime-save}
use vorto.Editor.Prompts.{Asked, answered, endless, panicked, then_ask, prompt_bool}
use vorto.Editor.Edits.{Edited, toggle_daemon_log, toggle_mode}
use vorto.Editor.Keeping.{IsEditable, IsPrompt, Keeps, prompt_bool-IsPrompt}
use vorto.Editor.Adding.{add_tunnel-Keeps}
use vorto.Editor.Changing.{edit_tunnel-Keeps, toggle_tunnel-Keeps, delete_tunnel-Keeps}
use vorto.Editor.Session.{
  Action, add, edit, toggle, delete, mode, log, save_and_exit, quit, nothing, action_of, Ending,
  Rest, after_edit, after_quit, act, rounds, manage_config,
}

toggle_mode-IsEditable : (c : AppConfig) → IsEditable c → IsEditable (toggle_mode c)
unfolding toggle_mode
toggle_mode-IsEditable c v = record { tunnels = v.tunnels; distinct = v.distinct }

toggle_daemon_log-IsEditable : (c : AppConfig) → IsEditable c → IsEditable (toggle_daemon_log c)
unfolding toggle_daemon_log
toggle_daemon_log-IsEditable c v = record { tunnels = v.tunnels; distinct = v.distinct }

module _ (Y : Yaml) (F : Fs) (pid : ℕ) (path : FilePath) (s : F.State) where
  abbrev Session : Type 0
  Session = Asked (Ending Y F pid path)

  -- A relation of two sessions that holds where neither writes and where both save one configuration
  -- holds of two rounds whose rests are related.
  module _ (R : Session → Session → Type 0)
      (unwritten : (r : AppResult (Unit {0})) (l : List Text)
        → R (answered (r, s) l) (answered (r, s) l))
      (saved : (c : AppConfig) (l : List Text)
        → IsEditable c
        → R (answered (save Y F pid c path s) l) (answered (save Y F pid c path s) l))
      (unended : R endless endless) where
    abbrev AreRelated : ℕ → Rest Y F pid path → Rest Y F pid path → Type 0
    AreRelated n f g =
        (c : AppConfig) (d : Bool) (l : List Text)
        → IsEditable c
        → length l ≤ n
        → R (f c d l) (g c d l)

    after_edit-related :
        (n : ℕ) (f g : Rest Y F pid path) (d : Bool) (q : Asked Edited)
        → AreRelated n f g
        → Keeps n q
        → R
            (then_ask q (after_edit Y F pid path d f s))
            (then_ask q (after_edit Y F pid path d g s))
    after_edit-related n f g d (answered (ok b, c) l) h (v, k) = h c (d || b) l v k
    after_edit-related n f g d (answered (err e, c) l) h k = unwritten (err e) l
    after_edit-related n f g d endless h k = unended
    after_edit-related n f g d panicked h k = absurd k

    after_quit-related :
        (n : ℕ) (f g : Rest Y F pid path) (c : AppConfig) (q : Asked Bool)
        → IsEditable c
        → AreRelated n f g
        → IsPrompt n q
        → R
            (then_ask q (after_quit Y F pid path c f s))
            (then_ask q (after_quit Y F pid path c g s))
    after_quit-related n f g c (answered true l) v h k = unwritten (ok tt) l
    after_quit-related n f g c (answered false l) v h k = h c true l v k
    after_quit-related n f g c endless v h k = unended
    after_quit-related n f g c panicked v h k = absurd k

    act-related :
        (a : Action) (n : ℕ) (f g : Rest Y F pid path) (c : AppConfig) (d : Bool) (l : List Text)
        → IsEditable c
        → AreRelated n f g
        → length l ≤ n
        → R (act Y F pid path a c d l f s) (act Y F pid path a c d l g s)
    unfolding act
    act-related add n f g c d l v h k = after_edit-related n f g d _ h (add_tunnel-Keeps n c l k v)
    act-related edit n f g c d l v h k =
        after_edit-related n f g d _ h (edit_tunnel-Keeps c v n l k)
    act-related toggle n f g c d l v h k =
        after_edit-related n f g d _ h (toggle_tunnel-Keeps c v n l k)
    act-related delete n f g c d l v h k =
        after_edit-related n f g d _ h (delete_tunnel-Keeps c v n l k)
    act-related mode n f g c d l v h k = h (toggle_mode c) true l (toggle_mode-IsEditable c v) k
    act-related log n f g c d l v h k =
        h (toggle_daemon_log c) true l (toggle_daemon_log-IsEditable c v) k
    act-related save_and_exit n f g c d l v h k = saved c l v
    act-related quit n f g c false l v h k = unwritten (ok tt) l
    act-related quit n f g c true l v h k =
        after_quit-related n f g c (prompt_bool false l) v h (prompt_bool-IsPrompt n false l k)
    act-related nothing n f g c d l v h k = h c d l v k

    rounds-related :
        (m n : ℕ) (c : AppConfig) (d : Bool) (l : List Text)
        → IsEditable c
        → length l ≤ m
        → length l ≤ n
        → R (rounds Y F pid path m s c d l) (rounds Y F pid path n s c d l)
    unfolding rounds
    rounds-related m n c d [] v h k = unended
    rounds-related zero n c d (line ∷ l) v h k = absurd (omega (arith, h))
    rounds-related (suc m) zero c d (line ∷ l) v h k = absurd (omega (arith, k))
    rounds-related (suc m) (suc n) c d (line ∷ l) v h k =
        act-related (action_of line) (length l) _ _ c d l v
          (λ c' d' l' v' k'.
            rounds-related m n c' d' l' v' (omega (arith, h, k')) (omega (arith, k, k')))
          (omega arith)

  -- From a configuration whose tunnels are valid and have distinct names, more rounds than there
  -- are lines of input change nothing of a session of the editor: every round takes a line.
  pub rounds_of_enough_fuel :
      (fuel : ℕ) (c : AppConfig) (d : Bool) (lines : List Text)
      → IsEditable c
      → length lines ≤ fuel
      → rounds Y F pid path fuel s c d lines ≡ rounds Y F pid path (length lines) s c d lines
  rounds_of_enough_fuel fuel c d lines v h =
      rounds-related (λ q q'. q ≡ q') (λ r l. refl) (λ c' l v'. refl) refl fuel (length lines) c d
        lines v h (omega arith)

  -- The file loads as before, or the session succeeded and it loads as a configuration that is
  -- editable. A session does not panic.
  abbrev pub Outcome : Session → Type 0
  Outcome (answered (r, s') l) =
      (load_for_runtime Y F s' path ≡ load_for_runtime Y F s path)
      ⊎ ((c : AppConfig) × (r ≡ ok tt) × IsEditable c × (load_for_runtime Y F s' path ≡ ok c))
  Outcome endless = Unit
  Outcome panicked = ⊥

  module _ (R : IsRoundTrip Y) (L : IsLawful F) where
    save-Outcome :
        (c : AppConfig) (l : List Text)
        → IsEditable c
        → Outcome (answered (save Y F pid c path s) l)
    save-Outcome c l v = elim (load_for_runtime-save Y F R L pid c path s) [
      | inl (done, loads) ↦ inr (c, done, v, loads)
      | inr (failed, same) ↦ inl same
    ]

    -- With a YAML library that reads back what it writes and a file system that writes and
    -- renames as documented, a session of the editor never panics, for any lines of input. If it
    -- returns, the configuration file loads as before, or the session succeeded and the file
    -- loads as a configuration whose tunnels are valid and have distinct names.
    pub manage_config-Outcome : (lines : List Text) → Outcome (manage_config Y F pid path s lines)
    unfolding manage_config
    manage_config-Outcome lines = elim (AppResult-cases (load_or_default Y F s path)) [
      | inr (e, failed) ↦ rw (manage_config, Outcome, failed) (inl refl)
      | inl (c, loaded) ↦
          let v = load_or_default-IsValid Y F s path c loaded in
          rw (manage_config, Outcome, loaded)
            (rounds-related (λ q q'. Outcome q) (λ r l. inl refl) save-Outcome tt (length lines)
              (length lines) c false lines (record { tunnels = v.tunnels; distinct = v.distinct })
              (omega arith) (omega arith))
    ]
