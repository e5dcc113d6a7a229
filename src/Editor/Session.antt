-- ===== src/Editor/Session.antt =====
-- The loop of `manage_config` of src/interactive.rs over the lines of the input.
use vorto.Prelude.{ℕ, zero, suc, Bool, true, false, ◌||◌, List, [], ◌∷◌, length, if◌then◌else◌}
use vorto.Text.{Text, text, trim, to_ascii_lowercase}
use vorto.Result.{AppResult, ok, err}
use vorto.Fs.{FilePath, Fs}
use vorto.Config.Tunnel.{AppConfig}
use vorto.Config.Store.{Yaml, load_or_default, save}
use vorto.Editor.Prompts.{Asked, answered, endless, then_ask, is_text, prompt_bool}
use vorto.Editor.Edits.{
  Edited, add_tunnel, edit_tunnel, toggle_tunnel, delete_tunnel, toggle_daemon_log, toggle_mode,
}

pub data Action : Type 0 where
  add edit toggle delete mode log save_and_exit quit nothing : Action

abbrev is_either : Text → Text → Text → Bool
is_either short long value = is_text value short || is_text value long

-- An unknown action does as little as none.
abbrev action_of_word : Text → Action
action_of_word value =
    if is_either (text "a") (text "add") value
    then add
    else if is_either (text "e") (text "edit") value
    then edit
    else if is_either (text "t") (text "toggle") value
    then toggle
    else if is_either (text "d") (text "delete") value
    then delete
    else if is_either (text "m") (text "mode") value
    then mode
    else if is_either (text "l") (text "log") value
    then log
    else if is_either (text "s") (text "save") value
    then save_and_exit
    else if is_either (text "q") (text "quit") value
    then quit
    else nothing

unfoldable pub action_of : Text → Action
action_of line = action_of_word (to_ascii_lowercase (trim line))

module _ (Y : Yaml) (F : Fs) (pid : ℕ) (path : FilePath) where
  -- What the editor returns, and the file system then.
  abbrev pub Ending : Type 0
  Ending = AppResult (Unit {0}) × F.State

  -- The rest of the session, from the configuration and whether it was changed.
  abbrev pub Rest : Type 0
  Rest = AppConfig → Bool → List Text → Asked Ending

  -- After an edit, an error ends the session.
  abbrev pub after_edit : Bool → Rest → F.State → Edited → List Text → Asked Ending
  after_edit dirty rest s (err e, config) left = answered (err e, s) left
  after_edit dirty rest s (ok changed, config) left = rest config (dirty || changed) left

  abbrev pub after_quit : AppConfig → Rest → F.State → Bool → List Text → Asked Ending
  after_quit config rest s true left = answered (ok tt, s) left
  after_quit config rest s false left = rest config true left

  abbrev pub quit_or_ask : Bool → AppConfig → List Text → Rest → F.State → Asked Ending
  quit_or_ask false config lines rest s = answered (ok tt, s) lines
  quit_or_ask true config lines rest s =
      then_ask (prompt_bool false lines) (after_quit config rest s)

  unfoldable pub act : Action → AppConfig → Bool → List Text → Rest → F.State → Asked Ending
  act add config dirty lines rest s = then_ask (add_tunnel config lines) (after_edit dirty rest s)
  act edit config dirty lines rest s = then_ask (edit_tunnel config lines) (after_edit dirty rest s)
  act toggle config dirty lines rest s =
      then_ask (toggle_tunnel config lines) (after_edit dirty rest s)
  act delete config dirty lines rest s =
      then_ask (delete_tunnel config lines) (after_edit dirty rest s)
  act mode config dirty lines rest s = rest (toggle_mode config) true lines
  act log config dirty lines rest s = rest (toggle_daemon_log config) true lines
  act save_and_exit config dirty lines rest s = answered (save Y F pid config path s) lines
  act quit config dirty lines rest s = quit_or_ask dirty config lines rest s
  act nothing config dirty lines rest s = rest config dirty lines

  -- The fuel bounds the rounds; a round takes at least one line. At the end of the input every line is
  -- blank, and the loop asks again without end.
  unfoldable pub rounds : ℕ → F.State → Rest
  rounds fuel s config dirty [] = endless
  rounds zero s config dirty (line ∷ lines) = endless
  rounds (suc fuel) s config dirty (line ∷ lines) =
      act (action_of line) config dirty lines (λ c d l. rounds fuel s c d l) s

  unfoldable pub manage_config : F.State → List Text → Asked Ending
  manage_config s lines = elim (load_or_default Y F s path) [
    | err e ↦ answered (err e, s) lines
    | ok config ↦ rounds (length lines) s config false lines
  ]
