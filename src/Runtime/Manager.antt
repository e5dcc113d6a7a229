-- ===== src/Runtime/Manager.antt =====
-- `TunnelManager` of src/runtime.rs. The running tunnels are a hash map by name.
use vorto.Prelude.{
  Bool, true, false, not, Option, none, some, List, [], ◌∷◌, map, keep_if, is_yes, if◌then◌else◌,
}
use vorto.Text.{Text, Text-discrete}
use vorto.HashMap.{get, insert, remove, collect, Hasher}
use vorto.Result.{AppResult, ok, err}
use vorto.Config.Tunnel.{TunnelConfig, TunnelConfig-discrete, AppConfig, enabled_tunnels}
use vorto.Runtime.System.{Os, Rt}
use vorto.Runtime.Tunnel.{ActiveTunnel, spawn, has_finished, stop}

abbrev pub Active : Type 0
Active = List (Text × ActiveTunnel)

abbrev pub Desired : Type 0
Desired = List (Text × TunnelConfig)

-- `TunnelManager::default`.
abbrev pub no_tunnels : Active
no_tunnels = []

-- The map of the desired tunnels by name.
unfoldable pub desired_map : List TunnelConfig → Desired
desired_map tunnels = collect Text-discrete (map (λ t. (t.name, t)) tunnels)

-- An active tunnel is kept if its name is desired with the same settings.
abbrev pub wants : Option TunnelConfig → TunnelConfig → Bool
wants none spec = false
wants (some next) spec = is_yes (TunnelConfig-discrete next spec)

-- A desired tunnel is started unless it is active with the same settings.
abbrev pub should_start : Option ActiveTunnel → TunnelConfig → Bool
should_start none tunnel = true
should_start (some active) tunnel = not (is_yes (TunnelConfig-discrete active.spec tunnel))

abbrev pub names_of {ℓ} : {V : Type ℓ} → List (Text × V) → List Text
names_of = map (λ e. e.0)

module _ (H : Hasher) (O : Os) where
  abbrev pub World : Type 0
  World = Active × Rt O

  -- `if let Some(active) = self.active.remove(&name) { active.stop().await }`.
  unfoldable pub remove_and_stop : Text → World → World
  remove_and_stop name (active, rt) = elim (get Text-discrete name active) [
    | none ↦ (active, rt)
    | some tunnel ↦ (remove Text-discrete name active, stop O tunnel rt)
  ]

  unfoldable pub remove_all : List Text → World → World
  unfolding remove_and_stop
  remove_all [] w = w
  remove_all (name ∷ names) w = remove_all names (remove_and_stop name w)

  -- The names of the tunnels with a finished task, in the order of an iteration.
  abbrev pub finished : World → List Text
  finished (active, rt) =
      names_of (keep_if (λ e. has_finished O e.1 rt) (H.order ActiveTunnel active))

  unfoldable pub retire_finished_tunnels : World → World
  unfolding remove_all
  retire_finished_tunnels w = remove_all (finished w) w

  -- The tunnels that are no longer desired, or desired with other settings.
  abbrev pub to_remove : Desired → World → List Text
  to_remove desired (active, rt) = names_of (
      keep_if (λ e. not (wants (get Text-discrete e.0 desired) e.1.spec))
        (H.order ActiveTunnel active))

  unfoldable pub remove_obsolete : Desired → World → World
  unfolding remove_all
  remove_obsolete desired w = remove_all (to_remove desired w) w

  -- The result of `ActiveTunnel::spawn` is entered, or its failure noted.
  abbrev pub entered : Text → Active → AppResult ActiveTunnel × Rt O → Bool × World
  entered name active (ok tunnel, rt) = (true, (insert Text-discrete name tunnel active, rt))
  entered name active (err e, rt) = (false, (active, rt))

  -- One round of the loop over the desired tunnels: whether it did not fail, and the new state.
  unfoldable pub start_one : Text → TunnelConfig → World → Bool × World
  start_one name tunnel (active, rt) =
      if should_start (get Text-discrete name active) tunnel
      then entered name active (spawn O tunnel rt)
      else (true, (active, rt))

  unfoldable pub start_all : Desired → Bool → World → Bool × World
  unfolding start_one
  start_all [] all_started w = (all_started, w)
  start_all ((name, tunnel) ∷ es) all_started w =
      let (started, w') = start_one name tunnel w in
      start_all es (if started then all_started else false) w'

  -- `TunnelManager::reconcile`.
  unfoldable pub reconcile : List TunnelConfig → World → Bool × World
  unfolding retire_finished_tunnels remove_obsolete start_all desired_map
  reconcile desired_tunnels w =
      let desired = desired_map desired_tunnels in
      let w1 = retire_finished_tunnels w in
      let w2 = remove_obsolete desired w1 in start_all (H.order TunnelConfig desired) true w2

  unfoldable pub start_from_config : AppConfig → World → Bool × World
  unfolding reconcile
  start_from_config config w = reconcile (enabled_tunnels config) w

  unfoldable pub stop_each : Active → Rt O → Rt O
  stop_each [] rt = rt
  stop_each ((name, tunnel) ∷ es) rt = stop_each es (stop O tunnel rt)

  -- `TunnelManager::stop_all`.
  unfoldable pub stop_all : World → World
  unfolding stop_each
  stop_all (active, rt) = ([], stop_each (H.order ActiveTunnel active) rt)
