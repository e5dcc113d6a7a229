-- ===== src/Runtime/Interrupted.antt =====
-- `TunnelManager::reconcile` of src/runtime.rs while tasks end by themselves: between any two
-- operations of its loops a task may return or panic. The stop and the start of one tunnel are one
-- step each.
pub mod Outcome
pub mod Kept
pub mod Schedule
use vorto.Prelude.{ℕ, ◌≡◌, Bool, true, false, List, [], ◌∷◌, if◌then◌else◌}
use vorto.Text.{Text}
use vorto.HashMap.{Hasher}
use vorto.Config.Tunnel.{TunnelConfig}
use vorto.Runtime.System.{Os, runs, ended}
use vorto.Runtime.Manager.{
  Desired, World, desired_map, remove_and_stop, finished, to_remove, start_one,
}

-- Where `reconcile` is: in the loop of `retire_finished_tunnels`, in the loop over `to_remove`, in
-- the loop over `desired_map`, with what each has left, or returned.
pub data At : Type 0 where
  retiring removing : List Text → At
  starting : Desired → Bool → At
  returned : Bool → At

module _ (H : Hasher) (O : Os) where
  pub record Reconciling : Type 0 where
    pub at : At
    pub world : World H O

  -- The names of the finished tunnels have been collected.
  abbrev pub entering : World H O → Reconciling
  entering w = record { at = retiring (finished H O w); world = w }

  pub data Step (desired_tunnels : List TunnelConfig) (s t : Reconciling) : Type 0 where
    retires :
        (name : Text) (names : List Text)
        → s.at ≡ retiring (name ∷ names)
        → t ≡ record { at = retiring names; world = remove_and_stop H O name s.world }
        → Step desired_tunnels s t
    compares :
        s.at ≡ retiring []
        → t ≡ record s { at = removing (to_remove H O (desired_map desired_tunnels) s.world) }
        → Step desired_tunnels s t
    removes :
        (name : Text) (names : List Text)
        → s.at ≡ removing (name ∷ names)
        → t ≡ record { at = removing names; world = remove_and_stop H O name s.world }
        → Step desired_tunnels s t
    enters_loop :
        s.at ≡ removing []
        → t ≡ record s { at = starting (H.order TunnelConfig (desired_map desired_tunnels)) true }
        → Step desired_tunnels s t
    starts :
        (name : Text) (tunnel : TunnelConfig) (es : Desired) (all_started : Bool)
        → s.at ≡ starting ((name, tunnel) ∷ es) all_started
        → t ≡ (
            let (started, w) = start_one H O name tunnel s.world in
            record { at = starting es (if started then all_started else false); world = w })
        → Step desired_tunnels s t
    returns :
        (all_started : Bool)
        → s.at ≡ starting [] all_started
        → t ≡ record s { at = returned all_started }
        → Step desired_tunnels s t

  -- The steps of `reconcile`, with the tasks that have ended by themselves between them.
  pub data Steps (desired_tunnels : List TunnelConfig)
      : List ℕ → Reconciling → Reconciling → Type 0 where
    none_taken : {s : Reconciling} → Steps desired_tunnels [] s s
    steps :
        {ids : List ℕ} {s t u : Reconciling}
        → Step desired_tunnels s t
        → Steps desired_tunnels ids t u
        → Steps desired_tunnels ids s u
    crashes :
        {ids : List ℕ} {s u : Reconciling} (id : ℕ)
        → Steps desired_tunnels ids (record s { world = (s.world.0, ended O id s.world.1) }) u
        → Steps desired_tunnels (id ∷ ids) s u
