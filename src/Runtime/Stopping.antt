-- ===== src/Runtime/Stopping.antt =====
-- How `TunnelManager::stop_all`, `ActiveTunnel::stop` and `wait_for_task_shutdown` of src/runtime.rs
-- interleave: every tunnel is stopped by a task of its own, every handle is awaited by a task of its
-- own, and the tunnels' tasks end by themselves or because they were aborted.
use vorto.Prelude.{
  ℕ, zero, suc, ◌≡◌, Bool, true, false, List, [], ◌∷◌, ◌++◌, map, contains, ℕ_discrete,
}
use vorto.Runtime.System.{Os, Rt, runs, ended, send_stop}
use vorto.Runtime.Tunnel.{ActiveTunnel}
use vorto.Runtime.Manager.{Active}
pub mod Pending
pub mod Safety
pub mod Aborts
pub mod Progress
pub mod Schedule

-- Where a call of `wait_for_task_shutdown` is: in `timeout`, in `handle.await` after the abort, or
-- returned.
pub data Wait : Type 0 where
  in_grace after_abort over : Wait

-- The task of `stop_all` for one tunnel: `ActiveTunnel::stop` not entered yet, or in its loop over
-- `join_next`, with the handles whose tasks it has not joined.
pub data Job : Type 0 where
  unsent : ActiveTunnel → Job
  waiting : List (ℕ × Wait) → Job

-- `aborts` has the tasks on whose handles `abort` was called.
pub record Stopping (O : Os) : Type 0 where
  pub rt : Rt O
  pub aborts : List ℕ
  pub jobs : List Job

-- `for handle in self.handles { shutdown_tasks.spawn(..) }`.
abbrev pub spawn_waits : List ℕ → List (ℕ × Wait)
spawn_waits = map (λ h. (h, in_grace))

-- `for active in active_tunnels { shutdown_tasks.spawn(..) }`.
abbrev pub spawn_jobs : Active → List Job
spawn_jobs = map (λ e. unsent e.1)

module _ (O : Os) where
  -- A step of a call of `wait_for_task_shutdown`, or of the loop that joins it.
  pub data Waits (rt : Rt O) (ids : List ℕ) (hs : List (ℕ × Wait)) (rt' : Rt O) (ids' : List ℕ)
      (hs' : List (ℕ × Wait)) : Type 0 where
    resolved :
        (ps qs : List (ℕ × Wait)) (h : ℕ)
        → hs ≡ ps ++ (h, in_grace) ∷ qs
        → runs O rt h ≡ false
        → rt' ≡ rt
        → ids' ≡ ids
        → hs' ≡ ps ++ (h, over) ∷ qs
        → Waits rt ids hs rt' ids' hs'
    grace_passed :
        (ps qs : List (ℕ × Wait)) (h : ℕ)
        → hs ≡ ps ++ (h, in_grace) ∷ qs
        → runs O rt h ≡ true
        → rt' ≡ record rt { os_state = O.abort h rt.os_state }
        → ids' ≡ h ∷ ids
        → hs' ≡ ps ++ (h, after_abort) ∷ qs
        → Waits rt ids hs rt' ids' hs'
    aborted :
        (ps qs : List (ℕ × Wait)) (h : ℕ)
        → hs ≡ ps ++ (h, after_abort) ∷ qs
        → runs O rt h ≡ false
        → rt' ≡ rt
        → ids' ≡ ids
        → hs' ≡ ps ++ (h, over) ∷ qs
        → Waits rt ids hs rt' ids' hs'
    joined :
        (ps qs : List (ℕ × Wait)) (h : ℕ)
        → hs ≡ ps ++ (h, over) ∷ qs
        → rt' ≡ rt
        → ids' ≡ ids
        → hs' ≡ ps ++ qs
        → Waits rt ids hs rt' ids' hs'

  pub data Step (s t : Stopping O) : Type 0 where
    begins :
        (bs cs : List Job) (a : ActiveTunnel)
        → s.jobs ≡ bs ++ unsent a ∷ cs
        → t ≡ record s {
          rt = send_stop O a.stop_tx s.rt;
          jobs = bs ++ waiting (spawn_waits a.handles) ∷ cs;
        }
        → Step s t
    waits :
        (bs cs : List Job) (hs hs' : List (ℕ × Wait)) (rt' : Rt O) (ids' : List ℕ)
        → s.jobs ≡ bs ++ waiting hs ∷ cs
        → Waits s.rt s.aborts hs rt' ids' hs'
        → t ≡ record { rt = rt'; aborts = ids'; jobs = bs ++ waiting hs' ∷ cs }
        → Step s t
    -- A tunnel's `stop` has returned, and the loop of `stop_all` joins it.
    returns :
        (bs cs : List Job)
        → s.jobs ≡ bs ++ waiting [] ∷ cs
        → t ≡ record s { jobs = bs ++ cs }
        → Step s t
    -- A task returns or panics, or it was aborted and is cancelled.
    task_ends : (id : ℕ) → runs O s.rt id ≡ true → t ≡ record s { rt = ended O id s.rt } → Step s t
    cancelled :
        (id : ℕ)
        → runs O s.rt id ≡ true
        → contains ℕ_discrete s.aborts id ≡ true
        → t ≡ record s { rt = ended O id s.rt }
        → Step s t

  -- So many steps, in any order.
  pub data Steps : ℕ → Stopping O → Stopping O → Type 0 where
    none_taken : {s : Stopping O} → Steps zero s s
    then_step : {n : ℕ} {s t u : Stopping O} → Step s t → Steps n t u → Steps (suc n) s u

  -- `stop_all` after `drain`, when it has spawned its tasks.
  abbrev pub stopping : Active → Rt O → Stopping O
  stopping es rt = record { rt = rt; aborts = []; jobs = spawn_jobs es }
