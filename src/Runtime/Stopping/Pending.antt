-- ===== src/Runtime/Stopping/Pending.antt =====
-- What the tasks of `TunnelManager::stop_all` in src/runtime.rs still have to do, and what one step of
-- `wait_for_task_shutdown` does to it.
use vorto.Prelude.{
  ℕ, ◌≡◌, refl, ap, Bool, true, false, not, ◌&&◌, ◌||◌, List, [], ◌∷◌, ◌++◌, arith, ℕ_discrete,
  is_yes,
}
use vorto.Runtime.System.{Os, Rt, runs}
use vorto.Runtime.Tasks.{has}
use vorto.Runtime.Manager.{Active}
use vorto.Runtime.Ownership.{owns}
use vorto.Runtime.Stopping.{
  Wait, in_grace, after_abort, over, Job, unsent, waiting, spawn_waits, spawn_jobs, Waits, resolved,
  grace_passed, aborted, joined,
}

abbrev is_over : Wait → Bool
is_over in_grace = false
is_over after_abort = false
is_over over = true

-- A call of `wait_for_task_shutdown` for the task has not returned.
abbrev pub awaited : List (ℕ × Wait) → ℕ → Bool
awaited [] id = false
awaited ((h, w) ∷ hs) id = (not (is_over w) && is_yes (ℕ_discrete id h)) || awaited hs id

abbrev pub awaited_by : Job → ℕ → Bool
awaited_by (unsent a) id = has a.handles id
awaited_by (waiting hs) id = awaited hs id

-- `stop_all` still has to wait for the task.
abbrev pub pending : List Job → ℕ → Bool
pending [] id = false
pending (j ∷ js) id = awaited_by j id || pending js id

abbrev pub sends : Job → ℕ → Bool
sends (unsent a) c = is_yes (ℕ_discrete c a.stop_tx)
sends (waiting hs) c = false

-- `true` is still to be sent over the channel.
abbrev pub unsent_on : List Job → ℕ → Bool
unsent_on [] c = false
unsent_on (j ∷ js) c = sends j c || unsent_on js c

-- The channel is one of the tunnels'.
abbrev pub channel_of : Active → ℕ → Bool
channel_of [] c = false
channel_of ((name, a) ∷ es) c = is_yes (ℕ_discrete c a.stop_tx) || channel_of es c

pub awaited-append :
    (ps qs : List (ℕ × Wait)) (id : ℕ) → awaited (ps ++ qs) id ≡ (awaited ps id || awaited qs id)
awaited-append [] qs id = refl
awaited-append (p ∷ ps) qs id = ground (arith, awaited-append ps qs id)

pub pending-append :
    (bs cs : List Job) (id : ℕ) → pending (bs ++ cs) id ≡ (pending bs id || pending cs id)
pending-append [] cs id = refl
pending-append (b ∷ bs) cs id = ground (arith, pending-append bs cs id)

pub unsent_on-append :
    (bs cs : List Job) (c : ℕ) → unsent_on (bs ++ cs) c ≡ (unsent_on bs c || unsent_on cs c)
unsent_on-append [] cs c = refl
unsent_on-append (b ∷ bs) cs c = ground (arith, unsent_on-append bs cs c)

pub awaited-spawn_waits : (hs : List ℕ) (id : ℕ) → awaited (spawn_waits hs) id ≡ has hs id
awaited-spawn_waits [] id = refl
awaited-spawn_waits (h ∷ hs) id = ground (arith, awaited-spawn_waits hs id)

pub pending-spawn_jobs : (es : Active) (id : ℕ) → pending (spawn_jobs es) id ≡ owns es id
pending-spawn_jobs [] id = refl
pending-spawn_jobs (e ∷ es) id = ground (arith, pending-spawn_jobs es id)

pub unsent_on-spawn_jobs : (es : Active) (c : ℕ) → unsent_on (spawn_jobs es) c ≡ channel_of es c
unsent_on-spawn_jobs [] c = refl
unsent_on-spawn_jobs (e ∷ es) c = ground (arith, unsent_on-spawn_jobs es c)

module _ (O : Os) where
  -- What a step of one wait leaves as it was, and that no task is given up that runs.
  pub record Keeps (rt : Rt O) (hs : List (ℕ × Wait)) (rt' : Rt O) (hs' : List (ℕ × Wait))
      : Type 0 where
    pub same_tasks : (id : ℕ) → runs O rt' id ≡ runs O rt id
    pub same_channels : (c : ℕ) → has rt'.stopped c ≡ has rt.stopped c
    pub still_awaited :
        (id : ℕ) → runs O rt id ≡ true → awaited hs id ≡ true → awaited hs' id ≡ true

  pub Waits-Keeps :
      {rt rt' : Rt O} {ids ids' : List ℕ} {hs hs' : List (ℕ × Wait)}
      → Waits O rt ids hs rt' ids' hs'
      → Keeps rt hs rt' hs'
  Waits-Keeps (resolved ps qs h e idle q r q') = record {
    same_tasks = λ id. ap (λ (x : Rt O). runs O x id) q;
    same_channels = λ c. ap (λ (x : Rt O). has x.stopped c) q;
    still_awaited = λ id b a. ground (
      arith,
      idle,
      ap (λ x. awaited x id) e,
      ap (λ x. awaited x id) q',
      awaited-append ps ((h, in_grace) ∷ qs) id,
      awaited-append ps ((h, over) ∷ qs) id,
    );
  }
  Waits-Keeps (grace_passed ps qs h e busy q r q') = record {
    same_tasks = λ id. ap (λ (x : Rt O). runs O x id) q;
    same_channels = λ c. ap (λ (x : Rt O). has x.stopped c) q;
    still_awaited = λ id b a. ground (
      arith,
      ap (λ x. awaited x id) e,
      ap (λ x. awaited x id) q',
      awaited-append ps ((h, in_grace) ∷ qs) id,
      awaited-append ps ((h, after_abort) ∷ qs) id,
    );
  }
  Waits-Keeps (aborted ps qs h e idle q r q') = record {
    same_tasks = λ id. ap (λ (x : Rt O). runs O x id) q;
    same_channels = λ c. ap (λ (x : Rt O). has x.stopped c) q;
    still_awaited = λ id b a. ground (
      arith,
      idle,
      ap (λ x. awaited x id) e,
      ap (λ x. awaited x id) q',
      awaited-append ps ((h, after_abort) ∷ qs) id,
      awaited-append ps ((h, over) ∷ qs) id,
    );
  }
  Waits-Keeps (joined ps qs h e q r q') = record {
    same_tasks = λ id. ap (λ (x : Rt O). runs O x id) q;
    same_channels = λ c. ap (λ (x : Rt O). has x.stopped c) q;
    still_awaited = λ id b a. ground (
      arith,
      ap (λ x. awaited x id) e,
      ap (λ x. awaited x id) q',
      awaited-append ps ((h, over) ∷ qs) id,
      awaited-append ps qs id,
    );
  }
