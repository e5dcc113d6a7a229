-- ===== src/Runtime/Relay/Tcp.antt =====
-- `run_tcp_tunnel` and `drain_tcp_connections` of src/runtime.rs as a step relation. An arm of a
-- `select!` is a step that its branch enables; the tasks in the `JoinSet` and the stop channel move
-- between any two steps.
use vorto.Prelude.{ℕ, suc, ◌≡◌, ◌≢◌, Bool, true, false, ◌||◌, List, [], ◌∷◌, ◌++◌, map}
use vorto.Result.{AppResult, AppError, ok, err}

-- The stop channel as its receivers see it: the value sent, and whether the sender is gone.
pub record Channel : Type 0 where
  pub stopped : Bool
  pub closed : Bool

-- `wait_for_shutdown` returns if the value is true, and also when no change can come any more.
abbrev pub wakes : Channel → Bool
wakes c = c.stopped || c.closed

-- A task of the `JoinSet` works, was told to abort, or has ended and waits to be joined.
pub data Status : Type 0 where
  active aborted finished : Status

abbrev pub Connection : Type 0
Connection = ℕ × Status

abbrev pub told_to_abort : Status → Status
told_to_abort active = aborted
told_to_abort aborted = aborted
told_to_abort finished = finished

-- `JoinSet::abort_all`, which the drop of a `JoinSet` does too.
unfoldable pub abort_all : List Connection → List Connection
abort_all cs = map (λ c. (c.0, told_to_abort c.1)) cs

-- Where the task of the tunnel stands: in its loop, in the loop of `drain_tcp_connections`, in the
-- loop of that after the abort, or at its end.
pub data Phase : Type 0 where
  accepting draining aborting : Phase
  returned : AppResult (Unit {0}) → Phase

pub record Tunnel : Type 0 where
  pub channel : Channel
  pub phase : Phase
  pub connections : List Connection
  pub next_id : ℕ

abbrev pub started : Tunnel
started = record {
  channel = record { stopped = false; closed = false };
  phase = accepting;
  connections = [];
  next_id = 0;
}

-- What holds the sender of the channel.
pub data Outside (s t : Tunnel) : Type 0 where
  send_true :
      t ≡ record s { channel = record { stopped = true; closed = s.channel.closed } } → Outside s t
  drop_sender :
      t ≡ record s { channel = record { stopped = s.channel.stopped; closed = true } } → Outside s t

-- A task of the `JoinSet` ends, and `join_next` takes one that has ended.
pub data Ends (s t : Tunnel) : Type 0 where
  ends :
      (before after : List Connection) (id : ℕ) (status : Status)
      → status ≢ finished
      → s.connections ≡ before ++ (id, status) ∷ after
      → t ≡ record s { connections = before ++ (id, finished) ∷ after }
      → Ends s t

pub data Joins (s t : Tunnel) : Type 0 where
  joins :
      (before after : List Connection) (id : ℕ)
      → s.connections ≡ before ++ (id, finished) ∷ after
      → t ≡ record s { connections = before ++ after }
      → Joins s t

-- The arms of the loop. A failed `accept` ends it, with an error unless a stop was sent.
pub data Accepting (s t : Tunnel) : Type 0 where
  accepted :
      t ≡ record s {
        connections = s.connections ++ (s.next_id, active) ∷ [];
        next_id = suc s.next_id;
      }
      → Accepting s t
  stopped_while_accepting :
      s.channel.stopped ≡ true → t ≡ record s { phase = draining } → Accepting s t
  failed :
      (e : AppError)
      → s.channel.stopped ≡ false
      → t ≡ record s { phase = returned (err e); connections = abort_all s.connections }
      → Accepting s t
  joined : Joins s t → Accepting s t
  shut_down : wakes s.channel ≡ true → t ≡ record s { phase = draining } → Accepting s t

-- `drain_tcp_connections`, up to the abort. The grace period can only run out on a task.
pub data Drains (s t : Tunnel) : Type 0 where
  drained : s.connections ≡ [] → t ≡ record s { phase = returned (ok tt) } → Drains s t
  drain_joined : Joins s t → Drains s t
  timed_out :
      s.connections ≢ []
      → t ≡ record s { phase = aborting; connections = abort_all s.connections }
      → Drains s t

pub data Aborts (s t : Tunnel) : Type 0 where
  none_left : s.connections ≡ [] → t ≡ record s { phase = returned (ok tt) } → Aborts s t
  abort_joined : Joins s t → Aborts s t

-- A step of the task, or of one of its connections.
pub data Works (s t : Tunnel) : Type 0 where
  in_loop : s.phase ≡ accepting → Accepting s t → Works s t
  in_drain : s.phase ≡ draining → Drains s t → Works s t
  in_abort : s.phase ≡ aborting → Aborts s t → Works s t
  connection_ends : Ends s t → Works s t

pub data Step (s t : Tunnel) : Type 0 where
  works : Works s t → Step s t
  outside : Outside s t → Step s t

pub data Reach (s : Tunnel) : Tunnel → Type 0 where
  here : Reach s s
  then : {t u : Tunnel} → Reach s t → Step t u → Reach s u
