-- ===== src/Runtime/Relay/Draining.antt =====
-- `drain_tcp_connections` of src/runtime.rs comes to its end.
use vorto.Prelude.{
  ℕ, zero, suc, ◌+◌, ◌≤◌, ◌<◌, ◌≡◌, ◌≢◌, refl, sym, ap, subst, ◌∙◌, true, false, List, [], ◌∷◌,
  ◌++◌, arith, ◌⊎◌,
}
use vorto.Runtime.Relay.TcpSafety.{Inv, Works-Inv, Outside-Inv, Reach-Inv}
use vorto.Runtime.Relay.Driven.{is_accepting, is_returned, HasDriven, drain_progress}
use vorto.Runtime.Relay.Tcp.{
  started, Reach, Status, active, aborted, finished, Connection, told_to_abort, abort_all, Phase,
  accepting, draining, aborting, returned, Tunnel, Outside, Ends, ends, Joins, joins, Drains,
  drained, drain_joined, timed_out, Aborts, none_left, abort_joined, Works, in_loop, in_drain,
  in_abort, connection_ends,
}

-- What is still to happen to a connection: to be told to abort, to end, to be joined.
abbrev pub to_come : Status → ℕ
to_come active = 3
to_come aborted = 2
to_come finished = 1

abbrev pub all_to_come : List Connection → ℕ
all_to_come [] = 0
all_to_come (c ∷ cs) = to_come c.1 + all_to_come cs

abbrev pub phases_to_come : Phase → ℕ
phases_to_come accepting = 3
phases_to_come draining = 2
phases_to_come aborting = 1
phases_to_come (returned r) = 0

-- A bound on the steps left.
abbrev pub steps_left : Tunnel → ℕ
steps_left s = phases_to_come s.phase + all_to_come s.connections

to_come-told : (st : Status) → to_come (told_to_abort st) ≤ to_come st
to_come-told active = omega arith
to_come-told aborted = omega arith
to_come-told finished = omega arith

all_to_come-abort_all : (cs : List Connection) → all_to_come (abort_all cs) ≤ all_to_come cs
unfolding abort_all
all_to_come-abort_all [] = omega arith
all_to_come-abort_all (c ∷ cs) = omega (arith, to_come-told c.1, all_to_come-abort_all cs)

all_to_come-middle :
    (bs as' : List Connection) (c : Connection)
    → all_to_come (bs ++ c ∷ as') ≡ to_come c.1 + all_to_come (bs ++ as')
all_to_come-middle [] as' c = refl
all_to_come-middle (b ∷ bs) as' c = omega (arith, all_to_come-middle bs as' c)

to_come-unfinished : (st : Status) → st ≢ finished → 2 ≤ to_come st
to_come-unfinished active h = omega arith
to_come-unfinished aborted h = omega arith
to_come-unfinished finished h = absurd (h refl)

-- A step after the loop leaves fewer steps.
abbrev pub Fewer : Tunnel → Tunnel → Type 0
Fewer s t = (steps_left t < steps_left s) × (is_accepting t.phase ≡ false)

Joins-Fewer : {s t : Tunnel} → is_accepting s.phase ≡ false → Joins s t → Fewer s t
Joins-Fewer {s} {t} h (joins bs as' id e q) =
    subst (Fewer s) (sym q)
      (omega (arith, ap all_to_come e, all_to_come-middle bs as' (id, finished)), h)

Ends-Fewer : {s t : Tunnel} → is_accepting s.phase ≡ false → Ends s t → Fewer s t
Ends-Fewer {s} {t} h (ends bs as' id st ne e q) = subst (Fewer s) (sym q) (
  omega (
    arith,
    ap all_to_come e,
    all_to_come-middle bs as' (id, st),
    all_to_come-middle bs as' (id, finished),
    to_come-unfinished st ne,
  ),
  h,
)

Drains-Fewer : {s t : Tunnel} → s.phase ≡ draining → Drains s t → Fewer s t
Drains-Fewer {s} p (drained none' q) =
    subst (Fewer s) (sym q) (omega (arith, ap phases_to_come p), refl)
Drains-Fewer {s} p (drain_joined j) = Joins-Fewer (ap is_accepting p) j
Drains-Fewer {s} p (timed_out some' q) =
    subst (Fewer s) (sym q)
      (omega (arith, ap phases_to_come p, all_to_come-abort_all s.connections), refl)

Aborts-Fewer : {s t : Tunnel} → s.phase ≡ aborting → Aborts s t → Fewer s t
Aborts-Fewer {s} p (none_left none' q) =
    subst (Fewer s) (sym q) (omega (arith, ap phases_to_come p), refl)
Aborts-Fewer {s} p (abort_joined j) = Joins-Fewer (ap is_accepting p) j

pub Works-Fewer : {s t : Tunnel} → is_accepting s.phase ≡ false → Works s t → Fewer s t
Works-Fewer h (in_loop p a) = absurd (ground (arith, ap is_accepting p))
Works-Fewer h (in_drain p d) = Drains-Fewer p d
Works-Fewer h (in_abort p a) = Aborts-Fewer p a
Works-Fewer h (connection_ends e) = Ends-Fewer h e

-- The steps of the task and its connections, counted; the channel may change between them.
pub data Runs : ℕ → Tunnel → Tunnel → Type 0 where
  rests : {s : Tunnel} → Runs zero s s
  works_on : {n : ℕ} {s t u : Tunnel} → Works s t → Runs n t u → Runs (suc n) s u
  heeds : {n : ℕ} {s t u : Tunnel} → Outside s t → Runs n t u → Runs n s u

Outside-same :
    {s t : Tunnel}
    → Outside s t
    → (steps_left t ≡ steps_left s) × (is_accepting t.phase ≡ is_accepting s.phase)
Outside-same (Outside.send_true q) = (ap steps_left q, ap (λ (x : Tunnel). is_accepting x.phase) q)
Outside-same (Outside.drop_sender q) =
    (ap steps_left q, ap (λ (x : Tunnel). is_accepting x.phase) q)

Runs-keeps_on :
    {n : ℕ} {s t : Tunnel}
    → Runs n s t
    → is_accepting s.phase ≡ false
    → is_accepting t.phase ≡ false
Runs-keeps_on rests h = h
Runs-keeps_on (works_on w r) h = Runs-keeps_on r (Works-Fewer h w).1
Runs-keeps_on (heeds o r) h = Runs-keeps_on r ((Outside-same o).1 ∙ h)

Runs-bounded : (n : ℕ) (s t : Tunnel) → is_accepting s.phase ≡ false → Runs n s t → n ≤ steps_left s
Runs-bounded n s t h rests = omega arith
Runs-bounded n s t h (works_on w r) =
    let f = Works-Fewer h w in omega (arith, f.0, Runs-bounded _ _ t f.1 r)
Runs-bounded n s t h (heeds o r) =
    let (left, same) = Outside-same o in omega (arith, left, Runs-bounded n _ t (same ∙ h) r)

Runs-Inv : {n : ℕ} {s t : Tunnel} → Runs n s t → Inv s → Inv t
Runs-Inv rests v = v
Runs-Inv (works_on w r) v = Runs-Inv r (Works-Inv w v)
Runs-Inv (heeds o r) v = Runs-Inv r (Outside-Inv o v)

-- Once the task of a TCP tunnel has left its loop, in a state reached from its start, the number
-- of steps of the task and its connections is bounded by a measure of that state. Whenever the
-- task has not returned, there is a further step that needs no connection to end by itself: one
-- of the task, or the end of a connection that the task has aborted. So connections that never
-- heed the stop do not keep the task from its end.
pub drain_terminates :
    (n : ℕ) (s t : Tunnel)
    → Reach started s
    → is_accepting s.phase ≡ false
    → Runs n s t
    → (n ≤ steps_left s) × ((is_returned t.phase ≡ true) ⊎ HasDriven t)
drain_terminates n s t path h r =
    (Runs-bounded n s t h r, drain_progress t (Runs-Inv r (Reach-Inv path tt)) (Runs-keeps_on r h))
