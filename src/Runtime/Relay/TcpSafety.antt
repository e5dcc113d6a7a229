-- ===== src/Runtime/Relay/TcpSafety.antt =====
-- What holds in every state of a TCP tunnel's task.
use vorto.Prelude.{
  ℕ, ◌≡◌, ◌≢◌, refl, sym, subst, Bool, true, false, List, [], ◌∷◌, ◌++◌, arith, All,
}
use vorto.Result.{AppResult, ok, err}
use vorto.Runtime.Relay.Tcp.{
  Channel, wakes, Status, active, aborted, finished, Connection, abort_all, Phase, accepting,
  draining, aborting, returned, Tunnel, started, Outside, send_true, drop_sender, Ends, ends, Joins,
  joins, Accepting, accepted, stopped_while_accepting, failed, joined, shut_down, Drains, drained,
  drain_joined, timed_out, Aborts, none_left, abort_joined, Works, in_loop, in_drain, in_abort,
  connection_ends, Step, works, outside, Reach, here, then,
}

-- A connection's task was told to abort or has ended.
abbrev pub is_ending : Status → Bool
is_ending active = false
is_ending aborted = true
is_ending finished = true

abbrev pub AllEnding : List Connection → Type 0
AllEnding = All (λ c. is_ending c.1 ≡ true)

pub abort_all-AllEnding : (cs : List Connection) → AllEnding (abort_all cs)
unfolding abort_all
abort_all-AllEnding [] = tt
abort_all-AllEnding ((id, active) ∷ cs) = (refl, abort_all-AllEnding cs)
abort_all-AllEnding ((id, aborted) ∷ cs) = (refl, abort_all-AllEnding cs)
abort_all-AllEnding ((id, finished) ∷ cs) = (refl, abort_all-AllEnding cs)

-- What each phase promises of the connections.
abbrev Promise : Phase → Channel → List Connection → Type 0
Promise accepting c cs = Unit
Promise draining c cs = wakes c ≡ true
Promise aborting c cs = (wakes c ≡ true) × AllEnding cs
Promise (returned (ok _)) c cs = (wakes c ≡ true) × (cs ≡ [])
Promise (returned (err _)) c cs = AllEnding cs

abbrev pub Inv : Tunnel → Type 0
Inv s = Promise s.phase s.channel s.connections

AllEnding-remove :
    (bs as' : List Connection) (c : Connection) → AllEnding (bs ++ c ∷ as') → AllEnding (bs ++ as')
AllEnding-remove [] as' c (h, hs) = hs
AllEnding-remove (b ∷ bs) as' c (h, hs) = (h, AllEnding-remove bs as' c hs)

AllEnding-finish :
    (bs as' : List Connection) (id : ℕ) (st : Status)
    → AllEnding (bs ++ (id, st) ∷ as')
    → AllEnding (bs ++ (id, finished) ∷ as')
AllEnding-finish [] as' id st (h, hs) = (refl, hs)
AllEnding-finish (b ∷ bs) as' id st (h, hs) = (h, AllEnding-finish bs as' id st hs)

not_nil : (bs as' : List Connection) (c : Connection) → bs ++ c ∷ as' ≢ []
not_nil [] as' c h = cc
not_nil (b ∷ bs) as' c h = cc

Promise-ends :
    (p : Phase) (c : Channel) (bs as' : List Connection) (id : ℕ) (st : Status)
    → Promise p c (bs ++ (id, st) ∷ as')
    → Promise p c (bs ++ (id, finished) ∷ as')
Promise-ends accepting c bs as' id st h = tt
Promise-ends draining c bs as' id st h = h
Promise-ends aborting c bs as' id st (h, all) = (h, AllEnding-finish bs as' id st all)
Promise-ends (returned (ok _)) c bs as' id st (h, e) = absurd (not_nil bs as' (id, st) e)
Promise-ends (returned (err _)) c bs as' id st all = AllEnding-finish bs as' id st all

Promise-joins :
    (p : Phase) (c : Channel) (bs as' : List Connection) (id : ℕ)
    → Promise p c (bs ++ (id, finished) ∷ as')
    → Promise p c (bs ++ as')
Promise-joins accepting c bs as' id h = tt
Promise-joins draining c bs as' id h = h
Promise-joins aborting c bs as' id (h, all) = (h, AllEnding-remove bs as' (id, finished) all)
Promise-joins (returned (ok _)) c bs as' id (h, e) = absurd (not_nil bs as' (id, finished) e)
Promise-joins (returned (err _)) c bs as' id all = AllEnding-remove bs as' (id, finished) all

Promise-channel :
    (p : Phase) (c c' : Channel) (cs : List Connection)
    → (wakes c ≡ true → wakes c' ≡ true)
    → Promise p c cs
    → Promise p c' cs
Promise-channel accepting c c' cs k h = tt
Promise-channel draining c c' cs k h = k h
Promise-channel aborting c c' cs k (h, all) = (k h, all)
Promise-channel (returned (ok _)) c c' cs k (h, e) = (k h, e)
Promise-channel (returned (err _)) c c' cs k all = all

Joins-Inv : {s t : Tunnel} → Joins s t → Inv s → Inv t
Joins-Inv {s} (joins bs as' id e q) v =
    subst Inv (sym q)
      (Promise-joins s.phase s.channel bs as' id (subst (Promise s.phase s.channel) e v))

Ends-Inv : {s t : Tunnel} → Ends s t → Inv s → Inv t
Ends-Inv {s} (ends bs as' id st ne e q) v =
    subst Inv (sym q)
      (Promise-ends s.phase s.channel bs as' id st (subst (Promise s.phase s.channel) e v))

Accepting-Inv : {s t : Tunnel} → s.phase ≡ accepting → Accepting s t → Inv s → Inv t
Accepting-Inv {s} p (accepted q) v =
    subst Inv (sym q)
      (subst (λ x. Promise x s.channel (s.connections ++ (s.next_id, active) ∷ [])) (sym p) tt)
Accepting-Inv {s} p (stopped_while_accepting h q) v = subst Inv (sym q) (ground arith)
Accepting-Inv {s} p (failed e h q) v = subst Inv (sym q) (abort_all-AllEnding s.connections)
Accepting-Inv {s} p (joined j) v = Joins-Inv j v
Accepting-Inv {s} p (shut_down h q) v = subst Inv (sym q) h

woken_in_drain : (s : Tunnel) → s.phase ≡ draining → Inv s → wakes s.channel ≡ true
woken_in_drain s p v = subst (λ x. Promise x s.channel s.connections) p v

pub woken_in_abort :
    (s : Tunnel) → s.phase ≡ aborting → Inv s → (wakes s.channel ≡ true) × AllEnding s.connections
woken_in_abort s p v = subst (λ x. Promise x s.channel s.connections) p v

Drains-Inv : {s t : Tunnel} → s.phase ≡ draining → Drains s t → Inv s → Inv t
Drains-Inv {s} p (drained none' q) v = subst Inv (sym q) (woken_in_drain s p v, none')
Drains-Inv {s} p (drain_joined j) v = Joins-Inv j v
Drains-Inv {s} p (timed_out some' q) v =
    subst Inv (sym q) (woken_in_drain s p v, abort_all-AllEnding s.connections)

Aborts-Inv : {s t : Tunnel} → s.phase ≡ aborting → Aborts s t → Inv s → Inv t
Aborts-Inv {s} p (none_left none' q) v = subst Inv (sym q) ((woken_in_abort s p v).0, none')
Aborts-Inv {s} p (abort_joined j) v = Joins-Inv j v

pub Outside-Inv : {s t : Tunnel} → Outside s t → Inv s → Inv t
Outside-Inv {s} (send_true q) v =
    subst Inv (sym q) (Promise-channel s.phase s.channel _ s.connections (λ h. refl) v)
Outside-Inv {s} (drop_sender q) v =
    subst Inv (sym q) (Promise-channel s.phase s.channel _ s.connections (λ h. ground arith) v)

pub Works-Inv : {s t : Tunnel} → Works s t → Inv s → Inv t
Works-Inv (in_loop p a) v = Accepting-Inv p a v
Works-Inv (in_drain p d) v = Drains-Inv p d v
Works-Inv (in_abort p a) v = Aborts-Inv p a v
Works-Inv (connection_ends e) v = Ends-Inv e v

pub Step-Inv : {s t : Tunnel} → Step s t → Inv s → Inv t
Step-Inv (works w) v = Works-Inv w v
Step-Inv (outside o) v = Outside-Inv o v

pub Reach-Inv : {s t : Tunnel} → Reach s t → Inv s → Inv t
Reach-Inv here v = v
Reach-Inv (then r st) v = Step-Inv st (Reach-Inv r v)

-- What a tunnel leaves behind. After a success the channel has woken it and no connection is left;
-- after an error every connection was told to abort or has ended.
abbrev pub IsClean : AppResult (Unit {0}) → Tunnel → Type 0
IsClean (ok _) t = (wakes t.channel ≡ true) × (t.connections ≡ [])
IsClean (err _) t = AllEnding t.connections

IsClean-of_Promise :
    (r : AppResult (Unit {0})) (t : Tunnel)
    → Promise (returned r) t.channel t.connections
    → IsClean r t
IsClean-of_Promise (ok _) t h = h
IsClean-of_Promise (err e) t h = h

-- When the task of a TCP tunnel has returned without an error, it was woken by the stop channel
-- and no connection is left. When it has returned an error, every connection was told to abort or
-- has ended.
pub returned-IsClean :
    (t : Tunnel) (r : AppResult (Unit {0})) → Reach started t → t.phase ≡ returned r → IsClean r t
returned-IsClean t r path p =
    IsClean-of_Promise r t (subst (λ x. Promise x t.channel t.connections) p (Reach-Inv path tt))

abbrev pub is_failed : Phase → Bool
is_failed (returned (err e)) = true
is_failed (returned (ok _)) = false
is_failed accepting = false
is_failed draining = false
is_failed aborting = false

-- A stop was sent, and the task has not failed.
abbrev pub IsStopped : Tunnel → Type 0
IsStopped s = (s.channel.stopped ≡ true) × (is_failed s.phase ≡ false)

Joins-IsStopped : {s t : Tunnel} → Joins s t → IsStopped s → IsStopped t
Joins-IsStopped (joins bs as' id e q) v = subst IsStopped (sym q) v

pub Works-IsStopped : {s t : Tunnel} → Works s t → IsStopped s → IsStopped t
Works-IsStopped (in_loop p (accepted q)) v = subst IsStopped (sym q) v
Works-IsStopped (in_loop p (stopped_while_accepting h q)) v = subst IsStopped (sym q) (h, refl)
Works-IsStopped (in_loop p (failed e h q)) v = absurd (ground (arith, v.0))
Works-IsStopped (in_loop p (joined j)) v = Joins-IsStopped j v
Works-IsStopped (in_loop p (shut_down h q)) v = subst IsStopped (sym q) (v.0, refl)
Works-IsStopped (in_drain p (drained h q)) v = subst IsStopped (sym q) (v.0, refl)
Works-IsStopped (in_drain p (drain_joined j)) v = Joins-IsStopped j v
Works-IsStopped (in_drain p (timed_out h q)) v = subst IsStopped (sym q) (v.0, refl)
Works-IsStopped (in_abort p (none_left h q)) v = subst IsStopped (sym q) (v.0, refl)
Works-IsStopped (in_abort p (abort_joined j)) v = Joins-IsStopped j v
Works-IsStopped (connection_ends (ends bs as' id st ne e q)) v = subst IsStopped (sym q) v

Step-IsStopped : {s t : Tunnel} → Step s t → IsStopped s → IsStopped t
Step-IsStopped (works w) v = Works-IsStopped w v
Step-IsStopped (outside (send_true q)) v = subst IsStopped (sym q) (refl, v.1)
Step-IsStopped (outside (drop_sender q)) v = subst IsStopped (sym q) v

-- Once a stop was sent to the task of a TCP tunnel that has not failed, it never fails, whatever
-- the listener, the connections and the holder of the channel do.
pub stopped-never_fails :
    (s t : Tunnel)
    → s.channel.stopped ≡ true
    → is_failed s.phase ≡ false
    → Reach s t
    → is_failed t.phase ≡ false
stopped-never_fails s t h f path = (go path).1
  where
    go : {u : Tunnel} → Reach s u → IsStopped u
    go here = (h, f)
    go (then r st) = Step-IsStopped st (go r)
