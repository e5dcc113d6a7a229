-- ===== src/Runtime/Relay/Driven.antt =====
-- The steps of a TCP tunnel's task of src/runtime.rs that rest on nothing but the task, the stop
-- channel, the grace period and the aborts, and that there is one after the loop of the task.
use vorto.Prelude.{ℕ, ◌≡◌, refl, ap, subst, Bool, true, false, List, [], ◌∷◌, arith, ◌⊎◌, inl, inr}
use vorto.Runtime.Relay.Tcp.{
  Status, active, aborted, finished, Connection, Phase, accepting, draining, aborting, returned,
  Tunnel, ends, joins, Accepting, accepted, stopped_while_accepting, failed, joined, shut_down,
  drained, timed_out, none_left, abort_joined, Works, in_loop, in_drain, in_abort, connection_ends,
}
use vorto.Runtime.Relay.TcpSafety.{Inv, AllEnding, woken_in_abort}

abbrev in_loop-IsDriven : {s t : Tunnel} → Accepting s t → Type 0
in_loop-IsDriven (accepted q) = ⊥
in_loop-IsDriven (stopped_while_accepting h q) = ⊥
in_loop-IsDriven (failed e h q) = ⊥
in_loop-IsDriven (joined j) = Unit
in_loop-IsDriven (shut_down h q) = Unit

-- The step does not rest on the listener, which has to accept a connection or to fail for the steps
-- of its arm, and not on a connection that ends by itself. The end of a connection that was told to
-- abort does not rest on it.
abbrev pub IsDriven : {s t : Tunnel} → Works s t → Type 0
IsDriven (in_loop p a) = in_loop-IsDriven a
IsDriven (in_drain p d) = Unit
IsDriven (in_abort p a) = Unit
IsDriven (connection_ends (ends bs as' id st ne e q)) = st ≡ aborted

abbrev pub HasDriven : Tunnel → Type 0
HasDriven s = (t : Tunnel) × (w : Works s t) × IsDriven w

abbrev pub is_accepting : Phase → Bool
is_accepting accepting = true
is_accepting draining = false
is_accepting aborting = false
is_accepting (returned r) = false

abbrev pub is_returned : Phase → Bool
is_returned accepting = false
is_returned draining = false
is_returned aborting = false
is_returned (returned r) = true

-- After the abort, the first connection ends, or is joined.
settle_first :
    (s : Tunnel) (id : ℕ) (st : Status) (cs : List Connection)
    → s.phase ≡ aborting
    → s.connections ≡ (id, st) ∷ cs
    → AllEnding ((id, st) ∷ cs)
    → HasDriven s
settle_first s id finished cs p e v = (_, in_abort p (abort_joined (joins [] cs id e refl)), tt)
settle_first s id active cs p e v = absurd (ground (arith, v.0))
settle_first s id aborted cs p e v =
    (_, connection_ends (ends [] cs id aborted (λ h. cc) e refl), refl)

-- After the loop there is always a driven step, unless the task has returned.
pub drain_progress :
    (s : Tunnel) → Inv s → is_accepting s.phase ≡ false → (is_returned s.phase ≡ true) ⊎ HasDriven s
drain_progress s v a = go s.phase refl s.connections refl
  where
    go :
        (p : Phase)
        → s.phase ≡ p
        → (cs : List Connection) → s.connections ≡ cs
        → (is_returned s.phase ≡ true) ⊎ HasDriven s
    go accepting p cs e = absurd (ground (arith, ap is_accepting p))
    go draining p [] e = inr (_, in_drain p (drained e refl), tt)
    go draining p (c ∷ cs) e = inr (_, in_drain p (timed_out (λ h. ground (arith, e, h)) refl), tt)
    go aborting p [] e = inr (_, in_abort p (none_left e refl), tt)
    go aborting p ((id, st) ∷ cs) e =
        inr (settle_first s id st cs p e (subst AllEnding e (woken_in_abort s p v).1))
    go (returned r) p cs e = inl (ap is_returned p)
