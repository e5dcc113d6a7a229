-- ===== src/Runtime/Relay/Ending.antt =====
-- The task of a connection of src/runtime.rs takes few steps, and the stop channel ends it.
use vorto.Prelude.{ℕ, ◌+◌, ◌≤◌, ◌≡◌, refl, ap, ◌⊎◌, inl, inr, true, List, arith, length}
use vorto.Text.{Text}
use vorto.Result.{AppResult, ok, err}
use vorto.Runtime.Relay.Tcp.{wakes}
use vorto.Runtime.Relay.Connection.{configure_tcp_streams}
use vorto.Runtime.Relay.Handling.{
  Stage, connecting, copying, ended, Handling, after_configure, Event, told, Step, connects_in_time,
  fails_to_connect, times_out_connecting, told_while_connecting, copies, told_while_copying, Steps,
  none_taken, then_step, send_true, drop_sender,
}

-- A bound on the steps left.
abbrev pub stages_left : Stage → ℕ
stages_left connecting = 2
stages_left copying = 1
stages_left (ended r) = 0

stages_left-configured : (r : AppResult (Unit {0})) → stages_left (after_configure r) ≤ 1
stages_left-configured (ok _) = omega arith
stages_left-configured (err e) = omega arith

pub Step-fewer :
    (target : Text) {s t : Handling} {e : Event}
    → Step target s t e
    → stages_left t.stage + 1 ≤ stages_left s.stage
Step-fewer target {s} (connects_in_time inbound outbound p q) = omega (
  arith,
  ap stages_left p,
  ap (λ (x : Handling). stages_left x.stage) q,
  stages_left-configured (configure_tcp_streams inbound outbound),
)
Step-fewer target {s} (fails_to_connect e p q) =
    omega (arith, ap stages_left p, ap (λ (x : Handling). stages_left x.stage) q)
Step-fewer target {s} (times_out_connecting p q) =
    omega (arith, ap stages_left p, ap (λ (x : Handling). stages_left x.stage) q)
Step-fewer target {s} (told_while_connecting p w q) =
    omega (arith, ap stages_left p, ap (λ (x : Handling). stages_left x.stage) q)
Step-fewer target {s} (copies r p q) =
    omega (arith, ap stages_left p, ap (λ (x : Handling). stages_left x.stage) q)
Step-fewer target {s} (told_while_copying p w q) =
    omega (arith, ap stages_left p, ap (λ (x : Handling). stages_left x.stage) q)

Steps-bounded :
    (target : Text) (es : List Event) (s t : Handling)
    → Steps target es s t
    → length es + stages_left t.stage ≤ stages_left s.stage
Steps-bounded target es s t none_taken = omega arith
Steps-bounded target es s t (then_step e a r) =
    omega (arith, Step-fewer target a, Steps-bounded target _ _ t r)
Steps-bounded target es s t (send_true r) = Steps-bounded target es _ t r
Steps-bounded target es s t (drop_sender r) = Steps-bounded target es _ t r

told_progress :
    (target : Text) (s : Handling) (p : Stage)
    → s.stage ≡ p
    → wakes s.channel ≡ true
    → ((r : AppResult (Unit {0})) × (s.stage ≡ ended r))
      ⊎ Step target s (record s { stage = ended (ok tt) }) told
told_progress target s connecting p w = inr (told_while_connecting p w refl)
told_progress target s copying p w = inr (told_while_copying p w refl)
told_progress target s (ended r) p w = inl (r, p)

-- The task of a connection takes at most two steps. When the stop channel wakes its receivers,
-- the task has returned, or the arm of the stop channel is enabled and ends it without an error,
-- during the connect as well as during the copy.
pub handle_terminates :
    (target : Text) (es : List Event) (s t : Handling)
    → Steps target es s t
    → wakes t.channel ≡ true
    → (length es ≤ 2)
      × (((r : AppResult (Unit {0})) × (t.stage ≡ ended r))
          ⊎ Step target t (record t { stage = ended (ok tt) }) told)
handle_terminates target es s t r w = (
  omega (arith, Steps-bounded target es s t r, at_most_two s.stage),
  told_progress target t t.stage refl w,
)
  where
    at_most_two : (p : Stage) → stages_left p ≤ 2
    at_most_two connecting = omega arith
    at_most_two copying = omega arith
    at_most_two (ended r) = omega arith
