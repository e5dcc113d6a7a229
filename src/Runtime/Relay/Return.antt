-- ===== src/Runtime/Relay/Return.antt =====
-- A TCP tunnel's task of src/runtime.rs that was told to stop returns.
use vorto.Prelude.{ℕ, zero, suc, ◌<◌, ◌≡◌, refl, ap, true, false, arith, inl, inr}
use vorto.Result.{ok, err}
use vorto.Runtime.Relay.Tcp.{
  Phase, accepting, draining, aborting, returned, Tunnel, started, shut_down, Works, in_loop, Reach,
}
use vorto.Runtime.Relay.TcpSafety.{Inv, Works-Inv, Reach-Inv, is_failed, IsStopped, Works-IsStopped}
use vorto.Runtime.Relay.Driven.{IsDriven, is_accepting, is_returned, drain_progress}
use vorto.Runtime.Relay.Draining.{steps_left, Works-Fewer}

-- Driven steps, one after the other.
pub data DrivenTo : Tunnel → Tunnel → Type 0 where
  here : {s : Tunnel} → DrivenTo s s
  driven : {s t u : Tunnel} (w : Works s t) → IsDriven w → DrivenTo t u → DrivenTo s u

returned_ok : (p : Phase) → is_returned p ≡ true → is_failed p ≡ false → p ≡ returned (ok tt)
returned_ok accepting r f = absurd (ground (arith, r))
returned_ok draining r f = absurd (ground (arith, r))
returned_ok aborting r f = absurd (ground (arith, r))
returned_ok (returned (ok _)) r f = refl
returned_ok (returned (err e)) r f = absurd (ground (arith, f))

drain_returns :
    (n : ℕ) (s : Tunnel)
    → steps_left s < n
    → Inv s
    → IsStopped s
    → is_accepting s.phase ≡ false
    → (t : Tunnel) × DrivenTo s t × (t.phase ≡ returned (ok tt))
drain_returns zero s h i v a = absurd (omega (arith, h))
drain_returns (suc n) s h i v a = elim (drain_progress s i a) [
  | inl done ↦ (s, here, returned_ok s.phase done v.1)
  | inr (t, w, d) ↦
      let f = Works-Fewer a w in
      let (u, r, done) =
        drain_returns n t (omega (arith, f.0, h)) (Works-Inv w i) (Works-IsStopped w v) f.1 in
      (u, driven w d r, done)
]

-- From every state of a TCP tunnel that is reached from its start, to which a stop was sent and
-- which has not failed, some steps lead to a return without an error, none of which needs
-- anything of the listener, neither a connection nor a failure, and none a connection that ends
-- by itself.
pub stop-returns :
    (s : Tunnel)
    → Reach started s
    → s.channel.stopped ≡ true
    → is_failed s.phase ≡ false
    → (t : Tunnel) × DrivenTo s t × (t.phase ≡ returned (ok tt))
stop-returns s path h f = go s.phase refl
  where
    v : Inv s
    v = Reach-Inv path tt

    leaves :
        is_accepting s.phase ≡ false → (t : Tunnel) × DrivenTo s t × (t.phase ≡ returned (ok tt))
    leaves = drain_returns (suc (steps_left s)) s (omega arith) v (h, f)

    go : (p : Phase) → s.phase ≡ p → (t : Tunnel) × DrivenTo s t × (t.phase ≡ returned (ok tt))
    go accepting p =
        let s' : Tunnel = record s { phase = draining } in
        let w : Works s s' = in_loop p (shut_down (ground (arith, h)) refl) in
        let (t, r, done) =
          drain_returns (suc (steps_left s')) s' (omega arith) (Works-Inv w v) (h, refl) refl in
        (t, driven w tt r, done)
    go draining p = leaves (ap is_accepting p)
    go aborting p = leaves (ap is_accepting p)
    go (returned r) p = leaves (ap is_accepting p)
