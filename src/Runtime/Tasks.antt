-- ===== src/Runtime/Tasks.antt =====
-- Which tasks run after the operations on one tunnel of src/runtime.rs.
use vorto.Prelude.{
  ℕ, ◌≤◌, ◌<◌, ◌≡◌, refl, ◌∙◌, ◌⊎◌, inl, inr, Bool, true, not, ◌&&◌, ◌||◌, List, [], ◌∷◌, ◌++◌,
  arith, contains, keep_if, is_yes, ℕ_discrete, Bool-cases,
}
use vorto.Text.{text}
use vorto.Result.{AppResult, AppError, ok, err, AppResult-cases}
use vorto.Config.Tunnel.{TunnelConfig, supports_tcp, supports_udp}
use vorto.Runtime.System.{
  Os, Rt, parse_labelled_addr, configure_udp_socket, spawn_task, runs, ended,
  wait_for_task_shutdown, wait_all, send_stop, new_channel,
}
use vorto.Runtime.Tunnel.{
  ActiveTunnel, Started, push_task, start_tcp, serve_udp, bind_and_serve_udp, start_udp, then_udp,
  finish_spawn, spawn, stop,
}

abbrev pub has : List ℕ → ℕ → Bool
has = contains ℕ_discrete

has-keep_if :
    (h id : ℕ) (js : List ℕ)
    → has (keep_if (λ j. not (is_yes (ℕ_discrete h j))) js) id
      ≡ (not (is_yes (ℕ_discrete id h)) && has js id)
has-keep_if h id [] = ground arith
has-keep_if h id (j ∷ js) = ground (arith, has-keep_if h id js)

pub has-append : (hs ks : List ℕ) (id : ℕ) → has (hs ++ ks) id ≡ (has hs id || has ks id)
has-append [] ks id = refl
has-append (h ∷ hs) ks id = ground (arith, has-append hs ks id)

module _ (O : Os) where
  pub runs-ended :
      (h id : ℕ) (rt : Rt O)
      → runs O (ended O h rt) id ≡ (not (is_yes (ℕ_discrete id h)) && runs O rt id)
  unfolding ended
  runs-ended h id rt = has-keep_if h id rt.running

  runs-wait :
      (h id : ℕ) (rt : Rt O)
      → runs O (wait_for_task_shutdown O h rt) id ≡ (not (is_yes (ℕ_discrete id h)) && runs O rt id)
  unfolding wait_for_task_shutdown
  runs-wait h id rt = ground (arith, has-keep_if h id rt.running)

  next_task-wait : (h : ℕ) (rt : Rt O) → (wait_for_task_shutdown O h rt).next_task ≡ rt.next_task
  unfolding wait_for_task_shutdown ended
  next_task-wait h rt = ground arith

  pub next_task-wait_all : (hs : List ℕ) (rt : Rt O) → (wait_all O hs rt).next_task ≡ rt.next_task
  unfolding wait_all
  next_task-wait_all [] rt = refl
  next_task-wait_all (h ∷ hs) rt =
      next_task-wait_all hs (wait_for_task_shutdown O h rt) ∙ next_task-wait h rt

  -- Exactly the awaited tasks have ended.
  pub runs-wait_all :
      (hs : List ℕ) (id : ℕ) (rt : Rt O)
      → runs O (wait_all O hs rt) id ≡ (not (has hs id) && runs O rt id)
  unfolding wait_all
  runs-wait_all [] id rt = refl
  runs-wait_all (h ∷ hs) id rt =
      ground (arith, runs-wait_all hs id (wait_for_task_shutdown O h rt), runs-wait h id rt)

  pub runs-stop :
      (a : ActiveTunnel) (id : ℕ) (rt : Rt O)
      → runs O (stop O a rt) id ≡ (not (has a.handles id) && runs O rt id)
  unfolding stop send_stop
  runs-stop a id rt = runs-wait_all a.handles id (send_stop O a.stop_tx rt)

  pub next_task-stop : (a : ActiveTunnel) (rt : Rt O) → (stop O a rt).next_task ≡ rt.next_task
  unfolding stop send_stop
  next_task-stop a rt = next_task-wait_all a.handles (send_stop O a.stop_tx rt)

  -- A part of a start has added the tasks of its handles, all new.
  record Adds (rt0 : Rt O) (r : Started O) : Type 0 where
    added : (id : ℕ) → runs O r.2 id ≡ (has r.1 id || runs O rt0 id)
    fresh : (id : ℕ) → has r.1 id ≡ true → (rt0.next_task ≤ id) × (id < (r.2).next_task)
    grows : rt0.next_task ≤ (r.2).next_task

  push_task-Adds :
      (rt0 rt : Rt O) (hs : List ℕ) (r : AppResult (Unit {0}))
      → Adds rt0 (r, hs, rt)
      → Adds rt0 (push_task O hs rt)
  unfolding spawn_task
  push_task-Adds rt0 rt hs r a = record {
    added = λ id. ground (arith, a.added id, has-append hs (rt.next_task ∷ []) id);
    fresh = λ id h. ground (arith, a.fresh id, has-append hs (rt.next_task ∷ []) id, h);
    grows = omega (arith, a.grows);
  }

  with_os-Adds :
      (rt0 rt : Rt O) (hs : List ℕ) (r r' : AppResult (Unit {0})) (s : O.State)
      → Adds rt0 (r, hs, rt)
      → Adds rt0 (r', hs, record rt { os_state = s })
  with_os-Adds rt0 rt hs r r' s a = record { added = a.added; fresh = a.fresh; grows = a.grows }

  start_tcp-Adds :
      (spec : TunnelConfig) (rt0 rt : Rt O) (hs : List ℕ)
      → Adds rt0 (ok tt, hs, rt)
      → Adds rt0 (start_tcp O spec hs rt)
  unfolding start_tcp
  start_tcp-Adds spec rt0 rt hs a = elim (Bool-cases (supports_tcp spec.protocol)) [
    | inr no' ↦ rw no' a
    | inl yes' ↦ rw yes' (elim (AppResult-cases (O.bind_tcp spec.listen rt.os_state).0) [
      | inr (e, failed) ↦ rw failed (with_os-Adds rt0 rt hs (ok tt) (err e) _ a)
      | inl (_, bound) ↦
          rw bound (push_task-Adds rt0 _ hs (ok tt) (with_os-Adds rt0 rt hs (ok tt) (ok tt) _ a))
    ])
  ]

  serve_udp-Adds :
      (socket : ℕ) (rt0 rt : Rt O) (hs : List ℕ)
      → Adds rt0 (ok tt, hs, rt)
      → Adds rt0 (serve_udp O socket hs rt)
  unfolding serve_udp
  serve_udp-Adds socket rt0 rt hs a =
      elim (AppResult-cases (configure_udp_socket O socket rt.os_state).0) [
        | inr (e, failed) ↦ rw (failed, serve_udp) (with_os-Adds rt0 rt hs (ok tt) (err e) _ a)
        | inl (_, done) ↦
            rw (done, serve_udp)
              (push_task-Adds rt0 _ hs (ok tt) (with_os-Adds rt0 rt hs (ok tt) (ok tt) _ a))
      ]

  start_udp-Adds :
      (spec : TunnelConfig) (rt0 rt : Rt O) (hs : List ℕ)
      → Adds rt0 (ok tt, hs, rt)
      → Adds rt0 (start_udp O spec hs rt)
  unfolding start_udp
  start_udp-Adds spec rt0 rt hs a = elim (Bool-cases (supports_udp spec.protocol)) [
    | inr no' ↦ rw no' a
    | inl yes' ↦ rw yes' (elim (AppResult-cases (parse_labelled_addr spec.target (text "target"))) [
      | inr (e, failed) ↦ rw failed (with_os-Adds rt0 rt hs (ok tt) (err e) rt.os_state a)
      | inl (_, target) ↦ rw target (elim (AppResult-cases (O.bind_udp spec.listen rt.os_state).0) [
        | inr (e, failed) ↦
            rw (failed, bind_and_serve_udp) (with_os-Adds rt0 rt hs (ok tt) (err e) _ a)
        | inl (socket, bound) ↦
            rw (bound, bind_and_serve_udp)
              (serve_udp-Adds socket rt0 _ hs (with_os-Adds rt0 rt hs (ok tt) (ok tt) _ a))
      ])
    ])
  ]

  then_udp-Adds :
      (spec : TunnelConfig) (rt0 : Rt O) (r : Started O) → Adds rt0 r → Adds rt0 (then_udp O spec r)
  then_udp-Adds spec rt0 (err e, hs, rt) a = a
  then_udp-Adds spec rt0 (ok _, hs, rt) a = start_udp-Adds spec rt0 rt hs a

  -- Every task that runs has been given out.
  abbrev pub IsBelow : Rt O → Type 0
  IsBelow rt = (id : ℕ) → runs O rt id ≡ true → id < rt.next_task

  -- A success returns a tunnel with these settings, whose handles are new tasks, and those run
  -- beside the old ones. A failure leaves the tasks as they were.
  abbrev pub Spawns : TunnelConfig → Rt O → AppResult ActiveTunnel × Rt O → Type 0
  Spawns spec rt r =
      ((a : ActiveTunnel) × (r.0 ≡ ok a)
        × (a.spec ≡ spec)
        × ((id : ℕ) → runs O r.1 id ≡ (has a.handles id || runs O rt id))
        × ((id : ℕ) → has a.handles id ≡ true → (rt.next_task ≤ id) × (id < (r.1).next_task))
        × (rt.next_task ≤ (r.1).next_task))
      ⊎ ((e : AppError) × (r.0 ≡ err e)
          × ((id : ℕ) → runs O r.1 id ≡ runs O rt id)
          × (rt.next_task ≤ (r.1).next_task))

  finish_spawn-Spawns :
      (spec : TunnelConfig) (stop_tx : ℕ) (rt : Rt O) (r : Started O)
      → IsBelow rt
      → Adds rt r
      → Spawns spec rt (finish_spawn O spec stop_tx r)
  unfolding send_stop
  finish_spawn-Spawns spec stop_tx rt (ok _, hs, rt') below a = inl (
    record { spec = spec; stop_tx = stop_tx; handles = hs },
    refl,
    refl,
    a.added,
    a.fresh,
    a.grows,
  )
  finish_spawn-Spawns spec stop_tx rt (err e, hs, rt') below a = inr (
    e,
    refl,
    rolled_back,
    omega (arith, a.grows, next_task-wait_all hs (send_stop O stop_tx rt')),
  )
    where
      rolled_back : (id : ℕ) → runs O (wait_all O hs (send_stop O stop_tx rt')) id ≡ runs O rt id
      rolled_back id =
          ground
            (arith, runs-wait_all hs id (send_stop O stop_tx rt'), a.added id, a.fresh id, below id)

  -- If the tasks that run have numbers below the next one, `spawn` either succeeds with a tunnel
  -- of the given settings whose handles are new tasks that run beside the old ones, or fails and
  -- leaves exactly the tasks that ran before.
  pub spawn-Spawns :
      (spec : TunnelConfig) (rt : Rt O) → IsBelow rt → Spawns spec rt (spawn O spec rt)
  unfolding spawn new_channel
  spawn-Spawns spec rt below =
      let rt1 = (new_channel O rt).1 in
      finish_spawn-Spawns spec rt.next_channel rt (then_udp O spec (start_tcp O spec [] rt1)) below
        (then_udp-Adds spec rt _ (
          start_tcp-Adds spec rt rt1 [] (record {
            added = λ id. refl;
            fresh = λ id h. absurd (ground arith);
            grows = omega arith;
          })))
