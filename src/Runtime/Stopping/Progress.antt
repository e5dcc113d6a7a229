-- ===== src/Runtime/Stopping/Progress.antt =====
-- However the parts of `TunnelManager::stop_all` in src/runtime.rs interleave, they come to their end:
-- there is a bound on the steps, and a step as long as something is to be joined, also where no task
-- heeds the stop.
use vorto.Prelude.{
  ℕ, ◌+◌, ◌*◌, ◌≤◌, ◌<◌, ◌≡◌, refl, sym, ap, subst, inl, inr, ◌⊎◌, true, not, List, [], ◌∷◌, ◌++◌,
  arith, length, keep_if, is_yes, ℕ_discrete, Bool-cases,
}
use vorto.Runtime.System.{Os, Rt, runs, ended, send_stop}
use vorto.Runtime.Tasks.{has}
use vorto.Runtime.Manager.{Active}
use vorto.Runtime.Stopping.Aborts.{IsDriven, IsAborted, stopping-IsAborted, first-IsAborted}
use vorto.Runtime.Stopping.{
  Wait, in_grace, after_abort, over, Job, unsent, waiting, Stopping, spawn_waits, Waits, resolved,
  grace_passed, aborted, joined, Step, begins, waits, returns, task_ends, cancelled, stopping,
  Steps, none_taken, then_step,
}

-- What is still to happen to a wait: the grace period, the end after the abort, the join.
abbrev pub wait_to_come : Wait → ℕ
wait_to_come in_grace = 3
wait_to_come after_abort = 2
wait_to_come over = 1

abbrev pub waits_to_come : List (ℕ × Wait) → ℕ
waits_to_come [] = 0
waits_to_come (w ∷ ws) = wait_to_come w.1 + waits_to_come ws

abbrev pub job_to_come : Job → ℕ
job_to_come (unsent a) = 2 + 3 * length a.handles
job_to_come (waiting hs) = 1 + waits_to_come hs

abbrev pub jobs_to_come : List Job → ℕ
jobs_to_come [] = 0
jobs_to_come (j ∷ js) = job_to_come j + jobs_to_come js

waits_to_come-middle :
    (ps qs : List (ℕ × Wait)) (h : ℕ) (w : Wait)
    → waits_to_come (ps ++ (h, w) ∷ qs) ≡ wait_to_come w + waits_to_come (ps ++ qs)
waits_to_come-middle [] qs h w = refl
waits_to_come-middle (p ∷ ps) qs h w = omega (arith, waits_to_come-middle ps qs h w)

jobs_to_come-middle :
    (bs cs : List Job) (j : Job)
    → jobs_to_come (bs ++ j ∷ cs) ≡ job_to_come j + jobs_to_come (bs ++ cs)
jobs_to_come-middle [] cs j = refl
jobs_to_come-middle (b ∷ bs) cs j = omega (arith, jobs_to_come-middle bs cs j)

waits_to_come-spawn_waits : (hs : List ℕ) → waits_to_come (spawn_waits hs) ≡ 3 * length hs
waits_to_come-spawn_waits [] = refl
waits_to_come-spawn_waits (h ∷ hs) = omega (arith, waits_to_come-spawn_waits hs)

length-keep_if_le :
    (h : ℕ) (js : List ℕ) → length (keep_if (λ j. not (is_yes (ℕ_discrete h j))) js) ≤ length js
length-keep_if_le h [] = omega arith
length-keep_if_le h (j ∷ js) = ground (arith, length-keep_if_le h js)

length-keep_if_lt :
    (h : ℕ) (js : List ℕ)
    → has js h ≡ true
    → length (keep_if (λ j. not (is_yes (ℕ_discrete h j))) js) < length js
length-keep_if_lt h [] e = absurd (ground arith)
length-keep_if_lt h (j ∷ js) e = ground (arith, length-keep_if_le h js, length-keep_if_lt h js)

module _ (O : Os) where
  -- A bound on the steps left: those of the waits, and the ends of the tasks that run.
  abbrev pub steps_left : Stopping O → ℕ
  steps_left s = jobs_to_come s.jobs + length (s.rt).running

  Waits-fewer :
      {rt rt' : Rt O} {ids ids' : List ℕ} {hs hs' : List (ℕ × Wait)}
      → Waits O rt ids hs rt' ids' hs'
      → (waits_to_come hs' < waits_to_come hs) × (rt'.running ≡ rt.running)
  Waits-fewer (resolved ps qs h e idle q r q') = (
    omega (
      arith,
      ap waits_to_come e,
      ap waits_to_come q',
      waits_to_come-middle ps qs h in_grace,
      waits_to_come-middle ps qs h over,
    ),
    ap (λ (x : Rt O). x.running) q,
  )
  Waits-fewer (grace_passed ps qs h e busy q r q') = (
    omega (
      arith,
      ap waits_to_come e,
      ap waits_to_come q',
      waits_to_come-middle ps qs h in_grace,
      waits_to_come-middle ps qs h after_abort,
    ),
    ap (λ (x : Rt O). x.running) q,
  )
  Waits-fewer (aborted ps qs h e idle q r q') = (
    omega (
      arith,
      ap waits_to_come e,
      ap waits_to_come q',
      waits_to_come-middle ps qs h after_abort,
      waits_to_come-middle ps qs h over,
    ),
    ap (λ (x : Rt O). x.running) q,
  )
  Waits-fewer (joined ps qs h e q r q') = (
    omega (arith, ap waits_to_come e, ap waits_to_come q', waits_to_come-middle ps qs h over),
    ap (λ (x : Rt O). x.running) q,
  )

  Step-fewer : {s t : Stopping O} → Step O s t → steps_left t < steps_left s
  unfolding send_stop ended
  Step-fewer {s} (begins bs cs a e q) =
      subst (λ (x : Stopping O). steps_left x < steps_left s) (sym q)
        (omega (
          arith,
          ap jobs_to_come e,
          jobs_to_come-middle bs cs (unsent a),
          jobs_to_come-middle bs cs (waiting (spawn_waits a.handles)),
          waits_to_come-spawn_waits a.handles,
        ))
  Step-fewer {s} (waits bs cs hs hs' rt' ids' e w q) =
      let (fewer, same) = Waits-fewer w in
      subst (λ (x : Stopping O). steps_left x < steps_left s) (sym q)
        (omega (
          arith,
          ap jobs_to_come e,
          jobs_to_come-middle bs cs (waiting hs),
          jobs_to_come-middle bs cs (waiting hs'),
          fewer,
          ap (λ (x : List ℕ). length x) same,
        ))
  Step-fewer {s} (returns bs cs e q) =
      subst (λ (x : Stopping O). steps_left x < steps_left s) (sym q)
        (omega (arith, ap jobs_to_come e, jobs_to_come-middle bs cs (waiting [])))
  Step-fewer {s} (task_ends id busy q) =
      subst (λ (x : Stopping O). steps_left x < steps_left s) (sym q)
        (omega (arith, length-keep_if_lt id (s.rt).running busy))
  Step-fewer {s} (cancelled id busy told q) =
      subst (λ (x : Stopping O). steps_left x < steps_left s) (sym q)
        (omega (arith, length-keep_if_lt id (s.rt).running busy))

  Steps-bounded : (n : ℕ) (s t : Stopping O) → Steps O n s t → n + steps_left t ≤ steps_left s
  Steps-bounded n s t none_taken = omega arith
  Steps-bounded n s t (then_step a r) = omega (arith, Step-fewer a, Steps-bounded _ _ t r)

  -- A step that does not rest on a task that ends by itself.
  abbrev pub HasDriven : Stopping O → Type 0
  HasDriven s = (t : Stopping O) × (a : Step O s t) × IsDriven a

  wait_progress :
      (s : Stopping O) (h : ℕ) (w : Wait) (hs : List (ℕ × Wait)) (js : List Job)
      → IsAborted O s
      → s.jobs ≡ waiting ((h, w) ∷ hs) ∷ js
      → HasDriven s
  wait_progress s h in_grace hs js v e = elim (Bool-cases (runs O s.rt h)) [
    | inl busy ↦ (
      _,
      waits [] js ((h, in_grace) ∷ hs) _ _ _ e (grace_passed [] hs h refl busy refl refl refl) refl,
      tt,
    )
    | inr idle ↦ (
      _,
      waits [] js ((h, in_grace) ∷ hs) _ _ _ e (resolved [] hs h refl idle refl refl refl) refl,
      tt,
    )
  ]
  wait_progress s h after_abort hs js v e = elim (Bool-cases (runs O s.rt h)) [
    | inl busy ↦ (_, cancelled h busy (first-IsAborted O s h hs js v e) refl, tt)
    | inr idle ↦ (
      _,
      waits [] js ((h, after_abort) ∷ hs) _ _ _ e (aborted [] hs h refl idle refl refl refl) refl,
      tt,
    )
  ]
  wait_progress s h over hs js v e =
      (_, waits [] js ((h, over) ∷ hs) _ _ _ e (joined [] hs h refl refl refl refl) refl, tt)

  progress :
      (s : Stopping O) (js : List Job) → IsAborted O s → s.jobs ≡ js → (js ≡ []) ⊎ HasDriven s
  progress s [] v e = inl refl
  progress s (unsent a ∷ js) v e = inr (_, begins [] js a e refl, tt)
  progress s (waiting [] ∷ js) v e = inr (_, returns [] js e refl, tt)
  progress s (waiting ((h, w) ∷ hs) ∷ js) v e = inr (wait_progress s h w hs js v e)

  -- The number of steps of the tasks that `stop_all` spawns for some tunnels, together with the
  -- ends of tasks, is bounded by a measure of the start. After any number of steps all of them
  -- have been joined, or there is a further step that needs no task to end by itself: one of the
  -- program, or the end of a task that the program has aborted. So tasks that never heed the stop
  -- do not keep `stop_all` from its end.
  pub stopping_terminates :
      (es : Active) (rt : Rt O) (n : ℕ) (t : Stopping O)
      → Steps O n (stopping O es rt) t
      → (n + steps_left t ≤ steps_left (stopping O es rt)) × ((t.jobs ≡ []) ⊎ HasDriven t)
  stopping_terminates es rt n t r =
      (Steps-bounded n _ t r, progress t t.jobs (stopping-IsAborted O es rt n t r) refl)
