-- ===== src/Runtime/Stopping/Aborts.antt =====
-- `wait_for_task_shutdown` of src/runtime.rs awaits a handle after the grace period only once it has
-- aborted the task. Which steps of a shutdown need no task to end by itself.
use vorto.Prelude.{
  ℕ, ◌≡◌, refl, sym, ap, subst, ◌∙◌, Bool, true, false, ◌&&◌, ◌||◌, List, [], ◌∷◌, ◌++◌, arith,
  ℕ_discrete, is_yes,
}
use vorto.Runtime.System.{Os, Rt}
use vorto.Runtime.Tasks.{has}
use vorto.Runtime.Manager.{Active}
use vorto.Runtime.Stopping.{
  Wait, in_grace, after_abort, over, Job, unsent, waiting, Stopping, spawn_waits, spawn_jobs, Waits,
  resolved, grace_passed, aborted, joined, Step, begins, waits, returns, task_ends, cancelled,
  Steps, none_taken, then_step, stopping,
}

-- The step does not rest on a task that ends by itself: it is one of the program, or the end of a
-- task that the program has aborted.
abbrev pub IsDriven : {O : Os} {s t : Stopping O} → Step O s t → Type 0
IsDriven (begins bs cs a e q) = Unit
IsDriven (waits bs cs hs hs' rt' ids' e w q) = Unit
IsDriven (returns bs cs e q) = Unit
IsDriven (task_ends id busy q) = ⊥
IsDriven (cancelled id busy told q) = Unit

abbrev is_after_abort : Wait → Bool
is_after_abort in_grace = false
is_after_abort after_abort = true
is_after_abort over = false

-- A call of `wait_for_task_shutdown` awaits the task after the abort.
abbrev among_waits : List (ℕ × Wait) → ℕ → Bool
among_waits [] id = false
among_waits ((h, w) ∷ hs) id = (is_after_abort w && is_yes (ℕ_discrete id h)) || among_waits hs id

abbrev in_job : Job → ℕ → Bool
in_job (unsent a) id = false
in_job (waiting hs) id = among_waits hs id

abbrev among_jobs : List Job → ℕ → Bool
among_jobs [] id = false
among_jobs (j ∷ js) id = in_job j id || among_jobs js id

among_waits-append :
    (ps qs : List (ℕ × Wait)) (id : ℕ)
    → among_waits (ps ++ qs) id ≡ (among_waits ps id || among_waits qs id)
among_waits-append [] qs id = refl
among_waits-append (p ∷ ps) qs id = ground (arith, among_waits-append ps qs id)

among_jobs-append :
    (bs cs : List Job) (id : ℕ) → among_jobs (bs ++ cs) id ≡ (among_jobs bs id || among_jobs cs id)
among_jobs-append [] cs id = refl
among_jobs-append (b ∷ bs) cs id = ground (arith, among_jobs-append bs cs id)

among_waits-spawn_waits : (hs : List ℕ) (id : ℕ) → among_waits (spawn_waits hs) id ≡ false
among_waits-spawn_waits [] id = refl
among_waits-spawn_waits (h ∷ hs) id = among_waits-spawn_waits hs id

among_jobs-spawn_jobs : (es : Active) (id : ℕ) → among_jobs (spawn_jobs es) id ≡ false
among_jobs-spawn_jobs [] id = refl
among_jobs-spawn_jobs (e ∷ es) id = among_jobs-spawn_jobs es id

module _ (O : Os) where
  -- Every task that is awaited after its abort was aborted.
  abbrev pub IsAborted : Stopping O → Type 0
  IsAborted s = (id : ℕ) → among_jobs s.jobs id ≡ true → has s.aborts id ≡ true

  record Aborts (ids : List ℕ) (hs : List (ℕ × Wait)) (ids' : List ℕ) (hs' : List (ℕ × Wait))
      : Type 0 where
    kept : (id : ℕ) → has ids id ≡ true → has ids' id ≡ true
    known : (id : ℕ) → among_waits hs' id ≡ true → (among_waits hs id || has ids' id) ≡ true

  Waits-Aborts :
      {rt rt' : Rt O} {ids ids' : List ℕ} {hs hs' : List (ℕ × Wait)}
      → Waits O rt ids hs rt' ids' hs'
      → Aborts ids hs ids' hs'
  Waits-Aborts (resolved ps qs h e idle q r q') = record {
    kept = λ id k. ground (arith, k, ap (λ x. has x id) r);
    known = λ id k. ground (
      arith,
      ap (λ x. among_waits x id) e,
      ap (λ x. among_waits x id) q',
      among_waits-append ps ((h, in_grace) ∷ qs) id,
      among_waits-append ps ((h, over) ∷ qs) id,
    );
  }
  Waits-Aborts (grace_passed ps qs h e busy q r q') = record {
    kept = λ id k. ground (arith, k, ap (λ x. has x id) r);
    known = λ id k. ground (
      arith,
      ap (λ x. among_waits x id) e,
      ap (λ x. among_waits x id) q',
      ap (λ x. has x id) r,
      among_waits-append ps ((h, in_grace) ∷ qs) id,
      among_waits-append ps ((h, after_abort) ∷ qs) id,
    );
  }
  Waits-Aborts (aborted ps qs h e idle q r q') = record {
    kept = λ id k. ground (arith, k, ap (λ x. has x id) r);
    known = λ id k. ground (
      arith,
      ap (λ x. among_waits x id) e,
      ap (λ x. among_waits x id) q',
      among_waits-append ps ((h, after_abort) ∷ qs) id,
      among_waits-append ps ((h, over) ∷ qs) id,
    );
  }
  Waits-Aborts (joined ps qs h e q r q') = record {
    kept = λ id k. ground (arith, k, ap (λ x. has x id) r);
    known = λ id k. ground (
      arith,
      ap (λ x. among_waits x id) e,
      ap (λ x. among_waits x id) q',
      among_waits-append ps ((h, over) ∷ qs) id,
      among_waits-append ps qs id,
    );
  }

  Step-IsAborted : {s t : Stopping O} → IsAborted s → Step O s t → IsAborted t
  Step-IsAborted {s} v (begins bs cs a e q) = subst IsAborted (sym q) (λ id k. ground (
    arith,
    v id,
    ap (λ x. among_jobs x id) e,
    among_jobs-append bs (unsent a ∷ cs) id,
    among_jobs-append bs (waiting (spawn_waits a.handles) ∷ cs) id,
    among_waits-spawn_waits a.handles id,
  ))
  Step-IsAborted {s} v (waits bs cs hs hs' rt' ids' e w q) =
      let a = Waits-Aborts w in
      subst IsAborted (sym q) (λ id k. ground (
        arith,
        v id,
        ap (λ x. among_jobs x id) e,
        among_jobs-append bs (waiting hs ∷ cs) id,
        among_jobs-append bs (waiting hs' ∷ cs) id,
        a.kept id,
        a.known id,
      ))
  Step-IsAborted {s} v (returns bs cs e q) = subst IsAborted (sym q) (λ id k. ground (
    arith,
    v id,
    ap (λ x. among_jobs x id) e,
    among_jobs-append bs (waiting [] ∷ cs) id,
    among_jobs-append bs cs id,
  ))
  Step-IsAborted v (task_ends id busy q) = subst IsAborted (sym q) v
  Step-IsAborted v (cancelled id busy told q) = subst IsAborted (sym q) v

  Steps-IsAborted : {n : ℕ} {s t : Stopping O} → IsAborted s → Steps O n s t → IsAborted t
  Steps-IsAborted v none_taken = v
  Steps-IsAborted v (then_step a r) = Steps-IsAborted (Step-IsAborted v a) r

  pub stopping-IsAborted :
      (es : Active) (rt : Rt O) (n : ℕ) (t : Stopping O)
      → Steps O n (stopping O es rt) t
      → IsAborted t
  stopping-IsAborted es rt n t r =
      Steps-IsAborted (λ id h. absurd (ground (arith, among_jobs-spawn_jobs es id))) r

  -- The task that the first wait awaits after the abort was aborted.
  pub first-IsAborted :
      (s : Stopping O) (h : ℕ) (hs : List (ℕ × Wait)) (js : List Job)
      → IsAborted s
      → s.jobs ≡ waiting ((h, after_abort) ∷ hs) ∷ js
      → has s.aborts h ≡ true
  first-IsAborted s h hs js v e = v h (ap (λ x. among_jobs x h) e ∙ ground arith)
