-- ===== src/Production/Execution/Stranded.antt =====
-- What happens to a task when the workflow engine throws after its session was completed.
use geeta_backend.Common.{
  ℕ, false, not, none, List, [], ◌∷◌, find_first, update_first, ◌≡◌, refl, sym, ap, ◌∙◌, inl, inr,
  Bool-cases, arith,
}
use geeta_backend.Common.Result.{
  Result, ApiError, err, ok, conflict, >>=-eq-ok, throw_if_passes, throw_if-eq-ok, or_throw, ◌>>=◌,
}
use geeta_backend.Workflow.TaskStatus.{TaskStatus, ◌===◌, is_task_terminal}
use geeta_backend.Production.Execution.{
  Session, Execution, Caller, Request, perform, committed, is_active, complete_session,
  close_completed, load_active_execution, completion_checks, flag_checks, complete_task,
  flag_for_correction, start_task, pause_task, resume_task, hold_task, release_hold,
  task_status_for_session_start, is_quality_check, assert_can_execute_task,
}
use geeta_backend.Production.Execution.Timed.{IsExecution, OneActive, no_active, none_found}
use geeta_backend.Production.Execution.Kept.{load_active_execution-found, complete_session-ends}

-- IN_PROGRESS without an active session.
pub record IsStranded (e : Execution) : Type 0 where
  pub status : e.status ≡ TaskStatus.in_progress
  pub none_active : find_first is_active e.sessions ≡ none

-- The request threw and wrote nothing.
pub record IsRefused (e : Execution) (answer : Result (Unit {0}) × Execution) : Type 0 where
  pub error : ApiError
  pub threw : answer.0 ≡ err error
  pub kept : answer.1 ≡ e

-- A result that cannot be a success is an error.
never_ok : {A : Type 0} (r : Result A) → ((a : A) → r ≡ ok a → ⊥) → (x : ApiError) × (r ≡ err x)
never_ok (err x) h = (x, refl)
never_ok (ok a) h = absurd (h a refl)

committed-IsRefused :
    (r : Result Execution) (e : Execution)
    → ((a : Execution) → r ≡ ok a → ⊥)
    → IsRefused e (committed r e)
committed-IsRefused r e h =
    let (x, eq) = never_ok r h in rw eq record { error = x; threw = refl; kept = refl }

not_loaded :
    (c : Caller) (e : Execution)
    → IsStranded e
    → (s : Session) → load_active_execution c e ≡ ok s
    → ⊥
not_loaded c e h s l = cc (sym h.none_active ∙ load_active_execution-found c e s l)

-- A handler that loads the active session first.
after_load :
    {A : Type 0} (c : Caller) (e : Execution)
    → IsStranded e
    → (next : Session → Result A) (a : A) → load_active_execution c e >>= next ≡ ok a
    → ⊥
after_load c e h next a eq =
    let (s, l, _) = >>=-eq-ok (load_active_execution c e) next eq in not_loaded c e h s l

not_started :
    (c : Caller) (now : ℕ) (e : Execution)
    → IsStranded e
    → (a : Execution) → start_task c now e ≡ ok a
    → ⊥
unfolding start_task
not_started c now e h a eq =
    let (_, r) = throw_if_passes (is_quality_check e.step_type) conflict _ eq in
    let (_, r2) = throw_if_passes (is_task_terminal e.status) conflict _ r in
    let (o, _, r3) = >>=-eq-ok (or_throw e.operator conflict) _ r2 in
    let (_, _, r4) = >>=-eq-ok (assert_can_execute_task o c) _ r3 in
    let (target, t, _) =
      >>=-eq-ok (task_status_for_session_start e.status) _ (rw h.none_active at r4) in
    cc (ap task_status_for_session_start (sym h.status) ∙ t)

-- A stranded task refuses each of these requests.
perform-IsRefused :
    (r : Request) (c : Caller) (now : ℕ) (e : Execution)
    → IsStranded e
    → IsRefused e (perform r c now e)
unfolding pause_task resume_task hold_task release_hold complete_task flag_for_correction
    completion_checks flag_checks
perform-IsRefused Request.start c now e h = committed-IsRefused _ e (not_started c now e h)
perform-IsRefused Request.pause c now e h = committed-IsRefused _ e (after_load c e h _)
perform-IsRefused Request.resume c now e h = committed-IsRefused _ e (after_load c e h _)
perform-IsRefused Request.release c now e h = committed-IsRefused _ e (after_load c e h _)
perform-IsRefused (Request.hold reason) c now e h = committed-IsRefused _ e (after_load c e h _)
perform-IsRefused (Request.complete engine) c now e h =
    let (x, eq) = never_ok (completion_checks c e) (after_load c e h _) in
    rw (complete_task, eq) record { error = x; threw = refl; kept = refl }
perform-IsRefused (Request.flag engine) c now e h =
    let (x, eq) = never_ok (flag_checks c e) (after_load c e h _) in
    rw (flag_for_correction, eq) record { error = x; threw = refl; kept = refl }

is_in_progress :
    (s : TaskStatus) → not (s === TaskStatus.in_progress) ≡ false → s ≡ TaskStatus.in_progress
is_in_progress s h = ground arith

completion_checks-in_progress :
    (c : Caller) (e : Execution) → completion_checks c e ≡ ok tt → e.status ≡ TaskStatus.in_progress
unfolding completion_checks
completion_checks-in_progress c e h =
    let (_, _, r) = >>=-eq-ok (load_active_execution c e) _ h in
    is_in_progress e.status (throw_if-eq-ok (not (e.status === TaskStatus.in_progress)) conflict r)

none_left :
    (now : ℕ) (xs : List Session)
    → OneActive xs
    → find_first is_active (update_first is_active (complete_session now) xs) ≡ none
none_left now [] o = refl
none_left now (x ∷ xs) o = elim (Bool-cases (is_active x)) [
  | inl a ↦ rw (a, complete_session-ends now x) (none_found xs o)
  | inr a ↦ rw (a, no_active (complete_session now) xs o) (rw (a, none_found xs o))
]

-- `completeTask` of a task that it could complete leaves it stranded when the engine throws.
complete-IsStranded :
    (c : Caller) (now : ℕ) (e : Execution) (x : ApiError)
    → IsExecution e
    → completion_checks c e ≡ ok tt
    → IsStranded (perform (Request.complete (err x)) c now e).1
unfolding complete_task close_completed
complete-IsStranded c now e x h checks =
    rw (complete_task, checks)
      record {
        status = completion_checks-in_progress c e checks;
        none_active = none_left now e.sessions h.one_active;
      }

-- When `completeTask` has passed its checks and the workflow engine then throws, the task is left
-- IN_PROGRESS with its session completed, and a later request to start, pause, resume, hold, release,
-- complete or flag it, of whomever, at any time, throws and changes nothing. The sessions were in
-- order before.
pub complete-IsRefused :
    (c : Caller) (now : ℕ) (e : Execution) (x : ApiError) (r : Request) (c' : Caller) (later : ℕ)
    → IsExecution e
    → completion_checks c e ≡ ok tt
    → let left = (perform (Request.complete (err x)) c now e).1 in
      IsStranded left × IsRefused left (perform r c' later left)
complete-IsRefused c now e x r c' later h checks =
    let s = complete-IsStranded c now e x h checks in (s, perform-IsRefused r c' later _ s)
