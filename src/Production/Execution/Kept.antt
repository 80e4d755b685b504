-- ===== src/Production/Execution/Kept.antt =====
-- Every request of the service keeps the sessions of a task in order.
use geeta_backend.Common.{
  ℕ, true, false, not, ◌||◌, none, some, List, [], ◌∷◌, All, find_first, ◌==◌, ◌≡◌, refl, ap, ◌∙◌,
  inl, inr, Bool-cases, Option-cases, arith,
}
use mathlib.Core.Path.{subst}
use geeta_backend.Common.Result.{
  Result, err, ok, conflict, ok_eq, >>=-eq-ok, throw_if_passes, or_throw-eq-ok, or_throw,
  Result-cases,
}
use geeta_backend.Workflow.TaskStatus.{TaskStatus, ◌===◌, is_task_terminal, assert_task_transition}
use geeta_backend.Workflow.Store.{SessionStatus}
use geeta_backend.Production.Execution.{
  start_task, pause_task, resume_task, hold_task, release_hold, complete_task, flag_for_correction,
  perform, Request, committed, then_engine, paused_session, resumed_session, held_session,
  released_session, is_open_hold, close_completed, completion_checks, flag_checks,
  task_status_for_session_start, IntervalType, Session, Execution, Caller, session_code,
  close_active_interval, switch_session, complete_session, is_active, load_active_execution,
  update_active, new_session, is_quality_check, assert_can_execute_task, assert_session_transition,
}
use geeta_backend.Production.Execution.Timed.{
  status_of, IsRunning, IsTimed, IsInactive, IsExecution, IsBefore, IsClosed, switched-IsExecution,
  completed-IsExecution,
}

-- The active session that `loadActiveExecution` answers.
pub load_active_execution-found :
    (c : Caller) (e : Execution) (s : Session)
    → load_active_execution c e ≡ ok s
    → find_first is_active e.sessions ≡ some s
unfolding load_active_execution
load_active_execution-found c e s h =
    let (_, r) = throw_if_passes (is_quality_check e.step_type) conflict _ h in
    let (o, _, r2) = >>=-eq-ok (or_throw e.operator conflict) _ r in
    let (_, _, r3) = >>=-eq-ok (assert_can_execute_task o c) _ r2 in or_throw-eq-ok _ _ r3

-- What holds before a handler that throws, and after one that commits, holds after it.
committed-cases :
    (P : Execution → Type 0) (r : Result Execution) (e : Execution)
    → P e
    → ((after : Execution) → r ≡ ok after → P after)
    → P (committed r e).1
committed-cases P (err thrown) e p f = p
committed-cases P (ok after) e p f = f after refl

new_session-IsRunning :
    (operator now : ℕ) → IsRunning IntervalType.working (new_session operator now)
new_session-IsRunning operator now = record {
  since = now;
  closed = [];
  intervals = refl;
  active_started_at = refl;
  active_type = refl;
  covers = refl;
  adds_up = record { working = refl; paused = refl; hold = refl };
}

find_first-IsInactive : (xs : List Session) → find_first is_active xs ≡ none → All IsInactive xs
find_first-IsInactive [] h = tt
find_first-IsInactive (x ∷ xs) h = elim (Bool-cases (is_active x)) [
  | inl a ↦ cc (rw a at h)
  | inr a ↦ (a, find_first-IsInactive xs (rw a at h))
]

session_start-in_progress :
    (s target : TaskStatus)
    → task_status_for_session_start s ≡ ok target
    → TaskStatus.in_progress ≡ target
session_start-in_progress s target h = ground arith

start_task-IsExecution :
    (c : Caller) (now : ℕ) (e : Execution)
    → IsExecution e
    → (after : Execution) → start_task c now e ≡ ok after
    → IsExecution after
unfolding start_task
start_task-IsExecution c now e h after eq =
    let (_, r) = throw_if_passes (is_quality_check e.step_type) conflict _ eq in
    let (_, r2) = throw_if_passes (is_task_terminal e.status) conflict _ r in
    let (o, _, r3) = >>=-eq-ok (or_throw e.operator conflict) _ r2 in
    let (_, _, r4) = >>=-eq-ok (assert_can_execute_task o c) _ r3 in
    elim (Option-cases (find_first is_active e.sessions)) [
      | inr (_, found) ↦ cc (rw found at r4)
      | inl free ↦
          let (target, t, r5) =
            >>=-eq-ok (task_status_for_session_start e.status) _ (rw free at r4) in
          let (_, _, r6) = >>=-eq-ok (assert_task_transition e.status target) _ r5 in
          subst IsExecution (ok_eq r6) record {
            timed = (new_session-IsRunning o now, h.timed);
            one_active = find_first-IsInactive e.sessions free;
            agrees = session_start-in_progress e.status target t;
          }
    ]

paused_session-IsTimed :
    (now : ℕ) (s : Session)
    → IsClosed now s (close_active_interval now s)
    → IsTimed (paused_session now s)
unfolding paused_session switch_session
paused_session-IsTimed now s h = record {
  since = now;
  closed = (close_active_interval now s).1;
  intervals = refl;
  active_started_at = refl;
  active_type = refl;
  covers = h.covers;
  adds_up = h.adds_up;
}

paused_session-status :
    (now : ℕ) (s : Session) → (paused_session now s).status ≡ SessionStatus.paused
unfolding paused_session switch_session
paused_session-status now s = refl

resumed_session-IsTimed :
    (now : ℕ) (s : Session)
    → IsClosed now s (close_active_interval now s)
    → IsTimed (resumed_session now s)
unfolding resumed_session switch_session
resumed_session-IsTimed now s h = record {
  since = now;
  closed = (close_active_interval now s).1;
  intervals = refl;
  active_started_at = refl;
  active_type = refl;
  covers = h.covers;
  adds_up = h.adds_up;
}

resumed_session-status :
    (now : ℕ) (s : Session) → (resumed_session now s).status ≡ SessionStatus.in_progress
unfolding resumed_session switch_session
resumed_session-status now s = refl

held_session-IsTimed :
    (now reason actor : ℕ) (s : Session)
    → IsClosed now s (close_active_interval now s)
    → IsTimed (held_session now reason actor s)
unfolding held_session switch_session
held_session-IsTimed now reason actor s h = record {
  since = now;
  closed = (close_active_interval now s).1;
  intervals = refl;
  active_started_at = refl;
  active_type = refl;
  covers = h.covers;
  adds_up = h.adds_up;
}

held_session-status :
    (now reason actor : ℕ) (s : Session)
    → (held_session now reason actor s).status ≡ SessionStatus.on_hold
unfolding held_session switch_session
held_session-status now reason actor s = refl

released_session-IsTimed :
    (now : ℕ) (s : Session)
    → IsClosed now s (close_active_interval now s)
    → IsTimed (released_session now s)
unfolding released_session resumed_session switch_session
released_session-IsTimed now s h = record {
  since = now;
  closed = (close_active_interval now s).1;
  intervals = refl;
  active_started_at = refl;
  active_type = refl;
  covers = h.covers;
  adds_up = h.adds_up;
}

released_session-status :
    (now : ℕ) (s : Session) → (released_session now s).status ≡ SessionStatus.in_progress
unfolding released_session resumed_session switch_session
released_session-status now s = refl

-- A handler that switches the active session and gives the task this status.
module _ (now : ℕ) (f : Session → Session) (to : SessionStatus)
    (timed : (s : Session) → IsClosed now s (close_active_interval now s) → IsTimed (f s))
    (status : (s : Session) → (f s).status ≡ to) (stays : not (session_code to == 3) ≡ true) where
  loaded-IsExecution :
      (c : Caller) (e : Execution) (s : Session)
      → IsExecution e
      → All (IsBefore now) e.sessions
      → load_active_execution c e ≡ ok s
      → IsExecution (record (update_active f e) { status = status_of to })
  loaded-IsExecution c e s h b l =
      switched-IsExecution now f timed e (status_of to) s (λ x. ap status_of (status x)) h b
        (load_active_execution-found c e s l)
        (λ x. ap (λ (k : SessionStatus). not (session_code k == 3)) (status x) ∙ stays)

pause_task-IsExecution :
    (c : Caller) (now : ℕ) (e : Execution)
    → IsExecution e
    → All (IsBefore now) e.sessions
    → (after : Execution) → pause_task c now e ≡ ok after
    → IsExecution after
unfolding pause_task
pause_task-IsExecution c now e h b after eq =
    let (s, l, r) = >>=-eq-ok (load_active_execution c e) _ eq in
    let (_, r2) = throw_if_passes (not (e.status === TaskStatus.in_progress)) conflict _ r in
    let (_, _, r3) = >>=-eq-ok (assert_session_transition s.status SessionStatus.paused) _ r2 in
    let (_, _, r4) = >>=-eq-ok (assert_task_transition e.status TaskStatus.paused) _ r3 in
    subst IsExecution (ok_eq r4) (
      loaded-IsExecution now (paused_session now) SessionStatus.paused (paused_session-IsTimed now)
        (paused_session-status now) refl c e s h b l)

resume_task-IsExecution :
    (c : Caller) (now : ℕ) (e : Execution)
    → IsExecution e
    → All (IsBefore now) e.sessions
    → (after : Execution) → resume_task c now e ≡ ok after
    → IsExecution after
unfolding resume_task
resume_task-IsExecution c now e h b after eq =
    let (s, l, r) = >>=-eq-ok (load_active_execution c e) _ eq in
    let (_, r1) =
      throw_if_passes (not (e.status === TaskStatus.paused || e.status === TaskStatus.on_hold))
        conflict _ r in
    let (_, r2) = throw_if_passes (e.status === TaskStatus.on_hold) conflict _ r1 in
    let (_, _, r3) =
      >>=-eq-ok (assert_session_transition s.status SessionStatus.in_progress) _ r2 in
    let (_, _, r4) = >>=-eq-ok (assert_task_transition e.status TaskStatus.in_progress) _ r3 in
    subst IsExecution (ok_eq r4) (
      loaded-IsExecution now (resumed_session now) SessionStatus.in_progress
        (resumed_session-IsTimed now) (resumed_session-status now) refl c e s h b l)

hold_task-IsExecution :
    (reason : ℕ) (c : Caller) (now : ℕ) (e : Execution)
    → IsExecution e
    → All (IsBefore now) e.sessions
    → (after : Execution) → hold_task reason c now e ≡ ok after
    → IsExecution after
unfolding hold_task
hold_task-IsExecution reason c now e h b after eq =
    let (s, l, r) = >>=-eq-ok (load_active_execution c e) _ eq in
    let (_, r2) = throw_if_passes (not (e.status === TaskStatus.in_progress)) conflict _ r in
    let (_, _, r3) = >>=-eq-ok (assert_session_transition s.status SessionStatus.on_hold) _ r2 in
    let (_, _, r4) = >>=-eq-ok (assert_task_transition e.status TaskStatus.on_hold) _ r3 in
    elim (Option-cases (find_first is_open_hold s.holds)) [
      | inr (_, found) ↦ cc (rw found at r4)
      | inl free ↦ subst IsExecution (ok_eq (rw free at r4)) (
          loaded-IsExecution now (held_session now reason c.actor_id) SessionStatus.on_hold
            (held_session-IsTimed now reason c.actor_id) (held_session-status now reason c.actor_id)
            refl c e s h b l)
    ]

release_hold-IsExecution :
    (c : Caller) (now : ℕ) (e : Execution)
    → IsExecution e
    → All (IsBefore now) e.sessions
    → (after : Execution) → release_hold c now e ≡ ok after
    → IsExecution after
unfolding release_hold
release_hold-IsExecution c now e h b after eq =
    let (s, l, r) = >>=-eq-ok (load_active_execution c e) _ eq in
    let (_, r1) = throw_if_passes (not (e.status === TaskStatus.on_hold)) conflict _ r in
    let (_, _, r2) = >>=-eq-ok (or_throw (find_first is_open_hold s.holds) conflict) _ r1 in
    let (_, _, r3) =
      >>=-eq-ok (assert_session_transition s.status SessionStatus.in_progress) _ r2 in
    let (_, _, r4) = >>=-eq-ok (assert_task_transition e.status TaskStatus.in_progress) _ r3 in
    subst IsExecution (ok_eq r4) (
      loaded-IsExecution now (released_session now) SessionStatus.in_progress
        (released_session-IsTimed now) (released_session-status now) refl c e s h b l)

pub complete_session-ends : (now : ℕ) (s : Session) → is_active (complete_session now s) ≡ false
unfolding complete_session
complete_session-ends now s = refl

complete_session-IsTimed :
    (now : ℕ) (s : Session)
    → IsClosed now s (close_active_interval now s)
    → IsTimed (complete_session now s)
unfolding complete_session
complete_session-IsTimed now s h = record {
  end = now;
  completed_at = refl;
  covers = h.covers;
  adds_up = h.adds_up;
  total = refl;
}

-- The session is closed, whatever the engine then does.
then_engine-IsExecution :
    (engine : Result (Unit {0})) (status : TaskStatus) (now : ℕ) (e : Execution)
    → IsExecution e
    → All (IsBefore now) e.sessions
    → IsExecution (then_engine engine status (update_active (complete_session now) e)).1
then_engine-IsExecution (ok _) status now e h b =
    completed-IsExecution now (complete_session now) (complete_session-IsTimed now) e status h b
      (complete_session-ends now)
then_engine-IsExecution (err _) status now e h b =
    completed-IsExecution now (complete_session now) (complete_session-IsTimed now) e e.status h b
      (complete_session-ends now)

close_completed-IsExecution :
    (engine : Result (Unit {0})) (c : Caller) (now : ℕ) (e : Execution)
    → IsExecution e
    → All (IsBefore now) e.sessions
    → IsExecution (then_engine engine TaskStatus.completed (close_completed c now e)).1
unfolding close_completed
close_completed-IsExecution (ok u) c now e h b =
    let k = then_engine-IsExecution (ok u) TaskStatus.completed now e h b in
    record { timed = k.timed; one_active = k.one_active; agrees = k.agrees }
close_completed-IsExecution (err x) c now e h b =
    let k = then_engine-IsExecution (err x) TaskStatus.completed now e h b in
    record { timed = k.timed; one_active = k.one_active; agrees = k.agrees }

-- Every request to start, pause, resume, hold, release, complete or flag a task,
-- whoever makes it and whether it throws or not, leaves a task with at most one active
-- session; an active session has one open interval of the type that its status says, the task
-- has the same status, every session's closed intervals follow each other without a gap, and its
-- totals are the sums of their seconds. This is given before, and the clock does not go back.
pub perform-IsExecution :
    (r : Request) (c : Caller) (now : ℕ) (e : Execution)
    → IsExecution e
    → All (IsBefore now) e.sessions
    → IsExecution (perform r c now e).1
unfolding complete_task flag_for_correction
perform-IsExecution Request.start c now e h b =
    committed-cases IsExecution _ e h (start_task-IsExecution c now e h)
perform-IsExecution Request.pause c now e h b =
    committed-cases IsExecution _ e h (pause_task-IsExecution c now e h b)
perform-IsExecution Request.resume c now e h b =
    committed-cases IsExecution _ e h (resume_task-IsExecution c now e h b)
perform-IsExecution Request.release c now e h b =
    committed-cases IsExecution _ e h (release_hold-IsExecution c now e h b)
perform-IsExecution (Request.hold reason) c now e h b =
    committed-cases IsExecution _ e h (hold_task-IsExecution reason c now e h b)
perform-IsExecution (Request.complete engine) c now e h b =
    elim (Result-cases (completion_checks c e)) [
      | inl (_, t) ↦ rw (t, complete_task) h
      | inr (_, t) ↦ rw (t, complete_task) (close_completed-IsExecution engine c now e h b)
    ]
perform-IsExecution (Request.flag engine) c now e h b = elim (Result-cases (flag_checks c e)) [
  | inl (_, t) ↦ rw (t, flag_for_correction) h
  | inr (_, t) ↦
      rw (t, flag_for_correction) (then_engine-IsExecution engine TaskStatus.blocked now e h b)
]
