-- ===== src/Production/Execution.antt =====
-- modules/production/execution: execution.service.ts, execution-state-machine.ts, time-tracking.util.ts
-- and assertCanExecuteTask of execution.access.ts, on the rows of one task; every query and update of
-- the service names the task or its session. Notes, attachments, alerts, order events and the
-- remarks of the history are not modelled.
pub mod Timed
pub mod Kept
pub mod Bounds
pub mod Stranded
use geeta_backend.Common.{
  ℕ, ◌+◌, ◌-◌, ◌/◌, Bool, true, false, not, ◌&&◌, ◌||◌, Option, none, some, List, [], ◌∷◌, ◌++◌,
  map, elem, find_first, update_first, ◌==◌, if◌then◌else◌,
}
use geeta_backend.Common.Result.{
  Result, err, ok, ApiError, bad_request, forbidden, conflict, throw_if, or_throw, ◌>>=◌, ◌>>◌,
}
use geeta_backend.Workflow.TaskStatus
use geeta_backend.Workflow.TaskStatus.{TaskStatus, ◌===◌, is_task_terminal, assert_task_transition}
use geeta_backend.Workflow.Store
use geeta_backend.Workflow.Store.{StepType, SessionStatus}

-- enum WorkflowTaskExecutionIntervalType
pub data IntervalType : Type 0 where
  working paused hold : IntervalType

abbrev pub interval_code : IntervalType → ℕ
interval_code IntervalType.working = 0
interval_code IntervalType.paused = 1
interval_code IntervalType.hold = 2

-- Instants are milliseconds.
pub record Interval : Type 0 where
  pub type : IntervalType
  pub started_at : ℕ
  pub ended_at : Option ℕ
  pub duration_seconds : Option ℕ

pub record Hold : Type 0 where
  pub reason : ℕ
  pub created_by : ℕ
  pub released_at : Option ℕ

-- type SessionTotals
pub record SessionTotals : Type 0 where
  pub working : ℕ
  pub paused : ℕ
  pub hold : ℕ

-- A row of WorkflowTaskExecutionSession with its intervals and holds, newest first.
pub record Session : Type 0 where
  pub operator_id : ℕ
  pub status : SessionStatus
  pub started_at : ℕ
  pub paused_at : Option ℕ
  pub resumed_at : Option ℕ
  pub completed_at : Option ℕ
  pub totals : SessionTotals
  pub total_duration : ℕ
  pub active_started_at : Option ℕ
  pub active_type : Option IntervalType
  pub intervals : List Interval
  pub holds : List Hold

-- The members of enum WorkflowHistoryAction that this service writes.
pub data HistoryAction : Type 0 where
  started paused resumed on_hold : HistoryAction

pub record TaskHistory : Type 0 where
  pub action : HistoryAction
  pub performed_by : ℕ

-- enum ArtworkApprovalStatus
pub data ApprovalStatus : Type 0 where
  pending approved rejected revision_requested : ApprovalStatus

pub record Artwork : Type 0 where
  pub approval_status : ApprovalStatus
  pub approved_by : Option ℕ
  pub approved_at : Option ℕ

-- The rows of a task: the operator is that of its ACTIVE assignment, sessions are newest first,
-- the artworks are those of the order item.
pub record Execution : Type 0 where
  pub step_type : StepType
  pub artwork_step_code : Bool  -- the step code contains ARTWORK
  pub status : TaskStatus
  pub started_at : Option ℕ
  pub operator : Option ℕ
  pub sessions : List Session
  pub history : List TaskHistory
  pub artworks : List Artwork

-- Who calls: the id, and what `execution.access.ts` finds out from role and permissions.
pub record Caller : Type 0 where
  pub actor_id : ℕ
  pub is_manager : Bool
  pub can_execute : Bool
  pub can_view_all : Bool

-- `assertCanExecuteTask`
unfoldable pub assert_can_execute_task : ℕ → Caller → Result (Unit {0})
assert_can_execute_task operator c =
    throw_if (not (operator == c.actor_id && c.can_execute || (c.is_manager || c.can_view_all)))
      forbidden

abbrev pub session_code : SessionStatus → ℕ
session_code SessionStatus.in_progress = 0
session_code SessionStatus.paused = 1
session_code SessionStatus.on_hold = 2
session_code SessionStatus.completed = 3

-- SESSION_TRANSITIONS
unfoldable pub session_transitions : SessionStatus → List SessionStatus
session_transitions SessionStatus.in_progress =
    SessionStatus.paused ∷ SessionStatus.on_hold ∷ SessionStatus.completed ∷ []
session_transitions SessionStatus.paused = SessionStatus.in_progress ∷ []
session_transitions SessionStatus.on_hold = SessionStatus.in_progress ∷ []
session_transitions SessionStatus.completed = []

-- `assertSessionTransition`
unfoldable pub assert_session_transition : SessionStatus → SessionStatus → Result (Unit {0})
unfolding session_transitions
assert_session_transition from to =
    if session_code from == session_code to
    then ok tt
    else throw_if (not (elem (session_code to) (map session_code (session_transitions from))))
        conflict

-- `durationSeconds`
abbrev pub duration_seconds : ℕ → ℕ → ℕ
duration_seconds start end = (end - start) / 1000

-- `accumulateDuration`
unfoldable pub accumulate_duration : IntervalType → ℕ → SessionTotals → SessionTotals
accumulate_duration IntervalType.working seconds t = record t { working = t.working + seconds }
accumulate_duration IntervalType.paused seconds t = record t { paused = t.paused + seconds }
accumulate_duration IntervalType.hold seconds t = record t { hold = t.hold + seconds }

-- `computeTotalDuration`
abbrev pub compute_total_duration : SessionTotals → ℕ
compute_total_duration t = t.working + t.paused + t.hold

-- The `updateMany` of `closeActiveInterval`: the open intervals of the type.
abbrev pub close_interval : IntervalType → ℕ → ℕ → Interval → Interval
close_interval type now seconds i = elim i.ended_at [
  | some _ ↦ i
  | none ↦
      if interval_code i.type == interval_code type
      then record i { ended_at = some now; duration_seconds = some seconds }
      else i
]

-- `closeActiveInterval`: the session's totals, and its intervals as they are then. Its update is
-- committed before the transaction of the caller.
unfoldable pub close_active_interval : ℕ → Session → SessionTotals × List Interval
close_active_interval now s = elim s.active_started_at [
  | none ↦ (s.totals, s.intervals)
  | some start ↦ elim s.active_type [
    | none ↦ (s.totals, s.intervals)
    | some type ↦
        let seconds = duration_seconds start now in
        (
          accumulate_duration type seconds s.totals,
          map (close_interval type now seconds) s.intervals,
        )
  ]
]

abbrev pub open_interval : IntervalType → ℕ → Interval
open_interval type now = record {
  type = type;
  started_at = now;
  ended_at = none;
  duration_seconds = none;
}

-- The part that the transactions of `pauseTask`, `resumeTask`, `holdTask` and `releaseHold` share: the
-- session's update and the new interval.
unfoldable pub switch_session : ℕ → SessionStatus → IntervalType → Session → Session
switch_session now status type s =
    let closed = close_active_interval now s in
    record s {
      status = status;
      totals = closed.0;
      active_started_at = some now;
      active_type = some type;
      intervals = open_interval type now ∷ closed.1;
    }

-- The session's update in `completeTask` and `flagForCorrection`.
unfoldable pub complete_session : ℕ → Session → Session
complete_session now s =
    let closed = close_active_interval now s in
    record s {
      status = SessionStatus.completed;
      completed_at = some now;
      totals = closed.0;
      total_duration = compute_total_duration closed.0;
      active_started_at = none;
      active_type = none;
      intervals = closed.1;
    }

abbrev pub is_active : Session → Bool
is_active s = not (session_code s.status == 3)

-- `assertNotQcExecutionTask`
abbrev pub is_quality_check : StepType → Bool
is_quality_check StepType.quality_check = true
is_quality_check _ = false

abbrev pub is_verification : StepType → Bool
is_verification StepType.verification = true
is_verification _ = false

-- `loadActiveExecution`, for a task that exists.
unfoldable pub load_active_execution : Caller → Execution → Result Session
load_active_execution c e = throw_if (is_quality_check e.step_type) conflict >>= λ _.
    or_throw e.operator conflict >>= λ operator.
    assert_can_execute_task operator c >>= λ _. or_throw (find_first is_active e.sessions) conflict

-- The session that was loaded is updated by its id: it is the first active row.
abbrev pub update_active : (Session → Session) → Execution → Execution
update_active f e = record e { sessions = update_first is_active f e.sessions }

-- `workflowTaskHistory.create`
abbrev pub note : HistoryAction → Caller → Execution → List TaskHistory
note action c e = e.history ++ record { action = action; performed_by = c.actor_id } ∷ []

-- `taskStatusForSessionStart`
abbrev pub task_status_for_session_start : TaskStatus → Result TaskStatus
task_status_for_session_start TaskStatus.assigned = ok TaskStatus.in_progress
task_status_for_session_start TaskStatus.ready = ok TaskStatus.in_progress
task_status_for_session_start _ = err conflict

abbrev pub new_session : ℕ → ℕ → Session
new_session operator now = record {
  operator_id = operator;
  status = SessionStatus.in_progress;
  started_at = now;
  paused_at = none;
  resumed_at = none;
  completed_at = none;
  totals = record { working = 0; paused = 0; hold = 0 };
  total_duration = 0;
  active_started_at = some now;
  active_type = some IntervalType.working;
  intervals = open_interval IntervalType.working now ∷ [];
  holds = [];
}

-- `startTask`
unfoldable pub start_task : Caller → ℕ → Execution → Result Execution
start_task c now e = throw_if (is_quality_check e.step_type) conflict >>= λ _.
    throw_if (is_task_terminal e.status) conflict >>= λ _.
    or_throw e.operator conflict >>= λ operator. assert_can_execute_task operator c >>= λ _.
    elim (find_first is_active e.sessions) [
      | some _ ↦ err conflict
      | none ↦ task_status_for_session_start e.status >>= λ target.
          assert_task_transition e.status target >>= λ _. ok record e {
            status = target;
            started_at = elim e.started_at [ none ↦ some now | some t ↦ some t ];
            sessions = new_session operator now ∷ e.sessions;
            history = note HistoryAction.started c e;
          }
    ]

-- The session's update in `pauseTask`.
unfoldable pub paused_session : ℕ → Session → Session
paused_session now s = record (switch_session now SessionStatus.paused IntervalType.paused s) {
  paused_at = some now;
}

-- `pauseTask`
unfoldable pub pause_task : Caller → ℕ → Execution → Result Execution
pause_task c now e = load_active_execution c e >>= λ session.
    throw_if (not (e.status === TaskStatus.in_progress)) conflict >>= λ _.
    assert_session_transition session.status SessionStatus.paused >>= λ _.
    assert_task_transition e.status TaskStatus.paused >>= λ _.
    ok (record (update_active (paused_session now) e) {
      status = TaskStatus.paused;
      history = note HistoryAction.paused c e;
    })

-- The session's update in `resumeTask`.
unfoldable pub resumed_session : ℕ → Session → Session
resumed_session now s =
    record (switch_session now SessionStatus.in_progress IntervalType.working s) {
      resumed_at = some now;
    }

-- `resumeTask`
unfoldable pub resume_task : Caller → ℕ → Execution → Result Execution
resume_task c now e = load_active_execution c e >>= λ session.
    throw_if (not (e.status === TaskStatus.paused || e.status === TaskStatus.on_hold)) conflict
    >>= λ _. throw_if (e.status === TaskStatus.on_hold) conflict >>= λ _.
        assert_session_transition session.status SessionStatus.in_progress >>= λ _.
        assert_task_transition e.status TaskStatus.in_progress >>= λ _.
        ok (record (update_active (resumed_session now) e) {
          status = TaskStatus.in_progress;
          history = note HistoryAction.resumed c e;
        })

abbrev pub is_open_hold : Hold → Bool
is_open_hold h = elim h.released_at [ none ↦ true | some _ ↦ false ]

-- The session's update and the new hold in `holdTask`.
unfoldable pub held_session : ℕ → ℕ → ℕ → Session → Session
held_session now reason actor s =
    record (switch_session now SessionStatus.on_hold IntervalType.hold s) {
      holds = record { reason = reason; created_by = actor; released_at = none } ∷ s.holds;
    }

-- `holdTask`
unfoldable pub hold_task : ℕ → Caller → ℕ → Execution → Result Execution
hold_task reason c now e = load_active_execution c e >>= λ session.
    throw_if (not (e.status === TaskStatus.in_progress)) conflict >>= λ _.
    assert_session_transition session.status SessionStatus.on_hold >>= λ _.
    assert_task_transition e.status TaskStatus.on_hold >>= λ _.
    elim (find_first is_open_hold session.holds) [
      | some _ ↦ err conflict
      | none ↦ ok (record (update_active (held_session now reason c.actor_id) e) {
        status = TaskStatus.on_hold;
        history = note HistoryAction.on_hold c e;
      })
    ]

-- The session's and the hold's update in `releaseHold`.
unfoldable pub released_session : ℕ → Session → Session
released_session now s = record (resumed_session now s) {
  holds = update_first is_open_hold (λ (h : Hold). record h { released_at = some now }) s.holds;
}

-- `releaseHold`
unfoldable pub release_hold : Caller → ℕ → Execution → Result Execution
release_hold c now e = load_active_execution c e >>= λ session.
    throw_if (not (e.status === TaskStatus.on_hold)) conflict >>= λ _.
    or_throw (find_first is_open_hold session.holds) conflict >>= λ _.
    assert_session_transition session.status SessionStatus.in_progress >>= λ _.
    assert_task_transition e.status TaskStatus.in_progress >>= λ _.
    ok (record (update_active (released_session now) e) {
      status = TaskStatus.in_progress;
      history = note HistoryAction.resumed c e;
    })

-- The second transaction of `completeTask` and `flagForCorrection`: the workflow engine's, which may
-- throw after the session was closed.
abbrev pub then_engine : Result (Unit {0}) → TaskStatus → Execution → Result (Unit {0}) × Execution
then_engine (ok _) status e = (ok tt, record e { status = status })
then_engine (err thrown) status e = (err thrown, e)

-- A handler that throws on a check has written nothing: every check is before the first update.
-- That the database fails between the update of the intervals and the transaction is not modelled.
abbrev pub committed : Result Execution → Execution → Result (Unit {0}) × Execution
committed (ok after) e = (ok tt, after)
committed (err thrown) e = (err thrown, e)

-- The checks of `completeTask`.
unfoldable pub completion_checks : Caller → Execution → Result (Unit {0})
completion_checks c e =
    load_active_execution c e >>= λ _. throw_if (not (e.status === TaskStatus.in_progress)) conflict

-- The checks of `flagForCorrection`.
unfoldable pub flag_checks : Caller → Execution → Result (Unit {0})
flag_checks c e =
    load_active_execution c e >>= λ _. throw_if (not (is_verification e.step_type)) bad_request

-- One round of the loop over the pending artworks.
abbrev pub approve_pending : ℕ → ℕ → Artwork → Artwork
approve_pending actor now a = elim a.approval_status [
  | ApprovalStatus.pending ↦ record {
    approval_status = ApprovalStatus.approved;
    approved_by = some actor;
    approved_at = some now;
  }
  | _ ↦ a
]

-- The first transaction of `completeTask`: a task about artwork also approves what is pending.
unfoldable pub close_completed : Caller → ℕ → Execution → Execution
close_completed c now e = record (update_active (complete_session now) e) {
  artworks =
      if is_verification e.step_type || e.artwork_step_code
      then map (approve_pending c.actor_id now) e.artworks
      else e.artworks;
}

-- `completeTask`, with the outcome of `workflowEngine.advance`.
unfoldable pub complete_task :
    Result (Unit {0}) → Caller → ℕ → Execution → Result (Unit {0}) × Execution
complete_task engine c now e = elim (completion_checks c e) [
  | err thrown ↦ (err thrown, e)
  | ok _ ↦ then_engine engine TaskStatus.completed (close_completed c now e)
]

-- `flagForCorrection`, with the outcome of `workflowEngine.flagTaskForCorrection`.
unfoldable pub flag_for_correction :
    Result (Unit {0}) → Caller → ℕ → Execution → Result (Unit {0}) × Execution
flag_for_correction engine c now e = elim (flag_checks c e) [
  | err thrown ↦ (err thrown, e)
  | ok _ ↦ then_engine engine TaskStatus.blocked (update_active (complete_session now) e)
]

-- The requests that the service makes of a task's status and sessions while it is worked on; the
-- correction's end, notes, attachments, alerts and calls for a supervisor are not among them.
pub data Request : Type 0 where
  start pause resume release : Request
  hold : (reason : ℕ) → Request
  complete flag : (engine : Result (Unit {0})) → Request

abbrev pub perform : Request → Caller → ℕ → Execution → Result (Unit {0}) × Execution
perform Request.start c now e = committed (start_task c now e) e
perform Request.pause c now e = committed (pause_task c now e) e
perform Request.resume c now e = committed (resume_task c now e) e
perform Request.release c now e = committed (release_hold c now e) e
perform (Request.hold reason) c now e = committed (hold_task reason c now e) e
perform (Request.complete engine) c now e = complete_task engine c now e
perform (Request.flag engine) c now e = flag_for_correction engine c now e
