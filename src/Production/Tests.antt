-- ===== src/Production/Tests.antt =====
-- A printing task that is started, paused, resumed and completed.
use geeta_backend.Common.{◌+◌, ◌*◌, ◌≤◌, true, false, none, some, [], ◌∷◌, ◌≡◌, refl, arith, length}
use geeta_backend.Common.Result.{ok, err, conflict}
use geeta_backend.Workflow.TaskStatus.{TaskStatus}
use geeta_backend.Workflow.Store.{StepType, SessionStatus}
use geeta_backend.Production.Execution
use geeta_backend.Production.Execution.{
  HistoryAction, IntervalType, Session, Execution, Caller, Request, perform, new_session,
  start_task, complete_session, completion_checks, open_interval, is_active,
}
use geeta_backend.Production.Execution.Timed.{IsExecution, IsTimed}
use geeta_backend.Production.Execution.Kept.{perform-IsExecution}
use geeta_backend.Production.Execution.Bounds.{complete_session-bounds}
use geeta_backend.Production.Execution.Stranded.{IsStranded, IsRefused, complete-IsRefused}

abbrev operator : Caller
operator = record { actor_id = 4; is_manager = false; can_execute = true; can_view_all = false }

abbrev assigned_task : Execution
assigned_task = record {
  step_type = StepType.printing;
  artwork_step_code = false;
  status = TaskStatus.assigned;
  started_at = none;
  operator = some 4;
  sessions = [];
  history = [];
  artworks = [];
}

abbrev running_session : Session
running_session = new_session 4 1000

abbrev running_task : Execution
running_task = record assigned_task {
  status = TaskStatus.in_progress;
  started_at = some 1000;
  sessions = running_session ∷ [];
  history = record { action = HistoryAction.started; performed_by = 4 } ∷ [];
}

task_started : perform Request.start operator 1000 assigned_task ≡ (ok tt, running_task)
unfolding Execution.start_task Execution.assert_can_execute_task
    geeta_backend.Workflow.TaskStatus.assert_task_transition
task_started = refl

-- A pause after 61.5 seconds, and the end after 10.2 more.
abbrev paused_task : Execution
paused_task = (perform Request.pause operator 62500 running_task).1

abbrev resumed_task : Execution
resumed_task = (perform Request.resume operator 72700 paused_task).1

running_session-IsTimed : IsTimed running_session
running_session-IsTimed = record {
  since = 1000;
  closed = [];
  intervals = refl;
  active_started_at = refl;
  active_type = refl;
  covers = refl;
  adds_up = record { working = refl; paused = refl; hold = refl };
}

running_task-IsExecution : IsExecution running_task
running_task-IsExecution = record {
  timed = (running_session-IsTimed, tt);
  one_active = tt;
  agrees = refl;
}

perform-IsExecution_example : IsExecution paused_task
perform-IsExecution_example =
    perform-IsExecution Request.pause operator 62500 running_task running_task-IsExecution
      (omega arith, tt)

complete_session-bounds_example :
    let done = complete_session 62500 running_session in
    (done.total_duration * 1000 + 1000 ≤ 62500)
    × (62500 ≤ done.total_duration * 1000 + 1000 + 999 * length done.intervals)
complete_session-bounds_example =
    complete_session-bounds 62500 running_session running_session-IsTimed refl (omega arith)

running_checks : completion_checks operator running_task ≡ ok tt
unfolding completion_checks Execution.load_active_execution Execution.assert_can_execute_task
running_checks = refl

complete-IsRefused_example :
    let left = (perform (Request.complete (err conflict)) operator 62500 running_task).1 in
    IsStranded left × IsRefused left (perform Request.start operator 70000 left)
complete-IsRefused_example =
    complete-IsRefused operator 62500 running_task conflict Request.start operator 70000
      running_task-IsExecution running_checks

seconds_logged : complete_session 62500 running_session ≡ record running_session {
  status = SessionStatus.completed;
  completed_at = some 62500;
  totals = record { working = 61; paused = 0; hold = 0 };
  total_duration = 61;
  active_started_at = none;
  active_type = none;
  intervals =
      record (open_interval IntervalType.working 1000) {
        ended_at = some 62500;
        duration_seconds = some 61;
      }
      ∷ [];
}
unfolding complete_session Execution.close_active_interval Execution.accumulate_duration
seconds_logged = refl
