-- ===== src/Workflow/Engine/Cancel.antt =====
-- modules/workflow/workflow.engine.ts: `cancelInstance`, the bulk cancellation of a workflow.
pub mod Settled
use geeta_backend.Common.{
  ℕ, Bool, true, false, not, ◌&&◌, Option, some, List, [], ◌∷◌, ◌++◌, map, filter, elem, String,
  if◌then◌else◌,
}
use geeta_backend.Common.Result.{Result, ok, not_found, or_throw, ◌>>=◌, ◌>>◌}
use geeta_backend.Workflow.TaskStatus.{TaskStatus, is_task_terminal}
use geeta_backend.Workflow.InstanceStatus.{
  InstanceStatus, is_workflow_terminal, assert_workflow_instance_transition,
}
use geeta_backend.Workflow.Store.{
  Store, Task, Instance, HistoryAction, TaskHistory, TimelineEvent, ExecutionSession, SessionStatus,
  find_instance, tasks_of, update_instance,
}
use geeta_backend.Workflow.Engine.Rework.{note}

pub record CancelInput : Type 0 where
  pub workflow_instance_id : ℕ
  pub actor_id : Option ℕ
  pub reason : Option String

pub record CancelResult : Type 0 where
  pub workflow_instance_id : ℕ
  pub cancelled_task_ids : List ℕ

-- The tasks whose status is `notIn` the final ones.
abbrev pub open_task_ids : ℕ → List Task → List ℕ
open_task_ids instance ts =
    map (λ (t : Task). t.id)
      (filter (λ (t : Task). not (is_task_terminal t.status)) (tasks_of instance ts))

-- `workflowTask.updateMany({ where: { id: { in: ids } } })`
abbrev pub cancel_tasks : ℕ → List ℕ → List Task → List Task
cancel_tasks now ids = map (λ (t : Task).
    if elem t.id ids
    then record t { status = TaskStatus.cancelled; completed_at = some now }
    else t)

abbrev pub is_session_open : SessionStatus → Bool
is_session_open SessionStatus.completed = false
is_session_open _ = true

-- `workflowTaskExecutionSession.updateMany`
abbrev pub close_sessions : ℕ → List ℕ → List ExecutionSession → List ExecutionSession
close_sessions now ids = map (λ (x : ExecutionSession).
    if elem x.workflow_task_id ids && is_session_open x.status
    then record x { status = SessionStatus.completed; completed_at = some now }
    else x)

abbrev pub cancellation_notes : CancelInput → List ℕ → List TaskHistory
cancellation_notes input = map (λ i. note i HistoryAction.cancelled input.reason input.actor_id)

unfoldable pub cancel_open_instance : ℕ → CancelInput → Instance → Store → CancelResult × Store
cancel_open_instance now input instance s =
    let ids = open_task_ids instance.id s.tasks in
    (
      record { workflow_instance_id = instance.id; cancelled_task_ids = ids },
      record s {
        tasks = cancel_tasks now ids s.tasks;
        history = s.history ++ cancellation_notes input ids;
        sessions = close_sessions now ids s.sessions;
        instances =
            update_instance instance.id
              (λ (x : Instance). record x {
                status = InstanceStatus.cancelled;
                completed_at = some now;
              })
              s.instances;
        timeline =
            s.timeline
            ++ TimelineEvent.workflow_cancelled instance.id
              ∷ TimelineEvent.status_changed instance.id instance.status InstanceStatus.cancelled
              ∷ [];
      },
    )

-- A finished workflow is left alone, and is no error.
unfoldable pub cancel_instance : ℕ → CancelInput → Store → Result (CancelResult × Store)
cancel_instance now input s = do
  instance ← or_throw (find_instance input.workflow_instance_id s) not_found
  if is_workflow_terminal instance.status
      then ok (record { workflow_instance_id = instance.id; cancelled_task_ids = [] }, s)
      else assert_workflow_instance_transition instance.status InstanceStatus.cancelled
        >> ok (cancel_open_instance now input instance s)
