-- ===== src/Workflow/Engine/Correction.antt =====
-- modules/workflow/workflow.engine.ts: `flagTaskForCorrection` and `resolveTaskCorrection`.
pub mod RoundTrip
use geeta_backend.Common.{
  ℕ, Bool, true, false, not, Option, none, some, List, [], ◌∷◌, ◌++◌, String,
}
use geeta_backend.Common.Result.{
  Result, ok, bad_request, not_found, conflict, throw_if, or_throw, ◌>>=◌, ◌>>◌,
}
use geeta_backend.Workflow.TaskStatus.{TaskStatus, assert_task_transition}
use geeta_backend.Workflow.Store.{
  Store, StepType, Task, Instance, HistoryAction, TimelineEvent, OrderEvent, find_instance,
  find_task, update_task,
}
use geeta_backend.Workflow.Engine.Types.{Effect}
use geeta_backend.Workflow.Engine.Rework.{note, is_blocked}

pub record CorrectionResult : Type 0 where
  pub task_id : ℕ
  pub workflow_instance_id : ℕ
  pub order_id : ℕ

abbrev pub is_verification : StepType → Bool
is_verification StepType.verification = true
is_verification _ = false

-- The order that `task.workflowInstance` names. The foreign key makes the row exist.
abbrev pub order_of : Task → Store → Result Instance
order_of t s = or_throw (find_instance t.workflow_instance_id s) not_found

unfoldable pub flag_task_for_correction :
    (task_id actor_id : ℕ) → String → Store → Result (CorrectionResult × List Effect × Store)
flag_task_for_correction task_id actor_id reason s = do
  task ← or_throw (find_task task_id s) not_found
  instance ← order_of task s
  throw_if (not (is_verification task.workflow_step.step_type)) bad_request
  assert_task_transition task.status TaskStatus.blocked
  ok (
    record {
      task_id = task.id;
      workflow_instance_id = task.workflow_instance_id;
      order_id = instance.order_id;
    },
    Effect.sync_order_status instance.order_id ∷ [],
    record s {
      tasks =
          update_task task.id
            (λ (t : Task). record t { status = TaskStatus.blocked; remarks = some reason }) s.tasks;
      history = s.history ++ note task.id HistoryAction.blocked (some reason) (some actor_id) ∷ [];
      timeline =
          s.timeline ++ TimelineEvent.order_flagged_improper task.workflow_instance_id task.id ∷ [];
      order_events = s.order_events ++ OrderEvent.order_flagged_improper instance.order_id ∷ [];
    },
  )

unfoldable pub resolve_task_correction :
    ℕ
    → (task_id actor_id : ℕ) → Option String
    → Store
    → Result (CorrectionResult × List Effect × Store)
resolve_task_correction now task_id actor_id remarks s = do
  task ← or_throw (find_task task_id s) not_found
  instance ← order_of task s
  throw_if (not (is_blocked task.status)) conflict
  assert_task_transition task.status TaskStatus.ready
  ok (
    record {
      task_id = task.id;
      workflow_instance_id = task.workflow_instance_id;
      order_id = instance.order_id;
    },
    Effect.task_ready task.workflow_instance_id task.id
        ∷ Effect.sync_order_status instance.order_id
        ∷ [],
    record s {
      tasks =
          update_task task.id
            (λ (t : Task). record t {
              status = TaskStatus.ready;
              queued_at = some now;
              remarks = none;
            })
            s.tasks;
      history = s.history ++ note task.id HistoryAction.unblocked remarks (some actor_id) ∷ [];
      timeline =
          s.timeline
          ++ TimelineEvent.order_correction_resolved task.workflow_instance_id task.id ∷ [];
      order_events = s.order_events ++ OrderEvent.order_correction_resolved instance.order_id ∷ [];
    },
  )
