-- ===== src/Workflow/Engine/Advance.antt =====
-- modules/workflow/workflow.engine.ts: `advance`, the end of one task and what it sets free.
pub mod Inversion
pub mod TaskEffect
pub mod Final
pub mod Completion
pub mod Stuck
pub mod Progress
use geeta_backend.Common.{
  ℕ, Bool, true, false, not, ◌&&◌, none, some, List, [], ◌∷◌, ◌++◌, map, all, if◌then◌else◌, ◌==◌,
  find_first,
}
use geeta_backend.Common.Result.{Result, ok, not_found, conflict, throw_if, or_throw, ◌>>=◌, ◌>>◌}
use geeta_backend.Workflow.TaskStatus
use geeta_backend.Workflow.TaskStatus.{TaskStatus, assert_task_transition}
use geeta_backend.Workflow.InstanceStatus
use geeta_backend.Workflow.InstanceStatus.{
  InstanceStatus, is_workflow_terminal, assert_workflow_instance_transition,
}
use geeta_backend.Workflow.Store.{
  Store, Task, Instance, HistoryAction, TimelineEvent, TaskUpdate, find_instance, find_task_of,
  tasks_of, update_task, update_instance, update_task_statuses, ready_update, with_remarks,
}
use geeta_backend.Workflow.Dependency.{IdMap, TaskRef, set, from_entries, resolve_ready_task_ids}
use geeta_backend.Workflow.Engine.Types.{Action, AdvanceInput, AdvanceResult, Effect}

abbrev pub resolve_advance_target_status : Action → TaskStatus
resolve_advance_target_status Action.complete = TaskStatus.completed
resolve_advance_target_status Action.skip = TaskStatus.skipped
resolve_advance_target_status Action.cancel = TaskStatus.cancelled

abbrev pub advance_history_action : Action → HistoryAction
advance_history_action Action.complete = HistoryAction.completed
advance_history_action Action.skip = HistoryAction.skipped
advance_history_action Action.cancel = HistoryAction.cancelled

-- The first `workflowTask.update`: every target of an action is a final status, so the task is
-- stamped as completed.
abbrev pub close_task : ℕ → AdvanceInput → Task → Task
close_task now input t =
    with_remarks input.remarks
      (record t { status = resolve_advance_target_status input.action; completed_at = some now })

-- `isTaskTerminalForCompletion`
abbrev pub is_task_terminal_for_completion : Task → TaskStatus → Bool
is_task_terminal_for_completion t TaskStatus.completed = true
is_task_terminal_for_completion t TaskStatus.skipped = true
is_task_terminal_for_completion t TaskStatus.cancelled = not t.workflow_step.is_mandatory
is_task_terminal_for_completion t _ = false

unfoldable pub all_complete : ℕ → TaskStatus → List Task → Bool
all_complete task target =
    all
      (λ (t : Task). is_task_terminal_for_completion t (if t.id == task then target else t.status))

-- `new Map(allTasks.map(...))` and `statusByTaskId.set(task.id, targetStatus)`
unfoldable pub status_by_task_id : List Task → ℕ → TaskStatus → IdMap TaskStatus
status_by_task_id all_tasks task target =
    set task target (from_entries (map (λ (t : Task). (t.id, t.status)) all_tasks) (λ _. none))

abbrev pub task_ref : Task → TaskRef
task_ref t = record { id = t.id; template_step_id = t.workflow_step.id }

-- The two timeline rows of a task that became READY.
unfoldable pub ready_events : ℕ → List Task → List ℕ → List TimelineEvent
ready_events instance all_tasks [] = []
ready_events instance all_tasks (i ∷ ids) =
    let rest = ready_events instance all_tasks ids in
    elim (find_first (λ (t : Task). t.id == i) all_tasks) [
      | none ↦ rest
      | some _ ↦
          TimelineEvent.task_ready instance i ∷ TimelineEvent.task_activated instance i ∷ rest
    ]

abbrev pub completed_event : Action → ℕ → ℕ → List TimelineEvent
completed_event Action.complete instance task = TimelineEvent.task_completed instance task ∷ []
completed_event _ instance task = []

-- The instance's new row, whether it completed, and the timeline row of that.
abbrev pub Settled : Type 0
Settled = Instance × Bool × List TimelineEvent

unfoldable pub complete_instance : ℕ → Instance → Result Settled
complete_instance now instance = do
  assert_workflow_instance_transition instance.status InstanceStatus.completed
  ok (
    record instance { status = InstanceStatus.completed; completed_at = some now },
    true,
    TimelineEvent.workflow_completed instance.id ∷ [],
  )

unfoldable pub start_instance : ℕ → Instance → Result Settled
start_instance now instance = do
  assert_workflow_instance_transition instance.status InstanceStatus.running
  ok (record instance { status = InstanceStatus.running; started_at = some now }, false, [])

abbrev pub is_initialized : InstanceStatus → Bool
is_initialized s = InstanceStatus.◌===◌ s InstanceStatus.initialized

abbrev pub is_empty : List ℕ → Bool
is_empty [] = true
is_empty (_ ∷ _) = false

unfoldable pub settle_instance : ℕ → Instance → Bool → List ℕ → Result Settled
unfolding complete_instance start_instance
settle_instance now instance complete newly_ready =
    if complete
    then complete_instance now instance
    else if is_initialized instance.status && not (is_empty newly_ready)
    then start_instance now instance
    else ok (instance, false, [])

-- The transaction of `advance` from the instance and the task that it found.
unfoldable pub advance_task :
    ℕ → AdvanceInput → Instance → Task → Store → Result (AdvanceResult × Store)
advance_task now input instance task s = do
  let target = resolve_advance_target_status input.action
  let closed = update_task task.id (close_task now input) s.tasks
  let all_tasks = tasks_of instance.id closed
  let newly_ready =
      resolve_ready_task_ids (map task_ref all_tasks) s.dependencies
        (status_by_task_id all_tasks task.id target) true
  settled ← settle_instance now instance (all_complete task.id target all_tasks) newly_ready
  ok (
    record {
      workflow_instance_id = instance.id;
      task_id = task.id;
      task_status = target;
      newly_ready_task_ids = newly_ready;
      workflow_status = settled.0.status;
      workflow_completed = settled.1;
    },
    record s {
      tasks = update_task_statuses (map (ready_update now) newly_ready) closed;
      instances = update_instance instance.id (λ _. settled.0) s.instances;
      history =
          s.history
          ++ record {
            task_id = task.id;
            action = advance_history_action input.action;
            remarks = input.remarks;
            performed_by_id = input.actor_id;
          }
            ∷ [];
      timeline =
          s.timeline
          ++ (completed_event input.action instance.id task.id
              ++ (ready_events instance.id all_tasks newly_ready ++ settled.2));
    },
  )

unfoldable pub advance_tx : ℕ → AdvanceInput → Store → Result (AdvanceResult × Store)
unfolding advance_task assert_task_transition
advance_tx now input s = do
  instance ← or_throw (find_instance input.workflow_instance_id s) not_found
  throw_if (is_workflow_terminal instance.status) conflict
  task ← or_throw (find_task_of input.workflow_instance_id input.task_id s) not_found
  assert_task_transition task.status (resolve_advance_target_status input.action)
  advance_task now input instance task s

-- The events that follow the commit.
abbrev pub advance_effects : AdvanceResult → List Effect
advance_effects r =
    map (λ i. Effect.task_ready r.workflow_instance_id i) r.newly_ready_task_ids
    ++ ((if TaskStatus.◌===◌ r.task_status TaskStatus.completed
          then Effect.task_completed r.workflow_instance_id r.task_id ∷ []
          else [])
        ++ (if r.workflow_completed
            then Effect.workflow_completed r.workflow_instance_id ∷ []
            else []))

unfoldable pub advance : ℕ → AdvanceInput → Store → Result (AdvanceResult × List Effect × Store)
unfolding advance_tx
advance now input s = do done ← advance_tx now input s; ok (done.0, advance_effects done.0, done.1)
