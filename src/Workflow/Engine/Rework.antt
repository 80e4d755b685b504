-- ===== src/Workflow/Engine/Rework.antt =====
-- modules/workflow/workflow.engine.ts: what a failed inspection and a rejected proof share, the
-- choice of the step that is redone and the block of all that follows it.
pub mod Blocked
use geeta_backend.Common.{
  ℕ, ◌+◌, Bool, true, false, not, ◌&&◌, Option, none, some, List, [], ◌∷◌, filter, length, String,
  if◌then◌else◌, ◌==◌, ltb, find_first,
}
use geeta_backend.Common.Result.{Result, ok, err, conflict}
use geeta_backend.Workflow.TaskStatus
use geeta_backend.Workflow.TaskStatus.{TaskStatus, is_task_terminal}
use geeta_backend.Workflow.Store.{
  Store, Task, HistoryAction, TaskHistory, ReworkRequest, tasks_of, update_task,
}
use geeta_backend.Workflow.Skip.{truthy}
use text.Mathlib.Text.{◌==◌ as str_eq}

-- `notIn: [CANCELLED, SKIPPED]`
abbrev pub is_dropped : TaskStatus → Bool
is_dropped TaskStatus.cancelled = true
is_dropped TaskStatus.skipped = true
is_dropped _ = false

abbrev pub is_downstream : ℕ → Task → Bool
is_downstream target_step_order t = ltb target_step_order t.step_order && not (is_dropped t.status)

abbrev pub reopen_blocked : Task → Task
reopen_blocked t = record t { status = TaskStatus.blocked; completed_at = none }

abbrev pub block : Task → Task
block t = record t { status = TaskStatus.blocked }

abbrev pub is_blocked : TaskStatus → Bool
is_blocked s = TaskStatus.◌===◌ s TaskStatus.blocked

-- The update that the loop makes for one downstream row.
abbrev pub block_one : ℕ → Task → List Task → List Task
block_one source d ts =
    if d.id == source
    then ts
    else if is_task_terminal d.status
    then update_task d.id reopen_blocked ts
    else if not (is_blocked d.status)
    then update_task d.id block ts
    else ts

unfoldable pub block_each : ℕ → List Task → List Task → List Task
block_each source [] ts = ts
block_each source (d ∷ ds) ts = block_each source ds (block_one source d ts)

abbrev pub send_back : Task → Task
send_back t = record t { status = TaskStatus.rework; completed_at = none }

unfoldable pub block_downstream_and_rework_target : ℕ → ℕ → ℕ → ℕ → List Task → List Task
unfolding block_each
block_downstream_and_rework_target instance source target target_step_order ts =
    update_task target send_back
      (block_each source (filter (is_downstream target_step_order) (tasks_of instance ts)) ts)

-- `orderBy: { stepOrder: 'desc' }`: the last step's row, the first of them in row order.
abbrev pub last_by_step_order : List Task → Option Task
last_by_step_order [] = none
last_by_step_order (t ∷ ts) = elim (last_by_step_order ts) [
  | none ↦ some t
  | some u ↦ if ltb t.step_order u.step_order then some u else some t
]

abbrev pub is_completed : TaskStatus → Bool
is_completed s = TaskStatus.◌===◌ s TaskStatus.completed

-- The last two queries of `resolveReworkTargetTaskId`.
unfoldable pub predecessor_target : ℕ → ℕ → List Task → Result ℕ
predecessor_target source source_step_order ts =
    elim (last_by_step_order
      (filter (λ (t : Task). ltb t.step_order source_step_order && is_completed t.status) ts)) [
        | some t ↦ ok t.id
        | none ↦
            elim (last_by_step_order (
              filter (λ (t : Task). ltb t.step_order source_step_order && not (t.id == source))
                ts)) [ some t ↦ ok t.id | none ↦ err conflict ]
      ]

-- The query by `metadata.reworkTargetStepCode`, if there is one and it is not empty.
unfoldable pub configured_target : Option String → List Task → Option Task
configured_target none ts = none
configured_target (some step_code) ts =
    if truthy step_code
    then find_first (λ (t : Task). str_eq t.workflow_step.step_code step_code) ts
    else none

unfoldable pub resolve_rework_target_task_id : Task → Option ℕ → Store → Result ℕ
unfolding predecessor_target configured_target
resolve_rework_target_task_id source (some explicit) s = ok explicit
resolve_rework_target_task_id source none s =
    let ts = tasks_of source.workflow_instance_id s.tasks in
    elim (configured_target source.workflow_step.rework_target_step_code ts) [
      | some t ↦ ok t.id
      | none ↦ predecessor_target source.id source.step_order ts
    ]

-- `reworkRequest.count({ where: { targetTaskId } }) + 1`
abbrev pub next_rework_cycle : ℕ → List ReworkRequest → ℕ
next_rework_cycle target rs =
    length (filter (λ (r : ReworkRequest). r.target_task_id == target) rs) + 1

abbrev pub note : ℕ → HistoryAction → Option String → Option ℕ → TaskHistory
note task action remarks actor = record {
  task_id = task;
  action = action;
  remarks = remarks;
  performed_by_id = actor;
}
