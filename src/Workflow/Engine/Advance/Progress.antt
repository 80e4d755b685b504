-- ===== src/Workflow/Engine/Advance/Progress.antt =====
-- When `advance` returns.
use geeta_backend.Common.{ℕ, Bool, true, false, List, some, ◌≡◌, refl}
use geeta_backend.Common.Result.{ok}
use geeta_backend.Workflow.TaskStatus.{assert_task_transition}
use geeta_backend.Workflow.InstanceStatus.{
  InstanceStatus, is_workflow_terminal, assert_workflow_instance_transition,
}
use geeta_backend.Workflow.Store.{Store, Task, Instance, find_instance, find_task_of}
use geeta_backend.Workflow.Engine.Types.{AdvanceInput, AdvanceResult}
use geeta_backend.Workflow.Engine.Advance.{
  advance_tx, advance_task, settle_instance, complete_instance, start_instance, Settled,
  resolve_advance_target_status,
}
use geeta_backend.Workflow.Engine.Advance.Inversion.{finished, newly_ready}

settle_instance-running :
    (now : ℕ) (i : Instance) (complete : Bool) (ids : List ℕ)
    → i.status ≡ InstanceStatus.running
    → (x : Settled) × (settle_instance now i complete ids ≡ ok x)
unfolding settle_instance complete_instance start_instance assert_workflow_instance_transition
settle_instance-running now i true ids e = rw e (_, refl)
settle_instance-running now i false ids e = rw e (_, refl)

advance_task-returns :
    (now : ℕ) (input : AdvanceInput) (instance : Instance) (task : Task) (s : Store)
    → instance.status ≡ InstanceStatus.running
    → (r : AdvanceResult × Store) × (advance_task now input instance task s ≡ ok r)
unfolding advance_task
advance_task-returns now input instance task s e =
    let settled =
      settle_instance-running now instance (finished now input instance task s)
        (newly_ready now input instance task s) e in
    rw settled.1 (_, refl)

-- On a workflow that is RUNNING, `advance` returns for every task of the workflow from which the
-- task state machine allows the action's target status.
pub advance_tx-returns :
    (now : ℕ) (input : AdvanceInput) (s : Store) (instance : Instance) (task : Task)
    → find_instance input.workflow_instance_id s ≡ some instance
    → instance.status ≡ InstanceStatus.running
    → find_task_of input.workflow_instance_id input.task_id s ≡ some task
    → assert_task_transition task.status (resolve_advance_target_status input.action) ≡ ok tt
    → (r : AdvanceResult × Store) × (advance_tx now input s ≡ ok r)
unfolding advance_tx
advance_tx-returns now input s instance task found running found_task allowed =
    let live : is_workflow_terminal instance.status ≡ false = rw running refl in
    rw (found, live, found_task, allowed) (advance_task-returns now input instance task s running)
