-- ===== src/Workflow/Engine/Types.antt =====
-- modules/workflow/workflow.engine.ts: what the operations take, and what they publish after the
-- commit (events/eventBus.ts, and the call of `syncOrderStatusForOrder`).
use geeta_backend.Common.{ℕ, Option, List, Bool, String}
use geeta_backend.Workflow.TaskStatus.{TaskStatus}
use geeta_backend.Workflow.InstanceStatus.{InstanceStatus}

pub data Action : Type 0 where
  complete skip cancel : Action

pub record AdvanceInput : Type 0 where
  pub workflow_instance_id : ℕ
  pub task_id : ℕ
  pub action : Action
  pub actor_id : Option ℕ
  pub remarks : Option String

pub record AdvanceResult : Type 0 where
  pub workflow_instance_id : ℕ
  pub task_id : ℕ
  pub task_status : TaskStatus
  pub newly_ready_task_ids : List ℕ
  pub workflow_status : InstanceStatus
  pub workflow_completed : Bool

pub data Effect : Type 0 where
  workflow_created : (workflow_instance_id order_id : ℕ) → Effect
  task_created : (workflow_instance_id count : ℕ) → Effect
  task_ready task_completed : (workflow_instance_id task_id : ℕ) → Effect
  workflow_completed : (workflow_instance_id : ℕ) → Effect
  sync_order_status : (order_id : ℕ) → Effect
