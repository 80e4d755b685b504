-- ===== src/Workflow/Store.antt =====
-- The rows of prisma/schema.prisma that modules/workflow/workflow.engine.ts reads and writes, and
-- the queries and updates of modules/workflow/workflow.repository.ts. Ids, users and instants are
-- numbers; a task carries the template step that its foreign key names, which the engine never
-- writes.
pub mod Updates
pub mod Keys
use geeta_backend.Common.{
  ℕ, Bool, ◌&&◌, Option, none, some, List, [], ◌∷◌, map, String, filter, find_first, ◌==◌,
  if◌then◌else◌,
}
use geeta_backend.Workflow.TaskStatus.{TaskStatus, DependencyType}
use geeta_backend.Workflow.InstanceStatus.{InstanceStatus}
use geeta_backend.Workflow.Skip.{SkipWhen, truthy}

-- enum WorkflowStepType
pub data StepType : Type 0 where
  verification printing lamination uv foiling die_cutting packaging dispatch quality_check
        vendor_approval custom :
      StepType

-- A dependency of a template: interface TemplateDependencyEdge.
pub record TemplateDependencyEdge : Type 0 where
  pub workflow_template_step_id : ℕ
  pub depends_on_step_id : ℕ
  pub dependency_type : DependencyType

-- A step of WORKFLOW_TEMPLATE_WITH_STEPS; of its `metadata` only `reworkTargetStepCode` is read.
pub record TemplateStep : Type 0 where
  pub id : ℕ
  pub department_id : ℕ
  pub step_name : String
  pub step_code : String
  pub step_type : StepType
  pub step_order : ℕ
  pub expected_minutes : ℕ
  pub allow_skip : Bool
  pub allow_rework : Bool
  pub is_mandatory : Bool
  pub skip_when : SkipWhen
  pub instructions : Option String
  pub rework_target_step_code : Option String
  pub dependencies : List TemplateDependencyEdge

pub record Template : Type 0 where
  pub id : ℕ
  pub code : String
  pub is_active : Bool
  pub is_default : Bool
  pub steps : List TemplateStep

pub record Instance : Type 0 where
  pub id : ℕ
  pub order_id : ℕ
  pub production_order_item_id : ℕ
  pub workflow_template_id : ℕ
  pub status : InstanceStatus
  pub current_step_order : ℕ
  pub started_at : Option ℕ
  pub completed_at : Option ℕ
  pub created_by_id : Option ℕ

pub record Task : Type 0 where
  pub id : ℕ
  pub workflow_instance_id : ℕ
  pub workflow_step : TemplateStep
  pub department_id : ℕ
  pub step_order : ℕ
  pub estimated_minutes : ℕ
  pub instructions : Option String
  pub status : TaskStatus
  pub queued_at : Option ℕ
  pub completed_at : Option ℕ
  pub remarks : Option String

-- interface TaskDependencyEdge, a row of WorkflowTaskDependency
pub record TaskDependencyEdge : Type 0 where
  pub task_id : ℕ
  pub depends_on_task_id : ℕ
  pub dependency_type : DependencyType

-- The members of enum WorkflowHistoryAction that the engine writes.
pub data HistoryAction : Type 0 where
  created skipped completed cancelled on_hold rejected reworked blocked unblocked : HistoryAction

pub record TaskHistory : Type 0 where
  pub task_id : ℕ
  pub action : HistoryAction
  pub remarks : Option String
  pub performed_by_id : Option ℕ

-- enum WorkflowTaskExecutionSessionStatus
pub data SessionStatus : Type 0 where
  in_progress paused on_hold completed : SessionStatus

pub record ExecutionSession : Type 0 where
  pub workflow_task_id : ℕ
  pub status : SessionStatus
  pub completed_at : Option ℕ

-- A row of ReworkRequest, which the engine only ever creates (status OPEN).
pub record ReworkRequest : Type 0 where
  pub id : ℕ
  pub task_id : ℕ
  pub target_task_id : ℕ
  pub reason : String
  pub notes : Option String
  pub rework_cycle : ℕ
  pub created_by_id : Option ℕ

-- The timeline rows, one constructor for each builder of workflow-timeline.service.ts that the
-- engine calls; the texts of a row are not modelled.
pub data TimelineEvent : Type 0 where
  workflow_created : (workflow_instance_id order_id : ℕ) → TimelineEvent
  tasks_generated : (workflow_instance_id task_count : ℕ) → TimelineEvent
  task_ready task_activated task_completed : (workflow_instance_id task_id : ℕ) → TimelineEvent
  workflow_completed workflow_cancelled : (workflow_instance_id : ℕ) → TimelineEvent
  status_changed : (workflow_instance_id : ℕ) (from to : InstanceStatus) → TimelineEvent
  qc_held qc_failed workflow_reworked : (workflow_instance_id task_id : ℕ) → TimelineEvent
  order_flagged_improper order_correction_resolved :
      (workflow_instance_id task_id : ℕ) → TimelineEvent

-- The rows that modules/orders/order-events.service.ts writes for the engine.
pub data OrderEvent : Type 0 where
  order_flagged_improper order_correction_resolved : (order_id : ℕ) → OrderEvent

pub record Store : Type 0 where
  pub templates : List Template
  pub bindings : List (ℕ × ℕ)  -- ProductOfferingWorkflow: version id, template id
  pub instances : List Instance
  pub tasks : List Task
  pub dependencies : List TaskDependencyEdge
  pub history : List TaskHistory
  pub sessions : List ExecutionSession
  pub rework_requests : List ReworkRequest
  pub timeline : List TimelineEvent
  pub order_events : List OrderEvent

-- `workflowInstance.findUnique({ where: { id } })`
abbrev pub find_instance : ℕ → Store → Option Instance
find_instance i s = find_first (λ (x : Instance). x.id == i) s.instances

-- `workflowTask.findUnique({ where: { id } })`
abbrev pub find_task : ℕ → Store → Option Task
find_task i s = find_first (λ (t : Task). t.id == i) s.tasks

-- `workflowTask.findFirst({ where: { id, workflowInstanceId } })`
abbrev pub find_task_of : ℕ → ℕ → Store → Option Task
find_task_of w i s = find_first (λ (t : Task). t.id == i && t.workflow_instance_id == w) s.tasks

-- `workflowTask.findMany({ where: { workflowInstanceId } })`
abbrev pub tasks_of : ℕ → List Task → List Task
tasks_of w ts = filter (λ (t : Task). t.workflow_instance_id == w) ts

-- `workflowTask.update({ where: { id }, data })`
abbrev pub update_task : ℕ → (Task → Task) → List Task → List Task
update_task i f = map (λ (t : Task). if t.id == i then f t else t)

-- `workflowInstance.update({ where: { id }, data })`, `updateInstanceStatus`
abbrev pub update_instance : ℕ → (Instance → Instance) → List Instance → List Instance
update_instance i f = map (λ (x : Instance). if x.id == i then f x else x)

-- `...(remarks ? { remarks } : {})`
abbrev pub with_remarks : Option String → Task → Task
with_remarks none t = t
with_remarks (some r) t = if truthy r then record t { remarks = some r } else t

-- One entry of the argument of `updateTaskStatuses`.
pub record TaskUpdate : Type 0 where
  pub id : ℕ
  pub status : TaskStatus
  pub queued_at : Option ℕ
  pub completed_at : Option ℕ

-- `...(value ? { field: value } : {})`
abbrev pub given : Option ℕ → Option ℕ → Option ℕ
given none old = old
given (some v) old = some v

abbrev pub apply_update : TaskUpdate → Task → Task
apply_update u t = record t {
  status = u.status;
  queued_at = given u.queued_at t.queued_at;
  completed_at = given u.completed_at t.completed_at;
}

-- The entry that makes a task READY.
abbrev pub ready_update : ℕ → ℕ → TaskUpdate
ready_update now i = record {
  id = i;
  status = TaskStatus.ready;
  queued_at = some now;
  completed_at = none;
}

-- `updateTaskStatuses`: the updates are of distinct rows, so their order does not matter.
unfoldable pub update_task_statuses : List TaskUpdate → List Task → List Task
update_task_statuses [] ts = ts
update_task_statuses (u ∷ us) ts = update_task_statuses us (update_task u.id (apply_update u) ts)
