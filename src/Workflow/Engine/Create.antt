-- ===== src/Workflow/Engine/Create.antt =====
-- modules/workflow/workflow.engine.ts: `createForProductionOrder`, and the template that
-- modules/workflow/workflow.repository.ts resolves for it.
pub mod Outcome
pub mod Rows
use geeta_backend.Common.{
  ℕ, Bool, true, false, ◌&&◌, Option, none, some, List, [], ◌∷◌, ◌++◌, map, filter, elem, length,
  if◌then◌else◌, ◌==◌, leb, find_first,
}
use geeta_backend.Common.Result.{Result, ok, bad_request, conflict, throw_if, or_throw, ◌>>=◌, ◌>>◌}
use geeta_backend.Workflow.TaskStatus.{TaskStatus}
use geeta_backend.Workflow.InstanceStatus.{InstanceStatus, assert_workflow_instance_transition}
use geeta_backend.Workflow.Skip.{TextOps, Selections, resolve_skipped_step_ids}
use geeta_backend.Workflow.Store.{
  Store, Template, TemplateStep, Task, Instance, HistoryAction, TimelineEvent, TaskHistory,
  TaskUpdate, update_task_statuses, ready_update, TaskDependencyEdge,
}
use geeta_backend.Workflow.Dependency.{from_entries, resolve_ready_task_ids, sort_by_step_order}
use geeta_backend.Workflow.Generator.{build_task_payloads, map_created_tasks_to_dependencies}
use geeta_backend.Workflow.Engine.Types.{Effect}
use geeta_backend.Workflow.Engine.Advance.{task_ref, ready_events, is_empty}

pub record CreateInput : Type 0 where
  pub order_id : ℕ
  pub production_order_item_id : ℕ
  pub product_offering_version_id : ℕ
  pub created_by_id : Option ℕ
  pub order_selections : Option Selections

-- The ids that the database gives the new rows.
pub record NewIds : Type 0 where
  pub instance_id : ℕ
  pub task_id : ℕ → ℕ

pub record CreationResult : Type 0 where
  pub workflow_instance_id : ℕ
  pub order_id : ℕ
  pub production_order_item_id : ℕ
  pub task_ids : List ℕ
  pub ready_task_ids : List ℕ
  pub status : InstanceStatus

abbrev pub binding_of : ℕ → List (ℕ × ℕ) → Option ℕ
binding_of version [] = none
binding_of version ((v, template) ∷ rest) =
    if v == version then some template else binding_of version rest

-- `findFirst` by the binding's id, or the default template; active ones only.
abbrev pub select_template : Option ℕ → List Template → Option Template
select_template none ts = find_first (λ (t : Template). t.is_default && t.is_active) ts
select_template (some i) ts = find_first (λ (t : Template). t.id == i && t.is_active) ts

abbrev pub has_no_steps : Template → Bool
has_no_steps t = elim (t.steps) [ [] ↦ true | _ ∷ _ ↦ false ]

-- `resolveTemplateForProductVersion`; the query orders the steps by `stepOrder`.
unfoldable pub resolve_template_for_product_version : ℕ → Store → Result Template
resolve_template_for_product_version version s = do
  template ← or_throw (select_template (binding_of version s.bindings) s.templates) bad_request
  throw_if (has_no_steps template) bad_request
  ok (record template { steps = sort_by_step_order template.steps })

abbrev pub first_step_order : List TemplateStep → ℕ
first_step_order [] = 1
first_step_order (step ∷ _) = step.step_order

abbrev pub skipped_update : ℕ → ℕ → TaskUpdate
skipped_update now i = record {
  id = i;
  status = TaskStatus.skipped;
  queued_at = none;
  completed_at = some now;
}

abbrev pub task_ids : List Task → List ℕ
task_ids = map (λ (t : Task). t.id)

-- The ids of the created tasks whose step is skipped.
abbrev pub auto_skipped_task_ids : List ℕ → List Task → List ℕ
auto_skipped_task_ids skipped_steps created =
    task_ids (filter (λ (t : Task). elem t.workflow_step.id skipped_steps) created)

-- The loop that sets `task.status` on the rows in memory.
abbrev pub mark_skipped : List ℕ → List Task → List Task
mark_skipped skipped_steps = map (λ (t : Task).
    if elem t.workflow_step.id skipped_steps then record t { status = TaskStatus.skipped } else t)

abbrev pub creation_history : Option ℕ → List ℕ → Task → TaskHistory
creation_history actor auto_skipped t = record {
  task_id = t.id;
  action = if elem t.id auto_skipped then HistoryAction.skipped else HistoryAction.created;
  remarks =
      if elem t.id auto_skipped
      then some "Auto-skipped: order configuration does not require this step"
      else none;
  performed_by_id = actor;
}

-- `Number.MAX_SAFE_INTEGER`
abbrev pub max_safe_integer : ℕ
max_safe_integer = 9007199254740991

abbrev pub step_order_of : ℕ → List Task → ℕ
step_order_of i created = elim (find_first (λ (t : Task). t.id == i) created) [
  | none ↦ max_safe_integer
  | some t ↦ t.step_order
]

-- `Math.min(...)` over the ready tasks.
abbrev pub first_ready_order : List Task → List ℕ → ℕ
first_ready_order created [] = max_safe_integer
first_ready_order created (i ∷ ids) =
    let rest = first_ready_order created ids in
    if leb (step_order_of i created) rest then step_order_of i created else rest

-- The instance's row when tasks are ready: RUNNING from the first of them on.
unfoldable pub start_new_instance :
    ℕ → Instance → List Task → List ℕ → Result (Instance × List TimelineEvent)
unfolding assert_workflow_instance_transition
start_new_instance now instance created ready = if is_empty ready then ok (instance, []) else do
  assert_workflow_instance_transition instance.status InstanceStatus.running
  ok (
    record instance {
      status = InstanceStatus.running;
      current_step_order = first_ready_order created ready;
      started_at = some now;
    },
    TimelineEvent.status_changed instance.id instance.status InstanceStatus.running ∷ [],
  )

abbrev pub new_instance : NewIds → CreateInput → Template → Instance
new_instance ids input template = record {
  id = ids.instance_id;
  order_id = input.order_id;
  production_order_item_id = input.production_order_item_id;
  workflow_template_id = template.id;
  status = InstanceStatus.initialized;
  current_step_order = first_step_order template.steps;
  started_at = none;
  completed_at = none;
  created_by_id = input.created_by_id;
}

abbrev pub selections_of : Option Selections → Selections
selections_of none = []
selections_of (some selections) = selections

-- `createMany` of the tasks, the steps that the selections skip, and the dependencies.
abbrev pub created_tasks : NewIds → Template → List Task
created_tasks ids template = build_task_payloads ids.task_id ids.instance_id template

abbrev pub skipped_step_ids : TextOps → CreateInput → Template → List ℕ
skipped_step_ids ops input template =
    resolve_skipped_step_ids ops
      (map (λ (step : TemplateStep). (step.id, step.skip_when)) template.steps)
      (selections_of input.order_selections)

abbrev pub created_dependencies : NewIds → Template → List TaskDependencyEdge
created_dependencies ids template =
    map_created_tasks_to_dependencies template (created_tasks ids template)

-- The tasks that may start at once.
abbrev pub ready_at_creation : TextOps → NewIds → CreateInput → Template → List ℕ
ready_at_creation ops ids input template =
    let marked = mark_skipped (skipped_step_ids ops input template) (created_tasks ids template) in
    resolve_ready_task_ids (map task_ref marked) (created_dependencies ids template)
      (from_entries (map (λ (t : Task). (t.id, t.status)) marked) (λ _. none)) true

-- The rest of the transaction, from the template.
unfoldable pub create_from_template :
    TextOps → ℕ → NewIds → CreateInput → Template → Store → Result (CreationResult × Store)
create_from_template ops now ids input template s = do
  let instance = new_instance ids input template
  let created = created_tasks ids template
  let auto_skipped = auto_skipped_task_ids (skipped_step_ids ops input template) created
  let ready = ready_at_creation ops ids input template
  started ← start_new_instance now instance created ready
  ok (
    record {
      workflow_instance_id = instance.id;
      order_id = input.order_id;
      production_order_item_id = input.production_order_item_id;
      task_ids = task_ids created;
      ready_task_ids = ready;
      status = started.0.status;
    },
    record s {
      instances = s.instances ++ started.0 ∷ [];
      tasks =
          update_task_statuses (map (ready_update now) ready)
            (update_task_statuses (map (skipped_update now) auto_skipped) (s.tasks ++ created));
      dependencies = s.dependencies ++ created_dependencies ids template;
      history = s.history ++ map (creation_history input.created_by_id auto_skipped) created;
      timeline =
          s.timeline
          ++ (TimelineEvent.workflow_created instance.id input.order_id
                ∷ TimelineEvent.tasks_generated instance.id (length created)
                ∷ ready_events instance.id created ready
              ++ started.1);
    },
  )

-- `findInstanceByOrderItemId`
abbrev pub has_instance : ℕ → Store → Bool
has_instance item s =
    elim (find_first (λ (x : Instance). x.production_order_item_id == item) s.instances) [
      | none ↦ false
      | some _ ↦ true
    ]

unfoldable pub create_for_production_order :
    TextOps → ℕ → NewIds → CreateInput → Store → Result (CreationResult × Store)
create_for_production_order ops now ids input s = do
  throw_if (has_instance input.production_order_item_id s) conflict
  template ← resolve_template_for_product_version input.product_offering_version_id s
  create_from_template ops now ids input template s

-- `publishCreationEvents`
unfoldable pub publish_creation_events : CreationResult → List Effect
publish_creation_events r =
    Effect.workflow_created r.workflow_instance_id r.order_id
    ∷ Effect.task_created r.workflow_instance_id (length r.task_ids)
    ∷ map (λ i. Effect.task_ready r.workflow_instance_id i) r.ready_task_ids
