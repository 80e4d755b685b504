-- ===== src/Workflow/CreateTests.antt =====
-- The creation of a workflow from a template of two steps, and its theorems at it.
use geeta_backend.Common.{ℕ, ◌+◌, true, none, some, List, [], ◌∷◌, map, ◌≡◌, refl}
use geeta_backend.Common.Result.{Result, ok, err, conflict}
use mathlib.Core.List.{Perm}
use geeta_backend.Workflow.TaskStatus.{TaskStatus}
use geeta_backend.Workflow.Skip.{resolve_skipped_step_ids, TextOps, SkipWhen, SkipOperator}
use geeta_backend.Workflow.Store.{
  Store, Template, TemplateStep, StepType, Task, update_task_statuses,
}
use geeta_backend.Workflow.Dependency.{
  build_implicit_template_dependencies, resolve_ready_task_ids, are_task_dependencies_met,
}
use geeta_backend.Workflow.Dependency.Chain.{
  Ascending, IsChain, build_implicit_template_dependencies-IsChain,
}
use geeta_backend.Workflow.Generator.{build_task_payloads, map_created_tasks_to_dependencies}
use geeta_backend.Workflow.Engine.Create.{
  create_from_template, start_new_instance, CreateInput, CreationResult, NewIds,
  create_for_production_order, resolve_template_for_product_version,
}
use geeta_backend.Workflow.Engine.Create.Outcome.{
  create_for_production_order-returns_iff, create_for_production_order-once,
}

-- Texts that are trimmed and in lower case already.
abbrev plain_texts : TextOps
plain_texts = record { trim = λ t. t; to_lower_case = λ t. t }

abbrev step : ℕ → StepType → SkipWhen → TemplateStep
step i type skip_when = record {
  id = i;
  department_id = 1;
  step_name = "Step";
  step_code = "STEP";
  step_type = type;
  step_order = i;
  expected_minutes = 30;
  allow_skip = true;
  allow_rework = true;
  is_mandatory = true;
  skip_when = skip_when;
  instructions = none;
  rework_target_step_code = none;
  dependencies = [];
}

-- Lamination is skipped unless the order selects one.
abbrev steps : List TemplateStep
steps =
    step 2 StepType.lamination (
      SkipWhen.condition
        (record { field_name = "lamination"; operator = SkipOperator.empty; values = none }))
    ∷ step 1 StepType.printing SkipWhen.absent
    ∷ []

abbrev template : Template
template = record { id = 9; code = "CARDS"; is_active = true; is_default = true; steps = steps }

abbrev empty_store : Store
empty_store = record {
  templates = template ∷ [];
  bindings = [];
  instances = [];
  tasks = [];
  dependencies = [];
  history = [];
  sessions = [];
  rework_requests = [];
  timeline = [];
  order_events = [];
}

abbrev order : CreateInput
order = record {
  order_id = 7;
  production_order_item_id = 8;
  product_offering_version_id = 5;
  created_by_id = some 3;
  order_selections = none;
}

abbrev ids : NewIds
ids = record { instance_id = 1; task_id = λ n. 10 + n }

found_template : (t : Template) × (resolve_template_for_product_version 5 empty_store ≡ ok t)
unfolding resolve_template_for_product_version
found_template = (_, refl)

created :
    (r : CreationResult × Store) × (create_for_production_order plain_texts 5 ids order empty_store
      ≡ ok r)
created =
    (create_for_production_order-returns_iff plain_texts 5 ids order empty_store).1
      (refl, found_template)

create_for_production_order-once_example :
    create_for_production_order plain_texts 6 ids order created.0.1 ≡ err conflict
create_for_production_order-once_example =
    create_for_production_order-once plain_texts 5 6 ids ids order order empty_store refl created.1

build_implicit_template_dependencies-IsChain_example :
    (ordered : List TemplateStep) × Perm ordered steps
    × Ascending ordered
    × IsChain ordered (build_implicit_template_dependencies steps)
build_implicit_template_dependencies-IsChain_example =
    build_implicit_template_dependencies-IsChain steps

-- The first step is printing, which starts at once; lamination is skipped.
abbrev statuses_of : Result (CreationResult × Store) → List TaskStatus
statuses_of (ok (_, s)) = map (λ (t : Task). t.status) s.tasks
statuses_of (err _) = []

created_statuses :
    statuses_of (create_for_production_order plain_texts 5 ids order empty_store)
    ≡ TaskStatus.ready ∷ TaskStatus.skipped ∷ []
unfolding create_for_production_order resolve_template_for_product_version create_from_template
    start_new_instance resolve_ready_task_ids build_task_payloads resolve_skipped_step_ids
    are_task_dependencies_met map_created_tasks_to_dependencies update_task_statuses
created_statuses = refl
