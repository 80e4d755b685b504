-- ===== src/Workflow/Generator.antt =====
-- modules/workflow/task-generator.service.ts: the tasks and edges of a new instance.
use geeta_backend.Common.{ℕ, suc, none, List, [], ◌∷◌, ◌++◌, map}
use geeta_backend.Workflow.TaskStatus.{blocked}
use geeta_backend.Workflow.Store.{
  TemplateStep, Template, TemplateDependencyEdge, TaskDependencyEdge, Task,
}
use geeta_backend.Workflow.Dependency.{
  IdMap, from_entries, resolve_template_dependencies, map_template_dependencies_to_tasks,
}

-- The rows that `createManyAndReturn` makes of the payloads. `task_id n` is the id that the
-- database gives the n-th row.
unfoldable pub build_payloads_from : (ℕ → ℕ) → ℕ → ℕ → List TemplateStep → List Task
build_payloads_from task_id n instance_id [] = []
build_payloads_from task_id n instance_id (step ∷ steps) =
    record {
      id = task_id n;
      workflow_instance_id = instance_id;
      workflow_step = step;
      department_id = step.department_id;
      step_order = step.step_order;
      estimated_minutes = step.expected_minutes;
      instructions = step.instructions;
      status = blocked;
      queued_at = none;
      completed_at = none;
      remarks = none;
    }
    ∷ build_payloads_from task_id (suc n) instance_id steps

unfoldable pub build_task_payloads : (ℕ → ℕ) → ℕ → Template → List Task
unfolding build_payloads_from
build_task_payloads task_id instance_id template =
    build_payloads_from task_id 0 instance_id template.steps

unfoldable pub collect_explicit_template_dependencies :
    List TemplateStep → List TemplateDependencyEdge
collect_explicit_template_dependencies [] = []
collect_explicit_template_dependencies (step ∷ steps) =
    step.dependencies ++ collect_explicit_template_dependencies steps

unfoldable pub step_id_to_task_id : List Task → IdMap ℕ
step_id_to_task_id tasks =
    from_entries (map (λ (t : Task). (t.workflow_step.id, t.id)) tasks) (λ _. none)

-- `mapCreatedTasksToDependencies`, the generator's `resolveDependencies`
unfoldable pub map_created_tasks_to_dependencies : Template → List Task → List TaskDependencyEdge
unfolding collect_explicit_template_dependencies step_id_to_task_id resolve_template_dependencies
    map_template_dependencies_to_tasks
map_created_tasks_to_dependencies template created =
    let explicit = collect_explicit_template_dependencies template.steps in
    map_template_dependencies_to_tasks (resolve_template_dependencies template.steps explicit)
      (step_id_to_task_id created)
