-- ===== src/Workflow/Dependency.antt =====
-- modules/workflow/dependency-engine.ts: which tasks may start.
pub mod Ready
pub mod Chain
use geeta_backend.Common.{
  ℕ, Bool, true, false, not, ◌&&◌, ◌||◌, Option, none, some, List, [], ◌∷◌, all, filter, ◌==◌, leb,
  if◌then◌else◌,
}
use geeta_backend.Workflow.TaskStatus.{
  TaskStatus, blocked, waiting, pending, ◌===◌, finish_to_start, is_task_dependency_satisfied,
}
use geeta_backend.Workflow.Store.{TemplateStep, TemplateDependencyEdge, TaskDependencyEdge}

-- `[...steps].sort((a, b) => a.stepOrder - b.stepOrder)`, which is stable.
abbrev pub insert_by_step_order : TemplateStep → List TemplateStep → List TemplateStep
insert_by_step_order x [] = x ∷ []
insert_by_step_order x (y ∷ ys) =
    if leb x.step_order y.step_order then x ∷ y ∷ ys else y ∷ insert_by_step_order x ys

abbrev pub sort_by_step_order : List TemplateStep → List TemplateStep
sort_by_step_order [] = []
sort_by_step_order (x ∷ xs) = insert_by_step_order x (sort_by_step_order xs)

-- The loop over `sorted[i - 1]`, `sorted[i]`.
unfoldable pub chain_from : TemplateStep → List TemplateStep → List TemplateDependencyEdge
chain_from previous [] = []
chain_from previous (current ∷ rest) =
    record {
      workflow_template_step_id = current.id;
      depends_on_step_id = previous.id;
      dependency_type = finish_to_start;
    }
    ∷ chain_from current rest

unfoldable pub chain : List TemplateStep → List TemplateDependencyEdge
unfolding chain_from
chain [] = []
chain (first ∷ rest) = chain_from first rest

unfoldable pub build_implicit_template_dependencies :
    List TemplateStep → List TemplateDependencyEdge
unfolding chain
build_implicit_template_dependencies steps = chain (sort_by_step_order steps)

unfoldable pub resolve_template_dependencies :
    List TemplateStep → List TemplateDependencyEdge → List TemplateDependencyEdge
unfolding build_implicit_template_dependencies
resolve_template_dependencies steps [] = build_implicit_template_dependencies steps
resolve_template_dependencies steps (e ∷ explicit) = e ∷ explicit

-- A `Map` whose keys are ids.
abbrev pub IdMap {ℓ} : Type ℓ → Type ℓ
IdMap V = ℕ → Option V

-- `map.set(id, value)`
abbrev pub set {ℓ} : {V : Type ℓ} → ℕ → V → IdMap V → IdMap V
set i v m j = if i == j then some v else m j

-- `new Map(entries)`: a later entry replaces an earlier one.
abbrev pub from_entries {ℓ} : {V : Type ℓ} → List (ℕ × V) → IdMap V → IdMap V
from_entries [] m = m
from_entries ((i, v) ∷ es) m = from_entries es (set i v m)

-- An edge is kept when both of its steps have a task.
abbrev pub edge_of :
    Option ℕ → Option ℕ → TemplateDependencyEdge → List TaskDependencyEdge → List TaskDependencyEdge
edge_of none _ dep edges = edges
edge_of (some _) none dep edges = edges
edge_of (some task) (some prerequisite) dep edges =
    record {
      task_id = task;
      depends_on_task_id = prerequisite;
      dependency_type = dep.dependency_type;
    }
    ∷ edges

unfoldable pub map_template_dependencies_to_tasks :
    List TemplateDependencyEdge → IdMap ℕ → List TaskDependencyEdge
map_template_dependencies_to_tasks [] task_of = []
map_template_dependencies_to_tasks (dep ∷ deps) task_of =
    edge_of (task_of dep.workflow_template_step_id) (task_of dep.depends_on_step_id) dep
      (map_template_dependencies_to_tasks deps task_of)

-- The callback of `incoming.every`.
abbrev pub edge_met : IdMap TaskStatus → TaskDependencyEdge → Bool
edge_met statuses dep = elim (statuses dep.depends_on_task_id) [
  | none ↦ false
  | some s ↦ is_task_dependency_satisfied dep.dependency_type s
]

abbrev pub every_met : IdMap TaskStatus → List TaskDependencyEdge → Bool
every_met statuses [] = true
every_met statuses (dep ∷ incoming) = edge_met statuses dep && all (edge_met statuses) incoming

unfoldable pub are_task_dependencies_met : ℕ → List TaskDependencyEdge → IdMap TaskStatus → Bool
are_task_dependencies_met task deps statuses =
    every_met statuses (filter (λ (d : TaskDependencyEdge). d.task_id == task) deps)

-- interface TaskRef
pub record TaskRef : Type 0 where
  pub id : ℕ
  pub template_step_id : ℕ

abbrev pub is_dormant : TaskStatus → Bool
is_dormant s = s === blocked || s === waiting || s === pending

-- Whether the loop of `resolveReadyTaskIds` pushes a task of this status.
abbrev pub becomes_ready : Bool → Option TaskStatus → Bool → Bool
becomes_ready only_blocked none met = false
becomes_ready only_blocked (some s) met = if only_blocked && not (is_dormant s) then false else met

unfoldable pub resolve_ready_task_ids :
    List TaskRef → List TaskDependencyEdge → IdMap TaskStatus → Bool → List ℕ
resolve_ready_task_ids [] deps statuses only_blocked = []
resolve_ready_task_ids (task ∷ tasks) deps statuses only_blocked =
    let ready = resolve_ready_task_ids tasks deps statuses only_blocked in
    if becomes_ready only_blocked (statuses task.id)
      (are_task_dependencies_met task.id deps statuses)
    then task.id ∷ ready
    else ready
