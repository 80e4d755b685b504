-- ===== src/Workflow/Engine/Create/Rows.antt =====
-- The task rows that `createForProductionOrder` of modules/workflow/workflow.engine.ts leaves.
use geeta_backend.Common.{
  ℕ, ◌≢◌, true, none, some, List, ◌++◌, map, elem, All, if◌then◌else◌, ◌≡◌, ◌↔◌,
}
use geeta_backend.Common.Result.{ok}
use geeta_backend.Workflow.TaskStatus.{TaskStatus}
use geeta_backend.Workflow.Skip.{TextOps}
use geeta_backend.Workflow.Store.{Store, Template, Task}
use geeta_backend.Workflow.Store.Updates.{make_ready}
use geeta_backend.Workflow.Dependency.{IdMap, from_entries}
use geeta_backend.Workflow.Dependency.Ready.{MayStart}
use geeta_backend.Workflow.Engine.Create.{
  CreateInput, CreationResult, NewIds, created_tasks, created_dependencies, skipped_step_ids,
  mark_skipped, task_ids, resolve_template_for_product_version,
}
use geeta_backend.Workflow.Engine.Create.Outcome.{Created}

abbrev pub make_skipped : ℕ → Task → Task
make_skipped now t = record t { status = TaskStatus.skipped; completed_at = some now }

-- What becomes of a generated row: SKIPPED when its step is, READY when it may start.
abbrev pub final_row : ℕ → List ℕ → List ℕ → Task → Task
final_row now skipped ready t =
    let marked = if elem t.workflow_step.id skipped then make_skipped now t else t in
    if elem t.id ready then make_ready now marked else marked

-- The database gives every row an id of its own.
pub record FreshIds (ids : NewIds) (tasks : List Task) : Type 0 where
  pub distinct : (i j : ℕ) → ids.task_id i ≡ ids.task_id j → i ≡ j
  pub unused : All (λ (t : Task). (n : ℕ) → t.id ≢ ids.task_id n) tasks

-- The two updates of `create_from_template`, as one pass over the table.
abbrev both_updates : ℕ → List ℕ → List ℕ → Task → Task
both_updates now auto ready t =
    let marked = if elem t.id auto then make_skipped now t else t in
    if elem t.id ready then make_ready now marked else marked

-- The statuses of the new tasks when the dependency engine looks at them.
abbrev pub initial_statuses : List ℕ → List Task → IdMap TaskStatus
initial_statuses skipped created =
    from_entries (map (λ (t : Task). (t.id, t.status)) (mark_skipped skipped created)) (λ _. none)

-- What `createForProductionOrder` has made when it returns, its task rows included.
pub record CreatedRows (ops : TextOps) (now : ℕ) (ids : NewIds) (input : CreateInput) (s s' : Store)
    (r : CreationResult) : Type 0 where
  pub made : Created ops ids input s s' r
  pub template : Template
  pub resolved :
      resolve_template_for_product_version input.product_offering_version_id s ≡ ok template
  pub tasks :
      s'.tasks
      ≡ s.tasks
        ++ map
            (final_row now (skipped_step_ids ops input template) r.ready_task_ids)
            (created_tasks ids template)
  pub ready :
      (i : ℕ)
      → (elem i r.ready_task_ids ≡ true) ↔ (
          (elem i (task_ids (created_tasks ids template)) ≡ true)
          × MayStart
              (created_dependencies ids template)
              (initial_statuses (skipped_step_ids ops input template) (created_tasks ids template))
              true
              i)
