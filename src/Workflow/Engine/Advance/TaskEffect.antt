-- ===== src/Workflow/Engine/Advance/TaskEffect.antt =====
-- What `advance` does to each row of the tasks.
use geeta_backend.Common.{
  ℕ, Bool, true, false, not, ◌&&◌, Option, String, none, some, List, map, elem, ◌==◌, ◌≡◌, refl,
  arith, if◌then◌else◌, Bool-cases, inl, inr, ap, ◌∙◌, ==_sym, and_false,
}
use mathlib.Core.Path.{fun_ext, ap₂}
use geeta_backend.Common.Result.{ok}
use geeta_backend.Workflow.TaskStatus.{TaskStatus}
use geeta_backend.Workflow.Skip.{truthy}
use geeta_backend.Workflow.Store.{
  Store, Task, tasks_of, with_remarks, update_task, TaskDependencyEdge,
}
use geeta_backend.Workflow.Store.Updates.{
  UniqueIds, make_ready, map-map, update_task_statuses-ready, map_ext,
}
use geeta_backend.Workflow.Store.Keys.{
  KeepsKeys, ids_of, row, row_of, row_self, status_or, from_entries-tasks_of, elem-tasks_of,
  ids_of-map, map-UniqueIds, tasks_of-map, on_row, on_row-KeepsKeys, row_of-update_ne, row_of_mine,
}
use geeta_backend.Workflow.Dependency.{
  IdMap, TaskRef, is_dormant, becomes_ready, are_task_dependencies_met, resolve_ready_task_ids,
}
use geeta_backend.Workflow.Dependency.Ready.{elem-resolve_ready_task_ids}
use geeta_backend.Workflow.Engine.Types.{AdvanceInput, AdvanceResult}
use geeta_backend.Workflow.Engine.Advance.{
  advance_tx, close_task, resolve_advance_target_status, status_by_task_id, task_ref,
}
use geeta_backend.Workflow.Engine.Advance.Inversion.{
  Accepted, Outcome, advance_tx-inv, advance_task-inv, newly_ready, Accepted-task_id,
  Accepted-instance_id,
}

pub with_remarks-KeepsKeys : (r : Option String) → KeepsKeys (with_remarks r)
with_remarks-KeepsKeys none = record { id = λ t. refl; workflow_instance_id = λ t. refl }
with_remarks-KeepsKeys (some r) = elim (Bool-cases (truthy r)) [
  | inl e ↦ record { id = λ t. rw e; workflow_instance_id = λ t. rw e }
  | inr e ↦ record { id = λ t. rw e; workflow_instance_id = λ t. rw e }
]

pub close_task-KeepsKeys : (now : ℕ) (input : AdvanceInput) → KeepsKeys (close_task now input)
close_task-KeepsKeys now input =
    let k = with_remarks-KeepsKeys input.remarks in
    record { id = λ t. k.id _; workflow_instance_id = λ t. k.workflow_instance_id _ }

gate : (d m : Bool) → ((if true && not d then false else m) && true) ≡ (true && (d && m))
gate d m = ground arith

-- The status of a row of the instance once the task `i` has the status `target`.
abbrev pub status_after : ℕ → ℕ → TaskStatus → List Task → IdMap TaskStatus
status_after w i target ts j = if i == j then some target else status_or (row_of w j ts) none

module _ (w i : ℕ) (target : TaskStatus) (f : Task → Task) (k : KeepsKeys f) (ts : List Task)
    (u : UniqueIds ts) where
  status_by_task_id_at :
      (j : ℕ)
      → status_by_task_id (tasks_of w (update_task i f ts)) i target j
        ≡ status_after w i target ts j
  unfolding status_by_task_id
  status_by_task_id_at j = elim (Bool-cases (i == j)) [
    | inl e ↦ rw e
    | inr e ↦ rw e (
        from_entries-tasks_of w (update_task i f ts) (λ _. none) j
          (map-UniqueIds (on_row i f) (on_row-KeepsKeys i f k) ts u)
        ∙ ap (λ o. status_or o none) (row_of-update_ne w i j f k ts e))
  ]

  status_by_task_id_lem :
      status_by_task_id (tasks_of w (update_task i f ts)) i target ≡ status_after w i target ts
  status_by_task_id_lem = fun_ext status_by_task_id_at

  ids_of-tasks_of :
      map (λ (r : TaskRef). r.id) (map task_ref (tasks_of w (update_task i f ts)))
      ≡ ids_of (tasks_of w ts)
  ids_of-tasks_of =
      map-map (λ (r : TaskRef). r.id) task_ref _
      ∙ (ap ids_of (tasks_of-map (on_row i f) (on_row-KeepsKeys i f k) w ts)
          ∙ ids_of-map (on_row i f) (on_row-KeepsKeys i f k) (tasks_of w ts))

  module _ (deps : List TaskDependencyEdge) where
    abbrev set_free : List ℕ
    set_free =
        resolve_ready_task_ids (map task_ref (tasks_of w (update_task i f ts))) deps
          (status_by_task_id (tasks_of w (update_task i f ts)) i target) true

    abbrev met : ℕ → Bool
    met j = are_task_dependencies_met j deps (status_after w i target ts)

    -- A row of the table is set free exactly if it belongs to the instance and passes the tests.
    elem-set_free :
        (t : Task)
        → row t.id ts ≡ some t
        → elem t.id set_free ≡ (
            becomes_ready true (status_after w i target ts t.id) (met t.id)
            && (t.workflow_instance_id == w))
    elem-set_free t h =
        elem-resolve_ready_task_ids _ deps _ true t.id
        ∙ rw (status_by_task_id_lem, ids_of-tasks_of)
            (ap (λ b. becomes_ready true (status_after w i target ts t.id) (met t.id) && b)
              (elem-tasks_of w ts t u h))

    -- A row that is not the closed one.
    elem-set_free_other :
        (t : Task)
        → row t.id ts ≡ some t
        → (t.id == i) ≡ false
        → elem t.id set_free ≡ (t.workflow_instance_id == w && (is_dormant t.status && met t.id))
    elem-set_free_other t h ne = elim (Bool-cases (t.workflow_instance_id == w)) [
      | inl mine ↦
          elem-set_free t h
          ∙ rw (mine, ==_sym i t.id ∙ ne, row_of_mine w ts t h mine)
              (gate (is_dormant t.status) (met t.id))
      | inr other ↦ elem-set_free t h ∙ rw other (and_false _)
    ]

    -- The closed row stays closed.
    elem-set_free_closed :
        (t : Task)
        → row t.id ts ≡ some t
        → (t.id == i) ≡ true
        → is_dormant target ≡ false
        → elem t.id set_free ≡ false
    elem-set_free_closed t h e final = elem-set_free t h ∙ rw (==_sym i t.id ∙ e, final)

-- What the call does to a row: it closes the task that it names, makes READY each dormant task of
-- the instance whose prerequisites are then satisfied, and leaves every other row.
abbrev pub target_of : AdvanceInput → TaskStatus
target_of input = resolve_advance_target_status input.action

abbrev pub becomes_free : AdvanceInput → Store → Task → Bool
becomes_free input s t =
    t.workflow_instance_id == input.workflow_instance_id
    && (is_dormant t.status
        && are_task_dependencies_met t.id s.dependencies
            (status_after input.workflow_instance_id input.task_id (target_of input) s.tasks))

abbrev pub advanced : ℕ → AdvanceInput → Store → Task → Task
advanced now input s t =
    if t.id == input.task_id
    then close_task now input t
    else if becomes_free input s t
    then make_ready now t
    else t

pub advanced-KeepsKeys :
    (now : ℕ) (input : AdvanceInput) (s : Store) → KeepsKeys (advanced now input s)
advanced-KeepsKeys now input s = record {
  id = λ t. elim (Bool-cases (t.id == input.task_id)) [
    | inl e ↦ rw e ((close_task-KeepsKeys now input).id t)
    | inr e ↦ elim (Bool-cases (becomes_free input s t)) [
      | inl free ↦ rw (e, free)
      | inr kept ↦ rw (e, kept)
    ]
  ];
  workflow_instance_id = λ t. elim (Bool-cases (t.id == input.task_id)) [
    | inl e ↦ rw e ((close_task-KeepsKeys now input).workflow_instance_id t)
    | inr e ↦ elim (Bool-cases (becomes_free input s t)) [
      | inl free ↦ rw (e, free)
      | inr kept ↦ rw (e, kept)
    ]
  ];
}

final_target : (input : AdvanceInput) → is_dormant (target_of input) ≡ false
final_target input = ground arith

module _ (now : ℕ) (input : AdvanceInput) (s : Store) (u : UniqueIds s.tasks) where
  abbrev free_ids : List ℕ
  free_ids =
      set_free input.workflow_instance_id input.task_id (target_of input) (close_task now input)
        (close_task-KeepsKeys now input) s.tasks u s.dependencies

  advanced-row :
      (t : Task)
      → row t.id s.tasks ≡ some t
      → (if elem (on_row input.task_id (close_task now input) t).id free_ids
          then make_ready now (on_row input.task_id (close_task now input) t)
          else on_row input.task_id (close_task now input) t)
        ≡ advanced now input s t
  advanced-row t h = elim (Bool-cases (t.id == input.task_id)) [
    | inl e ↦ rw (
      e,
      (close_task-KeepsKeys now input).id t,
      elem-set_free_closed input.workflow_instance_id input.task_id (target_of input)
          (close_task now input) (close_task-KeepsKeys now input) s.tasks u s.dependencies t h e
          (final_target input),
    )
    | inr e ↦ rw (
      e,
      elem-set_free_other input.workflow_instance_id input.task_id (target_of input)
          (close_task now input) (close_task-KeepsKeys now input) s.tasks u s.dependencies t h e,
    )
  ]

  passes : List ℕ → ℕ → List Task
  passes ids i =
      map (λ (t : Task). if elem t.id ids then make_ready now t else t)
        (update_task i (close_task now input) s.tasks)

  passes-advanced : passes free_ids input.task_id ≡ map (advanced now input s) s.tasks
  unfolding passes
  passes-advanced =
      map-map _ _ s.tasks
      ∙ map_ext (λ (t : Task). row t.id s.tasks ≡ some t) _ _ advanced-row s.tasks
          (row_self s.tasks u)

  free_ids_lem : (a : Accepted input s) → newly_ready now input a.instance a.task s ≡ free_ids
  free_ids_lem a = rw (Accepted-task_id a, Accepted-instance_id a)

  -- When task ids are distinct, an `advance` that returns leaves every row of the task table, in
  -- order, as `advanced` says: the task is closed with the target status, a dormant task of the same
  -- instance whose dependencies are then met becomes READY, and any other row is unchanged.
  pub advance_tx-tasks :
      {r : AdvanceResult} {s' : Store}
      → advance_tx now input s ≡ ok (r, s')
      → s'.tasks ≡ map (advanced now input s) s.tasks
  unfolding passes
  advance_tx-tasks {r} {s'} h =
      let (a, done) = advance_tx-inv now input s h in
      let o : Outcome now input a.instance a.task s r s' =
        advance_task-inv now input a.instance a.task s done in
      o.tasks
      ∙ (update_task_statuses-ready now _ _
          ∙ (ap₂ passes (free_ids_lem a) (Accepted-task_id a) ∙ passes-advanced))
