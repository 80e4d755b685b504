-- ===== src/Workflow/Engine/Advance/Completion.antt =====
-- When `advance` completes the workflow.
use geeta_backend.Common.{
  ◌⊎◌, ℕ, Bool, true, false, List, some, ◌≡◌, refl, arith, ◌==◌, Bool-cases, inl, inr, ◌∙◌, ap, sym,
  map, all, if◌then◌else◌, and_true,
}
use mathlib.Core.Path.{subst}
use geeta_backend.Common.Result.{ok}
use geeta_backend.Workflow.TaskStatus.{TaskStatus}
use geeta_backend.Workflow.InstanceStatus.{InstanceStatus}
use geeta_backend.Workflow.Store.{Store, Task, Instance, tasks_of, update_task}
use geeta_backend.Workflow.Store.Updates.{UniqueIds}
use geeta_backend.Workflow.Store.Keys.{all-map, tasks_of-map, on_row, on_row-KeepsKeys}
use geeta_backend.Workflow.Dependency.{is_dormant}
use geeta_backend.Workflow.Engine.Types.{AdvanceInput, AdvanceResult}
use geeta_backend.Workflow.Engine.Advance.{
  advance_tx, close_task, settle_instance, Settled, is_task_terminal_for_completion, all_complete,
  resolve_advance_target_status,
}
use geeta_backend.Workflow.Engine.Advance.Inversion.{
  Accepted-task_id, Accepted-instance_id, advance_tx-inv, advance_task-inv, finished, newly_ready,
}
use geeta_backend.Workflow.Engine.Advance.TaskEffect.{
  advanced, becomes_free, advance_tx-tasks, advanced-KeepsKeys, close_task-KeepsKeys,
}
use geeta_backend.Workflow.Engine.Advance.Final.{close_task-status}

settle_instance-completed :
    (now : ℕ) (i : Instance) (complete : Bool) (ids : List ℕ) {x : Settled}
    → settle_instance now i complete ids ≡ ok x
    → x.1 ≡ complete
unfolding settle_instance
settle_instance-completed now i complete ids h = ground arith

settle_instance_row :
    (now : ℕ) (i : Instance) (ids : List ℕ) {x : Settled}
    → settle_instance now i true ids ≡ ok x
    → (x.0.status ≡ InstanceStatus.completed) × (x.0.completed_at ≡ some now)
unfolding settle_instance
settle_instance_row now i ids h = ground arith

-- The row counts as done: `isTaskTerminalForCompletion` at its own status.
abbrev pub is_closed : Task → Bool
is_closed t = is_task_terminal_for_completion t t.status

-- The same test while the row `i` counts as having the status `target`.
abbrev pub closed_as : ℕ → TaskStatus → Task → Bool
closed_as i target t = is_task_terminal_for_completion t (if t.id == i then target else t.status)

dormant_open :
    (t x : Task) → is_dormant t.status ≡ true → is_task_terminal_for_completion x t.status ≡ false
dormant_open t x h = ground arith

terminal_for_status :
    (t : Task) {a b : TaskStatus}
    → a ≡ b
    → is_task_terminal_for_completion t a ≡ is_task_terminal_for_completion t b
terminal_for_status t p = ap (is_task_terminal_for_completion t) p

module _ (now : ℕ) (input : AdvanceInput) (s : Store) where
  abbrev pub target : TaskStatus
  target = resolve_advance_target_status input.action

  abbrev pub closing : Task → Task
  closing = on_row input.task_id (close_task now input)

  closed_as-advanced :
      (t : Task) → closed_as input.task_id target (closing t) ≡ is_closed (advanced now input s t)
  closed_as-advanced t = elim (Bool-cases (t.id == input.task_id)) [
    | inl e ↦
        rw (e, (close_task-KeepsKeys now input).id t, e)
          (terminal_for_status (close_task now input t) (sym (close_task-status now input t)))
    | inr e ↦ elim (Bool-cases (becomes_free input s t)) [
      | inl free ↦ rw (e, e, free) (dormant_open t t (and_true _ _ (and_true _ _ free).1).0)
      | inr kept ↦ rw (e, e, kept)
    ]
  ]

  all_complete-advanced :
      (ts : List Task)
      → all_complete input.task_id target (
          tasks_of input.workflow_instance_id (update_task input.task_id (close_task now input) ts))
        ≡ all is_closed (tasks_of input.workflow_instance_id (map (advanced now input s) ts))
  unfolding all_complete
  all_complete-advanced ts =
      rw
        (tasks_of-map closing (on_row-KeepsKeys _ _ (close_task-KeepsKeys now input))
          input.workflow_instance_id ts)
        (rw
          (tasks_of-map (advanced now input s) (advanced-KeepsKeys now input s)
            input.workflow_instance_id ts)
          (all-map (closed_as input.task_id target) _ closing closed_as-advanced _
            ∙ sym (all-map is_closed _ (advanced now input s) (λ t. refl) _)))

  -- When task ids are distinct, an `advance` that returns reports the workflow completed exactly if
  -- each task of the instance then counts as done, and if it does it reports the status COMPLETED.
  pub advance_tx-completed :
      {r : AdvanceResult} {s' : Store}
      → UniqueIds s.tasks
      → advance_tx now input s ≡ ok (r, s')
      → (r.workflow_completed ≡ all is_closed (tasks_of input.workflow_instance_id s'.tasks))
        × ((r.workflow_completed ≡ false) ⊎ (r.workflow_status ≡ InstanceStatus.completed))
  advance_tx-completed {r} {s'} u h =
      let (a, done) = advance_tx-inv now input s h in
      let o = advance_task-inv now input a.instance a.task s done in
      let is_finished : o.settled.1 ≡ finished now input a.instance a.task s =
        settle_instance-completed now a.instance _ _ o.settles in
      (
        o.completed
            ∙ (is_finished
                ∙ (rw (Accepted-task_id a, Accepted-instance_id a) (all_complete-advanced s.tasks)
                    ∙ ap (λ ts. all is_closed (tasks_of input.workflow_instance_id ts))
                        (sym (advance_tx-tasks now input s u h)))),
        elim (Bool-cases r.workflow_completed) [
          | inr open_ ↦ inl open_
          | inl c ↦ inr (
              o.status
              ∙ (settle_instance_row now a.instance _ (
                  subst
                    (λ b.
                      settle_instance now a.instance b (newly_ready now input a.instance a.task s)
                      ≡ ok o.settled)
                    (sym is_finished ∙ (sym o.completed ∙ c)) o.settles)).0)
        ],
      )
