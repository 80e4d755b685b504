-- ===== src/Workflow/Engine/Advance/Stuck.antt =====
-- A workflow that `advance` can never move: INITIALIZED, with every task skipped.
use geeta_backend.Common.{
  ℕ, Bool, true, List, [], ◌∷◌, some, ◌≡◌, refl, arith, ◌==◌, Bool-cases, inl, inr, ◌∙◌, ap, sym,
  all, and_false, and_true,
}
use mathlib.Core.Path.{subst}
use geeta_backend.Common.Result.{ok}
use geeta_backend.Workflow.TaskStatus
use geeta_backend.Workflow.TaskStatus.{TaskStatus, is_task_terminal, assert_task_transition}
use geeta_backend.Workflow.InstanceStatus.{InstanceStatus, assert_workflow_instance_transition}
use geeta_backend.Workflow.Store.{Store, Task, Instance, tasks_of, find_instance}
use geeta_backend.Workflow.Store.Updates.{some_eq}
use geeta_backend.Workflow.Store.Keys.{all-map, tasks_of-map, on_row-KeepsKeys, row_of}
use geeta_backend.Workflow.Engine.Types.{AdvanceInput, AdvanceResult}
use geeta_backend.Workflow.Engine.Advance.{
  advance_tx, settle_instance, Settled, all_complete, resolve_advance_target_status,
}
use geeta_backend.Workflow.Engine.Advance.Inversion.{
  Accepted, Accepted-task_id, Accepted-instance_id, advance_tx-inv, advance_task-inv, finished,
  newly_ready,
}
use geeta_backend.Workflow.Engine.Advance.TaskEffect.{close_task-KeepsKeys}
use geeta_backend.Workflow.Engine.Advance.Final.{terminal_absorbs}
use geeta_backend.Workflow.Engine.Advance.Completion.{closed_as, target, closing}

settle_instance_initialized :
    (now : ℕ) (i : Instance) (ids : List ℕ) {x : Settled}
    → i.status ≡ InstanceStatus.initialized
    → ¬ (settle_instance now i true ids ≡ ok x)
unfolding settle_instance assert_workflow_instance_transition
settle_instance_initialized now i ids e h = ground arith

-- The row has the status SKIPPED.
abbrev pub is_skipped : Task → Bool
is_skipped t = TaskStatus.◌===◌ t.status TaskStatus.skipped

row_of-all :
    (p : Task → Bool) (w i : ℕ) (ts : List Task) {t : Task}
    → row_of w i ts ≡ some t
    → all p (tasks_of w ts) ≡ true
    → p t ≡ true
row_of-all p w i [] h a = cc
row_of-all p w i (y ∷ ts) h a = elim (Bool-cases (y.workflow_instance_id == w)) [
  | inl mine ↦
      let both = and_true (p y) _ (rw mine at a) in
      elim (Bool-cases (y.id == i)) [
        | inl e ↦ subst (λ z. p z ≡ true) (some_eq (rw (e, mine) at h)) both.0
        | inr e ↦ row_of-all p w i ts (rw e at h) both.1
      ]
  | inr other ↦ row_of-all p w i ts (rw (other, and_false) at h) (rw other at a)
]

all-all :
    (p q : Task → Bool)
    → ((t : Task) → p t ≡ true → q t ≡ true)
    → (ts : List Task) → all p ts ≡ true
    → all q ts ≡ true
all-all p q f [] h = refl
all-all p q f (t ∷ ts) h =
    let both = and_true (p t) _ h in rw (f t both.0) (all-all p q f ts both.1)

skipped_only : (t : Task) → is_skipped t ≡ true → t.status ≡ TaskStatus.skipped
skipped_only t h = ground arith

module _ (now : ℕ) (input : AdvanceInput) (s : Store) {instance : Instance}
    (found : find_instance input.workflow_instance_id s ≡ some instance)
    (fresh : instance.status ≡ InstanceStatus.initialized)
    (skipped : all is_skipped (tasks_of input.workflow_instance_id s.tasks) ≡ true) where
  skip_only :
      (a : Accepted input s) → resolve_advance_target_status input.action ≡ TaskStatus.skipped
  skip_only a =
      let was : a.task.status ≡ TaskStatus.skipped =
        skipped_only a.task (row_of-all is_skipped _ _ s.tasks a.found_task skipped) in
      sym (terminal_absorbs _ _ (rw was) a.allowed) ∙ was

  skipped-closed :
      (a : Accepted input s) (t : Task)
      → is_skipped t ≡ true
      → closed_as input.task_id (target now input s) (closing now input s t) ≡ true
  skipped-closed a t h = elim (Bool-cases (t.id == input.task_id)) [
    | inl e ↦ rw (e, (close_task-KeepsKeys now input).id t, e, skip_only a)
    | inr e ↦ rw (e, e, skipped_only t h)
  ]

  all_skipped-finished : (a : Accepted input s) → finished now input a.instance a.task s ≡ true
  unfolding all_complete
  all_skipped-finished a =
      rw (Accepted-task_id a, Accepted-instance_id a)
        (rw
          (tasks_of-map (closing now input s)
            (on_row-KeepsKeys _ _ (close_task-KeepsKeys now input)) input.workflow_instance_id
            s.tasks)
          (all-map (closed_as input.task_id (target now input s))
              (λ t. closed_as input.task_id (target now input s) (closing now input s t))
              (closing now input s) (λ t. refl) (tasks_of input.workflow_instance_id s.tasks)
            ∙ all-all is_skipped
                (λ t. closed_as input.task_id (target now input s) (closing now input s t))
                (skipped-closed a) (tasks_of input.workflow_instance_id s.tasks) skipped))

  -- On a workflow that is INITIALIZED with every task SKIPPED, no call of `advance` returns, whatever
  -- the task and the action.
  pub all_skipped-stuck : ¬ ((r : AdvanceResult × Store) × (advance_tx now input s ≡ ok r))
  all_skipped-stuck (r, h) =
      let (a, done) = advance_tx-inv now input s h in
      let o = advance_task-inv now input a.instance a.task s {r = r.0} {s' = r.1} done in
      settle_instance_initialized now a.instance _
        (ap (λ (x : Instance). x.status) (some_eq (sym a.found ∙ found)) ∙ fresh)
        (subst
          (λ b.
            settle_instance now a.instance b (newly_ready now input a.instance a.task s)
            ≡ ok o.settled)
          (all_skipped-finished a) o.settles)
