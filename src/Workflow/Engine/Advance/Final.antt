-- ===== src/Workflow/Engine/Advance/Final.antt =====
-- A finished task stays finished: `advance` never changes the status of one.
use geeta_backend.Common.{
  Option, none, String, and_false, ==_iff, ℕ, true, false, some, ◌≡◌, refl, arith, ◌==◌, Bool-cases,
  inl, inr, ◌∙◌, sym,
}
use mathlib.Core.Path.{subst}
use geeta_backend.Common.Result.{ok}
use geeta_backend.Workflow.TaskStatus.{TaskStatus, is_task_terminal, assert_task_transition}
use geeta_backend.Workflow.Skip.{truthy}
use geeta_backend.Workflow.Store.{Store, Task, with_remarks}
use geeta_backend.Workflow.Store.Updates.{UniqueIds, some_eq}
use geeta_backend.Workflow.Store.Keys.{row, row-map, row_of-row}
use geeta_backend.Workflow.Dependency.{is_dormant}
use geeta_backend.Workflow.Engine.Types.{AdvanceInput, AdvanceResult}
use geeta_backend.Workflow.Engine.Advance.{advance_tx, close_task, resolve_advance_target_status}
use geeta_backend.Workflow.Engine.Advance.Inversion.{Accepted, advance_tx-inv}
use geeta_backend.Workflow.Engine.Advance.TaskEffect.{
  advanced, advance_tx-tasks, advanced-KeepsKeys,
}

-- From a final status the table allows only to stay.
pub terminal_absorbs :
    (from to : TaskStatus)
    → is_task_terminal from ≡ true
    → assert_task_transition from to ≡ ok tt
    → from ≡ to
unfolding assert_task_transition
terminal_absorbs from to h a = ground arith

with_remarks-status : (r : Option String) (t : Task) → (with_remarks r t).status ≡ t.status
with_remarks-status none t = refl
with_remarks-status (some r) t = elim (Bool-cases (truthy r)) [ inl e ↦ rw e | inr e ↦ rw e ]

pub close_task-status :
    (now : ℕ) (input : AdvanceInput) (t : Task)
    → (close_task now input t).status ≡ resolve_advance_target_status input.action
close_task-status now input t = with_remarks-status input.remarks _

dormant_final : (st : TaskStatus) → is_task_terminal st ≡ true → is_dormant st ≡ false
dormant_final st h = ground arith

module _ (now : ℕ) (input : AdvanceInput) (s : Store) (u : UniqueIds s.tasks) where
  advanced-status_closed :
      (a : Accepted input s) (t : Task)
      → row t.id s.tasks ≡ some t
      → is_task_terminal t.status ≡ true
      → (t.id == input.task_id) ≡ true
      → (close_task now input t).status ≡ t.status
  advanced-status_closed a t h final e =
      let found : row t.id s.tasks ≡ some a.task =
        subst (λ i. row i s.tasks ≡ some a.task) (sym ((==_iff _ _).0 e))
          (row_of-row input.workflow_instance_id input.task_id s.tasks u a.found_task) in
      let p : a.task ≡ t = some_eq (sym found ∙ h) in
      close_task-status now input t
      ∙ sym (
          terminal_absorbs t.status _ final (
            subst
              (λ (x : Task).
                assert_task_transition x.status (resolve_advance_target_status input.action)
                ≡ ok tt)
              p a.allowed))

  advanced-status_final :
      (a : Accepted input s) (t : Task)
      → row t.id s.tasks ≡ some t
      → is_task_terminal t.status ≡ true
      → (advanced now input s t).status ≡ t.status
  advanced-status_final a t h final = elim (Bool-cases (t.id == input.task_id)) [
    | inl e ↦ rw e (advanced-status_closed a t h final e)
    | inr e ↦ rw (e, dormant_final t.status final, and_false)
  ]

  -- When task ids are distinct, every task in a final status is still there, in the same status, after
  -- an `advance` that returns, whichever task it was called for.
  pub advance_tx-keeps_final :
      {r : AdvanceResult} {s' : Store}
      → advance_tx now input s ≡ ok (r, s')
      → (t : Task) → row t.id s.tasks ≡ some t
      → is_task_terminal t.status ≡ true
      → (t' : Task) × (row t.id s'.tasks ≡ some t') × (t'.status ≡ t.status)
  advance_tx-keeps_final h t found final = (
    advanced now input s t,
    rw (advance_tx-tasks now input s u h)
        (row-map (advanced now input s) ((advanced-KeepsKeys now input s).id) t.id s.tasks found),
    advanced-status_final (advance_tx-inv now input s h).0 t found final,
  )
