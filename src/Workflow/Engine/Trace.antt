-- ===== src/Workflow/Engine/Trace.antt =====
-- Runs of modules/workflow/workflow.engine.ts: any number of calls of `advance` and
-- `cancelInstance` that return, on any workflows and in any order. A call that throws changes
-- nothing, since its transaction is rolled back.
use geeta_backend.Common.{ℕ, true, some, ◌≡◌, refl, sym, ==_iff, inl, inr, ◌==◌, and_false}
use mathlib.Core.Path.{subst}
use geeta_backend.Common.Result.{ok}
use geeta_backend.Workflow.TaskStatus.{TaskStatus, is_task_terminal}
use geeta_backend.Workflow.Store.{Store, Task}
use geeta_backend.Workflow.Store.Updates.{UniqueIds, find_first-holds}
use geeta_backend.Workflow.Store.Keys.{row, map-UniqueIds, row-map}
use geeta_backend.Workflow.Engine.Types.{AdvanceInput, AdvanceResult}
use geeta_backend.Workflow.Engine.Advance.{advance_tx}
use geeta_backend.Workflow.Engine.Advance.TaskEffect.{
  advanced, advance_tx-tasks, advanced-KeepsKeys,
}
use geeta_backend.Workflow.Engine.Advance.Final.{advance_tx-keeps_final}
use geeta_backend.Workflow.Engine.Cancel.{CancelInput, CancelResult, cancel_instance}
use geeta_backend.Workflow.Engine.Cancel.Settled.{
  cancelled, cancelled-KeepsKeys, cancel_instance-tasks,
}

-- One call that returns, at its own time.
pub data Step : Store → Store → Type 0 where
  advances :
      (now : ℕ) (input : AdvanceInput) {r : AdvanceResult} {s s' : Store}
      → advance_tx now input s ≡ ok (r, s')
      → Step s s'
  cancels :
      (now : ℕ) (input : CancelInput) {r : CancelResult} {s s' : Store}
      → cancel_instance now input s ≡ ok (r, s')
      → Step s s'

pub data Run : Store → Store → Type 0 where
  done : {s : Store} → Run s s
  then : {s s' s'' : Store} → Step s s' → Run s' s'' → Run s s''

-- The store has a task of the id, with the status.
abbrev pub KeptIn : ℕ → TaskStatus → Store → Type 0
KeptIn i st s = (t : Task) × (row i s.tasks ≡ some t) × (t.status ≡ st)

cancelled-final :
    (now w : ℕ) (t : Task)
    → is_task_terminal t.status ≡ true
    → (cancelled now w t).status ≡ t.status
cancelled-final now w t final = rw (final, and_false (t.workflow_instance_id == w)) refl

Step-UniqueIds : {s s' : Store} → Step s s' → UniqueIds s.tasks → UniqueIds s'.tasks
Step-UniqueIds (advances now input {s = s} h) u =
    subst UniqueIds (sym (advance_tx-tasks now input s u h))
      (map-UniqueIds (advanced now input s) (advanced-KeepsKeys now input s) s.tasks u)
Step-UniqueIds (cancels now input {s = s} h) u = elim (cancel_instance-tasks now input s u h) [
  | inl same ↦ subst UniqueIds (sym same) u
  | inr all_of ↦ subst UniqueIds (sym all_of) (
      map-UniqueIds (cancelled now input.workflow_instance_id)
        (cancelled-KeepsKeys now input.workflow_instance_id) s.tasks u)
]

Step-keeps_row :
    {s s' : Store}
    → Step s s'
    → UniqueIds s.tasks
    → (t : Task) → row t.id s.tasks ≡ some t
    → is_task_terminal t.status ≡ true
    → KeptIn t.id t.status s'
Step-keeps_row (advances now input {s = s} h) u t found final =
    advance_tx-keeps_final now input s u h t found final
Step-keeps_row (cancels now input {s = s} h) u t found final =
    elim (cancel_instance-tasks now input s u h) [
      | inl same ↦ (t, rw same found, refl)
      | inr all_of ↦ (
        cancelled now input.workflow_instance_id t,
        rw all_of (
            row-map (cancelled now input.workflow_instance_id)
              ((cancelled-KeepsKeys now input.workflow_instance_id).id) t.id s.tasks found),
        cancelled-final now input.workflow_instance_id t final,
      )
    ]

Step-keeps_final :
    {s s' : Store}
    → Step s s'
    → UniqueIds s.tasks
    → (i : ℕ) (st : TaskStatus) → is_task_terminal st ≡ true
    → KeptIn i st s
    → KeptIn i st s'
Step-keeps_final {s} {s'} step u i st final (t, found, same) =
    let p : t.id ≡ i = (==_iff _ _).0 (find_first-holds (λ (x : Task). x.id == i) s.tasks found) in
    subst (λ j. KeptIn j st s') p
      (subst (λ x. KeptIn t.id x s') same
        (Step-keeps_row step u t (subst (λ j. row j s.tasks ≡ some t) (sym p) found)
          (subst (λ x. is_task_terminal x ≡ true) (sym same) final)))

-- A task that is final never changes its status again: whatever calls of `advance` and
-- `cancelInstance` return, for whichever workflows and in whatever order, when task ids are distinct
-- at the start a task that is there with a final status is still there with the same status at the
-- end, and task ids are still distinct.
pub Run-keeps_final :
    {s s' : Store}
    → Run s s'
    → UniqueIds s.tasks
    → (i : ℕ) (st : TaskStatus) → is_task_terminal st ≡ true
    → KeptIn i st s
    → KeptIn i st s' × UniqueIds s'.tasks
Run-keeps_final done u i st final kept = (kept, u)
Run-keeps_final (then step run) u i st final kept =
    Run-keeps_final run (Step-UniqueIds step u) i st final (Step-keeps_final step u i st final kept)
