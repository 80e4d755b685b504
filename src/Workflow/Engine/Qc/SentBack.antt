-- ===== src/Workflow/Engine/Qc/SentBack.antt =====
-- What a failed inspection and a rejected proof do to the tasks: `applyQcRework` and
-- `rejectVendorApproval` of modules/workflow/workflow.engine.ts.
use geeta_backend.Common.{
  ℕ, Bool, true, false, not, some, none, ==_iff, ◌==◌, List, map, ◌≡◌, refl, ap, sym, ◌∙◌, arith,
  String,
}
use geeta_backend.Common.Result.{
  or_throw, throw_if, not_found, conflict, bad_request, ok, >>=-eq-ok, throw_if-eq-ok,
  or_throw-eq-ok, ok_eq,
}
use geeta_backend.Workflow.TaskStatus.{TaskStatus, assert_task_transition}
use geeta_backend.Workflow.Store.{Store, Task, find_task, find_task_of, with_remarks, update_task}
use geeta_backend.Workflow.Store.Updates.{UniqueIds, find_first-holds}
use geeta_backend.Workflow.Store.Keys.{KeepsKeys, on_row, on_row-KeepsKeys, map-UniqueIds}
use geeta_backend.Workflow.Engine.Advance.TaskEffect.{with_remarks-KeepsKeys}
use geeta_backend.Workflow.Engine.Rework.{
  resolve_rework_target_task_id, block_downstream_and_rework_target,
}
use geeta_backend.Workflow.Engine.Rework.Blocked.{
  reworked, block_downstream_and_rework_target-reworked,
}
use geeta_backend.Workflow.Engine.Qc.{
  QcInput, Rework, apply_qc_rework, RejectInput, Rejection, reject_vendor_approval,
  is_vendor_approval,
}

-- The inspected task's own update.
abbrev pub failed : QcInput → Task → Task
failed input t = with_remarks input.remarks (record t { status = TaskStatus.blocked })

failed-KeepsKeys : (input : QcInput) → KeepsKeys (failed input)
failed-KeepsKeys input =
    let k = with_remarks-KeepsKeys input.remarks in
    record { id = λ t. k.id _; workflow_instance_id = λ t. k.workflow_instance_id _ }

-- The loop after an update of one row that keeps its keys.
blocked_then_reworked :
    (instance source target order : ℕ) (f : Task → Task) (k : KeepsKeys f) (ts : List Task)
    → UniqueIds ts
    → block_downstream_and_rework_target instance source target order (update_task source f ts)
      ≡ map (reworked instance source target order) (map (on_row source f) ts)
blocked_then_reworked instance source target order f k ts u =
    block_downstream_and_rework_target-reworked instance source target order
      (update_task source f ts) (map-UniqueIds (on_row source f) (on_row-KeepsKeys source f k) ts u)

not-false : (b : Bool) → not b ≡ false → b ≡ true
not-false b h = ground arith

found_id : (i : ℕ) (s : Store) {t : Task} → find_task i s ≡ some t → t.id ≡ i
found_id i s h = (==_iff _ _).0 (find_first-holds (λ (t : Task). t.id == i) s.tasks h)

-- What `applyQcRework` has found and done when it returns.
pub record SentBack (input : QcInput) (s s' : Store) (r : Rework) : Type 0 where
  pub qc_task : Task
  pub target : Task
  pub inspected : find_task_of input.workflow_instance_id input.qc_task_id s ≡ some qc_task
  pub may_rework : qc_task.workflow_step.allow_rework ≡ true
  pub resolved : resolve_rework_target_task_id qc_task input.target_task_id s ≡ ok target.id
  pub may_block : assert_task_transition qc_task.status TaskStatus.blocked ≡ ok tt
  pub tasks :
      s'.tasks
      ≡ map
          (reworked input.workflow_instance_id qc_task.id target.id target.step_order)
          (map (on_row qc_task.id (failed input)) s.tasks)
  pub instances : s'.instances ≡ s.instances
  pub answered : r.target_task_id ≡ target.id

-- When task ids are distinct and `applyQcRework` returns, the inspected task was one of the workflow
-- whose step allows rework and whose status may become BLOCKED, the task answered is the one that
-- `resolveReworkTargetTaskId` names, and the tasks are those before with the inspected one BLOCKED and
-- then every row as `reworked` says; the instances are unchanged.
pub apply_qc_rework-SentBack :
    (request_id : ℕ) (input : QcInput) (s : Store) {r : Rework} {s' : Store}
    → UniqueIds s.tasks
    → apply_qc_rework request_id input s ≡ ok (r, s')
    → SentBack input s s' r
unfolding apply_qc_rework
apply_qc_rework-SentBack request_id input s u h =
    let (qc_task, inspected, h₁) =
      >>=-eq-ok (or_throw (find_task_of input.workflow_instance_id input.qc_task_id s) not_found) _
        h in
    let (_, guard, h₂) =
      >>=-eq-ok (throw_if (not qc_task.workflow_step.allow_rework) conflict) _ h₁ in
    let (target_id, resolved, h₃) =
      >>=-eq-ok (resolve_rework_target_task_id qc_task input.target_task_id s) _ h₂ in
    let (target, found, h₄) = >>=-eq-ok (or_throw (find_task target_id s) not_found) _ h₃ in
    let (_, may_block, h₅) =
      >>=-eq-ok (assert_task_transition qc_task.status TaskStatus.blocked) _ h₄ in
    let e = sym (ok_eq h₅) in
    record {
      qc_task = qc_task;
      target = target;
      inspected = or_throw-eq-ok _ _ inspected;
      may_rework = not-false _ (throw_if-eq-ok _ _ guard);
      resolved = resolved ∙ ap ok (sym (found_id target_id s (or_throw-eq-ok _ _ found)));
      may_block = may_block;
      tasks =
          ap (λ p. p.1.tasks) e
          ∙ blocked_then_reworked input.workflow_instance_id qc_task.id target.id target.step_order
              (failed input) (failed-KeepsKeys input) s.tasks u;
      instances = ap (λ p. p.1.instances) e;
      answered = ap (λ p. p.0.target_task_id) e;
    }

-- The gate's own update.
abbrev pub rejected : String → Task → Task
rejected reason t = record t { status = TaskStatus.blocked; remarks = some reason }

-- What `rejectVendorApproval` has found and done when it returns.
pub record GateSentBack (input : RejectInput) (s s' : Store) (r : Rejection) : Type 0 where
  pub gate : Task
  pub target : Task
  pub found : find_task_of input.workflow_instance_id input.task_id s ≡ some gate
  pub is_gate : is_vendor_approval gate.workflow_step.step_type ≡ true
  pub resolved : resolve_rework_target_task_id gate none s ≡ ok target.id
  pub tasks :
      s'.tasks
      ≡ map
          (reworked input.workflow_instance_id gate.id target.id target.step_order)
          (map (on_row gate.id (rejected input.reason)) s.tasks)
  pub instances : s'.instances ≡ s.instances
  pub answered : r.target_task_id ≡ target.id

-- When task ids are distinct and `rejectVendorApproval` returns, the task was a vendor approval of
-- the workflow, the task answered is the one that `resolveReworkTargetTaskId` names for it, and the
-- tasks are those before with the gate BLOCKED with the reason as its remarks and then every row as
-- `reworked` says; the instances are unchanged.
pub reject_vendor_approval-GateSentBack :
    (gate_reason : String → String) (request_id : ℕ) (input : RejectInput) (s : Store)
    {r : Rejection} {s' : Store}
    → UniqueIds s.tasks
    → reject_vendor_approval gate_reason request_id input s ≡ ok (r, s')
    → GateSentBack input s s' r
unfolding reject_vendor_approval
reject_vendor_approval-GateSentBack gate_reason request_id input s u h =
    let (gate, found, h₁) =
      >>=-eq-ok (or_throw (find_task_of input.workflow_instance_id input.task_id s) not_found) _
        h in
    let (_, guard, h₂) =
      >>=-eq-ok (throw_if (not (is_vendor_approval gate.workflow_step.step_type)) bad_request) _
        h₁ in
    let (target_id, resolved, h₃) = >>=-eq-ok (resolve_rework_target_task_id gate none s) _ h₂ in
    let (target, found_target, h₄) = >>=-eq-ok (or_throw (find_task target_id s) not_found) _ h₃ in
    let e = sym (ok_eq h₄) in
    record {
      gate = gate;
      target = target;
      found = or_throw-eq-ok _ _ found;
      is_gate = not-false _ (throw_if-eq-ok _ _ guard);
      resolved = resolved ∙ ap ok (sym (found_id target_id s (or_throw-eq-ok _ _ found_target)));
      tasks =
          ap (λ p. p.1.tasks) e
          ∙ blocked_then_reworked input.workflow_instance_id gate.id target.id target.step_order
              (rejected input.reason) (record { id = λ t. refl; workflow_instance_id = λ t. refl })
              s.tasks u;
      instances = ap (λ p. p.1.instances) e;
      answered = ap (λ p. p.0.target_task_id) e;
    }
