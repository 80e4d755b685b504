-- ===== src/Workflow/Tests/SendBack.antt =====
-- A failed inspection, a rejected proof and a flagged task on a workflow of two tasks.
use geeta_backend.Common.{true, none, some, List, [], ◌∷◌, ◌≡◌, refl}
use geeta_backend.Common.Result.{ok}
use geeta_backend.Workflow.TaskStatus.{TaskStatus, assert_task_transition}
use geeta_backend.Workflow.InstanceStatus.{InstanceStatus}
use geeta_backend.Workflow.Store.{find_task, update_task, Store, Task, StepType}
use geeta_backend.Workflow.Engine.Types.{Effect}
use geeta_backend.Workflow.Engine.Rework.{resolve_rework_target_task_id}
use geeta_backend.Workflow.Engine.Qc.{
  QcInput, QcResult, Rework, apply_qc_rework, RejectInput, Rejection, reject_vendor_approval,
}
use geeta_backend.Workflow.Engine.Qc.SentBack.{
  SentBack, apply_qc_rework-SentBack, GateSentBack, reject_vendor_approval-GateSentBack,
}
use geeta_backend.Workflow.Engine.Correction.{
  CorrectionResult, is_verification, flag_task_for_correction, resolve_task_correction,
}
use geeta_backend.Workflow.Engine.Correction.RoundTrip.{
  given_back, resolve_task_correction-flag_task_for_correction,
}
use geeta_backend.Workflow.Tests.{step, task, store_of, running_store}

abbrev failed_inspection : QcInput
failed_inspection = record {
  workflow_instance_id = 1;
  qc_task_id = 11;
  result = QcResult.fail;
  actor_id = some 3;
  remarks = none;
  target_task_id = none;
}

-- The store in which the second task is inspected, or is the customer's proof.
abbrev inspected_store : Store
inspected_store = store_of InstanceStatus.running TaskStatus.completed TaskStatus.in_progress

abbrev gate_store : Store
gate_store = record inspected_store {
  tasks =
      task 10 TaskStatus.completed
      ∷ record (task 11 TaskStatus.in_progress) {
        workflow_step = record (step 11) { step_type = StepType.vendor_approval };
      }
      ∷ [];
}

inspection_run :
    (r : Rework × Store) × (apply_qc_rework 20 failed_inspection inspected_store ≡ ok r)
unfolding apply_qc_rework resolve_rework_target_task_id
inspection_run = (_, refl)

apply_qc_rework-SentBack_example :
    SentBack failed_inspection inspected_store inspection_run.0.1 inspection_run.0.0
apply_qc_rework-SentBack_example =
    apply_qc_rework-SentBack 20 failed_inspection inspected_store (refl, (refl, tt))
      inspection_run.1

abbrev rejection : RejectInput
rejection = record {
  workflow_instance_id = 1;
  task_id = 11;
  actor_id = 3;
  reason = "wrong colours";
}

rejection_run :
    (r : Rejection × Store) × (reject_vendor_approval (λ n. n) 20 rejection gate_store ≡ ok r)
unfolding reject_vendor_approval resolve_rework_target_task_id
rejection_run = (_, refl)

reject_vendor_approval-GateSentBack_example :
    GateSentBack rejection gate_store rejection_run.0.1 rejection_run.0.0
reject_vendor_approval-GateSentBack_example =
    reject_vendor_approval-GateSentBack (λ n. n) 20 rejection gate_store (refl, (refl, tt))
      rejection_run.1

-- The store in which the first task verifies the files.
abbrev verified_store : Store
verified_store = record running_store {
  tasks =
      record (task 10 TaskStatus.ready) {
        workflow_step = record (step 10) { step_type = StepType.verification };
      }
      ∷ [];
}

flag_run :
    (r : CorrectionResult × List Effect × Store) × (flag_task_for_correction 10 3 "low resolution"
        verified_store
      ≡ ok r)
unfolding flag_task_for_correction assert_task_transition
flag_run = (_, refl)

resolve_task_correction-flag_task_for_correction_example :
    (t : Task) × (find_task 10 verified_store ≡ some t)
    × (is_verification t.workflow_step.step_type ≡ true)
    × ((done : CorrectionResult × List Effect × Store) × (resolve_task_correction 5 10 4 none
            flag_run.0.2
          ≡ ok done)
        × (done.2.tasks ≡ update_task 10 (given_back 5) verified_store.tasks)
        × (done.0.order_id ≡ flag_run.0.0.order_id))
resolve_task_correction-flag_task_for_correction_example =
    resolve_task_correction-flag_task_for_correction 10 3 "low resolution" 5 4 none verified_store
      flag_run.1
