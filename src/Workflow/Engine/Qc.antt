-- ===== src/Workflow/Engine/Qc.antt =====
-- modules/workflow/workflow.engine.ts: `processQcOutcome` with `applyQcHold` and `applyQcRework`,
-- and `rejectVendorApproval`.
pub mod SentBack
use geeta_backend.Common.{
  ℕ, Bool, true, false, not, Option, none, some, List, [], ◌∷◌, ◌++◌, String,
}
use geeta_backend.Common.Result.{
  Result, ok, bad_request, not_found, conflict, throw_if, or_throw, ◌>>=◌, ◌>>◌,
}
use geeta_backend.Workflow.TaskStatus.{TaskStatus, assert_task_transition}
use geeta_backend.Workflow.Store.{
  Store, StepType, Task, HistoryAction, TimelineEvent, find_task, find_task_of, update_task,
  with_remarks,
}
use geeta_backend.Workflow.Engine.Types.{Action, AdvanceInput, AdvanceResult, Effect}
use geeta_backend.Workflow.Engine.Advance.{advance}
use geeta_backend.Workflow.Engine.Rework.{
  block_downstream_and_rework_target, resolve_rework_target_task_id, next_rework_cycle, note,
}

pub data QcResult : Type 0 where
  pass pass_with_remarks fail on_hold rework_required : QcResult

pub record QcInput : Type 0 where
  pub workflow_instance_id : ℕ
  pub qc_task_id : ℕ
  pub result : QcResult
  pub actor_id : Option ℕ
  pub remarks : Option String
  pub target_task_id : Option ℕ

pub record QcResponse : Type 0 where
  pub workflow_instance_id : ℕ
  pub qc_task_id : ℕ
  pub qc_task_status : TaskStatus
  pub result : QcResult
  pub rework_target_task_id : Option ℕ
  pub rework_request_id : Option ℕ
  pub advance_result : Option AdvanceResult

unfoldable pub apply_qc_hold : QcInput → Store → Result (TaskStatus × Store)
unfolding assert_task_transition
apply_qc_hold input s = do
  task ← or_throw (find_task_of input.workflow_instance_id input.qc_task_id s) not_found
  assert_task_transition task.status TaskStatus.on_hold
  ok (
    TaskStatus.on_hold,
    record s {
      tasks =
          update_task task.id
            (λ t. with_remarks input.remarks (record t { status = TaskStatus.on_hold })) s.tasks;
      history = s.history ++ note task.id HistoryAction.on_hold input.remarks input.actor_id ∷ [];
      timeline = s.timeline ++ TimelineEvent.qc_held input.workflow_instance_id task.id ∷ [];
    },
  )

abbrev pub rework_reason : QcResult → String
rework_reason QcResult.fail = "QC inspection failed"
rework_reason _ = "QC rework required"

pub record Rework : Type 0 where
  pub qc_task_status : TaskStatus
  pub target_task_id : ℕ
  pub rework_request_id : ℕ

-- `request_id` is the id that the database gives the new row of ReworkRequest.
unfoldable pub apply_qc_rework : ℕ → QcInput → Store → Result (Rework × Store)
unfolding assert_task_transition
apply_qc_rework request_id input s = do
  qc_task ← or_throw (find_task_of input.workflow_instance_id input.qc_task_id s) not_found
  throw_if (not qc_task.workflow_step.allow_rework) conflict
  target_id ← resolve_rework_target_task_id qc_task input.target_task_id s
  target ← or_throw (find_task target_id s) not_found
  assert_task_transition qc_task.status TaskStatus.blocked
  let blocked =
      update_task qc_task.id
        (λ t. with_remarks input.remarks (record t { status = TaskStatus.blocked })) s.tasks
  ok (
    record {
      qc_task_status = TaskStatus.blocked;
      target_task_id = target.id;
      rework_request_id = request_id;
    },
    record s {
      tasks =
          block_downstream_and_rework_target input.workflow_instance_id qc_task.id target.id
            target.step_order blocked;
      history =
          s.history
          ++ note qc_task.id HistoryAction.rejected input.remarks input.actor_id
            ∷ note target.id HistoryAction.reworked input.remarks input.actor_id
            ∷ [];
      rework_requests =
          s.rework_requests
          ++ record {
            id = request_id;
            task_id = qc_task.id;
            target_task_id = target.id;
            reason = rework_reason input.result;
            notes = input.remarks;
            rework_cycle = next_rework_cycle target.id s.rework_requests;
            created_by_id = input.actor_id;
          }
            ∷ [];
      timeline =
          s.timeline
          ++ TimelineEvent.qc_failed input.workflow_instance_id qc_task.id
            ∷ TimelineEvent.workflow_reworked input.workflow_instance_id target.id
            ∷ [];
    },
  )

abbrev pub qc_response :
    QcInput → TaskStatus → Option ℕ → Option ℕ → Option AdvanceResult → QcResponse
qc_response input status target request advanced = record {
  workflow_instance_id = input.workflow_instance_id;
  qc_task_id = input.qc_task_id;
  qc_task_status = status;
  result = input.result;
  rework_target_task_id = target;
  rework_request_id = request;
  advance_result = advanced;
}

abbrev pub qc_advance_input : QcInput → AdvanceInput
qc_advance_input input = record {
  workflow_instance_id = input.workflow_instance_id;
  task_id = input.qc_task_id;
  action = Action.complete;
  actor_id = input.actor_id;
  remarks = input.remarks;
}

abbrev pub QcOutcome : Type 0
QcOutcome = QcResponse × List Effect × Store

unfoldable pub qc_passed : ℕ → QcInput → Store → Result QcOutcome
qc_passed now input s = do
  done ← advance now (qc_advance_input input) s
  ok (qc_response input done.0.task_status none none (some done.0), done.1, done.2)

unfoldable pub qc_held : QcInput → Store → Result QcOutcome
unfolding apply_qc_hold
qc_held input s = do
  held ← apply_qc_hold input s
  ok (qc_response input held.0 none none none, [], held.1)

unfoldable pub qc_reworked : ℕ → QcInput → Store → Result QcOutcome
unfolding apply_qc_rework
qc_reworked request_id input s = do
  done ← apply_qc_rework request_id input s
  let rework = done.0
  ok (
    qc_response input rework.qc_task_status (some rework.target_task_id)
        (some rework.rework_request_id) none,
    [],
    done.1,
  )

-- The tests on `input.result`.
unfoldable pub process_qc_result : QcResult → ℕ → ℕ → QcInput → Store → Result QcOutcome
unfolding qc_passed qc_held qc_reworked
process_qc_result QcResult.pass now request_id input s = qc_passed now input s
process_qc_result QcResult.pass_with_remarks now request_id input s = qc_passed now input s
process_qc_result QcResult.on_hold now request_id input s = qc_held input s
process_qc_result _ now request_id input s = qc_reworked request_id input s

unfoldable pub process_qc_outcome : ℕ → ℕ → QcInput → Store → Result QcOutcome
unfolding process_qc_result
process_qc_outcome now request_id input s = process_qc_result input.result now request_id input s

pub record RejectInput : Type 0 where
  pub workflow_instance_id : ℕ
  pub task_id : ℕ
  pub actor_id : ℕ
  pub reason : String

pub record Rejection : Type 0 where
  pub target_task_id : ℕ
  pub target_step_code : String
  pub rework_request_id : ℕ

abbrev pub is_vendor_approval : StepType → Bool
is_vendor_approval StepType.vendor_approval = true
is_vendor_approval _ = false

-- `gate_reason` builds the request's text from the gate's step name.
unfoldable pub reject_vendor_approval :
    (String → String) → ℕ → RejectInput → Store → Result (Rejection × Store)
reject_vendor_approval gate_reason request_id input s = do
  gate ← or_throw (find_task_of input.workflow_instance_id input.task_id s) not_found
  throw_if (not (is_vendor_approval gate.workflow_step.step_type)) bad_request
  target_id ← resolve_rework_target_task_id gate none s
  target ← or_throw (find_task target_id s) not_found
  let blocked =
      update_task gate.id
        (λ (t : Task). record t { status = TaskStatus.blocked; remarks = some input.reason })
        s.tasks
  ok (
    record {
      target_task_id = target.id;
      target_step_code = target.workflow_step.step_code;
      rework_request_id = request_id;
    },
    record s {
      tasks =
          block_downstream_and_rework_target input.workflow_instance_id gate.id target.id
            target.step_order blocked;
      history =
          s.history
          ++ note gate.id HistoryAction.rejected (some input.reason) (some input.actor_id)
            ∷ note target.id HistoryAction.reworked (some input.reason) (some input.actor_id)
            ∷ [];
      rework_requests =
          s.rework_requests
          ++ record {
            id = request_id;
            task_id = gate.id;
            target_task_id = target.id;
            reason = gate_reason gate.workflow_step.step_name;
            notes = some input.reason;
            rework_cycle = next_rework_cycle target.id s.rework_requests;
            created_by_id = some input.actor_id;
          }
            ∷ [];
      timeline =
          s.timeline ++ TimelineEvent.workflow_reworked input.workflow_instance_id target.id ∷ [];
    },
  )
