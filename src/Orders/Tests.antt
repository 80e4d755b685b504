-- ===== src/Orders/Tests.antt =====
-- Orders of two items, whose workflows are at different stages.
use geeta_backend.Common.{true, false, some, [], ◌∷◌, ◌≡◌, refl}
use geeta_backend.Workflow.TaskStatus.{TaskStatus}
use geeta_backend.Workflow.InstanceStatus.{InstanceStatus}
use geeta_backend.Workflow.Store.{StepType}
use geeta_backend.Orders.Status.{OrderStatus}
use geeta_backend.Orders.StatusSync
use geeta_backend.Orders.StatusSync.{
  SyncTask, SyncInstance, Order, Outcome, written, sync_order_status_for_order, active_tasks,
  is_flagged, awaiting_dispatch,
}
use geeta_backend.Orders.StatusSync.Stage.{IsWritten, sync_order_status_for_order-IsWritten}
use geeta_backend.Orders.StatusSync.Held.{sync_order_status_for_order-held}
use geeta_backend.Orders.AmendmentGate.{Amendability, check_order_amendable}
use geeta_backend.Orders.CancellationPolicy
use geeta_backend.Orders.CancellationPolicy.{
  StageKey, AllowedAction, PolicyRule, PolicyDecision, resolve_cancellation_policy, decide,
}
use geeta_backend.Orders.CancellationPolicy.Allowed.{
  IsPermitted, is_act, resolve_cancellation_policy-IsPermitted,
}

abbrev task : TaskStatus → StepType → SyncTask
task status type = record {
  status = status;
  step_type = type;
  dispatch_code = false;
  in_design = false;
}

abbrev printing_item : SyncInstance
printing_item = record {
  status = InstanceStatus.running;
  tasks =
      task TaskStatus.completed StepType.verification
      ∷ task TaskStatus.in_progress StepType.printing
      ∷ task TaskStatus.blocked StepType.quality_check
      ∷ [];
}

abbrev flagged_item : SyncInstance
flagged_item = record {
  status = InstanceStatus.running;
  tasks =
      task TaskStatus.blocked StepType.verification
      ∷ task TaskStatus.blocked StepType.printing
      ∷ [];
}

abbrev packed_item : SyncInstance
packed_item = record {
  status = InstanceStatus.running;
  tasks =
      task TaskStatus.completed StepType.printing ∷ task TaskStatus.ready StepType.dispatch ∷ [];
}

abbrev design_item : SyncInstance
design_item = record {
  status = InstanceStatus.running;
  tasks =
      task TaskStatus.ready StepType.custom ∷ task TaskStatus.blocked StepType.verification ∷ [];
}

abbrev order_in : OrderStatus → Order
order_in status = record { status = status; delivery_required = true; shift_found = true }

dormant_verification :
    sync_order_status_for_order (order_in OrderStatus.order_placed) (design_item ∷ [])
    ≡ Outcome.set OrderStatus.improper_order
unfolding sync_order_status_for_order StatusSync.sync_active StatusSync.sync_to
    StatusSync.next_status StatusSync.highest_stage StatusSync.stage_of awaiting_dispatch
    StatusSync.is_pre_dispatch_production_complete StatusSync.has_open_dispatch_work
    StatusSync.book_if_ready StatusSync.evaluate_order
dormant_verification = refl

packed_readied :
    sync_order_status_for_order (order_in OrderStatus.in_production) (packed_item ∷ [])
    ≡ Outcome.ready_for_dispatch
unfolding sync_order_status_for_order StatusSync.sync_active StatusSync.sync_to
    StatusSync.next_status StatusSync.highest_stage StatusSync.stage_of awaiting_dispatch
    StatusSync.is_pre_dispatch_production_complete StatusSync.has_open_dispatch_work
    StatusSync.book_if_ready StatusSync.evaluate_order
packed_readied = refl

printing_synced :
    written (sync_order_status_for_order (order_in OrderStatus.confirmed) (printing_item ∷ []))
    ≡ some OrderStatus.in_production
unfolding sync_order_status_for_order StatusSync.sync_active StatusSync.sync_to
    StatusSync.next_status StatusSync.highest_stage StatusSync.stage_of awaiting_dispatch
    StatusSync.is_pre_dispatch_production_complete StatusSync.has_open_dispatch_work
    StatusSync.book_if_ready StatusSync.evaluate_order
printing_synced = refl

sync_order_status_for_order-IsWritten_example :
    IsWritten (order_in OrderStatus.confirmed) (printing_item ∷ []) OrderStatus.in_production
sync_order_status_for_order-IsWritten_example =
    sync_order_status_for_order-IsWritten (order_in OrderStatus.confirmed) OrderStatus.in_production
      (printing_item ∷ []) printing_synced

packed_waits : awaiting_dispatch (flagged_item ∷ packed_item ∷ []) ≡ true
unfolding awaiting_dispatch StatusSync.is_pre_dispatch_production_complete
    StatusSync.has_open_dispatch_work
packed_waits = refl

sync_order_status_for_order-held_example :
    sync_order_status_for_order
      (order_in OrderStatus.in_production)
      (flagged_item ∷ packed_item ∷ [])
    ≡ Outcome.nothing
sync_order_status_for_order-held_example =
    sync_order_status_for_order-held (order_in OrderStatus.in_production)
      (flagged_item ∷ packed_item ∷ []) refl packed_waits

abbrev early_rule : PolicyRule
early_rule = record {
  stage_key = StageKey.verification;
  is_active = true;
  cancellation_allowed = true;
  vendor_direct_cancel = true;
  vendor_request_allowed = false;
  manager_approval_required = false;
}

design_direct :
    resolve_cancellation_policy OrderStatus.design (early_rule ∷ []) false
    ≡ some (decide StageKey.verification (some early_rule))
unfolding resolve_cancellation_policy CancellationPolicy.resolve_stage_from_order_status
    CancellationPolicy.rule_for
design_direct = refl

design_acts : is_act (decide StageKey.verification (some early_rule)).allowed_action ≡ true
unfolding decide
design_acts = refl

resolve_cancellation_policy-IsPermitted_example :
    (false ≡ false)
    × IsPermitted OrderStatus.design
        (early_rule ∷ [])
        (decide StageKey.verification (some early_rule))
resolve_cancellation_policy-IsPermitted_example =
    resolve_cancellation_policy-IsPermitted OrderStatus.design (early_rule ∷ []) false
      (decide StageKey.verification (some early_rule)) design_direct design_acts

printed_locked :
    check_order_amendable OrderStatus.in_production
      (record { status = TaskStatus.in_progress; locks_amendments_on_start = true } ∷ [])
    ≡ Amendability.step_started
unfolding check_order_amendable
printed_locked = refl
