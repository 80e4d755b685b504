-- ===== src/Orders/StatusSync.antt =====
-- modules/orders/order-status-sync.service.ts, the tests of modules/workflow/workflow-dispatch.util.ts,
-- and evaluateOrder of modules/dispatch/dispatch-readiness.service.ts, which the sync calls.
-- The queries of one call see the same rows.
pub mod Stage
pub mod Held
use geeta_backend.Common.{
  ℕ, Bool, true, false, not, ◌&&◌, ◌||◌, Option, none, some, List, [], ◌∷◌, ◌++◌, any, all, filter,
  ltb, ◌==◌, if◌then◌else◌,
}
use geeta_backend.Workflow.TaskStatus
use geeta_backend.Workflow.TaskStatus.{TaskStatus, is_task_terminal}
use geeta_backend.Workflow.InstanceStatus
use geeta_backend.Workflow.InstanceStatus.{InstanceStatus}
use geeta_backend.Workflow.Store
use geeta_backend.Workflow.Store.{StepType}
use geeta_backend.Orders.Status
use geeta_backend.Orders.Status.{OrderStatus, same_status}

-- What the queries select of a task, with the answers of the tests on its texts: whether the step's
-- code contains DISPATCH, and whether the department's code is DESIGN.
pub record SyncTask : Type 0 where
  pub status : TaskStatus
  pub step_type : StepType
  pub dispatch_code : Bool
  pub in_design : Bool

pub record SyncInstance : Type 0 where
  pub status : InstanceStatus
  pub tasks : List SyncTask

abbrev pub is_dispatch : StepType → Bool
is_dispatch StepType.dispatch = true
is_dispatch _ = false

-- `isDispatchWorkflowStep`
abbrev pub is_dispatch_workflow_step : SyncTask → Bool
is_dispatch_workflow_step t = is_dispatch t.step_type || t.dispatch_code

-- `isPreDispatchProductionComplete`
unfoldable pub is_pre_dispatch_production_complete : SyncInstance → Bool
is_pre_dispatch_production_complete i =
    elim (filter (λ (t : SyncTask). not (is_dispatch_workflow_step t)) i.tasks) [
      | [] ↦ InstanceStatus.code i.status == InstanceStatus.code InstanceStatus.completed
      | t ∷ ts ↦ is_task_terminal t.status && all (λ (u : SyncTask). is_task_terminal u.status) ts
    ]

-- `hasOpenDispatchWork`
unfoldable pub has_open_dispatch_work : SyncInstance → Bool
has_open_dispatch_work i =
    any (λ (t : SyncTask). is_dispatch_workflow_step t && not (is_task_terminal t.status)) i.tasks

-- The `some` of `bookOrderIntoDispatchBatchIfReady` and of the sync itself.
unfoldable pub awaiting_dispatch : List SyncInstance → Bool
awaiting_dispatch =
    any (λ (i : SyncInstance). is_pre_dispatch_production_complete i && has_open_dispatch_work i)

-- STEP_TYPE_TO_ORDER_STATUS
abbrev pub step_type_to_order_status : StepType → Option OrderStatus
step_type_to_order_status StepType.verification = some OrderStatus.under_artwork_review
step_type_to_order_status StepType.vendor_approval = some OrderStatus.under_artwork_review
step_type_to_order_status StepType.dispatch = none
step_type_to_order_status StepType.quality_check = some OrderStatus.quality_check
step_type_to_order_status _ = some OrderStatus.in_production

-- STATUS_RANK plus 1, so that 0 stands for the -1 of a status without a rank.
abbrev pub status_rank : OrderStatus → ℕ
status_rank OrderStatus.order_placed = 1
status_rank OrderStatus.pending_payment = 2
status_rank OrderStatus.design = 3
status_rank OrderStatus.under_artwork_review = 4
status_rank OrderStatus.artwork_approved = 5
status_rank OrderStatus.confirmed = 6
status_rank OrderStatus.in_production = 7
status_rank OrderStatus.quality_check = 8
status_rank OrderStatus.ready_for_dispatch = 9
status_rank _ = 0

-- SYNCABLE_STATUSES
abbrev pub is_syncable : OrderStatus → Bool
is_syncable OrderStatus.order_placed = true
is_syncable OrderStatus.design = true
is_syncable OrderStatus.under_artwork_review = true
is_syncable OrderStatus.improper_order = true
is_syncable OrderStatus.artwork_approved = true
is_syncable OrderStatus.confirmed = true
is_syncable OrderStatus.in_production = true
is_syncable OrderStatus.quality_check = true
is_syncable _ = false

-- The statuses that the query of the active tasks selects.
abbrev pub is_active_task : SyncTask → Bool
is_active_task t = elim t.status [
  | TaskStatus.ready ↦ true
  | TaskStatus.assigned ↦ true
  | TaskStatus.in_progress ↦ true
  | TaskStatus.rework ↦ true
  | TaskStatus.blocked ↦ true
  | _ ↦ false
]

abbrev pub is_blocked : SyncTask → Bool
is_blocked t = elim t.status [ TaskStatus.blocked ↦ true | _ ↦ false ]

abbrev pub is_flagged : SyncTask → Bool
is_flagged t = is_blocked t && elim t.step_type [ StepType.verification ↦ true | _ ↦ false ]

abbrev pub is_design_work : SyncTask → Bool
is_design_work t =
    t.in_design
    && elim t.step_type [ StepType.vendor_approval ↦ true | StepType.custom ↦ true | _ ↦ false ]

-- `mapped`, for a task that is not BLOCKED.
unfoldable pub stage_of : SyncTask → Option OrderStatus
stage_of t =
    if is_blocked t
    then none
    else if is_design_work t
    then some OrderStatus.design
    else step_type_to_order_status t.step_type

-- The loop: the first stage of the highest rank, and that rank.
unfoldable pub highest_stage : List SyncTask → ℕ → Option OrderStatus → Option OrderStatus
highest_stage [] rank best = best
highest_stage (t ∷ ts) rank best =
    let kept = highest_stage ts rank best in
    elim (stage_of t) [
      | none ↦ kept
      | some stage ↦
          if ltb rank (status_rank stage)
          then highest_stage ts (status_rank stage) (some stage)
          else kept
    ]

abbrev pub all_tasks : List SyncInstance → List SyncTask
all_tasks [] = []
all_tasks (i ∷ is) = i.tasks ++ all_tasks is

abbrev pub active_tasks : List SyncInstance → List SyncTask
active_tasks instances = filter is_active_task (all_tasks instances)

-- `nextStatus`
unfoldable pub next_status : List SyncTask → Option OrderStatus
next_status active =
    if any is_flagged active then some OrderStatus.improper_order else highest_stage active 0 none

-- The columns of the order, and whether `assignToShift` of shift-assignment.service.ts finds a
-- batch for it; it may throw, which rolls the transaction around it back.
pub record Order : Type 0 where
  pub status : OrderStatus
  pub delivery_required : Bool
  pub shift_found : Bool

-- What a call does: nothing, it throws, the order is READY_FOR_DISPATCH in a dispatch batch, it is
-- COMPLETED for pick-up, or its status is set to a stage.
pub data Outcome : Type 0 where
  nothing failed ready_for_dispatch ready_for_pickup : Outcome
  set : (status : OrderStatus) → Outcome

-- The status that a call writes.
abbrev pub written : Outcome → Option OrderStatus
written Outcome.nothing = none
written Outcome.failed = none
written Outcome.ready_for_dispatch = some OrderStatus.ready_for_dispatch
written Outcome.ready_for_pickup = some OrderStatus.completed
written (Outcome.set status) = some status

-- `advanceable`
abbrev pub is_advanceable : OrderStatus → Bool
is_advanceable OrderStatus.order_placed = true
is_advanceable OrderStatus.design = true
is_advanceable OrderStatus.under_artwork_review = true
is_advanceable OrderStatus.in_production = true
is_advanceable OrderStatus.quality_check = true
is_advanceable OrderStatus.confirmed = true
is_advanceable OrderStatus.artwork_approved = true
is_advanceable OrderStatus.ready_for_dispatch = true
is_advanceable _ = false

abbrev pub has_none : List SyncInstance → Bool
has_none [] = true
has_none (_ ∷ _) = false

-- `evaluateOrder`, for an order that exists.
unfoldable pub evaluate_order : Order → List SyncInstance → Outcome
evaluate_order order instances =
    if not (is_advanceable order.status)
    then Outcome.nothing
    else if has_none instances
    then Outcome.nothing
    else if not (all is_pre_dispatch_production_complete instances)
    then Outcome.nothing
    else if not (any has_open_dispatch_work instances)
    then Outcome.nothing
    else if not order.delivery_required
    then Outcome.ready_for_pickup
    else if order.shift_found
    then Outcome.ready_for_dispatch
    else Outcome.failed

-- `bookOrderIntoDispatchBatchIfReady`
unfoldable pub book_if_ready : Order → List SyncInstance → Outcome
book_if_ready order instances =
    if awaiting_dispatch instances then evaluate_order order instances else Outcome.nothing

abbrev pub is_transition_allowed : OrderStatus → OrderStatus → Bool
is_transition_allowed from to =
    same_status to OrderStatus.improper_order
    || (same_status from OrderStatus.improper_order || ltb (status_rank from) (status_rank to))

-- The end of `syncOrderStatusForOrder`, from the next status on.
unfoldable pub sync_to : Order → List SyncInstance → Option OrderStatus → Outcome
sync_to order instances none = book_if_ready order instances
sync_to order instances (some next) =
    if same_status next order.status
    then book_if_ready order instances
    else if not (is_transition_allowed order.status next)
    then Outcome.nothing
    else if awaiting_dispatch instances
        && ltb (status_rank next) (status_rank OrderStatus.ready_for_dispatch)
    then book_if_ready order instances
    else Outcome.set next

-- Its middle, from the active tasks on.
unfoldable pub sync_active : Order → List SyncInstance → List SyncTask → Outcome
sync_active order instances [] = Outcome.nothing
sync_active order instances (t ∷ ts) = sync_to order instances (next_status (t ∷ ts))

-- `syncOrderStatusForOrder`
unfoldable pub sync_order_status_for_order : Order → List SyncInstance → Outcome
sync_order_status_for_order order instances =
    if not (is_syncable order.status)
    then Outcome.nothing
    else sync_active order instances (active_tasks instances)
