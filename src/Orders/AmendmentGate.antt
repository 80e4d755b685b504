-- ===== src/Orders/AmendmentGate.antt =====
-- modules/orders/order-amendment-gate.ts; the texts of the reasons are not modelled.
use geeta_backend.Common.{Bool, true, false, not, ◌&&◌, List, any, if◌then◌else◌}
use geeta_backend.Workflow.TaskStatus.{TaskStatus}
use geeta_backend.Orders.Status.{OrderStatus}

-- TERMINAL_ORDER_STATUSES
abbrev pub is_terminal_order : OrderStatus → Bool
is_terminal_order OrderStatus.cancelled = true
is_terminal_order OrderStatus.cancellation_requested = true
is_terminal_order OrderStatus.completed = true
is_terminal_order OrderStatus.dispatched = true
is_terminal_order OrderStatus.delivered = true
is_terminal_order _ = false

-- NOT_STARTED_TASK_STATUSES
abbrev pub is_not_started : TaskStatus → Bool
is_not_started TaskStatus.blocked = true
is_not_started TaskStatus.pending = true
is_not_started TaskStatus.waiting = true
is_not_started TaskStatus.ready = true
is_not_started TaskStatus.assigned = true
is_not_started _ = false

pub record GateTask : Type 0 where
  pub status : TaskStatus
  pub locks_amendments_on_start : Bool

-- What `checkOrderAmendable` answers, with its two reasons.
pub data Amendability : Type 0 where
  amendable order_closed step_started : Amendability

abbrev pub locks_now : GateTask → Bool
locks_now t = t.locks_amendments_on_start && not (is_not_started t.status)

-- `checkOrderAmendable`
unfoldable pub check_order_amendable : OrderStatus → List GateTask → Amendability
check_order_amendable status tasks =
    if is_terminal_order status
    then Amendability.order_closed
    else if any locks_now tasks
    then Amendability.step_started
    else Amendability.amendable
