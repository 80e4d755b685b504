-- ===== src/Orders/Status.antt =====
-- The status of an order.
use geeta_backend.Common.{ℕ, Bool, ◌==◌}

-- enum ProductionOrderStatus
pub data OrderStatus : Type 0 where
  draft order_placed pending_payment design under_artwork_review improper_order artwork_approved
        confirmed in_production quality_check on_hold ready_for_dispatch completed dispatched
        delivered cancellation_requested cancelled :
      OrderStatus

abbrev pub code : OrderStatus → ℕ
code draft = 0
code order_placed = 1
code pending_payment = 2
code design = 3
code under_artwork_review = 4
code improper_order = 5
code artwork_approved = 6
code confirmed = 7
code in_production = 8
code quality_check = 9
code on_hold = 10
code ready_for_dispatch = 11
code completed = 12
code dispatched = 13
code delivered = 14
code cancellation_requested = 15
code cancelled = 16

abbrev pub same_status : OrderStatus → OrderStatus → Bool
same_status a b = code a == code b
