-- ===== src/Orders/CancellationPolicy.antt =====
-- modules/order-cancellation/cancellation-policy.engine.ts; labels and explanations are not modelled.
pub mod Allowed
use geeta_backend.Common.{
  ℕ, Bool, true, false, ◌&&◌, ◌||◌, Option, none, some, List, [], ◌∷◌, find_first, ◌==◌,
  if◌then◌else◌,
}
use geeta_backend.Orders.Status
use geeta_backend.Orders.Status.{OrderStatus, same_status}

-- enum CancellationStageKey
pub data StageKey : Type 0 where
  verification artwork_approved production dispatch completed : StageKey

abbrev pub stage_code : StageKey → ℕ
stage_code verification = 0
stage_code artwork_approved = 1
stage_code production = 2
stage_code dispatch = 3
stage_code completed = 4

-- CANCELLATION_ALLOWED_ACTION
pub data AllowedAction : Type 0 where
  direct_cancel request_cancellation not_allowed none_allowed : AllowedAction

-- The columns of CancellationPolicyRule that decide.
pub record PolicyRule : Type 0 where
  pub stage_key : StageKey
  pub is_active : Bool
  pub cancellation_allowed : Bool
  pub vendor_direct_cancel : Bool
  pub vendor_request_allowed : Bool
  pub manager_approval_required : Bool

-- interface CancellationPolicyDecision, without its texts
pub record PolicyDecision : Type 0 where
  pub stage_key : StageKey
  pub vendor_direct_cancel_allowed : Bool
  pub vendor_request_allowed : Bool
  pub manager_approval_required : Bool
  pub cancellation_allowed : Bool
  pub allowed_action : AllowedAction

-- STAGE_FROM_STATUS with the default of `resolveStageFromOrderStatus`, which ends it.
unfoldable pub resolve_stage_from_order_status : OrderStatus → Option StageKey
resolve_stage_from_order_status OrderStatus.cancelled = none
resolve_stage_from_order_status OrderStatus.cancellation_requested = none
resolve_stage_from_order_status OrderStatus.draft = some StageKey.verification
resolve_stage_from_order_status OrderStatus.order_placed = some StageKey.verification
resolve_stage_from_order_status OrderStatus.pending_payment = some StageKey.verification
resolve_stage_from_order_status OrderStatus.design = some StageKey.verification
resolve_stage_from_order_status OrderStatus.under_artwork_review = some StageKey.verification
resolve_stage_from_order_status OrderStatus.improper_order = some StageKey.verification
resolve_stage_from_order_status OrderStatus.artwork_approved = some StageKey.artwork_approved
resolve_stage_from_order_status OrderStatus.confirmed = some StageKey.artwork_approved
resolve_stage_from_order_status OrderStatus.dispatched = some StageKey.dispatch
resolve_stage_from_order_status OrderStatus.delivered = some StageKey.completed
resolve_stage_from_order_status OrderStatus.completed = some StageKey.completed
resolve_stage_from_order_status _ = some StageKey.production

abbrev pub is_for : StageKey → PolicyRule → Bool
is_for stage r = stage_code r.stage_key == stage_code stage

-- The rule of a stage: an active one, or else any.
unfoldable pub rule_for : StageKey → List PolicyRule → Option PolicyRule
rule_for stage rules = elim (find_first (λ (r : PolicyRule). is_for stage r && r.is_active) rules) [
  | some r ↦ some r
  | none ↦ find_first (is_for stage) rules
]

-- `allowedAction` of a rule.
abbrev pub action_of : PolicyRule → AllowedAction
action_of r =
    if r.cancellation_allowed
    then if r.vendor_direct_cancel
      then AllowedAction.direct_cancel
      else if r.vendor_request_allowed
      then AllowedAction.request_cancellation
      else AllowedAction.not_allowed
    else AllowedAction.not_allowed

abbrev pub refused : StageKey → AllowedAction → PolicyDecision
refused stage action = record {
  stage_key = stage;
  vendor_direct_cancel_allowed = false;
  vendor_request_allowed = false;
  manager_approval_required = true;
  cancellation_allowed = false;
  allowed_action = action;
}

-- The decision for a stage.
unfoldable pub decide : StageKey → Option PolicyRule → PolicyDecision
decide stage none = refused stage AllowedAction.not_allowed
decide stage (some r) = record {
  stage_key = r.stage_key;
  vendor_direct_cancel_allowed = r.vendor_direct_cancel;
  vendor_request_allowed = r.vendor_request_allowed;
  manager_approval_required = r.manager_approval_required;
  cancellation_allowed = r.cancellation_allowed;
  allowed_action = action_of r;
}

-- `resolveCancellationPolicy`
unfoldable pub resolve_cancellation_policy :
    OrderStatus → List PolicyRule → Bool → Option PolicyDecision
resolve_cancellation_policy status rules has_pending_request =
    if same_status status OrderStatus.cancelled
    then none
    else if same_status status OrderStatus.cancellation_requested || has_pending_request
    then some (refused StageKey.production AllowedAction.none_allowed)
    else elim (resolve_stage_from_order_status status) [
      | none ↦ none
      | some stage ↦ some (decide stage (rule_for stage rules))
    ]
