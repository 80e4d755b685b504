-- ===== src/Orders/CancellationPolicy/Allowed.antt =====
-- When an order may be cancelled.
use geeta_backend.Common.{
  Bool, true, false, ◌&&◌, ◌||◌, Option, none, some, List, [], ◌∷◌, find_first, ◌≡◌, refl, sym, ap,
  ◌∙◌, ◌⊎◌, inl, inr, Bool-cases, Option-cases, some_eq, arith,
}
use mathlib.Core.Path.{subst}
use geeta_backend.Orders.Status.{OrderStatus, same_status}
use geeta_backend.Orders.CancellationPolicy.{
  StageKey, AllowedAction, PolicyRule, PolicyDecision, resolve_stage_from_order_status, is_for,
  rule_for, action_of, refused, decide, resolve_cancellation_policy,
}

-- A rule is one of the list.
abbrev pub Among : PolicyRule → List PolicyRule → Type 0
Among r [] = ⊥
Among r (x ∷ xs) = (x ≡ r) ⊎ Among r xs

find_first-Among :
    (test : PolicyRule → Bool) (xs : List PolicyRule) (r : PolicyRule)
    → find_first test xs ≡ some r
    → Among r xs × (test r ≡ true)
find_first-Among test [] r h = cc
find_first-Among test (x ∷ xs) r h = elim (Bool-cases (test x)) [
  | inl e ↦
      let q : x ≡ r = some_eq (rw e at h) in (inl q, subst (λ (y : PolicyRule). test y ≡ true) q e)
  | inr e ↦ let (a, t) = find_first-Among test xs r (rw e at h) in (inr a, t)
]

both_left : (a b : Bool) → a && b ≡ true → a ≡ true
both_left a b h = ground arith

rule_for-Among :
    (stage : StageKey) (rules : List PolicyRule) (r : PolicyRule)
    → rule_for stage rules ≡ some r
    → Among r rules × (is_for stage r ≡ true)
unfolding rule_for
rule_for-Among stage rules r h =
    elim (Option-cases (find_first (λ (r : PolicyRule). is_for stage r && r.is_active) rules)) [
      | inl e ↦ find_first-Among (is_for stage) rules r (rw (e, rule_for) at h)
      | inr (x, e) ↦
          let q : x ≡ r = some_eq (rw (e, rule_for) at h) in
          let (a, t) = find_first-Among _ rules x e in
          subst (λ (y : PolicyRule). Among y rules × (is_for stage y ≡ true)) q (a, both_left _ _ t)
    ]

-- What lets a vendor act on an order.
pub record IsPermitted (status : OrderStatus) (rules : List PolicyRule) (d : PolicyDecision)
    : Type 0 where
  pub stage : StageKey
  pub rule : PolicyRule
  pub its_stage : resolve_stage_from_order_status status ≡ some stage
  pub among : Among rule rules
  pub for_stage : is_for stage rule ≡ true
  pub allows : rule.cancellation_allowed ≡ true
  pub how :
      ((rule.vendor_direct_cancel ≡ true) × (d.allowed_action ≡ AllowedAction.direct_cancel))
      ⊎ ((rule.vendor_request_allowed ≡ true)
          × (d.allowed_action ≡ AllowedAction.request_cancellation))

abbrev pub is_act : AllowedAction → Bool
is_act AllowedAction.direct_cancel = true
is_act AllowedAction.request_cancellation = true
is_act _ = false

action_of-act :
    (r : PolicyRule)
    → is_act (action_of r) ≡ true
    → (r.cancellation_allowed ≡ true)
      × (((r.vendor_direct_cancel ≡ true) × (action_of r ≡ AllowedAction.direct_cancel))
          ⊎ ((r.vendor_request_allowed ≡ true)
              × (action_of r ≡ AllowedAction.request_cancellation)))
action_of-act r h = ground arith

decide-IsPermitted :
    (status : OrderStatus) (rules : List PolicyRule) (stage : StageKey) (o : Option PolicyRule)
    → resolve_stage_from_order_status status ≡ some stage
    → rule_for stage rules ≡ o
    → is_act (decide stage o).allowed_action ≡ true
    → IsPermitted status rules (decide stage o)
unfolding decide
decide-IsPermitted status rules stage none e r a = cc
decide-IsPermitted status rules stage (some rule) e r a =
    let (among, for_stage) = rule_for-Among stage rules rule r in
    let (allows, how) = action_of-act rule a in
    record {
      stage = stage;
      rule = rule;
      its_stage = e;
      among = among;
      for_stage = for_stage;
      allows = allows;
      how = how;
    }

neither : (a b : Bool) → a || b ≡ false → b ≡ false
neither a b h = ground arith

-- `resolveCancellationPolicy` lets a vendor cancel or ask for it only when no request is pending, and a
-- rule of the list for the order's stage allows cancellation and that way of it.
pub resolve_cancellation_policy-IsPermitted :
    (status : OrderStatus) (rules : List PolicyRule) (has_pending_request : Bool)
    (d : PolicyDecision)
    → resolve_cancellation_policy status rules has_pending_request ≡ some d
    → is_act d.allowed_action ≡ true
    → (has_pending_request ≡ false) × IsPermitted status rules d
unfolding resolve_cancellation_policy
resolve_cancellation_policy-IsPermitted status rules pending d h a =
    elim (Bool-cases (same_status status OrderStatus.cancelled)) [
      | inl c ↦ cc (rw c at h)
      | inr c ↦
          elim (Bool-cases (same_status status OrderStatus.cancellation_requested || pending)) [
            | inl w ↦
                let e : refused StageKey.production AllowedAction.none_allowed ≡ d =
                  some_eq (rw (c, w) at h) in
                cc (ap (λ (x : PolicyDecision). is_act x.allowed_action) e ∙ a)
            | inr w ↦ elim (Option-cases (resolve_stage_from_order_status status)) [
              | inl n ↦ cc (rw (c, w, n) at h)
              | inr (stage, e) ↦
                  let q : decide stage (rule_for stage rules) ≡ d = some_eq (rw (c, w, e) at h) in
                  (
                    neither _ _ w,
                    subst (IsPermitted status rules) q (
                        decide-IsPermitted status rules stage _ e refl (
                          subst (λ (x : PolicyDecision). is_act x.allowed_action ≡ true) (sym q)
                            a)),
                  )
            ]
          ]
    ]
