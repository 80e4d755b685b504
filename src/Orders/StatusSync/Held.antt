-- ===== src/Orders/StatusSync/Held.antt =====
-- An order of which one item is flagged while another waits for dispatch.
use geeta_backend.Common.{
  Bool, true, false, not, ◌&&◌, List, [], ◌∷◌, ◌++◌, any, all, filter, ◌≡◌, inl, inr, Bool-cases,
  arith, and_true, and_false, ◌⊎◌,
}
use geeta_backend.Workflow.TaskStatus.{is_task_terminal}
use geeta_backend.Orders.Status.{OrderStatus, same_status}
use geeta_backend.Orders.StatusSync.{
  SyncTask, SyncInstance, Order, Outcome, is_dispatch_workflow_step, is_active_task, is_flagged,
  is_pre_dispatch_production_complete, is_advanceable, has_none, evaluate_order, book_if_ready,
  awaiting_dispatch, all_tasks, active_tasks, is_syncable, next_status, sync_to, sync_active,
  sync_order_status_for_order,
}

-- A BLOCKED verification task that is not a dispatch step.
abbrev pub is_held : SyncTask → Bool
is_held t = is_flagged t && not (is_dispatch_workflow_step t)

is_held-open : (t : SyncTask) → is_held t ≡ true → is_task_terminal t.status ≡ false
is_held-open t h = ground arith

any-append :
    (p : SyncTask → Bool) (xs ys : List SyncTask)
    → any p (xs ++ ys) ≡ true
    → (any p xs ≡ true) ⊎ (any p ys ≡ true)
any-append p [] ys h = inr h
any-append p (x ∷ xs) ys h = elim (Bool-cases (p x)) [
  | inl e ↦ inl (rw e)
  | inr e ↦ rw e (any-append p xs ys (rw e at h))
]

any-filter :
    (p q : SyncTask → Bool) (xs : List SyncTask) → any p (filter q xs) ≡ true → any p xs ≡ true
any-filter p q [] h = h
any-filter p q (x ∷ xs) h = elim (Bool-cases (p x)) [
  | inl e ↦ rw e
  | inr e ↦ elim (Bool-cases (q x)) [
    | inl k ↦ rw e (any-filter p q xs (rw (k, e) at h))
    | inr k ↦ rw e (any-filter p q xs (rw k at h))
  ]
]

abbrev is_production : SyncTask → Bool
is_production t = not (is_dispatch_workflow_step t)

abbrev all_terminal : List SyncTask → Bool
all_terminal = all (λ (t : SyncTask). is_task_terminal t.status)

is_held-production : (t : SyncTask) → is_held t ≡ true → is_production t ≡ true
is_held-production t h = (and_true (is_flagged t) _ h).1

held-outstanding :
    (ts : List SyncTask) → any is_held ts ≡ true → all_terminal (filter is_production ts) ≡ false
held-outstanding [] h = cc
held-outstanding (t ∷ ts) h = elim (Bool-cases (is_held t)) [
  | inl e ↦ rw (is_held-production t e, is_held-open t e)
  | inr e ↦
      let rest = held-outstanding ts (rw e at h) in
      elim (Bool-cases (is_production t)) [ inl k ↦ rw (k, rest) (and_false _) | inr k ↦ rw k rest ]
]

outstanding :
    (c : Bool) (ts : List SyncTask)
    → all_terminal ts ≡ false
    → elim ts [
      | [] ↦ c
      | t ∷ rest ↦
          is_task_terminal t.status && all (λ (u : SyncTask). is_task_terminal u.status) rest
    ]
      ≡ false
outstanding c [] h = cc
outstanding c (t ∷ ts) h = h

held-incomplete :
    (instances : List SyncInstance)
    → any is_held (all_tasks instances) ≡ true
    → all is_pre_dispatch_production_complete instances ≡ false
unfolding is_pre_dispatch_production_complete
held-incomplete [] h = cc
held-incomplete (i ∷ is) h = elim (any-append is_held i.tasks _ h) [
  | inl here ↦ rw (outstanding _ (filter is_production i.tasks) (held-outstanding i.tasks here))
  | inr there ↦ rw (held-incomplete is there) (and_false _)
]

evaluate_order-refuses :
    (order : Order) (instances : List SyncInstance)
    → all is_pre_dispatch_production_complete instances ≡ false
    → evaluate_order order instances ≡ Outcome.nothing
unfolding evaluate_order
evaluate_order-refuses order instances h = elim (Bool-cases (not (is_advanceable order.status))) [
  | inl a ↦ rw a
  | inr a ↦ elim (Bool-cases (has_none instances)) [ inl b ↦ rw (a, b) | inr b ↦ rw (a, b, h) ]
]

held-flagged : (ts : List SyncTask) → any is_held ts ≡ true → any is_flagged ts ≡ true
held-flagged [] h = h
held-flagged (t ∷ ts) h = elim (Bool-cases (is_flagged t)) [
  | inl e ↦ rw e
  | inr e ↦ rw e (held-flagged ts (rw e at h))
]

held_active :
    (order : Order) (instances : List SyncInstance) (ts : List SyncTask)
    → any is_flagged ts ≡ true
    → awaiting_dispatch instances ≡ true
    → evaluate_order order instances ≡ Outcome.nothing
    → sync_active order instances ts ≡ Outcome.nothing
unfolding sync_active next_status sync_to book_if_ready
held_active order instances [] f w h = cc
held_active order instances (t ∷ ts) f w h =
    elim (Bool-cases (same_status OrderStatus.improper_order order.status)) [
      | inl a ↦ rw (f, a, w) h
      | inr a ↦ rw (f, a, w) h
    ]

-- When some instance waits for dispatch and a BLOCKED verification task, one that is not a dispatch
-- step, is among the active tasks, the sync writes nothing and does not throw: the order is neither
-- set IMPROPER_ORDER nor readied for dispatch, whatever its status, delivery and shift.
pub sync_order_status_for_order-held :
    (order : Order) (instances : List SyncInstance)
    → any is_held (active_tasks instances) ≡ true
    → awaiting_dispatch instances ≡ true
    → sync_order_status_for_order order instances ≡ Outcome.nothing
unfolding sync_order_status_for_order
sync_order_status_for_order-held order instances f w =
    elim (Bool-cases (not (is_syncable order.status))) [
      | inl n ↦ rw n
      | inr n ↦
          let all_held = any-filter is_held is_active_task (all_tasks instances) f in
          let refused =
            evaluate_order-refuses order instances (held-incomplete instances all_held) in
          rw n (
            held_active order instances (active_tasks instances)
              (held-flagged (active_tasks instances) f) w refused)
    ]
