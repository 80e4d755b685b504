-- ===== src/Orders/StatusSync/Stage.antt =====
-- The status that the sync gives an order.
use geeta_backend.Common.{
  ℕ, ◌≤◌, ◌<◌, Bool, true, false, not, ◌||◌, Option, none, some, List, [], ◌∷◌, any, all, All,
  if◌then◌else◌, ltb, ltb→lt, ◌≡◌, refl, sym, ap, ◌∙◌, ◌⊎◌, inl, inr, Bool-cases, Option-cases,
  some_eq, arith,
}
use mathlib.Core.Path.{subst}
use geeta_backend.Workflow.Store.{StepType}
use geeta_backend.Orders.Status.{OrderStatus, same_status}
use geeta_backend.Orders.StatusSync.{
  SyncTask, SyncInstance, Order, Outcome, written, is_advanceable, has_none, evaluate_order,
  is_pre_dispatch_production_complete, has_open_dispatch_work, awaiting_dispatch, status_rank,
  is_syncable, is_flagged, is_blocked, is_design_work, stage_of, step_type_to_order_status,
  highest_stage, active_tasks, next_status, book_if_ready, is_transition_allowed, sync_to,
  sync_active, sync_order_status_for_order,
}

-- One of the tasks has this stage.
abbrev pub SomeAt : OrderStatus → List SyncTask → Type 0
SomeAt s [] = ⊥
SomeAt s (t ∷ ts) = (stage_of t ≡ some s) ⊎ SomeAt s ts

abbrev pub RankBelow : OrderStatus → Option OrderStatus → Type 0
RankBelow s none = Unit
RankBelow s (some x) = status_rank x ≤ status_rank s

-- The stage of some task that no task's stage ranks above.
pub record IsHighest (tasks : List SyncTask) (s : OrderStatus) : Type 0 where
  pub reached : SomeAt s tasks
  pub highest : All (λ (t : SyncTask). RankBelow s (stage_of t)) tasks

-- The best so far has the rank so far.
abbrev HasRank : ℕ → Option OrderStatus → Type 0
HasRank rank none = Unit
HasRank rank (some b) = status_rank b ≡ rank

record IsBest (ts : List SyncTask) (rank : ℕ) (best : Option OrderStatus) (s : OrderStatus)
    : Type 0 where
  reached : SomeAt s ts ⊎ (best ≡ some s)
  above : rank ≤ status_rank s
  highest : All (λ (t : SyncTask). RankBelow s (stage_of t)) ts

below : (a b c : ℕ) → ltb a b ≡ false → a ≤ c → b ≤ c
below a b c l h = ground arith

highest_stage-IsBest :
    (ts : List SyncTask) (rank : ℕ) (best : Option OrderStatus) (s : OrderStatus)
    → HasRank rank best
    → highest_stage ts rank best ≡ some s
    → IsBest ts rank best s
unfolding highest_stage
highest_stage-IsBest [] rank best s r h = record {
  reached = inr h;
  above = let e : status_rank s ≡ rank = subst (HasRank rank) h r in omega (arith, e);
  highest = tt;
}
highest_stage-IsBest (t ∷ ts) rank best s r h = elim (Option-cases (stage_of t)) [
  | inl e ↦
      let q = highest_stage-IsBest ts rank best s r (rw (e, highest_stage) at h) in
      record {
        reached = elim q.reached [ inl a ↦ inl (inr a) | inr b ↦ inr b ];
        above = q.above;
        highest = (rw e tt, q.highest);
      }
  | inr (x, e) ↦ elim (Bool-cases (ltb rank (status_rank x))) [
    | inl l ↦
        let q =
          highest_stage-IsBest ts (status_rank x) (some x) s refl (rw (e, highest_stage, l) at h) in
        record {
          reached = elim q.reached [ inl a ↦ inl (inr a) | inr b ↦ inl (inl (e ∙ b)) ];
          above = omega (arith, ltb→lt rank (status_rank x) l, q.above);
          highest = (rw e q.above, q.highest);
        }
    | inr l ↦
        let q = highest_stage-IsBest ts rank best s r (rw (e, highest_stage, l) at h) in
        record {
          reached = elim q.reached [ inl a ↦ inl (inr a) | inr b ↦ inr b ];
          above = q.above;
          highest = (rw e (below rank (status_rank x) (status_rank s) l q.above), q.highest);
        }
  ]
]

-- Why the sync takes this status: a flagged task, or else the highest stage.
abbrev pub IsNext : List SyncTask → OrderStatus → Type 0
IsNext active s =
    ((any is_flagged active ≡ true) × (s ≡ OrderStatus.improper_order))
    ⊎ ((any is_flagged active ≡ false) × IsHighest active s)

next_status-IsNext :
    (active : List SyncTask) (s : OrderStatus) → next_status active ≡ some s → IsNext active s
unfolding next_status
next_status-IsNext active s h = elim (Bool-cases (any is_flagged active)) [
  | inl f ↦ inl (f, sym (some_eq (rw f at h)))
  | inr f ↦
      let q = highest_stage-IsBest active 0 none s tt (rw f at h) in
      inr (f, record { reached = elim q.reached [ inl a ↦ a | inr b ↦ cc b ]; highest = q.highest })
]

last_of : (a b c : Bool) → not (a || (b || c)) ≡ false → a ≡ false → b ≡ false → c ≡ true
last_of a b c h x y = ground arith

is_transition_allowed_cases :
    (from to : OrderStatus)
    → not (is_transition_allowed from to) ≡ false
    → (same_status to OrderStatus.improper_order ≡ true)
      ⊎ ((same_status from OrderStatus.improper_order ≡ true) ⊎ (status_rank from < status_rank to))
is_transition_allowed_cases from to h =
    elim (Bool-cases (same_status to OrderStatus.improper_order)) [
      | inl a ↦ inl a
      | inr a ↦ elim (Bool-cases (same_status from OrderStatus.improper_order)) [
        | inl b ↦ inr (inl b)
        | inr b ↦ inr (inr (ltb→lt _ _ (last_of _ _ _ h a b)))
      ]
    ]

-- What a status set to a stage has behind it.
pub record IsAdvance (status : OrderStatus) (instances : List SyncInstance) (next : OrderStatus)
    : Type 0 where
  pub changed : same_status next status ≡ false
  pub reason : IsNext (active_tasks instances) next
  pub forward :
      (same_status next OrderStatus.improper_order ≡ true)
      ⊎ ((same_status status OrderStatus.improper_order ≡ true)
          ⊎ (status_rank status < status_rank next))
  pub not_awaiting : awaiting_dispatch instances ≡ false

-- What READY_FOR_DISPATCH or COMPLETED has behind it.
pub record IsReadied (order : Order) (instances : List SyncInstance) (next : OrderStatus)
    : Type 0 where
  pub advanceable : is_advanceable order.status ≡ true
  pub complete : all is_pre_dispatch_production_complete instances ≡ true
  pub open_dispatch : any has_open_dispatch_work instances ≡ true
  pub delivery :
      ((order.delivery_required ≡ true)
        × (order.shift_found ≡ true)
        × (next ≡ OrderStatus.ready_for_dispatch))
      ⊎ ((order.delivery_required ≡ false) × (next ≡ OrderStatus.completed))

-- Every stage of a task ranks below READY_FOR_DISPATCH.
step_ranks :
    (y : StepType) (s : OrderStatus)
    → step_type_to_order_status y ≡ some s
    → ltb (status_rank s) 9 ≡ true
step_ranks y s h = ground arith

stage_of-ranks :
    (t : SyncTask) (s : OrderStatus) → stage_of t ≡ some s → ltb (status_rank s) 9 ≡ true
unfolding stage_of
stage_of-ranks t s h = elim (Bool-cases (is_blocked t)) [
  | inl b ↦ cc (rw b at h)
  | inr b ↦ elim (Bool-cases (is_design_work t)) [
    | inl d ↦ let e : OrderStatus.design ≡ s = some_eq (rw (b, d) at h) in rw (sym e)
    | inr d ↦ step_ranks t.step_type s (rw (b, d) at h)
  ]
]

IsNext-ranks :
    (active : List SyncTask) (s : OrderStatus) → IsNext active s → ltb (status_rank s) 9 ≡ true
IsNext-ranks active s (inl (_, e)) = rw e
IsNext-ranks active s (inr (_, h)) = reached active h.reached
  where
    reached : (ts : List SyncTask) → SomeAt s ts → ltb (status_rank s) 9 ≡ true
    reached [] a = absurd a
    reached (t ∷ ts) (inl e) = stage_of-ranks t s e
    reached (t ∷ ts) (inr a) = reached ts a

guard_passed : (b : Bool) → not b ≡ false → b ≡ true
guard_passed b h = ground arith

evaluate_order-IsReadied :
    (order : Order) (instances : List SyncInstance) (next : OrderStatus)
    → written (evaluate_order order instances) ≡ some next
    → IsReadied order instances next
unfolding evaluate_order
evaluate_order-IsReadied order instances next h =
    elim (Bool-cases (not (is_advanceable order.status))) [
      | inl a ↦ cc (rw a at h)
      | inr a ↦ elim (Bool-cases (has_none instances)) [
        | inl b ↦ cc (rw (a, b) at h)
        | inr b ↦ elim (Bool-cases (not (all is_pre_dispatch_production_complete instances))) [
          | inl c ↦ cc (rw (a, b, c) at h)
          | inr c ↦ elim (Bool-cases (not (any has_open_dispatch_work instances))) [
            | inl d ↦ cc (rw (a, b, c, d) at h)
            | inr d ↦ record {
              advanceable = guard_passed _ a;
              complete = guard_passed _ c;
              open_dispatch = guard_passed _ d;
              delivery = delivered order next (rw (a, b, c, d) at h);
            }
          ]
        ]
      ]
    ]
  where
    delivered :
        (o : Order) (next : OrderStatus)
        → written (
            if not o.delivery_required
            then Outcome.ready_for_pickup
            else if o.shift_found
            then Outcome.ready_for_dispatch
            else Outcome.failed)
          ≡ some next
        → ((o.delivery_required ≡ true)
            × (o.shift_found ≡ true)
            × (next ≡ OrderStatus.ready_for_dispatch))
          ⊎ ((o.delivery_required ≡ false) × (next ≡ OrderStatus.completed))
    delivered o next h = elim (Bool-cases o.delivery_required) [
      | inr a ↦ inr (a, sym (some_eq (rw a at h)))
      | inl a ↦ elim (Bool-cases o.shift_found) [
        | inl b ↦ inl (a, b, sym (some_eq (rw (a, b) at h)))
        | inr b ↦ cc (rw (a, b) at h)
      ]
    ]

book_if_ready-IsReadied :
    (order : Order) (instances : List SyncInstance) (next : OrderStatus)
    → written (book_if_ready order instances) ≡ some next
    → IsReadied order instances next
unfolding book_if_ready
book_if_ready-IsReadied order instances next h = elim (Bool-cases (awaiting_dispatch instances)) [
  | inl w ↦ evaluate_order-IsReadied order instances next (rw w at h)
  | inr w ↦ cc (rw w at h)
]

-- Why a sync writes a status.
abbrev pub IsWritten : Order → List SyncInstance → OrderStatus → Type 0
IsWritten order instances next =
    (is_syncable order.status ≡ true)
    × (IsAdvance order.status instances next ⊎ IsReadied order instances next)

sync_to-IsWritten :
    (order : Order) (next : OrderStatus) (instances : List SyncInstance) (o : Option OrderStatus)
    → next_status (active_tasks instances) ≡ o
    → written (sync_to order instances o) ≡ some next
    → IsAdvance order.status instances next ⊎ IsReadied order instances next
unfolding sync_to
sync_to-IsWritten order next instances none n h =
    inr (book_if_ready-IsReadied order instances next h)
sync_to-IsWritten order next instances (some s) n h =
    elim (Bool-cases (same_status s order.status)) [
      | inl a ↦ inr (book_if_ready-IsReadied order instances next (rw a at h))
      | inr a ↦ elim (Bool-cases (not (is_transition_allowed order.status s))) [
        | inl b ↦ cc (rw (a, b) at h)
        | inr b ↦
            let r = next_status-IsNext (active_tasks instances) s n in
            elim (Bool-cases (awaiting_dispatch instances)) [
              | inl w ↦ inr (
                  book_if_ready-IsReadied order instances next
                    (rw (a, b, w, IsNext-ranks (active_tasks instances) s r) at h))
              | inr w ↦ inl (
                  subst (IsAdvance order.status instances) (some_eq (rw (a, b, w) at h)) record {
                    changed = a;
                    reason = r;
                    forward = is_transition_allowed_cases order.status s b;
                    not_awaiting = w;
                  })
            ]
      ]
    ]

sync_active-IsWritten :
    (order : Order) (next : OrderStatus) (instances : List SyncInstance) (ts : List SyncTask)
    → active_tasks instances ≡ ts
    → written (sync_active order instances ts) ≡ some next
    → IsAdvance order.status instances next ⊎ IsReadied order instances next
unfolding sync_active
sync_active-IsWritten order next instances [] e h = cc
sync_active-IsWritten order next instances (t ∷ ts) e h =
    sync_to-IsWritten order next instances _ (ap next_status e) h

-- When a sync writes a status, the old status is one that is synced, and there are two cases. Either
-- no instance waits for dispatch, the new status is another than the old, it is IMPROPER_ORDER if a
-- BLOCKED verification task is among the active ones and else the stage of an active task that no
-- active task's stage ranks above, and the rank goes up unless one of the two statuses is
-- IMPROPER_ORDER. Or the order is readied: the old status is one that `evaluateOrder` advances, in
-- every instance all work before dispatch is done, in some instance dispatch work is open, and the new
-- status is READY_FOR_DISPATCH when the order is to be delivered and a shift was found for
-- it, COMPLETED when it is to be picked up.
pub sync_order_status_for_order-IsWritten :
    (order : Order) (next : OrderStatus) (instances : List SyncInstance)
    → written (sync_order_status_for_order order instances) ≡ some next
    → IsWritten order instances next
unfolding sync_order_status_for_order
sync_order_status_for_order-IsWritten order next instances h =
    elim (Bool-cases (is_syncable order.status)) [
      | inl y ↦ (
        y,
        sync_active-IsWritten order next instances (active_tasks instances) refl
            (rw (y, sync_order_status_for_order) at h),
      )
      | inr y ↦ cc (rw (y, sync_order_status_for_order) at h)
    ]
