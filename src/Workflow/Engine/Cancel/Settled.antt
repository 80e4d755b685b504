-- ===== src/Workflow/Engine/Cancel/Settled.antt =====
-- After `cancelInstance` nothing of the workflow is open.
use geeta_backend.Common.{
  ◌⊎◌, ℕ, Bool, true, false, not, ◌&&◌, List, [], ◌∷◌, some, ◌≡◌, refl, arith, ◌==◌, Bool-cases,
  inl, inr, ◌∙◌, ap, sym, map, all, elem, if◌then◌else◌, find_first, ==_iff,
}
use mathlib.Core.Path.{subst}
use geeta_backend.Common.Result.{>>=-eq-ok, or_throw-eq-ok, ok_eq, ok}
use geeta_backend.Workflow.TaskStatus.{TaskStatus, is_task_terminal}
use geeta_backend.Workflow.InstanceStatus.{
  InstanceStatus, is_workflow_terminal, assert_workflow_instance_transition,
}
use geeta_backend.Workflow.Store.{Store, Task, Instance, tasks_of, find_instance, update_instance}
use geeta_backend.Workflow.Store.Updates.{UniqueIds, some_eq, find_first-holds, map_ext}
use geeta_backend.Workflow.Store.Keys.{row, row_self, elem-filter, filter-filter, ids_of, KeepsKeys}
use geeta_backend.Workflow.Engine.Cancel.{
  CancelInput, CancelResult, cancel_instance, cancel_open_instance, cancel_tasks, open_task_ids,
}

-- What the call does to a row.
abbrev pub cancelled : ℕ → ℕ → Task → Task
cancelled now w t =
    if t.workflow_instance_id == w && not (is_task_terminal t.status)
    then record t { status = TaskStatus.cancelled; completed_at = some now }
    else t

open_rows :
    (w : ℕ) (ts : List Task) (t : Task)
    → UniqueIds ts
    → row t.id ts ≡ some t
    → elem t.id (open_task_ids w ts)
      ≡ (t.workflow_instance_id == w && not (is_task_terminal t.status))
open_rows w ts t u h =
    ap (λ us. elem t.id (ids_of us)) (filter-filter _ _ ts)
    ∙ elem-filter (λ (x : Task). x.workflow_instance_id == w && not (is_task_terminal x.status)) ts
        t u h

pub cancel_tasks-cancelled :
    (now w : ℕ) (ts : List Task)
    → UniqueIds ts
    → cancel_tasks now (open_task_ids w ts) ts ≡ map (cancelled now w) ts
cancel_tasks-cancelled now w ts u =
    map_ext (λ (t : Task). row t.id ts ≡ some t) _ _ (λ t h. rw (open_rows w ts t u h)) ts
      (row_self ts u)

pub cancelled-KeepsKeys : (now w : ℕ) → KeepsKeys (cancelled now w)
cancelled-KeepsKeys now w = record {
  id = λ t. elim (Bool-cases (t.workflow_instance_id == w && not (is_task_terminal t.status))) [
    | inl e ↦ rw e
    | inr e ↦ rw e
  ];
  workflow_instance_id = λ t.
      elim (Bool-cases (t.workflow_instance_id == w && not (is_task_terminal t.status))) [
        | inl e ↦ rw e
        | inr e ↦ rw e
      ];
}

abbrev pub is_final : Task → Bool
is_final t = is_task_terminal t.status

all-cancelled :
    (now w : ℕ) (ts : List Task) → all is_final (tasks_of w (map (cancelled now w) ts)) ≡ true
all-cancelled now w [] = refl
all-cancelled now w (t ∷ ts) = elim (Bool-cases (t.workflow_instance_id == w)) [
  | inl mine ↦ elim (Bool-cases (is_task_terminal t.status)) [
    | inl e ↦ rw (mine, e, mine, e) (all-cancelled now w ts)
    | inr e ↦ rw (mine, e, mine) (all-cancelled now w ts)
  ]
  | inr other ↦ rw (other, other) (all-cancelled now w ts)
]

-- Every status that is not final may become CANCELLED, so a workflow that exists can be cancelled.
pub live-cancellable :
    (st : InstanceStatus)
    → is_workflow_terminal st ≡ false
    → assert_workflow_instance_transition st InstanceStatus.cancelled ≡ ok tt
unfolding assert_workflow_instance_transition
live-cancellable st h = ground arith

find_updated :
    (i : ℕ) (f : Instance → Instance)
    → ((x : Instance) → (f x).id ≡ x.id)
    → (xs : List Instance) {x : Instance} → find_first (λ (y : Instance). y.id == i) xs ≡ some x
    → find_first (λ (y : Instance). y.id == i) (update_instance i f xs) ≡ some (f x)
find_updated i f k [] h = cc
find_updated i f k (y ∷ xs) h = elim (Bool-cases (y.id == i)) [
  | inl e ↦ rw (e, ap (λ v. v == i) (k y) ∙ e) (ap (λ o. some (f o)) (some_eq (rw e at h)))
  | inr e ↦ rw (e, e) (find_updated i f k xs (rw e at h))
]

-- The row of a cancelled workflow.
abbrev pub stamped : ℕ → Instance → Instance
stamped now x = record x { status = InstanceStatus.cancelled; completed_at = some now }

module _ (now : ℕ) (input : CancelInput) (s : Store) {instance : Instance}
    (found : find_instance input.workflow_instance_id s ≡ some instance) where
  pub cancel_instance-live :
      is_workflow_terminal instance.status ≡ false
      → cancel_instance now input s ≡ ok (cancel_open_instance now input instance s)
  unfolding cancel_instance
  cancel_instance-live live = rw (found, live, live-cancellable instance.status live)

  instance_id : instance.id ≡ input.workflow_instance_id
  instance_id =
      (==_iff _ _).0
        (find_first-holds (λ (x : Instance). x.id == input.workflow_instance_id) s.instances found)

  abbrev after : Store
  after = (cancel_open_instance now input instance s).1

  after_instance : find_instance input.workflow_instance_id after ≡ some (stamped now instance)
  unfolding cancel_open_instance
  after_instance =
      subst
        (λ i.
          find_first (λ (x : Instance). x.id == input.workflow_instance_id)
            (update_instance i (stamped now) s.instances)
          ≡ some (stamped now instance))
        (sym instance_id)
        (find_updated input.workflow_instance_id (stamped now) (λ x. refl) s.instances found)

  cancel_instance-again :
      (later : ℕ)
      → cancel_instance later input after
        ≡ ok (
          record { workflow_instance_id = input.workflow_instance_id; cancelled_task_ids = [] },
          after,
        )
  unfolding cancel_instance
  cancel_instance-again later = rw after_instance (
      ap (λ i. ok (record { workflow_instance_id = i; cancelled_task_ids = [] }, after))
        instance_id)

  -- `cancelInstance` on a workflow that exists and is not in a final status, when task ids are
  -- distinct, returns. Its row is then CANCELLED and stamped, a task is CANCELLED if it belongs to the
  -- workflow and was not final and is unchanged otherwise, each task of the workflow is final, and
  -- cancelling again at any time returns no task ids and changes nothing.
  pub cancel_instance-settles :
      (later : ℕ)
      → UniqueIds s.tasks
      → is_workflow_terminal instance.status ≡ false
      → (cancel_instance now input s ≡ ok (cancel_open_instance now input instance s))
        × (find_instance input.workflow_instance_id after ≡ some (stamped now instance))
        × (after.tasks ≡ map (cancelled now input.workflow_instance_id) s.tasks)
        × (all is_final (tasks_of input.workflow_instance_id after.tasks) ≡ true)
        × (cancel_instance later input after
            ≡ ok (
              record { workflow_instance_id = input.workflow_instance_id; cancelled_task_ids = [] },
              after,
            ))
  unfolding cancel_open_instance
  cancel_instance-settles later u live =
      let tasks : after.tasks ≡ map (cancelled now input.workflow_instance_id) s.tasks =
        rw instance_id (cancel_tasks-cancelled now input.workflow_instance_id s.tasks u) in
      (
        cancel_instance-live live,
        after_instance,
        tasks,
        rw tasks (all-cancelled now input.workflow_instance_id s.tasks),
        cancel_instance-again later,
      )

cancel_instance-inv :
    (now : ℕ) (input : CancelInput) (s : Store) {r : CancelResult} {s' : Store}
    → cancel_instance now input s ≡ ok (r, s')
    → (instance : Instance) × (find_instance input.workflow_instance_id s ≡ some instance)
      × ((s'.tasks ≡ s.tasks)
          ⊎ (s'.tasks ≡ cancel_tasks now (open_task_ids instance.id s.tasks) s.tasks))
unfolding cancel_instance cancel_open_instance
cancel_instance-inv now input s h =
    let (instance, found, h₁) = >>=-eq-ok _ _ h in
    (
      instance,
      or_throw-eq-ok _ _ found,
      elim (Bool-cases (is_workflow_terminal instance.status)) [
        | inl e ↦ inl (ap (λ p. p.1.tasks) (sym (ok_eq (rw e at h₁))))
        | inr e ↦
            let (_, _, h₂) =
              >>=-eq-ok
                (assert_workflow_instance_transition instance.status InstanceStatus.cancelled) _
                (rw e at h₁) in
            inr (ap (λ p. p.1.tasks) (sym (ok_eq h₂)))
      ],
    )

-- A call that returns leaves the tasks, or cancels those of the workflow.
pub cancel_instance-tasks :
    (now : ℕ) (input : CancelInput) (s : Store) {r : CancelResult} {s' : Store}
    → UniqueIds s.tasks
    → cancel_instance now input s ≡ ok (r, s')
    → (s'.tasks ≡ s.tasks) ⊎ (s'.tasks ≡ map (cancelled now input.workflow_instance_id) s.tasks)
cancel_instance-tasks now input s u h =
    let (instance, found, tasks) = cancel_instance-inv now input s h in
    elim tasks [
      | inl same ↦ inl same
      | inr all_of ↦ inr (
          all_of
          ∙ rw (instance_id now input s found)
              (cancel_tasks-cancelled now input.workflow_instance_id s.tasks u))
    ]
