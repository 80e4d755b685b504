-- ===== src/Workflow/Engine/Correction/RoundTrip.antt =====
-- A task flagged by `flagTaskForCorrection` and given back by `resolveTaskCorrection` of
-- modules/workflow/workflow.engine.ts.
use geeta_backend.Common.{
  ℕ, Bool, true, false, not, Option, none, some, List, [], ◌∷◌, String, find_first, Bool-cases, inl,
  inr, ◌==◌, ◌≡◌, refl, ap, sym, ◌∙◌, arith, ==_iff, ==_refl,
}
use geeta_backend.Common.Result.{
  ok, or_throw, throw_if, not_found, bad_request, >>=-eq-ok, or_throw-eq-ok, throw_if-eq-ok, ok_eq,
}
use geeta_backend.Workflow.TaskStatus.{TaskStatus, assert_task_transition}
use geeta_backend.Workflow.Store.{Store, Task, Instance, find_task, find_instance, update_task}
use geeta_backend.Workflow.Store.Updates.{find_first-holds}
use geeta_backend.Workflow.Store.Keys.{row, row-map, on_row, on_row-KeepsKeys}
use geeta_backend.Workflow.Engine.Rework.{is_blocked}
use geeta_backend.Workflow.Engine.Types.{Effect}
use geeta_backend.Workflow.Engine.Correction.{
  CorrectionResult, is_verification, order_of, flag_task_for_correction, resolve_task_correction,
}

-- The two updates of the row.
abbrev pub flagged : String → Task → Task
flagged reason t = record t { status = TaskStatus.blocked; remarks = some reason }

abbrev pub given_back : ℕ → Task → Task
given_back now t = record t { status = TaskStatus.ready; queued_at = some now; remarks = none }

-- What a flag that returns has found and left.
pub record Flagged (task_id : ℕ) (reason : String) (s s' : Store) (r : CorrectionResult)
    : Type 0 where
  pub task : Task
  pub instance : Instance
  pub found : find_task task_id s ≡ some task
  pub found_instance : find_instance task.workflow_instance_id s ≡ some instance
  pub verification : is_verification task.workflow_step.step_type ≡ true
  pub tasks : s'.tasks ≡ update_task task.id (flagged reason) s.tasks
  pub instances : s'.instances ≡ s.instances
  pub order : r.order_id ≡ instance.order_id

not-false : (b : Bool) → not b ≡ false → b ≡ true
not-false b h = ground arith

flag_task_for_correction-Flagged :
    (task_id actor_id : ℕ) (reason : String) (s : Store) {r : CorrectionResult} {es : List Effect}
    {s' : Store}
    → flag_task_for_correction task_id actor_id reason s ≡ ok (r, es, s')
    → Flagged task_id reason s s' r
unfolding flag_task_for_correction
flag_task_for_correction-Flagged task_id actor_id reason s h =
    let (task, found, h₁) = >>=-eq-ok (or_throw (find_task task_id s) not_found) _ h in
    let (instance, found_instance, h₂) = >>=-eq-ok (order_of task s) _ h₁ in
    let (_, guard, h₃) =
      >>=-eq-ok (throw_if (not (is_verification task.workflow_step.step_type)) bad_request) _ h₂ in
    let (_, _, h₄) = >>=-eq-ok (assert_task_transition task.status TaskStatus.blocked) _ h₃ in
    let e = sym (ok_eq h₄) in
    record {
      task = task;
      instance = instance;
      found = or_throw-eq-ok _ _ found;
      found_instance = or_throw-eq-ok _ _ found_instance;
      verification = not-false _ (throw_if-eq-ok _ _ guard);
      tasks = ap (λ p. p.2.tasks) e;
      instances = ap (λ p. p.2.instances) e;
      order = ap (λ p. p.0.order_id) e;
    }

may_give_back : assert_task_transition TaskStatus.blocked TaskStatus.ready ≡ ok tt
unfolding assert_task_transition
may_give_back = refl

resolve_blocked :
    (now task_id actor_id : ℕ) (remarks : Option String) (s : Store) (t : Task) (i : Instance)
    → find_task task_id s ≡ some t
    → find_instance t.workflow_instance_id s ≡ some i
    → t.status ≡ TaskStatus.blocked
    → (r : CorrectionResult × List Effect × Store) × (resolve_task_correction now task_id actor_id
          remarks s
        ≡ ok r)
      × (r.2.tasks ≡ update_task t.id (given_back now) s.tasks)
      × (r.0.order_id ≡ i.order_id)
unfolding resolve_task_correction
resolve_blocked now task_id actor_id remarks s t i found found_instance blocked =
    let is_blocked_now : is_blocked t.status ≡ true = ap is_blocked blocked in
    let allowed : assert_task_transition t.status TaskStatus.ready ≡ ok tt =
      ap (λ st. assert_task_transition st TaskStatus.ready) blocked ∙ may_give_back in
    rw (found, found_instance, is_blocked_now, allowed) (_, refl, refl, refl)

-- The row that the second call finds.
flagged_row :
    (task_id : ℕ) (reason : String) (s s' : Store) {t : Task}
    → find_task task_id s ≡ some t
    → s'.tasks ≡ update_task t.id (flagged reason) s.tasks
    → find_task task_id s' ≡ some (flagged reason t)
flagged_row task_id reason s s' {t} found tasks =
    let mine : (t.id == task_id) ≡ true =
      find_first-holds (λ (x : Task). x.id == task_id) s.tasks found in
    let keys =
      on_row-KeepsKeys t.id (flagged reason)
        (record { id = λ x. refl; workflow_instance_id = λ x. refl }) in
    ap (λ ts. row task_id ts) tasks
    ∙ row-map (on_row t.id (flagged reason)) (keys.id) task_id s.tasks found
    ∙ rw (==_refl t.id) refl

both_updates :
    (i now : ℕ) (reason : String) (ts : List Task)
    → update_task i (given_back now) (update_task i (flagged reason) ts)
      ≡ update_task i (given_back now) ts
both_updates i now reason [] = refl
both_updates i now reason (t ∷ ts) = elim (Bool-cases (t.id == i)) [
  | inl e ↦ rw (e, e) (ap (λ us. given_back now t ∷ us) (both_updates i now reason ts))
  | inr e ↦ rw (e, e) (ap (λ us. t ∷ us) (both_updates i now reason ts))
]

-- When `flagTaskForCorrection` returns, the task is a verification task, and `resolveTaskCorrection`
-- for it on the store it left, by whomever and at whatever time, returns for the same order: the tasks
-- are then those before the flag, with this one READY, queued now and without remarks.
pub resolve_task_correction-flag_task_for_correction :
    (task_id actor_id : ℕ) (reason : String) (now later_actor : ℕ) (remarks : Option String)
    (s : Store) {r : CorrectionResult} {es : List Effect} {s' : Store}
    → flag_task_for_correction task_id actor_id reason s ≡ ok (r, es, s')
    → (t : Task) × (find_task task_id s ≡ some t)
      × (is_verification t.workflow_step.step_type ≡ true)
      × ((done : CorrectionResult × List Effect × Store) × (resolve_task_correction now task_id
              later_actor remarks s'
            ≡ ok done)
          × (done.2.tasks ≡ update_task task_id (given_back now) s.tasks)
          × (done.0.order_id ≡ r.order_id))
resolve_task_correction-flag_task_for_correction task_id actor_id reason now later_actor remarks s
      {s' = s'} h =
    let f = flag_task_for_correction-Flagged task_id actor_id reason s h in
    let mine : f.task.id ≡ task_id =
      (==_iff _ _).0 (find_first-holds (λ (x : Task). x.id == task_id) s.tasks f.found) in
    let (done, returns, tasks, order) =
      resolve_blocked now task_id later_actor remarks s' (flagged reason f.task) f.instance
        (flagged_row task_id reason s s' f.found f.tasks)
        (ap (λ is. find_first (λ (x : Instance). x.id == f.task.workflow_instance_id) is)
            f.instances
          ∙ f.found_instance)
        refl in
    (
      f.task,
      f.found,
      f.verification,
      (
        done,
        returns,
        tasks
            ∙ ap (update_task f.task.id (given_back now)) f.tasks
            ∙ both_updates f.task.id now reason s.tasks
            ∙ ap (λ i. update_task i (given_back now) s.tasks) mine,
        order ∙ sym f.order,
      ),
    )
