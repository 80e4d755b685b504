-- ===== src/Workflow/Engine/Advance/Inversion.antt =====
-- What an `advance` that succeeded went through.
use geeta_backend.Common.{
  ℕ, Bool, List, false, some, map, ◌≡◌, ap, sym, true, ==_iff, and_true, ◌==◌, ◌&&◌,
}
use geeta_backend.Common.Result.{ok, >>=-eq-ok, throw_if-eq-ok, or_throw-eq-ok, ok_eq}
use geeta_backend.Workflow.TaskStatus.{TaskStatus, assert_task_transition}
use geeta_backend.Workflow.InstanceStatus.{is_workflow_terminal}
use geeta_backend.Workflow.Store.{
  Store, Task, Instance, find_instance, find_task_of, tasks_of, update_task, update_instance,
  update_task_statuses, ready_update,
}
use geeta_backend.Workflow.Store.Updates.{find_first-holds}
use geeta_backend.Workflow.Dependency.{resolve_ready_task_ids}
use geeta_backend.Workflow.Engine.Types.{AdvanceInput, AdvanceResult}
use geeta_backend.Workflow.Engine.Advance.{
  advance_tx, advance_task, close_task, resolve_advance_target_status, status_by_task_id, task_ref,
  Settled, settle_instance, all_complete,
}

-- The rows that the transaction found, and the guards that they passed.
pub record Accepted (input : AdvanceInput) (s : Store) : Type 0 where
  pub instance : Instance
  pub task : Task
  pub found : find_instance input.workflow_instance_id s ≡ some instance
  pub live : is_workflow_terminal instance.status ≡ false
  pub found_task : find_task_of input.workflow_instance_id input.task_id s ≡ some task
  pub allowed :
      assert_task_transition task.status (resolve_advance_target_status input.action) ≡ ok tt

pub Accepted-task_id :
    {input : AdvanceInput} {s : Store} (a : Accepted input s) → a.task.id ≡ input.task_id
Accepted-task_id {input} {s} a =
    (==_iff _ _).0
      (and_true _ _ (
        find_first-holds
          (λ (t : Task).
            t.id == input.task_id && t.workflow_instance_id == input.workflow_instance_id)
          s.tasks a.found_task)).0

pub Accepted-instance_id :
    {input : AdvanceInput} {s : Store} (a : Accepted input s)
    → a.instance.id ≡ input.workflow_instance_id
Accepted-instance_id {input} {s} a =
    (==_iff _ _).0
      (find_first-holds (λ (x : Instance). x.id == input.workflow_instance_id) s.instances a.found)

pub advance_tx-inv :
    (now : ℕ) (input : AdvanceInput) (s : Store) {r : AdvanceResult × Store}
    → advance_tx now input s ≡ ok r
    → (a : Accepted input s) × (advance_task now input a.instance a.task s ≡ ok r)
unfolding advance_tx
advance_tx-inv now input s h =
    let (instance, found, h₁) = >>=-eq-ok _ _ h in
    let (_, live, h₂) = >>=-eq-ok _ _ h₁ in
    let (task, found_task, h₃) = >>=-eq-ok _ _ h₂ in
    let (_, allowed, h₄) = >>=-eq-ok _ _ h₃ in
    (
      record {
        instance = instance;
        task = task;
        found = or_throw-eq-ok _ _ found;
        live = throw_if-eq-ok _ _ live;
        found_task = or_throw-eq-ok _ _ found_task;
        allowed = allowed;
      },
      h₄,
    )

module _ (now : ℕ) (input : AdvanceInput) (instance : Instance) (task : Task) (s : Store) where
  -- The rows in the middle of the transaction.
  abbrev pub closed_tasks : List Task
  closed_tasks = update_task task.id (close_task now input) s.tasks

  abbrev pub target : TaskStatus
  target = resolve_advance_target_status input.action

  abbrev pub newly_ready : List ℕ
  newly_ready =
      resolve_ready_task_ids (map task_ref (tasks_of instance.id closed_tasks)) s.dependencies
        (status_by_task_id (tasks_of instance.id closed_tasks) task.id target) true

  abbrev pub finished : Bool
  finished = all_complete task.id target (tasks_of instance.id closed_tasks)

  pub record Outcome (r : AdvanceResult) (s' : Store) : Type 0 where
    pub settled : Settled
    pub settles : settle_instance now instance finished newly_ready ≡ ok settled
    pub ready_ids : r.newly_ready_task_ids ≡ newly_ready
    pub completed : r.workflow_completed ≡ settled.1
    pub status : r.workflow_status ≡ settled.0.status
    pub tasks : s'.tasks ≡ update_task_statuses (map (ready_update now) newly_ready) closed_tasks
    pub instances : s'.instances ≡ update_instance instance.id (λ _. settled.0) s.instances

  pub advance_task-inv :
      {r : AdvanceResult} {s' : Store}
      → advance_task now input instance task s ≡ ok (r, s')
      → Outcome r s'
  unfolding advance_task
  advance_task-inv h =
      let (settled, settles, h₁) = >>=-eq-ok _ _ h in
      let e = sym (ok_eq h₁) in
      record {
        settled = settled;
        settles = settles;
        ready_ids = ap (λ p. p.0.newly_ready_task_ids) e;
        completed = ap (λ p. p.0.workflow_completed) e;
        status = ap (λ p. p.0.workflow_status) e;
        tasks = ap (λ p. p.1.tasks) e;
        instances = ap (λ p. p.1.instances) e;
      }
