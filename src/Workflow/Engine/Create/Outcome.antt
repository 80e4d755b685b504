-- ===== src/Workflow/Engine/Create/Outcome.antt =====
-- When `createForProductionOrder` of modules/workflow/workflow.engine.ts returns, and with what.
use geeta_backend.Common.{
  ℕ, true, false, some, List, [], ◌∷◌, ◌++◌, find_first, if◌then◌else◌, ◌==◌, ◌≡◌, ◌↔◌, refl, ap,
  sym, ◌∙◌, Bool-cases, inl, inr, ==_iff,
}
use mathlib.Core.Path.{subst}
use geeta_backend.Common.Result.{ok, err, conflict, throw_if, >>=-eq-ok, throw_if-eq-ok, ok_eq}
use geeta_backend.Workflow.Skip.{TextOps}
use geeta_backend.Workflow.InstanceStatus.{InstanceStatus, assert_workflow_instance_transition}
use geeta_backend.Workflow.Store.{Store, Template, Task, Instance, TimelineEvent}
use geeta_backend.Workflow.Engine.Advance.{is_empty}
use geeta_backend.Workflow.Engine.Create.{
  CreateInput, CreationResult, NewIds, has_instance, start_new_instance, new_instance,
  create_from_template, created_tasks, created_dependencies, ready_at_creation,
  resolve_template_for_product_version, create_for_production_order,
}

start_new_instance-returns :
    (now : ℕ) (ids : NewIds) (input : CreateInput) (template : Template) (created : List Task)
    (ready : List ℕ)
    → (x : Instance × List TimelineEvent) × (start_new_instance now
          (new_instance ids input template)
          created
          ready
        ≡ ok x)
unfolding start_new_instance assert_workflow_instance_transition
start_new_instance-returns now ids input template created [] = (_, refl)
start_new_instance-returns now ids input template created (i ∷ ready) = (_, refl)

create_from_template-returns :
    (ops : TextOps) (now : ℕ) (ids : NewIds) (input : CreateInput) (template : Template) (s : Store)
    → (r : CreationResult × Store) × (create_from_template ops now ids input template s ≡ ok r)
unfolding create_from_template
create_from_template-returns ops now ids input template s =
    let started =
      start_new_instance-returns now ids input template (created_tasks ids template)
        (ready_at_creation ops ids input template) in
    rw started.1 (_, refl)

pub create_for_production_order-returns_iff :
    (ops : TextOps) (now : ℕ) (ids : NewIds) (input : CreateInput) (s : Store)
    → ((r : CreationResult × Store) × (create_for_production_order ops now ids input s ≡ ok r)) ↔ (
        (has_instance input.production_order_item_id s ≡ false)
        × ((template : Template) × (resolve_template_for_product_version
                input.product_offering_version_id s
              ≡ ok template)))
unfolding create_for_production_order
create_for_production_order-returns_iff ops now ids input s = (
  λ made.
      let (_, guard, h₁) =
        >>=-eq-ok (throw_if (has_instance input.production_order_item_id s) conflict) _ made.1 in
      let (template, resolved, _) =
        >>=-eq-ok (resolve_template_for_product_version input.product_offering_version_id s) _ h₁ in
      (throw_if-eq-ok _ _ guard, (template, resolved)),
  λ found. rw (found.0, found.1.1) (create_from_template-returns ops now ids input found.1.0 s),
)

start_new_instance-row :
    (now : ℕ) (ids : NewIds) (input : CreateInput) (template : Template) (created : List Task)
    (ready : List ℕ) {x : Instance × List TimelineEvent}
    → start_new_instance now (new_instance ids input template) created ready ≡ ok x
    → (x.0.status ≡ (if is_empty ready then InstanceStatus.initialized else InstanceStatus.running))
      × (x.0.production_order_item_id ≡ input.production_order_item_id)
      × (x.0.id ≡ ids.instance_id)
unfolding start_new_instance assert_workflow_instance_transition
start_new_instance-row now ids input template created [] h =
    let e = sym (ok_eq h) in
    (ap (λ x. x.0.status) e, ap (λ x. x.0.production_order_item_id) e, ap (λ x. x.0.id) e)
start_new_instance-row now ids input template created (i ∷ ready) h =
    let e = sym (ok_eq h) in
    (ap (λ x. x.0.status) e, ap (λ x. x.0.production_order_item_id) e, ap (λ x. x.0.id) e)

-- What `createForProductionOrder` has made when it returns.
pub record Created (ops : TextOps) (ids : NewIds) (input : CreateInput) (s s' : Store)
    (r : CreationResult) : Type 0 where
  pub template : Template
  pub instance : Instance
  pub resolved :
      resolve_template_for_product_version input.product_offering_version_id s ≡ ok template
  pub instances : s'.instances ≡ s.instances ++ instance ∷ []
  pub item : instance.production_order_item_id ≡ input.production_order_item_id
  pub id : instance.id ≡ ids.instance_id
  pub dependencies : s'.dependencies ≡ s.dependencies ++ created_dependencies ids template
  pub ready : r.ready_task_ids ≡ ready_at_creation ops ids input template
  pub status :
      instance.status
      ≡ (if is_empty r.ready_task_ids then InstanceStatus.initialized else InstanceStatus.running)

-- What a template is made into.
pub create_from_template-Created :
    (ops : TextOps) (now : ℕ) (ids : NewIds) (input : CreateInput) (template : Template) (s : Store)
    {r : CreationResult} {s' : Store}
    → resolve_template_for_product_version input.product_offering_version_id s ≡ ok template
    → create_from_template ops now ids input template s ≡ ok (r, s')
    → Created ops ids input s s' r
unfolding create_from_template
create_from_template-Created ops now ids input template s resolved h =
    let ready = ready_at_creation ops ids input template in
    let (started, starts, h₁) =
      >>=-eq-ok
        (start_new_instance now (new_instance ids input template) (created_tasks ids template)
          ready)
        _ h in
    let (status, item, id) =
      start_new_instance-row now ids input template (created_tasks ids template) ready starts in
    let e = sym (ok_eq h₁) in
    record {
      template = template;
      instance = started.0;
      resolved = resolved;
      instances = ap (λ p. p.1.instances) e;
      item = item;
      id = id;
      dependencies = ap (λ p. p.1.dependencies) e;
      ready = ap (λ p. p.0.ready_task_ids) e;
      status =
          status
          ∙ ap
              (λ p.
                if is_empty p.0.ready_task_ids
                then InstanceStatus.initialized
                else InstanceStatus.running)
              (sym e);
    }

-- When `createForProductionOrder` returns, it has added one instance, with the given id and for the
-- order's item, and the dependencies that the template gives its new tasks. The task ids it reports as
-- ready are those that the dependency engine finds among the new tasks after the skipped steps are
-- marked, and the instance is RUNNING if there are any and INITIALIZED otherwise.
pub create_for_production_order-Created :
    (ops : TextOps) (now : ℕ) (ids : NewIds) (input : CreateInput) (s : Store) {r : CreationResult}
    {s' : Store}
    → create_for_production_order ops now ids input s ≡ ok (r, s')
    → Created ops ids input s s' r
unfolding create_for_production_order
create_for_production_order-Created ops now ids input s h =
    let (_, _, h₁) =
      >>=-eq-ok (throw_if (has_instance input.production_order_item_id s) conflict) _ h in
    let (template, resolved, h₂) =
      >>=-eq-ok (resolve_template_for_product_version input.product_offering_version_id s) _ h₁ in
    create_from_template-Created ops now ids input template s resolved h₂

has_instance_found :
    (item : ℕ) (s : Store) {y : Instance}
    → find_first (λ (z : Instance). z.production_order_item_id == item) s.instances ≡ some y
    → has_instance item s ≡ true
has_instance_found item s h = rw (h, has_instance)

found-last :
    (item : ℕ) (x : Instance) (xs : List Instance)
    → (x.production_order_item_id == item) ≡ true
    → (y : Instance) × (find_first
          (λ (z : Instance). z.production_order_item_id == item)
          (xs ++ x ∷ [])
        ≡ some y)
found-last item x [] h = (x, rw h)
found-last item x (y ∷ xs) h = elim (Bool-cases (y.production_order_item_id == item)) [
  | inl e ↦ (y, rw e)
  | inr e ↦ rw e (found-last item x xs h)
]

-- An order's item gets one workflow: after a `createForProductionOrder` that returned, a call for the
-- same item, at whatever time and with whatever other input, throws the conflict.
pub create_for_production_order-once :
    (ops : TextOps) (now later : ℕ) (ids ids' : NewIds) (input again : CreateInput) (s : Store)
    {r : CreationResult} {s' : Store}
    → again.production_order_item_id ≡ input.production_order_item_id
    → create_for_production_order ops now ids input s ≡ ok (r, s')
    → create_for_production_order ops later ids' again s' ≡ err conflict
unfolding create_for_production_order
create_for_production_order-once ops now later ids ids' input again s {s' = s'} same h =
    let made = create_for_production_order-Created ops now ids input s h in
    let mine = (==_iff _ _).1 (made.item ∙ sym same) in
    let (y, found) = found-last again.production_order_item_id made.instance s.instances mine in
    let taken = has_instance_found again.production_order_item_id s' (
      subst
        (λ xs.
          find_first
            (λ (z : Instance). z.production_order_item_id == again.production_order_item_id) xs
          ≡ some y)
        (sym made.instances) found) in
    rw taken
