-- ===== src/Workflow/Store/Updates.antt =====
-- What the row updates of the workflow tables do, task by task.
use geeta_backend.Common.{
  ℕ, Bool, true, false, none, some, List, [], ◌∷◌, map, elem, ◌==◌, ◌≡◌, refl, ap, sym, ◌∙◌,
  if◌then◌else◌, find_first, All, Bool-cases, inl, inr,
}
use mathlib.Core.Path.{subst, fun_ext, ap₂}
use geeta_backend.Workflow.TaskStatus.{TaskStatus}
use geeta_backend.Workflow.Store.{
  Task, TaskUpdate, apply_update, update_task_statuses, ready_update,
}

-- No two rows have the same primary key.
abbrev pub UniqueIds : List Task → Type 0
UniqueIds [] = Unit
UniqueIds (t ∷ ts) = (elem t.id (map (λ (u : Task). u.id) ts) ≡ false) × UniqueIds ts

pub some_eq {ℓ} : {A : Type ℓ} {a b : A} → some a ≡ some b → a ≡ b
some_eq {a = a} h = ap (λ o. elim o [ none ↦ a | some x ↦ x ]) h

pub find_first-holds {ℓ} :
    {A : Type ℓ} (p : A → Bool) (xs : List A) {x : A} → find_first p xs ≡ some x → p x ≡ true
find_first-holds p [] h = cc
find_first-holds p (y ∷ xs) h = elim (Bool-cases (p y)) [
  | inl e ↦ subst (λ z. p z ≡ true) (some_eq (rw e at h)) e
  | inr e ↦ find_first-holds p xs (rw e at h)
]

pub map_same {ℓ} : {A : Type ℓ} (xs : List A) → map (λ x. x) xs ≡ xs
map_same [] = refl
map_same (x ∷ xs) = ap (λ ys. x ∷ ys) (map_same xs)

pub map-map {ℓ κ μ} :
    {A : Type ℓ} {B : Type κ} {C : Type μ} (g : B → C) (f : A → B) (xs : List A)
    → map g (map f xs) ≡ map (λ x. g (f x)) xs
map-map g f [] = refl
map-map g f (x ∷ xs) = ap (λ ys. g (f x) ∷ ys) (map-map g f xs)

pub map_ext {ℓ κ μ} :
    {A : Type ℓ} {B : Type κ} (P : A → Type μ) (f g : A → B)
    → ((x : A) → P x → f x ≡ g x)
    → (xs : List A) → All P xs
    → map f xs ≡ map g xs
map_ext P f g h [] a = refl
map_ext P f g h (x ∷ xs) a = ap₂ (λ y ys. y ∷ ys) (h x a.0) (map_ext P f g h xs a.1)

-- An update of every listed row is one pass over the table.
module _ (mk : ℕ → TaskUpdate) (same : (i : ℕ) → (mk i).id ≡ i) (f : Task → Task)
    (acts : (i : ℕ) (t : Task) → apply_update (mk i) t ≡ f t)
    (twice : (t : Task) → f (f t) ≡ f t) where
  abbrev marked : List ℕ → Task → Task
  marked ids t = if elem t.id ids then f t else t

  mark_one :
      (i : ℕ) (ids : List ℕ) (t : Task)
      → marked ids (if t.id == (mk i).id then apply_update (mk i) t else t) ≡ marked (i ∷ ids) t
  mark_one i ids t =
      rw (same i, acts i t)
        (elim (Bool-cases (t.id == i)) [
          | inl e ↦
              rw e (elim (Bool-cases (elem (f t).id ids)) [ inl k ↦ rw k (twice t) | inr k ↦ rw k ])
          | inr e ↦ rw e
        ])

  pub update_task_statuses-map :
      (ids : List ℕ) (ts : List Task) → update_task_statuses (map mk ids) ts ≡ map (marked ids) ts
  unfolding update_task_statuses
  update_task_statuses-map [] ts = sym (map_same ts)
  update_task_statuses-map (i ∷ ids) ts =
      update_task_statuses-map ids _
      ∙ (map-map (marked ids) _ ts ∙ ap (λ g. map g ts) (fun_ext (mark_one i ids)))

abbrev pub make_ready : ℕ → Task → Task
make_ready now t = record t { status = TaskStatus.ready; queued_at = some now }

-- `updateTaskStatuses` with READY for each id.
pub update_task_statuses-ready :
    (now : ℕ) (ids : List ℕ) (ts : List Task)
    → update_task_statuses (map (ready_update now) ids) ts
      ≡ map (λ (t : Task). if elem t.id ids then make_ready now t else t) ts
update_task_statuses-ready now =
    update_task_statuses-map (ready_update now) (λ i. refl) (make_ready now) (λ i t. refl)
      (λ t. refl)
