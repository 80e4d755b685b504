-- ===== src/Workflow/Store/Keys.antt =====
-- What the primary key of the tasks gives: a row is found by its id, and by its id only.
use geeta_backend.Common.{
  ℕ, Bool, true, false, ◌&&◌, Option, none, some, List, [], ◌∷◌, map, elem, ◌==◌, ◌≡◌, refl, arith,
  if◌then◌else◌, find_first, filter, all, All, Bool-cases, inl, inr, ap, ◌∙◌, ==_refl, ==_iff,
  ==_sym, and_false,
}
use mathlib.Core.Path.{subst, ap₂}
use geeta_backend.Workflow.TaskStatus.{TaskStatus}
use geeta_backend.Workflow.Store.{Task, tasks_of, update_task}
use geeta_backend.Workflow.Store.Updates.{UniqueIds, some_eq}
use geeta_backend.Workflow.Dependency.{IdMap, from_entries}

abbrev pub ids_of : List Task → List ℕ
ids_of = map (λ (u : Task). u.id)

-- The row of an id, within a list of rows.
abbrev pub row : ℕ → List Task → Option Task
row i = find_first (λ (t : Task). t.id == i)

-- ... and within an instance.
abbrev pub row_of : ℕ → ℕ → List Task → Option Task
row_of w i = find_first (λ (t : Task). t.id == i && t.workflow_instance_id == w)

row_shift :
    (y : Task) (all ts : List Task)
    → elem y.id (ids_of ts) ≡ false
    → All (λ (t : Task). row t.id all ≡ some t) ts
    → All (λ (t : Task). row t.id (y ∷ all) ≡ some t) ts
row_shift y all [] h f = tt
row_shift y all (t ∷ ts) h f = elim (Bool-cases (y.id == t.id)) [
  | inl e ↦ absurd (ground arith)
  | inr e ↦ (rw e f.0, row_shift y all ts (rw e at h) f.1)
]

-- Every row is the one that its id finds.
pub row_self : (ts : List Task) → UniqueIds ts → All (λ (t : Task). row t.id ts ≡ some t) ts
row_self [] u = tt
row_self (t ∷ ts) u = (rw (==_refl t.id), row_shift t ts ts u.0 (row_self ts u.1))

row_of_absent : (w i : ℕ) (ts : List Task) → elem i (ids_of ts) ≡ false → row_of w i ts ≡ none
row_of_absent w i [] h = refl
row_of_absent w i (t ∷ ts) h = elim (Bool-cases (i == t.id)) [
  | inl e ↦ ground arith
  | inr e ↦ rw (==_sym t.id i ∙ e) (row_of_absent w i ts (rw e at h))
]

abbrev pub status_or : Option Task → Option TaskStatus → Option TaskStatus
status_or none d = d
status_or (some t) d = some t.status

abbrev pub status_entry : Task → ℕ × TaskStatus
status_entry t = (t.id, t.status)

-- The map of an instance's statuses answers with the row of the id in that instance.
pub from_entries-tasks_of :
    (w : ℕ) (ts : List Task) (m : IdMap TaskStatus) (j : ℕ)
    → UniqueIds ts
    → from_entries (map status_entry (tasks_of w ts)) m j ≡ status_or (row_of w j ts) (m j)
from_entries-tasks_of w [] m j u = refl
from_entries-tasks_of w (t ∷ ts) m j u = elim (Bool-cases (t.workflow_instance_id == w)) [
  | inl mine ↦ rw mine (
      from_entries-tasks_of w ts _ j u.1 ∙ (elim (Bool-cases (t.id == j)) [
        | inl e ↦ rw (
          e,
          row_of_absent w j ts (subst (λ i. elem i (ids_of ts) ≡ false) ((==_iff _ _).0 e) u.0),
        )
        | inr e ↦ rw e
      ]))
  | inr other ↦ rw (other, and_false) (from_entries-tasks_of w ts m j u.1)
]

filter_absent :
    (p : Task → Bool) (i : ℕ) (ts : List Task)
    → elem i (ids_of ts) ≡ false
    → elem i (ids_of (filter p ts)) ≡ false
filter_absent p i [] h = refl
filter_absent p i (t ∷ ts) h = elim (Bool-cases (i == t.id)) [
  | inl e ↦ ground arith
  | inr e ↦ elim (Bool-cases (p t)) [
    | inl chosen ↦ rw (chosen, e) (filter_absent p i ts (rw e at h))
    | inr left ↦ rw left (filter_absent p i ts (rw e at h))
  ]
]

elem-filter_head :
    (p : Task → Bool) (ts : List Task) (t : Task)
    → elem t.id (ids_of ts) ≡ false
    → elem t.id (ids_of (filter p (t ∷ ts))) ≡ p t
elem-filter_head p ts t h = elim (Bool-cases (p t)) [
  | inl chosen ↦ rw (chosen, ==_refl t.id)
  | inr left ↦ rw left (filter_absent p t.id ts h)
]

-- The id of a row is among those of the chosen rows exactly if the row is chosen.
pub elem-filter :
    (p : Task → Bool) (ts : List Task) (t : Task)
    → UniqueIds ts
    → row t.id ts ≡ some t
    → elem t.id (ids_of (filter p ts)) ≡ p t
elem-filter p [] t u h = cc
elem-filter p (y ∷ ts) t u h = elim (Bool-cases (y.id == t.id)) [
  | inl e ↦
      subst (λ z. elem z.id (ids_of (filter p (y ∷ ts))) ≡ p z) (some_eq (rw e at h))
        (elem-filter_head p ts y u.0)
  | inr e ↦ elim (Bool-cases (p y)) [
    | inl chosen ↦ rw (chosen, ==_sym t.id y.id ∙ e) (elem-filter p ts t u.1 (rw e at h))
    | inr left ↦ rw left (elem-filter p ts t u.1 (rw e at h))
  ]
]

pub elem-tasks_of :
    (w : ℕ) (ts : List Task) (t : Task)
    → UniqueIds ts
    → row t.id ts ≡ some t
    → elem t.id (ids_of (tasks_of w ts)) ≡ (t.workflow_instance_id == w)
elem-tasks_of w = elem-filter (λ (t : Task). t.workflow_instance_id == w)

-- Two choices in turn are one.
pub filter-filter {ℓ} :
    {A : Type ℓ} (p q : A → Bool) (xs : List A)
    → filter p (filter q xs) ≡ filter (λ x. q x && p x) xs
filter-filter p q [] = refl
filter-filter p q (x ∷ xs) = elim (Bool-cases (q x)) [
  | inl e ↦ elim (Bool-cases (p x)) [
    | inl k ↦ rw (e, k) (ap (λ ys. x ∷ ys) (filter-filter p q xs))
    | inr k ↦ rw (e, k) (filter-filter p q xs)
  ]
  | inr e ↦ rw e (filter-filter p q xs)
]

-- A row update that keeps the keys of a row.
pub record KeepsKeys (f : Task → Task) : Type 0 where
  pub id : (t : Task) → (f t).id ≡ t.id
  pub workflow_instance_id : (t : Task) → (f t).workflow_instance_id ≡ t.workflow_instance_id

-- One pass over the table with such an update keeps ids, instances and uniqueness.
module _ (f : Task → Task) (k : KeepsKeys f) where
  pub ids_of-map : (ts : List Task) → ids_of (map f ts) ≡ ids_of ts
  ids_of-map [] = refl
  ids_of-map (t ∷ ts) = rw (k.id t) (ap (λ is. t.id ∷ is) (ids_of-map ts))

  pub map-UniqueIds : (ts : List Task) → UniqueIds ts → UniqueIds (map f ts)
  map-UniqueIds [] u = tt
  map-UniqueIds (t ∷ ts) u = (rw (k.id t, ids_of-map ts) u.0, map-UniqueIds ts u.1)

  pub tasks_of-map : (w : ℕ) (ts : List Task) → tasks_of w (map f ts) ≡ map f (tasks_of w ts)
  tasks_of-map w [] = refl
  tasks_of-map w (t ∷ ts) = elim (Bool-cases (t.workflow_instance_id == w)) [
    | inl mine ↦ rw (same t ∙ mine, mine) (ap (λ us. f t ∷ us) (tasks_of-map w ts))
    | inr other ↦ rw (same t ∙ other, other) (tasks_of-map w ts)
  ]
    where
      same : (x : Task) → ((f x).workflow_instance_id == w) ≡ (x.workflow_instance_id == w)
      same x = ap (λ v. v == w) (k.workflow_instance_id x)

-- The row of an id after one pass that keeps the ids.
pub row-map :
    (f : Task → Task)
    → ((t : Task) → (f t).id ≡ t.id)
    → (j : ℕ) (ts : List Task) {t : Task} → row j ts ≡ some t
    → row j (map f ts) ≡ some (f t)
row-map f k j [] h = cc
row-map f k j (y ∷ ts) h = elim (Bool-cases (y.id == j)) [
  | inl e ↦ rw (ap (λ i. i == j) (k y) ∙ e) (ap (λ o. some (f o)) (some_eq (rw e at h)))
  | inr e ↦ rw (ap (λ i. i == j) (k y) ∙ e) (row-map f k j ts (rw e at h))
]

-- A test of all rows after one pass, row by row.
pub all-map {ℓ κ} :
    {A : Type ℓ} {B : Type κ} (p : B → Bool) (q : A → Bool) (f : A → B)
    → ((x : A) → p (f x) ≡ q x)
    → (xs : List A) → all p (map f xs) ≡ all q xs
all-map p q f h [] = refl
all-map p q f h (x ∷ xs) = ap₂ (λ a b. a && b) (h x) (all-map p q f h xs)

abbrev pub on_row : ℕ → (Task → Task) → Task → Task
on_row i f t = if t.id == i then f t else t

pub on_row-KeepsKeys : (i : ℕ) (f : Task → Task) → KeepsKeys f → KeepsKeys (on_row i f)
on_row-KeepsKeys i f k = record {
  id = λ t. elim (Bool-cases (t.id == i)) [ inl e ↦ rw e (k.id t) | inr e ↦ rw e ];
  workflow_instance_id =
      λ t. elim (Bool-cases (t.id == i)) [ inl e ↦ rw e (k.workflow_instance_id t) | inr e ↦ rw e ];
}

-- The update of one row is not seen through another.
pub row_of-update_ne :
    (w i j : ℕ) (f : Task → Task) (k : KeepsKeys f) (ts : List Task)
    → (i == j) ≡ false
    → row_of w j (update_task i f ts) ≡ row_of w j ts
row_of-update_ne w i j f k [] h = refl
row_of-update_ne w i j f k (t ∷ ts) h = elim (Bool-cases (t.id == i)) [
  | inl e ↦
      let other : (t.id == j) ≡ false = ground arith in
      rw (e, k.id t, other) (row_of-update_ne w i j f k ts h)
  | inr e ↦ rw e (
      ap (λ o. if t.id == j && t.workflow_instance_id == w then some t else o)
        (row_of-update_ne w i j f k ts h))
]

-- A row found within an instance is the row of its id.
pub row_of-row :
    (w i : ℕ) (ts : List Task) {t : Task}
    → UniqueIds ts
    → row_of w i ts ≡ some t
    → row i ts ≡ some t
row_of-row w i [] u h = cc
row_of-row w i (y ∷ ts) u h = elim (Bool-cases (y.id == i)) [
  | inl e ↦ elim (Bool-cases (y.workflow_instance_id == w)) [
    | inl mine ↦ rw e (rw (e, mine) at h)
    | inr other ↦
        let absent : row_of w i ts ≡ none =
          row_of_absent w i ts (subst (λ v. elem v (ids_of ts) ≡ false) ((==_iff _ _).0 e) u.0) in
        cc (rw (e, other) at h)
  ]
  | inr e ↦ rw e (row_of-row w i ts u.1 (rw e at h))
]

pub row_of_mine :
    (w : ℕ) (ts : List Task) (t : Task)
    → row t.id ts ≡ some t
    → (t.workflow_instance_id == w) ≡ true
    → row_of w t.id ts ≡ some t
row_of_mine w [] t h mine = cc
row_of_mine w (y ∷ ts) t h mine = elim (Bool-cases (y.id == t.id)) [
  | inl e ↦ let p : y ≡ t = some_eq (rw e at h) in rw (e, p, mine)
  | inr e ↦ rw e (row_of_mine w ts t (rw e at h) mine)
]
