-- ===== src/Workflow/Dependency/Ready.antt =====
-- What modules/workflow/dependency-engine.ts decides: a task becomes ready when it is dormant and
-- each of its prerequisites has reached the status that its dependency asks for.
use geeta_backend.Common.{
  ◌≢◌, ◌⊎◌, ℕ, Bool, true, false, ◌&&◌, Option, none, some, List, [], ◌∷◌, map, all, elem, filter,
  All, ◌==◌, ◌≡◌, ◌↔◌, refl, arith, Bool-cases, inl, inr, ==_refl, ==_iff, and_true, and_false,
  ne_of_==, sym, ap, ◌∙◌,
}
use geeta_backend.Workflow.TaskStatus.{TaskStatus, is_task_dependency_satisfied}
use geeta_backend.Workflow.Store.{TaskDependencyEdge}
use geeta_backend.Workflow.Dependency.{
  IdMap, TaskRef, edge_met, every_met, are_task_dependencies_met, becomes_ready, is_dormant,
  resolve_ready_task_ids,
}

-- The prerequisite of an edge is known and has a status that satisfies the edge.
abbrev pub IsSatisfied : IdMap TaskStatus → TaskDependencyEdge → Type 0
IsSatisfied statuses d =
    (st : TaskStatus) × (statuses d.depends_on_task_id ≡ some st)
    × (is_task_dependency_satisfied d.dependency_type st ≡ true)

-- Every edge leads elsewhere or is satisfied.
abbrev pub IsFree : ℕ → List TaskDependencyEdge → IdMap TaskStatus → Type 0
IsFree task deps statuses =
    All (λ (d : TaskDependencyEdge). (d.task_id ≢ task) ⊎ IsSatisfied statuses d) deps

edge_met→IsSatisfied :
    (statuses : IdMap TaskStatus) (d : TaskDependencyEdge)
    → edge_met statuses d ≡ true
    → IsSatisfied statuses d
edge_met→IsSatisfied statuses d h = ground arith

IsSatisfied→edge_met :
    (statuses : IdMap TaskStatus) (d : TaskDependencyEdge)
    → IsSatisfied statuses d
    → edge_met statuses d ≡ true
IsSatisfied→edge_met statuses d (st, e, h) = ground arith

every_met-all :
    (statuses : IdMap TaskStatus) (ds : List TaskDependencyEdge)
    → every_met statuses ds ≡ all (edge_met statuses) ds
every_met-all statuses [] = refl
every_met-all statuses (d ∷ ds) = refl

abbrev incoming : ℕ → List TaskDependencyEdge → List TaskDependencyEdge
incoming task = filter (λ (d : TaskDependencyEdge). d.task_id == task)

all_met→IsFree :
    (task : ℕ) (deps : List TaskDependencyEdge) (statuses : IdMap TaskStatus)
    → all (edge_met statuses) (incoming task deps) ≡ true
    → IsFree task deps statuses
all_met→IsFree task [] statuses h = tt
all_met→IsFree task (d ∷ deps) statuses h = elim (Bool-cases (d.task_id == task)) [
  | inl e ↦
      let (met, rest) = and_true (edge_met statuses d) _ (rw e at h) in
      (inr (edge_met→IsSatisfied statuses d met), all_met→IsFree task deps statuses rest)
  | inr e ↦ (inl (ne_of_== _ _ e), all_met→IsFree task deps statuses (rw e at h))
]

IsFree→all_met :
    (task : ℕ) (deps : List TaskDependencyEdge) (statuses : IdMap TaskStatus)
    → IsFree task deps statuses
    → all (edge_met statuses) (incoming task deps) ≡ true
IsFree→all_met task [] statuses h = refl
IsFree→all_met task (d ∷ deps) statuses h = elim (Bool-cases (d.task_id == task)) [
  | inl e ↦ elim h.0 [
    | inl other ↦ absurd (other ((==_iff _ _).0 e))
    | inr satisfied ↦
        rw e
          (rw (IsSatisfied→edge_met statuses d satisfied) (IsFree→all_met task deps statuses h.1))
  ]
  | inr e ↦ rw e (IsFree→all_met task deps statuses h.1)
]

-- `areTaskDependenciesMet` answers true exactly if every dependency of the task has a prerequisite
-- that the map knows, in a status that satisfies the type of the dependency.
pub are_task_dependencies_met_iff :
    (task : ℕ) (deps : List TaskDependencyEdge) (statuses : IdMap TaskStatus)
    → (are_task_dependencies_met task deps statuses ≡ true) ↔ IsFree task deps statuses
unfolding are_task_dependencies_met
are_task_dependencies_met_iff task deps statuses = (
  λ h. all_met→IsFree task deps statuses (rw every_met-all at h),
  λ h. rw every_met-all (IsFree→all_met task deps statuses h),
)

-- Membership in what the loop collects.
pub elem-resolve_ready_task_ids :
    (refs : List TaskRef) (deps : List TaskDependencyEdge) (statuses : IdMap TaskStatus)
    (only_blocked : Bool) (i : ℕ)
    → elem i (resolve_ready_task_ids refs deps statuses only_blocked) ≡ (
        becomes_ready only_blocked (statuses i) (are_task_dependencies_met i deps statuses)
        && elem i (map (λ (r : TaskRef). r.id) refs))
unfolding resolve_ready_task_ids
elem-resolve_ready_task_ids [] deps statuses b i = sym (and_false _)
elem-resolve_ready_task_ids (r ∷ refs) deps statuses b i =
    let ih = elem-resolve_ready_task_ids refs deps statuses b i in
    elim (Bool-cases (i == r.id)) [
      | inl e ↦
          let p : r.id ≡ i = sym ((==_iff _ _).0 e) in
          rw p (
            rw (==_refl i)
              (elim (Bool-cases
                (becomes_ready b (statuses i) (are_task_dependencies_met i deps statuses))) [
                  | inl k ↦ rw k (rw (==_refl i))
                  | inr k ↦ rw k (ih ∙ ap (λ c. c && elem i (map (λ (r : TaskRef). r.id) refs)) k)
                ]))
      | inr e ↦
          rw e
            (elim (Bool-cases
              (becomes_ready b (statuses r.id) (are_task_dependencies_met r.id deps statuses))) [
                | inl k ↦ rw k (rw e ih)
                | inr k ↦ rw k ih
              ])
    ]

-- BLOCKED, WAITING or PENDING.
abbrev pub IsDormant : TaskStatus → Type 0
IsDormant s = (s ≡ TaskStatus.blocked) ⊎ (s ≡ TaskStatus.waiting) ⊎ (s ≡ TaskStatus.pending)

-- The task may start: its status is known, and dormant if only dormant tasks are asked for, and every
-- edge that leads to it is satisfied.
abbrev pub MayStart : List TaskDependencyEdge → IdMap TaskStatus → Bool → ℕ → Type 0
MayStart deps statuses only_blocked i =
    (s : TaskStatus) × (statuses i ≡ some s)
    × (only_blocked ≡ true → IsDormant s)
    × IsFree i deps statuses

is_dormant→IsDormant : (s : TaskStatus) → is_dormant s ≡ true → IsDormant s
is_dormant→IsDormant s h = ground arith

IsDormant→is_dormant : (s : TaskStatus) → IsDormant s → is_dormant s ≡ true
IsDormant→is_dormant s h = ground arith

becomes_ready_parts :
    (b : Bool) (o : Option TaskStatus) (met : Bool)
    → becomes_ready b o met ≡ true
    → (s : TaskStatus) × (o ≡ some s) × (b ≡ true → is_dormant s ≡ true) × (met ≡ true)
becomes_ready_parts b none met h = cc
becomes_ready_parts true (some s) met h = elim (Bool-cases (is_dormant s)) [
  | inl d ↦ (s, refl, λ _. d, (rw d at h))
  | inr d ↦ cc (rw d at h)
]
becomes_ready_parts false (some s) met h = (s, refl, λ e. cc, h)

becomes_ready_of :
    (b : Bool) (s : TaskStatus) (met : Bool)
    → (b ≡ true → is_dormant s ≡ true)
    → met ≡ true
    → becomes_ready b (some s) met ≡ true
becomes_ready_of true s met d m = rw (d refl) m
becomes_ready_of false s met d m = m

-- `resolveReadyTaskIds` collects an id exactly if it is the id of a given task, the map knows its status,
-- the status is BLOCKED, WAITING or PENDING when only blocked tasks are asked for, and every
-- dependency of the task has a prerequisite that the map knows, in a status that satisfies
-- the type of the dependency.
pub resolve_ready_task_ids_iff :
    (refs : List TaskRef) (deps : List TaskDependencyEdge) (statuses : IdMap TaskStatus)
    (only_blocked : Bool) (i : ℕ)
    → (elem i (resolve_ready_task_ids refs deps statuses only_blocked) ≡ true)
      ↔ ((elem i (map (λ (r : TaskRef). r.id) refs) ≡ true) × MayStart deps statuses only_blocked i)
resolve_ready_task_ids_iff refs deps statuses b i =
    let split = elem-resolve_ready_task_ids refs deps statuses b i in
    let met = are_task_dependencies_met_iff i deps statuses in
    (
      λ h.
          let (ready, listed) = and_true _ _ (sym split ∙ h) in
          let (s, known, dormant, free) = becomes_ready_parts b _ _ ready in
          (listed, (s, known, (λ e. is_dormant→IsDormant s (dormant e)), met.0 free)),
      λ (listed, (s, known, dormant, free)).
          split
          ∙ rw (known, listed)
              (rw (becomes_ready_of b s _ (λ e. IsDormant→is_dormant s (dormant e)) (met.1 free))),
    )
