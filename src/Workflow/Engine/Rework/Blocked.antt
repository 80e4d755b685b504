-- ===== src/Workflow/Engine/Rework/Blocked.antt =====
-- What `blockDownstreamAndReworkTarget` of modules/workflow/workflow.engine.ts does to each task.
use geeta_backend.Common.{
  ℕ, Bool, false, not, ◌&&◌, some, none, List, [], ◌∷◌, map, filter, elem, if◌then◌else◌, ◌==◌, ◌≡◌,
  refl, ap, sym, ◌∙◌, arith, Bool-cases, inl, inr, ==_refl, ==_sym,
}
use mathlib.Core.Path.{subst, fun_ext}
use geeta_backend.Workflow.TaskStatus.{TaskStatus, is_task_terminal}
use geeta_backend.Workflow.Store.{Task, update_task}
use geeta_backend.Workflow.Store.Updates.{UniqueIds, map-map, map_ext, some_eq}
use geeta_backend.Workflow.Store.Keys.{row, row_self, ids_of, on_row, filter-filter}
use geeta_backend.Workflow.Engine.Rework.{
  is_downstream, reopen_blocked, block, is_blocked, block_one, block_each, send_back,
  block_downstream_and_rework_target,
}

-- The row after the loop's update, which reads the row `d`.
abbrev pub blocked_by : Task → Task → Task
blocked_by d t =
    if is_task_terminal d.status
    then reopen_blocked t
    else if not (is_blocked d.status)
    then block t
    else t

-- What the loop's turn for the row `d` does to a row.
abbrev turn : ℕ → Task → Task → Task
turn source d t = if t.id == d.id && not (d.id == source) then blocked_by d t else t

abbrev turns : ℕ → List Task → Task → Task
turns source [] t = t
turns source (d ∷ ds) t = turns source ds (turn source d t)

map_id : (f : Task → Task) → ((t : Task) → f t ≡ t) → (ts : List Task) → ts ≡ map f ts
map_id f h [] = refl
map_id f h (t ∷ ts) = rw (h t) (ap (λ us. t ∷ us) (map_id f h ts))

turn_id : (source : ℕ) (d t : Task) → (turn source d t).id ≡ t.id
turn_id source d t = ground arith

same_map : {f g : Task → Task} (ts : List Task) → ((t : Task) → f t ≡ g t) → map f ts ≡ map g ts
same_map ts h = ap (λ k. map k ts) (fun_ext h)

block_one-map :
    (source : ℕ) (d : Task) (ts : List Task) → block_one source d ts ≡ map (turn source d) ts
block_one-map source d ts = elim (Bool-cases (d.id == source)) [
  | inl e ↦ rw e (map_id (turn source d) (λ t. ground arith) ts)
  | inr e ↦ elim (Bool-cases (is_task_terminal d.status)) [
    | inl final ↦ rw (e, final) (same_map ts (λ t. ground arith))
    | inr live ↦ elim (Bool-cases (is_blocked d.status)) [
      | inl b ↦ rw (e, live, b) (map_id (turn source d) (λ t. ground arith) ts)
      | inr b ↦ rw (e, live, b) (same_map ts (λ t. ground arith))
    ]
  ]
]

block_each-map :
    (source : ℕ) (ds ts : List Task) → block_each source ds ts ≡ map (turns source ds) ts
unfolding block_each
block_each-map source [] ts = map_id (turns source []) (λ t. refl) ts
block_each-map source (d ∷ ds) ts =
    block_each-map source ds (block_one source d ts)
    ∙ ap (map (turns source ds)) (block_one-map source d ts)
    ∙ map-map (turns source ds) (turn source d) ts

turn_other : (source : ℕ) (d t : Task) → (t.id == d.id) ≡ false → turn source d t ≡ t
turn_other source d t e = rw e

turns_absent :
    (source : ℕ) (p : Task → Bool) (ds : List Task) (t : Task)
    → elem t.id (ids_of ds) ≡ false
    → turns source (filter p ds) t ≡ t
turns_absent source p [] t h = refl
turns_absent source p (d ∷ ds) t h = elim (Bool-cases (t.id == d.id)) [
  | inl e ↦ cc (rw e at h)
  | inr e ↦ elim (Bool-cases (p d)) [
    | inl k ↦ rw k (
        ap (turns source (filter p ds)) (turn_other source d t e)
        ∙ turns_absent source p ds t (rw e at h))
    | inr k ↦ rw k (turns_absent source p ds t (rw e at h))
  ]
]

-- The loop over the chosen rows of a table, at a row of the table.
turns_at :
    (source : ℕ) (p : Task → Bool) (ds : List Task) (t : Task)
    → UniqueIds ds
    → row t.id ds ≡ some t
    → turns source (filter p ds) t ≡ (if p t then turn source t t else t)
turns_at source p [] t u h = cc
turns_at source p (d ∷ ds) t u h = elim (Bool-cases (d.id == t.id)) [
  | inl e ↦
      let same : d ≡ t = some_eq (rw e at h) in
      let gone : elem t.id (ids_of ds) ≡ false =
        subst (λ (x : Task). elem x.id (ids_of ds) ≡ false) same u.0 in
      subst
        (λ (x : Task). turns source (filter p (x ∷ ds)) t ≡ (if p t then turn source t t else t))
        (sym same)
        (elim (Bool-cases (p t)) [
          | inl k ↦ rw k (turns_absent source p ds (turn source t t) (rw (turn_id source t t) gone))
          | inr k ↦ rw k (turns_absent source p ds t gone)
        ])
  | inr e ↦
      let e' : (t.id == d.id) ≡ false = ==_sym t.id d.id ∙ e in
      elim (Bool-cases (p d)) [
        | inl k ↦ rw k (
            ap (turns source (filter p ds)) (turn_other source d t e')
            ∙ turns_at source p ds t u.1 (rw e at h))
        | inr k ↦ rw k (turns_at source p ds t u.1 (rw e at h))
      ]
]

-- A task that is blocked, with its completion taken back if it was final.
abbrev pub blocked_again : Task → Task
blocked_again t = record t {
  status = TaskStatus.blocked;
  completed_at = if is_task_terminal t.status then none else t.completed_at;
}

-- The rows of the workflow that the loop blocks: later than the target's step, and neither
-- cancelled, skipped nor the task that asks for the rework.
abbrev pub is_held_back : ℕ → ℕ → ℕ → Task → Bool
is_held_back instance source target_step_order t =
    (t.workflow_instance_id == instance && is_downstream target_step_order t)
    && not (t.id == source)

abbrev pub reworked : ℕ → ℕ → ℕ → ℕ → Task → Task
reworked instance source target target_step_order t =
    if t.id == target
    then send_back t
    else if is_held_back instance source target_step_order t
    then blocked_again t
    else t

blocked_by-blocked_again : (t : Task) → blocked_by t t ≡ blocked_again t
blocked_by-blocked_again t = ground arith

module _ (instance source target target_step_order : ℕ) where
  abbrev chosen : Task → Bool
  chosen t = t.workflow_instance_id == instance && is_downstream target_step_order t

  abbrev looped : Task → Task
  looped t = if is_held_back instance source target_step_order t then blocked_again t else t

  turn-looped :
      (t : Task)
      → (if t.workflow_instance_id == instance && is_downstream target_step_order t
          then turn source t t
          else t)
        ≡ looped t
  turn-looped t =
      elim (Bool-cases (t.workflow_instance_id == instance && is_downstream target_step_order t)) [
        | inl k ↦
            rw (k, ==_refl t.id)
              (elim (Bool-cases (t.id == source)) [
                | inl e ↦ rw e
                | inr e ↦ rw e (blocked_by-blocked_again t)
              ])
        | inr k ↦ rw k
      ]

  sent-reworked :
      (t : Task)
      → on_row target send_back (looped t) ≡ reworked instance source target target_step_order t
  sent-reworked t = elim (Bool-cases (is_held_back instance source target_step_order t)) [
    | inl k ↦ elim (Bool-cases (t.id == target)) [ inl e ↦ rw (k, e) | inr e ↦ rw (k, e) ]
    | inr k ↦ elim (Bool-cases (t.id == target)) [ inl e ↦ rw (k, e) | inr e ↦ rw (k, e) ]
  ]

  pub block_downstream_and_rework_target-reworked :
      (ts : List Task)
      → UniqueIds ts
      → block_downstream_and_rework_target instance source target target_step_order ts
        ≡ map (reworked instance source target target_step_order) ts
  unfolding block_downstream_and_rework_target
  block_downstream_and_rework_target-reworked ts u =
      ap (λ ds. update_task target send_back (block_each source ds ts)) (filter-filter _ _ ts)
      ∙ ap (update_task target send_back) (block_each-map source (filter chosen ts) ts)
      ∙ map-map (on_row target send_back) (turns source (filter chosen ts)) ts
      ∙ map_ext (λ (t : Task). row t.id ts ≡ some t) _ _
          (λ t h.
            ap (on_row target send_back) (turns_at source chosen ts t u h ∙ turn-looped t)
            ∙ sent-reworked t)
          ts (row_self ts u)
