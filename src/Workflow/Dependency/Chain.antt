-- ===== src/Workflow/Dependency/Chain.antt =====
-- The chain that `buildImplicitTemplateDependencies` of modules/workflow/dependency-engine.ts makes
-- of a template without dependencies.
use geeta_backend.Common.{
  ℕ, ◌≤◌, false, List, [], ◌∷◌, map, All, ◌≡◌, refl, ap, arith, leb, leb→le, Bool-cases, inl, inr,
}
use mathlib.Core.List.{Perm}
use mathlib.Core.List.Perm
use geeta_backend.Workflow.TaskStatus.{finish_to_start}
use geeta_backend.Workflow.Store.{TemplateStep, TemplateDependencyEdge}
use geeta_backend.Workflow.Dependency.{
  insert_by_step_order, sort_by_step_order, chain_from, chain, build_implicit_template_dependencies,
}

-- In the order of `stepOrder`.
abbrev pub Ascending : List TemplateStep → Type 0
Ascending [] = Unit
Ascending (x ∷ xs) = All (λ (y : TemplateStep). x.step_order ≤ y.step_order) xs × Ascending xs

abbrev pub step_ids : List TemplateStep → List ℕ
step_ids = map (λ (x : TemplateStep). x.id)

-- All but the first, and all but the last.
abbrev pub but_first : List ℕ → List ℕ
but_first [] = []
but_first (_ ∷ is) = is

abbrev pub but_last : List ℕ → List ℕ
but_last [] = []
but_last (i ∷ []) = []
but_last (i ∷ j ∷ is) = i ∷ but_last (j ∷ is)

leb-false : (a b : ℕ) → leb a b ≡ false → b ≤ a
leb-false a b h = ground arith

insert-Perm :
    (x : TemplateStep) (xs : List TemplateStep) → Perm (insert_by_step_order x xs) (x ∷ xs)
insert-Perm x [] = Perm.refl (x ∷ [])
insert-Perm x (y ∷ ys) = elim (Bool-cases (leb x.step_order y.step_order)) [
  | inl e ↦ rw e (Perm.refl (x ∷ y ∷ ys))
  | inr e ↦ rw e (Perm.trans (Perm.cons y (insert-Perm x ys)) (Perm.swap x y ys))
]

sort-Perm : (xs : List TemplateStep) → Perm (sort_by_step_order xs) xs
sort-Perm [] = Perm.refl []
sort-Perm (x ∷ xs) = Perm.trans (insert-Perm x (sort_by_step_order xs)) (Perm.cons x (sort-Perm xs))

above-All :
    (b a : ℕ) (ys : List TemplateStep)
    → b ≤ a
    → All (λ (y : TemplateStep). a ≤ y.step_order) ys
    → All (λ (y : TemplateStep). b ≤ y.step_order) ys
above-All b a [] h k = tt
above-All b a (y ∷ ys) h k = (omega (arith, k.0), above-All b a ys h k.1)

insert_above :
    (b : ℕ) (x : TemplateStep) (ys : List TemplateStep)
    → b ≤ x.step_order
    → All (λ (y : TemplateStep). b ≤ y.step_order) ys
    → All (λ (y : TemplateStep). b ≤ y.step_order) (insert_by_step_order x ys)
insert_above b x [] h k = (h, tt)
insert_above b x (y ∷ ys) h k = elim (Bool-cases (leb x.step_order y.step_order)) [
  | inl e ↦ rw e (h, k)
  | inr e ↦ rw e (k.0, insert_above b x ys h k.1)
]

insert-Ascending :
    (x : TemplateStep) (ys : List TemplateStep)
    → Ascending ys
    → Ascending (insert_by_step_order x ys)
insert-Ascending x [] h = (tt, tt)
insert-Ascending x (y ∷ ys) h = elim (Bool-cases (leb x.step_order y.step_order)) [
  | inl e ↦ let le = leb→le _ _ e in rw e ((le, above-All x.step_order y.step_order ys le h.0), h)
  | inr e ↦ rw e (insert_above y.step_order x ys (leb-false _ _ e) h.0, insert-Ascending x ys h.1)
]

sort-Ascending : (xs : List TemplateStep) → Ascending (sort_by_step_order xs)
sort-Ascending [] = tt
sort-Ascending (x ∷ xs) = insert-Ascending x (sort_by_step_order xs) (sort-Ascending xs)

-- The edges along a list of steps: each step but the first depends on the one before it, finished.
pub record IsChain (steps : List TemplateStep) (edges : List TemplateDependencyEdge) : Type 0 where
  pub dependents :
      map (λ (e : TemplateDependencyEdge). e.workflow_template_step_id) edges
      ≡ but_first (step_ids steps)
  pub prerequisites :
      map (λ (e : TemplateDependencyEdge). e.depends_on_step_id) edges ≡ but_last (step_ids steps)
  pub types : All (λ (e : TemplateDependencyEdge). e.dependency_type ≡ finish_to_start) edges

chain_from-IsChain :
    (previous : TemplateStep) (rest : List TemplateStep)
    → IsChain (previous ∷ rest) (chain_from previous rest)
unfolding chain_from
chain_from-IsChain previous [] = record { dependents = refl; prerequisites = refl; types = tt }
chain_from-IsChain previous (current ∷ rest) =
    let along = chain_from-IsChain current rest in
    record {
      dependents = ap (λ is. current.id ∷ is) along.dependents;
      prerequisites = ap (λ is. previous.id ∷ is) along.prerequisites;
      types = (refl, along.types);
    }

chain-IsChain : (steps : List TemplateStep) → IsChain steps (chain steps)
unfolding chain
chain-IsChain [] = record { dependents = refl; prerequisites = refl; types = tt }
chain-IsChain (first ∷ rest) = chain_from-IsChain first rest

-- `buildImplicitTemplateDependencies` links the steps of a template in the order of `stepOrder`: there
-- is an order of the same steps, ascending in `stepOrder`, in which every step but the first has
-- exactly one dependency, FINISH_TO_START on the step before it.
pub build_implicit_template_dependencies-IsChain :
    (steps : List TemplateStep)
    → (ordered : List TemplateStep) × Perm ordered steps
      × Ascending ordered
      × IsChain ordered (build_implicit_template_dependencies steps)
unfolding build_implicit_template_dependencies
build_implicit_template_dependencies-IsChain steps = (
  sort_by_step_order steps,
  sort-Perm steps,
  sort-Ascending steps,
  chain-IsChain (sort_by_step_order steps),
)
