-- ===== src/Workflow/Skip.antt =====
-- modules/workflow/step-skip-evaluator.ts: whether the order's selections make a step needless.
use geeta_backend.Common.{
  ℕ, Bool, false, not, Option, none, some, List, [], ◌∷◌, String, any, all, if◌then◌else◌,
}
use text.Mathlib.Text.{◌==◌ as str_eq}

-- The two methods of JavaScript strings that the evaluator calls.
pub record TextOps : Type 0 where
  pub trim : String → String
  pub to_lower_case : String → String

-- `unknown` is any other text in the field `operator`.
pub data SkipOperator : Type 0 where
  in_list eq not_in neq empty not_empty unknown : SkipOperator

pub record SkipCondition : Type 0 where
  pub field_name : String
  pub operator : SkipOperator
  pub values : Option (List String)

-- The JSON of `skipWhen`: null, an array, one object with a `field`, or anything else.
pub data SkipWhen : Type 0 where
  absent : SkipWhen
  conditions : List SkipCondition → SkipWhen
  condition : SkipCondition → SkipWhen
  malformed : SkipWhen

-- `Record<string, string>`
abbrev pub Selections : Type 0
Selections = List (String × String)

abbrev pub selection : String → Selections → Option String
selection k [] = none
selection k ((j, v) ∷ rest) = if str_eq j k then some v else selection k rest

-- `Boolean(text)`
abbrev pub truthy : String → Bool
truthy t = not (str_eq t "")

unfoldable pub targets_of : SkipCondition → List String
targets_of c = elim (c.values) [ none ↦ [] | some vs ↦ vs ]

unfoldable pub selected_of : TextOps → SkipCondition → Selections → String
selected_of ops c selections = elim (selection c.field_name selections) [
  | none ↦ ""
  | some v ↦ ops.trim v
]

unfoldable pub is_listed : TextOps → List String → String → Bool
is_listed ops targets selected =
    any (λ v. str_eq (ops.to_lower_case v) (ops.to_lower_case selected)) targets

-- The `switch` of `evaluateSingle`.
unfoldable pub evaluate_operator : TextOps → SkipOperator → List String → String → Bool
unfolding is_listed
evaluate_operator ops eq targets selected = is_listed ops targets selected
evaluate_operator ops in_list targets selected = is_listed ops targets selected
evaluate_operator ops neq targets selected =
    if truthy selected then not (is_listed ops targets selected) else false
evaluate_operator ops not_in targets selected =
    if truthy selected then not (is_listed ops targets selected) else false
evaluate_operator ops empty targets selected = not (truthy selected)
evaluate_operator ops not_empty targets selected = truthy selected
evaluate_operator ops unknown targets selected = false

unfoldable pub evaluate_single : TextOps → SkipCondition → Selections → Bool
unfolding evaluate_operator targets_of selected_of
evaluate_single ops c selections =
    evaluate_operator ops c.operator (targets_of c) (selected_of ops c selections)

unfoldable pub parse_conditions : SkipWhen → Option (List SkipCondition)
parse_conditions absent = none
parse_conditions (conditions []) = none
parse_conditions (conditions (c ∷ cs)) = some (c ∷ cs)
parse_conditions (condition c) = some (c ∷ [])
parse_conditions malformed = none

unfoldable pub should_skip_step : TextOps → SkipWhen → Selections → Bool
unfolding parse_conditions evaluate_single
should_skip_step ops skip_when selections = elim (parse_conditions skip_when) [
  | none ↦ false
  | some cs ↦ all (λ c. evaluate_single ops c selections) cs
]

-- The set of skipped ids, in step order.
unfoldable pub resolve_skipped_step_ids : TextOps → List (ℕ × SkipWhen) → Selections → List ℕ
unfolding should_skip_step
resolve_skipped_step_ids ops [] selections = []
resolve_skipped_step_ids ops ((id, skip_when) ∷ steps) selections =
    let rest = resolve_skipped_step_ids ops steps selections in
    if should_skip_step ops skip_when selections then id ∷ rest else rest
