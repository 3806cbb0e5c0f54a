-- ===== src/Workflow/Definition.antt =====
-- src/domain/workflows/workflow-definition.ts: the evaluation of a declared workflow.
use nexusos_agentic.Base.{
  ℕ, ◌+◌, ◌-◌, ◌*◌, Bool, false, not, ◌&&◌, ◌||◌, Option, none, some, List, [], ◌∷◌, ◌++◌, ◌==◌,
  leb, ltb, length, any, Result, ok, ◌>>=◌, ◌>>◌, if◌then◌else◌,
}
use nexusos_agentic.Text.{units}
use nexusos_agentic.Json.{
  Units, Value, Items, text, array, object, nil, cons, end, field, lookup, item_count, same,
  is_high, is_low,
}
use nexusos_agentic.Workflow.Records.{
  is_object, exact_record, matches, is_name, is_binding, items_of, member, require, reject_if,
}

-- What the runtime knows of characters: the white space that `trim` removes, and the classes
-- `[\p{Cc}\p{Cf}\p{Cs}\p{Zl}\p{Zp}]` of code points.
pub record Unicode : Type 0 where
  pub is_space : ℕ → Bool
  pub is_unsafe : ℕ → Bool

pub data StepKind : Type 0 where
  agent_task human_task : StepKind

pub record Step : Type 0 where
  pub step_id : Units
  pub kind : StepKind
  pub display_name : Units

pub record Definition : Type 0 where
  pub workflow_id : Units
  pub organization_id : Units
  pub project_id : Units
  pub display_name : Units
  pub steps : List Step

pub data DefinitionRejection : Type 0 where
  input_not_record spec_version_mismatch shape_invalid workflow_id_invalid : DefinitionRejection
  step_id_invalid step_id_duplicate step_kind_invalid step_limit_exceeded : DefinitionRejection
  steps_empty display_name_invalid tenant_binding_invalid : DefinitionRejection

abbrev pub spec_version : Units
spec_version = units "nexusos.workflow-definition.v1"

abbrev pub definition_keys : List Units
definition_keys =
    units "specVersion"
    ∷ units "workflowId"
    ∷ units "organizationId"
    ∷ units "projectId"
    ∷ units "displayName"
    ∷ units "steps"
    ∷ []

abbrev pub step_keys : List Units
step_keys = units "stepId" ∷ units "kind" ∷ units "displayName" ∷ []

abbrev pub max_steps : ℕ
max_steps = 16

-- The code points of a string; `high` is a high surrogate that waits for its partner.
abbrev pub waiting : Option ℕ → ℕ → Option ℕ
waiting (some h) c = if is_low c then none else if is_high c then some c else none
waiting none c = if is_high c then some c else none

abbrev pub alone : ℕ → List ℕ
alone c = if is_high c then [] else c ∷ []

abbrev pub emitted : Option ℕ → ℕ → List ℕ
emitted none c = alone c
emitted (some h) c =
    if is_low c then (0x10000 + (h - 0xD800) * 0x400 + (c - 0xDC00)) ∷ [] else h ∷ alone c

unfoldable pub points : Option ℕ → Units → List ℕ
points none [] = []
points (some h) [] = h ∷ []
points high (c ∷ cs) = emitted high c ++ points (waiting high c) cs

abbrev pub starts_with_space : Unicode → Units → Bool
starts_with_space u [] = false
starts_with_space u (c ∷ cs) = u.is_space c

abbrev pub ends_with_space : Unicode → Units → Bool
ends_with_space u [] = false
ends_with_space u (c ∷ []) = u.is_space c
ends_with_space u (c ∷ d ∷ cs) = ends_with_space u (d ∷ cs)

-- `isDisplayName`.
unfoldable pub is_display_name : Unicode → Units → Bool
unfolding points
is_display_name u s =
    leb 1 (length s)
    && leb (length s) 128
    && not (starts_with_space u s || ends_with_space u s)
    && not (any u.is_unsafe (points none s))
    && leb (length (points none s)) 64

unfoldable pub kind_of : Option Value → Option StepKind
kind_of (some (text s)) =
    if same s (units "agent_task")
    then some agent_task
    else if same s (units "human_task")
    then some human_task
    else none
kind_of _ = none

-- One step of the loop, after the ids that were seen.
unfoldable pub evaluate_step : Unicode → List Units → Value → Result DefinitionRejection Step
unfolding exact_record matches member kind_of require reject_if
evaluate_step u seen raw = do
  fs ← require shape_invalid (exact_record step_keys raw)
  step_id ← require step_id_invalid (matches is_name (lookup (units "stepId") fs))
  reject_if (member step_id seen) step_id_duplicate
  kind ← require step_kind_invalid (kind_of (lookup (units "kind") fs))
  name ←
      require display_name_invalid (matches (is_display_name u) (lookup (units "displayName") fs))
  ok (record { step_id = step_id; kind = kind; display_name = name })

unfoldable pub evaluate_steps :
    Unicode → List Units → Items → Result DefinitionRejection (List Step)
unfolding evaluate_step
evaluate_steps u seen nil = ok []
evaluate_steps u seen (cons raw rest) = do
  step ← evaluate_step u seen raw
  steps ← evaluate_steps u (step.step_id ∷ seen) rest
  ok (step ∷ steps)

unfoldable pub evaluate : Unicode → Value → Result DefinitionRejection Definition
unfolding exact_record matches evaluate_steps require reject_if
evaluate u input = do
  fs ←
      require (if is_object input then shape_invalid else input_not_record)
        (exact_record definition_keys input)
  version ←
      require spec_version_mismatch
        (matches (λ s. same s spec_version) (lookup (units "specVersion") fs))
  workflow_id ← require workflow_id_invalid (matches is_name (lookup (units "workflowId") fs))
  organization_id ←
      require tenant_binding_invalid (matches is_binding (lookup (units "organizationId") fs))
  project_id ← require tenant_binding_invalid (matches is_binding (lookup (units "projectId") fs))
  name ←
      require display_name_invalid (matches (is_display_name u) (lookup (units "displayName") fs))
  raw ← require shape_invalid (items_of (lookup (units "steps") fs))
  reject_if (ltb max_steps (item_count raw)) step_limit_exceeded
  reject_if (item_count raw == 0) steps_empty
  steps ← evaluate_steps u [] raw
  ok (record {
    workflow_id = workflow_id;
    organization_id = organization_id;
    project_id = project_id;
    display_name = name;
    steps = steps;
  })

abbrev pub kind_text : StepKind → Units
kind_text agent_task = units "agent_task"
kind_text human_task = units "human_task"

abbrev pub step_value : Step → Value
step_value s = object (
    field (units "stepId") (text s.step_id) (
      field (units "kind") (text (kind_text s.kind))
        (field (units "displayName") (text s.display_name) end)))

abbrev pub step_values : List Step → Items
step_values [] = nil
step_values (s ∷ ss) = cons (step_value s) (step_values ss)

-- The normalised definition as the value that is hashed.
unfoldable pub definition_value : Definition → Value
definition_value d = object (
    field (units "specVersion") (text spec_version) (
      field (units "workflowId") (text d.workflow_id) (
        field (units "organizationId") (text d.organization_id) (
          field (units "projectId") (text d.project_id) (
            field (units "displayName") (text d.display_name)
              (field (units "steps") (array (step_values d.steps)) end))))))
