-- ===== src/WorkGraph.antt =====
-- src/contracts/work-graph.ts and src/domain/work-graph/transitions.ts: which status of an
-- objective or a work item may follow which.
pub mod Laws
pub mod Tests
use nexusos_agentic.Base.{Bool, true, false, not, ◌||◌, List, [], ◌∷◌, Result, throw_if}

pub data ObjectiveStatus : Type 0 where
  open_ active completed cancelled : ObjectiveStatus

pub data WorkItemStatus : Type 0 where
  backlog ready in_progress blocked in_review done cancelled : WorkItemStatus

pub data WorkGraphTransitionError : Type 0 where
  invalid_status_transition : WorkGraphTransitionError

abbrev pub objective_eq : ObjectiveStatus → ObjectiveStatus → Bool
objective_eq open_ open_ = true
objective_eq active active = true
objective_eq completed completed = true
objective_eq ObjectiveStatus.cancelled ObjectiveStatus.cancelled = true
objective_eq _ _ = false

abbrev pub work_item_eq : WorkItemStatus → WorkItemStatus → Bool
work_item_eq backlog backlog = true
work_item_eq ready ready = true
work_item_eq in_progress in_progress = true
work_item_eq blocked blocked = true
work_item_eq in_review in_review = true
work_item_eq done done = true
work_item_eq WorkItemStatus.cancelled WorkItemStatus.cancelled = true
work_item_eq _ _ = false

unfoldable pub objective_transitions : ObjectiveStatus → List ObjectiveStatus
objective_transitions open_ = active ∷ ObjectiveStatus.cancelled ∷ []
objective_transitions active = completed ∷ ObjectiveStatus.cancelled ∷ []
objective_transitions completed = []
objective_transitions ObjectiveStatus.cancelled = []

unfoldable pub work_item_transitions : WorkItemStatus → List WorkItemStatus
work_item_transitions backlog = ready ∷ WorkItemStatus.cancelled ∷ []
work_item_transitions ready = backlog ∷ in_progress ∷ WorkItemStatus.cancelled ∷ []
work_item_transitions in_progress =
    ready ∷ blocked ∷ in_review ∷ done ∷ WorkItemStatus.cancelled ∷ []
work_item_transitions blocked = ready ∷ in_progress ∷ WorkItemStatus.cancelled ∷ []
work_item_transitions in_review = in_progress ∷ blocked ∷ done ∷ WorkItemStatus.cancelled ∷ []
work_item_transitions done = in_progress ∷ []
work_item_transitions WorkItemStatus.cancelled = backlog ∷ []

-- `table.includes(next)`.
unfoldable pub occurs : {T : Type 0} → (T → T → Bool) → T → List T → Bool
occurs e x [] = false
occurs e x (y ∷ ys) = e y x || occurs e x ys

-- `assertTransition`, over the equality of the statuses and the table.
unfoldable pub assert_transition :
    {T : Type 0}
    → (T → T → Bool)
    → (T → List T)
    → T
    → T
    → Result WorkGraphTransitionError (Unit {0})
unfolding occurs
assert_transition eq table current next =
    throw_if (not (occurs eq next (table current))) invalid_status_transition

unfoldable pub assert_objective_transition :
    ObjectiveStatus → ObjectiveStatus → Result WorkGraphTransitionError (Unit {0})
unfolding assert_transition objective_transitions
assert_objective_transition = assert_transition objective_eq objective_transitions

unfoldable pub assert_work_item_transition :
    WorkItemStatus → WorkItemStatus → Result WorkGraphTransitionError (Unit {0})
unfolding assert_transition work_item_transitions
assert_work_item_transition = assert_transition work_item_eq work_item_transitions
