-- ===== src/WorkGraph/Laws.antt =====
-- Which statuses are final, and which can be reached (src/domain/work-graph/transitions.ts).
use nexusos_agentic.Base.{◌≡◌, ◌⊎◌, refl, Bool, true, false, arith, ok, err}
use nexusos_agentic.WorkGraph.{
  ObjectiveStatus, open_, active, completed, WorkItemStatus, backlog, ready, in_progress, blocked,
  in_review, done, invalid_status_transition, assert_objective_transition,
  assert_work_item_transition,
}

-- The moves that the code accepts, one after another.
pub data ObjectivePath : ObjectiveStatus → ObjectiveStatus → Type 0 where
  stay : {s : ObjectiveStatus} → ObjectivePath s s
  move :
      {s t u : ObjectiveStatus}
      → assert_objective_transition s t ≡ ok tt
      → ObjectivePath t u
      → ObjectivePath s u

pub data WorkItemPath : WorkItemStatus → WorkItemStatus → Type 0 where
  stay : {s : WorkItemStatus} → WorkItemPath s s
  move :
      {s t u : WorkItemStatus}
      → assert_work_item_transition s t ≡ ok tt
      → WorkItemPath t u
      → WorkItemPath s u

abbrev pub is_final : ObjectiveStatus → Bool
is_final completed = true
is_final ObjectiveStatus.cancelled = true
is_final _ = false

final-stays :
    (s t : ObjectiveStatus)
    → is_final s ≡ true
    → assert_objective_transition s t ≡ err invalid_status_transition
unfolding assert_objective_transition
final-stays completed t h = refl
final-stays ObjectiveStatus.cancelled t h = refl
final-stays open_ t h = cc
final-stays active t h = cc

-- A completed or cancelled objective is final: every path of accepted moves from it ends where it
-- began.
pub objective_final : {s t : ObjectiveStatus} → is_final s ≡ true → ObjectivePath s t → s ≡ t
objective_final h stay = refl
objective_final {s} h (move {t} m p) = cc (final-stays s t h)

append : {s t u : WorkItemStatus} → WorkItemPath s t → WorkItemPath t u → WorkItemPath s u
append stay q = q
append (move m p) q = move m (append p q)

to_ready : (s : WorkItemStatus) → WorkItemPath s ready
unfolding assert_work_item_transition
to_ready backlog = move refl stay
to_ready ready = stay
to_ready in_progress = move refl stay
to_ready blocked = move refl stay
to_ready in_review = move {t = in_progress} refl (move refl stay)
to_ready done = move {t = in_progress} refl (move refl stay)
to_ready WorkItemStatus.cancelled = move {t = backlog} refl (move refl stay)

from_ready : (t : WorkItemStatus) → WorkItemPath ready t
unfolding assert_work_item_transition
from_ready backlog = move refl stay
from_ready ready = stay
from_ready in_progress = move refl stay
from_ready blocked = move {t = in_progress} refl (move refl stay)
from_ready in_review = move {t = in_progress} refl (move refl stay)
from_ready done = move {t = in_progress} refl (move refl stay)
from_ready WorkItemStatus.cancelled = move refl stay

-- No status of a work item is a dead end: from every status, moves that the code accepts lead to
-- every other one.
pub work_item_connected : (s t : WorkItemStatus) → WorkItemPath s t
work_item_connected s t = append (to_ready s) (from_ready t)

-- A work item is done only by way of being in progress or in review.
pub done_needs_work :
    (s : WorkItemStatus)
    → assert_work_item_transition s done ≡ ok tt
    → (s ≡ in_progress) ⊎ (s ≡ in_review)
unfolding assert_work_item_transition
done_needs_work s h = ground arith
