-- ===== src/WorkGraph/Tests.antt =====
-- The theorems about statuses at concrete ones.
use nexusos_agentic.Base.{◌≡◌, ◌⊎◌, refl}
use nexusos_agentic.WorkGraph.{done, backlog, in_progress, in_review, assert_work_item_transition}
use nexusos_agentic.WorkGraph.Laws.{WorkItemPath, work_item_connected, done_needs_work}

work_item_connected_example : WorkItemPath done backlog
work_item_connected_example = work_item_connected done backlog

done_needs_work_example : (in_review ≡ in_progress) ⊎ (in_review ≡ in_review)
unfolding assert_work_item_transition
done_needs_work_example = done_needs_work in_review refl
