-- ===== src/Governance/Intent/Tests.antt =====
-- One intent from its creation to its end, and each theorem at that life.
use nexusos_agentic.Base.{
  ◌≡◌, ◌⊎◌, ◌↔◌, ◌≤◌, refl, String, true, false, none, some, List, [], ◌∷◌, length, Result, ok,
}
use nexusos_agentic.Runtime.{max_safe_integer}
use nexusos_agentic.Samples.{dates, midnight, half_minute, ten_past, one_hour, instant_of}
use nexusos_agentic.Text.{is_instant_shape}
use nexusos_agentic.Governance.Intent.{
  human, agent, low, allow, draft, proposed, approved, executing, succeeded, ActionIntent,
  IntentError,
}
use nexusos_agentic.Governance.Intent.Actions.{
  CreateIntentInput, ApprovalInput, outcome_succeeded, parse_instant, version_of,
  preconditions_hold, recorded, require_status, require_not_expired, create_intent, propose_intent,
  approve_intent, claim_intent_for_execution, complete_intent, outcome_status,
}
use nexusos_agentic.Governance.Intent.Approvals.{IsWellFormed}
use nexusos_agentic.Governance.Intent.Inversion.{IsLive, IsAcceptable}
use nexusos_agentic.Governance.Intent.Lifecycle.{
  Reach, here, next, propose, approve, claim, complete, create_intent-Reach, proposal,
  Reach-proposal, IsClosed, terminal-IsClosed,
}
use nexusos_agentic.Governance.Intent.Execution.{
  AreCurrent, claim_intent_iff, approve_intent_iff, IsExecutionOf, executing-IsExecutionOf,
}

operations : Unit {0}
unfolding create_intent propose_intent approve_intent claim_intent_for_execution complete_intent
    require_status require_not_expired parse_instant preconditions_hold version_of recorded
    outcome_status is_instant_shape instant_of
operations = tt

abbrev deploy : CreateIntentInput String
deploy = record {
  id = "intent_1";
  organization_id = "org";
  project_id = "project";
  proposer_id = "ann";
  proposer_kind = agent;
  action_type = "deploy";
  target_ref = "site";
  parameters = "v2";
  preconditions = record { ref = "site"; observed_version = "v1" } ∷ [];
  risk_tier = low;
  policy_decision = record {
    effect = allow;
    policy_version = "1";
    reasons = [];
    evaluated_at = midnight;
  };
  required_approvals = 1;
  separation_of_duties = true;
  self_approval_policy = none;
  expires_at = one_hour;
  idempotency_key = "k";
  supersedes_intent_id = none;
  fencing_token = none;
  now = midnight;
}

-- Stands for `hashCanonical`: the parameters themselves.
abbrev as_hash : String → Result IntentError String
as_hash p = ok p

abbrev by_bob : ApprovalInput
by_bob = record {
  actor_id = "bob";
  actor_kind = human;
  parameters_hash = "v2";
  solo_owner_acknowledged = none;
  approved_at = half_minute;
}

abbrev created : ActionIntent String
created = record {
  id = "intent_1";
  organization_id = "org";
  project_id = "project";
  proposer_id = "ann";
  proposer_kind = agent;
  action_type = "deploy";
  target_ref = "site";
  parameters = "v2";
  parameters_hash = "v2";
  preconditions = record { ref = "site"; observed_version = "v1" } ∷ [];
  risk_tier = low;
  policy_decision = record {
    effect = allow;
    policy_version = "1";
    reasons = [];
    evaluated_at = midnight;
  };
  required_approvals = 1;
  separation_of_duties = true;
  self_approval_policy = none;
  approvals = [];
  expires_at = one_hour;
  idempotency_key = "k";
  status = draft;
  supersedes_intent_id = none;
  fencing_token = none;
  created_at = midnight;
  updated_at = midnight;
}

abbrev offered : ActionIntent String
offered = record created { status = proposed; updated_at = midnight }

abbrev agreed : ActionIntent String
agreed = record offered {
  approvals =
      record {
        actor_id = "bob";
        actor_kind = human;
        parameters_hash = "v2";
        solo_owner_acknowledged = false;
        approved_at = half_minute;
      }
      ∷ [];
  status = approved;
  updated_at = half_minute;
}

abbrev running : ActionIntent String
running = record agreed { status = executing; fencing_token = some 7; updated_at = half_minute }

abbrev finished : ActionIntent String
finished = record running { status = succeeded; updated_at = ten_past }

abbrev versions : List (String × String)
versions = ("site", "v1") ∷ []

first_created : create_intent dates as_hash deploy ≡ ok created
unfolding operations
first_created = refl

agreed_runs : claim_intent_for_execution dates agreed versions 7 half_minute ≡ ok running
unfolding operations
agreed_runs = refl

both_kept : approve_intent dates offered by_bob ≡ ok agreed
unfolding operations
both_kept = refl

running_ends : Reach dates running finished
unfolding operations
running_ends = next here (complete 7 outcome_succeeded ten_past refl)

whole_life : Reach dates created finished
unfolding operations
whole_life =
    next
      (next (next (next here (propose midnight refl)) (approve by_bob refl))
        (claim versions 7 half_minute refl))
      (complete 7 outcome_succeeded ten_past refl)

create_intent-Reach_example : IsWellFormed finished
create_intent-Reach_example =
    create_intent-Reach dates as_hash deploy created finished first_created whole_life

Reach-proposal_example : proposal dates finished ≡ proposal dates created
Reach-proposal_example = Reach-proposal dates whole_life

terminal-IsClosed_example : IsClosed dates finished
terminal-IsClosed_example = terminal-IsClosed dates finished refl

claim_intent_iff_example :
    ((j : ActionIntent String) × (claim_intent_for_execution dates agreed versions 7 half_minute
        ≡ ok j))
    ↔ ((agreed.status ≡ approved)
        × IsLive dates agreed.expires_at half_minute
        × (agreed.required_approvals ≤ length agreed.approvals)
        × AreCurrent versions agreed.preconditions
        × (1 ≤ 7)
        × (7 ≤ max_safe_integer))
claim_intent_iff_example = claim_intent_iff dates agreed versions 7 half_minute

approve_intent_iff_example :
    ((j : ActionIntent String) × (approve_intent dates offered by_bob ≡ ok j)) ↔ (
      ((offered.status ≡ proposed) ⊎ (offered.status ≡ approved))
      × IsLive dates offered.expires_at half_minute
      × IsAcceptable dates offered by_bob)
approve_intent_iff_example = approve_intent_iff dates offered by_bob

executing-IsExecutionOf_example : IsExecutionOf dates running finished
executing-IsExecutionOf_example = executing-IsExecutionOf dates refl running_ends
