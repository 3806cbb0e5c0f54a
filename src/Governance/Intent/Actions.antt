-- ===== src/Governance/Intent/Actions.antt =====
-- The operations of src/domain/governance/action-intent.ts, over the runtime's dates.
use nexusos_agentic.Base.{
  ℕ, String, Bool, true, false, ◌||◌, ◌&&◌, not, Option, none, some, List, [], ◌∷◌, ◌++◌, ◌==◌, ltb,
  leb, if◌then◌else◌, str_eq, any, length, is_some, Result, ok, err, ◌>>=◌, ◌>>◌, throw_if,
}
use nexusos_agentic.Runtime.{Dates, max_safe_integer}
use nexusos_agentic.Text.{is_instant_shape}
use nexusos_agentic.Governance.Intent.{
  PrincipalKind, RiskTier, Status, draft, proposed, approved, rejected, expired, cancelled,
  executing, succeeded, failed, interrupted, Precondition, Approval, PolicyDecision,
  SelfApprovalPolicy, ActionIntent, IntentError, type_error, invalid_state, is_expired,
  invalid_actor, separation_of_duties_error, self_approval_ack_required, payload_mismatch,
  duplicate_approval, missing_approvals, stale_precondition, invalid_fencing_token,
  invalid_timestamp, status_eq, is_human,
}

-- `Omit<ActionIntent, "parametersHash" | "approvals" | "status" | "createdAt" | "updatedAt"> & { now }`.
pub record CreateIntentInput (P : Type 0) : Type 0 where
  pub id : String
  pub organization_id : String
  pub project_id : String
  pub proposer_id : String
  pub proposer_kind : PrincipalKind
  pub action_type : String
  pub target_ref : String
  pub parameters : P
  pub preconditions : List Precondition
  pub risk_tier : RiskTier
  pub policy_decision : PolicyDecision
  pub required_approvals : ℕ
  pub separation_of_duties : Bool
  pub self_approval_policy : Option SelfApprovalPolicy
  pub expires_at : String
  pub idempotency_key : String
  pub supersedes_intent_id : Option String
  pub fencing_token : Option ℕ
  pub now : String

-- The approval that a caller hands in; `solo_owner_acknowledged` may be left out.
pub record ApprovalInput : Type 0 where
  pub actor_id : String
  pub actor_kind : PrincipalKind
  pub parameters_hash : String
  pub solo_owner_acknowledged : Option Bool
  pub approved_at : String

pub record Actor : Type 0 where
  pub id : String
  pub kind : PrincipalKind

-- The three outcomes that `completeIntent` takes.
pub data Outcome : Type 0 where
  outcome_succeeded outcome_failed outcome_interrupted : Outcome

unfoldable pub outcome_status : Outcome → Status
outcome_status outcome_succeeded = succeeded
outcome_status outcome_failed = failed
outcome_status outcome_interrupted = interrupted

-- `acknowledged === true`; `undefined` is not.
abbrev pub is_true : Option Bool → Bool
is_true (some b) = b
is_true none = false

abbrev status_in : List Status → Status → Bool
status_in [] s = false
status_in (a ∷ as_) s = status_eq a s || status_in as_ s

-- `currentVersions[ref]`, an own property of a record of strings.
unfoldable pub version_of : List (String × String) → String → Option String
version_of [] ref = none
version_of ((k, v) ∷ m) ref = if str_eq k ref then some v else version_of m ref

abbrev pub is_version : Option String → String → Bool
is_version none v = false
is_version (some w) v = str_eq w v

-- The loop over the preconditions: false at the first that changed.
unfoldable pub preconditions_hold : List (String × String) → List Precondition → Bool
preconditions_hold versions [] = true
preconditions_hold versions (p ∷ ps) =
    is_version (version_of versions p.ref) p.observed_version && preconditions_hold versions ps

-- The approval as it is stored.
unfoldable pub recorded : ApprovalInput → Approval
recorded a = record {
  actor_id = a.actor_id;
  actor_kind = a.actor_kind;
  parameters_hash = a.parameters_hash;
  solo_owner_acknowledged = is_true a.solo_owner_acknowledged;
  approved_at = a.approved_at;
}

-- `intent.fencingToken !== fencingToken`, where the intent's may be undefined.
abbrev pub holds_token : Option ℕ → ℕ → Bool
holds_token none t = false
holds_token (some s) t = s == t

-- `intent.approvals.some((item) => item.actorId === actorId)`.
abbrev pub has_approved : List Approval → String → Bool
has_approved approvals actor = any (λ a. str_eq a.actor_id actor) approvals

module _ {P : Type 0} where
  unfoldable pub require_status : ActionIntent P → List Status → Result IntentError (Unit {0})
  require_status intent allowed = throw_if (not (status_in allowed intent.status)) invalid_state

module _ (d : Dates) where
  unfoldable pub parse_instant : String → Result IntentError ℕ
  parse_instant value =
      if is_instant_shape value
      then elim (d.parse value) [ none ↦ err invalid_timestamp | some ms ↦ ok ms ]
      else err invalid_timestamp

  module _ {P : Type 0} where
    unfoldable pub require_not_expired : ActionIntent P → String → Result IntentError (Unit {0})
    require_not_expired intent now = do
      current ← parse_instant now
      expiry ← parse_instant intent.expires_at
      throw_if (leb expiry current) is_expired

    -- `hash` is `hashCanonical`.
    unfoldable pub create_intent :
        (P → Result IntentError String) → CreateIntentInput P → Result IntentError (ActionIntent P)
    create_intent hash input = do
      throw_if (ltb input.required_approvals 1) type_error
      throw_if
          ((input.separation_of_duties && is_some input.self_approval_policy)
            || (not input.separation_of_duties && not (is_some input.self_approval_policy)))
          type_error
      now_instant ← parse_instant input.now
      expiry_instant ← parse_instant input.expires_at
      throw_if (leb expiry_instant now_instant) invalid_timestamp
      evaluated ← parse_instant input.policy_decision.evaluated_at
      h ← hash input.parameters
      ok (record {
        id = input.id;
        organization_id = input.organization_id;
        project_id = input.project_id;
        proposer_id = input.proposer_id;
        proposer_kind = input.proposer_kind;
        action_type = input.action_type;
        target_ref = input.target_ref;
        parameters = input.parameters;
        parameters_hash = h;
        preconditions = input.preconditions;
        risk_tier = input.risk_tier;
        policy_decision = input.policy_decision;
        required_approvals = input.required_approvals;
        separation_of_duties = input.separation_of_duties;
        self_approval_policy = input.self_approval_policy;
        approvals = [];
        expires_at = input.expires_at;
        idempotency_key = input.idempotency_key;
        status = draft;
        supersedes_intent_id = input.supersedes_intent_id;
        fencing_token = input.fencing_token;
        created_at = input.now;
        updated_at = input.now;
      })

    unfoldable pub propose_intent : ActionIntent P → String → Result IntentError (ActionIntent P)
    propose_intent intent now = do
      require_status intent (draft ∷ [])
      require_not_expired intent now
      ok (record intent { status = proposed; updated_at = now })

    unfoldable pub approve_intent :
        ActionIntent P → ApprovalInput → Result IntentError (ActionIntent P)
    approve_intent intent approval = do
      require_status intent (proposed ∷ approved ∷ [])
      require_not_expired intent approval.approved_at
      throw_if (not (is_human approval.actor_kind)) invalid_actor
      let own = str_eq approval.actor_id intent.proposer_id
      throw_if (own && intent.separation_of_duties) separation_of_duties_error
      throw_if
          (own
            && (not (is_true approval.solo_owner_acknowledged)
                || not (is_some intent.self_approval_policy)))
          self_approval_ack_required
      throw_if (not (str_eq approval.parameters_hash intent.parameters_hash)) payload_mismatch
      throw_if (has_approved intent.approvals approval.actor_id) duplicate_approval
      let approvals = intent.approvals ++ recorded approval ∷ []
      ok (record intent {
        approvals = approvals;
        status = if leb intent.required_approvals (length approvals) then approved else proposed;
        updated_at = approval.approved_at;
      })

    unfoldable pub reject_intent :
        ActionIntent P → Actor → String → Result IntentError (ActionIntent P)
    reject_intent intent actor now = do
      require_status intent (proposed ∷ approved ∷ [])
      throw_if (not (is_human actor.kind)) invalid_actor
      instant ← parse_instant now
      ok (record intent { status = rejected; updated_at = now })

    unfoldable pub cancel_intent :
        ActionIntent P → String → String → Result IntentError (ActionIntent P)
    cancel_intent intent actor_id now = do
      require_status intent (draft ∷ proposed ∷ approved ∷ [])
      throw_if (not (str_eq actor_id intent.proposer_id)) invalid_actor
      instant ← parse_instant now
      ok (record intent { status = cancelled; updated_at = now })

    unfoldable pub expire_intent : ActionIntent P → String → Result IntentError (ActionIntent P)
    expire_intent intent now = do
      require_status intent (proposed ∷ approved ∷ [])
      current ← parse_instant now
      expiry ← parse_instant intent.expires_at
      throw_if (ltb current expiry) invalid_state
      ok (record intent { status = expired; updated_at = now })

    unfoldable pub claim_intent_for_execution :
        ActionIntent P → List (String × String) → ℕ → String → Result IntentError (ActionIntent P)
    claim_intent_for_execution intent versions fencing_token now = do
      require_status intent (approved ∷ [])
      require_not_expired intent now
      throw_if (ltb (length intent.approvals) intent.required_approvals) missing_approvals
      throw_if (not (preconditions_hold versions intent.preconditions)) stale_precondition
      throw_if (not (leb fencing_token max_safe_integer) || ltb fencing_token 1)
          invalid_fencing_token
      ok (record intent {
        status = executing;
        fencing_token = some fencing_token;
        updated_at = now;
      })

    unfoldable pub complete_intent :
        ActionIntent P → ℕ → Outcome → String → Result IntentError (ActionIntent P)
    complete_intent intent fencing_token outcome now = do
      require_status intent (executing ∷ [])
      throw_if (not (holds_token intent.fencing_token fencing_token)) invalid_fencing_token
      instant ← parse_instant now
      ok (record intent { status = outcome_status outcome; updated_at = now })

    unfoldable pub fail_approved_intent :
        ActionIntent P → String → Result IntentError (ActionIntent P)
    fail_approved_intent intent now = do
      require_status intent (approved ∷ [])
      instant ← parse_instant now
      ok (record intent { status = failed; updated_at = now })
