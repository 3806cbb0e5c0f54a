-- ===== src/Governance/Intent.antt =====
-- src/contracts/governance.ts and src/domain/governance/action-intent.ts: the action intent, a
-- proposed effect that people approve before it is executed.
pub mod Actions
pub mod Approvals
pub mod Inversion
pub mod Transitions
pub mod Lifecycle
pub mod Execution
pub mod Tests
use Prim.Native.String
use nexusos_agentic.Base.{
  ℕ, String, Bool, true, false, ◌||◌, ◌&&◌, not, Option, none, some, List, [], ◌∷◌, ◌==◌, leb,
  if◌then◌else◌,
}

pub data PrincipalKind : Type 0 where
  human agent automation policy runner : PrincipalKind

pub data RiskTier : Type 0 where
  low medium high critical : RiskTier

pub data Status : Type 0 where
  draft proposed approved rejected expired cancelled executing succeeded failed interrupted : Status

pub record Precondition : Type 0 where
  pub ref : String
  pub observed_version : String

pub record Approval : Type 0 where
  pub actor_id : String
  pub actor_kind : PrincipalKind
  pub parameters_hash : String
  pub solo_owner_acknowledged : Bool
  pub approved_at : String

pub data PolicyEffect : Type 0 where
  allow deny require_approval : PolicyEffect

pub record PolicyDecision : Type 0 where
  pub effect : PolicyEffect
  pub policy_version : String
  pub reasons : List String
  pub evaluated_at : String

-- The one value that `selfApprovalPolicy` has where it is given.
pub data SelfApprovalPolicy : Type 0 where
  solo_owner : SelfApprovalPolicy

-- `P` is the type of `parameters`, whose content only `hashCanonical` reads.
pub record ActionIntent (P : Type 0) : Type 0 where
  pub id : String
  pub organization_id : String
  pub project_id : String
  pub proposer_id : String
  pub proposer_kind : PrincipalKind
  pub action_type : String
  pub target_ref : String
  pub parameters : P
  pub parameters_hash : String
  pub preconditions : List Precondition
  pub risk_tier : RiskTier
  pub policy_decision : PolicyDecision
  pub required_approvals : ℕ
  pub separation_of_duties : Bool
  pub self_approval_policy : Option SelfApprovalPolicy
  pub approvals : List Approval
  pub expires_at : String
  pub idempotency_key : String
  pub status : Status
  pub supersedes_intent_id : Option String
  pub fencing_token : Option ℕ
  pub created_at : String
  pub updated_at : String

-- `IntentTransitionError.code`, and the `TypeError` of `createIntent` and `canonicalJson`.
pub data IntentError : Type 0 where
  type_error invalid_state is_expired invalid_actor separation_of_duties_error : IntentError
  self_approval_ack_required payload_mismatch duplicate_approval missing_approvals : IntentError
  stale_precondition invalid_fencing_token invalid_timestamp : IntentError

abbrev pub status_eq : Status → Status → Bool
status_eq draft draft = true
status_eq proposed proposed = true
status_eq approved approved = true
status_eq rejected rejected = true
status_eq expired expired = true
status_eq cancelled cancelled = true
status_eq executing executing = true
status_eq succeeded succeeded = true
status_eq failed failed = true
status_eq interrupted interrupted = true
status_eq _ _ = false

abbrev pub is_human : PrincipalKind → Bool
is_human human = true
is_human _ = false
