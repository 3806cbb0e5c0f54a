-- ===== src/Governance/Intent/Approvals.antt =====
-- The invariant of an action intent, and how the list of approvals grows
-- (approveIntent of src/domain/governance/action-intent.ts).
use nexusos_agentic.Base.{
  ℕ, ◌+◌, ◌≡◌, ◌≢◌, ◌≤◌, ◌<◌, sym, String, true, false, Option, none, some, List, [], ◌∷◌, ◌++◌,
  arith, eq_iff, length, All, All-append, Bool, length-append, is_some,
}
use nexusos_agentic.Runtime.{max_safe_integer}
use nexusos_agentic.Governance.Intent.{
  Status, draft, proposed, approved, rejected, expired, cancelled, executing, succeeded, failed,
  interrupted, human, Approval, ActionIntent, SelfApprovalPolicy,
}
use nexusos_agentic.Governance.Intent.Actions.{has_approved}

-- No two approvals are by one actor.
abbrev pub HasDistinctActors : List Approval → Type 0
HasDistinctActors [] = Unit
HasDistinctActors (a ∷ as_) = All (λ b. b.actor_id ≢ a.actor_id) as_ × HasDistinctActors as_

-- One approval is what the intent asks of it: by a person, of these parameters, and by the proposer
-- only where the intent lets a solo owner approve and the owner acknowledged it.
pub record IsSound (parameters_hash proposer_id : String) (separation_of_duties : Bool)
    (self_approval_policy : Option SelfApprovalPolicy) (a : Approval) : Type 0 where
  pub by_human : a.actor_kind ≡ human
  pub of_parameters : a.parameters_hash ≡ parameters_hash
  pub separated : separation_of_duties ≡ true → a.actor_id ≢ proposer_id
  pub acknowledged : a.actor_id ≡ proposer_id → a.solo_owner_acknowledged ≡ true
  pub policy_given : a.actor_id ≡ proposer_id → is_some self_approval_policy ≡ true

abbrev pub IsSoundFor : {P : Type 0} → ActionIntent P → Approval → Type 0
IsSoundFor i = IsSound i.parameters_hash i.proposer_id i.separation_of_duties i.self_approval_policy

-- The statuses that an intent reaches only through its approvals.
abbrev pub is_past_approval : Status → Bool
is_past_approval approved = true
is_past_approval executing = true
is_past_approval succeeded = true
is_past_approval failed = true
is_past_approval interrupted = true
is_past_approval _ = false

abbrev pub is_before_quorum : Status → Bool
is_before_quorum draft = true
is_before_quorum proposed = true
is_before_quorum _ = false

-- An intent whose life is over.
abbrev pub is_terminal : Status → Bool
is_terminal rejected = true
is_terminal expired = true
is_terminal cancelled = true
is_terminal succeeded = true
is_terminal failed = true
is_terminal interrupted = true
is_terminal _ = false

abbrev pub HasToken : Option ℕ → Type 0
HasToken none = ⊥
HasToken (some t) = (1 ≤ t) × (t ≤ max_safe_integer)

pub record IsWellFormed {P : Type 0} (i : ActionIntent P) : Type 0 where
  pub needs_one : 1 ≤ i.required_approvals
  pub distinct : HasDistinctActors i.approvals
  pub sound : All (IsSoundFor i) i.approvals
  pub quorum : is_past_approval i.status ≡ true → i.required_approvals ≤ length i.approvals
  pub waiting : is_before_quorum i.status ≡ true → length i.approvals < i.required_approvals
  pub fenced : i.status ≡ executing → HasToken i.fencing_token

pub has_approved_sound :
    (as_ : List Approval) (actor : String)
    → has_approved as_ actor ≡ false
    → All (λ b. b.actor_id ≢ actor) as_
has_approved_sound [] actor h = tt
has_approved_sound (a ∷ as_) actor h =
    (ground (arith, eq_iff a.actor_id actor), has_approved_sound as_ actor (ground arith))

HasDistinctActors-snoc :
    (as_ : List Approval) (a : Approval)
    → HasDistinctActors as_
    → All (λ b. b.actor_id ≢ a.actor_id) as_
    → HasDistinctActors (as_ ++ a ∷ [])
HasDistinctActors-snoc [] a h n = (tt, tt)
HasDistinctActors-snoc (b ∷ as_) a h n = (
  All-append (λ c. c.actor_id ≢ b.actor_id) as_ (a ∷ []) h.0 ((λ e. n.0 (sym e)), tt),
  HasDistinctActors-snoc as_ a h.1 n.1,
)

-- One more approval by an actor who has not approved keeps the actors distinct.
pub HasDistinctActors-append :
    (as_ : List Approval) (a : Approval)
    → HasDistinctActors as_
    → has_approved as_ a.actor_id ≡ false
    → HasDistinctActors (as_ ++ a ∷ [])
HasDistinctActors-append as_ a h n =
    HasDistinctActors-snoc as_ a h (has_approved_sound as_ a.actor_id n)

pub length-snoc : (as_ : List Approval) (a : Approval) → length (as_ ++ a ∷ []) ≡ length as_ + 1
length-snoc as_ a = omega (arith, length-append as_ (a ∷ []))
