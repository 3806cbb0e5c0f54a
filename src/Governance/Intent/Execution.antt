-- ===== src/Governance/Intent/Execution.antt =====
-- When an intent may be approved and claimed, and what stays fixed while it is executed
-- (approveIntent, claimIntentForExecution, completeIntent of
-- src/domain/governance/action-intent.ts).
use nexusos_agentic.Base.{
  ℕ, ◌≡◌, ◌≤◌, ◌⊎◌, ◌↔◌, inl, refl, String, true, Option, none, some, List, [], ◌∷◌, arith, eq_iff,
  length, ok,
}
use nexusos_agentic.Runtime.{Dates, max_safe_integer}
use nexusos_agentic.Governance.Intent.{proposed, approved, executing, ActionIntent, Precondition}
use nexusos_agentic.Governance.Intent.Actions.{
  ApprovalInput, outcome_status, preconditions_hold, version_of, approve_intent,
  claim_intent_for_execution, require_status, require_not_expired,
}
use nexusos_agentic.Governance.Intent.Approvals.{is_terminal}
use nexusos_agentic.Governance.Intent.Inversion.{
  IsLive, IsAcceptable, with_approval, require_not_expired-IsLive, propose_intent-eq-ok,
  approve_intent-eq-ok, reject_intent-eq-ok, cancel_intent-eq-ok, expire_intent-eq-ok,
  claim_intent-eq-ok, complete_intent-eq-ok, fail_approved_intent-eq-ok,
}
use nexusos_agentic.Governance.Intent.Lifecycle.{
  Step, Reach, propose, approve, reject, cancel, expire, claim, complete, fail, here, next,
}

-- Every precondition names a version that is the current one.
abbrev pub AreCurrent : List (String × String) → List Precondition → Type 0
AreCurrent versions [] = Unit
AreCurrent versions (p ∷ ps) =
    (version_of versions p.ref ≡ some p.observed_version) × AreCurrent versions ps

preconditions_hold_iff :
    (versions : List (String × String)) (ps : List Precondition)
    → (preconditions_hold versions ps ≡ true) ↔ AreCurrent versions ps
unfolding preconditions_hold
preconditions_hold_iff versions [] = ((λ _. tt), (λ _. refl))
preconditions_hold_iff versions (p ∷ ps) =
    go (version_of versions p.ref) refl (preconditions_hold_iff versions ps)
  where
    go :
        (o : Option String)
        → version_of versions p.ref ≡ o
        → ((preconditions_hold versions ps ≡ true) ↔ AreCurrent versions ps)
        → (preconditions_hold versions (p ∷ ps) ≡ true) ↔ AreCurrent versions (p ∷ ps)
    go none e ih = ground arith
    go (some w) e ih = ground (arith, eq_iff w p.observed_version)

module _ (d : Dates) {P : Type 0} where
  IsLive-require_not_expired :
      (i : ActionIntent P) (now : String)
      → IsLive d i.expires_at now
      → require_not_expired d i now ≡ ok tt
  unfolding require_not_expired
  IsLive-require_not_expired i now l = ground arith

  -- `claimIntentForExecution` succeeds exactly when the intent is approved, has not expired, has
  -- the required approvals, every precondition names the current version, and the token is from
  -- 1 to the largest safe integer.
  pub claim_intent_iff :
      (i : ActionIntent P) (versions : List (String × String)) (token : ℕ) (now : String)
      → ((j : ActionIntent P) × (claim_intent_for_execution d i versions token now ≡ ok j)) ↔ (
          (i.status ≡ approved)
          × IsLive d i.expires_at now
          × (i.required_approvals ≤ length i.approvals)
          × AreCurrent versions i.preconditions
          × (1 ≤ token)
          × (token ≤ max_safe_integer))
  unfolding claim_intent_for_execution require_status
  claim_intent_iff i versions token now = (
    (λ (j, h).
        let (s, l, q, p, lo, hi, _) = claim_intent-eq-ok d i j versions token now h in
        (
          s,
          require_not_expired-IsLive d i now l,
          q,
          (preconditions_hold_iff versions i.preconditions).0 p,
          lo,
          hi,
        )),
    (λ (s, l, q, p, lo, hi). (
      record i { status = executing; fencing_token = some token; updated_at = now },
      ground (
        arith,
        IsLive-require_not_expired i now l,
        (preconditions_hold_iff versions i.preconditions).1 p,
      ),
    )),
  )

  -- `approveIntent` succeeds exactly when the intent is proposed or approved, has not expired, and
  -- the approval is by a person, of the proposed parameters, by somebody who has not approved, and
  -- by the proposer only where duties are not separated, a solo owner may approve and the owner
  -- acknowledged it.
  pub approve_intent_iff :
      (i : ActionIntent P) (a : ApprovalInput)
      → ((j : ActionIntent P) × (approve_intent d i a ≡ ok j)) ↔ (
          ((i.status ≡ proposed) ⊎ (i.status ≡ approved))
          × IsLive d i.expires_at a.approved_at
          × IsAcceptable d i a)
  unfolding approve_intent require_status
  approve_intent_iff i a = (
    (λ (j, h).
        let (s, l, k, _) = approve_intent-eq-ok d i j a h in
        (s, require_not_expired-IsLive d i a.approved_at l, k)),
    (λ (s, l, k). (
      with_approval d i a,
      ground (
        arith,
        IsLive-require_not_expired i a.approved_at l,
        eq_iff a.actor_id i.proposer_id,
        eq_iff a.parameters_hash i.parameters_hash,
      ),
    )),
  )

  -- What stays of an execution: the token and the approvals it was claimed with, while it runs
  -- and after it has ended.
  pub record IsExecutionOf (i j : ActionIntent P) : Type 0 where
    pub token : j.fencing_token ≡ i.fencing_token
    pub approvals : j.approvals ≡ i.approvals
    pub state : (j.status ≡ executing) ⊎ (is_terminal j.status ≡ true)

  Step-IsExecutionOf : (i j k : ActionIntent P) → IsExecutionOf i j → Step d j k → IsExecutionOf i k
  unfolding outcome_status
  Step-IsExecutionOf i j k x (propose now h) = ground (arith, propose_intent-eq-ok d j k now h)
  Step-IsExecutionOf i j k x (approve a h) = ground (arith, approve_intent-eq-ok d j k a h)
  Step-IsExecutionOf i j k x (reject actor now h) =
      ground (arith, reject_intent-eq-ok d j k actor now h)
  Step-IsExecutionOf i j k x (cancel actor now h) =
      ground (arith, cancel_intent-eq-ok d j k actor now h)
  Step-IsExecutionOf i j k x (expire now h) = ground (arith, expire_intent-eq-ok d j k now h)
  Step-IsExecutionOf i j k x (claim versions token now h) =
      ground (arith, claim_intent-eq-ok d j k versions token now h)
  Step-IsExecutionOf i j k x (complete token o now h) =
      ground (arith, complete_intent-eq-ok d j k token o now h)
  Step-IsExecutionOf i j k x (fail now h) = ground (arith, fail_approved_intent-eq-ok d j k now h)

  -- Once an intent is executing, whatever operations succeed later, its fencing token and its
  -- approvals stay the same, and it is executing or final.
  pub executing-IsExecutionOf :
      {i j : ActionIntent P} → i.status ≡ executing → Reach d i j → IsExecutionOf i j
  executing-IsExecutionOf s here = record { token = refl; approvals = refl; state = inl s }
  executing-IsExecutionOf s (next {j} {k} r t) =
      Step-IsExecutionOf _ j k (executing-IsExecutionOf s r) t
