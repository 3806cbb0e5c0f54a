-- ===== src/Governance/Intent/Lifecycle.antt =====
-- The life of an action intent as a step relation, and what holds along every life.
use nexusos_agentic.Base.{
  ℕ, ◌≡◌, ◌∙◌, sym, ap, refl, String, true, none, List, [], arith, Result, ok, err,
}
use nexusos_agentic.Runtime.{Dates}
use nexusos_agentic.Governance.Intent.{draft, ActionIntent, IntentError, invalid_state}
use nexusos_agentic.Governance.Intent.Actions.{
  CreateIntentInput, ApprovalInput, Actor, Outcome, create_intent, propose_intent, approve_intent,
  reject_intent, cancel_intent, expire_intent, claim_intent_for_execution, complete_intent,
  fail_approved_intent, require_status,
}
use nexusos_agentic.Governance.Intent.Approvals.{IsWellFormed, is_terminal}
use nexusos_agentic.Governance.Intent.Inversion.{
  propose_intent-eq-ok, approve_intent-eq-ok, reject_intent-eq-ok, cancel_intent-eq-ok,
  expire_intent-eq-ok, claim_intent-eq-ok, complete_intent-eq-ok, fail_approved_intent-eq-ok,
}
use nexusos_agentic.Governance.Intent.Transitions.{
  create_intent-IsWellFormed, propose_intent-IsWellFormed, approve_intent-IsWellFormed,
  reject_intent-IsWellFormed, cancel_intent-IsWellFormed, expire_intent-IsWellFormed,
  claim_intent-IsWellFormed, complete_intent-IsWellFormed, fail_approved_intent-IsWellFormed,
}

module _ (d : Dates) {P : Type 0} where
  -- One operation that succeeds.
  pub data Step (i j : ActionIntent P) : Type 0 where
    propose : (now : String) → propose_intent d i now ≡ ok j → Step i j
    approve : (a : ApprovalInput) → approve_intent d i a ≡ ok j → Step i j
    reject : (actor : Actor) (now : String) → reject_intent d i actor now ≡ ok j → Step i j
    cancel : (actor now : String) → cancel_intent d i actor now ≡ ok j → Step i j
    expire : (now : String) → expire_intent d i now ≡ ok j → Step i j
    claim :
        (versions : List (String × String)) (token : ℕ) (now : String)
        → claim_intent_for_execution d i versions token now ≡ ok j
        → Step i j
    complete :
        (token : ℕ) (o : Outcome) (now : String) → complete_intent d i token o now ≡ ok j → Step i j
    fail : (now : String) → fail_approved_intent d i now ≡ ok j → Step i j

  pub data Reach (i : ActionIntent P) : ActionIntent P → Type 0 where
    here : Reach i i
    next : {j k : ActionIntent P} → Reach i j → Step j k → Reach i k

  pub Step-IsWellFormed : (i j : ActionIntent P) → Step i j → IsWellFormed i → IsWellFormed j
  Step-IsWellFormed i j (propose now h) w = propose_intent-IsWellFormed d i j now w h
  Step-IsWellFormed i j (approve a h) w = approve_intent-IsWellFormed d i j a w h
  Step-IsWellFormed i j (reject actor now h) w = reject_intent-IsWellFormed d i j actor now w h
  Step-IsWellFormed i j (cancel actor now h) w = cancel_intent-IsWellFormed d i j actor now w h
  Step-IsWellFormed i j (expire now h) w = expire_intent-IsWellFormed d i j now w h
  Step-IsWellFormed i j (claim versions token now h) w =
      claim_intent-IsWellFormed d i j versions token now w h
  Step-IsWellFormed i j (complete token o now h) w =
      complete_intent-IsWellFormed d i j token o now w h
  Step-IsWellFormed i j (fail now h) w = fail_approved_intent-IsWellFormed d i j now w h

  pub Reach-IsWellFormed : {i j : ActionIntent P} → IsWellFormed i → Reach i j → IsWellFormed j
  Reach-IsWellFormed w here = w
  Reach-IsWellFormed w (next {j} {k} r s) = Step-IsWellFormed j k s (Reach-IsWellFormed w r)

  -- An intent that is created, and goes through any operations that succeed, satisfies the
  -- invariant: at least one approval is required, the approvals are by distinct people, each is of
  -- the proposed parameters and by the proposer only where a solo owner may approve and
  -- acknowledged it; it is approved, executing, succeeded, failed or interrupted only with the
  -- required number of approvals, a draft or proposed one has fewer; and an executing one holds a
  -- fencing token from 1 to the largest safe integer.
  pub create_intent-Reach :
      (hash : P → Result IntentError String) (input : CreateIntentInput P) (i j : ActionIntent P)
      → create_intent d hash input ≡ ok i
      → Reach i j
      → IsWellFormed j
  create_intent-Reach hash input i j h r =
      Reach-IsWellFormed (create_intent-IsWellFormed d hash input i h) r

  -- An intent without what its life changes: its status, approvals, token and time of update.
  abbrev pub proposal : ActionIntent P → ActionIntent P
  proposal i = record i { status = draft; approvals = []; fencing_token = none; updated_at = "" }

  Step-proposal : (i j : ActionIntent P) → Step i j → proposal j ≡ proposal i
  Step-proposal i j (propose now h) = ap proposal (sym (propose_intent-eq-ok d i j now h).2)
  Step-proposal i j (approve a h) = ap proposal (sym (approve_intent-eq-ok d i j a h).3)
  Step-proposal i j (reject actor now h) =
      ap proposal (sym (reject_intent-eq-ok d i j actor now h).2)
  Step-proposal i j (cancel actor now h) =
      ap proposal (sym (cancel_intent-eq-ok d i j actor now h).2)
  Step-proposal i j (expire now h) = ap proposal (sym (expire_intent-eq-ok d i j now h).1)
  Step-proposal i j (claim versions token now h) =
      ap proposal (sym (claim_intent-eq-ok d i j versions token now h).6)
  Step-proposal i j (complete token o now h) =
      ap proposal (sym (complete_intent-eq-ok d i j token o now h).2)
  Step-proposal i j (fail now h) = ap proposal (sym (fail_approved_intent-eq-ok d i j now h).1)

  -- Whatever operations succeed, the proposal stays the same: every field of the intent but its
  -- status, approvals, fencing token and time of update.
  pub Reach-proposal : {i j : ActionIntent P} → Reach i j → proposal j ≡ proposal i
  Reach-proposal here = refl
  Reach-proposal (next {j} {k} r s) = Step-proposal j k s ∙ Reach-proposal r

  -- The operations refuse an intent whose life is over, each with `invalid_state`.
  pub record IsClosed (i : ActionIntent P) : Type 0 where
    pub no_propose : (now : String) → propose_intent d i now ≡ err invalid_state
    pub no_approve : (a : ApprovalInput) → approve_intent d i a ≡ err invalid_state
    pub no_reject : (actor : Actor) (now : String) → reject_intent d i actor now ≡ err invalid_state
    pub no_cancel : (actor now : String) → cancel_intent d i actor now ≡ err invalid_state
    pub no_expire : (now : String) → expire_intent d i now ≡ err invalid_state
    pub no_claim :
        (versions : List (String × String)) (token : ℕ) (now : String)
        → claim_intent_for_execution d i versions token now ≡ err invalid_state
    pub no_complete :
        (token : ℕ) (o : Outcome) (now : String)
        → complete_intent d i token o now ≡ err invalid_state
    pub no_fail : (now : String) → fail_approved_intent d i now ≡ err invalid_state

  -- A rejected, expired, cancelled, succeeded, failed or interrupted intent is final: every
  -- operation on it throws `invalid_state`, whatever its other arguments.
  pub terminal-IsClosed : (i : ActionIntent P) → is_terminal i.status ≡ true → IsClosed i
  unfolding propose_intent approve_intent reject_intent cancel_intent expire_intent
      claim_intent_for_execution complete_intent fail_approved_intent require_status
  terminal-IsClosed i t = record {
    no_propose = λ now. ground arith;
    no_approve = λ a. ground arith;
    no_reject = λ actor now. ground arith;
    no_cancel = λ actor now. ground arith;
    no_expire = λ now. ground arith;
    no_claim = λ versions token now. ground arith;
    no_complete = λ token o now. ground arith;
    no_fail = λ now. ground arith;
  }
