-- ===== src/Governance/Intent/Inversion.antt =====
-- What a successful operation of src/domain/governance/action-intent.ts has checked, and the
-- intent that it returns.
use nexusos_agentic.Base.{
  ℕ, ◌≡◌, ◌≢◌, ◌≤◌, ◌<◌, ◌⊎◌, String, true, false, some, List, [], ◌∷◌, ◌++◌, arith, eq_iff, length,
  ok, is_some, >>=-eq-ok, if◌then◌else◌, leb,
}
use nexusos_agentic.Runtime.{Dates, max_safe_integer}
use nexusos_agentic.Governance.Intent.{
  draft, proposed, approved, rejected, expired, cancelled, executing, failed, human, ActionIntent,
}
use nexusos_agentic.Governance.Intent.Actions.{
  ApprovalInput, Actor, Outcome, outcome_status, parse_instant, recorded, propose_intent,
  approve_intent, reject_intent, cancel_intent, expire_intent, claim_intent_for_execution,
  complete_intent, fail_approved_intent, require_status, require_not_expired, has_approved, is_true,
  preconditions_hold,
}

module _ (d : Dates) where
  -- Both times parse, and `now` is before the expiry.
  pub record IsLive (expires_at now : String) : Type 0 where
    pub current : ℕ
    pub expiry : ℕ
    pub now_parses : parse_instant d now ≡ ok current
    pub expiry_parses : parse_instant d expires_at ≡ ok expiry
    pub before : current < expiry

  module _ {P : Type 0} where
    pub require_not_expired-IsLive :
        (i : ActionIntent P) (now : String)
        → require_not_expired d i now ≡ ok tt
        → IsLive i.expires_at now
    unfolding require_not_expired
    require_not_expired-IsLive i now h =
        let (c, p, k) = >>=-eq-ok (parse_instant d now) _ h in
        let (e, q, m) = >>=-eq-ok (parse_instant d i.expires_at) _ k in
        record { current = c; expiry = e; now_parses = p; expiry_parses = q; before = ground arith }

    pub propose_intent-eq-ok :
        (i j : ActionIntent P) (now : String)
        → propose_intent d i now ≡ ok j
        → (i.status ≡ draft)
          × (require_not_expired d i now ≡ ok tt)
          × (record i { status = proposed; updated_at = now } ≡ j)
    unfolding propose_intent require_status
    propose_intent-eq-ok i j now h = ground arith

    pub reject_intent-eq-ok :
        (i j : ActionIntent P) (actor : Actor) (now : String)
        → reject_intent d i actor now ≡ ok j
        → ((i.status ≡ proposed) ⊎ (i.status ≡ approved))
          × (actor.kind ≡ human)
          × (record i { status = rejected; updated_at = now } ≡ j)
    unfolding reject_intent require_status
    reject_intent-eq-ok i j actor now h = ground arith

    pub cancel_intent-eq-ok :
        (i j : ActionIntent P) (actor_id now : String)
        → cancel_intent d i actor_id now ≡ ok j
        → ((i.status ≡ draft) ⊎ (i.status ≡ proposed) ⊎ (i.status ≡ approved))
          × (actor_id ≡ i.proposer_id)
          × (record i { status = cancelled; updated_at = now } ≡ j)
    unfolding cancel_intent require_status
    cancel_intent-eq-ok i j actor_id now h = ground (arith, eq_iff actor_id i.proposer_id)

    pub expire_intent-eq-ok :
        (i j : ActionIntent P) (now : String)
        → expire_intent d i now ≡ ok j
        → ((i.status ≡ proposed) ⊎ (i.status ≡ approved))
          × (record i { status = expired; updated_at = now } ≡ j)
    unfolding expire_intent require_status
    expire_intent-eq-ok i j now h = ground arith

    pub claim_intent-eq-ok :
        (i j : ActionIntent P) (versions : List (String × String)) (token : ℕ) (now : String)
        → claim_intent_for_execution d i versions token now ≡ ok j
        → (i.status ≡ approved)
          × (require_not_expired d i now ≡ ok tt)
          × (i.required_approvals ≤ length i.approvals)
          × (preconditions_hold versions i.preconditions ≡ true)
          × (1 ≤ token)
          × (token ≤ max_safe_integer)
          × (record i { status = executing; fencing_token = some token; updated_at = now } ≡ j)
    unfolding claim_intent_for_execution require_status
    claim_intent-eq-ok i j versions token now h = ground arith

    pub complete_intent-eq-ok :
        (i j : ActionIntent P) (token : ℕ) (o : Outcome) (now : String)
        → complete_intent d i token o now ≡ ok j
        → (i.status ≡ executing)
          × (i.fencing_token ≡ some token)
          × (record i { status = outcome_status o; updated_at = now } ≡ j)
    unfolding complete_intent require_status
    complete_intent-eq-ok i j token o now h = ground arith

    pub fail_approved_intent-eq-ok :
        (i j : ActionIntent P) (now : String)
        → fail_approved_intent d i now ≡ ok j
        → (i.status ≡ approved) × (record i { status = failed; updated_at = now } ≡ j)
    unfolding fail_approved_intent require_status
    fail_approved_intent-eq-ok i j now h = ground arith

    -- What `approveIntent` asks of an approval, whatever the time.
    pub record IsAcceptable (i : ActionIntent P) (a : ApprovalInput) : Type 0 where
      pub by_human : a.actor_kind ≡ human
      pub separated : i.separation_of_duties ≡ true → a.actor_id ≢ i.proposer_id
      pub acknowledged : a.actor_id ≡ i.proposer_id → is_true a.solo_owner_acknowledged ≡ true
      pub policy_given : a.actor_id ≡ i.proposer_id → is_some i.self_approval_policy ≡ true
      pub of_parameters : a.parameters_hash ≡ i.parameters_hash
      pub first : has_approved i.approvals a.actor_id ≡ false

    -- The intent that `approveIntent` returns.
    abbrev pub with_approval : ActionIntent P → ApprovalInput → ActionIntent P
    with_approval i a =
        let approvals = i.approvals ++ recorded a ∷ [] in
        record i {
          approvals = approvals;
          status = if leb i.required_approvals (length approvals) then approved else proposed;
          updated_at = a.approved_at;
        }

    pub approve_intent-eq-ok :
        (i j : ActionIntent P) (a : ApprovalInput)
        → approve_intent d i a ≡ ok j
        → ((i.status ≡ proposed) ⊎ (i.status ≡ approved))
          × (require_not_expired d i a.approved_at ≡ ok tt)
          × IsAcceptable i a
          × (with_approval i a ≡ j)
    unfolding approve_intent require_status
    approve_intent-eq-ok i j a h =
        ground (arith, eq_iff a.actor_id i.proposer_id, eq_iff a.parameters_hash i.parameters_hash)
