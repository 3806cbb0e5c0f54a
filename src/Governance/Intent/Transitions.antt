-- ===== src/Governance/Intent/Transitions.antt =====
-- Every operation of src/domain/governance/action-intent.ts keeps the invariant of an intent.
use mathlib.Core.Path.{subst}
use nexusos_agentic.Base.{
  ℕ, ◌≡◌, ◌≤◌, ◌<◌, String, true, Option, some, List, [], ◌∷◌, arith, length, All-append, Result,
  ok,
}
use nexusos_agentic.Runtime.{Dates}
use nexusos_agentic.Governance.Intent.{
  Status, proposed, rejected, expired, cancelled, executing, failed, ActionIntent, IntentError,
}
use nexusos_agentic.Governance.Intent.Actions.{
  CreateIntentInput, ApprovalInput, Actor, Outcome, outcome_status, recorded, create_intent,
  propose_intent, approve_intent, reject_intent, cancel_intent, expire_intent,
  claim_intent_for_execution, complete_intent, fail_approved_intent,
}
use nexusos_agentic.Governance.Intent.Approvals.{
  IsSoundFor, is_past_approval, is_before_quorum, HasToken, IsWellFormed, HasDistinctActors-append,
}
use nexusos_agentic.Governance.Intent.Inversion.{
  IsAcceptable, with_approval, propose_intent-eq-ok, approve_intent-eq-ok, reject_intent-eq-ok,
  cancel_intent-eq-ok, expire_intent-eq-ok, claim_intent-eq-ok, complete_intent-eq-ok,
  fail_approved_intent-eq-ok,
}

module _ {P : Type 0} where
  recorded-IsSound :
      (d : Dates) (i : ActionIntent P) (a : ApprovalInput)
      → IsAcceptable d i a
      → IsSoundFor i (recorded a)
  unfolding recorded
  recorded-IsSound d i a k = record {
    by_human = k.by_human;
    of_parameters = k.of_parameters;
    separated = k.separated;
    acknowledged = k.acknowledged;
    policy_given = k.policy_given;
  }

  with_approval-IsWellFormed :
      (d : Dates) (i : ActionIntent P) (a : ApprovalInput)
      → IsWellFormed i
      → IsAcceptable d i a
      → IsWellFormed (with_approval d i a)
  with_approval-IsWellFormed d i a w k = record {
    needs_one = w.needs_one;
    distinct =
        HasDistinctActors-append i.approvals (recorded a) w.distinct (unfold recorded in k.first);
    sound =
        All-append (IsSoundFor i) i.approvals (recorded a ∷ []) w.sound
          (recorded-IsSound d i a k, tt);
    quorum = ground arith;
    waiting = ground arith;
    fenced = ground arith;
  }

module _ (d : Dates) {P : Type 0} where
  pub create_intent-IsWellFormed :
      (hash : P → Result IntentError String) (input : CreateIntentInput P) (i : ActionIntent P)
      → create_intent d hash input ≡ ok i
      → IsWellFormed i
  unfolding create_intent
  create_intent-IsWellFormed hash input i h = ground arith

  -- A new status asks only for what the invariant says of that status.
  with_status-IsWellFormed :
      (i : ActionIntent P) (s : Status) (f : Option ℕ) (now : String)
      → IsWellFormed i
      → (is_past_approval s ≡ true → i.required_approvals ≤ length i.approvals)
      → (is_before_quorum s ≡ true → length i.approvals < i.required_approvals)
      → (s ≡ executing → HasToken f)
      → IsWellFormed (record i { status = s; fencing_token = f; updated_at = now })
  with_status-IsWellFormed i s f now w q b t = record {
    needs_one = w.needs_one;
    distinct = w.distinct;
    sound = w.sound;
    quorum = q;
    waiting = b;
    fenced = t;
  }

  pub propose_intent-IsWellFormed :
      (i j : ActionIntent P) (now : String)
      → IsWellFormed i
      → propose_intent d i now ≡ ok j
      → IsWellFormed j
  propose_intent-IsWellFormed i j now w h =
      let (s, _, e) = propose_intent-eq-ok d i j now h in
      subst IsWellFormed e (
        with_status-IsWellFormed i proposed i.fencing_token now w (ground arith) (ground arith)
          (ground arith))

  pub approve_intent-IsWellFormed :
      (i j : ActionIntent P) (a : ApprovalInput)
      → IsWellFormed i
      → approve_intent d i a ≡ ok j
      → IsWellFormed j
  approve_intent-IsWellFormed i j a w h =
      let (_, _, k, e) = approve_intent-eq-ok d i j a h in
      subst IsWellFormed e (with_approval-IsWellFormed d i a w k)

  pub reject_intent-IsWellFormed :
      (i j : ActionIntent P) (actor : Actor) (now : String)
      → IsWellFormed i
      → reject_intent d i actor now ≡ ok j
      → IsWellFormed j
  reject_intent-IsWellFormed i j actor now w h =
      let (s, _, e) = reject_intent-eq-ok d i j actor now h in
      subst IsWellFormed e (
        with_status-IsWellFormed i rejected i.fencing_token now w (ground arith) (ground arith)
          (ground arith))

  pub cancel_intent-IsWellFormed :
      (i j : ActionIntent P) (actor_id now : String)
      → IsWellFormed i
      → cancel_intent d i actor_id now ≡ ok j
      → IsWellFormed j
  cancel_intent-IsWellFormed i j actor_id now w h =
      let (s, _, e) = cancel_intent-eq-ok d i j actor_id now h in
      subst IsWellFormed e (
        with_status-IsWellFormed i cancelled i.fencing_token now w (ground arith) (ground arith)
          (ground arith))

  pub expire_intent-IsWellFormed :
      (i j : ActionIntent P) (now : String)
      → IsWellFormed i
      → expire_intent d i now ≡ ok j
      → IsWellFormed j
  expire_intent-IsWellFormed i j now w h =
      let (s, e) = expire_intent-eq-ok d i j now h in
      subst IsWellFormed e (
        with_status-IsWellFormed i expired i.fencing_token now w (ground arith) (ground arith)
          (ground arith))

  pub claim_intent-IsWellFormed :
      (i j : ActionIntent P) (versions : List (String × String)) (token : ℕ) (now : String)
      → IsWellFormed i
      → claim_intent_for_execution d i versions token now ≡ ok j
      → IsWellFormed j
  claim_intent-IsWellFormed i j versions token now w h =
      let (s, _, q, _, lo, hi, e) = claim_intent-eq-ok d i j versions token now h in
      subst IsWellFormed e (
        with_status-IsWellFormed i executing (some token) now w (λ _. q) (ground arith)
          (λ _. (lo, hi)))

  pub complete_intent-IsWellFormed :
      (i j : ActionIntent P) (token : ℕ) (o : Outcome) (now : String)
      → IsWellFormed i
      → complete_intent d i token o now ≡ ok j
      → IsWellFormed j
  unfolding outcome_status
  complete_intent-IsWellFormed i j token o now w h =
      let (s, _, e) = complete_intent-eq-ok d i j token o now h in
      subst IsWellFormed e (
        with_status-IsWellFormed i (outcome_status o) i.fencing_token now w (ground arith)
          (ground arith) (ground arith))

  pub fail_approved_intent-IsWellFormed :
      (i j : ActionIntent P) (now : String)
      → IsWellFormed i
      → fail_approved_intent d i now ≡ ok j
      → IsWellFormed j
  fail_approved_intent-IsWellFormed i j now w h =
      let (s, e) = fail_approved_intent-eq-ok d i j now h in
      subst IsWellFormed e (
        with_status-IsWellFormed i failed i.fencing_token now w (ground arith) (ground arith)
          (ground arith))
