-- ===== src/Runners/Evidence.antt =====
-- The evidence of an engine report, and what it says of the engine
-- (src/domain/runners/engine-inventory-eligibility.ts, src/domain/runners/engine-report-protocol.ts).
use nexusos_agentic.Base.{
  ℕ, zero, suc, String, Bool, true, false, not, ◌&&◌, ◌||◌, Option, none, some, List, [], ◌∷◌, ◌==◌,
  leb, is_some, includes, opt_str_eq, if◌then◌else◌,
}
use nexusos_agentic.Text.{units, Class}
use nexusos_agentic.Runners.Basics.{Engine, engine_eq}
use nexusos_agentic.Runners.Latest.{Report}

abbrev alphanumeric : Class
alphanumeric c =
    (leb b'A' c && leb c b'Z') || (leb b'a' c && leb c b'z') || (leb b'0' c && leb c b'9')

-- `[A-Za-z0-9 ._+()-]`.
abbrev version_unit : Class
version_unit c =
    alphanumeric c
    || c == b' '
    || c == b'.'
    || c == b'_'
    || c == b'+'
    || c == b'('
    || c == b')'
    || c == b'-'

-- `{0,n}` of a class, to the end.
unfoldable pub at_most : ℕ → Class → List ℕ → Bool
at_most n k [] = true
at_most zero k (c ∷ cs) = false
at_most (suc n) k (c ∷ cs) = k c && at_most n k cs

unfoldable pub is_version_units : List ℕ → Bool
unfolding at_most
is_version_units [] = false
is_version_units (c ∷ cs) = alphanumeric c && at_most 63 version_unit cs

-- `isEngineReportVersion`: `/^[A-Za-z0-9][A-Za-z0-9 ._+()-]{0,63}$/u`.
unfoldable pub is_engine_report_version : String → Bool
unfolding is_version_units units
is_engine_report_version s = is_version_units (units s)

-- The row of an engine in a report; its texts are unchecked until `member` has seen them.
pub record Evidence : Type 0 where
  pub evidence_count : ℕ
  pub engine : Option Engine
  pub status : Option String
  pub readiness : Option String
  pub reason : Option String
  pub version : Option String

abbrev pub EngineReport : Type 0
EngineReport = Report Evidence

pub data DisabledReason : Type 0 where
  engine_policy_invalid engine_report_absent engine_report_future engine_report_stale :
      DisabledReason
  engine_evidence_missing engine_unavailable engine_auth_attention_required : DisabledReason
  engine_misconfigured engine_version_missing engine_inventory_inconsistent : DisabledReason

pub record Facts : Type 0 where
  pub report_id : Option String
  pub received_at : Option String
  pub fresh_until : Option String
  pub status : Option String
  pub readiness : Option String
  pub reason : Option String
  pub version : Option String

abbrev pub no_facts : Facts
no_facts = record {
  report_id = none;
  received_at = none;
  fresh_until = none;
  status = none;
  readiness = none;
  reason = none;
  version = none;
}

-- What the evaluation says: eligible, or disabled for a reason, with the facts that it knows.
pub data Verdict : Type 0 where
  eligible_with : Facts → Verdict
  disabled : DisabledReason → Facts → Verdict

abbrev pub probe_statuses : List String
probe_statuses = "available" ∷ "unavailable" ∷ "unknown" ∷ []

abbrev pub probe_readiness : List String
probe_readiness = "ready" ∷ "attention_required" ∷ "unknown" ∷ []

abbrev pub probe_reasons : List String
probe_reasons =
    "none" ∷ "engine_not_configured" ∷ "engine_binary_invalid" ∷ "engine_auth_attention_required"
    ∷ "engine_incompatible" ∷ "engine_probe_failed" ∷ []

-- `member(values, v) ? v : null`.
unfoldable pub safe_member : List String → Option String → Option String
safe_member values none = none
safe_member values (some v) = if includes values v then some v else none

unfoldable pub safe_version : Option String → Option String
safe_version none = none
safe_version (some v) = if is_engine_report_version v then some v else none

abbrev pub is_text : Option String → String → Bool
is_text o s = opt_str_eq o (some s)

abbrev pub is_engine : Option Engine → Engine → Bool
is_engine none e = false
is_engine (some a) e = engine_eq a e

-- The reason of a triple of status, readiness and reason that is not ready.
unfoldable pub unready_reason : Facts → DisabledReason
unready_reason f =
    let is =
      λ (s r why : String). is_text f.status s && is_text f.readiness r && is_text f.reason why in
    let versioned = is_some f.version in
    if is "unavailable" "attention_required" "engine_not_configured" && not versioned
    then engine_unavailable
    else if (is "unavailable" "attention_required" "engine_binary_invalid" && not versioned)
        || (is "available" "attention_required" "engine_incompatible" && versioned)
    then engine_misconfigured
    else if is "available" "attention_required" "engine_auth_attention_required" && versioned
    then engine_auth_attention_required
    else if is "unknown" "unknown" "engine_probe_failed" && not versioned
    then engine_unavailable
    else engine_inventory_inconsistent

-- The triple of status, readiness and reason, and whether there is a version.
unfoldable pub classify : Facts → Verdict
classify f =
    if is_text f.status "available" && is_text f.readiness "ready" && is_text f.reason "none"
    then (if is_some f.version then eligible_with f else disabled engine_version_missing f)
    else disabled (unready_reason f) f

abbrev pub evidence_missing : Evidence → Bool
evidence_missing e =
    not (is_some e.engine)
    && not (is_some e.status)
    && not (is_some e.readiness)
    && not (is_some e.reason)
    && not (is_some e.version)

unfoldable pub evidence_facts : Facts → Evidence → Facts
unfolding safe_member safe_version
evidence_facts known e = record known {
  status = safe_member probe_statuses e.status;
  readiness = safe_member probe_readiness e.readiness;
  reason = safe_member probe_reasons e.reason;
  version = safe_version e.version;
}

-- The evidence is not that of the requested engine, or a text of it is not one of the protocol's.
abbrev pub is_inconsistent : Engine → Facts → Evidence → Bool
is_inconsistent requested f e =
    not (e.evidence_count == 2)
    || not (is_engine e.engine requested)
    || not (is_some f.status)
    || not (is_some f.readiness)
    || not (is_some f.reason)
    || (is_some e.version && not (is_some f.version))

-- The evidence of a report that is fresh.
unfoldable pub judge_evidence : Engine → Facts → Evidence → Verdict
unfolding classify evidence_facts
judge_evidence requested known e =
    let f = evidence_facts known e in
    if evidence_missing e
    then disabled engine_evidence_missing known
    else if is_inconsistent requested f e
    then disabled engine_inventory_inconsistent f
    else classify f
