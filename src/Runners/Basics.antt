-- ===== src/Runners/Basics.antt =====
-- What the parts of the runner domain share: identifiers, canonical timestamps, capabilities and
-- engines.
use nexusos_agentic.Base.{
  ℕ, String, Bool, true, false, ◌&&◌, ◌||◌, Option, none, some, List, [], ◌∷◌, ◌++◌, ltb,
}
use nexusos_agentic.Runtime.{Dates, iso_round_trip}
use nexusos_agentic.Text.{units, literal, fits, times, hex, is_timestamp_shape}

-- `isCanonicalTimestamp`: the shape of `toISOString()`, and the text is that of its own instant.
unfoldable pub is_canonical_timestamp : Dates → String → Bool
is_canonical_timestamp d s = is_timestamp_shape s && iso_round_trip d s

-- `/^<prefix>[0-9a-f]{32}$/u`.
unfoldable pub is_prefixed_id : String → String → Bool
unfolding fits literal units
is_prefixed_id prefix s = fits (literal prefix ++ times 32 hex) (units s)

abbrev pub is_run_id : String → Bool
is_run_id = is_prefixed_id "run_"

abbrev pub is_capability_report_id : String → Bool
is_capability_report_id = is_prefixed_id "cap_"

abbrev pub is_engine_report_id : String → Bool
is_engine_report_id = is_prefixed_id "egr_"

-- `RUNNER_CAPABILITIES`.
pub data Capability : Type 0 where
  node_permission_model bubblewrap landlock seccomp user_namespace docker podman : Capability

abbrev pub capability_eq : Capability → Capability → Bool
capability_eq node_permission_model node_permission_model = true
capability_eq bubblewrap bubblewrap = true
capability_eq landlock landlock = true
capability_eq seccomp seccomp = true
capability_eq user_namespace user_namespace = true
capability_eq docker docker = true
capability_eq podman podman = true
capability_eq _ _ = false

abbrev pub capabilities : List Capability
capabilities =
    node_permission_model ∷ bubblewrap ∷ landlock ∷ seccomp ∷ user_namespace ∷ docker ∷ podman ∷ []

abbrev pub has_capability : List Capability → Capability → Bool
has_capability [] c = false
has_capability (a ∷ l) c = capability_eq a c || has_capability l c

-- `EXECUTION_ENGINE_NAMES`.
pub data Engine : Type 0 where
  claude_code_cli codex_cli : Engine

abbrev pub engine_eq : Engine → Engine → Bool
engine_eq claude_code_cli claude_code_cli = true
engine_eq codex_cli codex_cli = true
engine_eq _ _ = false

pub data PolicySource : Type 0 where
  default_policy configured_policy : PolicySource

pub data LeaseStatus : Type 0 where
  active superseded released revoked : LeaseStatus

abbrev pub is_active_lease : Option LeaseStatus → Bool
is_active_lease (some active) = true
is_active_lease _ = false

-- Comparisons with a number that may be NaN are false.
abbrev pub later_than : Option ℕ → ℕ → Bool
later_than none n = false
later_than (some m) n = ltb n m
