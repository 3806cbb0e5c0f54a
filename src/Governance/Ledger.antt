-- ===== src/Governance/Ledger.antt =====
-- The hash-chained ledger (src/domain/governance/ledger.ts, src/contracts/governance.ts). The hash
-- of a text, SHA-256 in hexadecimal, is the runtime's, and an argument.
pub mod Content
pub mod Chain
pub mod Tamper
pub mod Tests
use nexusos_agentic.Base.{
  ℕ, suc, ◌+◌, String, Bool, true, false, not, ◌&&◌, Option, none, some, List, [], ◌∷◌, ◌==◌,
  str_eq, if◌then◌else◌, length, Result, ok, err,
}
use nexusos_agentic.Text.{units}
use nexusos_agentic.Json.{Units, Value, Fields, text, number, object, end, field}
use nexusos_agentic.Governance.Canonical.{canonical_json}

-- `LedgerEvent`; the kind is one of the texts of `LedgerEventKind`.
pub record LedgerEvent : Type 0 where
  pub id : String
  pub organization_id : String
  pub kind : String
  pub actor_id : String
  pub occurred_at : String
  pub payload_hash : String
  pub payload_ref : Option String
  pub intent_id : Option String
  pub run_id : Option String

pub record LedgerEntry : Type 0 where
  pub event : LedgerEvent
  pub sequence : ℕ
  pub previous_hash : String
  pub hash : String

abbrev pub genesis_hash : String
genesis_hash = "0000000000000000000000000000000000000000000000000000000000000000"

pub data LedgerError : Type 0 where
  crosses_organizations : LedgerError

abbrev pub text_field : String → String → Fields → Fields
text_field key s rest = field (units key) (text (units s)) rest

-- `...(value !== undefined ? { key: value } : {})`.
abbrev pub optional_field : String → Option String → Fields → Fields
optional_field key none rest = rest
optional_field key (some s) rest = text_field key s rest

-- `projectHashableEntry`.
unfoldable pub project_hashable_entry : LedgerEvent → ℕ → String → Fields
project_hashable_entry e sequence previous_hash = text_field "id" e.id (
    text_field "organizationId" e.organization_id (
      text_field "kind" e.kind (
        text_field "actorId" e.actor_id (
          text_field "occurredAt" e.occurred_at (
            text_field "payloadHash" e.payload_hash (
              optional_field "payloadRef" e.payload_ref (
                optional_field "intentId" e.intent_id (
                  optional_field "runId" e.run_id (
                    field (units "sequence") (number sequence)
                      (text_field "previousHash" previous_hash end))))))))))

pub data Reason : Type 0 where
  sequence_broken previous_hash_broken content_hash_broken organization_crossed : Reason

-- A chain is valid, with the hash of its last entry, or broken at an entry.
pub data LedgerVerification : Type 0 where
  valid : String → ℕ → LedgerVerification
  broken : String → ℕ → Reason → LedgerVerification

abbrev pub crosses : Option LedgerEntry → LedgerEvent → Bool
crosses none event = false
crosses (some p) event = not (str_eq p.event.organization_id event.organization_id)

abbrev pub next_sequence : Option LedgerEntry → ℕ
next_sequence none = 1
next_sequence (some p) = p.sequence + 1

abbrev pub next_previous_hash : Option LedgerEntry → String
next_previous_hash none = genesis_hash
next_previous_hash (some p) = p.hash

-- `organizationId && entry.organizationId !== organizationId`: an empty id is not compared.
abbrev pub differs : Option String → String → Bool
differs none organization = false
differs (some o) organization = not (str_eq o "") && not (str_eq organization o)

-- `organizationId ??= entry.organizationId`.
abbrev pub or_first : Option String → String → Option String
or_first none organization = some organization
or_first (some o) organization = some o

module _ (sha256_hex : Units → String) where
  -- The hash of an entry's content.
  unfoldable pub entry_hash : LedgerEvent → ℕ → String → String
  unfolding project_hashable_entry
  entry_hash e sequence previous_hash =
      sha256_hex (canonical_json (object (project_hashable_entry e sequence previous_hash)))

  -- The entry of an event after the last entry.
  unfoldable pub entry_after : Option LedgerEntry → LedgerEvent → LedgerEntry
  unfolding entry_hash
  entry_after previous event = record {
    event = event;
    sequence = next_sequence previous;
    previous_hash = next_previous_hash previous;
    hash = entry_hash event (next_sequence previous) (next_previous_hash previous);
  }

  unfoldable pub append_ledger_entry :
      Option LedgerEntry → LedgerEvent → Result LedgerError LedgerEntry
  unfolding entry_after
  append_ledger_entry previous event =
      if crosses previous event then err crosses_organizations else ok (entry_after previous event)

  unfoldable pub recompute_ledger_entry_hash : LedgerEntry → String
  unfolding entry_hash
  recompute_ledger_entry_hash e = entry_hash e.event e.sequence e.previous_hash

  -- The loop, from an index, with the hash and the organization so far.
  unfoldable pub verify_from : ℕ → Option String → String → List LedgerEntry → LedgerVerification
  unfolding recompute_ledger_entry_hash
  verify_from index organization expected [] = valid expected index
  verify_from index organization expected (e ∷ es) =
      let rest =
        verify_from (index + 1) (or_first organization e.event.organization_id) e.hash es in
      if not (e.sequence == index + 1)
      then broken e.event.id e.sequence sequence_broken
      else if differs organization e.event.organization_id
      then broken e.event.id e.sequence organization_crossed
      else if not (str_eq e.previous_hash expected)
      then broken e.event.id e.sequence previous_hash_broken
      else if not (str_eq (recompute_ledger_entry_hash e) e.hash)
      then broken e.event.id e.sequence content_hash_broken
      else rest

  unfoldable pub verify_ledger_chain : List LedgerEntry → LedgerVerification
  unfolding verify_from
  verify_ledger_chain entries = verify_from 0 none genesis_hash entries
