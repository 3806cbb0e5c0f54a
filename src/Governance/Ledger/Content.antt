-- ===== src/Governance/Ledger/Content.antt =====
-- The hashed text of an entry determines the entry's content (projectHashableEntry of
-- src/domain/governance/ledger.ts).
use nexusos_agentic.Base.{
  ℕ, ◌≡◌, refl, sym, ap, ◌∙◌, String, true, false, Option, none, some, arith,
}
use nexusos_agentic.Text.{units, units-injective}
use nexusos_agentic.Json.{same, Units, Value, Fields, text, number, object, end, field}
use nexusos_agentic.Governance.Canonical.{proto, normalize, canonical_json}
use nexusos_agentic.Governance.Canonical.Laws.{last, or_else, normal, canonical_binds, same_iff}
use nexusos_agentic.Governance.Ledger.{
  LedgerEvent, text_field, optional_field, project_hashable_entry,
}

abbrev value_text : Option String → Option Value
value_text none = none
value_text (some s) = some (text (units s))

-- The six fields before the optional ones say nothing of the optional keys.
or_else-none :
    (o : Option String)
    → or_else
        (or_else (or_else (or_else (or_else (or_else (value_text o) none) none) none) none) none)
        none
      ≡ value_text o
or_else-none none = refl
or_else-none (some v) = refl

value_text-injective : (a b : Option String) → normal (value_text a) ≡ normal (value_text b) → a ≡ b
unfolding normalize
value_text-injective none none h = refl
value_text-injective none (some b) h = cc
value_text-injective (some a) none h = cc
value_text-injective (some a) (some b) h = ap some (units-injective a b (inner h))
  where
    inner : {a b : Units} → Path (Option Value) (some (text a)) (some (text b)) → a ≡ b
    inner e = cc

LedgerEvent-path :
    (e f : LedgerEvent)
    → e.id ≡ f.id
    → e.organization_id ≡ f.organization_id
    → e.kind ≡ f.kind
    → e.actor_id ≡ f.actor_id
    → e.occurred_at ≡ f.occurred_at
    → e.payload_hash ≡ f.payload_hash
    → e.payload_ref ≡ f.payload_ref
    → e.intent_id ≡ f.intent_id
    → e.run_id ≡ f.run_id
    → e ≡ f
LedgerEvent-path e f a b c d g h i j k = cc

-- An optional field with another key does not matter.
past :
    (key other : String) (o : Option String) (fs : Fields)
    → same (units other) (units key) ≡ false
    → last (units key) (optional_field other o fs) ≡ last (units key) fs
unfolding last
past key other none fs h = refl
past key other (some s) fs h = ground arith

at :
    (key : String) (o : Option String) (fs : Fields)
    → same (units key) (units key) ≡ true
    → last (units key) fs ≡ none
    → last (units key) (optional_field key o fs) ≡ value_text o
unfolding last
at key none fs h k = k
at key (some s) fs h k = ground arith

module _ (e : LedgerEvent) (n : ℕ) (h : String) where
  abbrev previous : Fields
  previous = field (units "sequence") (number n) (text_field "previousHash" h end)

  abbrev runs : Fields
  runs = optional_field "runId" e.run_id previous

  abbrev intents : Fields
  intents = optional_field "intentId" e.intent_id runs

  past_all :
      (key : String)
      → same (units "payloadRef") (units key) ≡ false
      → same (units "intentId") (units key) ≡ false
      → same (units "runId") (units key) ≡ false
      → last (units key) (optional_field "payloadRef" e.payload_ref intents)
        ≡ last (units key) previous
  past_all key a b c =
      past key "payloadRef" e.payload_ref intents a
      ∙ (past key "intentId" e.intent_id runs b ∙ past key "runId" e.run_id previous c)

  id_of : last (units "id") (project_hashable_entry e n h) ≡ some (text (units e.id))
  unfolding project_hashable_entry last same units
  id_of = rw (past_all "id" refl refl refl) refl

  organization_id_of :
      last (units "organizationId") (project_hashable_entry e n h)
      ≡ some (text (units e.organization_id))
  unfolding project_hashable_entry last same units
  organization_id_of = rw (past_all "organizationId" refl refl refl) refl

  kind_of : last (units "kind") (project_hashable_entry e n h) ≡ some (text (units e.kind))
  unfolding project_hashable_entry last same units
  kind_of = rw (past_all "kind" refl refl refl) refl

  actor_id_of :
      last (units "actorId") (project_hashable_entry e n h) ≡ some (text (units e.actor_id))
  unfolding project_hashable_entry last same units
  actor_id_of = rw (past_all "actorId" refl refl refl) refl

  occurred_at_of :
      last (units "occurredAt") (project_hashable_entry e n h) ≡ some (text (units e.occurred_at))
  unfolding project_hashable_entry last same units
  occurred_at_of = rw (past_all "occurredAt" refl refl refl) refl

  payload_hash_of :
      last (units "payloadHash") (project_hashable_entry e n h) ≡ some (text (units e.payload_hash))
  unfolding project_hashable_entry last same units
  payload_hash_of = rw (past_all "payloadHash" refl refl refl) refl

  sequence_of : last (units "sequence") (project_hashable_entry e n h) ≡ some (number n)
  unfolding project_hashable_entry last same units
  sequence_of = rw (past_all "sequence" refl refl refl) refl

  previous_hash_of :
      last (units "previousHash") (project_hashable_entry e n h) ≡ some (text (units h))
  unfolding project_hashable_entry last same units
  previous_hash_of = rw (past_all "previousHash" refl refl refl) refl

  payload_ref_of :
      last (units "payloadRef") (project_hashable_entry e n h) ≡ value_text e.payload_ref
  unfolding project_hashable_entry last same units
  payload_ref_of =
      rw
        (at "payloadRef" e.payload_ref intents refl (
          past "payloadRef" "intentId" e.intent_id runs refl
          ∙ past "payloadRef" "runId" e.run_id previous refl))
        (or_else-none e.payload_ref)

  intent_id_of : last (units "intentId") (project_hashable_entry e n h) ≡ value_text e.intent_id
  unfolding project_hashable_entry last same units
  intent_id_of =
      rw
        (
          past "intentId" "payloadRef" e.payload_ref intents refl,
          at "intentId" e.intent_id runs refl (past "intentId" "runId" e.run_id previous refl),
        )
        (or_else-none e.intent_id)

  run_id_of : last (units "runId") (project_hashable_entry e n h) ≡ value_text e.run_id
  unfolding project_hashable_entry last same units
  run_id_of =
      rw
        (
          past "runId" "payloadRef" e.payload_ref intents refl,
          past "runId" "intentId" e.intent_id runs refl,
          at "runId" e.run_id previous refl refl,
        )
        (or_else-none e.run_id)

-- Equal texts have equal values at a key.
module _ (fs gs : Fields) (equal : canonical_json (object fs) ≡ canonical_json (object gs)) where
  optional_bound :
      (key : String) {a b : Option String}
      → same (units key) proto ≡ false
      → last (units key) fs ≡ value_text a
      → last (units key) gs ≡ value_text b
      → a ≡ b
  unfolding normalize
  optional_bound key {a} {b} ne p q = value_text-injective a b (
      ap normal (sym p)
      ∙ (canonical_binds fs gs (units key) equal (ground (arith, same_iff (units key) proto))
          ∙ ap normal q))

  text_bound :
      (key : String) {a b : String}
      → same (units key) proto ≡ false
      → last (units key) fs ≡ some (text (units a))
      → last (units key) gs ≡ some (text (units b))
      → a ≡ b
  text_bound key {a} {b} ne p q =
      some-injective (optional_bound key {a = some a} {b = some b} ne p q)
    where
      some-injective : {a b : String} → Path (Option String) (some a) (some b) → a ≡ b
      some-injective h = cc

  number_bound :
      (key : String) {a b : ℕ}
      → same (units key) proto ≡ false
      → last (units key) fs ≡ some (number a)
      → last (units key) gs ≡ some (number b)
      → a ≡ b
  unfolding normalize
  number_bound key {a} {b} ne p q = number-injective (
      ap normal (sym p)
      ∙ (canonical_binds fs gs (units key) equal (ground (arith, same_iff (units key) proto))
          ∙ ap normal q))
    where
      number-injective : {a b : ℕ} → Path (Option Value) (some (number a)) (some (number b)) → a ≡ b
      number-injective h = cc

-- Entries with the same hashed text have the same event, sequence and previous hash.
pub content-injective :
    (e f : LedgerEvent) (n m : ℕ) (h k : String)
    → canonical_json (object (project_hashable_entry e n h))
      ≡ canonical_json (object (project_hashable_entry f m k))
    → (e ≡ f) × (n ≡ m) × (h ≡ k)
unfolding same units
content-injective e f n m h k equal =
    let fs = project_hashable_entry e n h in
    let gs = project_hashable_entry f m k in
    let id = text_bound fs gs equal "id" refl (id_of e n h) (id_of f m k) in
    let organization =
      text_bound fs gs equal "organizationId" refl (organization_id_of e n h)
        (organization_id_of f m k) in
    let kind = text_bound fs gs equal "kind" refl (kind_of e n h) (kind_of f m k) in
    let actor = text_bound fs gs equal "actorId" refl (actor_id_of e n h) (actor_id_of f m k) in
    let occurred =
      text_bound fs gs equal "occurredAt" refl (occurred_at_of e n h) (occurred_at_of f m k) in
    let payload =
      text_bound fs gs equal "payloadHash" refl (payload_hash_of e n h) (payload_hash_of f m k) in
    let payload_ref =
      optional_bound fs gs equal "payloadRef" refl (payload_ref_of e n h) (payload_ref_of f m k) in
    let intent =
      optional_bound fs gs equal "intentId" refl (intent_id_of e n h) (intent_id_of f m k) in
    let run = optional_bound fs gs equal "runId" refl (run_id_of e n h) (run_id_of f m k) in
    (
      LedgerEvent-path e f id organization kind actor occurred payload payload_ref intent run,
      number_bound fs gs equal "sequence" refl (sequence_of e n h) (sequence_of f m k),
      text_bound fs gs equal "previousHash" refl (previous_hash_of e n h) (previous_hash_of f m k),
    )
