-- ===== src/Governance/Ledger/Tests.antt =====
-- Canonical JSON and the ledger at concrete values, with a hash that only measures the text.
use nexusos_agentic.Base.{
  ◌≡◌, ◌≢◌, refl, sym, eq_iff, String, true, none, some, [], ◌∷◌, ltb, length, if◌then◌else◌, arith,
}
use nexusos_agentic.Text.{units, push_units, lex_lt}
use nexusos_agentic.Json.{
  Units, Value, Fields, null, number, text, array, size, object, nil, cons, end, field, has,
  stringify, quote, digits,
}
use nexusos_agentic.Json.Read.{parse}
use nexusos_agentic.Governance.Canonical.Text.{canonical_json-reads_back}
use nexusos_agentic.Governance.Canonical.Plain.{is_plain}
use nexusos_agentic.Governance.Canonical.{canonical_json, proto, array_index}
use nexusos_agentic.Governance.Canonical.Laws.{last, normal, canonical_binds, proto_unbound}
use nexusos_agentic.Governance.Canonical.Order.{
  SameValue, same_object, swapped, canonical_json-SameValue,
}
use nexusos_agentic.Governance.Ledger.{
  LedgerEvent, LedgerEntry, entry_after, entry_hash, project_hashable_entry, append_ledger_entry,
  verify_ledger_chain, valid,
}
use nexusos_agentic.Governance.Ledger.Chain.{Grown, empty, appended, Grown-verifies}
use nexusos_agentic.Governance.Ledger.Tamper.{CollisionFree, content, same_head_same_ledger}

-- `{"b": [7, null], "2": "\n"}`.
abbrev pair : Fields
pair =
    field (units "b") (array (cons (number 7) (cons null nil)))
      (field (units "2") (text (10 ∷ [])) end)

abbrev riap : Fields
riap =
    field (units "2") (text (10 ∷ []))
      (field (units "b") (array (cons (number 7) (cons null nil))) end)

canonical_pair : canonical_json (object pair) ≡ units "{\"2\":\"\\n\",\"b\":[7,null]}"
unfolding canonical_json stringify quote digits array_index push_units units lex_lt
canonical_pair = refl

pair-IsPlain : is_plain (object pair) ≡ true
unfolding is_plain units push_units has
pair-IsPlain = refl

canonical_json-reads_back_example :
    (w : Value) × (parse 40 (canonical_json (object pair)) ≡ some w) × SameValue (object pair) w
unfolding size units push_units
canonical_json-reads_back_example =
    canonical_json-reads_back 40 (object pair) pair-IsPlain (omega arith)

distinct : units "b" ≢ units "2"
unfolding units push_units
distinct e = ground arith

not_proto : units "b" ≢ proto
unfolding units push_units
not_proto e = ground arith

canonical_json-SameValue_example : canonical_json (object pair) ≡ canonical_json (object riap)
canonical_json-SameValue_example = canonical_json-SameValue (same_object (swapped distinct))

canonical_riap : canonical_json (object pair) ≡ canonical_json (object riap)
unfolding canonical_json stringify quote digits array_index push_units units lex_lt
canonical_riap = refl

canonical_binds_example : normal (last (units "b") pair) ≡ normal (last (units "b") riap)
canonical_binds_example = canonical_binds pair riap (units "b") canonical_riap not_proto

proto_unbound_example :
    canonical_json (object (field proto (number 1) pair)) ≡ canonical_json (object pair)
proto_unbound_example = proto_unbound (number 1) pair

-- A hash that tells short texts from long ones.
unfoldable sha256_hex : Units → String
sha256_hex t = if ltb (length t) 200 then "short" else "long"

abbrev enrolled : LedgerEvent
enrolled = record {
  id = "evt_1";
  organization_id = "org";
  kind = "runner.enrolled";
  actor_id = "ada";
  occurred_at = "2026-01-01T00:00:00.000Z";
  payload_hash = "aa";
  payload_ref = none;
  intent_id = none;
  run_id = none;
}

abbrev requested : LedgerEvent
requested = record enrolled { id = "evt_2"; kind = "run.requested"; run_id = some "run_1" }

abbrev first_entry : LedgerEntry
first_entry = entry_after sha256_hex none enrolled

abbrev second_entry : LedgerEntry
second_entry = entry_after sha256_hex (some first_entry) requested

two-Grown : Grown sha256_hex (first_entry ∷ second_entry ∷ [])
unfolding append_ledger_entry entry_after
two-Grown = appended requested second_entry (appended enrolled first_entry empty refl) refl

Grown-verifies_example :
    verify_ledger_chain sha256_hex (first_entry ∷ second_entry ∷ []) ≡ valid second_entry.hash 2
unfolding entry_after
Grown-verifies_example = Grown-verifies sha256_hex two-Grown

two_valid :
    verify_ledger_chain sha256_hex (first_entry ∷ second_entry ∷ []) ≡ valid second_entry.hash 2
two_valid = Grown-verifies sha256_hex two-Grown

first_hash : sha256_hex (content first_entry) ≡ "long"
unfolding sha256_hex entry_after entry_hash project_hashable_entry canonical_json stringify quote
    digits array_index push_units units lex_lt
first_hash = refl

second_hash : sha256_hex (content second_entry) ≡ "short"
unfolding sha256_hex entry_after entry_hash project_hashable_entry canonical_json stringify quote
    digits array_index push_units units lex_lt
second_hash = refl

distinct_hashes : sha256_hex (content first_entry) ≢ sha256_hex (content second_entry)
distinct_hashes e = absurd (ground (arith, first_hash, second_hash, eq_iff "long" "short"))

two_free :
    CollisionFree sha256_hex (first_entry ∷ second_entry ∷ []) (first_entry ∷ second_entry ∷ [])
two_free = (
  ((λ e. refl), ((λ e. absurd (distinct_hashes e)), tt)),
  (((λ e. absurd (distinct_hashes (sym e))), ((λ e. refl), tt)), tt),
)

same_head_same_ledger_example : first_entry ∷ second_entry ∷ [] ≡ first_entry ∷ second_entry ∷ []
same_head_same_ledger_example =
    same_head_same_ledger sha256_hex first_entry first_entry (second_entry ∷ []) (second_entry ∷ [])
      second_entry.hash 2 2 two_valid two_valid two_free
