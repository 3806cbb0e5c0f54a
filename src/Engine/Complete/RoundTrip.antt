-- ===== src/Engine/Complete/RoundTrip.antt =====
-- Bodies that are sent are parsed as they were (src/domain/runners/execution-engine.ts).
use nexusos_agentic.Base.{
  ℕ, ◌≡◌, ◌≤◌, refl, ap, true, false, ◌||◌, Option, none, some, length, ltb, arith, ok,
}
use nexusos_agentic.Text.{units, push_units, lex_lt}
use nexusos_agentic.Json.{Units, Value, number, lookup, same, has, stringify}
use nexusos_agentic.Governance.Canonical.{canonical_json, normalize, array_index}
use nexusos_agentic.Governance.Canonical.Laws.{same_iff}
use nexusos_agentic.Workflow.Records.{UnitDates, exact_record, matches, require, reject_if}
use nexusos_agentic.Engine.Excerpts.{Bytes}
use nexusos_agentic.Engine.Contract.{engine_completion_max_bytes, max_fence}
use nexusos_agentic.Engine.Result.{exit_code_value, result_value}
use nexusos_agentic.Engine.Result.Laws.{IsResult, parse-result_value}
use nexusos_agentic.Engine.Complete.{
  Codec, CompleteBody, is_lease_id, is_operation_id, fence_of, parse_engine_complete_body,
  body_value, canonical_engine_complete_body,
}

normalize-exit_code_value : (c : Option ℕ) → normalize (exit_code_value c) ≡ exit_code_value c
unfolding normalize
normalize-exit_code_value none = refl
normalize-exit_code_value (some n) = refl

normalize-body_value :
    (d : UnitDates) (b : CompleteBody)
    → IsResult d b.receipt
    → normalize (body_value b) ≡ body_value b
unfolding body_value result_value normalize array_index units push_units lex_lt has same
normalize-body_value d b k =
    rw (k.stdout.is_text, k.stderr.is_text, normalize-exit_code_value b.receipt.exit_code) refl

-- A body that may be sent.
pub record IsBody (d : UnitDates) (b : CompleteBody) : Type 0 where
  pub fence : (1 ≤ b.fence) × (b.fence ≤ max_fence)
  pub lease : is_lease_id b.lease_id ≡ true
  pub operation : is_operation_id b.operation_id ≡ true
  pub receipt : IsResult d b.receipt

-- What the source relies on: the bytes of the text are decoded to the text, and the text of a value is
-- parsed to that value.
pub record ReadsBack (c : Codec) (v : Value) : Type 0 where
  pub decoded : c.decode (c.encode (stringify v)) ≡ some (stringify v)
  pub parsed : c.parse_json (stringify v) ≡ some v

pub fence_of-number : (n : ℕ) → 1 ≤ n → n ≤ max_fence → fence_of (some (number n)) ≡ some n
unfolding fence_of
fence_of-number n h k = ground arith

canonical_json-body_value :
    (d : UnitDates) (b : CompleteBody)
    → IsResult d b.receipt
    → canonical_json (body_value b) ≡ stringify (body_value b)
unfolding canonical_json
canonical_json-body_value d b k = ap stringify (normalize-body_value d b k)

size_fits :
    (n : ℕ)
    → 1 ≤ n
    → n ≤ engine_completion_max_bytes
    → (ltb n 1 || ltb engine_completion_max_bytes n) ≡ false
size_fits n low high = ground arith

parse-body_value :
    (c : Codec) (d : UnitDates) (b : CompleteBody) (raw : Bytes) (s : Units)
    → IsBody d b
    → c.decode raw ≡ some s
    → c.parse_json s ≡ some (body_value b)
    → canonical_json (body_value b) ≡ s
    → 1 ≤ length raw
    → length raw ≤ engine_completion_max_bytes
    → parse_engine_complete_body c d raw ≡ ok b
unfolding parse_engine_complete_body require reject_if body_value exact_record matches has lookup
    same units push_units
parse-body_value c d b raw s k decoded parsed canonical low high =
    let fence = fence_of-number b.fence k.fence.0 k.fence.1 in
    let receipt = parse-result_value d b.receipt k.receipt in
    rw
      (
        size_fits (length raw) low high,
        decoded,
        parsed,
        canonical,
        (same_iff s s).1 refl,
        fence,
        k.lease,
        k.operation,
        receipt,
      )
      refl

sent_lem :
    (c : Codec) (d : UnitDates) (b : CompleteBody)
    → canonical_json (body_value b) ≡ stringify (body_value b)
    → parse_engine_complete_body c d (c.encode (stringify (body_value b))) ≡ ok b
    → canonical_engine_complete_body c d b ≡ some (stringify (body_value b))
unfolding canonical_engine_complete_body
sent_lem c d b canonical parsed = rw (canonical, parsed) refl

-- A well-formed body whose text has at most 4096 bytes is sent as its canonical text, and the bytes of
-- that text are parsed to the same body.
pub complete_body-ReadsBack :
    (c : Codec) (d : UnitDates) (b : CompleteBody)
    → IsBody d b
    → ReadsBack c (body_value b)
    → 1 ≤ length (c.encode (stringify (body_value b)))
    → length (c.encode (stringify (body_value b))) ≤ engine_completion_max_bytes
    → (parse_engine_complete_body c d (c.encode (stringify (body_value b))) ≡ ok b)
      × (canonical_engine_complete_body c d b ≡ some (stringify (body_value b)))
complete_body-ReadsBack c d b k reads low high =
    let canonical = canonical_json-body_value d b k.receipt in
    let parsed =
      parse-body_value c d b (c.encode (stringify (body_value b))) (stringify (body_value b)) k
        reads.decoded reads.parsed canonical low high in
    (parsed, sent_lem c d b canonical parsed)
