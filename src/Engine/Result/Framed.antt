-- ===== src/Engine/Result/Framed.antt =====
-- The excerpts of a result in one sequence of bytes, as the completion of a run stores them
-- (src/domain/runners/execution-engine.ts).
use nexusos_agentic.Base.{◌+◌, ◌/◌, ◌%◌, ◌≡◌, ◌≤◌, some, ◌∷◌, ◌++◌, length, arith, ok}
use nexusos_agentic.Json.{Units, Value, text}
use nexusos_agentic.Workflow.Records.{UnitDates}
use nexusos_agentic.Engine.Excerpts.{
  Bytes, Excerpts, engine_excerpt_max_bytes, frame_engine_excerpts, unframe_engine_excerpts,
  unframe-frame,
}
use nexusos_agentic.Engine.Base64.{decode_base64_url}
use nexusos_agentic.Engine.Streams.{StreamReceipt}
use nexusos_agentic.Engine.Result.{ExecutionResult, parse_engine_execution_result}
use nexusos_agentic.Engine.Result.Sound.{parse-IsResult}

-- The excerpt of a receipt is the base64url text of these bytes.
abbrev pub Carries : StreamReceipt → Bytes → Type 0
Carries s bs = (t : Units) × (s.excerpt_base64_url ≡ text t) × (decode_base64_url t ≡ some bs)

frame-fits :
    (e : Excerpts)
    → length e.stdout + length e.stderr ≤ engine_excerpt_max_bytes
    → (framed : Bytes) × (frame_engine_excerpts e ≡ some framed)
unfolding frame_engine_excerpts
frame-fits e h =
    ((length e.stdout / 256 % 256) ∷ (length e.stdout % 256) ∷ (e.stdout ++ e.stderr), ground arith)

-- The excerpts of a result that is parsed are decoded and framed, and are read back from the frame.
pub parsed_excerpts_framed :
    (d : UnitDates) (v : Value) (r : ExecutionResult)
    → parse_engine_execution_result d v ≡ ok r
    → (e : Excerpts) × (framed : Bytes) × Carries r.stdout e.stdout
      × Carries r.stderr e.stderr
      × (frame_engine_excerpts e ≡ some framed)
      × (unframe_engine_excerpts framed ≡ some e)
parsed_excerpts_framed d v r h =
    let k = parse-IsResult d v r h in
    let out = k.stdout in
    let back = k.stderr in
    let e : Excerpts = record { stdout = k.stdout_excerpt; stderr = k.stderr_excerpt } in
    let (framed, is) = frame-fits e k.fits in
    (
      e,
      framed,
      (out.encoded, out.is_text, out.decodes),
      (back.encoded, back.is_text, back.decodes),
      is,
      unframe-frame e framed is,
    )
