-- ===== src/Artifacts/Size.antt =====
-- The size of contents in bytes (src/domain/artifacts/artifact.ts).
use nexusos_agentic.Base.{ℕ, ◌*◌, ◌≡◌, ◌≤◌, Bool, false, some, [], ◌∷◌, length, String, arith, ok}
use nexusos_agentic.Json.{Units, text, is_high}
use nexusos_agentic.Artifacts.{byte_size, validate_artifact_content}

length-byte_size : (b : Bool) (s : Units) → length s ≤ byte_size b s
unfolding byte_size
length-byte_size b [] = omega arith
length-byte_size b (c ∷ cs) = let later = length-byte_size (is_high c) cs in ground arith

byte_size-length : (b : Bool) (s : Units) → byte_size b s ≤ 3 * length s
unfolding byte_size
byte_size-length b [] = omega arith
byte_size-length b (c ∷ cs) = let later = byte_size-length (is_high c) cs in ground arith

-- A content that is not empty and has at most 87,381 units is accepted as it is, with its hash, and
-- with a size of one to three bytes for each unit.
pub short_content_accepted :
    (sha256_hex : Units → String) (s : Units)
    → 1 ≤ length s
    → length s ≤ 87381
    → (n : ℕ) × (validate_artifact_content sha256_hex (some (text s))
        ≡ ok (record { content = s; content_hash = sha256_hex s; byte_size = n }))
      × (length s ≤ n)
      × (n ≤ 3 * length s)
unfolding validate_artifact_content
short_content_accepted sha256_hex s h k =
    let low = length-byte_size false s in
    let high = byte_size-length false s in (byte_size false s, ground arith, low, high)
