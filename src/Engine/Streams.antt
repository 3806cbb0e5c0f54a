-- ===== src/Engine/Streams.antt =====
-- The receipt of a stream: parseStreamReceipt of src/domain/runners/execution-engine.ts.
use nexusos_agentic.Base.{
  ℕ, Bool, true, false, not, ◌&&◌, ◌||◌, ◌==◌, Option, none, some, List, [], ◌∷◌, length, ltb, leb,
  if◌then◌else◌, Result, ok, err,
}
use nexusos_agentic.Text.{units}
use nexusos_agentic.Json.{
  Units, Value, Items, text, number, null, bool, array, object, nil, cons, field, end, lookup, same,
  has,
}
use nexusos_agentic.Json.Read.{◌>>=◌}
use nexusos_agentic.Workflow.Records.{exact_record, matches, is_hash, guard}
use nexusos_agentic.Engine.Base64.{decode_base64_url}
use nexusos_agentic.Engine.Contract.{flag_of, string_value, empty_sha256}

abbrev pub stream_keys : List Units
stream_keys = units "bytes" ∷ units "excerptBase64Url" ∷ units "sha256" ∷ units "truncated" ∷ []

-- `EngineStreamReceipt`. The excerpt is any value, as `value.excerptBase64Url as string` is.
pub record StreamReceipt : Type 0 where
  pub bytes : ℕ
  pub excerpt_base64_url : Value
  pub sha256 : Units
  pub truncated : Bool

unfoldable pub count_within : ℕ → Option Value → Option ℕ
count_within max (some (number n)) = if leb n max then some n else none
count_within max _ = none

abbrev pub bool_eq : Bool → Bool → Bool
bool_eq true b = b
bool_eq false b = not b

-- What the count, the size of the excerpt, the hash and the mark of truncation say of one another.
unfoldable pub is_receipt_consistent : ℕ → ℕ → Units → Bool → Bool
is_receipt_consistent bytes size sha256 truncated =
    leb size bytes
    && bool_eq truncated (ltb size bytes)
    && bool_eq (bytes == 0) (same sha256 empty_sha256)

unfoldable pub parse_stream_receipt : ℕ → Option Value → Option StreamReceipt
unfolding exact_record matches guard count_within flag_of string_value is_receipt_consistent
parse_stream_receipt max input = do
  v ← input
  fs ← exact_record stream_keys v
  bytes ← count_within max (lookup (units "bytes") fs)
  sha256 ← matches is_hash (lookup (units "sha256") fs)
  truncated ← flag_of (lookup (units "truncated") fs)
  excerpt ← lookup (units "excerptBase64Url") fs
  decoded ← decode_base64_url (string_value excerpt)
  _ ← guard (is_receipt_consistent bytes (length decoded) sha256 truncated)
  some (record {
    bytes = bytes;
    excerpt_base64_url = excerpt;
    sha256 = sha256;
    truncated = truncated;
  })

-- A failed parse: `undefined` is returned, or a TypeError is thrown.
pub data ParseFailure : Type 0 where
  rejected threw : ParseFailure

abbrev pub size_of : Option (List ℕ) → Option ℕ
size_of none = none
size_of (some bs) = some (length bs)

-- Whether the conversion to a text throws: an object's own `toString`, which is no function, hides the
-- inherited one, and then `valueOf` gives no primitive value; an array converts its elements.
unfoldable mutual
  unfolding has

  pub is_unprintable : Value → Bool
  is_unprintable (array xs) = is_unprintable_in xs
  is_unprintable (object fs) = has (units "toString") fs
  is_unprintable _ = false

  pub is_unprintable_in : Items → Bool
  is_unprintable_in nil = false
  is_unprintable_in (cons x xs) = is_unprintable x || is_unprintable_in xs

-- `decodedBase64UrlBytes(excerpt)`, where `none` is Infinity. The test of the expression converts the
-- value to a text. It matches the text `null` of `null`, and then `null.length` throws; a value of
-- another type that matches has no `replaceAll`, which is caught.
unfoldable pub excerpt_size : Value → Result ParseFailure (Option ℕ)
unfolding is_unprintable
excerpt_size (text s) = ok (size_of (decode_base64_url s))
excerpt_size null = err threw
excerpt_size v = if is_unprintable v then err threw else ok none

-- `emptyStreamReceipt`.
abbrev pub empty_stream_receipt : StreamReceipt
empty_stream_receipt = record {
  bytes = 0;
  excerpt_base64_url = text [];
  sha256 = empty_sha256;
  truncated = false;
}

abbrev pub receipt_value : StreamReceipt → Value
receipt_value s = object (
    field (units "bytes") (number s.bytes) (
      field (units "excerptBase64Url") s.excerpt_base64_url (
        field (units "sha256") (text s.sha256) (field (units "truncated") (bool s.truncated) end))))
