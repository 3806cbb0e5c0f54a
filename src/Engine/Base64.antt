-- ===== src/Engine/Base64.antt =====
-- base64url: encodeBase64Url and decodeBase64Url of src/domain/runners/execution-engine.ts.
use mathlib.Core.Path.{subst}
use nexusos_agentic.Base.{
  ℕ, ◌+◌, ◌-◌, ◌*◌, ◌/◌, ◌%◌, ◌<◌, ◌≡◌, ◌↔◌, refl, Bool, true, not, ◌&&◌, ◌||◌, ◌==◌, Option, none,
  some, List, [], ◌∷◌, map, All, all, ltb, leb, arith, if◌then◌else◌,
}
use nexusos_agentic.Json.{Units, same}
use nexusos_agentic.Governance.Canonical.Laws.{same_iff}
use nexusos_agentic.Engine.Excerpts.{Bytes}

-- The characters of `btoa`, with `-` for `+` and `_` for `/`.
unfoldable pub char_of : ℕ → ℕ
char_of x =
    if ltb x 26
    then x + b'A'
    else if ltb x 52
    then x - 26 + b'a'
    else if ltb x 62
    then x - 52 + b'0'
    else if x == 62
    then b'-'
    else b'_'

unfoldable pub sextet_of : ℕ → ℕ
sextet_of c =
    if leb b'a' c
    then c - b'a' + 26
    else if c == b'_'
    then 63
    else if leb b'A' c
    then c - b'A'
    else if leb b'0' c
    then c - b'0' + 52
    else 62

-- The groups of six bits of `btoa`, of which the last ones of a text may hold zeros.
unfoldable pub sextets : Bytes → List ℕ
sextets [] = []
sextets (a ∷ []) = (a / 4) ∷ (a % 4 * 16) ∷ []
sextets (a ∷ b ∷ []) = (a / 4) ∷ (a % 4 * 16 + b / 16) ∷ (b % 16 * 4) ∷ []
sextets (a ∷ b ∷ c ∷ bs) =
    (a / 4) ∷ (a % 4 * 16 + b / 16) ∷ (b % 16 * 4 + c / 64) ∷ (c % 64) ∷ sextets bs

unfoldable pub encode_base64_url : Bytes → Units
unfolding char_of sextets
encode_base64_url bs = map char_of (sextets bs)

-- `[A-Za-z0-9_-]`.
unfoldable pub is_base64_unit : ℕ → Bool
is_base64_unit c =
    (leb b'A' c && leb c b'Z')
    || (leb b'a' c && leb c b'z')
    || (leb b'0' c && leb c b'9')
    || c == b'_'
    || c == b'-'

abbrev pub put : ℕ → ℕ → ℕ → Option Bytes → Option Bytes
put a b c none = none
put a b c (some bs) = some (a ∷ b ∷ c ∷ bs)

-- `atob`, of groups of six bits: it ignores the bits that are left over, and throws where one group
-- is left, which three `=` would follow.
unfoldable pub bytes_of : List ℕ → Option Bytes
bytes_of [] = some []
bytes_of (w ∷ []) = none
bytes_of (w ∷ x ∷ []) = some ((w * 4 + x / 16) ∷ [])
bytes_of (w ∷ x ∷ y ∷ []) = some ((w * 4 + x / 16) ∷ (x % 16 * 16 + y / 4) ∷ [])
bytes_of (w ∷ x ∷ y ∷ z ∷ rest) =
    put (w * 4 + x / 16) (x % 16 * 16 + y / 4) (y % 4 * 64 + z) (bytes_of rest)

-- `encodeBase64Url(bytes) === value ? bytes : undefined`.
unfoldable pub checked : Units → Option Bytes → Option Bytes
unfolding encode_base64_url same
checked value none = none
checked value (some bs) = if same (encode_base64_url bs) value then some bs else none

unfoldable pub decode_base64_url : Units → Option Bytes
unfolding is_base64_unit sextet_of bytes_of checked
decode_base64_url value =
    if not (all is_base64_unit value) then none else checked value (bytes_of (map sextet_of value))

abbrev AreSextets : List ℕ → Type 0
AreSextets = All (λ x. x < 64)

abbrev pub AreBytes : List ℕ → Type 0
AreBytes = All (λ b. b < 256)

sextets-AreSextets : (bs : Bytes) → AreBytes bs → AreSextets (sextets bs)
unfolding sextets
sextets-AreSextets [] h = tt
sextets-AreSextets (a ∷ []) h = ground arith
sextets-AreSextets (a ∷ b ∷ []) h = ground arith
sextets-AreSextets (a ∷ b ∷ c ∷ bs) h = ground (arith, sextets-AreSextets bs)

sextet_of-char_of : (x : ℕ) → x < 64 → sextet_of (char_of x) ≡ x
unfolding sextet_of char_of
sextet_of-char_of x h = ground arith

is_base64_unit-char_of : (x : ℕ) → x < 64 → is_base64_unit (char_of x) ≡ true
unfolding is_base64_unit char_of
is_base64_unit-char_of x h = ground arith

bytes_of-sextets : (bs : Bytes) → AreBytes bs → bytes_of (sextets bs) ≡ some bs
unfolding bytes_of sextets
bytes_of-sextets [] h = refl
bytes_of-sextets (a ∷ []) h =
    let first : a / 4 * 4 + a % 4 * 16 / 16 ≡ a = omega arith in rw first refl
bytes_of-sextets (a ∷ b ∷ []) h =
    let first : a / 4 * 4 + (a % 4 * 16 + b / 16) / 16 ≡ a = omega (arith, h.1.0) in
    let second : (a % 4 * 16 + b / 16) % 16 * 16 + b % 16 * 4 / 4 ≡ b = omega (arith, h.1.0) in
    rw (first, second) refl
bytes_of-sextets (a ∷ b ∷ c ∷ bs) h =
    let first : a / 4 * 4 + (a % 4 * 16 + b / 16) / 16 ≡ a = omega (arith, h.1.0) in
    let second : (a % 4 * 16 + b / 16) % 16 * 16 + (b % 16 * 4 + c / 64) / 4 ≡ b =
      omega (arith, h.1.0, h.1.1.0) in
    let third : (b % 16 * 4 + c / 64) % 4 * 64 + c % 64 ≡ c = omega (arith, h.1.1.0) in
    rw (first, second, third, bytes_of-sextets bs h.1.1.1) refl

map-sextet_of-char_of : (xs : List ℕ) → AreSextets xs → map sextet_of (map char_of xs) ≡ xs
map-sextet_of-char_of [] h = refl
map-sextet_of-char_of (x ∷ xs) h = rw (sextet_of-char_of x h.0, map-sextet_of-char_of xs h.1) refl

all-char_of : (xs : List ℕ) → AreSextets xs → all is_base64_unit (map char_of xs) ≡ true
all-char_of [] h = refl
all-char_of (x ∷ xs) h = rw (is_base64_unit-char_of x h.0, all-char_of xs h.1) refl

decode-encode : (bs : Bytes) → AreBytes bs → decode_base64_url (encode_base64_url bs) ≡ some bs
unfolding decode_base64_url encode_base64_url checked
decode-encode bs h =
    let small = sextets-AreSextets bs h in
    rw
      (
        all-char_of (sextets bs) small,
        map-sextet_of-char_of (sextets bs) small,
        bytes_of-sextets bs h,
        (same_iff (map char_of (sextets bs)) (map char_of (sextets bs))).1 refl,
      )
      refl

checked-eq-some :
    (value : Units) (o : Option Bytes) (bs : Bytes)
    → checked value o ≡ some bs
    → encode_base64_url bs ≡ value
unfolding checked
checked-eq-some value none bs h = let bad : ⊥ = cc in absurd bad
checked-eq-some value (some found) bs h = ground (arith, same_iff (encode_base64_url found) value)

encode-decode :
    (value : Units) (bs : Bytes) → decode_base64_url value ≡ some bs → encode_base64_url bs ≡ value
unfolding decode_base64_url
encode-decode value bs h = checked-eq-some value (bytes_of (map sextet_of value)) bs (ground arith)

-- A text is decoded to bytes exactly when it is what these bytes are encoded to.
pub decode_iff :
    (value : Units) (bs : Bytes)
    → AreBytes bs
    → (decode_base64_url value ≡ some bs) ↔ (encode_base64_url bs ≡ value)
decode_iff value bs h =
    (encode-decode value bs, λ e. subst (λ v. decode_base64_url v ≡ some bs) e (decode-encode bs h))
