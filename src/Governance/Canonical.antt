-- ===== src/Governance/Canonical.antt =====
-- Canonical JSON, the text that is hashed (src/domain/governance/canonical-json.ts). A value here is
-- one that JSON can write; of anything else (an undefined or non-finite number, a cycle, an object
-- with a prototype) the source throws.
pub mod Laws
pub mod Order
pub mod Plain
pub mod Reorder
pub mod Text
use nexusos_agentic.Base.{
  ℕ, zero, suc, ◌+◌, ◌*◌, ◌-◌, String, Bool, true, false, not, ◌&&◌, ◌||◌, Option, none, some, List,
  [], ◌∷◌, ◌==◌, ltb, leb, is_some, all, if◌then◌else◌,
}
use nexusos_agentic.Text.{units, lex_lt, digit}
use nexusos_agentic.Json.{
  Units, Value, Items, Fields, null, bool, number, text, array, object, nil, cons, end, field,
  stringify, same, has,
}

abbrev pub proto : Units
proto = b'_' ∷ b'_' ∷ b'p' ∷ b'r' ∷ b'o' ∷ b't' ∷ b'o' ∷ b'_' ∷ b'_' ∷ []

-- The value of a run of decimal digits.
unfoldable pub decimal : ℕ → Units → ℕ
decimal n [] = n
decimal n (c ∷ cs) = decimal (n * 10 + (c - b'0')) cs

abbrev pub in_range : ℕ → Option ℕ
in_range n = if ltb n 4294967295 then some n else none

-- A key that is an array index: the decimal text of a number below 2³² − 1.
unfoldable pub array_index : Units → Option ℕ
unfolding decimal
array_index [] = none
array_index (c ∷ []) = if digit c then some (c - b'0') else none
array_index (c ∷ d ∷ cs) =
    if digit c && not (c == b'0') && all digit (d ∷ cs)
    then in_range (decimal 0 (c ∷ d ∷ cs))
    else none

-- Whether a new key is enumerated before one that is there: array indices come first, ascending,
-- and the other keys in the order in which they were set.
abbrev pub precedes : Option ℕ → Option ℕ → Bool
precedes none l = false
precedes (some i) none = true
precedes (some i) (some j) = ltb i j

unfoldable pub place : Units → Value → Fields → Fields
unfolding array_index
place k v end = field k v end
place k v (field l w fs) =
    if precedes (array_index k) (array_index l)
    then field k v (field l w fs)
    else field l w (place k v fs)

unfoldable pub replace : Units → Value → Fields → Fields
unfolding same
replace k v end = end
replace k v (field l w fs) = if same l k then field l v fs else field l w (replace k v fs)

-- `result[key] = value` on an ordinary object: `__proto__` is the setter of the prototype, and
-- leaves the own keys as they are.
unfoldable pub set : Units → Value → Fields → Fields
unfolding place replace has
set k v result =
    if same k proto then result else if has k result then replace k v result else place k v result

-- The loop over the sorted keys.
unfoldable pub set_all : Fields → Fields → Fields
unfolding set
set_all result end = result
set_all result (field k v fs) = set_all (set k v result) fs

unfoldable pub insert_key : Units → Value → Fields → Fields
insert_key k v end = field k v end
insert_key k v (field l w fs) =
    if lex_lt l k then field l w (insert_key k v fs) else field k v (field l w fs)

-- `Object.keys(record).sort()`: by UTF-16 code units.
unfoldable pub sort_keys : Fields → Fields
unfolding insert_key
sort_keys end = end
sort_keys (field k v fs) = insert_key k v (sort_keys fs)

unfoldable mutual
  unfolding sort_keys set_all

  pub normalize : Value → Value
  normalize null = null
  normalize (bool b) = bool b
  normalize (number n) = number n
  normalize (text s) = text s
  normalize (array xs) = array (normalize_items xs)
  normalize (object fs) = object (set_all end (sort_keys (normalize_fields fs)))

  pub normalize_items : Items → Items
  normalize_items nil = nil
  normalize_items (cons x xs) = cons (normalize x) (normalize_items xs)

  -- The values alone; the keys are put in order where they are set.
  pub normalize_fields : Fields → Fields
  normalize_fields end = end
  normalize_fields (field k v fs) = field k (normalize v) (normalize_fields fs)

-- `canonicalJson`.
unfoldable pub canonical_json : Value → Units
unfolding normalize
canonical_json v = stringify (normalize v)
