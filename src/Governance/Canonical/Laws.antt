-- ===== src/Governance/Canonical/Laws.antt =====
-- What canonical JSON binds: the value of every key but `__proto__`
-- (src/domain/governance/canonical-json.ts).
use nexusos_agentic.Base.{
  ◌≡◌, ◌≢◌, ◌↔◌, refl, sym, ap, ◌∙◌, true, false, Option, none, some, [], ◌∷◌, arith, if◌then◌else◌,
  is_some,
}
use nexusos_agentic.Text.{lex_lt_irrefl}
use nexusos_agentic.Json.{same, has, lookup, Units, Value, Fields, object, end, field, stringify}
use nexusos_agentic.Json.RoundTrip.{stringify-injective}
use nexusos_agentic.Governance.Canonical.{
  proto, place, replace, set, set_all, insert_key, sort_keys, normalize, normalize_fields,
  canonical_json,
}

abbrev pub or_else : Option Value → Option Value → Option Value
or_else none o = o
or_else (some v) o = some v

-- The last value of a key, which is its one value where the object has each key once.
unfoldable pub last : Units → Fields → Option Value
last j end = none
last j (field k v fs) = or_else (last j fs) (if same k j then some v else none)

pub same_iff : (a b : Units) → (same a b ≡ true) ↔ (a ≡ b)
unfolding same
same_iff [] [] = ground arith
same_iff [] (d ∷ ds) = ground arith
same_iff (c ∷ cs) [] = ground arith
same_iff (c ∷ cs) (d ∷ ds) = ground (arith, same_iff cs ds)

lookup-has : (j : Units) (fs : Fields) → is_some (lookup j fs) ≡ has j fs
unfolding lookup has
lookup-has j end = refl
lookup-has j (field k v fs) = ground (arith, lookup-has j fs)

lookup-place :
    (j k : Units) (v : Value) (fs : Fields)
    → has k fs ≡ false
    → lookup j (place k v fs) ≡ (if same k j then some v else lookup j fs)
unfolding lookup place has
lookup-place j k v end h = refl
lookup-place j k v (field l w fs) h =
    ground (arith, lookup-place j k v fs, same_iff k j, same_iff l j, same_iff l k)

lookup-replace :
    (j k : Units) (v : Value) (fs : Fields)
    → has k fs ≡ true
    → lookup j (replace k v fs) ≡ (if same k j then some v else lookup j fs)
unfolding lookup replace has
lookup-replace j k v end h = cc
lookup-replace j k v (field l w fs) h =
    ground (arith, lookup-replace j k v fs, same_iff k j, same_iff l j, same_iff l k)

lookup-set :
    (j k : Units) (v : Value) (fs : Fields)
    → same j proto ≡ false
    → lookup j (set k v fs) ≡ (if same k j then some v else lookup j fs)
unfolding set
lookup-set j k v fs h = ground (
  arith,
  lookup-place j k v fs,
  lookup-replace j k v fs,
  same_iff k j,
  same_iff k proto,
  same_iff j proto,
)

last-has : (j : Units) (fs : Fields) → is_some (last j fs) ≡ has j fs
unfolding last has
last-has j end = refl
last-has j (field k v fs) = ground (arith, last-has j fs)

lookup-set_all :
    (j : Units) (result fs : Fields)
    → same j proto ≡ false
    → lookup j (set_all result fs) ≡ or_else (last j fs) (lookup j result)
unfolding set_all last has
lookup-set_all j result end h = refl
lookup-set_all j result (field k v fs) h =
    ground (arith, lookup-set_all j (set k v result) fs, lookup-set j k v result, last-has j fs)

last-insert_key :
    (j k : Units) (v : Value) (fs : Fields) → last j (insert_key k v fs) ≡ last j (field k v fs)
unfolding last insert_key has
last-insert_key j k v end = refl
last-insert_key j k v (field l w fs) =
    ground
      (arith, last-insert_key j k v fs, same_iff l k, same_iff k j, same_iff l j, lex_lt_irrefl k)

last-sort_keys : (j : Units) (fs : Fields) → last j (sort_keys fs) ≡ last j fs
unfolding sort_keys last
last-sort_keys j end = refl
last-sort_keys j (field k v fs) =
    last-insert_key j k v (sort_keys fs) ∙ rw (last-sort_keys j fs) refl

abbrev pub normal : Option Value → Option Value
normal none = none
normal (some v) = some (normalize v)

last-normalize_fields :
    (j : Units) (fs : Fields) → last j (normalize_fields fs) ≡ normal (last j fs)
unfolding last normalize
last-normalize_fields j end = refl
last-normalize_fields j (field k v fs) = ground (arith, last-normalize_fields j fs)

normal_fields : (fs : Fields) → Fields
normal_fields fs = set_all end (sort_keys (normalize_fields fs))

lookup-normal_fields :
    (j : Units) (fs : Fields) → j ≢ proto → lookup j (normal_fields fs) ≡ normal (last j fs)
unfolding normal_fields
lookup-normal_fields j fs h =
    lookup-set_all j end (sort_keys (normalize_fields fs)) (ground (arith, same_iff j proto))
    ∙ (or_else-none _ ∙ (last-sort_keys j (normalize_fields fs) ∙ last-normalize_fields j fs))
  where
    or_else-none : (o : Option Value) → or_else o (lookup j end) ≡ o
    or_else-none none = unfold lookup in refl
    or_else-none (some v) = refl

object-injective : (fs gs : Fields) → object fs ≡ object gs → fs ≡ gs
object-injective fs gs e = cc

-- Two objects with the same canonical text have the same normal value at every key but `__proto__`,
-- and so the same keys.
pub canonical_binds :
    (fs gs : Fields) (j : Units)
    → canonical_json (object fs) ≡ canonical_json (object gs)
    → j ≢ proto
    → normal (last j fs) ≡ normal (last j gs)
unfolding canonical_json normalize normal_fields
canonical_binds fs gs j h ne =
    let equal =
      object-injective _ _
        (stringify-injective (normalize (object fs)) (normalize (object gs)) h) in
    sym (lookup-normal_fields j fs ne) ∙ (ap (lookup j) equal ∙ lookup-normal_fields j gs ne)

set_all-insert_proto :
    (v : Value) (result fs : Fields) → set_all result (insert_key proto v fs) ≡ set_all result fs
unfolding set_all insert_key set
set_all-insert_proto v result end = refl
set_all-insert_proto v result (field k w fs) =
    ground (arith, set_all-insert_proto v (set k w result) fs)

-- A key `__proto__` leaves no trace in the canonical text of an object: whatever its value, the text
-- is that of the object without it.
pub proto_unbound :
    (v : Value) (fs : Fields)
    → canonical_json (object (field proto v fs)) ≡ canonical_json (object fs)
unfolding canonical_json normalize sort_keys
proto_unbound v fs =
    ap (λ gs. stringify (object gs))
      (set_all-insert_proto (normalize v) end (sort_keys (normalize_fields fs)))
