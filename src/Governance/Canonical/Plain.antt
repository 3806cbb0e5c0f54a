-- ===== src/Governance/Canonical/Plain.antt =====
-- Plain values: objects with distinct keys, as `JSON.parse` makes them, without `__proto__`, and
-- what the sort of canonical JSON leaves of their keys (src/domain/governance/canonical-json.ts).
use nexusos_agentic.Base.{◌≡◌, refl, ◌∙◌, Bool, true, not, ◌&&◌, ◌||◌, arith}
use nexusos_agentic.Json.{
  Units, Value, Items, Fields, null, bool, number, text, array, object, nil, cons, end, field, same,
  has,
}
use nexusos_agentic.Governance.Canonical.{proto, insert_key, sort_keys, normalize, normalize_fields}
use nexusos_agentic.Governance.Canonical.Laws.{same_iff}

-- The keys of an object are distinct, and none is `__proto__`.
unfoldable pub distinct_keys : Fields → Bool
distinct_keys end = true
distinct_keys (field k v fs) = not (has k fs) && (not (same k proto) && distinct_keys fs)

-- So are the keys of every object in a value.
unfoldable mutual
  unfolding distinct_keys

  pub is_plain : Value → Bool
  is_plain null = true
  is_plain (bool b) = true
  is_plain (number n) = true
  is_plain (text s) = true
  is_plain (array xs) = is_plain_items xs
  is_plain (object fs) = distinct_keys fs && is_plain_fields fs

  pub is_plain_items : Items → Bool
  is_plain_items nil = true
  is_plain_items (cons x xs) = is_plain x && is_plain_items xs

  pub is_plain_fields : Fields → Bool
  is_plain_fields end = true
  is_plain_fields (field k v fs) = is_plain v && is_plain_fields fs

has-insert_key :
    (j k : Units) (v : Value) (fs : Fields) → has j (insert_key k v fs) ≡ (same k j || has j fs)
unfolding insert_key has
has-insert_key j k v end = refl
has-insert_key j k v (field l w fs) = ground (arith, has-insert_key j k v fs)

pub has-sort_keys : (j : Units) (fs : Fields) → has j (sort_keys fs) ≡ has j fs
unfolding sort_keys has
has-sort_keys j end = refl
has-sort_keys j (field k v fs) = has-insert_key j k v (sort_keys fs) ∙ rw (has-sort_keys j fs) refl

has-normalize_fields : (j : Units) (fs : Fields) → has j (normalize_fields fs) ≡ has j fs
unfolding normalize has
has-normalize_fields j end = refl
has-normalize_fields j (field k v fs) = rw (has-normalize_fields j fs) refl

distinct-insert_key :
    (k : Units) (v : Value) (fs : Fields)
    → distinct_keys (insert_key k v fs) ≡ distinct_keys (field k v fs)
unfolding distinct_keys insert_key has
distinct-insert_key k v end = refl
distinct-insert_key k v (field l w fs) =
    ground (arith, distinct-insert_key k v fs, has-insert_key l k v fs, same_iff k l, same_iff l k)

pub distinct-sort_keys : (fs : Fields) → distinct_keys (sort_keys fs) ≡ distinct_keys fs
unfolding distinct_keys sort_keys
distinct-sort_keys end = refl
distinct-sort_keys (field k v fs) =
    distinct-insert_key k v (sort_keys fs)
    ∙ ground (arith, has-sort_keys k fs, distinct-sort_keys fs)

pub distinct-normalize_fields :
    (fs : Fields) → distinct_keys (normalize_fields fs) ≡ distinct_keys fs
unfolding distinct_keys normalize
distinct-normalize_fields end = refl
distinct-normalize_fields (field k v fs) =
    ground (arith, has-normalize_fields k fs, distinct-normalize_fields fs)
