-- ===== src/Governance/Canonical/Text.antt =====
-- Canonical texts, read again (src/domain/governance/canonical-json.ts).
use nexusos_agentic.Base.{ℕ, ◌≡◌, ◌≤◌, refl, ◌∙◌, true, some, arith}
use nexusos_agentic.Json.{
  Value, Items, Fields, null, bool, number, text, array, object, nil, cons, end, field, size,
  size_items, size_fields,
}
use nexusos_agentic.Json.Read.{parse}
use nexusos_agentic.Json.RoundTrip.{parse-stringify}
use nexusos_agentic.Governance.Canonical.{
  sort_keys, normalize, normalize_items, normalize_fields, canonical_json,
}
use nexusos_agentic.Governance.Canonical.Plain.{
  distinct_keys, is_plain, is_plain_items, is_plain_fields, distinct-sort_keys,
  distinct-normalize_fields,
}
use nexusos_agentic.Governance.Canonical.Reorder.{sort_keys-SameFields, set_all-end-SameFields}
use nexusos_agentic.Governance.Canonical.Order.{
  SameValue, SameItems, SameFields, same_value, same_array, same_object, same_nil, same_cons,
  same_end, same_field, swapped, after_that,
}

mutual
  unfolding is_plain normalize

  normalize-SameValue : (v : Value) → is_plain v ≡ true → SameValue v (normalize v)
  normalize-SameValue null h = same_value
  normalize-SameValue (bool b) h = same_value
  normalize-SameValue (number n) h = same_value
  normalize-SameValue (text s) h = same_value
  normalize-SameValue (array xs) h = same_array (normalize_items-SameItems xs h)
  normalize-SameValue (object fs) h =
      let distinct : distinct_keys (normalize_fields fs) ≡ true =
        distinct-normalize_fields fs ∙ ground arith in
      let sorted : distinct_keys (sort_keys (normalize_fields fs)) ≡ true =
        distinct-sort_keys (normalize_fields fs) ∙ distinct in
      same_object (
        after_that (normalize_fields-SameFields fs ground arith) (
          after_that (sort_keys-SameFields (normalize_fields fs) distinct)
            (set_all-end-SameFields (sort_keys (normalize_fields fs)) sorted)))

  normalize_items-SameItems :
      (xs : Items) → is_plain_items xs ≡ true → SameItems xs (normalize_items xs)
  normalize_items-SameItems nil h = same_nil
  normalize_items-SameItems (cons x xs) h =
      same_cons (normalize-SameValue x ground arith) (normalize_items-SameItems xs ground arith)

  normalize_fields-SameFields :
      (fs : Fields) → is_plain_fields fs ≡ true → SameFields fs (normalize_fields fs)
  normalize_fields-SameFields end h = same_end
  normalize_fields-SameFields (field k v fs) h =
      same_field (normalize-SameValue v ground arith) (normalize_fields-SameFields fs ground arith)

mutual
  unfolding size

  size-SameValue : {v w : Value} → SameValue v w → size v ≡ size w
  size-SameValue same_value = refl
  size-SameValue (same_array s) = omega (arith, size_items-SameItems s)
  size-SameValue (same_object s) = omega (arith, size_fields-SameFields s)

  size_items-SameItems : {xs ys : Items} → SameItems xs ys → size_items xs ≡ size_items ys
  size_items-SameItems same_nil = refl
  size_items-SameItems (same_cons s t) = omega (arith, size-SameValue s, size_items-SameItems t)

  size_fields-SameFields : {fs gs : Fields} → SameFields fs gs → size_fields fs ≡ size_fields gs
  size_fields-SameFields same_end = refl
  size_fields-SameFields (same_field s t) =
      omega (arith, size-SameValue s, size_fields-SameFields t)
  size_fields-SameFields (swapped differs) = omega arith
  size_fields-SameFields (after_that s t) = size_fields-SameFields s ∙ size_fields-SameFields t

-- The canonical text of a value whose objects have distinct keys, none of them `__proto__`, is read
-- back, given as much fuel as the value has parts, as the same value but for the order of keys.
pub canonical_json-reads_back :
    (f : ℕ) (v : Value)
    → is_plain v ≡ true
    → size v ≤ f
    → (w : Value) × (parse f (canonical_json v) ≡ some w) × SameValue v w
unfolding canonical_json
canonical_json-reads_back f v h fuel =
    let alike = normalize-SameValue v h in
    (normalize v, parse-stringify f (normalize v) omega (arith, size-SameValue alike), alike)
