-- ===== src/Governance/Canonical/Order.antt =====
-- Canonical JSON does not depend on the order of keys, at any depth
-- (src/domain/governance/canonical-json.ts).
use nexusos_agentic.Base.{◌≡◌, ◌≢◌, refl, ap, ◌∙◌, true, false, arith, Bool-cases, inl, inr}
use nexusos_agentic.Text.{lex_lt, lex_lt_trans, lex_lt_asymm, lex_lt_total}
use nexusos_agentic.Json.{
  Units, Value, Items, Fields, array, object, nil, cons, end, field, stringify,
}
use nexusos_agentic.Governance.Canonical.{
  set_all, insert_key, sort_keys, normalize, normalize_items, normalize_fields, canonical_json,
}

-- The same value but for the order in which keys were added to its objects.
mutual
  pub data SameValue : Value → Value → Type 0 where
    same_value : {v : Value} → SameValue v v
    same_array : {xs ys : Items} → SameItems xs ys → SameValue (array xs) (array ys)
    same_object : {fs gs : Fields} → SameFields fs gs → SameValue (object fs) (object gs)

  pub data SameItems : Items → Items → Type 0 where
    same_nil : SameItems nil nil
    same_cons :
        {v w : Value} {xs ys : Items}
        → SameValue v w
        → SameItems xs ys
        → SameItems (cons v xs) (cons w ys)

  pub data SameFields : Fields → Fields → Type 0 where
    same_end : SameFields end end
    same_field :
        {k : Units} {v w : Value} {fs gs : Fields}
        → SameValue v w
        → SameFields fs gs
        → SameFields (field k v fs) (field k w gs)
    swapped :
        {k l : Units} {v w : Value} {fs : Fields}
        → k ≢ l
        → SameFields (field k v (field l w fs)) (field l w (field k v fs))
    after_that : {fs gs hs : Fields} → SameFields fs gs → SameFields gs hs → SameFields fs hs

-- Of two distinct keys one is before the other.
distinct_order : (k l : Units) → k ≢ l → lex_lt k l ≡ false → lex_lt l k ≡ true
distinct_order k l h e = elim (Bool-cases (lex_lt l k)) [
  | inl f ↦ f
  | inr f ↦ absurd (h (lex_lt_total k l e f))
]

insert_key_comm :
    (k l : Units) (v w : Value) (fs : Fields)
    → k ≢ l
    → insert_key k v (insert_key l w fs) ≡ insert_key l w (insert_key k v fs)
unfolding insert_key
insert_key_comm k l v w end h = ground (arith, distinct_order k l h, lex_lt_asymm k l)
insert_key_comm k l v w (field x u fs) h = ground (
  arith,
  distinct_order k l h,
  lex_lt_asymm k l,
  lex_lt_asymm l k,
  lex_lt_trans x k l,
  lex_lt_trans x l k,
  insert_key_comm k l v w fs h,
)

mutual
  unfolding normalize sort_keys

  normalize-SameValue : {v w : Value} → SameValue v w → normalize v ≡ normalize w
  normalize-SameValue same_value = refl
  normalize-SameValue (same_array s) = ap array (normalize_items-SameItems s)
  normalize-SameValue (same_object s) = ap (λ fs. object (set_all end fs)) (sort_keys-SameFields s)

  normalize_items-SameItems :
      {xs ys : Items} → SameItems xs ys → normalize_items xs ≡ normalize_items ys
  normalize_items-SameItems same_nil = refl
  normalize_items-SameItems (same_cons s t) =
      cc (normalize-SameValue s, normalize_items-SameItems t)

  sort_keys-SameFields :
      {fs gs : Fields}
      → SameFields fs gs
      → sort_keys (normalize_fields fs) ≡ sort_keys (normalize_fields gs)
  sort_keys-SameFields same_end = refl
  sort_keys-SameFields (same_field s t) = cc (normalize-SameValue s, sort_keys-SameFields t)
  sort_keys-SameFields (swapped {k} {l} {v} {w} {fs} h) =
      insert_key_comm k l (normalize v) (normalize w) (sort_keys (normalize_fields fs)) h
  sort_keys-SameFields (after_that s t) = sort_keys-SameFields s ∙ sort_keys-SameFields t

-- Values that differ only in the order of keys have the same canonical text.
pub canonical_json-SameValue : {v w : Value} → SameValue v w → canonical_json v ≡ canonical_json w
unfolding canonical_json
canonical_json-SameValue s = ap stringify (normalize-SameValue s)
