-- ===== src/Json/Keys.antt =====
-- The own keys of an object.
use nexusos_agentic.Base.{
  ℕ, suc, Bool, true, false, ◌&&◌, ◌||◌, Option, none, some, [], ◌∷◌, ◌==◌, if◌then◌else◌,
}
use nexusos_agentic.Json.Tree.{Units, Value, Items, Fields, nil, cons, end, field}

-- `a === b` on strings.
unfoldable pub same : Units → Units → Bool
same [] [] = true
same [] (d ∷ ds) = false
same (c ∷ cs) [] = false
same (c ∷ cs) (d ∷ ds) = c == d && same cs ds

-- An own key of the object.
unfoldable pub has : Units → Fields → Bool
unfolding same
has k end = false
has k (field l w fs) = same l k || has k fs

-- The first value of a key.
unfoldable pub lookup : Units → Fields → Option Value
lookup j end = none
lookup j (field k v fs) = if same k j then some v else lookup j fs

abbrev pub field_count : Fields → ℕ
field_count end = 0
field_count (field k v fs) = suc (field_count fs)

abbrev pub item_count : Items → ℕ
item_count nil = 0
item_count (cons x xs) = suc (item_count xs)
