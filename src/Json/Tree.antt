-- ===== src/Json/Tree.antt =====
-- JSON values. A text is its UTF-16 code units; a number is a natural one, as every number that the
-- modelled code hashes is; an object is its own keys in the order in which they are enumerated.
use nexusos_agentic.Base.{ℕ, suc, ◌+◌, Bool, List, length}

-- A JavaScript string: any sequence of code units, lone surrogates included.
abbrev pub Units : Type 0
Units = List ℕ

mutual
  pub data Value : Type 0 where
    null : Value
    bool : Bool → Value
    number : ℕ → Value
    text : Units → Value
    array : Items → Value
    object : Fields → Value

  pub data Items : Type 0 where
    nil : Items
    cons : Value → Items → Items

  pub data Fields : Type 0 where
    end : Fields
    field : Units → Value → Fields → Fields

-- A measure of values: what is inside, and the units of texts and keys.
unfoldable mutual
  pub size : Value → ℕ
  size null = 1
  size (bool b) = 1
  size (number n) = 1
  size (text s) = 2 + length s
  size (array xs) = suc (size_items xs)
  size (object fs) = suc (size_fields fs)

  pub size_items : Items → ℕ
  size_items nil = 1
  size_items (cons x xs) = suc (size x + size_items xs)

  pub size_fields : Fields → ℕ
  size_fields end = 1
  size_fields (field k v fs) = 2 + length k + size v + size_fields fs
