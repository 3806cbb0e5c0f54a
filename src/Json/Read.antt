-- ===== src/Json/Read.antt =====
-- A reader of JSON texts, as `JSON.parse` reads those without white space: a description of the
-- format that does not look at how texts are written. It runs on fuel.
use nexusos_agentic.Base.{
  ℕ, zero, suc, ◌+◌, ◌-◌, ◌*◌, Bool, true, false, ◌&&◌, Option, none, some, [], ◌∷◌, ◌==◌, leb,
  if◌then◌else◌, length, ◌≡◌, refl,
}
use nexusos_agentic.Json.Tree.{
  Units, Value, Items, Fields, null, bool, number, text, array, object, nil, cons, end, field,
}

-- What was read, and the rest.
abbrev pub Read : Type 0 → Type 0
Read A = Option (A × Units)

infixl 5 ◌>>=◌
abbrev pub ◌>>=◌ : {A : Type 0} {B : Type 0} → Option A → (A → Option B) → Option B
none >>= f = none
some a >>= f = f a

abbrev pub hex_value : ℕ → ℕ
hex_value c = if leb c b'9' then c - b'0' else c - 87

unfoldable pub read_hex : Units → Read ℕ
read_hex (w ∷ x ∷ y ∷ z ∷ rest) =
    some (hex_value w * 4096 + hex_value x * 256 + hex_value y * 16 + hex_value z, rest)
read_hex _ = none

-- What an escape says after its backslash.
unfoldable pub read_escape : Units → Read ℕ
unfolding read_hex
read_escape [] = none
read_escape (c ∷ cs) =
    if c == 34
    then some (34, cs)
    else if c == b'\\'
    then some (b'\\', cs)
    else if c == b'b'
    then some (8, cs)
    else if c == b't'
    then some (9, cs)
    else if c == b'n'
    then some (10, cs)
    else if c == b'f'
    then some (12, cs)
    else if c == b'r'
    then some (13, cs)
    else if c == b'u'
    then read_hex cs
    else none

unfoldable pub read_unit : Units → Read ℕ
unfolding read_escape
read_unit [] = none
read_unit (c ∷ cs) = if c == b'\\' then read_escape cs else some (c, cs)

abbrev pub head_is : ℕ → Units → Bool
head_is k [] = false
head_is k (c ∷ cs) = c == k

abbrev pub tail : Units → Units
tail [] = []
tail (c ∷ cs) = cs

-- The rest of a text, up to its quote.
unfoldable pub read_text : ℕ → Units → Read Units
unfolding read_unit
read_text zero cs = none
read_text (suc fuel) cs =
    if head_is 34 cs
    then some ([], tail cs)
    else do (c, rest) ← read_unit cs; (s, rest) ← read_text fuel rest; some (c ∷ s, rest)

-- The digits of a number, after those that make up `n`.
unfoldable pub read_digits : ℕ → Units → ℕ × Units
read_digits n [] = (n, [])
read_digits n (c ∷ cs) = elim (leb b'0' c && leb c b'9') [
  | true ↦ read_digits (n * 10 + (c - b'0')) cs
  | false ↦ (n, c ∷ cs)
]

-- What follows the units of a word.
unfoldable pub after : Units → Units → Option Units
after [] cs = some cs
after (k ∷ ks) [] = none
after (k ∷ ks) (c ∷ cs) = if c == k then after ks cs else none

unfoldable pub read_word : Value → Units → Units → Read Value
unfolding after
read_word v word cs = after word cs >>= λ rest. some (v, rest)

unfoldable mutual
  unfolding read_text read_digits read_word

  pub read_value : ℕ → Units → Read Value
  read_value zero cs = none
  read_value (suc f) [] = none
  read_value (suc f) (c ∷ cs) =
      if c == 34
      then (read_text f cs >>= λ (s, rest). some (text s, rest))
      else if c == b'['
      then (if head_is b']' cs
          then some (array nil, tail cs)
          else (read_value f cs >>= λ (x, rest).
              read_items f rest >>= λ (xs, rest). some (array (cons x xs), rest)))
      else if c == b'{'
      then (if head_is b'}' cs
          then some (object end, tail cs)
          else (read_member f cs >>= λ (fs, rest). some (object fs, rest)))
      else if c == b'n'
      then read_word null (b'u' ∷ b'l' ∷ b'l' ∷ []) cs
      else if c == b't'
      then read_word (bool true) (b'r' ∷ b'u' ∷ b'e' ∷ []) cs
      else if c == b'f'
      then read_word (bool false) (b'a' ∷ b'l' ∷ b's' ∷ b'e' ∷ []) cs
      else if leb b'0' c && leb c b'9'
      then (let (n, rest) = read_digits 0 (c ∷ cs) in some (number n, rest))
      else none

  -- The items after the first one.
  pub read_items : ℕ → Units → Read Items
  read_items zero cs = none
  read_items (suc f) cs =
      if head_is b']' cs
      then some (nil, tail cs)
      else if head_is b',' cs
      then (read_value f (tail cs) >>= λ (x, rest).
          read_items f rest >>= λ (xs, rest). some (cons x xs, rest))
      else none

  -- A field, and those after it.
  pub read_member : ℕ → Units → Read Fields
  read_member zero cs = none
  read_member (suc f) cs =
      if head_is 34 cs
      then (read_text f (tail cs) >>= λ (k, rest).
          (if head_is b':' rest
            then (read_value f (tail rest) >>= λ (v, rest).
                read_fields f rest >>= λ (fs, rest). some (field k v fs, rest))
            else none))
      else none

  pub read_fields : ℕ → Units → Read Fields
  read_fields zero cs = none
  read_fields (suc f) cs =
      if head_is b'}' cs
      then some (end, tail cs)
      else if head_is b',' cs
      then read_member f (tail cs)
      else none

-- `JSON.parse`: the whole text is one value.
unfoldable pub parse : ℕ → Units → Option Value
unfolding read_value
parse fuel cs = read_value fuel cs >>= λ (v, rest). if length rest == 0 then some v else none

-- A read that succeeds has succeeded at both its parts.
pub bind-eq-some :
    {A : Type 0} {B : Type 0} (m : Option A) (f : A → Option B) {b : B}
    → (m >>= f) ≡ some b
    → (a : A) × (m ≡ some a) × (f a ≡ some b)
bind-eq-some none f h = cc
bind-eq-some (some a) f h = (a, refl, h)
