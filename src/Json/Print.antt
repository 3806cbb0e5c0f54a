-- ===== src/Json/Print.antt =====
-- `JSON.stringify` of a JSON value, before the code units that follow it.
use nexusos_agentic.Base.{
  ℕ, zero, suc, ◌+◌, ◌/◌, ◌%◌, Bool, true, false, not, ◌&&◌, ◌||◌, [], ◌∷◌, ◌==◌, ltb, leb,
  if◌then◌else◌,
}
use nexusos_agentic.Json.Tree.{
  Units, Value, Items, Fields, null, bool, number, text, array, object, nil, cons, end, field,
}

abbrev pub hex_digit : ℕ → ℕ
hex_digit n = if ltb n 10 then b'0' + n else 87 + n

-- `\u` and four hexadecimal digits.
unfoldable pub unicode_escape : ℕ → Units → Units
unicode_escape c rest =
    b'\\'
    ∷ b'u'
    ∷ hex_digit (c / 4096)
    ∷ hex_digit (c / 256 % 16)
    ∷ hex_digit (c / 16 % 16)
    ∷ hex_digit (c % 16)
    ∷ rest

abbrev pub is_high : ℕ → Bool
is_high c = leb 0xD800 c && leb c 0xDBFF

abbrev pub is_low : ℕ → Bool
is_low c = leb 0xDC00 c && leb c 0xDFFF

abbrev pub next_is_low : Units → Bool
next_is_low [] = false
next_is_low (c ∷ cs) = is_low c

-- A surrogate that has no partner, after the unit `before`.
abbrev pub is_lone : ℕ → ℕ → Units → Bool
is_lone before c after =
    (is_high c && not (next_is_low after)) || (is_low c && not (is_high before))

-- One code unit of a text.
unfoldable pub escape_unit : Bool → ℕ → Units → Units
escape_unit lone c rest =
    if c == 34
    then b'\\' ∷ 34 ∷ rest
    else if c == b'\\'
    then b'\\' ∷ b'\\' ∷ rest
    else if c == 8
    then b'\\' ∷ b'b' ∷ rest
    else if c == 9
    then b'\\' ∷ b't' ∷ rest
    else if c == 10
    then b'\\' ∷ b'n' ∷ rest
    else if c == 12
    then b'\\' ∷ b'f' ∷ rest
    else if c == 13
    then b'\\' ∷ b'r' ∷ rest
    else if ltb c 32 || lone
    then unicode_escape c rest
    else c ∷ rest

unfoldable pub escape : ℕ → Units → Units → Units
unfolding escape_unit
escape before [] rest = rest
escape before (c ∷ cs) rest = escape_unit (is_lone before c cs) c (escape c cs rest)

-- A text in quotes.
unfoldable pub quote : Units → Units → Units
unfolding escape
quote s rest = 34 ∷ escape 0 s (34 ∷ rest)

-- The decimal digits of a number; the fuel `n + 1` is enough for `n`.
unfoldable pub digits : ℕ → ℕ → Units → Units
digits zero n rest = rest
digits (suc fuel) n rest = elim (ltb n 10) [
  | true ↦ (b'0' + n) ∷ rest
  | false ↦ digits fuel (n / 10) ((b'0' + n % 10) ∷ rest)
]

unfoldable mutual
  pub print : Value → Units → Units
  print null rest = b'n' ∷ b'u' ∷ b'l' ∷ b'l' ∷ rest
  print (bool true) rest = b't' ∷ b'r' ∷ b'u' ∷ b'e' ∷ rest
  print (bool false) rest = b'f' ∷ b'a' ∷ b'l' ∷ b's' ∷ b'e' ∷ rest
  print (number n) rest = digits (suc n) n rest
  print (text s) rest = quote s rest
  print (array nil) rest = b'[' ∷ b']' ∷ rest
  print (array (cons x xs)) rest = b'[' ∷ print x (print_items xs rest)
  print (object end) rest = b'{' ∷ b'}' ∷ rest
  print (object (field k v fs)) rest = b'{' ∷ quote k (b':' ∷ print v (print_fields fs rest))

  -- The items after the first one.
  pub print_items : Items → Units → Units
  print_items nil rest = b']' ∷ rest
  print_items (cons x xs) rest = b',' ∷ print x (print_items xs rest)

  pub print_fields : Fields → Units → Units
  print_fields end rest = b'}' ∷ rest
  print_fields (field k v fs) rest = b',' ∷ quote k (b':' ∷ print v (print_fields fs rest))

-- `JSON.stringify`.
unfoldable pub stringify : Value → Units
unfolding print
stringify v = print v []
