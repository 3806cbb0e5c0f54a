-- ===== src/Json/RoundTrip.antt =====
-- What `JSON.stringify` writes is read back: the text of a value determines the value.
use nexusos_agentic.Base.{
  ℕ, zero, suc, ◌+◌, ◌-◌, ◌*◌, ◌/◌, ◌%◌, ◌≤◌, ◌<◌, ◌≡◌, refl, sym, ap, ◌∙◌, Bool, true, false, ◌&&◌,
  ◌||◌, Option, some, [], ◌∷◌, arith, ltb, leb, length, Bool-cases, inl, inr,
}
use nexusos_agentic.Json.Tree.{
  Units, Value, Items, Fields, null, bool, number, text, array, object, nil, cons, end, field, size,
  size_items, size_fields,
}
use nexusos_agentic.Json.Print.{
  hex_digit, unicode_escape, escape_unit, escape, is_lone, quote, digits, print, print_items,
  print_fields, stringify,
}
use nexusos_agentic.Json.Read.{
  hex_value, read_hex, read_escape, read_unit, head_is, read_text, read_digits, after, read_value,
  read_items, read_member, read_fields, parse,
}

hex_value-hex_digit : (n : ℕ) → n < 16 → hex_value (hex_digit n) ≡ n
hex_value-hex_digit n h = ground arith

read_hex-unicode :
    (c : ℕ) (rest : Units)
    → c < 65536
    → read_hex (
        hex_digit (c / 4096)
        ∷ hex_digit (c / 256 % 16)
        ∷ hex_digit (c / 16 % 16)
        ∷ hex_digit (c % 16)
        ∷ rest)
      ≡ some (c, rest)
unfolding read_hex
read_hex-unicode c rest h =
    let total : c / 4096 * 4096 + c / 256 % 16 * 256 + c / 16 % 16 * 16 + c % 16 ≡ c =
      omega arith in
    rw
      (
        hex_value-hex_digit (c / 4096) (omega arith),
        hex_value-hex_digit (c / 256 % 16) (omega arith),
        hex_value-hex_digit (c / 16 % 16) (omega arith),
        hex_value-hex_digit (c % 16) (omega arith),
        total,
      )
      refl

lone_bound : (before c : ℕ) (after : Units) → is_lone before c after ≡ true → c < 65536
lone_bound before c after h = ground arith

read_unit-unicode :
    (c : ℕ) (rest : Units) → c < 65536 → read_unit (unicode_escape c rest) ≡ some (c, rest)
unfolding read_unit read_escape unicode_escape
read_unit-unicode c rest h = read_hex-unicode c rest h

read_unit-escape_unit :
    (lone : Bool) (c : ℕ) (rest : Units)
    → (lone ≡ true → c < 65536)
    → read_unit (escape_unit lone c rest) ≡ some (c, rest)
unfolding escape_unit
read_unit-escape_unit lone c rest h = elim (Bool-cases (ltb c 32 || lone)) [
  | inl long ↦
      (let small : c < 65536 = ground (arith, h) in
        let unicode = read_unit-unicode c rest small in
        unfold read_unit read_escape in ground arith)
  | inr plain ↦ (unfold read_unit read_escape in ground arith)
]

-- A quote inside a text is escaped.
head-escape_unit :
    (lone : Bool) (c : ℕ) (rest : Units) → head_is 34 (escape_unit lone c rest) ≡ false
unfolding escape_unit unicode_escape
head-escape_unit lone c rest = ground arith

read_text-escape :
    (f : ℕ) (s : Units) (before : ℕ) (rest : Units)
    → length s < f
    → read_text f (escape before s (34 ∷ rest)) ≡ some (s, rest)
unfolding read_text escape
read_text-escape (suc f) [] before rest h = refl
read_text-escape (suc f) (c ∷ cs) before rest h =
    rw
      (
        head-escape_unit (is_lone before c cs) c (escape c cs (34 ∷ rest)),
        read_unit-escape_unit (is_lone before c cs) c (escape c cs (34 ∷ rest))
            (lone_bound before c cs),
        read_text-escape f cs c rest (omega arith),
      )
      refl
read_text-escape zero s before rest h = absurd (omega arith)

-- The units that end a number.
abbrev pub Ends : Units → Type 0
Ends [] = Unit
Ends (c ∷ cs) = (leb b'0' c && leb c b'9') ≡ false

read_digits-stops : (n : ℕ) (rest : Units) → Ends rest → read_digits n rest ≡ (n, rest)
unfolding read_digits
read_digits-stops n [] h = refl
read_digits-stops n (c ∷ cs) h = rw (h, read_digits) refl

read_digits-digit :
    (n d : ℕ) (cs : Units) → d < 10 → read_digits n ((b'0' + d) ∷ cs) ≡ read_digits (n * 10 + d) cs
unfolding read_digits
read_digits-digit n d cs h =
    let is : (leb b'0' (b'0' + d) && leb (b'0' + d) b'9') ≡ true = ground arith in
    let value : b'0' + d - b'0' ≡ d = omega arith in rw (is, value, read_digits) refl

read_digits-digits :
    (f n : ℕ) (rest : Units) → n < f → read_digits 0 (digits f n rest) ≡ read_digits n rest
unfolding digits
read_digits-digits zero n rest h = absurd (omega arith)
read_digits-digits (suc f) n rest h = elim (Bool-cases (ltb n 10)) [
  | inl e ↦
      (let start : 0 * 10 + n ≡ n = omega arith in
        rw (e, digits)
          (read_digits-digit 0 n rest (ground arith) ∙ ap (λ m. read_digits m rest) start))
  | inr e ↦
      (let back : n / 10 * 10 + n % 10 ≡ n = omega arith in
        rw (e, digits)
          (read_digits-digits f (n / 10) ((b'0' + n % 10) ∷ rest) (ground arith)
            ∙ (read_digits-digit (n / 10) (n % 10) rest (omega arith)
                ∙ ap (λ m. read_digits m rest) back)))
]

-- The text of a number begins with a digit.
digits_first :
    (f n : ℕ) (rest : Units)
    → n < f
    → (c : ℕ) × (cs : Units) × (digits f n rest ≡ c ∷ cs) × ((leb b'0' c && leb c b'9') ≡ true)
unfolding digits
digits_first zero n rest h = absurd (omega arith)
digits_first (suc f) n rest h = elim (Bool-cases (ltb n 10)) [
  | inl e ↦ (b'0' + n, rest, rw (e, digits) refl, ground arith)
  | inr e ↦
      (let (c, cs, k, d) = digits_first f (n / 10) ((b'0' + n % 10) ∷ rest) (ground arith) in
        (c, cs, rw (e, digits) k, d))
]

-- A value's text begins with no bracket that ends an array.
print_first : (v : Value) (rest : Units) → head_is b']' (print v rest) ≡ false
unfolding print quote
print_first null rest = refl
print_first (bool true) rest = refl
print_first (bool false) rest = refl
print_first (number n) rest =
    let (c, cs, e, d) = digits_first (suc n) n rest (omega arith) in rw e (ground arith)
print_first (text s) rest = refl
print_first (array nil) rest = refl
print_first (array (cons x xs)) rest = refl
print_first (object end) rest = refl
print_first (object (field k v fs)) rest = refl

read_first :
    (f c : ℕ) (cs : Units) {n : ℕ} {rest : Units}
    → (leb b'0' c && leb c b'9') ≡ true
    → read_digits 0 (c ∷ cs) ≡ (n, rest)
    → read_value (suc f) (c ∷ cs) ≡ some (number n, rest)
unfolding read_value
read_first f c cs d e = rw e (ground arith)

read_value-number :
    (f n : ℕ) (rest : Units)
    → Ends rest
    → read_value (suc f) (digits (suc n) n rest) ≡ some (number n, rest)
unfolding read_value
read_value-number f n rest h =
    let (c, cs, e, d) = digits_first (suc n) n rest (omega arith) in
    let value = read_digits-digits (suc n) n rest (omega arith) ∙ read_digits-stops n rest h in
    rw e (read_first f c cs d (rw (sym e) value))

Ends-print_items : (xs : Items) (rest : Units) → Ends (print_items xs rest)
unfolding print
Ends-print_items nil rest = refl
Ends-print_items (cons x xs) rest = refl

Ends-print_fields : (fs : Fields) (rest : Units) → Ends (print_fields fs rest)
unfolding print
Ends-print_fields end rest = refl
Ends-print_fields (field k v fs) rest = refl

size-pos : (v : Value) → 0 < size v
unfolding size
size-pos null = omega arith
size-pos (bool b) = omega arith
size-pos (number n) = omega arith
size-pos (text s) = omega arith
size-pos (array xs) = omega arith
size-pos (object fs) = omega arith

size_items-pos : (xs : Items) → 0 < size_items xs
unfolding size
size_items-pos nil = omega arith
size_items-pos (cons x xs) = omega arith

size_fields-pos : (fs : Fields) → 0 < size_fields fs
unfolding size
size_fields-pos end = omega arith
size_fields-pos (field k v fs) = omega arith

mutual
  unfolding print quote read_value size

  read_value-print :
      (f : ℕ) (v : Value) (rest : Units)
      → size v ≤ f
      → Ends rest
      → read_value f (print v rest) ≡ some (v, rest)
  read_value-print zero v rest h k = absurd (omega (arith, size-pos v))
  read_value-print (suc f) null rest h k = refl
  read_value-print (suc f) (bool true) rest h k = refl
  read_value-print (suc f) (bool false) rest h k = refl
  read_value-print (suc f) (number n) rest h k = read_value-number f n rest k
  read_value-print (suc f) (text s) rest h k = rw (read_text-escape f s 0 rest (omega arith)) refl
  read_value-print (suc f) (array nil) rest h k = refl
  read_value-print (suc f) (array (cons x xs)) rest h k =
      rw
        (
          print_first x (print_items xs rest),
          read_value-print f x (print_items xs rest) (omega arith) (Ends-print_items xs rest),
          read_items-print f xs rest (omega arith),
        )
        refl
  read_value-print (suc f) (object end) rest h k = refl
  read_value-print (suc f) (object (field key v fs)) rest h k =
      rw (read_member-print f key v fs rest (omega arith)) refl

  read_items-print :
      (f : ℕ) (xs : Items) (rest : Units)
      → size_items xs ≤ f
      → read_items f (print_items xs rest) ≡ some (xs, rest)
  read_items-print zero xs rest h = absurd (omega (arith, size_items-pos xs))
  read_items-print (suc f) nil rest h = refl
  read_items-print (suc f) (cons x xs) rest h =
      rw
        (
          read_value-print f x (print_items xs rest) (omega arith) (Ends-print_items xs rest),
          read_items-print f xs rest (omega arith),
        )
        refl

  read_member-print :
      (f : ℕ) (k : Units) (v : Value) (fs : Fields) (rest : Units)
      → suc (length k + size v + size_fields fs) ≤ f
      → read_member f (quote k (b':' ∷ print v (print_fields fs rest))) ≡ some (field k v fs, rest)
  read_member-print zero k v fs rest h = absurd (omega arith)
  read_member-print (suc f) k v fs rest h =
      rw
        (
          read_text-escape f k 0 (b':' ∷ print v (print_fields fs rest))
              (omega (arith, size-pos v)),
          read_value-print f v (print_fields fs rest) (omega arith) (Ends-print_fields fs rest),
          read_fields-print f fs rest (omega arith),
        )
        refl

  read_fields-print :
      (f : ℕ) (fs : Fields) (rest : Units)
      → size_fields fs ≤ f
      → read_fields f (print_fields fs rest) ≡ some (fs, rest)
  read_fields-print zero fs rest h = absurd (omega (arith, size_fields-pos fs))
  read_fields-print (suc f) end rest h = refl
  read_fields-print (suc f) (field k v fs) rest h =
      rw (read_member-print f k v fs rest (omega arith)) refl

-- The text of a value is read back as the value, in as many steps as the value is large.
pub parse-stringify : (f : ℕ) (v : Value) → size v ≤ f → parse f (stringify v) ≡ some v
unfolding parse stringify
parse-stringify f v h = rw (read_value-print f v [] h tt) refl

-- Values with the same text are the same value.
pub stringify-injective : (v w : Value) → stringify v ≡ stringify w → v ≡ w
stringify-injective v w h =
    let f = size v + size w in
    let read_v = parse-stringify f v (omega arith) in
    let read_w = parse-stringify f w (omega arith) in
    some-injective (sym read_v ∙ (ap (parse f) h ∙ read_w))
  where
    some-injective : {a b : Value} → Path (Option Value) (some a) (some b) → a ≡ b
    some-injective e = cc
