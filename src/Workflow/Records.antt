-- ===== src/Workflow/Records.antt =====
-- What the workflow files share: exact records of JSON values, identifiers and instants.
pub mod Steps
use nexusos_agentic.Base.{
  ℕ, Bool, true, false, ◌&&◌, ◌||◌, Option, none, some, List, [], ◌∷◌, ◌==◌, ◌++◌, leb, length, all,
  Result, ok, err, ◌>>=◌, ◌>>◌, ◌≡◌, refl, arith, if◌then◌else◌,
}
use nexusos_agentic.Text.{digit, hex, fits, times, Class, date_time, is_char}
use nexusos_agentic.Json.{
  Units, Value, Items, Fields, null, bool, number, text, array, object, has, same, field_count,
}

-- Dates on code units, as `Dates` on strings.
pub record UnitDates : Type 0 where
  pub parse : Units → Option ℕ
  pub to_iso : ℕ → Option Units

abbrev pub round_trips : Units → Option Units → Bool
round_trips s none = false
round_trips s (some t) = same t s

abbrev pub to_text : UnitDates → Option ℕ → Option Units
to_text d none = none
to_text d (some ms) = d.to_iso ms

-- `isCanonicalTimestamp`.
unfoldable pub is_canonical : UnitDates → Units → Bool
unfolding fits
is_canonical d s =
    fits (date_time ++ (is_char b'.' ∷ times 3 digit) ++ is_char b'Z' ∷ []) s
    && round_trips s (to_text d (d.parse s))

abbrev pub lower : Class
lower c = leb b'a' c && leb c b'z'

abbrev pub word_unit : Class
word_unit c = lower c || digit c || c == b'_'

abbrev pub between : ℕ → ℕ → ℕ → Bool
between low high n = leb low n && leb n high

-- `/^[a-z][a-z0-9_]{1,31}$/u`, of workflows and of steps.
unfoldable pub is_name : Units → Bool
is_name [] = false
is_name (c ∷ cs) = lower c && all word_unit cs && between 1 31 (length cs)

-- `/^[!-~]{1,64}$/u`.
unfoldable pub is_binding : Units → Bool
is_binding s = all (λ c. leb b'!' c && leb c b'~') s && between 1 64 (length s)

-- `/^[0-9a-f]{64}$/u`.
unfoldable pub is_hash : Units → Bool
unfolding fits
is_hash s = fits (times 64 hex) s

-- `/^[A-Za-z0-9_-]{1,64}$/u`.
unfoldable pub is_event_id : Units → Bool
is_event_id s =
    all (λ c. lower c || (leb b'A' c && leb c b'Z') || digit c || c == b'_' || c == b'-') s
    && between 1 64 (length s)

abbrev pub is_object : Value → Bool
is_object (object fs) = true
is_object _ = false

-- `exactRecord`: an object with these keys and no others.
unfoldable pub exact_record : List Units → Value → Option Fields
unfolding has
exact_record keys (object fs) =
    if field_count fs == length keys && all (λ k. has k fs) keys then some fs else none
exact_record keys _ = none

-- A value that is a text, and fits a pattern.
unfoldable pub matches : (Units → Bool) → Option Value → Option Units
matches p (some (text s)) = if p s then some s else none
matches p _ = none

abbrev pub items_of : Option Value → Option Items
items_of (some (array xs)) = some xs
items_of _ = none

-- `set.has(id)`.
unfoldable pub member : Units → List Units → Bool
unfolding same
member s [] = false
member s (t ∷ seen) = same t s || member s seen

-- A test that must hold; shut, as `require` is, so that what follows it can be told apart.
unfoldable pub guard : Bool → Option (Unit {0})
guard true = some tt
guard false = none

unfoldable pub require : {A E : Type 0} → E → Option A → Result E A
require e none = err e
require e (some a) = ok a

-- `if (bad) return reject(e)`.
unfoldable pub reject_if : {E : Type 0} → Bool → E → Result E (Unit {0})
reject_if true e = err e
reject_if false e = ok tt

pub matches-eq-some :
    (p : Units → Bool) (o : Option Value) (s : Units) → matches p o ≡ some s → p s ≡ true
unfolding matches
matches-eq-some p none s h = let bad : ⊥ = cc in absurd bad
matches-eq-some p (some null) s h = let bad : ⊥ = cc in absurd bad
matches-eq-some p (some (bool b)) s h = let bad : ⊥ = cc in absurd bad
matches-eq-some p (some (number n)) s h = let bad : ⊥ = cc in absurd bad
matches-eq-some p (some (text t)) s h = ground arith
matches-eq-some p (some (array xs)) s h = let bad : ⊥ = cc in absurd bad
matches-eq-some p (some (object fs)) s h = let bad : ⊥ = cc in absurd bad

pub require-eq-ok : {A E : Type 0} (e : E) (o : Option A) (a : A) → require e o ≡ ok a → o ≡ some a
unfolding require
require-eq-ok e none a h = let bad : ⊥ = cc in absurd bad
require-eq-ok e (some b) a h = cc

pub guard-eq-some : (b : Bool) (u : Unit {0}) → guard b ≡ some u → b ≡ true
unfolding guard
guard-eq-some true u h = refl
guard-eq-some false u h = let bad : ⊥ = cc in absurd bad

pub reject_if-eq-ok :
    {E : Type 0} (b : Bool) (e : E) (u : Unit {0}) → reject_if b e ≡ ok u → b ≡ false
unfolding reject_if
reject_if-eq-ok true e u h = let bad : ⊥ = cc in absurd bad
reject_if-eq-ok false e u h = refl

-- What a part that is required was, and what followed it.
pub require_then :
    {A B E : Type 0} (e : E) (o : Option A) (rest : A → Result E B) {result : B}
    → (require e o >>= rest) ≡ ok result
    → (a : A) × (o ≡ some a) × (rest a ≡ ok result)
unfolding require
require_then e none rest h = cc
require_then e (some a) rest h = (a, refl, h)

-- A test that did not reject, and what followed it.
pub reject_then :
    {B E : Type 0} (b : Bool) (e : E) (rest : Result E B) {result : B}
    → (reject_if b e >> rest) ≡ ok result
    → (b ≡ false) × (rest ≡ ok result)
unfolding reject_if
reject_then true e rest h = cc
reject_then false e rest h = (refl, h)

-- The same in a proof that goes on from what was there.
pub require_pass :
    {A B E : Type 0} {P : Type 0} (e : E) (o : Option A) {rest : A → Result E B} {result : B}
    → (require e o >>= rest) ≡ ok result
    → ((a : A) → o ≡ some a → rest a ≡ ok result → P)
    → P
require_pass e o {rest = rest} h k = let (a, is, later) = require_then e o rest h in k a is later

pub reject_pass :
    {B E : Type 0} {P : Type 0} (b : Bool) (e : E) (rest : Result E B) {result : B}
    → (reject_if b e >> rest) ≡ ok result
    → (b ≡ false → rest ≡ ok result → P)
    → P
reject_pass b e rest h k = let (is, later) = reject_then b e rest h in k is later
