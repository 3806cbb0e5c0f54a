-- ===== src/Base/Throws.antt =====
-- Code that throws: a result, or the error that was thrown.
use mathlib.Core.Path.{◌≡◌, refl}
use mathlib.Core.Bool.{Bool, true, false}
use nexusos_agentic.Base.Tests.{if◌then◌else◌}

pub data Result {ℓ κ} (E : Type κ) (A : Type ℓ) : Type (ℓ ⊔ κ) where
  ok : A → Result E A
  err : E → Result E A

infixl 4 ◌>>=◌
-- What follows a call that may throw.
abbrev pub ◌>>=◌ {ℓ κ μ} :
    {E : Type μ} {A : Type ℓ} {B : Type κ} → Result E A → (A → Result E B) → Result E B
err thrown >>= rest = err thrown
ok value >>= rest = rest value

infixl 4 ◌>>◌
-- What follows a call for its exceptions only.
abbrev pub ◌>>◌ {ℓ μ} : {E : Type μ} {B : Type ℓ} → Result E (Unit {0}) → Result E B → Result E B
err thrown >> rest = err thrown
ok _ >> rest = rest

-- `if (bad) throw e`.
abbrev pub throw_if {μ} : {E : Type μ} → Bool → E → Result E (Unit {0})
throw_if true e = err e
throw_if false e = ok tt

-- A sequence that returns has returned at both its calls.
pub >>=-eq-ok {ℓ κ μ} :
    {E : Type μ} {A : Type ℓ} {B : Type κ} (call : Result E A) (rest : A → Result E B) {result : B}
    → (call >>= rest) ≡ ok result
    → (value : A) × (call ≡ ok value) × (rest value ≡ ok result)
>>=-eq-ok (err thrown) rest returned = cc
>>=-eq-ok (ok value) rest returned = (value, refl, returned)

pub ok_injective {ℓ μ} :
    {E : Type μ} {A : Type ℓ} {a b : A} → Path (Result E A) (ok a) (ok b) → a ≡ b
ok_injective h = cc

-- What follows a call that returned, in a proof that goes on from it.
pub returned_pass {ℓ κ μ} :
    {E : Type μ} {A : Type ℓ} {B : Type κ} {P : Type 0} (call : Result E A) {rest : A → Result E B}
    {result : B}
    → (call >>= rest) ≡ ok result
    → ((value : A) → call ≡ ok value → rest value ≡ ok result → P)
    → P
returned_pass call {rest = rest} h k = let (a, is, later) = >>=-eq-ok call rest h in k a is later

pub if_ok {ℓ μ} :
    {E : Type μ} {A : Type ℓ} (b : Bool) (x y : A) (e : E)
    → Path (Result E A) (if b then ok x else err e) (ok y)
    → (b ≡ true) × (x ≡ y)
if_ok true x y e h = (refl, ok_injective h)
if_ok false x y e h = cc

pub if_err {ℓ μ} :
    {E : Type μ} {A : Type ℓ} (b : Bool) (x y : A) (e : E)
    → Path (Result E A) (if b then err e else ok x) (ok y)
    → (b ≡ false) × (x ≡ y)
if_err true x y e h = cc
if_err false x y e h = (refl, ok_injective h)
