-- ===== src/Workflow/Records/Steps.antt =====
-- Chains of options that end well, taken apart in proofs.
use nexusos_agentic.Base.{◌≡◌, refl, Bool, true, false, Option, some}
use nexusos_agentic.Json.Read.{◌>>=◌, bind-eq-some}
use nexusos_agentic.Workflow.Records.{guard}

-- A test that held, and what followed it.
pub guard_then :
    {B : Type 0} (b : Bool) (rest : Unit {0} → Option B) {result : B}
    → (guard b >>= rest) ≡ some result
    → (b ≡ true) × (rest tt ≡ some result)
unfolding guard
guard_then true rest h = (refl, h)
guard_then false rest h = cc

pub some_injective : {A : Type 0} {a b : A} → Path (Option A) (some a) (some b) → a ≡ b
some_injective h = cc

-- What follows a part that was there, in a proof.
pub bind_then :
    {A B : Type 0} {P : Type 0} (m : Option A) {f : A → Option B} {b : B}
    → (m >>= f) ≡ some b
    → ((a : A) → m ≡ some a → f a ≡ some b → P)
    → P
bind_then m {f = f} h k = let (a, e, rest) = bind-eq-some m f h in k a e rest

pub guard_pass :
    {B : Type 0} {P : Type 0} (c : Bool) (f : Unit {0} → Option B) {b : B}
    → (guard c >>= f) ≡ some b
    → (c ≡ true → f tt ≡ some b → P)
    → P
guard_pass c f h k = let (e, rest) = guard_then c f h in k e rest
