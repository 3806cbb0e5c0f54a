-- ===== src/Base/Lists.antt =====
-- Lists measured by native numbers, and the array methods that the source calls.
use Prim.Native.Nat.{ℕ, suc, ◌+◌}
use Prim.Native.String.{String}
use mathlib.Core.Path.{◌≡◌}
use mathlib.Core.Logic.{◌↔◌, ◌⊎◌}
use mathlib.Core.Bool.{Bool, true, false, ◌||◌, ◌&&◌}
use mathlib.Core.List.{List, [], ◌∷◌, ◌++◌}
use mathlib.Core.Option.{Option, none, some}
use native.Mathlib.Omega.{arith}
use text.Mathlib.Text.{◌==◌ as str_eq}
use text.Mathlib.TextEquality.{eq_iff}

module _ {ℓ} {A : Type ℓ} where
  abbrev pub length : List A → ℕ
  length [] = 0
  length (x ∷ xs) = suc (length xs)

  pub length-append : (xs ys : List A) → length (xs ++ ys) ≡ length xs + length ys
  length-append [] ys = omega arith
  length-append (x ∷ xs) ys = omega (arith, length-append xs ys)

  -- `xs.some(p)` and `xs.every(p)`.
  abbrev pub any : (A → Bool) → List A → Bool
  any p [] = false
  any p (x ∷ xs) = p x || any p xs

  abbrev pub all : (A → Bool) → List A → Bool
  all p [] = true
  all p (x ∷ xs) = p x && all p xs

  -- `xs.find(p)`.
  abbrev pub find? : (A → Bool) → List A → Option A
  find? p [] = none
  find? p (x ∷ xs) = elim (p x) [ true ↦ some x | false ↦ find? p xs ]

-- A property of every element: a tuple of its proofs.
abbrev pub All {ℓ κ} : {A : Type ℓ} → (A → Type κ) → List A → Type κ
All Good (first ∷ rest) = Good first × All Good rest
All Good [] = Unit

-- Some element has the property; the position is kept.
abbrev pub Any {ℓ} : {A : Type ℓ} → (A → Type 0) → List A → Type 0
Any P [] = ⊥
Any P (x ∷ xs) = P x ⊎ Any P xs

module _ {ℓ} {A : Type ℓ} where
  pub All-append :
      (Good : A → Type 0) (front back : List A)
      → All Good front
      → All Good back
      → All Good (front ++ back)
  All-append Good (first ∷ rest) back goods others =
      (goods.0, All-append Good rest back goods.1 others)
  All-append Good [] back goods others = others

  pub All-mono : (P Q : A → Type 0) → ((a : A) → P a → Q a) → (l : List A) → All P l → All Q l
  All-mono P Q f (first ∷ rest) h = (f first h.0, All-mono P Q f rest h.1)
  All-mono P Q f [] h = tt

-- `xs.includes(s)` on an array of strings.
abbrev pub includes : List String → String → Bool
includes [] s = false
includes (x ∷ xs) s = str_eq x s || includes xs s

pub includes_iff : (xs : List String) (s : String) → (includes xs s ≡ true) ↔ Any (λ x. x ≡ s) xs
includes_iff [] s = ((λ e. ground arith), (λ h. absurd h))
includes_iff (x ∷ xs) s = ground (arith, eq_iff x s, includes_iff xs s)
