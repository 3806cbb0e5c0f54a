-- ===== src/Engine/Excerpts.antt =====
-- Two excerpts in one sequence of bytes: frameEngineExcerpts and unframeEngineExcerpts of
-- src/domain/runners/execution-engine.ts. A byte is a number below 256; `none` is a TypeError.
use mathlib.Core.Path.{subst}
use nexusos_agentic.Base.{
  ℕ, zero, suc, ◌+◌, ◌*◌, ◌/◌, ◌%◌, ◌≤◌, ◌<◌, ◌≡◌, refl, ap, Bool, true, false, ◌||◌, Option, none,
  some, List, [], ◌∷◌, ◌++◌, length, length-append, ltb, arith, All, ◌↔◌, if◌then◌else◌,
}

abbrev pub Bytes : Type 0
Bytes = List ℕ

unfoldable pub take : ℕ → Bytes → Bytes
take zero bs = []
take (suc n) [] = []
take (suc n) (b ∷ bs) = b ∷ take n bs

unfoldable pub drop : ℕ → Bytes → Bytes
drop zero bs = bs
drop (suc n) [] = []
drop (suc n) (b ∷ bs) = drop n bs

abbrev pub engine_excerpt_max_bytes : ℕ
engine_excerpt_max_bytes = 1024

pub record Excerpts : Type 0 where
  pub stdout : Bytes
  pub stderr : Bytes

-- The length of `stdout` in two bytes, and then both excerpts.
unfoldable pub frame_engine_excerpts : Excerpts → Option Bytes
frame_engine_excerpts e =
    if ltb engine_excerpt_max_bytes (length e.stdout + length e.stderr)
    then none
    else some ((length e.stdout / 256 % 256) ∷ (length e.stdout % 256) ∷ (e.stdout ++ e.stderr))

-- `(framed[0] << 8) | framed[1]`, of bytes.
unfoldable pub unframe_engine_excerpts : Bytes → Option Excerpts
unfolding take drop
unframe_engine_excerpts (high ∷ low ∷ rest) =
    let count = high * 256 + low in
    if ltb engine_excerpt_max_bytes (length rest) || ltb (length rest) count
    then none
    else some (record { stdout = take count rest; stderr = drop count rest })
unframe_engine_excerpts _ = none

take-append : (xs ys : Bytes) → take (length xs) (xs ++ ys) ≡ xs
unfolding take
take-append [] ys = refl
take-append (x ∷ xs) ys = ap (λ zs. x ∷ zs) (take-append xs ys)

drop-append : (xs ys : Bytes) → drop (length xs) (xs ++ ys) ≡ ys
unfolding drop
drop-append [] ys = refl
drop-append (x ∷ xs) ys = drop-append xs ys

take-drop : (n : ℕ) (bs : Bytes) → take n bs ++ drop n bs ≡ bs
unfolding take drop
take-drop zero bs = refl
take-drop (suc n) [] = refl
take-drop (suc n) (b ∷ bs) = ap (λ zs. b ∷ zs) (take-drop n bs)

length-take : (n : ℕ) (bs : Bytes) → n ≤ length bs → length (take n bs) ≡ n
unfolding take
length-take zero bs h = refl
length-take (suc n) [] h = absurd (omega arith)
length-take (suc n) (b ∷ bs) h = ap suc (length-take n bs (omega arith))

pub if_none-eq-some :
    {A : Type 0} (b : Bool) (x y : A)
    → (if b then none else some x) ≡ some y
    → (b ≡ false) × (x ≡ y)
if_none-eq-some true x y h = cc
if_none-eq-some false x y h = (refl, cc)

pub unframe-frame :
    (e : Excerpts) (framed : Bytes)
    → frame_engine_excerpts e ≡ some framed
    → unframe_engine_excerpts framed ≡ some e
unfolding frame_engine_excerpts unframe_engine_excerpts
unframe-frame e framed h =
    let (fits, same) =
      if_none-eq-some (ltb engine_excerpt_max_bytes (length e.stdout + length e.stderr)) _ framed
        h in
    let count : length e.stdout / 256 % 256 * 256 + length e.stdout % 256 ≡ length e.stdout =
      ground arith in
    subst (λ f. unframe_engine_excerpts f ≡ some e) same
      (rw (count, take-append e.stdout e.stderr, drop-append e.stdout e.stderr) ground
        (arith, length-append e.stdout e.stderr))

frame-unframe :
    (framed : Bytes) (e : Excerpts)
    → All (λ b. b < 256) framed
    → unframe_engine_excerpts framed ≡ some e
    → frame_engine_excerpts e ≡ some framed
unfolding frame_engine_excerpts unframe_engine_excerpts
frame-unframe (high ∷ low ∷ rest) e h k =
    let count = high * 256 + low in
    let (fits, same) =
      if_none-eq-some (ltb engine_excerpt_max_bytes (length rest) || ltb (length rest) count) _ e
        k in
    let size : length (take count rest) ≡ count = length-take count rest (ground arith) in
    let whole = take-drop count rest in
    let sizes = length-append (take count rest) (drop count rest) in
    let length_whole = ap length whole in
    let total : length (take count rest) + length (drop count rest) ≤ 1024 = ground arith in
    let first : length (take count rest) / 256 % 256 ≡ high = omega (arith, size, h.0, h.1.0) in
    let second : length (take count rest) % 256 ≡ low = omega (arith, size, h.0, h.1.0) in
    subst (λ e. frame_engine_excerpts e ≡ some (high ∷ low ∷ rest)) same
      (rw (first, second, whole) ground arith)
frame-unframe [] e h k = cc
frame-unframe (b ∷ []) e h k = cc

-- Bytes are read as two excerpts exactly when they are what these are framed to.
pub unframe_iff :
    (framed : Bytes) (e : Excerpts)
    → All (λ b. b < 256) framed
    → (unframe_engine_excerpts framed ≡ some e) ↔ (frame_engine_excerpts e ≡ some framed)
unframe_iff framed e h = (frame-unframe framed e h, unframe-frame e framed)
