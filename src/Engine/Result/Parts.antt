-- ===== src/Engine/Result/Parts.antt =====
-- Parts of a result that are parsed: receipts, sizes and exit codes
-- (src/domain/runners/execution-engine.ts).
use mathlib.Core.Path.{subst}
use nexusos_agentic.Base.{
  ℕ, ◌+◌, ◌≡◌, ◌≤◌, refl, sym, ap, ◌∙◌, Bool, true, false, Option, none, some, length, leb, arith,
  if◌then◌else◌, ok, ok_injective,
}
use nexusos_agentic.Text.{units}
use nexusos_agentic.Json.{Units, Value, text, number, null, bool, array, object, lookup}
use nexusos_agentic.Workflow.Records.{is_hash, exact_record, matches, matches-eq-some}
use nexusos_agentic.Workflow.Records.Steps.{bind_then, guard_pass, some_injective}
use nexusos_agentic.Engine.Excerpts.{Bytes}
use nexusos_agentic.Engine.Base64.{decode_base64_url}
use nexusos_agentic.Engine.Contract.{flag_of, exit_code_of, string_value}
use nexusos_agentic.Engine.Streams.{
  StreamReceipt, size_of, stream_keys, parse_stream_receipt, excerpt_size, count_within,
  is_receipt_consistent,
}
use nexusos_agentic.Engine.Result.{exceeds, exit_code_value}
use nexusos_agentic.Engine.Result.Laws.{IsReceipt}

count_within-eq-some : (max : ℕ) (o : Option Value) (n : ℕ) → count_within max o ≡ some n → n ≤ max
unfolding count_within
count_within-eq-some max (some (number m)) n h = ground arith
count_within-eq-some max none n h = let bad : ⊥ = cc in absurd bad
count_within-eq-some max (some null) n h = let bad : ⊥ = cc in absurd bad
count_within-eq-some max (some (bool b)) n h = let bad : ⊥ = cc in absurd bad
count_within-eq-some max (some (text t)) n h = let bad : ⊥ = cc in absurd bad
count_within-eq-some max (some (array xs)) n h = let bad : ⊥ = cc in absurd bad
count_within-eq-some max (some (object fs)) n h = let bad : ⊥ = cc in absurd bad

-- A receipt that is parsed, whose excerpt may be no text.
pub record IsParsed (max : ℕ) (s : StreamReceipt) : Type 0 where
  excerpt : Bytes
  decodes : decode_base64_url (string_value s.excerpt_base64_url) ≡ some excerpt
  within : s.bytes ≤ max
  hash : is_hash s.sha256 ≡ true
  consistent : is_receipt_consistent s.bytes (length excerpt) s.sha256 s.truncated ≡ true

pub parse_stream_receipt-IsParsed :
    (max : ℕ) (o : Option Value) (s : StreamReceipt)
    → parse_stream_receipt max o ≡ some s
    → IsParsed max s
unfolding parse_stream_receipt
parse_stream_receipt-IsParsed max o s h = bind_then o h λ v _ h1.
    bind_then (exact_record stream_keys v) h1 λ fs _ h2.
      bind_then (count_within max (lookup (units "bytes") fs)) h2 λ bytes counted h3.
        bind_then (matches is_hash (lookup (units "sha256") fs)) h3 λ sha256 is_sha h4.
          bind_then (flag_of (lookup (units "truncated") fs)) h4 λ truncated _ h5.
            bind_then (lookup (units "excerptBase64Url") fs) h5 λ excerpt _ h6.
              bind_then (decode_base64_url (string_value excerpt)) h6 λ decoded decodes h7.
                guard_pass (is_receipt_consistent bytes (length decoded) sha256 truncated) _ h7
                  λ consistent h8. subst (IsParsed max) (some_injective h8) (record {
                    excerpt = decoded;
                    decodes = decodes;
                    within = count_within-eq-some max (lookup (units "bytes") fs) bytes counted;
                    hash = matches-eq-some is_hash (lookup (units "sha256") fs) sha256 is_sha;
                    consistent = consistent;
                  })

excerpt_size-eq-ok :
    (v : Value) (n : ℕ)
    → excerpt_size v ≡ ok (some n)
    → (s : Units) × (v ≡ text s) × (size_of (decode_base64_url s) ≡ some n)
unfolding excerpt_size
excerpt_size-eq-ok (text s) n h = (s, refl, ok_injective h)
excerpt_size-eq-ok null n h = cc
excerpt_size-eq-ok (bool b) n h = let bad : ⊥ = cc in absurd bad
excerpt_size-eq-ok (number m) n h = let bad : ⊥ = cc in absurd bad
excerpt_size-eq-ok (array xs) n h = let bad : ⊥ = ground arith in absurd bad
excerpt_size-eq-ok (object fs) n h = let bad : ⊥ = ground arith in absurd bad

-- An excerpt with a size is a text.
pub sized_text :
    (max : ℕ) (s : StreamReceipt) (n : ℕ)
    → IsParsed max s
    → excerpt_size s.excerpt_base64_url ≡ ok (some n)
    → (excerpt : Bytes) × IsReceipt max s excerpt × (length excerpt ≡ n)
unfolding string_value
sized_text max s n k h =
    let (t, is_text, sized) = excerpt_size-eq-ok s.excerpt_base64_url n h in
    let decodes : decode_base64_url t ≡ some k.excerpt =
      sym (ap (λ v. decode_base64_url (string_value v)) is_text) ∙ k.decodes in
    (
      k.excerpt,
      record {
        encoded = t;
        is_text = is_text;
        decodes = decodes;
        within = k.within;
        hash = k.hash;
        consistent = k.consistent;
      },
      some_injective (sym (ap size_of decodes) ∙ sized),
    )

pub sizes_within :
    (limit : ℕ) (a b : Option ℕ)
    → exceeds limit a b ≡ false
    → (x : ℕ) × (y : ℕ) × (a ≡ some x) × (b ≡ some y) × (x + y ≤ limit)
sizes_within limit (some x) (some y) h = (x, y, refl, refl, ground arith)
sizes_within limit none b h = let bad : ⊥ = cc in absurd bad
sizes_within limit (some x) none h = let bad : ⊥ = cc in absurd bad

if_some :
    {A : Type 0} (b : Bool) (x y : A) → (if b then some x else none) ≡ some y → (b ≡ true) × (x ≡ y)
if_some true x y h = (refl, cc)
if_some false x y h = cc

pub exit_code_of-value :
    (o : Option Value) (c : Option ℕ)
    → exit_code_of o ≡ some c
    → exit_code_of (some (exit_code_value c)) ≡ some c
unfolding exit_code_of
exit_code_of-value (some null) c h =
    subst (λ c. exit_code_of (some (exit_code_value c)) ≡ some c) (some_injective h) refl
exit_code_of-value (some (number n)) c h =
    let (small, same) = if_some (leb n 255) (some n) c h in
    subst (λ c. exit_code_of (some (exit_code_value c)) ≡ some c) same (ground arith)
exit_code_of-value none c h = let bad : ⊥ = cc in absurd bad
exit_code_of-value (some (bool b)) c h = let bad : ⊥ = cc in absurd bad
exit_code_of-value (some (text t)) c h = let bad : ⊥ = cc in absurd bad
exit_code_of-value (some (array xs)) c h = let bad : ⊥ = cc in absurd bad
exit_code_of-value (some (object fs)) c h = let bad : ⊥ = cc in absurd bad
