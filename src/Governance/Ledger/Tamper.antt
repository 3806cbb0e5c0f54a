-- ===== src/Governance/Ledger/Tamper.antt =====
-- The hash of the last entry fixes a valid chain (verifyLedgerChain of
-- src/domain/governance/ledger.ts).
use mathlib.Core.Path.{subst}
use nexusos_agentic.Base.{
  ℕ, ◌+◌, ◌≡◌, inl, inr, refl, sym, ◌∙◌, String, Option, none, List, [], ◌∷◌, arith, length, eq_iff,
  All, Any, All-mono,
}
use nexusos_agentic.Json.{Units, object}
use nexusos_agentic.Governance.Canonical.{canonical_json}
use nexusos_agentic.Governance.Ledger.{
  LedgerEntry, valid, genesis_hash, project_hashable_entry, entry_hash, recompute_ledger_entry_hash,
  or_first, verify_from, verify_ledger_chain,
}
use nexusos_agentic.Governance.Ledger.Content.{content-injective}

-- The text of an entry that is hashed.
abbrev pub content : LedgerEntry → Units
content e = canonical_json (object (project_hashable_entry e.event e.sequence e.previous_hash))

-- The hash that a chain ends with.
abbrev head_of : String → List LedgerEntry → String
head_of p [] = p
head_of p (e ∷ es) = head_of e.hash es

All-at :
    (P : LedgerEntry → Type 0) (es : List LedgerEntry) (e : LedgerEntry)
    → All P es
    → Any (λ x. x ≡ e) es
    → P e
All-at P [] e h k = elim k [ ]
All-at P (x ∷ es) e h (inl k) = subst P k h.0
All-at P (x ∷ es) e h (inr k) = All-at P es e h.1 k

module _ (sha256_hex : Units → String) where
  -- No entry of one chain has the hash of an entry of the other without having its content.
  abbrev pub CollisionFree : List LedgerEntry → List LedgerEntry → Type 0
  CollisionFree xs ys =
      All
        (λ x. All (λ y. sha256_hex (content x) ≡ sha256_hex (content y) → content x ≡ content y) ys)
        xs

  abbrev IsChained : ℕ → String → List LedgerEntry → Type 0
  IsChained i p [] = Unit
  IsChained i p (e ∷ es) =
      (e.sequence ≡ i + 1)
      × (e.previous_hash ≡ p)
      × (sha256_hex (content e) ≡ e.hash)
      × IsChained (i + 1) e.hash es

  verify_from-IsChained :
      (i : ℕ) (o : Option String) (p : String) (es : List LedgerEntry) (head : String) (n : ℕ)
      → verify_from sha256_hex i o p es ≡ valid head n
      → IsChained i p es × (head_of p es ≡ head)
  unfolding verify_from recompute_ledger_entry_hash entry_hash
  verify_from-IsChained i o p [] head n h = (tt, ground arith)
  verify_from-IsChained i o p (e ∷ es) head n h = ground (
    arith,
    eq_iff e.previous_hash p,
    eq_iff (sha256_hex (content e)) e.hash,
    verify_from-IsChained (i + 1) (or_first o e.event.organization_id) e.hash es head n,
  )

  -- The last entry of a chain.
  last_entry :
      (i : ℕ) (p : String) (e : LedgerEntry) (es : List LedgerEntry)
      → IsChained i p (e ∷ es)
      → (f : LedgerEntry) × Any (λ x. x ≡ f) (e ∷ es)
        × (f.sequence ≡ i + length (e ∷ es))
        × (sha256_hex (content f) ≡ head_of p (e ∷ es))
  last_entry i p e [] (s, q, h, c) = (e, inl refl, omega (arith, s), h)
  last_entry i p e (f ∷ es) (s, q, h, c) =
      let (g, found, sequence, hash) = last_entry (i + 1) e.hash f es c in
      (g, inr found, omega (arith, sequence), hash)

  same_chain :
      (i : ℕ) (p q : String) (xs ys : List LedgerEntry)
      → length xs ≡ length ys
      → IsChained i p xs
      → IsChained i q ys
      → head_of p xs ≡ head_of q ys
      → CollisionFree xs ys
      → (xs ≡ ys) × (p ≡ q)
  same_chain i p q [] [] n c d h f = (refl, h)
  same_chain i p q [] (y ∷ ys) n c d h f = absurd (omega (arith, n))
  same_chain i p q (x ∷ xs) [] n c d h f = absurd (omega (arith, n))
  same_chain i p q (x ∷ xs) (y ∷ ys) n (s, a, u, c) (t, b, v, d) h ((g, _), f) =
      let fewer = All-mono _ _ (λ e k. k.1) xs f in
      let (rest, hashes) = same_chain (i + 1) x.hash y.hash xs ys (omega (arith, n)) c d h fewer in
      let (events, sequences, previous) =
        content-injective x.event y.event x.sequence y.sequence x.previous_hash y.previous_hash
          (g (u ∙ (hashes ∙ sym v))) in
      let entries : x ≡ y = cc in (cc, sym a ∙ (previous ∙ b))

  -- The hash of its last entry fixes a valid ledger: two ledgers with an entry at least that verify
  -- with the same head hash are entry for entry the same, where no entry of one collides with an
  -- entry of the other.
  pub same_head_same_ledger :
      (x y : LedgerEntry) (xs ys : List LedgerEntry) (head : String) (n m : ℕ)
      → verify_ledger_chain sha256_hex (x ∷ xs) ≡ valid head n
      → verify_ledger_chain sha256_hex (y ∷ ys) ≡ valid head m
      → CollisionFree (x ∷ xs) (y ∷ ys)
      → x ∷ xs ≡ y ∷ ys
  unfolding verify_ledger_chain
  same_head_same_ledger x y xs ys head n m v w free =
      let (c, h) = verify_from-IsChained 0 none genesis_hash (x ∷ xs) head n v in
      let (d, k) = verify_from-IsChained 0 none genesis_hash (y ∷ ys) head m w in
      let (e, e_found, e_sequence, e_hash) = last_entry 0 genesis_hash x xs c in
      let (f, f_found, f_sequence, f_hash) = last_entry 0 genesis_hash y ys d in
      let collide = All-at _ (y ∷ ys) f (All-at _ (x ∷ xs) e free e_found) f_found in
      let (_, sequences, _) =
        content-injective e.event f.event e.sequence f.sequence e.previous_hash f.previous_hash
          (collide (e_hash ∙ (h ∙ (sym k ∙ sym f_hash)))) in
      let lengths : length (x ∷ xs) ≡ length (y ∷ ys) =
        omega (arith, e_sequence, f_sequence, sequences) in
      (same_chain 0 genesis_hash genesis_hash (x ∷ xs) (y ∷ ys) lengths c d (h ∙ sym k) free).0
