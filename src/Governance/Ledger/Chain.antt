-- ===== src/Governance/Ledger/Chain.antt =====
-- A ledger that grew by appending verifies (appendLedgerEntry and verifyLedgerChain of
-- src/domain/governance/ledger.ts).
use mathlib.Core.Path.{subst}
use nexusos_agentic.Base.{
  ℕ, ◌+◌, ◌≡◌, refl, ap, ◌∙◌, String, false, Option, none, some, List, [], ◌∷◌, ◌++◌, arith, length,
  length-append, eq_iff, ok,
}
use nexusos_agentic.Json.{Units}
use nexusos_agentic.Governance.Ledger.{
  LedgerEvent, LedgerEntry, valid, genesis_hash, crosses, next_sequence, next_previous_hash,
  append_ledger_entry, entry_after, recompute_ledger_entry_hash, differs, or_first, verify_from,
  verify_ledger_chain,
}

-- The last entry.
abbrev pub tip : List LedgerEntry → Option LedgerEntry
tip [] = none
tip (e ∷ []) = some e
tip (e ∷ f ∷ es) = tip (f ∷ es)

tip-append : (es : List LedgerEntry) (e : LedgerEntry) → tip (es ++ (e ∷ [])) ≡ some e
tip-append [] e = refl
tip-append (x ∷ []) e = refl
tip-append (x ∷ y ∷ es) e = tip-append (y ∷ es) e

-- The organization that the loop holds after some entries.
abbrev organization_after : Option String → List LedgerEntry → Option String
organization_after o [] = o
organization_after o (e ∷ es) = organization_after (or_first o e.event.organization_id) es

organization_after-append :
    (o : Option String) (es : List LedgerEntry) (e : LedgerEntry)
    → organization_after o (es ++ (e ∷ []))
      ≡ or_first (organization_after o es) e.event.organization_id
organization_after-append o [] e = refl
organization_after-append o (x ∷ es) e =
    organization_after-append (or_first o x.event.organization_id) es e

abbrev organization_of : Option LedgerEntry → Option String
organization_of none = none
organization_of (some e) = some e.event.organization_id

module _ (sha256_hex : Units → String) where
  -- A ledger is empty, or a ledger to which an entry was appended after its last one.
  pub data Grown : List LedgerEntry → Type 0 where
    empty : Grown []
    appended :
        {es : List LedgerEntry} (event : LedgerEvent) (e : LedgerEntry)
        → Grown es
        → append_ledger_entry sha256_hex (tip es) event ≡ ok e
        → Grown (es ++ (e ∷ []))

  verify_from-append :
      (i : ℕ) (o : Option String) (expected : String) (es : List LedgerEntry) (e : LedgerEntry)
      (head : String) (n : ℕ)
      → verify_from sha256_hex i o expected es ≡ valid head n
      → e.sequence ≡ n + 1
      → differs (organization_after o es) e.event.organization_id ≡ false
      → e.previous_hash ≡ head
      → recompute_ledger_entry_hash sha256_hex e ≡ e.hash
      → verify_from sha256_hex i o expected (es ++ (e ∷ [])) ≡ valid e.hash (n + 1)
  unfolding verify_from
  verify_from-append i o expected [] e head n v s d p h = ground (
    arith,
    eq_iff e.previous_hash expected,
    eq_iff (recompute_ledger_entry_hash sha256_hex e) e.hash,
  )
  verify_from-append i o expected (x ∷ es) e head n v s d p h =
      ground
        (arith, verify_from-append (i + 1) (or_first o x.event.organization_id) x.hash es e head n)

  record IsLedger (es : List LedgerEntry) : Type 0 where
    verifies : verify_ledger_chain sha256_hex es ≡ valid (next_previous_hash (tip es)) (length es)
    sequence : next_sequence (tip es) ≡ length es + 1
    organization : organization_after none es ≡ organization_of (tip es)

  append-eq-ok :
      (previous : Option LedgerEntry) (event : LedgerEvent) (e : LedgerEntry)
      → append_ledger_entry sha256_hex previous event ≡ ok e
      → (crosses previous event ≡ false) × (entry_after sha256_hex previous event ≡ e)
  unfolding append_ledger_entry
  append-eq-ok previous event e h = ground arith

  same_organization :
      (previous : Option LedgerEntry) (event : LedgerEvent)
      → crosses previous event ≡ false
      → (differs (organization_of previous) event.organization_id ≡ false)
        × (or_first (organization_of previous) event.organization_id ≡ some event.organization_id)
  same_organization none event h = (refl, refl)
  same_organization (some p) event h =
      let equal : p.event.organization_id ≡ event.organization_id =
        ground (arith, eq_iff p.event.organization_id event.organization_id) in
      (ground (arith, eq_iff event.organization_id p.event.organization_id), ap some equal)

  entry_after-IsLedger :
      (es : List LedgerEntry) (event : LedgerEvent)
      → IsLedger es
      → crosses (tip es) event ≡ false
      → IsLedger (es ++ (entry_after sha256_hex (tip es) event ∷ []))
  unfolding entry_after verify_ledger_chain recompute_ledger_entry_hash
  entry_after-IsLedger es event l c =
      let e = entry_after sha256_hex (tip es) event in
      let (d, first) = same_organization (tip es) event c in
      record {
        verifies =
            rw (tip-append es e, length-append es (e ∷ []))
              (verify_from-append 0 none genesis_hash es e _ _ l.verifies l.sequence
                (rw l.organization d) refl refl);
        sequence = rw (tip-append es e, length-append es (e ∷ [])) (ap (λ n. n + 1) l.sequence);
        organization =
            rw (tip-append es e) (organization_after-append none es e ∙ rw l.organization first);
      }

  -- Every ledger that grew by appending is valid: its verification returns the hash of the last
  -- entry, and the number of entries.
  pub Grown-verifies :
      {es : List LedgerEntry}
      → Grown es
      → verify_ledger_chain sha256_hex es ≡ valid (next_previous_hash (tip es)) (length es)
  Grown-verifies g = (ledger g).verifies
    where
      ledger : {es : List LedgerEntry} → Grown es → IsLedger es
      ledger empty =
          unfold verify_ledger_chain in
          record { verifies = refl; sequence = refl; organization = refl }
      ledger (appended {es} event e g h) =
          let (c, made) = append-eq-ok (tip es) event e h in
          subst (λ f. IsLedger (es ++ (f ∷ []))) made (entry_after-IsLedger es event (ledger g) c)
