-- ===== src/Governance/Canonical/Reorder.antt =====
-- The loop over the sorted keys of canonical JSON only reorders the fields of an object whose keys
-- are distinct (src/domain/governance/canonical-json.ts).
use mathlib.Core.Path.{subst}
use nexusos_agentic.Base.{
  ◌≡◌, ◌≢◌, refl, sym, ap, Bool, true, false, not, ◌&&◌, ◌||◌, arith, if◌then◌else◌,
}
use nexusos_agentic.Json.{Units, Value, Fields, end, field, same, has}
use nexusos_agentic.Governance.Canonical.{proto, place, set, set_all, insert_key, sort_keys}
use nexusos_agentic.Governance.Canonical.Laws.{same_iff}
use nexusos_agentic.Governance.Canonical.Plain.{distinct_keys, has-sort_keys}
use nexusos_agentic.Governance.Canonical.Order.{
  SameFields, same_value, same_end, same_field, swapped, after_that,
}

same_fields : (fs : Fields) → SameFields fs fs
same_fields end = same_end
same_fields (field k v fs) = same_field same_value (same_fields fs)

same_if :
    {fs gs hs : Fields} (b : Bool)
    → SameFields fs gs
    → SameFields fs hs
    → SameFields fs (if b then gs else hs)
same_if true s t = s
same_if false s t = t

absent-differs :
    (k l : Units) (w : Value) (fs : Fields)
    → has k (field l w fs) ≡ false
    → (k ≢ l) × (has k fs ≡ false)
unfolding has
absent-differs k l w fs h = ((λ e. ground (arith, same_iff l k, sym e)), ground arith)

-- A new field moves past the first one, and on.
moved :
    (k l : Units) (v w : Value) (fs gs : Fields)
    → k ≢ l
    → SameFields (field k v fs) gs
    → SameFields (field k v (field l w fs)) (field l w gs)
moved k l v w fs gs differs s = after_that (swapped differs) (same_field same_value s)

insert_key-SameFields :
    (k : Units) (v : Value) (fs : Fields)
    → has k fs ≡ false
    → SameFields (field k v fs) (insert_key k v fs)
unfolding insert_key
insert_key-SameFields k v end h = same_fields _
insert_key-SameFields k v (field l w fs) h =
    let (differs, absent) = absent-differs k l w fs h in
    same_if _ (moved k l v w fs _ differs (insert_key-SameFields k v fs absent)) (same_fields _)

place-SameFields :
    (k : Units) (v : Value) (fs : Fields)
    → has k fs ≡ false
    → SameFields (field k v fs) (place k v fs)
unfolding place
place-SameFields k v end h = same_fields _
place-SameFields k v (field l w fs) h =
    let (differs, absent) = absent-differs k l w fs h in
    same_if _ (same_fields _) (moved k l v w fs _ differs (place-SameFields k v fs absent))

pub sort_keys-SameFields : (fs : Fields) → distinct_keys fs ≡ true → SameFields fs (sort_keys fs)
unfolding sort_keys distinct_keys
sort_keys-SameFields end h = same_end
sort_keys-SameFields (field k v fs) h =
    after_that (same_field same_value (sort_keys-SameFields fs ground arith))
      (insert_key-SameFields k v (sort_keys fs) ground (arith, has-sort_keys k fs))

joined : Fields → Fields → Fields
joined end gs = gs
joined (field k v fs) gs = field k v (joined fs gs)

-- No key of the first fields is one of the second.
apart : Fields → Fields → Bool
apart end gs = true
apart (field k v fs) gs = not (has k gs) && apart fs gs

moved_behind :
    (k : Units) (v : Value) (fs gs : Fields)
    → has k fs ≡ false
    → SameFields (field k v (joined fs gs)) (joined fs (field k v gs))
unfolding joined
moved_behind k v end gs h = same_fields _
moved_behind k v (field l w fs) gs h =
    let (differs, absent) = absent-differs k l w fs h in
    moved k l v w (joined fs gs) _ differs (moved_behind k v fs gs absent)

joined-SameFields :
    (fs : Fields) {gs hs : Fields} → SameFields gs hs → SameFields (joined fs gs) (joined fs hs)
unfolding joined
joined-SameFields end s = s
joined-SameFields (field k v fs) s = same_field same_value (joined-SameFields fs s)

joined-end : (fs : Fields) → joined fs end ≡ fs
unfolding joined
joined-end end = refl
joined-end (field k v fs) = ap (field k v) (joined-end fs)

has-place : (j k : Units) (v : Value) (fs : Fields) → has j (place k v fs) ≡ (same k j || has j fs)
unfolding place has
has-place j k v end = refl
has-place j k v (field l w fs) = ground (arith, has-place j k v fs)

apart-place :
    (k : Units) (v : Value) (fs gs : Fields)
    → has k fs ≡ false
    → apart fs gs ≡ true
    → apart fs (place k v gs) ≡ true
unfolding apart has
apart-place k v end gs h a = refl
apart-place k v (field l w fs) gs h a =
    ground (arith, apart-place k v fs gs, has-place l k v gs, same_iff l k, same_iff k l)

apart-end : (fs : Fields) → apart fs end ≡ true
unfolding apart has
apart-end end = refl
apart-end (field k v fs) = apart-end fs

set-place :
    (k : Units) (v : Value) (gs : Fields)
    → same k proto ≡ false
    → has k gs ≡ false
    → set k v gs ≡ place k v gs
unfolding set
set-place k v gs h a = ground arith

set_all-SameFields :
    (fs gs : Fields)
    → distinct_keys fs ≡ true
    → apart fs gs ≡ true
    → SameFields (joined fs gs) (set_all gs fs)
unfolding joined apart set_all distinct_keys
set_all-SameFields end gs d a = same_fields gs
set_all-SameFields (field k v fs) gs d a = rw (set-place k v gs (ground arith) (ground arith)) (
    after_that (moved_behind k v fs gs ground arith) (
      after_that (joined-SameFields fs (place-SameFields k v gs ground arith)) (
        set_all-SameFields fs (place k v gs) (ground arith)
          (apart-place k v fs gs (ground arith) (ground arith)))))

pub set_all-end-SameFields :
    (fs : Fields) → distinct_keys fs ≡ true → SameFields fs (set_all end fs)
set_all-end-SameFields fs d =
    subst (λ gs. SameFields gs (set_all end fs)) (joined-end fs)
      (set_all-SameFields fs end d (apart-end fs))
