-- ===== src/Presence/Store.antt =====
-- How a lease decision is written (updatePresenceSession, persistLease, updateCurrentLease,
-- insertLease and releasePresenceSession of src/adapters/d1/presence-repository.ts): the row of one
-- principal, which other requests may change between two statements. The table holds one row for
-- each principal, by a unique index.
use nexusos_agentic.Base.{
  String, Bool, true, false, ◌&&◌, Option, none, some, str_eq, ◌==◌, if◌then◌else◌, Result, ok, err,
}
use nexusos_agentic.Presence.{
  CurrentPresenceLease, Grant, LeaseKind, claim, renew, same_token, PresenceReleaseDecision,
  release, noop, reject_release,
}

pub data StoreError : Type 0 where
  presence_stale_session unique_index : StoreError

abbrev pub Row : Type 0
Row = Option CurrentPresenceLease

-- The row that the statements write.
unfoldable pub row_of : Grant → String → CurrentPresenceLease
row_of g session_key = record {
  session_key = session_key;
  fencing_token = g.fencing_token;
  expires_at_epoch = g.expires_at_epoch;
}

abbrev pub same_key : Option String → String → Bool
same_key none k = false
same_key (some s) k = str_eq s k

-- `UPDATE … WHERE fencing_token = ? AND session_key = ? RETURNING …`; `none` where no row is met.
unfoldable pub update_current_lease : Row → Grant → String → Option CurrentPresenceLease
unfolding row_of
update_current_lease none g key = none
update_current_lease (some r) g key =
    if same_token g.expected_fencing_token r.fencing_token
      && same_key g.expected_session_key r.session_key
    then some (row_of g key)
    else none

-- `INSERT INTO presence_sessions …`: the unique index refuses a second row.
unfoldable pub insert_lease : Row → Grant → String → Result StoreError CurrentPresenceLease
unfolding row_of
insert_lease none g key = ok (row_of g key)
insert_lease (some r) g key = err unique_index

abbrev pub is_claim : LeaseKind → Bool
is_claim claim = true
is_claim renew = false

-- After an update that met no row: a claim looks whether the row is still there, and inserts.
unfoldable pub insert_if_gone : Row → Row → Grant → String → Result StoreError CurrentPresenceLease
unfolding insert_lease
insert_if_gone (some r) at_insert g key = err presence_stale_session
insert_if_gone none at_insert g key =
    if is_claim g.kind then insert_lease at_insert g key else err presence_stale_session

-- `persistLease`, with the row that each of its three statements meets.
unfoldable pub persist_lease :
    Row → Row → Row → Grant → String → Result StoreError CurrentPresenceLease
unfolding update_current_lease insert_lease insert_if_gone
persist_lease at_update at_check at_insert g key = elim g.expected_fencing_token [
  | none ↦ insert_lease at_insert g key
  | some t ↦ elim (update_current_lease at_update g key) [
    | some r ↦ ok r
    | none ↦ insert_if_gone at_check at_insert g key
  ]
]

-- `DELETE … WHERE fencing_token = ? AND session_key = ?`.
unfoldable pub delete_lease : Row → PresenceReleaseDecision → Row
delete_lease none d = none
delete_lease (some r) noop = some r
delete_lease (some r) reject_release = some r
delete_lease (some r) (release t k) =
    if t == r.fencing_token && str_eq k r.session_key then none else some r
