-- ===== src/Presence.antt =====
-- Presence sessions: one fenced lease for each principal (src/contracts/presence.ts and
-- src/domain/presence/presence.ts).
pub mod Store
pub mod Fencing
pub mod Rooms
pub mod Tests
use nexusos_agentic.Base.{
  ℕ, ◌+◌, String, Bool, true, false, not, ◌&&◌, ◌||◌, Option, none, some, List, str_eq, ltb, leb,
  ◌==◌, if◌then◌else◌, all, is_some, Result, ok, err, ◌>>=◌, ◌>>◌, throw_if,
}
use nexusos_agentic.Text.{units, str_length}

pub data PresenceStatus : Type 0 where
  available focus dnd : PresenceStatus

pub data PresenceDisplayStatus : Type 0 where
  shown : PresenceStatus → PresenceDisplayStatus
  offline : PresenceDisplayStatus

abbrev pub default_presence_ttl_seconds : ℕ
default_presence_ttl_seconds = 60

pub record CurrentPresenceLease : Type 0 where
  pub session_key : String
  pub fencing_token : ℕ
  pub expires_at_epoch : ℕ

pub data LeaseKind : Type 0 where
  claim renew : LeaseKind

-- The lease decision that is no rejection.
pub record Grant : Type 0 where
  pub kind : LeaseKind
  pub fencing_token : ℕ
  pub expires_at_epoch : ℕ
  pub expected_fencing_token : Option ℕ
  pub expected_session_key : Option String

pub data PresenceLeaseDecision : Type 0 where
  granted : Grant → PresenceLeaseDecision
  reject_stale_session : PresenceLeaseDecision

pub data PresenceReleaseDecision : Type 0 where
  release : ℕ → String → PresenceReleaseDecision
  noop reject_release : PresenceReleaseDecision

pub data PresenceError : Type 0 where
  presence_invalid_session presence_invalid_status presence_invalid_room : PresenceError

-- `[A-Za-z0-9_-]`.
abbrev key_unit : ℕ → Bool
key_unit c =
    (leb b'A' c && leb c b'Z')
    || (leb b'a' c && leb c b'z')
    || (leb b'0' c && leb c b'9')
    || c == b'_'
    || c == b'-'

-- `assertPresenceSessionKey` on a value that is a string.
unfoldable pub assert_presence_session_key : String → Result PresenceError (Unit {0})
unfolding str_length units
assert_presence_session_key key =
    throw_if (ltb (str_length key) 16 || ltb 128 (str_length key) || not (all key_unit (units key)))
      presence_invalid_session

unfoldable pub compute_presence_expiry : ℕ → ℕ → Result PresenceError ℕ
compute_presence_expiry now_epoch ttl_seconds =
    if ltb ttl_seconds 1 || ltb 300 ttl_seconds
    then err presence_invalid_session
    else ok (now_epoch + ttl_seconds)

-- `input.takeover`, `input.fencingToken` and `input.ttlSeconds` may be left out.
pub record LeaseInput : Type 0 where
  pub current : Option CurrentPresenceLease
  pub session_key : String
  pub fencing_token : Option ℕ
  pub takeover : Bool
  pub now_epoch : ℕ
  pub ttl_seconds : Option ℕ

abbrev pub default_to : ℕ → Option ℕ → ℕ
default_to d none = d
default_to d (some n) = n

abbrev pub same_token : Option ℕ → ℕ → Bool
same_token none t = false
same_token (some s) t = s == t

-- The decision once the expiry is known, without a current lease and with one.
unfoldable pub decide_free : ℕ → PresenceLeaseDecision
decide_free expires = granted (record {
  kind = claim;
  fencing_token = 1;
  expires_at_epoch = expires;
  expected_fencing_token = none;
  expected_session_key = none;
})

unfoldable pub decide_held : LeaseInput → CurrentPresenceLease → ℕ → PresenceLeaseDecision
decide_held input current expires =
    let next = λ (k : LeaseKind) (t : ℕ). granted (record {
      kind = k;
      fencing_token = t;
      expires_at_epoch = expires;
      expected_fencing_token = some current.fencing_token;
      expected_session_key = some current.session_key;
    }) in
    if leb current.expires_at_epoch input.now_epoch
    then next claim (current.fencing_token + 1)
    else if same_token input.fencing_token current.fencing_token
        && str_eq input.session_key current.session_key
    then next renew current.fencing_token
    else if input.takeover && not (is_some input.fencing_token)
    then next claim (current.fencing_token + 1)
    else reject_stale_session

unfoldable pub decide_presence_lease : LeaseInput → Result PresenceError PresenceLeaseDecision
unfolding decide_free decide_held compute_presence_expiry
decide_presence_lease input = do
  expires ←
      compute_presence_expiry input.now_epoch
        (default_to default_presence_ttl_seconds input.ttl_seconds)
  ok (elim input.current [
    | none ↦ decide_free expires
    | some current ↦ decide_held input current expires
  ])

unfoldable pub decide_presence_release :
    Option CurrentPresenceLease → String → ℕ → PresenceReleaseDecision
decide_presence_release none session_key fencing_token = noop
decide_presence_release (some current) session_key fencing_token =
    if not (str_eq session_key current.session_key) || not (fencing_token == current.fencing_token)
    then reject_release
    else release current.fencing_token current.session_key

unfoldable pub derive_presence_status : Option PresenceStatus → Option ℕ → ℕ → PresenceDisplayStatus
derive_presence_status none expires now_epoch = offline
derive_presence_status (some s) none now_epoch = offline
derive_presence_status (some s) (some e) now_epoch = if leb e now_epoch then offline else shown s

pub data RoomKind : Type 0 where
  direct room handoff : RoomKind

pub data RoomStatus : Type 0 where
  room_active room_archived : RoomStatus

pub data SeatStatus : Type 0 where
  seat_active seat_left seat_removed : SeatStatus

abbrev pub is_room : Option RoomKind → Bool
is_room (some room) = true
is_room _ = false

abbrev pub is_room_active : Option RoomStatus → Bool
is_room_active (some room_active) = true
is_room_active _ = false

abbrev pub is_seat_active : Option SeatStatus → Bool
is_seat_active (some seat_active) = true
is_seat_active _ = false

-- The room to publish, and whether the requested one was cleared.
unfoldable pub resolve_publishable_presence_room :
    Option String
    → Option RoomKind
    → Option RoomStatus
    → Option SeatStatus
    → Result PresenceError (Option String × Bool)
resolve_publishable_presence_room none kind status seat = ok (none, false)
resolve_publishable_presence_room (some id) kind status seat = do
  throw_if (not (is_room kind)) presence_invalid_room
  (if not (is_room_active status) || not (is_seat_active seat)
      then ok (none, true)
      else ok (some id, false))

abbrev is_offline : PresenceDisplayStatus → Bool
is_offline offline = true
is_offline (shown s) = false

unfoldable pub can_reveal_presence_room :
    PresenceDisplayStatus
    → Option String
    → Option RoomStatus
    → Option SeatStatus
    → Option SeatStatus
    → Bool
can_reveal_presence_room display room_id status subject observer =
    not (is_offline display)
    && is_some room_id
    && is_room_active status
    && is_seat_active subject
    && is_seat_active observer
