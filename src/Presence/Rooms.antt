-- ===== src/Presence/Rooms.antt =====
-- Which room a session publishes and who sees it (resolvePublishablePresenceRoom,
-- derivePresenceStatus and canRevealPresenceRoom of src/domain/presence/presence.ts).
use nexusos_agentic.Base.{
  ℕ, ◌≡◌, ◌≢◌, ◌<◌, ◌⊎◌, ◌↔◌, refl, String, true, false, Option, none, some, arith, ok, err,
}
use nexusos_agentic.Presence.{
  PresenceStatus, RoomKind, room, RoomStatus, room_active, SeatStatus, seat_active,
  resolve_publishable_presence_room, can_reveal_presence_room, derive_presence_status,
  presence_invalid_room,
}

-- A session shows its room to an observer exactly when it is live, it published a room, the room is
-- active and both of them are active members of it.
pub reveal_iff :
    (s : Option PresenceStatus) (e : Option ℕ) (now : ℕ) (id : Option String)
    (r : Option RoomStatus) (subject observer : Option SeatStatus)
    → (can_reveal_presence_room (derive_presence_status s e now) id r subject observer ≡ true) ↔ (
        (s ≢ none)
        × ((t : ℕ) × (e ≡ some t) × (now < t))
        × (id ≢ none)
        × (r ≡ some room_active)
        × (subject ≡ some seat_active)
        × (observer ≡ some seat_active))
unfolding can_reveal_presence_room derive_presence_status
reveal_iff none e now id r subject observer = ((λ h. ground arith), (λ h. ground arith))
reveal_iff (some s) none now id r subject observer = ((λ h. ground arith), (λ h. ground arith))
reveal_iff (some s) (some t) now id r subject observer = (
  (λ h. (
    ground arith,
    (t, refl, ground arith),
    ground arith,
    ground arith,
    ground arith,
    ground arith,
  )),
  (λ h. ground arith),
)

-- A requested room is published exactly when it is an active room of which the session's principal
-- is an active member; it is refused when it is no room; otherwise it is cleared.
pub resolve_cases :
    (id : String) (k : Option RoomKind) (r : Option RoomStatus) (seat : Option SeatStatus)
    → ((resolve_publishable_presence_room (some id) k r seat ≡ ok (some id, false))
        ↔ ((k ≡ some room) × (r ≡ some room_active) × (seat ≡ some seat_active)))
      × ((resolve_publishable_presence_room (some id) k r seat ≡ err presence_invalid_room)
          ↔ (k ≢ some room))
      × ((resolve_publishable_presence_room (some id) k r seat ≡ ok (none, true))
          ↔ ((k ≡ some room) × ((r ≢ some room_active) ⊎ (seat ≢ some seat_active))))
unfolding resolve_publishable_presence_room
resolve_cases id k r seat = ground arith
