-- ===== src/Presence/Tests.antt =====
-- Presence at concrete sessions.
use nexusos_agentic.Base.{ℕ, ◌≡◌, refl, String, false, Option, none, some, ok, err}
use nexusos_agentic.Presence.{
  CurrentPresenceLease, Grant, LeaseInput, granted, claim, decide_presence_lease,
}
use nexusos_agentic.Presence.Store.{StoreError, persist_lease}
use nexusos_agentic.Presence.Fencing.{IsFenced, decide-IsFenced, second_claim_refused}

-- An expired lease, and two sessions that both want it.
abbrev old : CurrentPresenceLease
old = record { session_key = "session-of-monday"; fencing_token = 4; expires_at_epoch = 100 }

abbrev wish : String → LeaseInput
wish key = record {
  current = some old;
  session_key = key;
  fencing_token = none;
  takeover = false;
  now_epoch = 150;
  ttl_seconds = none;
}

abbrev grant : Grant
grant = record {
  kind = claim;
  fencing_token = 5;
  expires_at_epoch = 210;
  expected_fencing_token = some 4;
  expected_session_key = some "session-of-monday";
}

granted_both :
    (decide_presence_lease (wish "tab-one-0123456789") ≡ ok (granted grant))
    × (decide_presence_lease (wish "tab-two-0123456789") ≡ ok (granted grant))
unfolding decide_presence_lease
granted_both = (refl, refl)

abbrev written : CurrentPresenceLease
written = record { session_key = "tab-one-0123456789"; fencing_token = 5; expires_at_epoch = 210 }

first_written :
    persist_lease (some old) (some old) (some old) grant "tab-one-0123456789" ≡ ok written
unfolding persist_lease
first_written = refl

decide-IsFenced_example : IsFenced (wish "tab-one-0123456789") old grant
decide-IsFenced_example = decide-IsFenced (wish "tab-one-0123456789") old grant refl granted_both.0

second_claim_refused_example :
    persist_lease (some written) (some old) none grant "tab-two-0123456789"
    ≡ err StoreError.presence_stale_session
second_claim_refused_example =
    second_claim_refused (wish "tab-one-0123456789") (wish "tab-two-0123456789") old grant grant
      written old (some old) (some old) none refl refl granted_both.0 granted_both.1 refl
      first_written

abbrev lobby : Option String
lobby = some "lobby"

abbrev expiry : Option ℕ
expiry = some 9
