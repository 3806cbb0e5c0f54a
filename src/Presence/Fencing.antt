-- ===== src/Presence/Fencing.antt =====
-- Fencing of presence sessions: who may write the lease, and with which token
-- (decidePresenceLease of src/domain/presence/presence.ts over the statements of
-- src/adapters/d1/presence-repository.ts).
use nexusos_agentic.Base.{◌+◌, ◌≡◌, ◌≤◌, ◌<◌, ◌⊎◌, true, none, some, arith, eq_iff, ok, err}
use nexusos_agentic.Presence.{
  CurrentPresenceLease, Grant, LeaseInput, granted, claim, renew, decide_presence_lease,
}
use nexusos_agentic.Presence.Store.{Row, StoreError, persist_lease}

-- Why a live lease may be written by a request.
pub record IsEntitled (i : LeaseInput) (c : CurrentPresenceLease) : Type 0 where
  pub reason :
      (c.expires_at_epoch ≤ i.now_epoch)
      ⊎ ((i.fencing_token ≡ some c.fencing_token) × (i.session_key ≡ c.session_key))
      ⊎ ((i.takeover ≡ true) × (i.fencing_token ≡ none))

-- What the grant of a lease that is held promises.
pub record IsFenced (i : LeaseInput) (c : CurrentPresenceLease) (g : Grant) : Type 0 where
  pub entitled : IsEntitled i c
  pub expects_token : g.expected_fencing_token ≡ some c.fencing_token
  pub expects_session : g.expected_session_key ≡ some c.session_key
  pub token :
      ((g.kind ≡ renew) × (g.fencing_token ≡ c.fencing_token))
      ⊎ ((g.kind ≡ claim) × (g.fencing_token ≡ c.fencing_token + 1))
  pub later : i.now_epoch < g.expires_at_epoch
  pub bounded : g.expires_at_epoch ≤ i.now_epoch + 300

-- A decision that grants a lease over a current one is entitled to it: the lease has expired, or
-- the request holds its token and session, or it takes over without a token. It expects the row it
-- has read, and its token is that row's on a renewal and the next one on a claim. The new lease ends
-- later than now, by 300 seconds at most.
pub decide-IsFenced :
    (i : LeaseInput) (c : CurrentPresenceLease) (g : Grant)
    → i.current ≡ some c
    → decide_presence_lease i ≡ ok (granted g)
    → IsFenced i c g
unfolding decide_presence_lease
decide-IsFenced i c g h e = ground (arith, eq_iff i.session_key c.session_key)

-- Of two granted requests that read the same row, where the first claims it and has written it, the
-- second to write is refused if its update meets the first one's row and its check after that finds
-- some row still there, whichever that is, and whatever an insert would meet.
pub second_claim_refused :
    (i j : LeaseInput) (c : CurrentPresenceLease) (g h : Grant) (r later : CurrentPresenceLease)
    (at_check at_insert row : Row)
    → i.current ≡ some c
    → j.current ≡ some c
    → decide_presence_lease i ≡ ok (granted g)
    → decide_presence_lease j ≡ ok (granted h)
    → g.kind ≡ claim
    → persist_lease (some c) at_check at_insert g i.session_key ≡ ok r
    → persist_lease (some r) (some later) row h j.session_key
      ≡ err StoreError.presence_stale_session
unfolding persist_lease
second_claim_refused i j c g h r later at_check at_insert row ci cj di dj k p = ground (
  arith,
  decide-IsFenced i c g ci di,
  decide-IsFenced j c h cj dj,
  eq_iff c.session_key c.session_key,
  eq_iff c.session_key r.session_key,
)
