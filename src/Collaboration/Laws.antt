-- ===== src/Collaboration/Laws.antt =====
-- A conversation keeps an owner, and only an owner changes others
-- (src/domain/collaboration/membership.ts).
use nexusos_agentic.Base.{
  ℕ, suc, ◌+◌, ◌≡◌, ◌≢◌, ◌≤◌, ◌⊎◌, ◌↔◌, String, Bool, ◌&&◌, List, [], ◌∷◌, ◌++◌, arith, eq_iff, ok,
  if◌then◌else◌,
}
use nexusos_agentic.Collaboration.{
  ConversationKind, direct, ConversationStatus, conversation_active, MembershipRole, owner, member,
  MembershipStatus, active, left, role_eq, is_active, MemberChange,
  assert_can_change_conversation_member, assert_can_unpin_conversation_message,
}

-- A row of `conversation_members`.
pub record Membership : Type 0 where
  pub principal_id : String
  pub role : MembershipRole
  pub status : MembershipStatus

abbrev pub is_active_owner : Membership → Bool
is_active_owner m = role_eq m.role owner && is_active m.status

unfoldable pub active_owners : List Membership → ℕ
active_owners [] = 0
active_owners (m ∷ ms) = let rest = active_owners ms in if is_active_owner m then suc rest else rest

active_owners-append :
    (xs ys : List Membership) → active_owners (xs ++ ys) ≡ active_owners xs + active_owners ys
unfolding active_owners
active_owners-append [] ys = omega arith
active_owners-append (m ∷ xs) ys = ground (arith, active_owners-append xs ys)

-- The change that an actor asks for, at the rows `before ++ target ∷ after` of the conversation.
unfoldable pub change_of :
    ConversationKind
    → ConversationStatus
    → MembershipRole
    → String
    → Membership
    → MembershipRole
    → MembershipStatus
    → ℕ
    → MemberChange
change_of kind status actor_role actor_id target next_role next_status owners = record {
  kind = kind;
  conversation_status = status;
  actor_role = actor_role;
  actor_id = actor_id;
  target_id = target.principal_id;
  target_role = target.role;
  target_status = target.status;
  next_role = next_role;
  next_status = next_status;
  active_owner_count = owners;
}

-- A conversation with an active owner still has one after every change of a member that the code
-- accepts, when it counts the active owners among the rows: whoever asks, and whatever role and
-- status the member takes on.
pub change_keeps_owner :
    (kind : ConversationKind) (status : ConversationStatus) (actor_role : MembershipRole)
    (actor_id : String) (before after : List Membership) (target : Membership)
    (next_role : MembershipRole) (next_status : MembershipStatus)
    → 1 ≤ active_owners (before ++ target ∷ after)
    → assert_can_change_conversation_member (
        change_of kind status actor_role actor_id target next_role next_status
          (active_owners (before ++ target ∷ after)))
      ≡ ok tt
    → 1 ≤ active_owners (before ++ record target { role = next_role; status = next_status } ∷ after)
unfolding assert_can_change_conversation_member change_of active_owners
change_keeps_owner kind status actor_role actor_id before after target next_role next_status h e =
    ground (
      arith,
      active_owners-append before (target ∷ after),
      active_owners-append before
          (record target { role = next_role; status = next_status } ∷ after),
    )

-- What a change of membership asks for, in the words of the rules.
pub record IsAllowed (c : MemberChange) : Type 0 where
  pub unarchived : c.conversation_status ≡ conversation_active
  pub mutable : c.kind ≢ direct
  pub by_owner_or_self :
      (c.actor_role ≡ owner)
      ⊎ ((c.actor_id ≡ c.target_id)
          × (c.target_status ≡ active)
          × (c.next_status ≡ left)
          × (c.next_role ≡ c.target_role))
  pub owner_remains :
      (2 ≤ c.active_owner_count)
      ⊎ (c.target_role ≢ owner)
      ⊎ (c.target_status ≢ active)
      ⊎ ((c.next_role ≡ owner) × (c.next_status ≡ active))

-- A change of a member is accepted exactly when the conversation is active and not direct, the
-- actor is an owner or an active member who leaves with the role unchanged, and it leaves an active
-- owner: there are two, or the target is not an active owner, or stays one.
pub change_iff :
    (c : MemberChange) → (assert_can_change_conversation_member c ≡ ok tt) ↔ IsAllowed c
unfolding assert_can_change_conversation_member
change_iff c = (
  (λ e. record {
    unarchived = ground arith;
    mutable = λ d. ground arith;
    by_owner_or_self = ground (arith, eq_iff c.actor_id c.target_id);
    owner_remains = ground arith;
  }),
  (λ a. ground (arith, eq_iff c.actor_id c.target_id)),
)

-- A pin may be removed exactly by an owner of the active conversation, or by the member who set it.
pub unpin_iff :
    (status : ConversationStatus) (role : MembershipRole) (actor pinned_by : String)
    → (assert_can_unpin_conversation_message status role actor pinned_by ≡ ok tt) ↔ (
        (status ≡ conversation_active) × ((role ≡ owner) ⊎ ((role ≡ member) × (actor ≡ pinned_by))))
unfolding assert_can_unpin_conversation_message
unpin_iff status role actor pinned_by = ground (arith, eq_iff actor pinned_by)
