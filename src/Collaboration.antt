-- ===== src/Collaboration.antt =====
-- Who may change the members and the pins of a conversation
-- (src/contracts/collaboration.ts, src/domain/collaboration/membership.ts).
pub mod Laws
pub mod Tests
use nexusos_agentic.Base.{
  ℕ, String, Bool, true, false, not, ◌&&◌, ◌||◌, str_eq, leb, if◌then◌else◌, Result, ok, ◌>>◌,
  throw_if,
}

pub data ConversationKind : Type 0 where
  direct room handoff : ConversationKind

pub data ConversationStatus : Type 0 where
  conversation_active conversation_archived : ConversationStatus

pub data MembershipRole : Type 0 where
  owner member observer : MembershipRole

pub data MembershipStatus : Type 0 where
  active left removed : MembershipStatus

pub data LifecycleError : Type 0 where
  archived_error owner_required requires_owner membership_immutable read_only : LifecycleError

abbrev pub role_eq : MembershipRole → MembershipRole → Bool
role_eq owner owner = true
role_eq member member = true
role_eq observer observer = true
role_eq _ _ = false

abbrev pub is_active : MembershipStatus → Bool
is_active active = true
is_active _ = false

abbrev pub is_left : MembershipStatus → Bool
is_left left = true
is_left _ = false

abbrev is_archived : ConversationStatus → Bool
is_archived conversation_active = false
is_archived conversation_archived = true

abbrev is_direct : ConversationKind → Bool
is_direct direct = true
is_direct _ = false

unfoldable pub require_active_conversation : ConversationStatus → Result LifecycleError (Unit {0})
require_active_conversation status = throw_if (is_archived status) archived_error

unfoldable pub require_mutable_membership : ConversationKind → Result LifecycleError (Unit {0})
require_mutable_membership kind = throw_if (is_direct kind) membership_immutable

unfoldable pub require_owner : MembershipRole → Result LifecycleError (Unit {0})
require_owner role = throw_if (not (role_eq role owner)) owner_required

unfoldable pub assert_can_add_conversation_member :
    ConversationKind → ConversationStatus → MembershipRole → Result LifecycleError (Unit {0})
unfolding require_active_conversation require_mutable_membership require_owner
assert_can_add_conversation_member kind status actor_role = do
  require_active_conversation status
  require_mutable_membership kind
  require_owner actor_role

pub record MemberChange : Type 0 where
  pub kind : ConversationKind
  pub conversation_status : ConversationStatus
  pub actor_role : MembershipRole
  pub actor_id : String
  pub target_id : String
  pub target_role : MembershipRole
  pub target_status : MembershipStatus
  pub next_role : MembershipRole
  pub next_status : MembershipStatus
  -- `activeOwnerCount` counts the target before the change.
  pub active_owner_count : ℕ

unfoldable pub self_leaving : MemberChange → Bool
self_leaving c =
    str_eq c.actor_id c.target_id
    && is_active c.target_status
    && is_left c.next_status
    && role_eq c.next_role c.target_role

unfoldable pub removes_active_owner : MemberChange → Bool
removes_active_owner c =
    role_eq c.target_role owner
    && is_active c.target_status
    && (not (role_eq c.next_role owner) || not (is_active c.next_status))

unfoldable pub assert_can_change_conversation_member :
    MemberChange → Result LifecycleError (Unit {0})
unfolding require_active_conversation require_mutable_membership require_owner self_leaving
    removes_active_owner
assert_can_change_conversation_member c = do
  require_active_conversation c.conversation_status
  require_mutable_membership c.kind
  if self_leaving c then ok tt else require_owner c.actor_role
  throw_if (removes_active_owner c && leb c.active_owner_count 1) requires_owner

unfoldable pub assert_can_pin_conversation_message :
    ConversationStatus → MembershipRole → Result LifecycleError (Unit {0})
unfolding require_active_conversation
assert_can_pin_conversation_message status actor_role = do
  require_active_conversation status
  throw_if (role_eq actor_role observer) read_only

unfoldable pub assert_can_unpin_conversation_message :
    ConversationStatus → MembershipRole → String → String → Result LifecycleError (Unit {0})
unfolding require_active_conversation
assert_can_unpin_conversation_message status actor_role actor_id pinned_by = do
  require_active_conversation status
  throw_if (role_eq actor_role observer) read_only
  throw_if (not (role_eq actor_role owner) && not (str_eq actor_id pinned_by)) owner_required
