-- ===== src/Collaboration/Tests.antt =====
-- The rules of membership at concrete conversations.
use nexusos_agentic.Base.{◌≡◌, ◌≤◌, ◌↔◌, refl, List, [], ◌∷◌, ◌++◌, arith, ok, err}
use nexusos_agentic.Collaboration.{
  room, conversation_active, owner, active, left, requires_owner, MemberChange,
  assert_can_change_conversation_member,
}
use nexusos_agentic.Collaboration.Laws.{
  Membership, active_owners, change_of, change_keeps_owner, IsAllowed, change_iff,
}

abbrev ann : Membership
ann = record { principal_id = "ann"; role = owner; status = active }

abbrev bob : Membership
bob = record { principal_id = "bob"; role = owner; status = active }

abbrev two_owners : List Membership
two_owners = ann ∷ bob ∷ []

ann_leaves :
    assert_can_change_conversation_member
      (change_of room conversation_active owner "ann" ann owner left (active_owners two_owners))
    ≡ ok tt
unfolding assert_can_change_conversation_member change_of active_owners
ann_leaves = refl

last_owner_stays :
    assert_can_change_conversation_member
      (change_of room conversation_active owner "ann" ann owner left (active_owners (ann ∷ [])))
    ≡ err requires_owner
unfolding assert_can_change_conversation_member change_of active_owners
last_owner_stays = refl

change_keeps_owner_example :
    1 ≤ active_owners ([] ++ record ann { role = owner; status = left } ∷ bob ∷ [])
unfolding active_owners
change_keeps_owner_example =
    change_keeps_owner room conversation_active owner "ann" [] (bob ∷ []) ann owner left
      (omega arith) ann_leaves

abbrev leaving : MemberChange
leaving = change_of room conversation_active owner "ann" ann owner left 2

change_iff_example : (assert_can_change_conversation_member leaving ≡ ok tt) ↔ IsAllowed leaving
change_iff_example = change_iff leaving
