-- ===== src/Examples/Groups.antt =====
-- A group whose convener is James, and what Eve and its members can do to it.
use aap_hermes.Prelude.{◌≡◌, refl, ◌&&◌, none, some, List, [], ◌∷◌, ◌==◌, if◌then◌else◌}
use aap_hermes.Adapter.Stores.{Conversation, find}
use aap_hermes.Adapter.Groups.{
  GroupInvitation, GroupMembershipUpdate, GroupLeave, GroupComplete, handle_group_membership_update,
}
use aap_hermes.Adapter.Groups.Authority.{
  updated, speaks_for, get-handle_group_membership_update, take_over,
}
use aap_hermes.Examples.Stores.{conversation_list, conversation_list-IsConversationStore}
use aap_hermes.Examples.World.{james, eve, me}

abbrev dinner : Conversation
dinner = record {
  conversation_id = "g1";
  purpose = "dinner";
  members = james ∷ me ∷ [];
  convener = james;
  accepted_at = "2026-01-01T00:00:00Z";
  last_message_at = none;
  name = "Dinner";
  goal = "";
  completed_at = none;
}

abbrev groups : List Conversation
groups = dinner ∷ []

abbrev eviction : GroupMembershipUpdate
eviction = record {
  conversation_id = "g1";
  members = eve ∷ me ∷ [];
  added = eve ∷ [];
  removed = james ∷ [];
  convener = eve;
  convener_changed_from = some james;
}

abbrev done : GroupComplete
done = record { conversation_id = "g1"; outcome = "booked" }

abbrev leaving : GroupLeave
leaving = record { conversation_id = "g1"; reason = "" }

abbrev invitation : GroupInvitation
invitation = record {
  conversation_id = "g2";
  convener = james;
  members = james ∷ me ∷ [];
  purpose = "lunch";
  name = "";
  goal = "";
}

dinner_known : find "g1" groups ≡ some dinner
unfolding find ◌==◌
dinner_known = refl

get-handle_group_membership_update_example :
    find "g1" (handle_group_membership_update conversation_list james (some eviction) groups).0 ≡ (
      if "g1" == "g1" && speaks_for james eviction (find "g1" groups)
      then updated eviction (some james) (find "g1" groups)
      else find "g1" groups)
get-handle_group_membership_update_example =
    get-handle_group_membership_update conversation_list conversation_list-IsConversationStore
      groups james "g1" eviction

take_over_example :
    find "g1" (handle_group_membership_update conversation_list eve (some eviction) groups).0
    ≡ some (record dinner { members = eve ∷ me ∷ []; convener = eve })
take_over_example =
    take_over conversation_list conversation_list-IsConversationStore groups eve "g1" eviction
      dinner james dinner_known refl refl refl
