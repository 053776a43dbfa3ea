-- ===== src/Examples/Meetings.antt =====
-- A group of two that is started, grows, ends and is left.
use aap_hermes.Tools.Address.{parse_user_address}
use aap_hermes.Prelude.{String, Bool, none, [], ◌∷◌, ◌==◌}
use aap_hermes.Adapter.Stores.{Conversation}
use aap_hermes.Adapter.Groups.{GroupComplete}
use aap_hermes.Tools.Groups.{aap_group_start, aap_group_complete}
use aap_hermes.Tools.Groups.Start
use aap_hermes.Tools.Groups.Start.{aap_group_start-IsSound}
use aap_hermes.Tools.Groups.Finish
use aap_hermes.Tools.Groups.Finish.{aap_group_complete-IsSound}
use aap_hermes.Commands.Groups.{group_add, group_leave}
use aap_hermes.Commands.Groups.Members.{
  IsSoundAdd, IsSoundLeave, group_add-IsSound, group_leave-IsSound,
}
use aap_hermes.Examples.Stores.{conversation_list, conversation_list-IsConversationStore, peer_list}
use aap_hermes.Examples.World.{james, eve, me, addresses}

-- a relay that James can be reached by
abbrev reaches : String → Bool
reaches peer = peer == james

-- a group of ours with James
abbrev meeting : Conversation
meeting = record {
  conversation_id = "c1";
  purpose = "lunch";
  members = me ∷ james ∷ [];
  convener = me;
  accepted_at = "now";
  last_message_at = none;
  name = "lunch";
  goal = "";
  completed_at = none;
}

abbrev ended : GroupComplete
ended = record { conversation_id = "c1"; outcome = "booked" }

aap_group_start-IsSound_example :
    Start.IsSound conversation_list conversation_list-IsConversationStore peer_list me addresses
      reaches
      (james ∷ [])
      "c1"
      "now"
      "lunch"
      ""
      ""
      []
      (aap_group_start conversation_list peer_list me addresses reaches
        (james ∷ [])
        "c1"
        "now"
        (james ∷ me ∷ [])
        "lunch"
        ""
        ""
        [])
aap_group_start-IsSound_example =
    aap_group_start-IsSound conversation_list conversation_list-IsConversationStore peer_list me
      addresses reaches (james ∷ []) "c1" "now" "lunch" "" "" [] (james ∷ me ∷ [])

aap_group_complete-IsSound_example :
    Finish.IsSound conversation_list conversation_list-IsConversationStore me reaches "later" ended
      (meeting ∷ [])
      (aap_group_complete conversation_list me reaches "later" ended (meeting ∷ []))
aap_group_complete-IsSound_example =
    aap_group_complete-IsSound conversation_list conversation_list-IsConversationStore me reaches
      "later" ended (meeting ∷ [])

group_add-IsSound_example :
    IsSoundAdd conversation_list conversation_list-IsConversationStore reaches me
      (meeting ∷ [])
      "c1"
      (parse_user_address addresses eve)
      (group_add conversation_list reaches me addresses ("c1" ∷ eve ∷ []) (meeting ∷ []))
group_add-IsSound_example =
    group_add-IsSound conversation_list conversation_list-IsConversationStore reaches me
      (meeting ∷ []) addresses "c1" eve []

group_leave-IsSound_example :
    IsSoundLeave conversation_list conversation_list-IsConversationStore reaches me
      (meeting ∷ [])
      "c1"
      (group_leave conversation_list reaches me ("c1" ∷ "bye" ∷ []) (meeting ∷ []))
group_leave-IsSound_example =
    group_leave-IsSound conversation_list conversation_list-IsConversationStore reaches me
      (meeting ∷ []) "c1" ("bye" ∷ [])
