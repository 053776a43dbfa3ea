-- ===== src/Adapter/Groups.antt =====
-- adapter.py: the handlers of the group payloads. A handler returns the conversations and the
-- notices that it mirrors. A payload that cannot be decoded is `none`.
pub mod Authority
use aap_hermes.Prelude.{
  String, Bool, true, false, Option, none, some, List, [], ◌∷◌, ◌&&◌, ◌||◌, not, ◌==◌,
  if◌then◌else◌, map, ◌++◌,
}
use aap_hermes.Prelude.Text.{is_empty}
use aap_hermes.Prelude.Text.Joined.{concat, join}
use aap_hermes.Prelude.Dict.{contains}
use aap_hermes.Adapter.Stores.{Conversation, ConversationStore, Notice, inbound_notice}
use aap_hermes.Adapter.GroupNote.{length, show, is_nil}

pub record GroupInvitation : Type 0 where
  pub conversation_id : String
  pub convener : String
  pub members : List String
  pub purpose : String
  pub name : String
  pub goal : String

pub record GroupMembershipUpdate : Type 0 where
  pub conversation_id : String
  pub members : List String
  pub added : List String
  pub removed : List String
  pub convener : String
  pub convener_changed_from : Option String

pub record GroupLeave : Type 0 where
  pub conversation_id : String
  pub reason : String

pub record GroupComplete : Type 0 where
  pub conversation_id : String
  pub outcome : String

abbrev pub or_else : String → String → String
or_else s d = if is_empty s then d else s

member_lines : List String → List String
member_lines = map (λ m. concat ("  • " ∷ m ∷ []))

convener_text : GroupInvitation → Option String → String
convener_text invite none = invite.convener
convener_text invite (some l) =
    if is_empty l then invite.convener else (concat (l ∷ " (" ∷ invite.convener ∷ ")" ∷ []))

unfoldable pub render_group_invitation_accepted : GroupInvitation → Option String → String
unfolding convener_text member_lines concat join show
render_group_invitation_accepted invite label =
    (concat (
      "👥 Group invitation auto-accepted from "
      ∷ (convener_text invite label)
      ∷ "\n   conversation: "
      ∷ invite.conversation_id
      ∷ "\n\nPurpose: "
      ∷ invite.purpose
      ∷ "\n\nMembers ("
      ∷ (show (length invite.members))
      ∷ "):\n"
      ∷ (join "\n" (member_lines invite.members))
      ∷ "\n\nTo leave this group:\n  /aap group leave "
      ∷ invite.conversation_id
      ∷ []))

abbrev or_blank : Option String → String
or_blank none = ""
or_blank (some s) = s

changed : GroupMembershipUpdate → Option String → List String
changed update none = []
changed update (some from) =
    if is_empty from then [] else (concat ("convener: " ∷ from ∷ " → " ∷ update.convener ∷ [])) ∷ []

named : String → List String → List String
named verb peers =
    let listed = join ", " peers in if is_empty listed then [] else concat (verb ∷ listed ∷ []) ∷ []

unfoldable pub update_message : GroupMembershipUpdate → String
unfolding changed named concat join
update_message update = join " — " (
    (concat ("👥 Group " ∷ update.conversation_id ∷ " membership updated" ∷ []))
    ∷ (named "added: " update.added
        ++ (named "removed: " update.removed ++ changed update update.convener_changed_from)))

unfoldable pub leave_message : String → GroupLeave → String
unfolding concat
leave_message iss leave =
    let reason_str =
      if is_empty leave.reason then "" else (concat (" (" ∷ leave.reason ∷ ")" ∷ [])) in
    (concat ("👤 " ∷ iss ∷ " left group " ∷ leave.conversation_id ∷ reason_str ∷ []))

unfoldable pub complete_message : String → String → GroupComplete → String
unfolding concat
complete_message iss display complete =
    (concat (
      "🎯 Group '" ∷ display ∷ "' goal completed by " ∷ iss ∷ "\n\nOutcome: " ∷ complete.outcome
      ∷ []))

-- `envelope.iss != conv.convener and envelope.iss != update.convener`, negated
unfoldable pub may_update : String → GroupMembershipUpdate → Option Conversation → Bool
may_update iss update none = false
may_update iss update (some conv) = iss == conv.convener || iss == update.convener

unfoldable pub is_member : String → Option Conversation → Bool
is_member iss none = false
is_member iss (some conv) = contains conv.members iss

unfoldable pub mark_completed : String → String → List Conversation → List Conversation
mark_completed id now [] = []
mark_completed id now (c ∷ rest) =
    (if c.conversation_id == id then record c { completed_at = some now } else c)
    ∷ mark_completed id now rest

module _ (C : ConversationStore) where
  abbrev pub Handled : Type 0
  Handled = C.State × List Notice

  -- `related`: the sender has a relationship with us; `label`: its contact's name, if it is bound.
  unfoldable pub handle_group_invitation :
      Bool → Option String → String → String → Option GroupInvitation → C.State → Handled
  handle_group_invitation related label now iss none s = (s, [])
  handle_group_invitation related label now iss (some invite) s =
      if related
      then (
        C.record_conversation
            (record {
              conversation_id = invite.conversation_id;
              purpose = invite.purpose;
              members = invite.members;
              convener = invite.convener;
              accepted_at = now;
              last_message_at = none;
              name = or_else invite.name invite.purpose;
              goal = invite.goal;
              completed_at = none;
            })
            s,
        inbound_notice iss (render_group_invitation_accepted invite label) ∷ [],
      )
      else (s, [])

  -- The new convener is recorded if the update names the old one.
  hand_off : GroupMembershipUpdate → C.State → Option String → Option Conversation → C.State
  hand_off update s none conv = s
  hand_off update s (some from) none = s
  hand_off update s (some from) (some conv) =
      C.record_conversation (record conv { convener = update.convener }) s

  unfoldable pub apply_update : GroupMembershipUpdate → C.State → C.State
  unfolding hand_off
  apply_update update s =
      let s' = C.update_members update.conversation_id update.members s in
      hand_off update s' update.convener_changed_from (C.get update.conversation_id s')

  unfoldable pub handle_group_membership_update :
      String → Option GroupMembershipUpdate → C.State → Handled
  unfolding apply_update may_update
  handle_group_membership_update iss none s = (s, [])
  handle_group_membership_update iss (some update) s =
      if may_update iss update (C.get update.conversation_id s)
      then (apply_update update s, inbound_notice iss (update_message update) ∷ [])
      else (s, [])

  unfoldable pub handle_group_leave : String → Option GroupLeave → C.State → Handled
  unfolding is_member
  handle_group_leave iss none s = (s, [])
  handle_group_leave iss (some leave) s =
      if is_member iss (C.get leave.conversation_id s)
      then (
        C.remove_member leave.conversation_id iss s,
        inbound_notice iss (leave_message iss leave) ∷ [],
      )
      else (s, [])

  complete_known : String → String → GroupComplete → C.State → Option Conversation → Handled
  complete_known now iss complete s none = (s, [])
  complete_known now iss complete s (some conv) =
      if iss == conv.convener
      then (
        C.set_conversations (mark_completed complete.conversation_id now (C.conversations s)) s,
        inbound_notice iss (complete_message iss (C.display_name conv) complete) ∷ [],
      )
      else (s, [])

  unfoldable pub handle_group_complete : String → String → Option GroupComplete → C.State → Handled
  unfolding complete_known mark_completed
  handle_group_complete now iss none s = (s, [])
  handle_group_complete now iss (some complete) s =
      complete_known now iss complete s (C.get complete.conversation_id s)
