-- ===== src/Commands/Groups.antt =====
-- commands.py: the `/aap group` commands that change a group: `_group_start`, `_group_leave`,
-- `_group_add` and `_group_remove`.
pub mod Members
use aap_hermes.Prelude.{
  ℕ, ◌+◌, String, Bool, true, false, not, Option, none, some, List, [], ◌∷◌, ◌++◌, ◌&&◌, ◌==◌, ltb,
  is_some, map, if◌then◌else◌,
}
use aap_hermes.Prelude.Text.{◌<>◌}
use aap_hermes.Prelude.Text.Joined.{join}
use aap_hermes.Prelude.Dict.{contains}
use aap_hermes.Adapter.Stores.{Conversation, ConversationStore, RelationshipStore}
use aap_hermes.Adapter.GroupNote.{length, is_nil}
use aap_hermes.Adapter.Groups.{GroupInvitation, GroupMembershipUpdate, GroupLeave}
use aap_hermes.Tools.Address.{Addresses, parse_user_address}
use aap_hermes.Tools.Groups.{
  others, parse_all, Parsed, all, invalid, unrelated, invitation_to, deliver_all,
}

-- The arguments before the first `--`, and the text after it.
unfoldable pub split_at_dash : List String → List String × Option (List String)
split_at_dash [] = ([], none)
split_at_dash (a ∷ args) =
    let (members, rest) = split_at_dash args in
    if a == "--" then ([], some args) else (a ∷ members, rest)

-- `_split_members_purpose`
unfoldable pub split_members_purpose : List String → List String × String
unfolding split_at_dash join
split_members_purpose args =
    let (members, rest) = split_at_dash args in
    (members, elim rest [ none ↦ "Group conversation" | some words ↦ join " " words ])

-- What a command answers.
pub data Reply : Type 0 where
  usage : Reply
  invalid_address : String → Reply
  too_many : ℕ → Reply
  unknown_conversation : String → Reply
  not_convener : Reply
  already_member : String → Reply
  not_member : String → Reply
  created : String → List (String × Bool) → List String → Reply
  left_group : List (String × Bool) → Option String → Reply
  added : String → List (String × Bool) → Reply
  removed : String → List (String × Bool) → Reply

-- The update that a change of the members broadcasts.
abbrev pub update_of :
    String → String → List String → List String → List String → GroupMembershipUpdate
update_of id convener members new gone = record {
  conversation_id = id;
  members = members;
  added = new;
  removed = gone;
  convener = convener;
  convener_changed_from = none;
}

module _ (C : ConversationStore) (reaches : String → Bool) (self : String) where
  -- The reply, the payloads that are handed to the relay, by their recipients, and the store.
  abbrev pub Outcome : Type 0 → Type 0
  Outcome Payload = Reply × List (String × Payload) × C.State

  abbrev to_each : {Payload : Type 0} → Payload → List String → List (String × Payload)
  to_each p ms = map (λ m. (m, p)) ms

  unfoldable pub add_member :
      String → String → Conversation → C.State → Outcome GroupMembershipUpdate
  unfolding contains deliver_all
  add_member id new conv s =
      if not (conv.convener == self)
      then (not_convener, [], s)
      else if contains conv.members new
      then (already_member new, [], s)
      else if ltb 10 (length conv.members + 1)
      then (too_many (length conv.members + 1), [], s)
      else let members = conv.members ++ new ∷ [] in
        let targets = others self members in
        (
          added new (deliver_all reaches targets),
          to_each (update_of id self members (new ∷ []) []) targets,
          C.update_members id members s,
        )

  -- `_group_add`
  unfoldable pub group_add : Addresses → List String → C.State → Outcome GroupMembershipUpdate
  unfolding add_member
  group_add a [] s = (usage, [], s)
  group_add a (id ∷ []) s = (usage, [], s)
  group_add a (id ∷ member ∷ args) s = elim (parse_user_address a member) [
    | none ↦ (invalid_address member, [], s)
    | some new ↦ elim (C.get id s) [
      | none ↦ (unknown_conversation id, [], s)
      | some conv ↦ add_member id new conv s
    ]
  ]

  unfoldable pub drop_member :
      String → String → Conversation → C.State → Outcome GroupMembershipUpdate
  unfolding contains others deliver_all
  drop_member id member conv s =
      if not (conv.convener == self)
      then (not_convener, [], s)
      else if not (contains conv.members member)
      then (not_member member, [], s)
      else let members = others member conv.members in
        let targets = others self conv.members in
        (
          removed member (deliver_all reaches targets),
          to_each (update_of id self members [] (member ∷ [])) targets,
          C.update_members id members s,
        )

  -- `_group_remove`
  unfoldable pub group_remove : List String → C.State → Outcome GroupMembershipUpdate
  unfolding drop_member
  group_remove [] s = (usage, [], s)
  group_remove (id ∷ []) s = (usage, [], s)
  group_remove (id ∷ member ∷ args) s = elim (C.get id s) [
    | none ↦ (unknown_conversation id, [], s)
    | some conv ↦ drop_member id member conv s
  ]

  abbrev reason_of : List String → Option String
  reason_of [] = none
  reason_of (w ∷ ws) = some (join " " (w ∷ ws))

  abbrev text_of : Option String → String
  text_of none = ""
  text_of (some s) = s

  -- The notice of our leaving; a reason that is not given is empty.
  abbrev pub leave_of : String → List String → GroupLeave
  leave_of id words = record { conversation_id = id; reason = text_of (reason_of words) }

  unfoldable pub leave_known :
      String → List String → C.State → Option Conversation → Outcome GroupLeave
  unfolding others deliver_all join
  leave_known id words s none = (unknown_conversation id, [], s)
  leave_known id words s (some conv) =
      let targets = others self conv.members in
      (
        left_group (deliver_all reaches targets) (reason_of words),
        to_each (leave_of id words) targets,
        C.dissolve id s,
      )

  -- `_group_leave`
  unfoldable pub group_leave : List String → C.State → Outcome GroupLeave
  unfolding leave_known
  group_leave [] s = (usage, [], s)
  group_leave (id ∷ words) s = leave_known id words s (C.get id s)

  -- `_group_start`; a conversation or an invitation that is given no name and no goal has empty ones.
  module _ (R : RelationshipStore) where
    unfoldable pub start_members :
        R.State → String → String → String → List String → C.State → Outcome GroupInvitation
    unfolding deliver_all unrelated
    start_members r id now purpose peers s =
        let conv : Conversation = record {
          conversation_id = id;
          purpose = purpose;
          members = self ∷ peers;
          convener = self;
          accepted_at = now;
          last_message_at = none;
          name = "";
          goal = "";
          completed_at = none;
        } in
        if ltb 10 (length (self ∷ peers)) then (too_many (length peers), [], s) else (
          created id (deliver_all reaches peers) (unrelated C R self r peers),
          to_each (invitation_to conv) peers,
          C.record_conversation conv s,
        )

    start_parsed : R.State → String → String → String → Parsed → C.State → Outcome GroupInvitation
    unfolding start_members others
    start_parsed r id now purpose (invalid m) s = (invalid_address m, [], s)
    start_parsed r id now purpose (all ms) s = start_members r id now purpose (others self ms) s

    unfoldable pub group_start :
        Addresses → R.State → String → String → List String → C.State → Outcome GroupInvitation
    unfolding start_parsed split_members_purpose parse_all
    group_start a r id now args s =
        let (members, purpose) = split_members_purpose args in
        if is_nil members
        then (usage, [], s)
        else start_parsed r id now purpose (parse_all a members) s
