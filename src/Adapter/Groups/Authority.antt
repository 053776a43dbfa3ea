-- ===== src/Adapter/Groups/Authority.antt =====
-- adapter.py, the group handlers: who may change which conversation.
use aap_hermes.Prelude.{
  String, ◌≡◌, refl, sym, ◌∙◌, Bool, true, false, ◌&&◌, Option, none, some, List, [], ◌∷◌, arith,
  ◌==◌, ==_iff, ==_refl, if◌then◌else◌, inl, inr, Option-cases,
}
use aap_hermes.Adapter.Stores.{
  Conversation, ConversationStore, IsConversationStore, with_members, without_member, find,
}
use aap_hermes.Adapter.Groups.{
  GroupInvitation, GroupMembershipUpdate, GroupLeave, GroupComplete, mark_completed, may_update,
  handle_group_invitation, handle_group_membership_update, handle_group_leave,
  handle_group_complete, apply_update, hand_off, is_member, or_else,
}

abbrev pub completed : String → Option Conversation → Option Conversation
completed now none = none
completed now (some c) = some (record c { completed_at = some now })

pub find-mark_completed :
    (id now k : String) (cs : List Conversation)
    → find k (mark_completed id now cs) ≡ (if id == k then completed now (find k cs) else find k cs)
unfolding find mark_completed
find-mark_completed id now k [] = ground arith
find-mark_completed id now k (c ∷ rest) = ground (
  arith,
  find-mark_completed id now k rest,
  ==_iff c.conversation_id id,
  ==_iff c.conversation_id k,
  ==_iff id k,
)

-- The conversation after an accepted update.
abbrev pub updated :
    GroupMembershipUpdate → Option String → Option Conversation → Option Conversation
updated u from none = none
updated u none (some conv) = some (record conv { members = u.members })
updated u (some from) (some conv) =
    some (record conv { members = u.members; convener = u.convener })

find-id :
    (k : String) (cs : List Conversation) (c : Conversation)
    → find k cs ≡ some c
    → c.conversation_id ≡ k
unfolding find
find-id k [] c h = cc
find-id k (d ∷ rest) c h = ground (arith, ==_iff d.conversation_id k, find-id k rest c)

-- The step of it that records the new convener.
abbrev hand_over : GroupMembershipUpdate → Option String → Option Conversation → Option Conversation
hand_over u none o = o
hand_over u (some from) none = none
hand_over u (some from) (some conv) = some (record conv { convener = u.convener })

abbrev pub accepted : String → GroupInvitation → Conversation
accepted now i = record {
  conversation_id = i.conversation_id;
  purpose = i.purpose;
  members = i.members;
  convener = i.convener;
  accepted_at = now;
  last_message_at = none;
  name = or_else i.name i.purpose;
  goal = i.goal;
  completed_at = none;
}

abbrev pub sent_by_convener : String → Option Conversation → Bool
sent_by_convener iss none = false
sent_by_convener iss (some conv) = iss == conv.convener

-- The conversation is known, and the peer is its recorded convener or the one that the update
-- declares.
abbrev pub speaks_for : String → GroupMembershipUpdate → Option Conversation → Bool
speaks_for iss u none = false
speaks_for iss u (some conv) = if conv.convener == iss then true else u.convener == iss

may_update-speaks_for :
    (iss : String) (u : GroupMembershipUpdate) (o : Option Conversation)
    → may_update iss u o ≡ speaks_for iss u o
unfolding may_update
may_update-speaks_for iss u none = refl
may_update-speaks_for iss u (some conv) = ground (
  arith,
  ==_iff conv.convener iss,
  ==_iff iss conv.convener,
  ==_iff u.convener iss,
  ==_iff iss u.convener,
)

module _ (C : ConversationStore) (L : IsConversationStore C) (s : C.State) (iss k : String) where
  get-id :
      (j : String) (t : C.State) (c : Conversation) → C.get j t ≡ some c → c.conversation_id ≡ j
  get-id j t c h = find-id j (C.conversations t) c (sym (L.get-eq-find t j) ∙ h)

  get-hand_off :
      (u : GroupMembershipUpdate) (t : C.State) (from : Option String) (o : Option Conversation)
      → C.get u.conversation_id t ≡ o
      → C.get k (hand_off C u t from o)
        ≡ (if u.conversation_id == k then hand_over u from o else C.get k t)
  unfolding hand_off
  get-hand_off u t none o h = ground (arith, ==_iff u.conversation_id k)
  get-hand_off u t (some from) none h = ground (arith, ==_iff u.conversation_id k)
  get-hand_off u t (some from) (some conv) h = ground (
    arith,
    get-id u.conversation_id t conv h,
    L.get-record (record conv { convener = u.convener }) t k,
    ==_iff u.conversation_id k,
    ==_iff conv.conversation_id k,
  )

  updated_lem :
      (u : GroupMembershipUpdate) (from : Option String) (o : Option Conversation)
      → hand_over u from (with_members u.members o) ≡ updated u from o
  updated_lem u none none = refl
  updated_lem u none (some conv) = refl
  updated_lem u (some from) none = refl
  updated_lem u (some from) (some conv) = refl

  get-apply_update :
      (u : GroupMembershipUpdate)
      → C.get k (apply_update C u s) ≡ (
          if u.conversation_id == k
          then updated u u.convener_changed_from (C.get k s)
          else C.get k s)
  unfolding apply_update
  get-apply_update u =
      let s' = C.update_members u.conversation_id u.members s in
      let here = C.get u.conversation_id s' in
      ground (
        arith,
        get-hand_off u s' u.convener_changed_from here refl,
        L.get-update_members u.conversation_id u.members s k,
        L.get-update_members u.conversation_id u.members s u.conversation_id,
        ==_refl u.conversation_id,
        ==_iff u.conversation_id k,
        updated_lem u u.convener_changed_from (C.get u.conversation_id s),
      )

  -- A membership update changes the conversation that it names, and no other, exactly if that is
  -- known and the sender is its recorded convener or the one that the update itself declares; it
  -- then sets the members, and the convener too if it names a former one.
  pub get-handle_group_membership_update :
      (u : GroupMembershipUpdate)
      → C.get k (handle_group_membership_update C iss (some u) s).0 ≡ (
          if u.conversation_id == k && speaks_for iss u (C.get k s)
          then updated u u.convener_changed_from (C.get k s)
          else C.get k s)
  unfolding handle_group_membership_update
  get-handle_group_membership_update u = ground (
    arith,
    get-apply_update u,
    may_update-speaks_for iss u (C.get u.conversation_id s),
    ==_iff u.conversation_id k,
  )

  -- A completion changes the conversation that it names, and no other, exactly if its sender is the
  -- recorded convener; it then sets the time of completion and nothing else.
  pub get-handle_group_complete :
      (now : String) (c : GroupComplete)
      → C.get k (handle_group_complete C now iss (some c) s).0 ≡ (
          if c.conversation_id == k && sent_by_convener iss (C.get k s)
          then completed now (C.get k s)
          else C.get k s)
  unfolding handle_group_complete
  get-handle_group_complete now c = elim (Option-cases (C.get c.conversation_id s)) [
    | inl unknown ↦ ground (arith, ==_iff c.conversation_id k)
    | inr (conv, known) ↦ ground (
      arith,
      L.get-eq-find
          (C.set_conversations (mark_completed c.conversation_id now (C.conversations s)) s) k,
      L.conversations-set (mark_completed c.conversation_id now (C.conversations s)) s,
      find-mark_completed c.conversation_id now k (C.conversations s),
      L.get-eq-find s k,
      ==_iff c.conversation_id k,
    )
  ]

  -- A leave removes its sender from the members of the conversation that it names, and changes
  -- nothing else.
  pub get-handle_group_leave :
      (l : GroupLeave)
      → C.get k (handle_group_leave C iss (some l) s).0 ≡ (
          if l.conversation_id == k && is_member iss (C.get k s)
          then without_member iss (C.get k s)
          else C.get k s)
  unfolding handle_group_leave
  get-handle_group_leave l =
      ground (arith, L.get-remove_member l.conversation_id iss s k, ==_iff l.conversation_id k)

  -- An invitation changes the conversation that it names, and no other, exactly if its sender has a
  -- relationship with us; a conversation that was known is then replaced, and its convener is the
  -- one that the invitation names, which need not be the sender.
  pub get-handle_group_invitation :
      (related : Bool) (label : Option String) (now : String) (i : GroupInvitation)
      → C.get k (handle_group_invitation C related label now iss (some i) s).0
        ≡ (if related && i.conversation_id == k then some (accepted now i) else C.get k s)
  unfolding handle_group_invitation
  get-handle_group_invitation related label now i =
      ground (arith, L.get-record (accepted now i) s k, ==_iff i.conversation_id k)

  -- A known conversation is taken over by any peer that sends an update in which it declares itself
  -- the convener and names some former one: the members and the convener are then the peer's
  -- choice.
  pub take_over :
      (u : GroupMembershipUpdate) (conv : Conversation) (from : String)
      → C.get k s ≡ some conv
      → u.conversation_id ≡ k
      → u.convener ≡ iss
      → u.convener_changed_from ≡ some from
      → C.get k (handle_group_membership_update C iss (some u) s).0
        ≡ some (record conv { members = u.members; convener = iss })
  take_over u conv from known names declares changed =
      get-handle_group_membership_update u
      ∙ ground (arith, ==_iff u.conversation_id k, ==_iff iss u.convener)
