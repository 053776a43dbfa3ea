-- ===== src/Tools/Groups/Start.antt =====
-- tools.py and adapter.py: the group that `aap_group_start` records, and the one that its invitees
-- record.
use aap_hermes.Prelude.{
  ◌≤◌, String, ◌≡◌, refl, ◌∙◌, Bool, true, false, Option, some, List, [], ◌∷◌, arith, ==_refl, ltb,
  map, if_elim,
}
use aap_hermes.Prelude.Text.{strip, rstrip, take_text, text_length}
use aap_hermes.Prelude.Text.Lengths.{
  is_empty-append, text_length-append, text_length-rstrip, text_length-take_text,
}
use aap_hermes.Prelude.Dict.{contains}
use aap_hermes.Adapter.Stores.{
  Conversation, ConversationStore, IsConversationStore, RelationshipStore,
}
use aap_hermes.Adapter.GroupNote.{length, is_nil}
use aap_hermes.Adapter.Groups.{GroupInvitation, or_else, handle_group_invitation}
use aap_hermes.Adapter.Groups.Authority.{get-handle_group_invitation}
use aap_hermes.Tools.Address.{Addresses}
use aap_hermes.Tools.Groups.{
  all, invalid, parse_all, others, display_name_of, invitation_to, started, no_members, convened,
  start_with, start_parsed, aap_group_start, StartOutcome, too_many, too_few, invalid_member,
}

display_name_of_bounded : (name purpose : String) → text_length (display_name_of name purpose) ≤ 30
unfolding display_name_of
display_name_of_bounded name purpose =
    let display = or_else (strip name) purpose in
    ground (
      arith,
      text_length-append (rstrip (take_text 27 display)) "...",
      text_length-rstrip (take_text 27 display),
      text_length-take_text 27 display,
    )

-- The name that an invitation carries is kept by the invitee.
kept_name :
    (name purpose : String)
    → or_else (display_name_of name purpose) purpose ≡ display_name_of name purpose
unfolding display_name_of
kept_name name purpose =
    ground
      (arith, is_empty-append (rstrip (take_text 27 (or_else (strip name) purpose))) "..." refl)

pub contains-others : (self : String) (ms : List String) → contains (others self ms) self ≡ false
unfolding contains others
contains-others self [] = refl
contains-others self (m ∷ ms) = ground (arith, contains-others self ms)

module _ (C : ConversationStore) (L : IsConversationStore C) (R : RelationshipStore)
    (self : String) where
  -- What a group is when it has been started: we convene it and are its first member, and no other;
  -- it has at most ten members and at least one besides us, and a name of at most thirty characters;
  -- our store has it, and each other member is sent its invitation.
  pub record IsStarted (conv : Conversation) (sent : List (String × GroupInvitation)) (s : C.State)
      : Type 0 where
    pub peers : List String
    pub convened_here : conv.convener ≡ self
    pub composed : conv.members ≡ self ∷ peers
    pub not_twice : contains peers self ≡ false
    pub accompanied : 1 ≤ length peers
    pub capped : length conv.members ≤ 10
    pub named : text_length conv.name ≤ 30
    pub stored : C.get conv.conversation_id s ≡ some conv
    pub invited : sent ≡ map (λ m. (m, invitation_to conv)) peers

  -- Each invitation makes its receiver, if it has a relationship with us, record our conversation,
  -- but for the time of its acceptance.
  abbrev pub Agree : Conversation → List (String × GroupInvitation) → Type 0
  Agree conv [] = Unit {0}
  Agree conv ((to, invite) ∷ rest) =
      ((t : C.State) (label : Option String) (later : String)
        → C.get conv.conversation_id
            (handle_group_invitation C true label later self (some invite) t).0
          ≡ some (record conv { accepted_at = later }))
      × Agree conv rest

  module _ (a : Addresses) (reaches : String → Bool) (r : R.State)
      (id now purpose name goal : String) (s : C.State) where
    agree_lem :
        (members peers : List String)
        → Agree (convened C R self id now purpose name goal members) (
            map
              (λ m. (m, invitation_to (convened C R self id now purpose name goal members)))
              peers)
    agree_lem members [] = tt
    agree_lem members (p ∷ peers) =
        let conv = convened C R self id now purpose name goal members in
        (
          λ t label later.
              get-handle_group_invitation C L t self id true label later (invitation_to conv)
              ∙ ground (arith, ==_refl id, kept_name name purpose),
          agree_lem members peers,
        )

    -- The outcome is a group that everyone agrees on, or an error that has no effect.
    abbrev pub IsSound : StartOutcome C R self → Type 0
    IsSound (started conv results strangers, sent, t) = IsStarted conv sent t × Agree conv sent
    IsSound (no_members, sent, t) = (sent ≡ []) × (t ≡ s)
    IsSound (invalid_member m, sent, t) = (sent ≡ []) × (t ≡ s)
    IsSound (too_many n, sent, t) = (sent ≡ []) × (t ≡ s)
    IsSound (too_few, sent, t) = (sent ≡ []) × (t ≡ s)

    start_with-IsSound :
        (ms : List String)
        → 1 ≤ length (others self ms)
        → length (others self ms) ≤ 9
        → IsSound (
            start_with C R self reaches r
              (convened C R self id now purpose name goal (self ∷ others self ms))
              (others self ms)
              s)
    unfolding start_with
    start_with-IsSound ms enough few =
        let peers = others self ms in
        let conv = convened C R self id now purpose name goal (self ∷ peers) in
        (
          record {
            peers = peers;
            convened_here = refl;
            composed = refl;
            not_twice = contains-others self ms;
            accompanied = enough;
            capped = omega (arith, few);
            named = display_name_of_bounded name purpose;
            stored = ground (arith, L.get-record conv s id, ==_refl id);
            invited = refl;
          },
          agree_lem (self ∷ peers) peers,
        )

    start_parsed-IsSound :
        (ms : List String) → IsSound (start_parsed C R self reaches r id now purpose name goal ms s)
    unfolding start_parsed
    start_parsed-IsSound ms =
        let peers = others self ms in
        if_elim IsSound (ltb 10 (length (self ∷ peers))) _ _ (λ crowded. (refl, refl))
          (λ fits.
            if_elim IsSound (ltb (length (self ∷ peers)) 2) _ _ (λ alone. (refl, refl))
              (λ accompanied.
                start_with-IsSound ms (ground (arith, accompanied)) (ground (arith, fits))))

    -- A call of `aap_group_start` that does not start a group returns an error, hands over no
    -- invitation and leaves the store unchanged. One that starts a group convenes it with us as its
    -- first member, listed only once among at most ten, beside at least one other; its name has at
    -- most thirty characters; our store has the conversation; each other member is sent its
    -- invitation, in order; and each member that gets it, if it has a relationship with us, records
    -- the same conversation, but for the time of acceptance.
    pub aap_group_start-IsSound :
        (members : List String)
        → IsSound (aap_group_start C R self a reaches r id now members purpose name goal s)
    unfolding aap_group_start
    aap_group_start-IsSound members =
        if_elim IsSound (is_nil members) _ _ (λ empty. (refl, refl))
          (λ given.
            elim (parse_all a members)
              as (λ parsed. IsSound (elim parsed [
                | invalid m ↦ (invalid_member m, [], s)
                | all ms ↦ start_parsed C R self reaches r id now purpose name goal ms s
              ])) [ invalid m ↦ (refl, refl) | all ms ↦ start_parsed-IsSound ms ])
