-- ===== src/Commands/Groups/Members.antt =====
-- commands.py and adapter.py: the members of a group after `/aap group add`, `remove` and `leave`,
-- here and in the stores of the others.
use aap_hermes.Prelude.{
  ◌+◌, ◌≤◌, String, ◌≡◌, refl, ap, Bool, true, false, Option, none, some, List, [], ◌∷◌, ◌++◌,
  arith, ◌==◌, ==_iff, ==_refl, if◌then◌else◌, map, if_elim, not, ltb, Option-cases, inl, inr,
}
use aap_hermes.Prelude.Dict.{contains}
use aap_hermes.Adapter.Stores.{
  Conversation, ConversationStore, IsConversationStore, with_members, without_member, without,
}
use aap_hermes.Adapter.GroupNote.{length}
use aap_hermes.Adapter.Groups.{
  GroupMembershipUpdate, GroupLeave, handle_group_membership_update, handle_group_leave, is_member,
}
use aap_hermes.Adapter.Groups.Authority.{get-handle_group_membership_update, get-handle_group_leave}
use aap_hermes.Tools.Address.{Addresses, parse_user_address}
use aap_hermes.Tools.Groups.{others}
use aap_hermes.Tools.Groups.Start.{contains-others}
use aap_hermes.Commands.Groups.{
  Outcome, invalid_address, unknown_conversation, left_group, added, removed, update_of, add_member,
  group_add, drop_member, group_remove, leave_known, leave_of, group_leave,
}

length-snoc : (xs : List String) (x : String) → length (xs ++ x ∷ []) ≡ length xs + 1
length-snoc [] x = omega arith
length-snoc (y ∷ xs) x = omega (arith, length-snoc xs x)

without-absent : (x : String) (ms : List String) → contains ms x ≡ false → without x ms ≡ ms
unfolding contains without
without-absent x [] h = refl
without-absent x (m ∷ ms) h = ground (arith, without-absent x ms)

without_member-stranger :
    (x : String) (o : Option Conversation) → is_member x o ≡ false → without_member x o ≡ o
unfolding is_member
without_member-stranger x none h = refl
without_member-stranger x (some conv) h =
    ap (λ ms. some (record conv { members = ms })) (without-absent x conv.members h)

module _ (C : ConversationStore) (L : IsConversationStore C) (reaches : String → Bool)
    (self : String) (s : C.State) where
  -- An update of ours sets the members in any store that has the conversation; a store that does not
  -- have it stays without it.
  get-update_of :
      (id : String) (members new gone : List String) (t : C.State) (k : String)
      → C.get k
          (handle_group_membership_update C self (some (update_of id self members new gone)) t).0
        ≡ (if id == k then with_members members (C.get k t) else C.get k t)
  get-update_of id members new gone t k = elim (Option-cases (C.get k t)) [
    | inl unknown ↦ ground (
      arith,
      get-handle_group_membership_update C L t self k (update_of id self members new gone),
      unknown,
    )
    | inr (conv, known) ↦ ground (
      arith,
      get-handle_group_membership_update C L t self k (update_of id self members new gone),
      known,
      ==_refl self,
    )
  ]

  -- The change of the members of a conversation that we convene: our store has the new members and
  -- is otherwise the same; the recipients are sent the update, which sets the same members in each
  -- store that has the conversation, and leaves a store that does not have it without it.
  pub record IsChanged (id : String) (conv : Conversation) (members targets : List String)
      (sent : List (String × GroupMembershipUpdate)) (t : C.State) : Type 0 where
    pub known : C.get id s ≡ some conv
    pub convened_here : conv.convener ≡ self
    pub stored :
        (k : String)
        → C.get k t ≡ (if id == k then some (record conv { members = members }) else C.get k s)
    pub update : GroupMembershipUpdate
    pub broadcast : sent ≡ map (λ m. (m, update)) targets
    pub followed :
        (u : C.State) (k : String)
        → C.get k (handle_group_membership_update C self (some update) u).0
          ≡ (if id == k then with_members members (C.get k u) else C.get k u)

  -- `named` is the member that the address given to the call names.
  abbrev pub IsSoundAdd :
      String → Option String → Outcome C reaches self GroupMembershipUpdate → Type 0
  IsSoundAdd id named (added new results, sent, t) =
      (named ≡ some new)
      × (conv : Conversation) × IsChanged id conv (conv.members ++ new ∷ [])
          (others self (conv.members ++ new ∷ [])) sent t
      × (contains conv.members new ≡ false)
      × (length (conv.members ++ new ∷ []) ≤ 10)
  IsSoundAdd id named (reply, sent, t) = (sent ≡ []) × (t ≡ s)

  stored_lem :
      (id : String) (conv : Conversation) (members : List String) (k : String)
      → C.get id s ≡ some conv
      → C.get k (C.update_members id members s)
        ≡ (if id == k then some (record conv { members = members }) else C.get k s)
  stored_lem id conv members k known =
      ground (arith, L.get-update_members id members s k, ==_iff id k)

  add_member-IsSound :
      (id new : String) (conv : Conversation)
      → C.get id s ≡ some conv
      → IsSoundAdd id (some new) (add_member C reaches self id new conv s)
  unfolding add_member
  add_member-IsSound id new conv known =
      let P = λ (o : Outcome C reaches self GroupMembershipUpdate). IsSoundAdd id (some new) o in
      if_elim P (not (conv.convener == self)) _ _ (λ foreign. (refl, refl))
        (λ ours.
          if_elim P (contains conv.members new) _ _ (λ present. (refl, refl))
            (λ absent.
              if_elim P (ltb 10 (length conv.members + 1)) _ _ (λ full. (refl, refl))
                (λ fits. (
                  refl,
                  conv,
                  record {
                    known = known;
                    convened_here = ground (arith, ours, ==_iff conv.convener self);
                    stored = λ k. stored_lem id conv (conv.members ++ new ∷ []) k known;
                    update = update_of id self (conv.members ++ new ∷ []) (new ∷ []) [];
                    broadcast = refl;
                    followed = get-update_of id (conv.members ++ new ∷ []) (new ∷ []) [];
                  },
                  absent,
                  ground (arith, fits, length-snoc conv.members new),
                ))))

  -- The member that a call of `add` names.
  add_found-IsSound :
      (id new : String) (found : Option Conversation)
      → C.get id s ≡ found
      → IsSoundAdd id
          (some new)
          (elim found as (λ o. Outcome C reaches self GroupMembershipUpdate) [
            | none ↦ (unknown_conversation id, [], s)
            | some conv ↦ add_member C reaches self id new conv s
          ])
  add_found-IsSound id new none unknown = (refl, refl)
  add_found-IsSound id new (some conv) known = add_member-IsSound id new conv known

  add_parsed-IsSound :
      (id member : String) (parsed : Option String)
      → IsSoundAdd id parsed (elim parsed as (λ o. Outcome C reaches self GroupMembershipUpdate) [
        | none ↦ (invalid_address member, [], s)
        | some new ↦ elim (C.get id s) as (λ o. Outcome C reaches self GroupMembershipUpdate) [
          | none ↦ (unknown_conversation id, [], s)
          | some conv ↦ add_member C reaches self id new conv s
        ]
      ])
  add_parsed-IsSound id member none = (refl, refl)
  add_parsed-IsSound id member (some new) = add_found-IsSound id new (C.get id s) refl

  -- A call of `/aap group add` either returns an error, sends nothing and changes nothing; or we
  -- convene the conversation, the member is the address that the argument parses to, is new and makes
  -- at most ten, our store has the members with the new one last and is otherwise the same, and
  -- everyone but us is sent an update. In the store of
  -- a receiver the update sets the same members if the conversation is known there, and otherwise
  -- does nothing: so the new member, who is sent no invitation, does not get to know it.
  pub group_add-IsSound :
      (a : Addresses) (id member : String) (args : List String)
      → IsSoundAdd id
          (parse_user_address a member)
          (group_add C reaches self a (id ∷ member ∷ args) s)
  unfolding group_add
  group_add-IsSound a id member args = add_parsed-IsSound id member (parse_user_address a member)

  abbrev pub IsSoundRemove : String → String → Outcome C reaches self GroupMembershipUpdate → Type 0
  IsSoundRemove id member (removed x results, sent, t) =
      (conv : Conversation) × IsChanged id conv (others member conv.members)
        (others self conv.members) sent t
      × (contains conv.members member ≡ true)
      × (contains (others member conv.members) member ≡ false)
  IsSoundRemove id member (reply, sent, t) = (sent ≡ []) × (t ≡ s)

  drop_member-IsSound :
      (id member : String) (conv : Conversation)
      → C.get id s ≡ some conv
      → IsSoundRemove id member (drop_member C reaches self id member conv s)
  unfolding drop_member
  drop_member-IsSound id member conv known =
      let P = λ (o : Outcome C reaches self GroupMembershipUpdate). IsSoundRemove id member o in
      let members = others member conv.members in
      if_elim P (not (conv.convener == self)) _ _ (λ foreign. (refl, refl))
        (λ ours.
          if_elim P (not (contains conv.members member)) _ _ (λ absent. (refl, refl))
            (λ present. (
              conv,
              record {
                known = known;
                convened_here = ground (arith, ours, ==_iff conv.convener self);
                stored = λ k. stored_lem id conv members k known;
                update = update_of id self members [] (member ∷ []);
                broadcast = refl;
                followed = get-update_of id members [] (member ∷ []);
              },
              ground (arith, present),
              contains-others member conv.members,
            )))

  drop_found-IsSound :
      (id member : String) (found : Option Conversation)
      → C.get id s ≡ found
      → IsSoundRemove id member (elim found as (λ o. Outcome C reaches self GroupMembershipUpdate) [
        | none ↦ (unknown_conversation id, [], s)
        | some conv ↦ drop_member C reaches self id member conv s
      ])
  drop_found-IsSound id member none unknown = (refl, refl)
  drop_found-IsSound id member (some conv) known = drop_member-IsSound id member conv known

  -- A call of `/aap group remove` either returns an error, sends nothing and changes nothing; or we
  -- convene the conversation, which has the member, our store has the members without it and is
  -- otherwise the same, and everyone but us, the removed member included, is sent an update that sets
  -- the same members in each store that has the conversation.
  pub group_remove-IsSound :
      (id member : String) (args : List String)
      → IsSoundRemove id member (group_remove C reaches self (id ∷ member ∷ args) s)
  unfolding group_remove
  group_remove-IsSound id member args = drop_found-IsSound id member (C.get id s) refl

  -- Leaving: our store no longer has the conversation and is otherwise the same; each other member is
  -- sent the notice, which takes us off the members in any store that has us as one.
  pub record IsLeft (id : String) (conv : Conversation) (sent : List (String × GroupLeave))
      (t : C.State) : Type 0 where
    pub known : C.get id s ≡ some conv
    pub forgotten : (k : String) → C.get k t ≡ (if id == k then none else C.get k s)
    pub notice : GroupLeave
    pub told : sent ≡ map (λ m. (m, notice)) (others self conv.members)
    pub followed :
        (u : C.State) (k : String)
        → C.get k (handle_group_leave C self (some notice) u).0
          ≡ (if id == k then without_member self (C.get k u) else C.get k u)

  abbrev pub IsSoundLeave : String → Outcome C reaches self GroupLeave → Type 0
  IsSoundLeave id (left_group results reason, sent, t) =
      (conv : Conversation) × IsLeft id conv sent t
  IsSoundLeave id (reply, sent, t) = (C.get id s ≡ none) × (sent ≡ []) × (t ≡ s)

  get-left :
      (l : GroupLeave) (u : C.State) (k : String)
      → C.get k (handle_group_leave C self (some l) u).0
        ≡ (if l.conversation_id == k then without_member self (C.get k u) else C.get k u)
  get-left l u k =
      ground
        (arith, get-handle_group_leave C L u self k l, without_member-stranger self (C.get k u))

  leave_found-IsSound :
      (id : String) (words : List String) (found : Option Conversation)
      → C.get id s ≡ found
      → IsSoundLeave id (leave_known C reaches self id words s found)
  unfolding leave_known
  leave_found-IsSound id words none unknown = (unknown, refl, refl)
  leave_found-IsSound id words (some conv) known = (
    conv,
    record {
      known = known;
      forgotten = L.get-dissolve id s;
      notice = leave_of C reaches self id words;
      told = refl;
      followed = get-left (leave_of C reaches self id words);
    },
  )

  -- A call of `/aap group leave` for an unknown conversation returns an error, sends nothing and
  -- changes nothing. Otherwise our store no longer has the conversation and is otherwise the same,
  -- whoever can be reached; each other member is sent the notice, which takes us off the members of
  -- that conversation in its store, and changes nothing else there.
  pub group_leave-IsSound :
      (id : String) (words : List String)
      → IsSoundLeave id (group_leave C reaches self (id ∷ words) s)
  unfolding group_leave
  group_leave-IsSound id words = leave_found-IsSound id words (C.get id s) refl
