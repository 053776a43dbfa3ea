-- ===== src/Examples/Stores.antt =====
-- Stores in memory, which have the laws that the models rely on.
use aap_hermes.Prelude.{
  ℕ, String, ◌≡◌, refl, false, Option, none, some, List, [], ◌∷◌, ◌++◌, arith, ◌==◌, ==_iff,
  ==_refl, if◌then◌else◌,
}
use aap_hermes.Prelude.Dict.{Dict, contains, lookup, erase, lookup-erase}
use aap_hermes.Gateway.{Platform, SessionSource, Row, Sessions, IsSessions}
use aap_hermes.Origins.{Calendar, aware, invalid}
use aap_hermes.Adapter.Stores.{
  Conversation, ConversationStore, IsConversationStore, Relationship, RelationshipStore, Proposal,
  ProposalStore, IsProposalStore, find, with_members, without_member, without,
}
use aap_hermes.Adapter.Services.{PendingResponses}
use aap_hermes.Adapter.Introductions.{Introduction, IntroductionStore, IsIntroductionStore}

unfoldable pub members_set : String → List String → List Conversation → List Conversation
members_set id ms [] = []
members_set id ms (c ∷ rest) =
    (if c.conversation_id == id then record c { members = ms } else c) ∷ members_set id ms rest

unfoldable pub member_removed : String → String → List Conversation → List Conversation
member_removed id x [] = []
member_removed id x (c ∷ rest) =
    (if c.conversation_id == id then record c { members = without x c.members } else c)
    ∷ member_removed id x rest

unfoldable pub dissolved : String → List Conversation → List Conversation
dissolved id [] = []
dissolved id (c ∷ rest) =
    let others = dissolved id rest in if c.conversation_id == id then others else c ∷ others

abbrev pub conversation_list : ConversationStore
conversation_list = record {
  State = List Conversation;
  get = find;
  record_conversation = λ c s. c ∷ s;
  update_members = members_set;
  remove_member = member_removed;
  dissolve = dissolved;
  conversations = λ s. s;
  set_conversations = λ cs s. cs;
  display_name = λ c. c.name;
}

find-members_set :
    (id : String) (ms : List String) (s : List Conversation) (k : String)
    → find k (members_set id ms s) ≡ (if id == k then with_members ms (find k s) else find k s)
unfolding find members_set
find-members_set id ms [] k = ground arith
find-members_set id ms (c ∷ rest) k = ground (
  arith,
  find-members_set id ms rest k,
  ==_iff c.conversation_id id,
  ==_iff c.conversation_id k,
  ==_iff id k,
)

find-member_removed :
    (id x : String) (s : List Conversation) (k : String)
    → find k (member_removed id x s) ≡ (if id == k then without_member x (find k s) else find k s)
unfolding find member_removed
find-member_removed id x [] k = ground arith
find-member_removed id x (c ∷ rest) k = ground (
  arith,
  find-member_removed id x rest k,
  ==_iff c.conversation_id id,
  ==_iff c.conversation_id k,
  ==_iff id k,
)

find-dissolved :
    (id : String) (s : List Conversation) (k : String)
    → find k (dissolved id s) ≡ (if id == k then none else find k s)
unfolding find dissolved
find-dissolved id [] k = ground arith
find-dissolved id (c ∷ rest) k = ground (
  arith,
  find-dissolved id rest k,
  ==_iff c.conversation_id id,
  ==_iff c.conversation_id k,
  ==_iff id k,
)

pub conversation_list-IsConversationStore : IsConversationStore conversation_list
unfolding find
conversation_list-IsConversationStore = record {
  get-record = λ c s k. refl;
  get-update_members = find-members_set;
  get-remove_member = find-member_removed;
  get-dissolve = find-dissolved;
  get-eq-find = λ s k. refl;
  conversations-set = λ cs s. refl;
}

abbrev friend : Relationship
friend = record { relationship_type = "friend"; resource = none }

-- The peers with a relationship.
abbrev pub peer_list : RelationshipStore
peer_list = record {
  State = List String;
  any_relationship_with = λ p s. if contains s p then some friend else none;
  all_for_peer = λ p s. if contains s p then friend ∷ [] else [];
  establish = λ me peer proposal accept proposer_key accepter_key s. some (peer ∷ s);
  revoke = λ me peer envelope key s. (without peer s, contains s peer);
}

abbrev first_key : Dict Proposal → Option String
first_key [] = none
first_key ((k, row) ∷ rest) = some k

abbrev pub proposal_map : ProposalStore
proposal_map = record {
  State = (String → Option Proposal) × Dict Proposal;
  record_outbound = λ nonce row s. ((λ k. if k == nonce then some row else s.0 k), s.1);
  take_outbound = λ nonce s. (((λ k. if k == nonce then none else s.0 k), s.1), s.0 nonce);
  record_inbound = λ nonce row s. (s.0, (nonce, row) ∷ s.1);
  take_inbound = λ nonce s. ((s.0, erase nonce s.1), lookup nonce s.1);
  most_recent_inbound_nonce = λ s. first_key s.1;
}

pub proposal_map-IsProposalStore : IsProposalStore proposal_map
unfolding lookup
proposal_map-IsProposalStore = record {
  take_self = λ nonce s. ground (arith, ==_refl nonce);
  take_ne = λ nonce other s differ. ground (arith, ==_iff other nonce);
  take-record_outbound = λ nonce row s. ground (arith, ==_refl nonce);
  take-record_inbound = λ nonce row s. ground (arith, ==_refl nonce);
  take_inbound_self = λ nonce s. ground (arith, lookup-erase nonce nonce s.1, ==_refl nonce);
}

abbrev chat_of : SessionSource → String
chat_of source = elim source.chat_id [ none ↦ "" | some c ↦ c ]

-- A session per chat, whose id is the chat's.
abbrev pub session_map : Sessions
session_map = record {
  Db = String → List Row;
  get_or_create_session = λ source db. some (chat_of source, db);
  append_message = λ id row db. some (λ k. if k == id then db k ++ row ∷ [] else db k);
  get_messages = λ id db. some (db id);
}

pub session_map-IsSessions : IsSessions session_map
session_map-IsSessions = record {
  get-create = λ source db db' id other h. ground arith;
  get-append_self = λ id row db db' rows written read. ground (arith, ==_refl id);
  get-append_ne = λ id other row db db' written differ. ground (arith, ==_iff other id);
}

-- No tool call ever waits.
abbrev pub nobody_waits : PendingResponses
nobody_waits = record { State = ℕ; resolve = λ nonce resp s. (s, false) }

-- A calendar of one instant.
abbrev pub new_year : Calendar
new_year = record {
  isoformat = λ now. "2026-01-01T00:00:00+00:00";
  fromisoformat = λ s. if s == "2026-01-01T00:00:00+00:00" then aware 5 else invalid;
}

abbrev pub telegram : Platform
telegram = record { value = some "telegram"; shown = "Platform.TELEGRAM" }

abbrev pub platform_named : String → Option Platform
platform_named s = if s == "telegram" then some telegram else none

-- The user's chat.
abbrev pub home : SessionSource
home = record {
  platform = some telegram;
  chat_id = some "77";
  chat_name = none;
  chat_type = some "dm";
  user_id = some "7";
  user_name = none;
  thread_id = none;
}

abbrev newest : Dict Introduction → Option String
newest [] = none
newest ((k, row) ∷ rest) = some k

abbrev values : Dict Introduction → List Introduction
values [] = []
values ((k, row) ∷ rest) = row ∷ values rest

-- The newest introduction comes first.
abbrev pub introduction_map : IntroductionStore
introduction_map = record {
  State = Dict Introduction;
  get = lookup;
  add = λ row s. (row.verifier_nonce, row) ∷ s;
  resolve = erase;
  rows = values;
  most_recent_nonce = newest;
}

pub introduction_map-IsIntroductionStore : IsIntroductionStore introduction_map
unfolding lookup
introduction_map-IsIntroductionStore = record {
  get-add = λ row s k. refl;
  get-resolve = λ nonce s k. lookup-erase nonce k s;
}
