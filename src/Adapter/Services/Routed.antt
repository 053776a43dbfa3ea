-- ===== src/Adapter/Services/Routed.antt =====
-- Where the answer to a service request goes.
use aap_hermes.Prelude.{
  ℕ, ◌≤◌, ◌+◌, String, ◌≡◌, refl, sym, ◌∙◌, ap, subst, [], ◌∷◌, true, false, Option, none, some,
  List, ◌++◌, arith, is_some,
}
use aap_hermes.Prelude.Text.{◌<>◌, is_empty}
use aap_hermes.Gateway.{Platform, SessionSource, Sessions}
use aap_hermes.Origins.{
  Calendar, File, writable, RequestOrigin, from_session_source, asdict, object, created, aware,
  completed, Logged, record_origin, or_null, platform_text,
}
use aap_hermes.Origins.Prune.{kept}
use aap_hermes.Origins.View.{IsWellFormed, is_free}
use aap_hermes.Origins.Record.{recorded}
use aap_hermes.Origins.Pop.{popped}
use aap_hermes.Origins.Life.{Attempt, attempts, IsForged, record-stored, pop_if-recorded}
use aap_hermes.Adapter.Stores.{ConversationStore, RelationshipStore, inbound_notice}
use aap_hermes.Adapter.PeerNotes.{reply_window_trust_note}
use aap_hermes.Adapter.Chat.{MessageEvent, enter_turn, leave}
use aap_hermes.TurnContext.{
  Context, set_originating_peer, set_originating_group, set_current_session_source,
  init_sent_this_turn, reset_originating_peer, reset_originating_group,
  reset_current_session_source, reset_sent_this_turn,
}
use aap_hermes.Adapter.Services.{
  ServiceResponse, PendingResponses, State, Handler, summary, truthy, origin_source, notify,
  routed_event, routed_turn, route, unclaimed, handle_service_response,
}

-- A source that the record keeps whole: a known platform, a chat and its type, and no chat name.
pub record IsKept (platform_of : String → Option Platform) (source : SessionSource) : Type 0 where
  pub platform : platform_of (platform_text source.platform) ≡ source.platform
  pub known : is_some source.platform ≡ true
  pub chat : (c : String) × (source.chat_id ≡ some c) × (is_empty c ≡ false)
  pub kind : (t : String) × (source.chat_type ≡ some t) × (is_empty t ≡ false)
  pub unnamed : source.chat_name ≡ none

pub origin_source-from_session_source :
    (platform_of : String → Option Platform) (cal : Calendar) (now : ℕ) (source : SessionSource)
    (target : String) (group : Option String)
    → IsKept platform_of source
    → origin_source platform_of (from_session_source cal now source target group) ≡ some source
unfolding origin_source from_session_source
origin_source-from_session_source platform_of cal now source target group h =
    let (c, chat, full) = h.chat in
    let (t, kind, filled) = h.kind in
    ground (arith, chat, full, kind, filled, h.platform, h.known, h.unnamed)

-- The context variables of a turn.
enter_turn_lem :
    (sender : String) (g : Option String) (source : SessionSource) (c : Context)
    → let c' = (enter_turn sender g source c).1 in
      (c'.originating_peer ≡ some sender)
      × (c'.session_source ≡ some source)
      × (c'.sent_this_turn ≡ some [])
unfolding set_originating_peer set_originating_group set_current_session_source init_sent_this_turn
enter_turn_lem sender none source c = (refl, refl, refl)
enter_turn_lem sender (some g) source c = (refl, refl, refl)

enter_group_lem :
    (sender g : String) (source : SessionSource) (c : Context)
    → (enter_turn sender (some g) source c).1.originating_group ≡ some g
unfolding set_originating_peer set_originating_group set_current_session_source init_sent_this_turn
enter_group_lem sender g source c = refl

-- Leaving the turn restores them, whatever it did to them.
leave_lem :
    (sender : String) (g : Option String) (source : SessionSource) (c d : Context)
    → let c' = leave (enter_turn sender g source c).0 d in
      (c'.originating_peer ≡ c.originating_peer)
      × (c'.session_source ≡ c.session_source)
      × (c'.sent_this_turn ≡ c.sent_this_turn)
unfolding leave set_originating_peer set_originating_group set_current_session_source
    init_sent_this_turn reset_originating_peer reset_originating_group reset_current_session_source
    reset_sent_this_turn
leave_lem sender none source c d = (refl, refl, refl)
leave_lem sender (some g) source c d = (refl, refl, refl)

truthy-or_null :
    (group : Option String) (g : String)
    → group ≡ some g
    → is_empty g ≡ false
    → truthy (or_null group) ≡ some g
truthy-or_null none g same full = absurd (ground (arith, same))
truthy-or_null (some h) g same full = ground (arith, same, full)

module _ (C : ConversationStore) (R : RelationshipStore) (S : Sessions) (P : PendingResponses)
    (cal : Calendar) (ttl : ℕ) (repr : String → String) (platform_of : String → Option Platform)
    (handler : Handler C R S P cal ttl repr platform_of) (built now later t : ℕ)
    (iat sender : String) (resp : ServiceResponse) (source : SessionSource) (group : Option String)
    (forged : List Attempt) (file stored : File) (logs : List Logged)
    (s : State C R S P cal ttl repr platform_of) where
  abbrev pub origin : RequestOrigin
  origin = from_session_source cal built source sender group

  -- The file that the answer meets.
  abbrev pub attacked : File
  attacked = attempts cal ttl forged (recorded cal ttl now resp.request_nonce origin file)

  -- The state before the turn.
  abbrev pub answered : State C R S P cal ttl repr platform_of
  answered = notify C R S P cal ttl repr platform_of sender (summary sender resp) (record s {
    pending = (P.resolve resp.request_nonce resp s.pending).0;
    origins = popped cal ttl later resp.request_nonce sender attacked;
    journal = s.journal ++ completed resp.request_nonce (some origin);
  })

  -- One turn that answers the request: the handler is called once, with the answer's summary as a
  -- message in the session of the source, as a turn of the sender for the group; the user was
  -- notified before. What the handler leaves stays as it is, so that its final text is not sent; only
  -- the context variables are as before the answer.
  pub record IsAnswered (result : State C R S P cal ttl repr platform_of) : Type 0 where
    pub ev : MessageEvent
    pub entered : State C R S P cal ttl repr platform_of
    pub text : Option String
    pub after : State C R S P cal ttl repr platform_of
    pub turned : handler ev entered ≡ (text, after)
    pub placed : ev.source ≡ source
    pub numbered : ev.message_id ≡ some resp.request_nonce
    pub told :
        (note : String) × (ev.text ≡ reply_window_trust_note sender <> note <> summary sender resp)
    pub of_peer : entered.world.context.originating_peer ≡ some sender
    pub in_session : entered.world.context.session_source ≡ some source
    pub fresh_turn : entered.world.context.sent_this_turn ≡ some []
    pub for_group :
        (g : String)
        → group ≡ some g
        → is_empty g ≡ false
        → entered.world.context.originating_group ≡ some g
    pub notified :
        entered.world.notices ≡ s.world.notices ++ inbound_notice sender (summary sender resp) ∷ []
    pub context : Context
    pub rest_kept : result ≡ record after { world = record after.world { context = context } }
    pub peer_back : context.originating_peer ≡ s.world.context.originating_peer
    pub session_back : context.session_source ≡ s.world.context.session_source
    pub sent_back : context.sent_this_turn ≡ s.world.context.sent_this_turn

  abbrev event : MessageEvent
  event =
      routed_event C R S P cal ttl repr platform_of iat sender resp origin source
        s.world.conversations

  abbrev turn : Option String → State C R S P cal ttl repr platform_of
  turn g = routed_turn C R S P cal ttl repr platform_of handler sender g event answered

  abbrev entered_by : Option String → State C R S P cal ttl repr platform_of
  entered_by g = record answered {
    world = record answered.world {
      context = (enter_turn sender g event.source answered.world.context).1;
    };
  }

  in_group :
      (g : String)
      → group ≡ some g
      → is_empty g ≡ false
      → (entered_by (truthy (or_null group))).world.context.originating_group ≡ some g
  unfolding routed_event
  in_group g same full =
      ap (λ o. (enter_turn sender o source s.world.context).1.originating_group)
        (truthy-or_null group g same full)
      ∙ enter_group_lem sender g source s.world.context

  turn-IsAnswered : IsAnswered (turn (truthy (or_null group)))
  unfolding routed_turn routed_event
  turn-IsAnswered =
      let g = truthy (or_null group) in
      let out = handler event (entered_by g) in
      let (peer, here, fresh) = enter_turn_lem sender g source s.world.context in
      let (peer', here', fresh') = leave_lem sender g source s.world.context out.1.world.context in
      record {
        ev = event;
        entered = entered_by g;
        text = out.0;
        after = out.1;
        turned = refl;
        placed = refl;
        numbered = refl;
        told = (_, refl);
        of_peer = peer;
        in_session = here;
        fresh_turn = fresh;
        for_group = in_group;
        notified = refl;
        context = _;
        rest_kept = refl;
        peer_back = peer';
        session_back = here';
        sent_back = fresh';
      }

  handled :
      IsWellFormed cal ttl file
      → is_free cal ttl now file resp.request_nonce ≡ true
      → created cal ttl (object (asdict origin)) ≡ aware t
      → later ≤ t + ttl
      → IsForged cal ttl resp.request_nonce sender now later forged
      → IsKept platform_of source
      → s.origins ≡ attacked
      → (P.resolve resp.request_nonce resp s.pending).1 ≡ false
      → handle_service_response C R S P cal ttl repr platform_of
          (some handler)
          later
          writable
          iat
          sender
          (some resp)
          s
        ≡ routed_turn C R S P cal ttl repr platform_of handler sender
            (truthy (or_null group))
            (routed_event C R S P cal ttl repr platform_of iat sender resp origin source
              s.world.conversations)
            answered
  unfolding handle_service_response unclaimed route from_session_source
  handled dated free at_t in_time attack kept same waits =
      let found =
        pop_if-recorded cal ttl now t resp.request_nonce sender origin file later forged dated free
          at_t refl in_time attack in
      ground (
        arith,
        waits,
        same,
        found,
        origin_source-from_session_source platform_of cal built source sender group kept,
      )

  -- The answer of the peer that a request was sent to, within the time to live after `record` said
  -- that it stored the origin, opens one turn in the session that made the request, with that
  -- session's own source; its final text is not sent. This holds after any calls of `pop_if`, in the
  -- order of time, for other nonces or from other senders, if no tool waits for the answer, the record
  -- keeps the source whole, writes succeed and no stored time lacks its zone.
  pub handle_service_response-record :
      IsWellFormed cal ttl file
      → record_origin cal ttl now writable resp.request_nonce origin file
        ≡ some (stored, true, logs)
      → created cal ttl (object (asdict origin)) ≡ aware t
      → later ≤ t + ttl
      → IsForged cal ttl resp.request_nonce sender now later forged
      → IsKept platform_of source
      → s.origins ≡ attempts cal ttl forged stored
      → (P.resolve resp.request_nonce resp s.pending).1 ≡ false
      → IsAnswered (
          handle_service_response C R S P cal ttl repr platform_of
            (some handler)
            later
            writable
            iat
            sender
            (some resp)
            s)
  handle_service_response-record dated done at_t in_time attack kept same waits =
      let (free, is_stored) =
        record-stored cal ttl now t resp.request_nonce sender origin file stored logs dated done in
      subst IsAnswered
        (sym (
          handled dated free at_t in_time attack kept
            (same ∙ ap (attempts cal ttl forged) (sym is_stored)) waits))
        turn-IsAnswered
