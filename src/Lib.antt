-- ===== src/Lib.antt =====
-- aap-hermes is a plugin of the Hermes gateway: it lets a user's agent exchange signed messages with
-- other agents over the AAP protocol. This library models its core: how an inbound message is
-- admitted and handed to the language model, what may be sent back and to whom, how a service
-- request and its answer find their session, how groups and relationships change on both sides, and
-- how the user answers what peers ask.
--
-- The parts, and the files that model them:
--
-- * service_request_origins.py, the persisted index from the nonce of a service request to the
--   session that made it: Origins. The methods `record` and `pop_if` are `record_origin` and
--   `pop_if`, `_prune`, `_load` and `_save` are `prune`, `load` and `save`. The state is the file;
--   the clock, the calendar and what a write meets are arguments. Origins/Fields is
--   `RequestOrigin` with its form in the file; Origins/Prune, View, Record, Pop
--   and Life hold the lemmas: a view of the live entries, and each method against it.
-- * turn_context.py, the context variables of a task: TurnContext. A record with one field each; a
--   set returns the token that its reset takes.
-- * adapter.py. Adapter/Stores has the stores of the `aap` package as interfaces. Adapter/Chat and
--   Adapter/Dispatch are the end of `_dispatch`, from the chat gate on, and `send`: `trust_preamble`
--   is the gate, `event_of` the event, `run_turn` the turn with its sets and resets, `ingest` the
--   decoupled path. Adapter/GroupNote and Adapter/PeerNotes are the texts of the preambles,
--   Adapter/Noise the filters of texts that are never sent. Adapter/Groups and
--   Adapter/Relationships are the handlers of the group and relationship payloads.
--   Adapter/Services is `_handle_service_response`, which calls `pop_if` of Origins.
--   Adapter/Inbound is `_dispatch_loop` and the start of `_dispatch`: `claimed` decodes a row,
--   `peer_key` is the cache `peer_keys` with the look-ups behind it, `route` the routing by the
--   payload's type to a record of handlers. Adapter/Identities is `_verify_identity_attestations`
--   with the matching of contacts, Adapter/Proposals `_handle_relationship_proposal` with its prompt,
--   Adapter/Introductions `_handle_discovery_introduction_request`, Adapter/Followups the refusal of
--   service requests and the follow-ups, Adapter/HomeReply `enqueue_group_home_reply`,
--   Adapter/Bindings the name of a bound peer and the identity-binding prompt, whose text, in
--   consent.py, is Consent.
-- * discovery.py, the prompt of an introduction: Adapter/Introductions/Prompt.
-- * tools.py, the tools of the model: Tools/Send is `aap_send_message_handler`, over the adapter's state, Tools/Services
--   `aap_send_service_request_handler`, whose checks are `checked`, Tools/Groups the three group
--   tools, Tools/Relationships the proposal and the revocation. address_input.py: Tools/Address.
-- * commands.py, the commands of the user: Commands/Groups has `_group_start`, `_group_add`, `_group_remove` and
--   `_group_leave`, Commands/Friends the answers to a proposal, Commands/Discover the answers to an
--   introduction, Commands/Bindings the binding of a peer to a contact,
--   Commands/Rotation the rotation of our key, Commands/Overrides the local changes to the list of
--   trusted verifiers. _runtime.py, the hook that reads a bare word as such an answer: Runtime.
-- * __init__.py, the interactive setup: Setup. Setup/Desk has the console, the network and the keys as
--   one interface, the files, and the steps, which pass the files on and may raise; Setup/Email is
--   `_drive_email_verification`, Setup/Claim `_run_claim_flow` with `_submit_address_op`, Setup/Hosted
--   `_setup_hosted_path` with the check of a name, Setup/Byod `_setup_byod_path`. Commands/Rotation
--   uses the same interface, and its check of the verifier's answer is `start_response` of Setup/Email.
-- * anti_relay.py, which reads the senders of a session back from its rows: AntiRelay. The regular
--   expression is `agent_prefix`. ingest.py, which writes the rows: Ingest.
-- * peer_threads.py, the file of the last thread of each peer: PeerThreads.
-- * mirror.py, the file of the groups that each home chat was told of, and the reply that goes back:
--   HomeContexts; `home_reply` is `mirror_home_reply_to_group_session` up to the adapter's queue, and
--   Adapter/HomeReply has the whole of it.
-- * contacts.py, the address book: Contacts.
-- * reasoning.py, the scheduler of turns: Reasoning. A step is a signal, the waking of a session's
--   task, the end of its turn, or `close`; every order of steps is a list of actions.
--
-- The gateway (Gateway) and the `aap` package are not in the repository: their stores are records of
-- operations, with the laws that a theorem needs as a hypothesis, and Examples/Stores has instances
-- that satisfy them. The handler of the gateway is any function from the event and the whole state
-- to a reply and a state, so that it may call any tool. The relay is a function from an envelope to
-- its id or an error.
--
-- Conventions: `none` is an exception where an operation may raise; times are microseconds; texts
-- are sequences of characters, and Python's operations on them are in Prelude/Text. The recursions
-- on fuel are `show`, the digits of a number, whose fuel is the number itself plus one, and the loop of
-- the hosted setup, whose fuel bounds the rounds: every round uses up an answer of the user.
--
-- What goes between two agents is composed from the operations of both: the envelopes that one side
-- hands to the relay are the arguments of the other side's handlers. A store of the other side is a
-- second state of the same interface.
--
-- Not modelled: the poll loop, the connection and the network; the tools and commands that list or
-- describe, and those for the verification of an identity, which mostly call the `aap` package; the
-- commands that inspect and clear the session files; the registration of the
-- plugin, and what the setup prints; the posting of notices, whose arguments are kept as
-- values; log lines, but for those of the request origins. The
-- adapter is taken to have a message handler. Adapter/Handlers gives the routing of Adapter/Inbound
-- the handlers that are modelled; the turn of a chat message and that of a service's answer are
-- arguments there.
mod Prelude
pub mod Gateway
pub mod Origins
pub mod TurnContext
pub mod AntiRelay
pub mod Reasoning
pub mod Ingest
pub mod PeerThreads
pub mod HomeContexts
pub mod Contacts
pub mod Consent
pub mod Adapter
pub mod Tools
pub mod Commands
pub mod Setup
pub mod Runtime
pub mod Examples
