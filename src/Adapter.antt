-- ===== src/Adapter.antt =====
-- adapter.py.
pub mod Stores
pub mod Groups
pub mod Relationships
pub mod Chat
pub mod Dispatch
pub mod Noise
pub mod GroupNote
pub mod PeerNotes
pub mod Services
pub mod Inbound
pub mod Identities
pub mod Proposals
pub mod Introductions
pub mod HomeReply
pub mod Followups
pub mod Bindings
pub mod Handlers
