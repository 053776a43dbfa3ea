-- ===== src/Examples.antt =====
-- Concrete stores and messages, and the theorems of the development applied to them.
pub mod Stores
pub mod World
pub mod Requests
pub mod Turns
pub mod Answers
pub mod Groups
pub mod Consent
pub mod Contexts
pub mod Noise
pub mod Homes
pub mod Phones
pub mod Meetings
pub mod Keys
pub mod Peers
pub mod Replies
pub mod Bookings
pub mod Inbox
pub mod Bindings
pub mod Setup
