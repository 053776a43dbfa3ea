-- ===== src/Tools.antt =====
-- tools.py: the tools that the language model calls.
pub mod Address
pub mod Send
pub mod Groups
pub mod Services
pub mod Relationships
