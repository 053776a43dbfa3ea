-- ===== src/Commands.antt =====
-- commands.py: the `/aap` commands of the user.
pub mod Friends
pub mod Discover
pub mod Groups
pub mod Bindings
pub mod Rotation
pub mod Overrides
