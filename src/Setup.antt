-- ===== src/Setup.antt =====
-- __init__.py, `hermes gateway setup` for the adapter.
pub mod Desk
pub mod Email
pub mod Claim
pub mod Hosted
pub mod Byod
