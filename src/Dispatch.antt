-- ===== src/Dispatch.antt =====
-- locust/dispatch.py.
pub mod Kl
pub mod Users
pub mod Workers
pub mod Spawn
pub mod Dispatcher
mod Tests
