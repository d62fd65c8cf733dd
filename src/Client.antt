-- ===== src/Client.antt =====
-- src/tekmar_482/client.py: what the client asks of the session, and what it makes of the answers.
pub mod Action
pub mod Calls
pub mod Discovery
pub mod Poll
pub mod Snapshot
pub mod Writes
pub mod ReadOnly
mod Tests
