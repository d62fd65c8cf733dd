-- ===== src/Session.antt =====
-- src/tekmar_482/session.py: the session dispatcher, by parts. Each definition is one stretch of
-- code between two `await`s, which asyncio runs without interruption.
pub mod Types
pub mod Dispatch
pub mod Requests
pub mod Updates
pub mod Life
pub mod Steps
mod Tests
