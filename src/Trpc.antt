-- ===== src/Trpc.antt =====
-- src/tekmar_482/trpc.py: tRPC messages, by parts.
pub mod Ints
pub mod Spec
pub mod Methods
pub mod Lookup
pub mod Fields
pub mod Message
pub mod Match
mod Tests
