-- ===== src/Wire.antt =====
-- A tRPC message through the whole stack: `to_packet` (src/tekmar_482/trpc.py), `serialize` and
-- `TpckParser` (src/tekmar_482/tpck.py), and `from_packet`.
pub mod Transmit
mod Tests
