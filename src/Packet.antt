-- ===== src/Packet.antt =====
-- src/tekmar_482/packet.py: a packet is an 8-bit type with payload bytes.
use tekmar.Prelude.{ℕ, ◌<◌, ◌≤◌, ◌&&◌, Bytes, AreBytes, leb, if◌then◌else◌, ◌≡◌, arith, length}
use tekmar.Exceptions.{Result, ok, err, protocol_error}

abbrev pub type_trpc : ℕ
type_trpc = 6

abbrev pub max_packet_type : ℕ
max_packet_type = 0xFF

-- The field `data` of the source is `payload`.
pub record Packet : Type 0 where
  pub type : ℕ
  pub payload : Bytes

-- The constructor with `__post_init__`.
unfoldable pub new_packet : ℕ → Bytes → Result Packet
new_packet type payload =
    if leb 0 type && leb type max_packet_type
    then ok (record { type = type; payload = payload })
    else err protocol_error

-- A packet that a frame can carry.
pub record IsWire (p : Packet) : Type 0 where
  pub type_byte : p.type < 256
  pub short : length p.payload ≤ 255
  pub bytes : AreBytes p.payload

pub new_packet-ok :
    (type : ℕ) (payload : Bytes)
    → type < 256
    → new_packet type payload ≡ ok (record { type = type; payload = payload })
unfolding new_packet
new_packet-ok type payload h = ground arith
