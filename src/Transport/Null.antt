-- ===== src/Transport/Null.antt =====
-- `NullTransport` (src/tekmar_482/transport.py): packets in memory.
use tekmar.Prelude.{Bool, true, false, List, [], ◌∷◌, ◌++◌, if◌then◌else◌}
use tekmar.Exceptions.{connection_closed}
use tekmar.Packet.{Packet}
use tekmar.Transport.{tekmar_error}
use tekmar.Transport.Calls.{Reading, packet, no_read, waits}

pub record NullTransport : Type 0 where
  pub packets : List Packet
  pub written : List Packet
  pub packet_event : Bool
  pub is_null_open : Bool

unfoldable pub new_null : NullTransport
new_null = record { packets = []; written = []; packet_event = false; is_null_open = false }

unfoldable pub open_null : NullTransport → NullTransport
open_null t = record t { is_null_open = true }

unfoldable pub close_null : NullTransport → NullTransport
close_null t = record t { is_null_open = false; packet_event = true }

-- A round of `read_next`; nothing runs between the clearing of the event and the test behind it.
read_null_at : List Packet → NullTransport → NullTransport × Reading
read_null_at (first ∷ rest) t = (record t { packets = rest }, packet first)
read_null_at [] t =
    if t.is_null_open
    then (record t { packet_event = false }, waits)
    else (t, no_read (tekmar_error connection_closed))

unfoldable pub read_null : NullTransport → NullTransport × Reading
unfolding read_null_at
read_null t = read_null_at t.packets t

-- `write_packet`, which does not ask whether the transport is open.
unfoldable pub write_null : Packet → NullTransport → NullTransport
write_null sent t = record t { written = t.written ++ (sent ∷ []) }

unfoldable pub queue_packet : Packet → NullTransport → NullTransport
queue_packet queued t = record t { packets = t.packets ++ (queued ∷ []); packet_event = true }
