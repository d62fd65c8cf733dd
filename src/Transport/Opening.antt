-- ===== src/Transport/Opening.antt =====
-- `SerialxTpckTransport` and `RawTcpTpckTransport` (src/tekmar_482/transport.py), which hold a
-- `_TpckProtocol` while they are open. The event loop and serialx connect it: a parameter.
use tekmar.Prelude.{Bool, false, ◌&&◌, Option, none, some, if◌then◌else◌}
use tekmar.Exceptions.{transport_error}
use tekmar.Packet.{Packet}
use tekmar.Transport.{Link, Fault, tekmar_error, TpckProtocol, new_protocol, is_open}
use tekmar.Transport.Calls.{
  Reading, no_read, Writing, no_write, read_round, start_write, start_close,
}

-- The field `_protocol`; the others are the arguments of connecting.
abbrev pub ProtocolTransport : Type 0 → Type 0
ProtocolTransport T = Option (TpckProtocol T)

-- Connecting calls the protocol back, and may raise.
abbrev pub Connect : Type 0 → Type 0
Connect T = TpckProtocol T → TpckProtocol T × Option Fault

module _ {T : Type 0} (link : Link T) where
  unfoldable pub is_transport_open : ProtocolTransport T → Bool
  unfolding is_open
  is_transport_open none = false
  is_transport_open (some p) = is_open link p

  -- The protocol is held only if connecting returns.
  unfoldable pub hold :
      ProtocolTransport T → TpckProtocol T × Option Fault → ProtocolTransport T × Option Fault
  hold transport (p, none) = (some p, none)
  hold transport (p, some e) = (transport, some e)

  -- `RawTcpTpckTransport.open`.
  unfoldable pub open_tcp : Connect T → ProtocolTransport T → ProtocolTransport T × Option Fault
  unfolding is_transport_open hold new_protocol
  open_tcp connect transport =
      if is_transport_open transport
      then (transport, none)
      else hold transport (connect new_protocol)

  -- `SerialxTpckTransport.open`: the module may be missing, or lack the function it is asked for.
  unfoldable pub open_serial :
      Bool → Bool → Connect T → ProtocolTransport T → ProtocolTransport T × Option Fault
  unfolding is_transport_open hold new_protocol
  open_serial installed exposes connect transport =
      if is_transport_open transport
      then (transport, none)
      else if installed && exposes
      then hold transport (connect new_protocol)
      else (transport, some (tekmar_error transport_error))

  -- `close` up to the wait in the protocol's `close`, with the protocol that it lets go.
  unfoldable pub close_transport_calls :
      ProtocolTransport T → ProtocolTransport T × Option (TpckProtocol T × Bool)
  unfolding start_close
  close_transport_calls none = (none, none)
  close_transport_calls (some p) = (none, some (start_close link p))

  -- `read_packet` and `write_packet`, up to their first waits.
  unfoldable pub read_transport : ProtocolTransport T → ProtocolTransport T × Reading
  unfolding read_round
  read_transport none = (none, no_read (tekmar_error transport_error))
  read_transport (some p) = let turn = read_round link p in (some turn.0, turn.1)

  unfoldable pub write_transport : Packet → ProtocolTransport T → ProtocolTransport T × Writing
  unfolding start_write
  write_transport packet none = (none, no_write (tekmar_error transport_error))
  write_transport packet (some p) = let turn = start_write link packet p in (some turn.0, turn.1)
