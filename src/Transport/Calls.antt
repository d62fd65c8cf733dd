-- ===== src/Transport/Calls.antt =====
-- The coroutines of `_TpckProtocol` (src/tekmar_482/transport.py): `close`, `read_packet` and
-- `write_packet`, between their awaits.
use tekmar.Prelude.{
  ℕ, ◌+◌, Bool, false, not, Option, none, some, List, [], ◌∷◌, Bytes, if◌then◌else◌,
}
use tekmar.Prelude.Store.{assign}
use tekmar.Exceptions.{Result, ok, err, connection_closed}
use tekmar.Packet.{Packet}
use tekmar.Tpck.{reset, serialize}
use tekmar.Transport.{
  Link, Fault, tekmar_error, event_loop, Waiter, pending, resolved, cancelled, failed, waiter_done,
  TpckProtocol, is_open,
}

-- What a reader meets in a round of its loop: a packet, an exception, or a wait for the event.
pub data Reading : Type 0 where
  packet : Packet → Reading
  no_read : Fault → Reading
  waits : Reading

-- What a writer meets: the end, an exception, or a wait for a drain waiter.
pub data Writing : Type 0 where
  written : Writing
  no_write : Fault → Writing
  waits_for : ℕ → Writing

-- What `_require_transport` returns or raises.
pub data Required (T : Type 0) : Type 0 where
  usable : T → Required T
  refused : Fault → Required T

is_pending : Option Waiter → Bool
unfolding waiter_done
is_pending none = false
is_pending (some waiter) = not (waiter_done waiter)

module _ {T : Type 0} (link : Link T) where
  -- `if transport is not None and not transport.is_closing(): transport.close()`.
  unfoldable pub close_unless_closing : Option T → Option T
  close_unless_closing none = none
  close_unless_closing (some t) = some (if link.is_closing t then t else link.close_link t)

  -- `close` up to its wait for the closed waiter, if it waits, and behind the wait.
  unfoldable pub start_close : TpckProtocol T → TpckProtocol T × Bool
  unfolding close_unless_closing is_pending
  start_close p =
      (record p { transport = close_unless_closing p.transport }, is_pending p.closed_waiter)

  unfoldable pub finish_close : TpckProtocol T → TpckProtocol T
  finish_close p = record p { packets = []; parser = reset p.parser }

  -- A round of `read_next` that finds no packet. Nothing runs between the clearing of the event and
  -- the tests behind it, so they find what the tests before it found.
  unfoldable pub read_nothing : Option Fault → TpckProtocol T → TpckProtocol T × Reading
  unfolding is_open
  read_nothing (some e) p = (p, no_read e)
  read_nothing none p =
      if is_open link p
      then (record p { packet_event = false }, waits)
      else (p, no_read (tekmar_error connection_closed))

  unfoldable pub read_first : List Packet → TpckProtocol T → TpckProtocol T × Reading
  unfolding read_nothing
  read_first [] p = read_nothing p.error p
  read_first (first ∷ rest) p = (record p { packets = rest }, packet first)

  unfoldable pub read_round : TpckProtocol T → TpckProtocol T × Reading
  unfolding read_first
  read_round p = read_first p.packets p

  -- `_require_transport`.
  unfoldable pub required_link : Option Fault → Option T → Required T
  required_link (some e) transport = refused e
  required_link none none = refused (tekmar_error connection_closed)
  required_link none (some t) =
      if link.is_closing t then refused (tekmar_error connection_closed) else usable t

  unfoldable pub end_write : Option Fault → Writing
  end_write none = written
  end_write (some e) = no_write e

  -- The wait of `_drain`: a new waiter if there is none or the one there is done.
  unfoldable pub new_drain_waiter : TpckProtocol T → TpckProtocol T × Writing
  new_drain_waiter p = (
    record p {
      drain_waiter = some p.next_waiter;
      waiters = assign p.waiters p.next_waiter pending;
      next_waiter = p.next_waiter + 1;
    },
    waits_for p.next_waiter,
  )

  unfoldable pub join_waiter : Option ℕ → TpckProtocol T → TpckProtocol T × Writing
  unfolding new_drain_waiter waiter_done
  join_waiter none p = new_drain_waiter p
  join_waiter (some id) p =
      if waiter_done (p.waiters id) then new_drain_waiter p else (p, waits_for id)

  -- A round of `_drain`, and the end of `write_packet` behind it.
  unfoldable pub drain_round : TpckProtocol T → TpckProtocol T × Writing
  unfolding join_waiter end_write
  drain_round p = if p.paused then join_waiter p.drain_waiter p else (p, end_write p.error)

  -- A writer that waited: the waiter's exception ends it.
  unfoldable pub after_waiter : Waiter → ℕ → TpckProtocol T → TpckProtocol T × Writing
  unfolding drain_round
  after_waiter pending id p = (p, waits_for id)
  after_waiter resolved id p = drain_round p
  after_waiter cancelled id p = (p, no_write (event_loop "CancelledError"))
  after_waiter (failed e) id p = (p, no_write e)

  unfoldable pub resume_write : ℕ → TpckProtocol T → TpckProtocol T × Writing
  unfolding after_waiter
  resume_write id p = after_waiter (p.waiters id) id p

  unfoldable pub write_serialized : T → Result Bytes → TpckProtocol T → TpckProtocol T × Writing
  unfolding drain_round
  write_serialized t (err e) p = (p, no_write (tekmar_error e))
  write_serialized t (ok bytes) p = drain_round (record p { transport = some (link.write bytes t) })

  unfoldable pub write_on : Required T → Packet → TpckProtocol T → TpckProtocol T × Writing
  unfolding write_serialized serialize
  write_on (usable t) sent p = write_serialized t (serialize sent) p
  write_on (refused e) sent p = (p, no_write e)

  -- `write_packet` up to its first wait.
  unfoldable pub start_write : Packet → TpckProtocol T → TpckProtocol T × Writing
  unfolding required_link write_on
  start_write sent p = write_on (required_link p.error p.transport) sent p
