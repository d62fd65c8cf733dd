-- ===== src/Lib.antt =====
-- A model of the tekmar 482 gateway library (Python, src/tekmar_482/*.py) and its theorems.
--
-- The program talks to a tekmar 482 gateway over a byte stream. Each module here models one part:
-- - Packet (src/tekmar_482/packet.py): a packet is an 8-bit type with payload bytes.
-- - Exceptions (src/tekmar_482/exceptions.py): the exception classes, and results as values.
-- - Tpck (src/tekmar_482/tpck.py): byte framing. `serialize`, and `TpckParser` as a record whose
--   methods `feed` and `feed_many` return the new state beside the result. Frame, Decode, Stream
--   and Parser hold the proofs.
-- - Trpc (src/tekmar_482/trpc.py): messages. Ints has the integer codec, Spec the field layouts and
--   `normalize_fields`, Methods the tables of services and methods, Lookup the searches by id and
--   by name, Fields the payload classes, Message `TrpcPacket`, Match `TrpcCommand` and
--   `ResponseMatch`.
-- - Session (src/tekmar_482/session.py): `Tekmar482Session`. Types has the state, Dispatch the
--   reading and matching of messages and the report queues, Requests a request and its wait, Updates
--   the coalesced updates, Life the errors of the reader, `open` and `close`, and Steps the relation
--   of the interleavings of all of these. Futures and queues are shared objects: the state maps
--   identities to their values. A step is a stretch of code between two `await`s.
-- - Models (src/tekmar_482/models.py, src/tekmar_482/constants.py): Setback the enumeration, Setpoints
--   `SetpointValues`, with the JSON shape in Raw, Device the discovered devices and the table of
--   their types, Runtime `DeviceRuntime` and the snapshots.
-- - State (src/tekmar_482/state.py): the tables of methods, in Apply `apply_message`, whose result
--   is None, new data, or TypeError as a value, and in Holder `Tekmar482State`.
-- - Client (src/tekmar_482/client.py): the coroutines of `Tekmar482Client` as actions on a world: the
--   world afterwards, and a value or an exception. Calls has `SessionCalls`, the calls of the session
--   that the client makes, Discovery `discover` with its requests, Poll `_dump_setpoints` and the
--   single requests, Snapshot the polls up to `dump_available_info`, Writes the setters. A call may
--   answer None at any time, which covers every timeout.
-- - Transport (src/tekmar_482/transport.py): `_TpckProtocol`. Its callbacks are in Transport, its
--   coroutines, between their awaits, in Calls; Opening has the serial and the TCP transport over it,
--   Null the transport in memory, Receiving the reader's end, Steps the relation of all
--   interleavings. The transport of asyncio is the interface `Link`; connecting is a parameter.
-- - Simulator (src/tekmar_482/simulator.py): `TraceReplayTransport`, and in Replay the writes that
--   its script accepts.
-- - Controller (src/tekmar_482/controller.py): `Tekmar482Controller` as actions on the controller beside
--   the world of its client and its listeners, which are the interface `ControllerCalls`. Listeners do
--   not act on the controller. Running has `start`, `stop`, `refresh_runtime` and `rediscover`,
--   Listening and Started the proofs, Handles the device handles.
-- - Wire: a message through `to_packet`, `serialize`, `feed_many` and `from_packet`.
--
-- Conventions. Integers of the program are numbers at least 0, but for those that the guards of the
-- writes check, which are any integers; `& 0xFF` and the masks of `_pack_int` are remainders. A
-- dict is an association list in insertion order. An exception is the `err` of a result, with its
-- class and without its message. The loops are recursions on their lists, so no fuel is used, but
-- for the loop `while True` of `get_inventory_addresses`: it is given a number of rounds, and one
-- more than the addresses that the session delivers is enough. A loop that waits for an event is
-- one round of it, which says whether it waits. An interface record has the calls that a module
-- makes of the code around it; the one of asyncio's transport has a law too.
--
-- In part: of models.py the decoded views and all JSON views but that of `SetpointValues` are left
-- out; of session.py the tasks, locks, conditions and clocks of asyncio; of client.py the setters in
-- Celsius and the methods that only pass a call on; of simulator.py the JSON shape of a trace and its
-- files; of controller.py the reconnecting part of the report loop and the setters in Celsius.
--
-- Not modelled: src/tekmar_482/decoding.py and src/tekmar_482/units.py, conversions to and from
-- floats, with the texts for display; src/tekmar_482/_deadline.py, which is the clock; the command
-- line (src/tekmar_482/cli.py), which is input and output; src/tekmar_482/__init__.py, re-exports.
pub mod Prelude
pub mod Exceptions
pub mod Packet
pub mod Tpck
pub mod Trpc
pub mod Wire
pub mod Session
pub mod Models
pub mod State
pub mod Client
pub mod Transport
pub mod Simulator
pub mod Controller
