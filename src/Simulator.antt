-- ===== src/Simulator.antt =====
-- src/tekmar_482/simulator.py: a transport that replays a script of writes and answers.
pub mod Replay
mod Tests
use tekmar.Prelude.{
  ℕ, ◌≡◌, ap, ◌∙◌, ◌↔◌, Bool, true, false, ◌&&◌, Option, none, some, List, [], ◌∷◌, ◌++◌, ◌==◌,
  length, if◌then◌else◌, arith,
}
use tekmar.Exceptions.{TekmarError, Result, ok, err, protocol_error, connection_closed, ◌>>=◌}
use tekmar.Packet.{Packet, type_trpc}
use tekmar.Trpc.Fields.{FieldsInput}
use tekmar.Trpc.Methods.{TrpcService, service_id}
use tekmar.Trpc.Message.{TrpcPacket, create, to_packet, from_packet}
use tekmar.Session.Updates.{same_key, same_key_iff}
use tekmar.Transport.{tekmar_error}
use tekmar.Transport.Calls.{Reading, packet, no_read, waits}

pub record TraceStep : Type 0 where
  pub sent : TrpcPacket
  pub received : List TrpcPacket

abbrev answers : Option TrpcPacket → List TrpcPacket
answers none = []
answers (some response) = response ∷ []

-- `TraceStep.request`.
unfoldable pub request_step : ℕ → Option TrpcPacket → FieldsInput → Result TraceStep
unfolding create service_id
request_step method response fields = do
  sent ← create (service_id TrpcService.request) method fields
  ok (record { sent = sent; received = answers response })

pub record TraceReplayTransport : Type 0 where
  pub steps : List TraceStep
  pub written : List Packet
  pub packets : List Packet
  pub packet_event : Bool
  pub is_replay_open : Bool

unfoldable pub new_replay : List TraceStep → TraceReplayTransport
new_replay steps = record {
  steps = steps;
  written = [];
  packets = [];
  packet_event = false;
  is_replay_open = false;
}

unfoldable pub pending_steps : TraceReplayTransport → ℕ
pending_steps t = length t.steps

unfoldable pub open_replay : TraceReplayTransport → TraceReplayTransport
open_replay t = record t { is_replay_open = true }

unfoldable pub close_replay : TraceReplayTransport → TraceReplayTransport
close_replay t = record t { is_replay_open = false; packet_event = true }

-- A round of `read_next`; nothing runs between the clearing of the event and the test behind it.
read_replay_at : List Packet → TraceReplayTransport → TraceReplayTransport × Reading
read_replay_at (first ∷ rest) t = (record t { packets = rest }, packet first)
read_replay_at [] t =
    if t.is_replay_open
    then (record t { packet_event = false }, waits)
    else (t, no_read (tekmar_error connection_closed))

unfoldable pub read_replay : TraceReplayTransport → TraceReplayTransport × Reading
unfolding read_replay_at
read_replay t = read_replay_at t.packets t

-- Equality of packets, a dataclass.
unfoldable pub same_packet : Packet → Packet → Bool
unfolding same_key
same_packet p q = p.type == q.type && same_key p.payload q.payload

packet-ext : (p q : Packet) → p.type ≡ q.type → p.payload ≡ q.payload → p ≡ q
packet-ext p q e f =
    ap (λ t. record { type = t; payload = p.payload }) e
    ∙ ap (λ b. record { type = q.type; payload = b }) f

pub same_packet_iff : (p q : Packet) → (same_packet p q ≡ true) ↔ (p ≡ q)
unfolding same_packet
same_packet_iff p q = (
  λ h.
      packet-ext p q (ground (arith, h)) ((same_key_iff p.payload q.payload).0 (ground (arith, h))),
  λ e.
      ground
        (arith, ap (λ r. r.type) e, (same_key_iff p.payload q.payload).1 (ap (λ r. r.payload) e)),
)

-- The transport that a call leaves, and what it raises.
abbrev pub Replied : Type 0
Replied = TraceReplayTransport × Option TekmarError

queue_encoded : Result Packet → TraceReplayTransport → Replied
queue_encoded (err e) t = (t, some e)
queue_encoded (ok queued) t =
    (record t { packets = t.packets ++ (queued ∷ []); packet_event = true }, none)

unfoldable pub queue_message : TrpcPacket → TraceReplayTransport → Replied
unfolding queue_encoded to_packet
queue_message message t = queue_encoded (to_packet message) t

-- An exception ends the calls that follow.
abbrev pub unless_raised : Replied → (TraceReplayTransport → Replied) → Replied
unless_raised (t, some e) next = (t, some e)
unless_raised (t, none) next = next t

-- The loop over `step.received`.
unfoldable pub queue_all : List TrpcPacket → TraceReplayTransport → Replied
unfolding queue_message
queue_all [] t = (t, none)
queue_all (message ∷ messages) t = unless_raised (queue_message message t) (queue_all messages)

-- `write_packet` behind its conversions: the packet is the one that the step expects, or not.
unfoldable pub write_expected :
    TraceStep → List TraceStep → Packet → Packet → TraceReplayTransport → Replied
unfolding queue_all same_packet
write_expected step rest sent expected t =
    if same_packet sent expected
    then queue_all step.received (record t { steps = rest; written = t.written ++ (sent ∷ []) })
    else (t, some protocol_error)

-- Parsing the packet and encoding the step's message, either of which may raise.
write_checked :
    Result TrpcPacket
    → Result Packet
    → TraceStep
    → List TraceStep
    → Packet
    → TraceReplayTransport
    → Replied
unfolding write_expected
write_checked (err e) expected step rest sent t = (t, some e)
write_checked (ok message) (err e) step rest sent t = (t, some e)
write_checked (ok message) (ok expected) step rest sent t = write_expected step rest sent expected t

-- With no step left, the text of the exception needs the message.
no_step : Result TrpcPacket → TekmarError
no_step (ok message) = protocol_error
no_step (err e) = e

write_at : List TraceStep → Packet → TraceReplayTransport → Replied
unfolding write_checked no_step from_packet to_packet
write_at [] sent t = (t, some (no_step (from_packet sent)))
write_at (step ∷ rest) sent t =
    write_checked (from_packet sent) (to_packet step.sent) step rest sent t

unfoldable pub write_replay : Packet → TraceReplayTransport → Replied
unfolding write_at
write_replay sent t =
    if sent.type == type_trpc then write_at t.steps sent t else (t, some protocol_error)

-- `assert_complete` does not raise.
unfoldable pub is_complete : TraceReplayTransport → Bool
unfolding pending_steps
is_complete t = pending_steps t == 0
