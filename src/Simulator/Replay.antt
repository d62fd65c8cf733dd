-- ===== src/Simulator/Replay.antt =====
-- What a replay accepts (src/tekmar_482/simulator.py).
pub mod Accepting
use tekmar.Prelude.{
  ℕ, ◌≡◌, ◌↔◌, refl, sym, ap, ◌∙◌, Bool, true, false, ◌||◌, Bool-cases, inl, inr, Option, none,
  some, List, [], ◌∷◌, ◌++◌, append_assoc, append-nil, ◌==◌, if◌then◌else◌, arith,
}
use tekmar.Exceptions.{TekmarError, Result, ok, err, protocol_error}
use tekmar.Packet.{Packet, type_trpc}
use tekmar.Trpc.Message.{TrpcPacket, to_packet, from_packet}
use tekmar.Simulator.{
  TraceStep, TraceReplayTransport, same_packet, same_packet_iff, Replied, unless_raised,
  queue_encoded, queue_message, queue_all, write_expected, write_checked, no_step, write_at,
  write_replay,
}

-- Messages and their packets.
pub data Encoded : List TrpcPacket → List Packet → Type 0 where
  nil : Encoded [] []
  cons :
      {messages : List TrpcPacket} {packets : List Packet} (message : TrpcPacket) (p : Packet)
      → to_packet message ≡ ok p
      → Encoded messages packets
      → Encoded (message ∷ messages) (p ∷ packets)

-- The writes that the steps expect, and the packets that they answer with.
pub data Follows : List TraceStep → List Packet → List Packet → Type 0 where
  done : Follows [] [] []
  step :
      {steps : List TraceStep} {writes answers now : List Packet} (s : TraceStep) (sent : Packet)
      (message : TrpcPacket)
      → sent.type ≡ type_trpc
      → from_packet sent ≡ ok message
      → to_packet s.sent ≡ ok sent
      → Encoded s.received now
      → Follows steps writes answers
      → Follows (s ∷ steps) (sent ∷ writes) (now ++ answers)

-- Writes in a row, up to the first that raises.
unfoldable pub write_all : List Packet → TraceReplayTransport → Replied
unfolding write_replay
write_all [] t = (t, none)
write_all (sent ∷ writes) t = unless_raised (write_replay sent t) (write_all writes)

abbrev pub has_any : List Packet → Bool
has_any [] = false
has_any (p ∷ packets) = true

-- The transport behind accepted writes: the steps left, and the answers queued.
abbrev pub replayed :
    List TraceStep → List Packet → List Packet → TraceReplayTransport → TraceReplayTransport
replayed rest writes answers t = record t {
  steps = rest;
  written = t.written ++ writes;
  packets = t.packets ++ answers;
  packet_event = t.packet_event || has_any answers;
}

or_assoc : (a b c : Bool) → ((a || b) || c) ≡ (a || (b || c))
or_assoc a b c = ground arith

has_any-append : (now more : List Packet) → has_any (now ++ more) ≡ (has_any now || has_any more)
has_any-append [] more = refl
has_any-append (p ∷ now) more = ground arith

pub replayed-replayed :
    (rest last : List TraceStep) (writes more now later : List Packet) (t : TraceReplayTransport)
    → replayed last more later (replayed rest writes now t)
      ≡ replayed last (writes ++ more) (now ++ later) t
replayed-replayed rest last writes more now later t =
    rw
      (
        has_any-append now later,
        ← append_assoc t.written writes more,
        ← append_assoc t.packets now later,
        ← or_assoc t.packet_event (has_any now) (has_any later),
      )
      refl

or_false : (b : Bool) → (b || false) ≡ b
or_false b = ground arith

or_true : (b : Bool) → (b || true) ≡ true
or_true b = ground arith

pub replayed_nil : (t : TraceReplayTransport) → replayed t.steps [] [] t ≡ t
replayed_nil t = rw (append-nil t.written, append-nil t.packets, or_false t.packet_event) refl

-- One packet queued.
queued_one :
    (p : Packet) (t : TraceReplayTransport)
    → record t { packets = t.packets ++ (p ∷ []); packet_event = true }
      ≡ replayed t.steps [] (p ∷ []) t
queued_one p t = rw (append-nil t.written, or_true t.packet_event) refl

pub queue_all-Encoded :
    (messages : List TrpcPacket) (packets : List Packet) (t : TraceReplayTransport)
    → Encoded messages packets
    → queue_all messages t ≡ (replayed t.steps [] packets t, none)
unfolding queue_all queue_message queue_encoded
queue_all-Encoded _ _ t nil = ap (λ u. (u, none)) (sym (replayed_nil t))
queue_all-Encoded _ _ t (cons {messages} {packets} message p e rest) = rw e (
    ap (queue_all messages) (queued_one p t)
    ∙ queue_all-Encoded messages packets (replayed t.steps [] (p ∷ []) t) rest
    ∙ ap (λ u. (u, none)) (replayed-replayed t.steps t.steps [] [] (p ∷ []) packets t))

-- What a run of `queue_all` that does not raise has queued.
unfoldable pub Queued : List TrpcPacket → TraceReplayTransport → TraceReplayTransport → Type 0
Queued messages t t' =
    (packets : List Packet) × Encoded messages packets × (t' ≡ replayed t.steps [] packets t)

queue_encoded-Queued :
    (message : TrpcPacket) (messages : List TrpcPacket) (result : Result Packet)
    (t t' : TraceReplayTransport)
    → to_packet message ≡ result
    → unless_raised (queue_encoded result t) (queue_all messages) ≡ (t', none)
    → ((u : TraceReplayTransport) → queue_all messages u ≡ (t', none) → Queued messages u t')
    → Queued (message ∷ messages) t t'
unfolding queue_encoded Queued
queue_encoded-Queued message messages (err e) t t' encoded h others = cc
queue_encoded-Queued message messages (ok p) t t' encoded h others =
    let (packets, rest, after) =
      others (record t { packets = t.packets ++ (p ∷ []); packet_event = true }) h in
    (
      p ∷ packets,
      cons message p encoded rest,
      after
          ∙ ap (λ u. replayed u.steps [] packets u) (queued_one p t)
          ∙ replayed-replayed t.steps t.steps [] [] (p ∷ []) packets t,
    )

pub queue_all-Queued :
    (messages : List TrpcPacket) (t t' : TraceReplayTransport)
    → queue_all messages t ≡ (t', none)
    → Queued messages t t'
unfolding queue_all queue_message Queued
queue_all-Queued [] t t' h = ([], nil, ap (λ o. o.0) (sym h) ∙ sym (replayed_nil t))
queue_all-Queued (message ∷ messages) t t' h =
    queue_encoded-Queued message messages (to_packet message) t t' refl h
      (λ u. queue_all-Queued messages u t')
