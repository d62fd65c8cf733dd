-- ===== src/Transport/Receiving.antt =====
-- The packets that a reader of `_TpckProtocol` gets (src/tekmar_482/transport.py), for bytes that
-- arrive in any pieces between its reads.
pub mod Reads
use tekmar.Prelude.{
  ℕ, zero, suc, ◌≤◌, ◌≡◌, refl, sym, ap, ◌∙◌, Bool, Bool-cases, inl, inr, true, false, Option, none,
  some, List, [], ◌∷◌, ◌++◌, append_assoc, append-nil, Bytes, length, length-append, arith,
  if◌then◌else◌,
}
use tekmar.Exceptions.{ok, err}
use tekmar.Packet.{Packet}
use tekmar.Tpck.{TpckParser, FedMany, new_parser, feed_many}
use tekmar.Tpck.Stream.{Stream, and_then, prepend, feed_many-append, feed_many-Stream}
use tekmar.Transport.{
  Link, Fault, Waiter, failed, waiter_done, lost_error, TpckProtocol, is_open, wake_at,
  wake_drain_waiter, after_parser, data_received, connection_lost,
}
use tekmar.Transport.Calls.{Reading, packet, no_read, waits, read_nothing, read_first, read_round}

-- What happens to the reader's end of the connection.
pub data Event : Type 0 where
  receive : Bytes → Event
  read : Event
  lose : Option Fault → Event

-- The bytes of a sequence of events.
unfoldable pub input : List Event → Bytes
input [] = []
input (receive bytes ∷ events) = bytes ++ input events
input (read ∷ events) = input events
input (lose exc ∷ events) = input events

-- The packet that a read returns, in a list.
abbrev pub packets_of : Reading → List Packet
packets_of (packet p) = p ∷ []
packets_of (no_read e) = []
packets_of waits = []

module _ {T : Type 0} (link : Link T) where
  unfoldable pub handle : Event → TpckProtocol T → TpckProtocol T × List Packet
  unfolding data_received read_round connection_lost
  handle (receive bytes) p = (data_received link bytes p, [])
  handle read p = ((read_round link p).0, packets_of (read_round link p).1)
  handle (lose exc) p = (connection_lost link exc p, [])

  -- The protocol behind the events, and the packets that were read.
  unfoldable pub run : List Event → TpckProtocol T → TpckProtocol T × List Packet
  unfolding handle
  run [] p = (p, [])
  run (event ∷ events) p =
      let rest = run events (handle event p).0 in (rest.0, (handle event p).1 ++ rest.1)

  read_nothing-keeps :
      (error : Option Fault) (p : TpckProtocol T)
      → p.packets ≡ []
      → ((read_nothing link error p).0.parser ≡ p.parser)
        × (packets_of (read_nothing link error p).1 ++ (read_nothing link error p).0.packets ≡ [])
  unfolding read_nothing
  read_nothing-keeps (some e) p h = (refl, h)
  read_nothing-keeps none p h = elim (Bool-cases (is_open link p)) [
    | inl is_so ↦ rw is_so (refl, h)
    | inr is_so ↦ rw is_so (refl, h)
  ]

  pub read_first-keeps :
      (packets : List Packet) (p : TpckProtocol T)
      → p.packets ≡ packets
      → ((read_first link packets p).0.parser ≡ p.parser)
        × (packets_of (read_first link packets p).1 ++ (read_first link packets p).0.packets
            ≡ packets)
  unfolding read_first
  read_first-keeps (first ∷ rest) p h = (refl, refl)
  read_first-keeps [] p h = read_nothing-keeps p.error p h

  read_round-keeps :
      (p : TpckProtocol T)
      → ((read_round link p).0.parser ≡ p.parser)
        × (packets_of (read_round link p).1 ++ (read_round link p).0.packets ≡ p.packets)
  unfolding read_round
  read_round-keeps p = read_first-keeps p.packets p refl

  wake_at-keeps :
      (id : Option ℕ) (outcome : Waiter) (p : TpckProtocol T)
      → ((wake_at id outcome p).parser ≡ p.parser) × ((wake_at id outcome p).packets ≡ p.packets)
  unfolding wake_at
  wake_at-keeps none outcome p = (refl, refl)
  wake_at-keeps (some id) outcome p = elim (Bool-cases (waiter_done (p.waiters id))) [
    | inl is_so ↦ rw is_so (refl, refl)
    | inr is_so ↦ rw is_so (refl, refl)
  ]

  -- The protocol before `connection_lost` wakes the writers.
  abbrev lost : Option Fault → TpckProtocol T → TpckProtocol T
  lost exc p = record p {
    transport = none;
    drain_waiter = none;
    error = some (lost_error exc);
    packet_event = true;
  }

  connection_lost-keeps :
      (exc : Option Fault) (p : TpckProtocol T)
      → ((connection_lost link exc p).parser ≡ p.parser)
        × ((connection_lost link exc p).packets ≡ p.packets)
  unfolding connection_lost wake_drain_waiter wake_at
  connection_lost-keeps exc p = wake_at-keeps p.drain_waiter (failed (lost_error exc)) (lost exc p)

  after_parser-keeps :
      (p : TpckProtocol T) (q : TpckParser) (packets : List Packet)
      → ((after_parser link p (q, ok packets)).parser ≡ q)
        × ((after_parser link p (q, ok packets)).packets ≡ p.packets ++ packets)
  unfolding after_parser
  after_parser-keeps p q [] = (refl, sym (append-nil p.packets))
  after_parser-keeps p q (first ∷ packets) = (refl, refl)

prepend-ok :
    (before : List Packet) (fed : FedMany) (q : TpckParser) (packets : List Packet)
    → prepend before fed ≡ (q, ok packets)
    → (after : List Packet) × (fed ≡ (q, ok after)) × (before ++ after ≡ packets)
prepend-ok before (p, err e) q packets h = cc
prepend-ok before (p, ok after) q packets h = (after, cc, cc)

-- If two calls in a row return packets, the first call does.
and_then-ok :
    (first : FedMany) (next : TpckParser → FedMany) (q : TpckParser) (packets : List Packet)
    → and_then first next ≡ (q, ok packets)
    → (between : TpckParser) × (before : List Packet) × (after : List Packet) × (first
        ≡ (between, ok before))
      × (next between ≡ (q, ok after))
      × (before ++ after ≡ packets)
and_then-ok (p, err e) next q packets h = cc
and_then-ok (p, ok before) next q packets h =
    let (after, a, b) = prepend-ok before (next p) q packets h in (p, before, after, refl, a, b)

nothing-fed :
    (p q : TpckParser) (packets : List Packet)
    → ◌≡◌ {A = FedMany} (p, ok []) (q, ok packets)
    → (p ≡ q) × (packets ≡ [])
nothing-fed p q packets h = (cc, cc)

-- One event and the rest of them: what is read and what is queued.
read-chain :
    (read_now read_then queued old between before after packets : List Packet)
    → read_now ++ between ≡ old ++ before
    → read_then ++ queued ≡ between ++ after
    → before ++ after ≡ packets
    → (read_now ++ read_then) ++ queued ≡ old ++ packets
read-chain read_now read_then queued old between before after packets h i j = grind (
  arith,
  append_assoc read_now read_then queued,
  append_assoc read_now between after,
  append_assoc old before after,
)

module _ {T : Type 0} (link : Link T) where
  run-chain :
      (event : Event) (events : List Event) (p : TpckProtocol T) (q : TpckParser)
      (before after packets : List Packet)
      → (handle link event p).1 ++ (handle link event p).0.packets ≡ p.packets ++ before
      → ((run link events (handle link event p).0).0.parser ≡ q)
        × ((run link events (handle link event p).0).1
              ++ (run link events (handle link event p).0).0.packets
            ≡ (handle link event p).0.packets ++ after)
      → before ++ after ≡ packets
      → ((run link (event ∷ events) p).0.parser ≡ q)
        × ((run link (event ∷ events) p).1 ++ (run link (event ∷ events) p).0.packets
            ≡ p.packets ++ packets)
  unfolding run
  run-chain event events p q before after packets h (parsed, i) j = (
    parsed,
    read-chain (handle link event p).1 (run link events (handle link event p).0).1
        (run link events (handle link event p).0).0.packets p.packets
        (handle link event p).0.packets before after packets h i j,
  )

  after_parser-fed :
      (p : TpckProtocol T) (fed : FedMany) (q : TpckParser) (packets : List Packet)
      → fed ≡ (q, ok packets)
      → ((after_parser link p fed).parser ≡ q)
        × ((after_parser link p fed).packets ≡ p.packets ++ packets)
  after_parser-fed p fed q packets h = rw h (after_parser-keeps link p q packets)

  -- Whatever reads and losses come between the pieces of the input: what was read, followed by what
  -- is queued, is what was queued before, followed by what the parser makes of the whole input.
  pub run-feed_many :
      (events : List Event) (p : TpckProtocol T) (q : TpckParser) (packets : List Packet)
      → feed_many p.parser (input events) ≡ (q, ok packets)
      → ((run link events p).0.parser ≡ q)
        × ((run link events p).1 ++ (run link events p).0.packets ≡ p.packets ++ packets)
  unfolding input feed_many handle run data_received
  run-feed_many [] p q packets h =
      let (same, no_packets) = nothing-fed p.parser q packets h in
      (same, sym (append-nil p.packets) ∙ ap (λ l. p.packets ++ l) (sym no_packets))
  run-feed_many (receive bytes ∷ events) p q packets h =
      let (between, before, after, now, then_, joined) =
        and_then-ok (feed_many p.parser bytes) (λ r. feed_many r (input events)) q packets
          (sym (feed_many-append p.parser bytes (input events)) ∙ h) in
      let keeps = after_parser-fed p (feed_many p.parser bytes) between before now in
      run-chain (receive bytes) events p q before after packets keeps.1
        (run-feed_many events (handle link (receive bytes) p).0 q after (rw (keeps.0) then_)) joined
  run-feed_many (read ∷ events) p q packets h =
      let keeps = read_round-keeps link p in
      run-chain read events p q [] packets packets (keeps.1 ∙ sym (append-nil p.packets))
        (run-feed_many events (handle link read p).0 q packets (rw (keeps.0) h)) refl
  run-feed_many (lose exc ∷ events) p q packets h =
      let keeps = connection_lost-keeps link exc p in
      run-chain (lose exc) events p q [] packets packets (keeps.1 ∙ sym (append-nil p.packets))
        (run-feed_many events (handle link (lose exc) p).0 q packets (rw (keeps.0) h)) refl
