-- ===== src/Transport/Tests.antt =====
-- The model of src/tekmar_482/transport.py at concrete inputs.
use tekmar.Prelude.{
  ℕ, ◌≡◌, ◌≢◌, ◌<◌, refl, Bool, true, false, none, some, List, [], ◌∷◌, ◌++◌, Bytes, arith,
}
use tekmar.Exceptions.{ok}
use tekmar.Packet.{Packet}
use tekmar.Tpck.{serialize}
use tekmar.Tpck.Stream.{nil, noise, packet}
use tekmar.Transport.{
  Link, pending, TpckProtocol, new_protocol, connection_made, resume_writing, connection_lost,
  pause_writing,
}
use tekmar.Transport.Calls.{
  start_write, waits_for, required_link, write_on, write_serialized, drain_round, join_waiter,
  new_drain_waiter,
}
use tekmar.Transport.Receiving.{Event, receive, read, lose, run, input}
use tekmar.Transport.Receiving.Reads.{reads, run-Stream}
use tekmar.Transport.Steps.{Reaches, here, then_step, pause, write}
use tekmar.Transport.Waking.Reached.{Reaches-wakes}

-- A transport that keeps what is written; the first part says whether it is closing.
abbrev tape : Link (Bool × Bytes)
tape = record {
  write = λ bytes t. (t.0, t.1 ++ bytes);
  close_link = λ t. (true, t.1);
  is_closing = λ t. t.0;
  close_link-closes = λ t. refl;
}

abbrev connected : TpckProtocol (Bool × Bytes)
connected = connection_made tape (some (false, [])) new_protocol

abbrev small : Packet
small = record { type = 5; payload = 1 ∷ [] }

-- A byte of noise, half a frame, a read, the rest of it and the loss of the connection.
abbrev pieces : List Event
pieces = receive (7 ∷ 0xCA ∷ 1 ∷ []) ∷ read ∷ receive (5 ∷ 1 ∷ 7 ∷ 0x35 ∷ []) ∷ lose none ∷ []

small-serialized : serialize small ≡ ok (0xCA ∷ 1 ∷ 5 ∷ 1 ∷ 7 ∷ 0x35 ∷ [])
unfolding serialize
small-serialized = refl

run-Stream_example : (run tape (pieces ++ reads 2) connected).1 ≡ small ∷ []
unfolding input connection_made new_protocol
run-Stream_example =
    run-Stream tape pieces 2 connected refl refl
      (noise 7 (omega arith) (packet small (omega arith) small-serialized nil refl)) (omega arith)

-- A writer waits while writing is paused.
abbrev waiting_writer : TpckProtocol (Bool × Bytes)
waiting_writer = (start_write tape small (pause_writing tape connected)).0

waiting_writer-waits : (start_write tape small (pause_writing tape connected)).1 ≡ waits_for 0
unfolding start_write pause_writing connection_made new_protocol required_link write_on
    write_serialized serialize drain_round join_waiter new_drain_waiter
waiting_writer-waits = refl

waiting_writer-Reaches : Reaches tape connected waiting_writer
waiting_writer-Reaches = then_step (then_step here pause) (write small)

Reaches-wakes_example :
    (waiting_writer.packet_event ≡ false
      → (waiting_writer.packets ≡ []) × (waiting_writer.error ≡ none))
    × ((id : ℕ)
        → id < (resume_writing tape waiting_writer).next_waiter
        → (resume_writing tape waiting_writer).waiters id ≢ pending)
    × ((id : ℕ)
        → id < (connection_lost tape none waiting_writer).next_waiter
        → (connection_lost tape none waiting_writer).waiters id ≢ pending)
Reaches-wakes_example = Reaches-wakes tape (false, []) waiting_writer none waiting_writer-Reaches
