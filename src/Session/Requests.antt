-- ===== src/Session/Requests.antt =====
-- Writing and waiting for a response (src/tekmar_482/session.py): `write_packet`, `_send_unlocked`,
-- `_write_and_wait_response`, `_remove_pending`. What the transport does with a packet is an
-- argument. A request runs in steps, since messages are dispatched between them.
pub mod Answers
use tekmar.Prelude.{
  ℕ, Bool, true, false, Option, none, some, List, [], ◌∷◌, ◌++◌, ◌==◌, if◌then◌else◌,
}
use mathlib.Core.Option
use tekmar.Exceptions.{TekmarError, Result, ok, err, ◌>>=◌}
use tekmar.Packet.{Packet}
use tekmar.Trpc.Message.{TrpcPacket, to_packet}
use tekmar.Trpc.Match.{TrpcCommand, ResponseMatch, MatchOptions, for_command, to_message}
use tekmar.Trpc.Fields.{mapping}
use tekmar.Session.Types.{
  Future, waiting, result, failed, cancelled, PendingRequest, QueuedUpdate, Session, create_future,
  settle, raise_if_unavailable,
}

module _ (transport_write : Packet → Result (Unit {0})) where
  unfoldable pub write_packet : Session → Packet → Result (Unit {0})
  unfolding raise_if_unavailable
  write_packet s packet = do available ← raise_if_unavailable s; transport_write packet

  unfoldable pub write_message : Session → TrpcPacket → Result (Unit {0})
  unfolding write_packet
  write_message s m = do packet ← to_packet m; write_packet s packet

  -- `_send_unlocked`.
  unfoldable pub send_unlocked : Session → TrpcCommand → Result TrpcPacket
  unfolding raise_if_unavailable to_message write_message
  send_unlocked s command = do
    available ← raise_if_unavailable s
    m ← to_message command
    written ← write_message s m
    ok m

-- `response_match or ResponseMatch.for_command(command)`.
unfoldable pub match_for : Option ResponseMatch → TrpcCommand → ResponseMatch
unfolding for_command
match_for given command = Option.get_or given (
    for_command command (record {
      response_method = none;
      response_services = none;
      address = none;
      fields = mapping [];
    }))

-- The start of `_write_and_wait_response`: a new future, and the request at the end of the list.
unfoldable pub start_request : PendingRequest → Session → Session
start_request p s = record (create_future p.future s) { pending = s.pending ++ (p ∷ []) }

pub remove_request : ℕ → List PendingRequest → List PendingRequest
remove_request id [] = []
remove_request id (p ∷ ps) =
    let rest = remove_request id ps in if p.future == id then ps else p ∷ rest

-- `_remove_pending`: no two requests have one future, so equal requests have equal futures.
unfoldable pub remove_pending : PendingRequest → Session → Session
unfolding remove_request
remove_pending p s = record s { pending = remove_request p.future s.pending }

-- What `_write_and_wait_response` does next: it waits on, returns, raises, or is cancelled.
pub data Outcome : Type 0 where
  waits_on stopped : Outcome
  returns : Option TrpcPacket → Outcome
  throws : TekmarError → Outcome

outcome : Future → Outcome
outcome waiting = waits_on
outcome (result m) = returns m
outcome (failed e) = throws e
outcome cancelled = stopped

unfoldable pub await_request : PendingRequest → Future → Session → Session × Outcome
unfolding outcome remove_pending
await_request p waiting s = (s, waits_on)
await_request p (result m) s = (remove_pending p s, returns m)
await_request p (failed e) s = (remove_pending p s, throws e)
await_request p cancelled s = (remove_pending p s, stopped)

-- `await future` and the `finally` behind it.
unfoldable pub poll_request : PendingRequest → Session → Session × Outcome
unfolding await_request
poll_request p s = await_request p (s.futures p.future) s

-- `asyncio.wait_for` cancels the future when the time is over, unless it is done.
unfoldable pub time_out_in : PendingRequest → Future → Session → Session × Outcome
unfolding outcome remove_pending settle
time_out_in p waiting s =
    (remove_pending p (record s { futures = settle p.future cancelled s.futures }), returns none)
time_out_in p f s = (remove_pending p s, outcome f)

unfoldable pub time_out_request : PendingRequest → Session → Session × Outcome
unfolding time_out_in
time_out_request p s = time_out_in p (s.futures p.future) s
