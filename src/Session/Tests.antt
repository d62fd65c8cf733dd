-- ===== src/Session/Tests.antt =====
-- Runs of the session model (src/tekmar_482/session.py) at concrete inputs.
use tekmar.Prelude.{
  ℕ, ◌≡◌, refl, Bool, true, false, inl, inr, none, some, List, [], ◌∷◌, ◌++◌, ◌==◌, if◌then◌else◌,
  arith,
}
use tekmar.Prelude.Dict.{lookup}
use tekmar.Prelude.Store.{assign}
use tekmar.Exceptions.{protocol_error, err}
use tekmar.Packet.{Packet, type_trpc}
use tekmar.Trpc.Message.{TrpcPacket}
use tekmar.Trpc.Match.{TrpcCommand, ResponseMatch, matches}
use tekmar.Session.Types.{
  Future, waiting, result, cancelled, is_done, PendingRequest, QueuedUpdate, message, stop,
  ReportQueue, Session, trim, put_report_item, publish_report, raise_if_unavailable,
}
use tekmar.Session.Types.Queues.{is_in, put_report_item-trim}
use tekmar.Session.Types.Invariant.{IsWellFormed}
use tekmar.Session.Dispatch.{dispatch_message, dispatch_packet, ready, read_until}
use tekmar.Session.Dispatch.Matching.{
  not_done, dispatch_message_matched, dispatch_message_unmatched, IsPassed,
}
use tekmar.Session.Dispatch.Reading.{read_until-first}
use tekmar.Session.Requests.{start_request, poll_request, returns}
use tekmar.Session.Requests.Answers.{dispatch_message_answers}
use tekmar.Session.Updates.{same_key, tuple_key, enqueue_update}
use tekmar.Session.Updates.Coalescing.{enqueue_update-replaces}
use tekmar.Session.Life.{set_reader_error, close, open_session}
use tekmar.Session.Life.Ending.{failed_unless_done, set_reader_error_lem, close_lem}
use tekmar.Session.Steps.{new_session, Step, Reaches, here, then_step}
use tekmar.Session.Steps.Done.{Reaches-KeepsDone}
use tekmar.Session.Steps.Bounds.{new_session-Reaches}

abbrev outdoor : TrpcPacket
outdoor = record { service_id = 2; method_id = 0x117; body = ("temp", 5) ∷ []; extra = [] }

abbrev network : TrpcPacket
network = record { service_id = 2; method_id = 0x137; body = ("error", 1) ∷ []; extra = [] }

abbrev match_method : ℕ → ResponseMatch
match_method method = record { method_id = method; service_ids = none; address = none; fields = [] }

-- A request for another method, one that is done, and the one that `outdoor` answers.
abbrev other_request : PendingRequest
other_request = record { match = match_method 0x137; future = 0; publish_match = false }

abbrev done_request : PendingRequest
done_request = record { match = match_method 0x117; future = 1; publish_match = false }

abbrev outdoor_request : PendingRequest
outdoor_request = record { match = match_method 0x117; future = 2; publish_match = true }

abbrev later_request : PendingRequest
later_request = record { match = match_method 0x117; future = 3; publish_match = false }

abbrev some_futures : ℕ → Future
some_futures id = if id == 1 then cancelled else waiting

abbrev command : TrpcCommand
command = record { service = 1; method = 0x117; fields = [] }

abbrev update_at : ℕ → QueuedUpdate
update_at id = record { command = command; future = id; response_match = none }

abbrev live : Session
live = record {
  max_message_backlog = 2;
  max_packet_backlog = 2;
  pending = other_request ∷ done_request ∷ outdoor_request ∷ later_request ∷ [];
  message_backlog = network ∷ outdoor ∷ [];
  packet_backlog = [];
  report_queues = 7 ∷ 8 ∷ [];
  coalesced_updates = (3 ∷ [], update_at 4) ∷ (5 ∷ 6 ∷ [], update_at 5) ∷ [];
  reader_error = none;
  closed = false;
  futures = some_futures;
  queues = λ id. record { max_size = 1; items = message network ∷ [] };
}

other-IsPassed : IsPassed outdoor some_futures other_request
unfolding matches
other-IsPassed = inr refl

done-IsPassed : IsPassed outdoor some_futures done_request
unfolding is_done
done-IsPassed = inl refl

outdoor-waits : is_done waiting ≡ false
unfolding is_done
outdoor-waits = refl

outdoor-matches : matches (match_method 0x117) outdoor ≡ true
unfolding matches
outdoor-matches = refl

abbrev answered : Session
answered = record live {
  pending = not_done some_futures (other_request ∷ done_request ∷ []) ++ (later_request ∷ []);
  futures = assign some_futures 2 (result (some outdoor));
}

dispatch_message_matched_example : dispatch_message outdoor live ≡ publish_report outdoor answered
dispatch_message_matched_example =
    dispatch_message_matched outdoor live (other_request ∷ done_request ∷ []) (later_request ∷ [])
      outdoor_request refl (other-IsPassed, (done-IsPassed, tt)) outdoor-waits outdoor-matches

abbrev two_pending : Session
two_pending = record live { pending = other_request ∷ done_request ∷ [] }

dispatch_message_unmatched_example :
    ((dispatch_message outdoor two_pending).pending ≡ not_done some_futures two_pending.pending)
    × ((dispatch_message outdoor two_pending).futures ≡ some_futures)
    × ((dispatch_message outdoor two_pending).message_backlog ≡ outdoor ∷ outdoor ∷ [])
    × ((id : ℕ)
        → (dispatch_message outdoor two_pending).queues id ≡ (
            if is_in id (7 ∷ 8 ∷ [])
            then put_report_item (two_pending.queues id) (message outdoor)
            else two_pending.queues id))
dispatch_message_unmatched_example =
    dispatch_message_unmatched outdoor two_pending (other-IsPassed, (done-IsPassed, tt))
      (refl, (refl, tt))

dispatch_message_answers_example :
    (poll_request later_request
      (dispatch_message outdoor (start_request later_request two_pending))).1
    ≡ returns (some outdoor)
dispatch_message_answers_example =
    dispatch_message_answers later_request outdoor two_pending refl
      (other-IsPassed, (done-IsPassed, tt)) outdoor-matches

abbrev is_outdoor : TrpcPacket → Bool
is_outdoor m = m.method_id == 0x117

read_until-first_example :
    read_until is_outdoor live ≡ (record live { message_backlog = network ∷ [] }, ready outdoor)
read_until-first_example =
    read_until-first is_outdoor live outdoor (network ∷ []) [] refl (refl, tt) refl

abbrev full : ReportQueue
full = record { max_size = 1; items = message network ∷ [] }

put_report_item-trim_example :
    ((put_report_item full stop).max_size ≡ 1)
    × ((put_report_item full stop).items ≡ trim 1 (message network ∷ stop ∷ []))
put_report_item-trim_example = put_report_item-trim full stop (λ positive. omega arith)

absent-before : lookup {K = List ℕ} (5 ∷ 6 ∷ []) ((3 ∷ [], update_at 4) ∷ []) ≡ none
unfolding lookup same_key
absent-before = refl

enqueue_update-replaces_example :
    ((enqueue_update (5 ∷ 6 ∷ []) (update_at 9) live).coalesced_updates
      ≡ (3 ∷ [], update_at 4) ∷ (5 ∷ 6 ∷ [], update_at 9) ∷ [])
    × ((enqueue_update (5 ∷ 6 ∷ []) (update_at 9) live).futures 5
        ≡ (if is_done waiting then waiting else result none))
enqueue_update-replaces_example =
    enqueue_update-replaces (5 ∷ 6 ∷ []) (update_at 5) (update_at 9) ((3 ∷ [], update_at 4) ∷ []) []
      live 5 refl absent-before (λ e. omega arith)

set_reader_error_lem_example :
    (raise_if_unavailable (set_reader_error protocol_error live) ≡ err protocol_error)
    × ((set_reader_error protocol_error live).pending ≡ [])
    × ((set_reader_error protocol_error live).coalesced_updates ≡ [])
    × ((set_reader_error protocol_error live).report_queues ≡ [])
    × ((set_reader_error protocol_error live).futures 2 ≡ failed_unless_done protocol_error waiting)
    × ((set_reader_error protocol_error live).queues 2 ≡ full)
set_reader_error_lem_example = set_reader_error_lem protocol_error live 2 (refl, (refl, tt))

close_lem_example :
    ((close live).closed ≡ true)
    × ((close live).pending ≡ [])
    × ((close live).coalesced_updates ≡ [])
    × ((close live).report_queues ≡ [])
    × ((close live).futures 7 ≡ waiting)
    × ((close live).queues 7 ≡ put_report_item full stop)
close_lem_example = close_lem live 7 (refl, (refl, tt))

abbrev outdoor_packet : Packet
outdoor_packet = record { type = type_trpc; payload = 2 ∷ 0x17 ∷ 1 ∷ 0 ∷ 0 ∷ 5 ∷ 0 ∷ [] }

-- A session is opened, and takes a packet and an error of the reader.
abbrev opened : Session
opened = open_session (new_session 4 4)

abbrev reported : Session
reported = (dispatch_packet outdoor_packet opened).0

abbrev failed_session : Session
failed_session = set_reader_error protocol_error reported

failed_session-Reaches : Reaches (new_session 4 4) failed_session
failed_session-Reaches =
    then_step (then_step (then_step here Step.opens) (Step.dispatches outdoor_packet))
      (Step.fails protocol_error)

new_session-Reaches_example : IsWellFormed failed_session
new_session-Reaches_example = new_session-Reaches 4 4 failed_session-Reaches

live-Reaches : Reaches live (set_reader_error protocol_error live)
live-Reaches = then_step here (Step.fails protocol_error)

cancelled-done : is_done (some_futures 1) ≡ true
unfolding is_done
cancelled-done = refl

Reaches-KeepsDone_example : (set_reader_error protocol_error live).futures 1 ≡ cancelled
Reaches-KeepsDone_example = Reaches-KeepsDone 1 live-Reaches cancelled-done
