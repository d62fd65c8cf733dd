-- ===== src/Session/Steps/Bounds.antt =====
-- The invariant of a session holds in every run (src/tekmar_482/session.py).
use tekmar.Prelude.{ℕ, refl, Option, none, some, List, [], ◌∷◌, ◌==◌, if_both, inl, arith}
use tekmar.Prelude.Dict.{lookup}
use tekmar.Exceptions.{Result, ok, err}
use tekmar.Trpc.Message.{TrpcPacket}
use tekmar.Session.Types.{
  cancel_future, Future, waiting, result, failed, cancelled, PendingRequest, QueuedUpdate, Session,
}
use tekmar.Session.Types.Invariant.{IsWellFormed}
use tekmar.Session.Dispatch.Bounds.{
  dispatch_packet-IsWellFormed, read_packet-IsWellFormed, read_message-IsWellFormed,
  read_until-IsWellFormed, reports-IsWellFormed, unsubscribe_reports-IsWellFormed,
}
use tekmar.Session.Requests.{
  start_request, await_request, poll_request, time_out_in, time_out_request,
}
use tekmar.Session.Updates.{
  Updates, tuple_key, enqueue_update, delete_key, remove_in, remove_coalesced_update,
  next_update_in, next_update, finish_update,
}
use tekmar.Session.Life.{open_session}
use tekmar.Session.Life.Ending.{close-IsWellFormed, set_reader_error-IsWellFormed}
use tekmar.Session.Steps.{new_session, Step, Reaches, here, then_step}

await_request-IsWellFormed :
    (p : PendingRequest) (f : Future) (s : Session)
    → IsWellFormed s
    → IsWellFormed (await_request p f s).0
unfolding await_request
await_request-IsWellFormed p waiting s w = w
await_request-IsWellFormed p (result m) s w = w
await_request-IsWellFormed p (failed e) s w = w
await_request-IsWellFormed p cancelled s w = w

poll_request-IsWellFormed :
    (p : PendingRequest) (s : Session) → IsWellFormed s → IsWellFormed (poll_request p s).0
unfolding poll_request
poll_request-IsWellFormed p s w = await_request-IsWellFormed p (s.futures p.future) s w

time_out_in-IsWellFormed :
    (p : PendingRequest) (f : Future) (s : Session)
    → IsWellFormed s
    → IsWellFormed (time_out_in p f s).0
unfolding time_out_in
time_out_in-IsWellFormed p waiting s w = w
time_out_in-IsWellFormed p (result m) s w = w
time_out_in-IsWellFormed p (failed e) s w = w
time_out_in-IsWellFormed p cancelled s w = w

time_out_request-IsWellFormed :
    (p : PendingRequest) (s : Session) → IsWellFormed s → IsWellFormed (time_out_request p s).0
unfolding time_out_request
time_out_request-IsWellFormed p s w = time_out_in-IsWellFormed p (s.futures p.future) s w

remove_in-IsWellFormed :
    (found : Option QueuedUpdate) (key : List ℕ) (id : ℕ) (s : Session)
    → IsWellFormed s
    → IsWellFormed (remove_in found key id s)
unfolding remove_in
remove_in-IsWellFormed none key id s w = w
remove_in-IsWellFormed (some update) key id s w =
    if_both IsWellFormed (update.future == id)
      (record s { coalesced_updates = delete_key key s.coalesced_updates }) s w w

next_update_in-IsWellFormed :
    (updates : Updates) (s : Session) → IsWellFormed s → IsWellFormed (next_update_in updates s).0
unfolding next_update_in
next_update_in-IsWellFormed [] s w = w
next_update_in-IsWellFormed (entry ∷ others) s w = w

finish_update-IsWellFormed :
    (update : QueuedUpdate) (written : Result (Option TrpcPacket)) (s : Session)
    → IsWellFormed s
    → IsWellFormed (finish_update update written s)
unfolding finish_update
finish_update-IsWellFormed update (ok m) s w = w
finish_update-IsWellFormed update (err e) s w = w

Step-IsWellFormed : {s t : Session} → Step s t → IsWellFormed s → IsWellFormed t
unfolding cancel_future start_request enqueue_update remove_coalesced_update next_update
    open_session
Step-IsWellFormed {s = s} (Step.dispatches packet) w = dispatch_packet-IsWellFormed packet s w
Step-IsWellFormed {s = s} Step.takes_packet w = read_packet-IsWellFormed s w
Step-IsWellFormed {s = s} Step.takes_message w = read_message-IsWellFormed s w
Step-IsWellFormed {s = s} (Step.takes_matching predicate) w = read_until-IsWellFormed predicate s w
Step-IsWellFormed {s = s} (Step.subscribes id n b fresh) w = reports-IsWellFormed id n b s fresh w
Step-IsWellFormed {s = s} (Step.unsubscribes id) w = unsubscribe_reports-IsWellFormed id s w
Step-IsWellFormed {s = s} (Step.requests p h) w = w
Step-IsWellFormed {s = s} (Step.polls p) w = poll_request-IsWellFormed p s w
Step-IsWellFormed {s = s} (Step.times_out p) w = time_out_request-IsWellFormed p s w
Step-IsWellFormed {s = s} (Step.queues_update key update h) w = w
Step-IsWellFormed {s = s} (Step.unqueues_update key id) w =
    remove_in-IsWellFormed (lookup key s.coalesced_updates) key id s w
Step-IsWellFormed {s = s} Step.takes_update w = next_update_in-IsWellFormed s.coalesced_updates s w
Step-IsWellFormed {s = s} (Step.finishes_update update written) w =
    finish_update-IsWellFormed update written s w
Step-IsWellFormed {s = s} (Step.cancels id) w = w
Step-IsWellFormed {s = s} (Step.fails e) w = set_reader_error-IsWellFormed e s w
Step-IsWellFormed {s = s} Step.closes w = close-IsWellFormed s w
Step-IsWellFormed {s = s} Step.opens w = (w.0, w.1, w.2, w.3, inl refl)

-- Every run keeps the invariant.
Reaches-keeps : {s t : Session} → Reaches s t → IsWellFormed s → IsWellFormed t
Reaches-keeps here w = w
Reaches-keeps (then_step run step) w = Step-IsWellFormed step (Reaches-keeps run w)

-- In every state that a session reaches from its construction, the backlogs hold no more than their
-- bounds, no bounded report queue holds more than its bound, the subscriptions are distinct, and the
-- session is closed if the reader has failed.
pub new_session-Reaches :
    (max_messages max_packets : ℕ) {t : Session}
    → Reaches (new_session max_messages max_packets) t
    → IsWellFormed t
unfolding new_session
new_session-Reaches max_messages max_packets run =
    Reaches-keeps run (omega arith, omega arith, (λ id positive. omega arith), tt, inl refl)
