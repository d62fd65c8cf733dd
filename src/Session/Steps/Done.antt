-- ===== src/Session/Steps/Done.antt =====
-- Futures that are done stay as they are (src/tekmar_482/session.py).
use tekmar.Prelude.{ℕ, ◌≡◌, refl, ap, ◌∙◌, Bool, true, Option, List, arith}
use tekmar.Prelude.Store.{assign}
use tekmar.Exceptions.{TekmarError, Result, ok, err}
use tekmar.Trpc.Message.{TrpcPacket}
use tekmar.Session.Types.{
  cancel_future, Future, waiting, result, failed, cancelled, is_done, PendingRequest, QueuedUpdate,
  Session, settle,
}
use tekmar.Session.Dispatch.{read_packet, read_message, read_until, reports, unsubscribe_reports}
use tekmar.Session.Dispatch.Matching.{dispatch_packet-done}
use tekmar.Session.Requests.{start_request, poll_request, time_out_request}
use tekmar.Session.Updates.{enqueue_update, remove_coalesced_update, next_update, finish_update}
use tekmar.Session.Life.Ending.{futures-set_reader_error, futures-close}
use tekmar.Session.Life.{set_reader_error, close, open_session}
use tekmar.Session.Steps.{Step, Reaches, here, then_step}

-- The future is done and is the same afterwards.
abbrev pub KeepsDone : (ℕ → Future) → (ℕ → Future) → Type 0
KeepsDone before after = (id : ℕ) → is_done (before id) ≡ true → after id ≡ before id

settle-KeepsDone :
    (id : ℕ) (f : Future) (futures : ℕ → Future) → KeepsDone futures (settle id f futures)
unfolding settle assign is_done
settle-KeepsDone id f futures other done = ground arith

read_packet-KeepsDone : (s : Session) → KeepsDone s.futures (read_packet s).0.futures
unfolding read_packet
read_packet-KeepsDone s id done = ground arith

read_message-KeepsDone : (s : Session) → KeepsDone s.futures (read_message s).0.futures
unfolding read_message
read_message-KeepsDone s id done = ground arith

read_until-KeepsDone :
    (predicate : TrpcPacket → Bool) (s : Session)
    → KeepsDone s.futures (read_until predicate s).0.futures
unfolding read_until
read_until-KeepsDone predicate s id done = ground arith

reports-KeepsDone :
    (q n : ℕ) (b : Bool) (s : Session) → KeepsDone s.futures (reports q n b s).futures
unfolding reports
reports-KeepsDone q n b s id done = ground arith

start_request-KeepsDone :
    (p : PendingRequest) (s : Session)
    → s.futures p.future ≡ waiting
    → KeepsDone s.futures (start_request p s).futures
unfolding start_request assign is_done
start_request-KeepsDone p s h id done = ground arith

poll_request-KeepsDone :
    (p : PendingRequest) (s : Session) → KeepsDone s.futures (poll_request p s).0.futures
unfolding poll_request
poll_request-KeepsDone p s id done = ground arith

time_out_request-KeepsDone :
    (p : PendingRequest) (s : Session) → KeepsDone s.futures (time_out_request p s).0.futures
unfolding time_out_request
time_out_request-KeepsDone p s id done =
    ground (arith, settle-KeepsDone p.future cancelled s.futures id done)

enqueue_update-KeepsDone :
    (key : List ℕ) (update : QueuedUpdate) (s : Session)
    → s.futures update.future ≡ waiting
    → KeepsDone s.futures (enqueue_update key update s).futures
unfolding enqueue_update assign is_done settle
enqueue_update-KeepsDone key update s h id done = ground arith

remove_coalesced_update-KeepsDone :
    (key : List ℕ) (f : ℕ) (s : Session)
    → KeepsDone s.futures (remove_coalesced_update key f s).futures
unfolding remove_coalesced_update
remove_coalesced_update-KeepsDone key f s id done = ground arith

next_update-KeepsDone : (s : Session) → KeepsDone s.futures (next_update s).0.futures
unfolding next_update
next_update-KeepsDone s id done = ground arith

finish_update-KeepsDone :
    (update : QueuedUpdate) (written : Result (Option TrpcPacket)) (s : Session)
    → KeepsDone s.futures (finish_update update written s).futures
unfolding finish_update
finish_update-KeepsDone update (ok m) s = settle-KeepsDone update.future (result m) s.futures
finish_update-KeepsDone update (err e) s = settle-KeepsDone update.future (failed e) s.futures

unsubscribe_reports-KeepsDone :
    (q : ℕ) (s : Session) → KeepsDone s.futures (unsubscribe_reports q s).futures
unfolding unsubscribe_reports
unsubscribe_reports-KeepsDone q s id done = refl

set_reader_error-KeepsDone :
    (e : TekmarError) (s : Session) → KeepsDone s.futures (set_reader_error e s).futures
set_reader_error-KeepsDone e s id done = ground (arith, futures-set_reader_error e s id)

close-KeepsDone : (s : Session) → KeepsDone s.futures (close s).futures
close-KeepsDone s id done = ground (arith, futures-close s id)

open_session-KeepsDone : (s : Session) → KeepsDone s.futures (open_session s).futures
unfolding open_session
open_session-KeepsDone s id done = refl

Step-KeepsDone : {s t : Session} → Step s t → KeepsDone s.futures t.futures
unfolding cancel_future
Step-KeepsDone {s = s} (Step.dispatches packet) = dispatch_packet-done packet s
Step-KeepsDone {s = s} Step.takes_packet = read_packet-KeepsDone s
Step-KeepsDone {s = s} Step.takes_message = read_message-KeepsDone s
Step-KeepsDone {s = s} (Step.takes_matching predicate) = read_until-KeepsDone predicate s
Step-KeepsDone {s = s} (Step.subscribes id n b h) = reports-KeepsDone id n b s
Step-KeepsDone {s = s} (Step.unsubscribes id) = unsubscribe_reports-KeepsDone id s
Step-KeepsDone {s = s} (Step.requests p h) = start_request-KeepsDone p s h
Step-KeepsDone {s = s} (Step.polls p) = poll_request-KeepsDone p s
Step-KeepsDone {s = s} (Step.times_out p) = time_out_request-KeepsDone p s
Step-KeepsDone {s = s} (Step.queues_update key update h) = enqueue_update-KeepsDone key update s h
Step-KeepsDone {s = s} (Step.unqueues_update key id) = remove_coalesced_update-KeepsDone key id s
Step-KeepsDone {s = s} Step.takes_update = next_update-KeepsDone s
Step-KeepsDone {s = s} (Step.finishes_update update written) =
    finish_update-KeepsDone update written s
Step-KeepsDone {s = s} (Step.cancels id) = settle-KeepsDone id cancelled s.futures
Step-KeepsDone {s = s} (Step.fails e) = set_reader_error-KeepsDone e s
Step-KeepsDone {s = s} Step.closes = close-KeepsDone s
Step-KeepsDone {s = s} Step.opens = open_session-KeepsDone s

-- A future that is done keeps its value through any run: what a caller was given is not replaced by
-- a later message, a newer update, an error, a timeout or the end of the session.
pub Reaches-KeepsDone :
    {s t : Session} (id : ℕ)
    → Reaches s t
    → is_done (s.futures id) ≡ true
    → t.futures id ≡ s.futures id
Reaches-KeepsDone id here done = refl
Reaches-KeepsDone {s = s} id (then_step {middle = middle} run step) done =
    let kept = Reaches-KeepsDone id run done in
    Step-KeepsDone step id (ap is_done kept ∙ done) ∙ kept
