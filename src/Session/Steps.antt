-- ===== src/Session/Steps.antt =====
-- The runs of a session (src/tekmar_482/session.py): asyncio interleaves the reader, the callers and
-- the writer of updates, and each step is one stretch between two `await`s.
pub mod Done
pub mod Bounds
use tekmar.Prelude.{ℕ, ◌≡◌, Bool, true, false, Option, none, List, []}
use tekmar.Exceptions.{TekmarError, Result}
use tekmar.Packet.{Packet}
use tekmar.Trpc.Message.{TrpcPacket}
use tekmar.Session.Types.{
  cancel_future, Future, waiting, PendingRequest, QueuedUpdate, ReportQueue, Session,
}
use tekmar.Session.Types.Queues.{is_in}
use tekmar.Session.Dispatch.{
  dispatch_packet, read_packet, read_message, read_until, reports, unsubscribe_reports,
}
use tekmar.Session.Requests.{start_request, poll_request, time_out_request}
use tekmar.Session.Updates.{enqueue_update, remove_coalesced_update, next_update, finish_update}
use tekmar.Session.Life.{set_reader_error, close, open_session}

-- `__init__`, with the bounds of the backlogs.
unfoldable pub new_session : ℕ → ℕ → Session
new_session max_messages max_packets = record {
  max_message_backlog = max_messages;
  max_packet_backlog = max_packets;
  pending = [];
  message_backlog = [];
  packet_backlog = [];
  report_queues = [];
  coalesced_updates = [];
  reader_error = none;
  closed = true;
  futures = λ id. waiting;
  queues = λ id. record { max_size = 0; items = [] };
}

-- A future or a queue that is created gets an identity that is not in use.
pub data Step (s : Session) : Session → Type 0 where
  dispatches : (packet : Packet) → Step s (dispatch_packet packet s).0
  takes_packet : Step s (read_packet s).0
  takes_message : Step s (read_message s).0
  takes_matching : (predicate : TrpcPacket → Bool) → Step s (read_until predicate s).0
  subscribes :
      (id max_size : ℕ) (replay_backlog : Bool)
      → is_in id s.report_queues ≡ false
      → Step s (reports id max_size replay_backlog s)
  unsubscribes : (id : ℕ) → Step s (unsubscribe_reports id s)
  requests : (p : PendingRequest) → s.futures p.future ≡ waiting → Step s (start_request p s)
  polls : (p : PendingRequest) → Step s (poll_request p s).0
  times_out : (p : PendingRequest) → Step s (time_out_request p s).0
  queues_update :
      (key : List ℕ) (update : QueuedUpdate)
      → s.futures update.future ≡ waiting
      → Step s (enqueue_update key update s)
  unqueues_update : (key : List ℕ) (id : ℕ) → Step s (remove_coalesced_update key id s)
  takes_update : Step s (next_update s).0
  finishes_update :
      (update : QueuedUpdate) (written : Result (Option TrpcPacket))
      → Step s (finish_update update written s)
  cancels : (id : ℕ) → Step s (cancel_future id s)
  fails : (e : TekmarError) → Step s (set_reader_error e s)
  closes : Step s (close s)
  opens : Step s (open_session s)

-- Any number of steps.
pub data Reaches (s : Session) : Session → Type 0 where
  here : Reaches s s
  then_step : {middle last : Session} → Reaches s middle → Step middle last → Reaches s last
