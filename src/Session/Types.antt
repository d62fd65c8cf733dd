-- ===== src/Session/Types.antt =====
-- The state of `Tekmar482Session` (src/tekmar_482/session.py), its backlogs and its report queues.
-- Futures and queues are shared with the callers, so the state holds them by identity.
pub mod Queues
pub mod Invariant
use tekmar.Prelude.{
  ℕ, ◌+◌, ◌-◌, Bool, true, false, ◌&&◌, not, Option, none, some, List, [], ◌∷◌, ◌++◌, length, drop,
  ltb, leb, ◌==◌, if◌then◌else◌,
}
use tekmar.Prelude.Dict.{Map}
use tekmar.Prelude.Store.{assign}
use tekmar.Exceptions.{TekmarError, connection_closed, Result, ok, err}
use tekmar.Packet.{Packet}
use tekmar.Trpc.Message.{TrpcPacket}
use tekmar.Trpc.Match.{TrpcCommand, ResponseMatch}

-- `asyncio.Future[TrpcPacket | None]`.
pub data Future : Type 0 where
  waiting : Future
  result : Option TrpcPacket → Future
  failed : TekmarError → Future
  cancelled : Future

unfoldable pub is_done : Future → Bool
is_done waiting = false
is_done _ = true

-- `_PendingRequest`; `future` is the identity of the future.
pub record PendingRequest : Type 0 where
  pub match : ResponseMatch
  pub future : ℕ
  pub publish_match : Bool

-- `_QueuedUpdate`, without the timeout, which only the event loop reads.
pub record QueuedUpdate : Type 0 where
  pub command : TrpcCommand
  pub future : ℕ
  pub response_match : Option ResponseMatch

-- `_ReportItem`.
pub data ReportItem : Type 0 where
  message : TrpcPacket → ReportItem
  error : TekmarError → ReportItem
  stop : ReportItem

-- `asyncio.Queue`: no bound at `max_size` 0.
pub record ReportQueue : Type 0 where
  pub max_size : ℕ
  pub items : List ReportItem

-- A coalesce key is a tuple of numbers. A backlog bound of 0 stands for every bound up to 0.
pub record Session : Type 0 where
  pub max_message_backlog : ℕ
  pub max_packet_backlog : ℕ
  pub pending : List PendingRequest
  pub message_backlog : List TrpcPacket
  pub packet_backlog : List Packet
  pub report_queues : List ℕ
  pub coalesced_updates : Map (List ℕ) QueuedUpdate
  pub reader_error : Option TekmarError
  pub closed : Bool
  pub futures : ℕ → Future
  pub queues : ℕ → ReportQueue

-- `_trim_message_backlog` and `_trim_packet_backlog`: `del xs[:-bound]`.
unfoldable pub trim {ℓ} : {A : Type ℓ} → ℕ → List A → List A
trim bound xs = if leb bound 0 then [] else drop (length xs - bound) xs

-- `put_nowait` raises QueueFull here.
unfoldable pub is_full : ReportQueue → Bool
is_full q = ltb 0 q.max_size && leb q.max_size (length q.items)

abbrev pub put_nowait : ReportQueue → ReportItem → ReportQueue
put_nowait q item = record q { items = q.items ++ (item ∷ []) }

-- `_put_report_item`: on QueueFull the oldest item goes, and the item is put if there is room then.
unfoldable pub put_report_item : ReportQueue → ReportItem → ReportQueue
unfolding is_full
put_report_item q item =
    if is_full q
    then (let rest = record q { items = drop 1 q.items } in
        if is_full rest then rest else put_nowait rest item)
    else put_nowait q item

-- `_put_report_item` on each queue of a list.
unfoldable pub put_in_all : List ℕ → ReportItem → (ℕ → ReportQueue) → ℕ → ReportQueue
put_in_all [] item queues = queues
put_in_all (id ∷ ids) item queues =
    put_in_all ids item (assign queues id (put_report_item (queues id) item))

-- `_publish_report`.
unfoldable pub publish_report : TrpcPacket → Session → Session
publish_report m s = record s { queues = put_in_all s.report_queues (message m) s.queues }

-- `create_future`, at an identity that no other future has.
abbrev pub create_future : ℕ → Session → Session
create_future id s = record s { futures = assign s.futures id waiting }

-- `if not future.done(): future.set_result(…)`, and the same for `set_exception` and `cancel`.
unfoldable pub settle : ℕ → Future → (ℕ → Future) → ℕ → Future
unfolding is_done
settle id outcome futures = if is_done (futures id) then futures else assign futures id outcome

-- `if not future.done(): future.cancel()`. asyncio cancels the future of a wait that is cancelled in
-- the same way.
unfoldable pub cancel_future : ℕ → Session → Session
unfolding settle
cancel_future id s = record s { futures = settle id cancelled s.futures }

-- `_raise_if_unavailable`.
unfoldable pub raise_if_unavailable : Session → Result (Unit {0})
raise_if_unavailable s = elim s.reader_error [
  | some e ↦ err e
  | none ↦ if s.closed then err connection_closed else ok tt
]
