-- ===== src/Session/Dispatch.antt =====
-- Reading in src/tekmar_482/session.py: `_dispatch_packet`, `_dispatch_message`, the waits of the
-- readers, and `reports`.
pub mod Matching
pub mod Bounds
pub mod Reading
use tekmar.Prelude.{
  ℕ, Bool, true, false, ◌||◌, Option, none, some, List, [], ◌∷◌, ◌++◌, ◌==◌, if◌then◌else◌,
}
use tekmar.Prelude.Store.{assign}
use tekmar.Exceptions.{TekmarError, Result, ok, err}
use tekmar.Packet.{Packet, type_trpc}
use tekmar.Trpc.Message.{TrpcPacket, from_packet}
use tekmar.Trpc.Match.{ResponseMatch, matches}
use tekmar.Session.Types.{
  Future, waiting, result, failed, is_done, PendingRequest, ReportItem, message, error, stop,
  ReportQueue, Session, trim, put_report_item, publish_report,
}

-- What the loop over `tuple(self._pending)` does: the requests that stay, and the one matched.
pub record Delivery : Type 0 where
  pub kept : List PendingRequest
  pub matched : Option PendingRequest

abbrev pub keep : PendingRequest → Delivery → Delivery
keep p d = record d { kept = p ∷ d.kept }

-- Requests that are done are removed up to the first match, which is removed too and ends the loop.
unfoldable pub deliver : TrpcPacket → (ℕ → Future) → List PendingRequest → Delivery
unfolding is_done
deliver m futures [] = record { kept = []; matched = none }
deliver m futures (p ∷ ps) =
    let rest = deliver m futures ps in
    if is_done (futures p.future)
    then rest
    else if matches p.match m
    then record { kept = ps; matched = some p }
    else keep p rest

-- `_message_backlog.append`, the trim, and the publication.
abbrev pub add_unmatched : TrpcPacket → Session → Session
add_unmatched m s =
    publish_report m
      (record s { message_backlog = trim s.max_message_backlog (s.message_backlog ++ (m ∷ [])) })

-- `pending.future.set_result(message)`.
abbrev pub resolve_match : TrpcPacket → PendingRequest → Session → Session
resolve_match m p s = record s { futures = assign s.futures p.future (result (some m)) }

finish_dispatch : TrpcPacket → Option PendingRequest → Session → Session
finish_dispatch m none s = add_unmatched m s
finish_dispatch m (some p) s =
    if p.publish_match then publish_report m (resolve_match m p s) else resolve_match m p s

unfoldable pub dispatch_message : TrpcPacket → Session → Session
unfolding finish_dispatch
dispatch_message m s =
    let d = deliver m s.futures s.pending in
    finish_dispatch m d.matched (record s { pending = d.kept })

dispatch_parsed : Result TrpcPacket → Session → Session × Result (Unit {0})
dispatch_parsed (err e) s = (s, err e)
dispatch_parsed (ok m) s = (dispatch_message m s, ok tt)

-- `_dispatch_packet`. An error of `from_packet` leaves the packet in the backlog.
unfoldable pub dispatch_packet : Packet → Session → Session × Result (Unit {0})
unfolding dispatch_parsed
dispatch_packet packet s =
    let observed = record s {
      packet_backlog = trim s.max_packet_backlog (s.packet_backlog ++ (packet ∷ []));
    } in
    if packet.type == type_trpc
    then dispatch_parsed (from_packet packet) observed
    else (observed, ok tt)

-- One round of a reader's loop: a value, an exception, the end of the stream, or a wait.
pub data Turn {ℓ} (A : Type ℓ) : Type ℓ where
  ready : A → Turn A
  raises : TekmarError → Turn A
  ended : Turn A
  waits : Turn A

-- The tests of the loops behind the backlog.
unfoldable pub no_message {ℓ} : {A : Type ℓ} → Session → Turn A
no_message s = elim s.reader_error [ some e ↦ raises e | none ↦ if s.closed then ended else waits ]

read_packet_in : List Packet → Session → Session × Turn Packet
unfolding no_message
read_packet_in [] s = (s, no_message s)
read_packet_in (packet ∷ rest) s = (record s { packet_backlog = rest }, ready packet)

-- `read_packet`.
unfoldable pub read_packet : Session → Session × Turn Packet
unfolding read_packet_in
read_packet s = read_packet_in s.packet_backlog s

read_message_in : List TrpcPacket → Session → Session × Turn TrpcPacket
unfolding no_message
read_message_in [] s = (s, no_message s)
read_message_in (m ∷ rest) s = (record s { message_backlog = rest }, ready m)

-- `read_message`.
unfoldable pub read_message : Session → Session × Turn TrpcPacket
unfolding read_message_in
read_message s = read_message_in s.message_backlog s

abbrev pub put_back :
    TrpcPacket → Option (TrpcPacket × List TrpcPacket) → Option (TrpcPacket × List TrpcPacket)
put_back m none = none
put_back m (some (found, rest)) = some (found, m ∷ rest)

-- `_pop_message_backlog`: the first message that passes, and the others.
unfoldable pub pop_first :
    (TrpcPacket → Bool) → List TrpcPacket → Option (TrpcPacket × List TrpcPacket)
pop_first predicate [] = none
pop_first predicate (m ∷ rest) =
    let others = put_back m (pop_first predicate rest) in
    if predicate m then some (m, rest) else others

read_until_in : Option (TrpcPacket × List TrpcPacket) → Session → Session × Turn TrpcPacket
unfolding no_message
read_until_in none s = (s, no_message s)
read_until_in (some (m, rest)) s = (record s { message_backlog = rest }, ready m)

-- `read_until`.
unfoldable pub read_until : (TrpcPacket → Bool) → Session → Session × Turn TrpcPacket
unfolding read_until_in pop_first
read_until predicate s = read_until_in (pop_first predicate s.message_backlog) s

replay : List TrpcPacket → ReportQueue → ReportQueue
replay [] q = q
replay (m ∷ rest) q = replay rest (put_report_item q (message m))

reports_in : Option TekmarError → ℕ → ReportQueue → Bool → Session → Session
unfolding replay
reports_in (some e) id empty replay_backlog s = record s {
  queues = assign s.queues id (put_report_item empty (error e));
}
reports_in none id empty replay_backlog s = record s {
  report_queues = id ∷ s.report_queues;
  queues = assign s.queues id (if replay_backlog then replay s.message_backlog empty else empty);
}

-- `reports`: a fresh queue at the identity `id`, which no other queue has.
unfoldable pub reports : ℕ → ℕ → Bool → Session → Session
unfolding reports_in
reports id max_size replay_backlog s =
    reports_in s.reader_error id (record { max_size = max_size; items = [] }) replay_backlog s

unfoldable pub remove_id : ℕ → List ℕ → List ℕ
remove_id id [] = []
remove_id id (x ∷ xs) = let rest = remove_id id xs in if x == id then rest else x ∷ rest

-- `_unsubscribe_reports`.
unfoldable pub unsubscribe_reports : ℕ → Session → Session
unfolding remove_id
unsubscribe_reports id s = record s {
  report_queues = remove_id id s.report_queues;
  queues = assign s.queues id (put_report_item (s.queues id) stop);
}
