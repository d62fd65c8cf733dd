-- ===== src/Session/Dispatch/Bounds.antt =====
-- Dispatching, reading and subscribing keep the invariant of a session
-- (src/tekmar_482/session.py).
use tekmar.Prelude.{
  suc, ℕ, ◌≤◌, ◌≡◌, refl, ap, Bool, false, Option, none, some, List, [], ◌∷◌, ◌++◌, ◌==◌, length,
  if◌then◌else◌, if_both, arith,
}
use tekmar.Exceptions.{TekmarError, Result, ok, err}
use tekmar.Packet.{Packet, type_trpc}
use tekmar.Trpc.Message.{TrpcPacket, from_packet}
use tekmar.Session.Types.{
  PendingRequest, message, error, stop, ReportQueue, Session, trim, put_report_item, publish_report,
}
use tekmar.Session.Types.Queues.{length-trim, Fits, put_report_item-Fits, is_in, Nodup}
use tekmar.Session.Types.Invariant.{IsWellFormed, assign-Fits, put_in_all-Fits}
use tekmar.Session.Dispatch.{
  deliver, resolve_match, finish_dispatch, dispatch_message, dispatch_parsed, dispatch_packet,
  read_packet_in, read_packet, read_message_in, read_message, put_back, pop_first, read_until_in,
  read_until, replay, reports_in, reports, remove_id, unsubscribe_reports,
}

publish_report-IsWellFormed :
    (m : TrpcPacket) (s : Session) → IsWellFormed s → IsWellFormed (publish_report m s)
unfolding publish_report
publish_report-IsWellFormed m s w =
    (w.0, w.1, put_in_all-Fits s.report_queues (message m) s.queues w.2, w.3, w.4)

finish_dispatch-IsWellFormed :
    (m : TrpcPacket) (found : Option PendingRequest) (s : Session)
    → IsWellFormed s
    → IsWellFormed (finish_dispatch m found s)
unfolding finish_dispatch
finish_dispatch-IsWellFormed m none s w =
    publish_report-IsWellFormed m
      (record s { message_backlog = trim s.max_message_backlog (s.message_backlog ++ (m ∷ [])) })
      (length-trim s.max_message_backlog (s.message_backlog ++ (m ∷ [])), w.1, w.2, w.3, w.4)
finish_dispatch-IsWellFormed m (some p) s w =
    if_both IsWellFormed p.publish_match (publish_report m (resolve_match m p s))
      (resolve_match m p s) (publish_report-IsWellFormed m (resolve_match m p s) w) w

pub dispatch_message-IsWellFormed :
    (m : TrpcPacket) (s : Session) → IsWellFormed s → IsWellFormed (dispatch_message m s)
unfolding dispatch_message
dispatch_message-IsWellFormed m s w =
    let d = deliver m s.futures s.pending in
    finish_dispatch-IsWellFormed m d.matched (record s { pending = d.kept }) w

dispatch_parsed-IsWellFormed :
    (parsed : Result TrpcPacket) (s : Session)
    → IsWellFormed s
    → IsWellFormed (dispatch_parsed parsed s).0
unfolding dispatch_parsed
dispatch_parsed-IsWellFormed (err e) s w = w
dispatch_parsed-IsWellFormed (ok m) s w = dispatch_message-IsWellFormed m s w

pub dispatch_packet-IsWellFormed :
    (packet : Packet) (s : Session) → IsWellFormed s → IsWellFormed (dispatch_packet packet s).0
unfolding dispatch_packet
dispatch_packet-IsWellFormed packet s w =
    let observed = record s {
      packet_backlog = trim s.max_packet_backlog (s.packet_backlog ++ (packet ∷ []));
    } in
    let observed_w : IsWellFormed observed =
      (w.0, length-trim s.max_packet_backlog (s.packet_backlog ++ (packet ∷ [])), w.2, w.3, w.4) in
    if_both (λ (d : Session × Result (Unit {0})). IsWellFormed d.0) (packet.type == type_trpc)
      (dispatch_parsed (from_packet packet) observed) (observed, ok tt)
      (dispatch_parsed-IsWellFormed (from_packet packet) observed observed_w) observed_w

read_packet_in-IsWellFormed :
    (backlog : List Packet) (s : Session)
    → s.packet_backlog ≡ backlog
    → IsWellFormed s
    → IsWellFormed (read_packet_in backlog s).0
unfolding read_packet_in
read_packet_in-IsWellFormed [] s e w = w
read_packet_in-IsWellFormed (packet ∷ rest) s e w =
    (w.0, omega (arith, ap length e, w.1), w.2, w.3, w.4)

pub read_packet-IsWellFormed : (s : Session) → IsWellFormed s → IsWellFormed (read_packet s).0
unfolding read_packet
read_packet-IsWellFormed s w = read_packet_in-IsWellFormed s.packet_backlog s refl w

read_message_in-IsWellFormed :
    (backlog : List TrpcPacket) (s : Session)
    → s.message_backlog ≡ backlog
    → IsWellFormed s
    → IsWellFormed (read_message_in backlog s).0
unfolding read_message_in
read_message_in-IsWellFormed [] s e w = w
read_message_in-IsWellFormed (m ∷ rest) s e w =
    (omega (arith, ap length e, w.0), w.1, w.2, w.3, w.4)

pub read_message-IsWellFormed : (s : Session) → IsWellFormed s → IsWellFormed (read_message s).0
unfolding read_message
read_message-IsWellFormed s w = read_message_in-IsWellFormed s.message_backlog s refl w

-- How many messages are left.
abbrev left : Option (TrpcPacket × List TrpcPacket) → ℕ
left none = 0
left (some (m, rest)) = length rest

left-put_back :
    (m : TrpcPacket) (found : Option (TrpcPacket × List TrpcPacket))
    → left (put_back m found) ≤ suc (left found)
left-put_back m none = omega arith
left-put_back m (some (found, rest)) = omega arith

left-pop_first :
    (predicate : TrpcPacket → Bool) (backlog : List TrpcPacket)
    → left (pop_first predicate backlog) ≤ length backlog
unfolding pop_first
left-pop_first predicate [] = omega arith
left-pop_first predicate (m ∷ backlog) =
    if_both (λ found. left found ≤ suc (length backlog)) (predicate m) (some (m, backlog))
      (put_back m (pop_first predicate backlog)) (omega arith)
      (omega
        (arith, left-put_back m (pop_first predicate backlog), left-pop_first predicate backlog))

read_until_in-IsWellFormed :
    (found : Option (TrpcPacket × List TrpcPacket)) (s : Session)
    → left found ≤ length s.message_backlog
    → IsWellFormed s
    → IsWellFormed (read_until_in found s).0
unfolding read_until_in
read_until_in-IsWellFormed none s h w = w
read_until_in-IsWellFormed (some (m, rest)) s h w = (omega (arith, h, w.0), w.1, w.2, w.3, w.4)

pub read_until-IsWellFormed :
    (predicate : TrpcPacket → Bool) (s : Session)
    → IsWellFormed s
    → IsWellFormed (read_until predicate s).0
unfolding read_until
read_until-IsWellFormed predicate s w =
    read_until_in-IsWellFormed (pop_first predicate s.message_backlog) s
      (left-pop_first predicate s.message_backlog) w

replay-Fits : (backlog : List TrpcPacket) (q : ReportQueue) → Fits q → Fits (replay backlog q)
unfolding replay
replay-Fits [] q fits = fits
replay-Fits (m ∷ backlog) q fits =
    replay-Fits backlog (put_report_item q (message m)) (put_report_item-Fits q (message m) fits)

reports_in-IsWellFormed :
    (raised : Option TekmarError) (id : ℕ) (empty : ReportQueue) (replay_backlog : Bool)
    (s : Session)
    → Fits empty
    → is_in id s.report_queues ≡ false
    → IsWellFormed s
    → IsWellFormed (reports_in raised id empty replay_backlog s)
unfolding reports_in
reports_in-IsWellFormed (some e) id empty replay_backlog s fits fresh w =
    let fits_error = put_report_item-Fits empty (error e) fits in
    (w.0, w.1, assign-Fits s.queues id (put_report_item empty (error e)) w.2 fits_error, w.3, w.4)
reports_in-IsWellFormed none id empty replay_backlog s fits fresh w =
    let filled = if replay_backlog then replay s.message_backlog empty else empty in
    let fits_filled =
      if_both Fits replay_backlog (replay s.message_backlog empty) empty
        (replay-Fits s.message_backlog empty fits) fits in
    (w.0, w.1, assign-Fits s.queues id filled w.2 fits_filled, (fresh, w.3), w.4)

pub reports-IsWellFormed :
    (id max_size : ℕ) (replay_backlog : Bool) (s : Session)
    → is_in id s.report_queues ≡ false
    → IsWellFormed s
    → IsWellFormed (reports id max_size replay_backlog s)
unfolding reports
reports-IsWellFormed id max_size replay_backlog s fresh w =
    reports_in-IsWellFormed s.reader_error id (record { max_size = max_size; items = [] })
      replay_backlog s (λ positive. omega arith) fresh w

is_in-remove_id_other :
    (x id : ℕ) (ids : List ℕ) → is_in x ids ≡ false → is_in x (remove_id id ids) ≡ false
unfolding remove_id
is_in-remove_id_other x id [] h = refl
is_in-remove_id_other x id (y ∷ ids) h = ground (arith, is_in-remove_id_other x id ids)

remove_id-Nodup : (id : ℕ) (ids : List ℕ) → Nodup ids → Nodup (remove_id id ids)
unfolding remove_id
remove_id-Nodup id [] d = tt
remove_id-Nodup id (x ∷ ids) d =
    let rest = remove_id-Nodup id ids d.1 in
    if_both Nodup (x == id) (remove_id id ids) (x ∷ remove_id id ids) rest
      (is_in-remove_id_other x id ids d.0, rest)

pub unsubscribe_reports-IsWellFormed :
    (id : ℕ) (s : Session) → IsWellFormed s → IsWellFormed (unsubscribe_reports id s)
unfolding unsubscribe_reports
unsubscribe_reports-IsWellFormed id s w = (
  w.0,
  w.1,
  assign-Fits s.queues id (put_report_item (s.queues id) stop) w.2
      (put_report_item-Fits (s.queues id) stop (w.2 id)),
  remove_id-Nodup id s.report_queues w.3,
  w.4,
)
