-- ===== src/Session/Life.antt =====
-- Opening, failing and closing a session (src/tekmar_482/session.py): `open`, `close`,
-- `_set_reader_error`, `_fail_pending`, `_fail_coalesced_updates`. The tasks and the transport belong
-- to asyncio and to transport.py.
pub mod Ending
use tekmar.Prelude.{ℕ, Bool, true, false, Option, none, some, List, [], ◌∷◌, map}
use tekmar.Prelude.Dict.{Map}
use tekmar.Exceptions.{TekmarError, connection_closed}
use tekmar.Session.Types.{
  Future, failed, PendingRequest, QueuedUpdate, error, stop, Session, settle, put_report_item,
  put_in_all,
}
use tekmar.Session.Dispatch.{unsubscribe_reports}

-- `set_exception` on each future of a list that is not done.
pub fail_all : TekmarError → List ℕ → (ℕ → Future) → ℕ → Future
unfolding settle
fail_all e [] futures = futures
fail_all e (id ∷ ids) futures = fail_all e ids (settle id (failed e) futures)

abbrev pub request_futures : List PendingRequest → List ℕ
request_futures [] = []
request_futures (p ∷ ps) = p.future ∷ request_futures ps

abbrev pub update_futures : Map (List ℕ) QueuedUpdate → List ℕ
update_futures [] = []
update_futures (entry ∷ entries) = entry.1.future ∷ update_futures entries

-- `_fail_pending`.
unfoldable pub fail_pending : TekmarError → Session → Session
unfolding fail_all
fail_pending e s = record s {
  futures = fail_all e (request_futures s.pending) s.futures;
  pending = [];
}

-- `_fail_coalesced_updates`.
unfoldable pub fail_coalesced_updates : TekmarError → Session → Session
unfolding fail_all
fail_coalesced_updates e s = record s {
  futures = fail_all e (update_futures s.coalesced_updates) s.futures;
  coalesced_updates = [];
}

-- `_set_reader_error`.
unfoldable pub set_reader_error : TekmarError → Session → Session
unfolding fail_pending fail_coalesced_updates put_in_all
set_reader_error e s =
    let marked = record s { closed = true; reader_error = some e } in
    let failed_all = fail_coalesced_updates e (fail_pending e marked) in
    record failed_all {
      queues = put_in_all failed_all.report_queues (error e) failed_all.queues;
      report_queues = [];
    }

unsubscribe_all : List ℕ → Session → Session
unfolding unsubscribe_reports
unsubscribe_all [] s = s
unsubscribe_all (id ∷ ids) s = unsubscribe_all ids (unsubscribe_reports id s)

-- `close`.
unfoldable pub close : Session → Session
unfolding fail_pending fail_coalesced_updates unsubscribe_all
close s =
    let closing = record s { closed = true } in
    let failed_all =
      fail_coalesced_updates connection_closed (fail_pending connection_closed closing) in
    unsubscribe_all failed_all.report_queues failed_all

-- `open`, when the transport opens.
unfoldable pub open_session : Session → Session
open_session s = record s { closed = false; reader_error = none }
