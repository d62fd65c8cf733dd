-- ===== src/Session/Life/Ending.antt =====
-- What an error of the reader and `close` leave behind (src/tekmar_482/session.py).
use tekmar.Prelude.{
  ℕ, ◌≡◌, refl, inr, ◌∙◌, ap, Bool, true, false, ◌||◌, some, List, [], ◌∷◌, if◌then◌else◌, arith,
}
use tekmar.Prelude.Store.{assign}
use tekmar.Exceptions.{TekmarError, connection_closed, err}
use tekmar.Session.Types.{
  Future, failed, is_done, error, stop, Session, settle, put_report_item, put_in_all,
  raise_if_unavailable,
}
use tekmar.Session.Types.Queues.{is_in, Nodup, put_in_all-at}
use tekmar.Session.Types.Invariant.{IsWellFormed, put_in_all-Fits}
use tekmar.Session.Dispatch.Bounds.{unsubscribe_reports-IsWellFormed}
use tekmar.Session.Dispatch.{remove_id, unsubscribe_reports}
use tekmar.Session.Life.{
  fail_all, request_futures, update_futures, fail_pending, fail_coalesced_updates, set_reader_error,
  unsubscribe_all, close,
}

-- A future that waits fails, and another one keeps its value.
abbrev pub failed_unless_done : TekmarError → Future → Future
failed_unless_done e f = if is_done f then f else failed e

fail_all-at :
    (e : TekmarError) (ids : List ℕ) (futures : ℕ → Future) (id : ℕ)
    → fail_all e ids futures id
      ≡ (if is_in id ids then failed_unless_done e (futures id) else futures id)
unfolding fail_all settle assign is_done
fail_all-at e [] futures id = refl
fail_all-at e (x ∷ ids) futures id =
    ground (arith, fail_all-at e ids (settle x (failed e) futures) id)

fail_twice :
    (e : TekmarError) (f : Future) (a b : Bool)
    → (if b
        then failed_unless_done e (if a then failed_unless_done e f else f)
        else (if a then failed_unless_done e f else f))
      ≡ (if a || b then failed_unless_done e f else f)
unfolding is_done
fail_twice e f a b = ground arith

futures-fail :
    (e : TekmarError) (s : Session) (id : ℕ)
    → (fail_coalesced_updates e (fail_pending e s)).futures id ≡ (
        if is_in id (request_futures s.pending) || is_in id (update_futures s.coalesced_updates)
        then failed_unless_done e (s.futures id)
        else s.futures id)
unfolding fail_coalesced_updates fail_pending
futures-fail e s id =
    let a = is_in id (request_futures s.pending) in
    let b = is_in id (update_futures s.coalesced_updates) in
    fail_all-at e (update_futures s.coalesced_updates)
      (fail_all e (request_futures s.pending) s.futures) id
    ∙ ap (λ f. if b then failed_unless_done e f else f)
        (fail_all-at e (request_futures s.pending) s.futures id)
    ∙ fail_twice e (s.futures id) a b

futures-unsubscribe_all : (ids : List ℕ) (s : Session) → (unsubscribe_all ids s).futures ≡ s.futures
unfolding unsubscribe_all unsubscribe_reports
futures-unsubscribe_all [] s = refl
futures-unsubscribe_all (id ∷ ids) s = futures-unsubscribe_all ids (unsubscribe_reports id s)

pub futures-set_reader_error :
    (e : TekmarError) (s : Session) (id : ℕ)
    → (set_reader_error e s).futures id ≡ (
        if is_in id (request_futures s.pending) || is_in id (update_futures s.coalesced_updates)
        then failed_unless_done e (s.futures id)
        else s.futures id)
unfolding set_reader_error
futures-set_reader_error e s id =
    futures-fail e (record s { closed = true; reader_error = some e }) id

pub futures-close :
    (s : Session) (id : ℕ)
    → (close s).futures id ≡ (
        if is_in id (request_futures s.pending) || is_in id (update_futures s.coalesced_updates)
        then failed_unless_done connection_closed (s.futures id)
        else s.futures id)
unfolding close
futures-close s id =
    let failed_all =
      fail_coalesced_updates connection_closed
        (fail_pending connection_closed (record s { closed = true })) in
    ap (λ futures. futures id) (futures-unsubscribe_all failed_all.report_queues failed_all)
    ∙ futures-fail connection_closed (record s { closed = true }) id

-- An error of the reader, where the subscriptions are distinct: every waiting request and queued
-- update raises it, and all other futures keep their value; the error is put into the queue of each
-- subscription and into no other queue; the session then has nothing pending, no queued update and
-- no subscription, and the guard of a write raises the error in this state.
pub set_reader_error_lem :
    (e : TekmarError) (s : Session) (id : ℕ)
    → Nodup s.report_queues
    → (raise_if_unavailable (set_reader_error e s) ≡ err e)
      × ((set_reader_error e s).pending ≡ [])
      × ((set_reader_error e s).coalesced_updates ≡ [])
      × ((set_reader_error e s).report_queues ≡ [])
      × ((set_reader_error e s).futures id ≡ (
          if is_in id (request_futures s.pending) || is_in id (update_futures s.coalesced_updates)
          then failed_unless_done e (s.futures id)
          else s.futures id))
      × ((set_reader_error e s).queues id ≡ (
          if is_in id s.report_queues
          then put_report_item (s.queues id) (error e)
          else s.queues id))
unfolding set_reader_error raise_if_unavailable fail_pending fail_coalesced_updates
set_reader_error_lem e s id distinct = (
  refl,
  refl,
  refl,
  refl,
  futures-set_reader_error e s id,
  put_in_all-at s.report_queues (error e) s.queues id distinct,
)

-- What `close` does to its subscriptions.
is_in-remove_id : (x : ℕ) (ids : List ℕ) (id : ℕ) → is_in x ids ≡ false → remove_id x ids ≡ ids
unfolding remove_id
is_in-remove_id x [] id h = refl
is_in-remove_id x (y ∷ ids) id h = ground (arith, is_in-remove_id x ids id)

unsubscribe_all-first : (x : ℕ) (ids : List ℕ) → is_in x ids ≡ false → remove_id x (x ∷ ids) ≡ ids
unfolding remove_id
unsubscribe_all-first x ids h = ground (arith, is_in-remove_id x ids x h)

unsubscribe_all_lem :
    (s : Session) (ids : List ℕ)
    → Nodup ids
    → unsubscribe_all ids (record s { report_queues = ids })
      ≡ record s { report_queues = []; queues = put_in_all ids stop s.queues }
unfolding unsubscribe_all put_in_all unsubscribe_reports
unsubscribe_all_lem s [] d = refl
unsubscribe_all_lem s (x ∷ ids) d =
    let stopped = assign s.queues x (put_report_item (s.queues x) stop) in
    ap (λ others. unsubscribe_all ids (record s { report_queues = others; queues = stopped }))
      (unsubscribe_all-first x ids d.0)
    ∙ unsubscribe_all_lem (record s { queues = stopped }) ids d.1

-- `close`, where the subscriptions are distinct: every waiting request and queued update raises
-- ConnectionClosedError, and all other futures keep their value; the end of the stream is put into
-- the queue of each subscription and into no other queue; the session is closed, with nothing
-- pending, no queued update and no subscription.
pub close_lem :
    (s : Session) (id : ℕ)
    → Nodup s.report_queues
    → ((close s).closed ≡ true)
      × ((close s).pending ≡ [])
      × ((close s).coalesced_updates ≡ [])
      × ((close s).report_queues ≡ [])
      × ((close s).futures id ≡ (
          if is_in id (request_futures s.pending) || is_in id (update_futures s.coalesced_updates)
          then failed_unless_done connection_closed (s.futures id)
          else s.futures id))
      × ((close s).queues id
          ≡ (if is_in id s.report_queues then put_report_item (s.queues id) stop else s.queues id))
unfolding close fail_pending fail_coalesced_updates
close_lem s id distinct =
    let failed_all =
      fail_coalesced_updates connection_closed
        (fail_pending connection_closed (record s { closed = true })) in
    let e = unsubscribe_all_lem failed_all s.report_queues distinct in
    (
      ap (λ t. t.closed) e,
      ap (λ t. t.pending) e,
      ap (λ t. t.coalesced_updates) e,
      ap (λ t. t.report_queues) e,
      futures-close s id,
      ap (λ t. t.queues id) e ∙ put_in_all-at s.report_queues stop s.queues id distinct,
    )

unsubscribe_all-IsWellFormed :
    (ids : List ℕ) (s : Session) → IsWellFormed s → IsWellFormed (unsubscribe_all ids s)
unfolding unsubscribe_all
unsubscribe_all-IsWellFormed [] s w = w
unsubscribe_all-IsWellFormed (id ∷ ids) s w =
    unsubscribe_all-IsWellFormed ids (unsubscribe_reports id s)
      (unsubscribe_reports-IsWellFormed id s w)

pub close-IsWellFormed : (s : Session) → IsWellFormed s → IsWellFormed (close s)
unfolding close fail_coalesced_updates fail_pending
close-IsWellFormed s w =
    unsubscribe_all-IsWellFormed s.report_queues
      (fail_coalesced_updates connection_closed
        (fail_pending connection_closed (record s { closed = true })))
      (w.0, w.1, w.2, w.3, inr refl)

pub set_reader_error-IsWellFormed :
    (e : TekmarError) (s : Session) → IsWellFormed s → IsWellFormed (set_reader_error e s)
unfolding set_reader_error fail_coalesced_updates fail_pending
set_reader_error-IsWellFormed e s w =
    (w.0, w.1, put_in_all-Fits s.report_queues (error e) s.queues w.2, tt, inr refl)
