-- ===== src/Session/Requests/Answers.antt =====
-- A request from its start to its answer (src/tekmar_482/session.py).
use tekmar.Prelude.{ℕ, ◌≡◌, refl, ap, ◌∙◌, true, some, List, [], ◌∷◌, ◌++◌, if_both, All, arith}
use tekmar.Prelude.Store.{assign, assign_self}
use tekmar.Trpc.Message.{TrpcPacket}
use tekmar.Trpc.Match.{matches}
use tekmar.Session.Types.{Future, waiting, result, is_done, PendingRequest, Session, publish_report}
use tekmar.Session.Dispatch.{dispatch_message}
use tekmar.Session.Dispatch.Matching.{IsPassed, not_done, dispatch_message_matched}
use tekmar.Session.Requests.{start_request, returns, await_request, poll_request}

assign-IsPassed :
    (m : TrpcPacket) (futures : ℕ → Future) (id : ℕ) (ps : List PendingRequest)
    → futures id ≡ waiting
    → All (IsPassed m futures) ps
    → All (IsPassed m (assign futures id waiting)) ps
unfolding assign is_done
assign-IsPassed m futures id [] h passed = passed
assign-IsPassed m futures id (p ∷ ps) h passed =
    (ground (arith, h, passed.0), assign-IsPassed m futures id ps h passed.1)

await_result :
    (p : PendingRequest) (m : TrpcPacket) (s : Session)
    → s.futures p.future ≡ result (some m)
    → (poll_request p s).1 ≡ returns (some m)
unfolding poll_request await_request
await_result p m s e = ap (λ f. (await_request p f s).1) e

-- A request whose future is new, and a message that answers it and no earlier request that waits:
-- the request returns this message.
pub dispatch_message_answers :
    (p : PendingRequest) (m : TrpcPacket) (s : Session)
    → s.futures p.future ≡ waiting
    → All (IsPassed m s.futures) s.pending
    → matches p.match m ≡ true
    → (poll_request p (dispatch_message m (start_request p s))).1 ≡ returns (some m)
unfolding start_request publish_report is_done
dispatch_message_answers p m s new passed h =
    let started = start_request p s in
    let answered = record started {
      pending = not_done started.futures s.pending ++ [];
      futures = assign started.futures p.future (result (some m));
    } in
    let is_result = assign_self started.futures p.future (result (some m)) in
    await_result p m (dispatch_message m started) (
      ap (λ t. t.futures p.future)
        (dispatch_message_matched m started s.pending [] p refl
          (assign-IsPassed m s.futures p.future s.pending new passed)
          (ap is_done (assign_self s.futures p.future waiting)) h)
      ∙ if_both (λ t. t.futures p.future ≡ result (some m)) p.publish_match
          (publish_report m answered) answered is_result is_result)
