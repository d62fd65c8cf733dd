-- ===== src/Session/Dispatch/Matching.antt =====
-- Which request a message answers (src/tekmar_482/session.py, `_dispatch_message`).
use tekmar.Prelude.{
  ℕ, zero, suc, ◌-◌, ◌≡◌, refl, sym, ap, ◌∙◌, true, false, Option, none, some, List, [], ◌∷◌, ◌++◌,
  ◌==◌, if◌then◌else◌, ◌⊎◌, inl, inr, arith, All, Bool-cases, drop, length,
}
use tekmar.Prelude.Store.{assign}
use tekmar.Trpc.Message.{TrpcPacket, from_packet}
use tekmar.Exceptions.{Result, ok, err}
use tekmar.Packet.{Packet, type_trpc}
use tekmar.Trpc.Match.{matches}
use tekmar.Session.Types.{
  Future, result, is_done, PendingRequest, Session, message, trim, put_report_item, publish_report,
}
use tekmar.Session.Types.Queues.{is_in, Nodup, put_in_all-at}
use tekmar.Session.Dispatch.{
  deliver, add_unmatched, finish_dispatch, dispatch_message, dispatch_parsed, dispatch_packet,
}

-- The loop goes past this request: it is done, or the message is not its response.
abbrev pub IsPassed : TrpcPacket → (ℕ → Future) → PendingRequest → Type 0
IsPassed m futures p = (is_done (futures p.future) ≡ true) ⊎ (matches p.match m ≡ false)

-- The requests that are not done.
pub not_done : (ℕ → Future) → List PendingRequest → List PendingRequest
not_done futures [] = []
not_done futures (p ∷ ps) =
    let rest = not_done futures ps in if is_done (futures p.future) then rest else p ∷ rest

deliver_matched :
    (m : TrpcPacket) (futures : ℕ → Future) (before after : List PendingRequest)
    (p : PendingRequest)
    → All (IsPassed m futures) before
    → is_done (futures p.future) ≡ false
    → matches p.match m ≡ true
    → deliver m futures (before ++ (p ∷ after))
      ≡ record { kept = not_done futures before ++ after; matched = some p }
unfolding deliver not_done
deliver_matched m futures [] after p passed d y = rw (d, y)
deliver_matched m futures (q ∷ before) after p passed d y =
    ground (arith, deliver_matched m futures before after p passed.1 d y)

deliver_unmatched :
    (m : TrpcPacket) (futures : ℕ → Future) (ps : List PendingRequest)
    → All (IsPassed m futures) ps
    → deliver m futures ps ≡ record { kept = not_done futures ps; matched = none }
unfolding deliver not_done
deliver_unmatched m futures [] passed = refl
deliver_unmatched m futures (p ∷ ps) passed =
    ground (arith, deliver_unmatched m futures ps passed.1)

-- A message that answers a request: the oldest waiting request that it matches gets it as its
-- result and leaves the list, and so do the requests that were done before it; the requests behind
-- it stay. The backlog is unchanged, and the message is published only if the request asks for it.
pub dispatch_message_matched :
    (m : TrpcPacket) (s : Session) (before after : List PendingRequest) (p : PendingRequest)
    → s.pending ≡ before ++ (p ∷ after)
    → All (IsPassed m s.futures) before
    → is_done (s.futures p.future) ≡ false
    → matches p.match m ≡ true
    → dispatch_message m s ≡ (
        let answered = record s {
          pending = not_done s.futures before ++ after;
          futures = assign s.futures p.future (result (some m));
        } in
        if p.publish_match then publish_report m answered else answered)
unfolding dispatch_message finish_dispatch
dispatch_message_matched m s before after p e passed d y =
    ap (λ d. finish_dispatch m d.matched (record s { pending = d.kept }))
      (ap (deliver m s.futures) e ∙ deliver_matched m s.futures before after p passed d y)

finish_unmatched :
    (m : TrpcPacket) (s : Session)
    → All (IsPassed m s.futures) s.pending
    → dispatch_message m s ≡ add_unmatched m (record s { pending = not_done s.futures s.pending })
unfolding dispatch_message finish_dispatch
finish_unmatched m s passed =
    ap (λ d. finish_dispatch m d.matched (record s { pending = d.kept }))
      (deliver_unmatched m s.futures s.pending passed)

drop_all {ℓ} : {A : Type ℓ} (xs : List A) → drop (length xs) xs ≡ []
drop_all [] = refl
drop_all (x ∷ xs) = drop_all xs

trim-newest {ℓ} :
    {A : Type ℓ} (bound : ℕ) (xs : List A) → trim bound xs ≡ drop (length xs - bound) xs
unfolding trim
trim-newest zero xs =
    let whole : length xs - 0 ≡ length xs = omega arith in
    sym (drop_all xs) ∙ ap (λ n. drop n xs) (sym whole)
trim-newest (suc n) xs = ground arith

-- A message that answers no waiting request, where no report queue is subscribed twice: the
-- requests that are done leave the list and no future changes; the backlog holds its newest
-- messages with this one at the end, as many as its bound allows; and each report queue, and no
-- other queue, gets the message.
pub dispatch_message_unmatched :
    (m : TrpcPacket) (s : Session)
    → All (IsPassed m s.futures) s.pending
    → Nodup s.report_queues
    → ((dispatch_message m s).pending ≡ not_done s.futures s.pending)
      × ((dispatch_message m s).futures ≡ s.futures)
      × ((dispatch_message m s).message_backlog ≡ (
          let extended = s.message_backlog ++ (m ∷ []) in
          drop (length extended - s.max_message_backlog) extended))
      × ((id : ℕ)
          → (dispatch_message m s).queues id ≡ (
              if is_in id s.report_queues
              then put_report_item (s.queues id) (message m)
              else s.queues id))
unfolding publish_report
dispatch_message_unmatched m s passed nodup =
    let done = finish_unmatched m s passed in
    (
      ap (λ t. t.pending) done,
      ap (λ t. t.futures) done,
      ap (λ t. t.message_backlog) done
          ∙ trim-newest s.max_message_backlog (s.message_backlog ++ (m ∷ [])),
      λ id.
          ap (λ t. t.queues id) done ∙ put_in_all-at s.report_queues (message m) s.queues id nodup,
    )

deliver-matched :
    (m : TrpcPacket) (futures : ℕ → Future) (ps : List PendingRequest) (p : PendingRequest)
    → (deliver m futures ps).matched ≡ some p
    → (is_done (futures p.future) ≡ false) × (matches p.match m ≡ true)
unfolding deliver
deliver-matched m futures [] p h = cc
deliver-matched m futures (q ∷ ps) p h = ground (arith, deliver-matched m futures ps p)

futures-finish_dispatch :
    (m : TrpcPacket) (found : Option PendingRequest) (s : Session) (id : ℕ)
    → ((p : PendingRequest) → found ≡ some p → is_done (s.futures p.future) ≡ false)
    → ((finish_dispatch m found s).futures id ≡ s.futures id)
      ⊎ ((is_done (s.futures id) ≡ false)
          × ((finish_dispatch m found s).futures id ≡ result (some m)))
unfolding finish_dispatch publish_report assign
futures-finish_dispatch m none s id open_found = inl refl
futures-finish_dispatch m (some p) s id open_found = ground (arith, open_found p refl)

-- A message changes at most the futures that wait, and only to itself as the result: a future that
-- is done stays as it is.
pub futures-dispatch_message :
    (m : TrpcPacket) (s : Session) (id : ℕ)
    → ((dispatch_message m s).futures id ≡ s.futures id)
      ⊎ ((is_done (s.futures id) ≡ false) × ((dispatch_message m s).futures id ≡ result (some m)))
unfolding dispatch_message
futures-dispatch_message m s id =
    let d = deliver m s.futures s.pending in
    futures-finish_dispatch m d.matched (record s { pending = d.kept }) id
      (λ p h. (deliver-matched m s.futures s.pending p h).0)

dispatch_parsed-done :
    (parsed : Result TrpcPacket) (s : Session) (id : ℕ)
    → is_done (s.futures id) ≡ true
    → (dispatch_parsed parsed s).0.futures id ≡ s.futures id
unfolding dispatch_parsed
dispatch_parsed-done (err e) s id done = refl
dispatch_parsed-done (ok m) s id done = ground (arith, futures-dispatch_message m s id)

pub dispatch_packet-done :
    (packet : Packet) (s : Session) (id : ℕ)
    → is_done (s.futures id) ≡ true
    → (dispatch_packet packet s).0.futures id ≡ s.futures id
unfolding dispatch_packet
dispatch_packet-done packet s id done =
    let observed = record s {
      packet_backlog = trim s.max_packet_backlog (s.packet_backlog ++ (packet ∷ []));
    } in
    elim (Bool-cases (packet.type == type_trpc)) [
      | inl e ↦
          ap
            (λ b.
              (if b
                  then dispatch_parsed (from_packet packet) observed
                  else (observed, ok tt)).0.futures
                id)
            e
          ∙ dispatch_parsed-done (from_packet packet) observed id done
      | inr e ↦
          ap
            (λ b.
              (if b
                  then dispatch_parsed (from_packet packet) observed
                  else (observed, ok tt)).0.futures
                id)
            e
    ]
