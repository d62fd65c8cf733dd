-- ===== src/Simulator/Replay/Accepting.antt =====
-- A replay accepts exactly the writes of its script (src/tekmar_482/simulator.py).
use tekmar.Prelude.{
  ℕ, ◌≡◌, ◌↔◌, refl, sym, ap, ◌∙◌, Bool, true, false, none, some, List, [], ◌∷◌, ◌++◌, append-nil,
  ◌==◌, if◌then◌else◌, arith,
}
use tekmar.Exceptions.{Result, ok, err, protocol_error}
use tekmar.Packet.{Packet, type_trpc}
use tekmar.Trpc.Message.{TrpcPacket, to_packet, from_packet}
use tekmar.Simulator.{
  TraceStep, TraceReplayTransport, same_packet, same_packet_iff, Replied, unless_raised, queue_all,
  write_expected, write_checked, write_at, write_replay,
}
use tekmar.Simulator.Replay.{
  Encoded, Follows, done, step, write_all, replayed, replayed_nil, replayed-replayed,
  queue_all-Encoded, Queued, queue_all-Queued,
}

-- A write that does not raise meets the next step, and leaves its answers.
Accepted : Packet → List TraceStep → TraceReplayTransport → TraceReplayTransport → Type 0
Accepted sent [] t t' = ⊥
Accepted sent (s ∷ rest) t t' =
    (message : TrpcPacket) × (now : List Packet) × (sent.type ≡ type_trpc)
    × (from_packet sent ≡ ok message)
    × (to_packet s.sent ≡ ok sent)
    × Encoded s.received now
    × (t' ≡ replayed rest (sent ∷ []) now t)

compared-Accepted :
    (s : TraceStep) (rest : List TraceStep) (sent expected : Packet) (message : TrpcPacket)
    (t t' : TraceReplayTransport) (same : Bool)
    → sent.type ≡ type_trpc
    → from_packet sent ≡ ok message
    → to_packet s.sent ≡ ok expected
    → same_packet sent expected ≡ same
    → (if same
        then queue_all s.received (record t { steps = rest; written = t.written ++ (sent ∷ []) })
        else (t, some protocol_error))
      ≡ (t', none)
    → Accepted sent (s ∷ rest) t t'
unfolding Accepted Queued
compared-Accepted s rest sent expected message t t' false trpc parsing encoding same h = cc
compared-Accepted s rest sent expected message t t' true trpc parsing encoding same h =
    let (now, answers, after) =
      queue_all-Queued s.received (record t { steps = rest; written = t.written ++ (sent ∷ []) }) t'
        h in
    (
      message,
      now,
      trpc,
      parsing,
      encoding ∙ ap ok (sym ((same_packet_iff sent expected).0 same)),
      answers,
      after ∙ rw (append-nil (t.written ++ (sent ∷ []))) refl,
    )

checked-Accepted :
    (s : TraceStep) (rest : List TraceStep) (sent : Packet) (parsed : Result TrpcPacket)
    (expected : Result Packet) (t t' : TraceReplayTransport)
    → sent.type ≡ type_trpc
    → from_packet sent ≡ parsed
    → to_packet s.sent ≡ expected
    → write_checked parsed expected s rest sent t ≡ (t', none)
    → Accepted sent (s ∷ rest) t t'
unfolding write_checked write_expected
checked-Accepted s rest sent (err e) expected t t' trpc parsing encoding h = cc
checked-Accepted s rest sent (ok message) (err e) t t' trpc parsing encoding h = cc
checked-Accepted s rest sent (ok message) (ok expected) t t' trpc parsing encoding h =
    compared-Accepted s rest sent expected message t t' (same_packet sent expected) trpc parsing
      encoding refl h

stepped-Accepted :
    (steps : List TraceStep) (sent : Packet) (t t' : TraceReplayTransport)
    → sent.type ≡ type_trpc
    → write_at steps sent t ≡ (t', none)
    → Accepted sent steps t t'
unfolding write_at
stepped-Accepted [] sent t t' trpc h = cc
stepped-Accepted (s ∷ rest) sent t t' trpc h =
    checked-Accepted s rest sent (from_packet sent) (to_packet s.sent) t t' trpc refl refl h

is_type : (type : ℕ) → type ≡ type_trpc → (type == type_trpc) ≡ true
is_type type e = ground (arith, e)

typed-Accepted :
    (trpc : Bool) (sent : Packet) (t t' : TraceReplayTransport)
    → (sent.type == type_trpc) ≡ trpc
    → (if trpc then write_at t.steps sent t else (t, some protocol_error)) ≡ (t', none)
    → Accepted sent t.steps t t'
typed-Accepted false sent t t' e h = cc
typed-Accepted true sent t t' e h = stepped-Accepted t.steps sent t t' (ground (arith, e)) h

write_replay-Accepted :
    (sent : Packet) (t t' : TraceReplayTransport)
    → write_replay sent t ≡ (t', none)
    → Accepted sent t.steps t t'
unfolding write_replay
write_replay-Accepted sent t t' h = typed-Accepted (sent.type == type_trpc) sent t t' refl h

-- And a write that meets the next step does not raise.
write_at-returns :
    (sent : Packet) (s : TraceStep) (rest : List TraceStep) (message : TrpcPacket)
    (now : List Packet) (t : TraceReplayTransport)
    → from_packet sent ≡ ok message
    → to_packet s.sent ≡ ok sent
    → Encoded s.received now
    → write_at (s ∷ rest) sent t ≡ (replayed rest (sent ∷ []) now t, none)
unfolding write_at write_checked write_expected
write_at-returns sent s rest message now t parsing encoding answers =
    rw (parsing, encoding, (same_packet_iff sent sent).1 refl)
      (queue_all-Encoded s.received now
          (record t { steps = rest; written = t.written ++ (sent ∷ []) }) answers
        ∙ rw (append-nil (t.written ++ (sent ∷ []))) refl)

write_replay-returns :
    (sent : Packet) (s : TraceStep) (rest : List TraceStep) (message : TrpcPacket)
    (now : List Packet) (t : TraceReplayTransport)
    → t.steps ≡ s ∷ rest
    → sent.type ≡ type_trpc
    → from_packet sent ≡ ok message
    → to_packet s.sent ≡ ok sent
    → Encoded s.received now
    → write_replay sent t ≡ (replayed rest (sent ∷ []) now t, none)
unfolding write_replay
write_replay-returns sent s rest message now t next trpc parsing encoding answers =
    ap (λ b. if b then write_at t.steps sent t else (t, some protocol_error))
      (is_type (sent.type) trpc)
    ∙ ap (λ steps. write_at steps sent t) next
    ∙ write_at-returns sent s rest message now t parsing encoding answers

write_all-returns :
    (steps rest : List TraceStep) (writes answers : List Packet) (t : TraceReplayTransport)
    → Follows steps writes answers
    → t.steps ≡ steps ++ rest
    → write_all writes t ≡ (replayed rest writes answers t, none)
unfolding write_all
write_all-returns _ rest _ _ t done e =
    ap (λ u. (u, none)) (sym (replayed_nil t) ∙ ap (λ steps. replayed steps [] [] t) e)
write_all-returns _ rest _ _ t
      (step {steps} {writes} {answers} {now} s sent message trpc parsing encoding queued follows)
      e =
    ap (λ o. unless_raised o (write_all writes))
      (write_replay-returns sent s (steps ++ rest) message now t e trpc parsing encoding queued)
    ∙ write_all-returns steps rest writes answers (replayed (steps ++ rest) (sent ∷ []) now t)
        follows refl
    ∙ ap (λ u. (u, none)) (replayed-replayed (steps ++ rest) rest (sent ∷ []) writes now answers t)

-- The writes follow the first steps of the script, and their answers are queued.
pub Replays : List Packet → TraceReplayTransport → TraceReplayTransport → Type 0
Replays writes t t' =
    (steps : List TraceStep) × (rest : List TraceStep) × (answers : List Packet) × Follows steps
      writes answers
    × (t.steps ≡ steps ++ rest)
    × (t' ≡ replayed rest writes answers t)

Accepted-Replays :
    (sent : Packet) (writes : List Packet) (steps : List TraceStep) (t u t' : TraceReplayTransport)
    → t.steps ≡ steps
    → Accepted sent steps t u
    → Replays writes u t'
    → Replays (sent ∷ writes) t t'
unfolding Accepted Replays
Accepted-Replays sent writes [] t u t' e accepted others = absurd accepted
Accepted-Replays sent writes (s ∷ left) t u t' e
      (message, now, trpc, parsing, encoding, queued, after)
      (steps, rest, answers, follows, next, last) =
    (
      s ∷ steps,
      rest,
      now ++ answers,
      step s sent message trpc parsing encoding queued follows,
      e ∙ ap (◌∷◌ s) (ap (λ v. v.steps) (sym after) ∙ next),
      last
          ∙ ap (replayed rest writes answers) after
          ∙ replayed-replayed left rest (sent ∷ []) writes now answers t,
    )

unless_raised-Replays :
    (sent : Packet) (writes : List Packet) (o : Replied) (t t' : TraceReplayTransport)
    → write_replay sent t ≡ o
    → unless_raised o (write_all writes) ≡ (t', none)
    → ((u : TraceReplayTransport) → write_all writes u ≡ (t', none) → Replays writes u t')
    → Replays (sent ∷ writes) t t'
unless_raised-Replays sent writes (u, some e) t t' outcome h others = cc
unless_raised-Replays sent writes (u, none) t t' outcome h others =
    Accepted-Replays sent writes t.steps t u t' refl (write_replay-Accepted sent t u outcome)
      (others u h)

write_all-Replays :
    (writes : List Packet) (t t' : TraceReplayTransport)
    → write_all writes t ≡ (t', none)
    → Replays writes t t'
unfolding write_all Replays
write_all-Replays [] t t' h =
    ([], t.steps, [], done, refl, ap (λ o. o.0) (sym h) ∙ sym (replayed_nil t))
write_all-Replays (sent ∷ writes) t t' h =
    unless_raised-Replays sent writes (write_replay sent t) t t' refl h
      (λ u. write_all-Replays writes u t')

-- Writes in a row return if and only if they are, in order, the packets of the first steps of the
-- script, and parse as tRPC messages, and every answer of these steps can be encoded. Then these steps are gone, the writes are noted, and the
-- answers of the steps are queued behind what was queued, in order.
pub write_all_iff :
    (writes : List Packet) (t t' : TraceReplayTransport)
    → (write_all writes t ≡ (t', none)) ↔ Replays writes t t'
unfolding Replays
write_all_iff writes t t' = (
  write_all-Replays writes t t',
  λ (steps, rest, answers, follows, next, after).
      write_all-returns steps rest writes answers t follows next ∙ ap (λ u. (u, none)) (sym after),
)
