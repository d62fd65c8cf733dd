-- ===== src/Transport/Receiving/Reads.antt =====
-- Enough reads of `_TpckProtocol` (src/tekmar_482/transport.py) get every packet of a stream.
use tekmar.Prelude.{
  ℕ, zero, suc, ◌≤◌, ◌≡◌, refl, sym, ap, ◌∙◌, false, List, [], ◌∷◌, ◌++◌, append_assoc, length,
  length-append, arith,
}
use tekmar.Packet.{Packet}
use tekmar.Tpck.{new_parser}
use tekmar.Tpck.Stream.{Stream, feed_many-Stream}
use tekmar.Transport.{Link, TpckProtocol}
use tekmar.Transport.Receiving.{
  Event, read, input, packets_of, handle, run, read_first-keeps, run-feed_many,
}
use tekmar.Transport.Calls.{read_first, read_round}

unfoldable pub reads : ℕ → List Event
reads zero = []
reads (suc n) = read ∷ reads n

append-is_nil : (xs ys : List Packet) → xs ++ ys ≡ [] → (xs ≡ []) × (ys ≡ [])
append-is_nil [] ys h = (refl, h)
append-is_nil (x ∷ xs) ys h = cc

second_length :
    (xs ys packets : List Packet) (n : ℕ) → xs ++ ys ≡ packets → length packets ≤ n → length ys ≤ n
second_length xs ys packets n h bound = omega (arith, length-append xs ys, ap length h)

no_length : (packets : List Packet) → length packets ≤ 0 → [] ≡ packets
no_length [] bound = refl
no_length (first ∷ rest) bound = absurd (omega arith)

module _ {T : Type 0} (link : Link T) where
  read_first-packets :
      (packets : List Packet) (n : ℕ) (p : TpckProtocol T)
      → p.packets ≡ packets
      → length packets ≤ suc n
      → ((q : TpckProtocol T) → length q.packets ≤ n → (run link (reads n) q).1 ≡ q.packets)
      → packets_of (read_first link packets p).1
          ++ (run link (reads n) (read_first link packets p).0).1
        ≡ packets
  unfolding read_first
  read_first-packets [] n p h bound then_read =
      let (nothing, empty) =
        append-is_nil (packets_of (read_first link [] p).1) (read_first link [] p).0.packets
          ((read_first-keeps link [] p h).1) in
      rw nothing (then_read (read_first link [] p).0 (rw empty (omega arith)) ∙ empty)
  read_first-packets (first ∷ rest) n p h bound then_read =
      ap (◌∷◌ first) (then_read (record p { packets = rest }) (omega arith))

  run-reads :
      (n : ℕ) (p : TpckProtocol T) → length p.packets ≤ n → (run link (reads n) p).1 ≡ p.packets
  unfolding run reads handle read_round
  run-reads zero p bound = no_length p.packets bound
  run-reads (suc n) p bound = read_first-packets p.packets n p refl bound (run-reads n)

  run-append :
      (events more : List Event) (p : TpckProtocol T)
      → (run link (events ++ more) p).1
        ≡ (run link events p).1 ++ (run link more (run link events p).0).1
  unfolding run
  run-append [] more p = refl
  run-append (event ∷ events) more p =
      ap (λ l. (handle link event p).1 ++ l) (run-append events more (handle link event p).0)
      ∙ sym (
          append_assoc (handle link event p).1 (run link events (handle link event p).0).1
            (run link more (run link events (handle link event p).0).0).1)

  -- A reader of a new parser with nothing queued gets exactly the packets of a stream of frames, in
  -- order, however the bytes are cut into pieces and whatever reads and losses of the connection
  -- come between the pieces, if it reads at least as often at the end as there are packets.
  pub run-Stream :
      (events : List Event) (n : ℕ) (p : TpckProtocol T) {packets : List Packet}
      → p.parser ≡ new_parser false
      → p.packets ≡ []
      → Stream packets (input events)
      → length packets ≤ n
      → (run link (events ++ reads n) p).1 ≡ packets
  run-Stream events n p {packets} parser empty stream bound =
      let (parsed, got) =
        run-feed_many link events p (new_parser false) packets
          (rw parser (feed_many-Stream false stream)) in
      let after = (run link events p).0 in
      run-append events (reads n) p
      ∙ ap (λ l. (run link events p).1 ++ l)
          (run-reads n after (
            second_length (run link events p).1 after.packets packets n
              (got ∙ ap (λ l. l ++ packets) empty) bound))
      ∙ got
      ∙ ap (λ l. l ++ packets) empty
