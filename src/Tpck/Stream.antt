-- ===== src/Tpck/Stream.antt =====
-- `feed_many` (src/tekmar_482/tpck.py) over a stream: input in pieces, frames behind other bytes,
-- and many frames with noise between them.
use tekmar.Prelude.{ℕ, ◌%◌, Bool, false, ◌≡◌, ◌≢◌, refl, ◌∙◌, List, [], ◌∷◌, ◌++◌, Bytes, arith}
use tekmar.Exceptions.{ok, err}
use tekmar.Packet.{Packet, IsWire}
use tekmar.Tpck.Decode.{feed_many-serialize}
use tekmar.Tpck.{sof, serialize, TpckParser, new_parser, reset, feed, feed_many, FedMany}

abbrev pub prepend : List Packet → FedMany → FedMany
prepend packets (q, ok more) = (q, ok (packets ++ more))
prepend packets (q, err e) = (q, err e)

-- What a first call returned, followed by a call on the state that it left.
abbrev pub and_then : FedMany → (TpckParser → FedMany) → FedMany
and_then (p, err e) next = (p, err e)
and_then (p, ok packets) next = prepend packets (next p)

-- How the input is cut into pieces does not matter: two calls of `feed_many` give the packets, the
-- state and the exception of one call on the pieces joined, unless the first call raises, which
-- ends both in the same state.
pub feed_many-append :
    (p : TpckParser) (xs ys : Bytes)
    → feed_many p (xs ++ ys) ≡ and_then (feed_many p xs) (λ q. feed_many q ys)
unfolding feed_many
feed_many-append p [] ys = ground arith
feed_many-append p (x ∷ xs) ys = ground (arith, feed_many-append (feed p x).0 xs ys)

-- A frame is read in full behind any bytes that the parser reads without raising, be it noise or an
-- unfinished frame, and for a parser that is not strict also a damaged one, if no escape is pending
-- where the frame begins: the packets of the bytes before it are kept.
pub feed_many-resync :
    (p q : TpckParser) (junk f : Bytes) (packets : List Packet) (packet : Packet)
    → feed_many p junk ≡ (q, ok packets)
    → q.escaped ≡ false
    → IsWire packet
    → serialize packet ≡ ok f
    → feed_many p (junk ++ f) ≡ (reset q, ok (packets ++ (packet ∷ [])))
feed_many-resync p q junk f packets packet h e w s =
    let (g, serialized, fed) = feed_many-serialize q packet e w in
    ground (arith, feed_many-append p junk f)

-- Frames in order, with bytes other than SOF before, between and behind them.
pub data Stream : List Packet → Bytes → Type 0 where
  nil : Stream [] []
  noise :
      {packets : List Packet} {bytes : Bytes} (b : ℕ)
      → b % 256 ≢ sof
      → Stream packets bytes
      → Stream packets (b ∷ bytes)
  packet :
      {packets : List Packet} {bytes out f : Bytes} (p : Packet)
      → IsWire p
      → serialize p ≡ ok f
      → Stream packets bytes
      → out ≡ f ++ bytes
      → Stream (p ∷ packets) out

feed_many-noise :
    (strict : Bool) (b : ℕ) (bytes : Bytes)
    → b % 256 ≢ sof
    → feed_many (new_parser strict) (b ∷ bytes) ≡ feed_many (new_parser strict) bytes
unfolding feed_many feed
feed_many-noise strict b bytes h = ground arith

feed_many-packet :
    (strict : Bool) (p : Packet) (f bytes : Bytes) (packets : List Packet)
    → IsWire p
    → serialize p ≡ ok f
    → feed_many (new_parser strict) bytes ≡ (new_parser strict, ok packets)
    → feed_many (new_parser strict) (f ++ bytes) ≡ (new_parser strict, ok (p ∷ packets))
feed_many-packet strict p f bytes packets w s h =
    let (g, serialized, fed) = feed_many-serialize (new_parser strict) p refl w in
    ground (arith, feed_many-append (new_parser strict) f bytes)

-- A new parser reads a stream of frames, with any bytes but SOF between them, as exactly its
-- packets in order, and is a new parser again; strict or not, it does not raise.
pub feed_many-Stream :
    (strict : Bool) {packets : List Packet} {bytes : Bytes}
    → Stream packets bytes
    → feed_many (new_parser strict) bytes ≡ (new_parser strict, ok packets)
unfolding feed_many
feed_many-Stream strict nil = refl
feed_many-Stream strict (noise {bytes} b h s) =
    feed_many-noise strict b bytes h ∙ feed_many-Stream strict s
feed_many-Stream strict (packet {packets} {bytes} {f} p w e s o) =
    rw o (feed_many-packet strict p f bytes packets w e (feed_many-Stream strict s))
