-- ===== src/Tpck/Decode.antt =====
-- `serialize` against `TpckParser.feed_many` (src/tekmar_482/tpck.py): one frame, read from any
-- state in which no escape is pending.
use tekmar.Prelude.{
  ℕ, ◌+◌, ◌≤◌, ◌<◌, false, ◌≡◌, ◌≢◌, ◌∙◌, [], ◌∷◌, ◌++◌, append-nil, Bytes, AreBytes, length,
  length-append, ◌==◌, if◌then◌else◌, arith,
}
use tekmar.Exceptions.{ok, err, protocol_error}
use tekmar.Packet.{Packet, IsWire, new_packet-ok}
use tekmar.Tpck.Frame.{frame, read_frame, feed_many-frame}
use tekmar.Tpck.{
  eof, sof, stuffed, stuffed_all, sum, checksum, serialize, TpckParser, reset, finish_frame,
  advance, feed, feed_many, FedMany,
}

pub checksum-lt : (type : ℕ) (payload : Bytes) → checksum type payload < 256
unfolding checksum
checksum-lt type payload = omega arith

pub serialize-frame :
    (packet : Packet)
    → length packet.payload ≤ 255
    → serialize packet ≡ ok (frame packet.type packet.payload (checksum packet.type packet.payload))
unfolding serialize frame
serialize-frame packet h = ground arith

-- What a parser does with a whole frame, by its checksum byte.
abbrev pub verdict : TpckParser → ℕ → Bytes → ℕ → FedMany
verdict p type payload check =
    if checksum type payload == check
    then (reset p, ok (record { type = type; payload = payload } ∷ []))
    else if p.strict_checksum
    then (read_frame p type payload check, err protocol_error)
    else (reset p, ok [])

feed_many-eof :
    (p : TpckParser) (type : ℕ) (payload : Bytes) (check : ℕ)
    → type < 256
    → feed_many (read_frame p type payload check) (eof ∷ []) ≡ verdict p type payload check
unfolding feed_many feed advance finish_frame
feed_many-eof p type payload check ht = ground (arith, new_packet-ok type payload ht)

-- A frame with any checksum byte, read from any state in which no escape is pending: with the
-- right checksum it yields its packet and a reset parser; with a wrong one a strict parser raises
-- and keeps what it read, and any other parser drops the frame and is reset.
pub feed_many-verdict :
    (p : TpckParser) (type : ℕ) (payload : Bytes) (check : ℕ)
    → p.escaped ≡ false
    → type < 256
    → length payload ≤ 255
    → AreBytes payload
    → check < 256
    → feed_many p (frame type payload check) ≡ verdict p type payload check
feed_many-verdict p type payload check e ht hl hb hc =
    rw append-nil at (feed_many-frame p type payload check [] e ht hl hb hc)
    ∙ feed_many-eof p type payload check ht

-- A packet that fits a frame is serialized, and the parser gives it back and is reset, from any
-- state in which no escape is pending.
pub feed_many-serialize :
    (p : TpckParser) (packet : Packet)
    → p.escaped ≡ false
    → IsWire packet
    → (f : Bytes) × (serialize packet ≡ ok f) × (feed_many p f ≡ (reset p, ok (packet ∷ [])))
feed_many-serialize p packet e w = (
  frame packet.type packet.payload (checksum packet.type packet.payload),
  serialize-frame packet w.short,
  feed_many-verdict p packet.type packet.payload _ e w.type_byte w.short w.bytes
        (checksum-lt packet.type packet.payload)
      ∙ ground arith,
)

sum-append : (xs ys : Bytes) → sum (xs ++ ys) ≡ sum xs + sum ys
unfolding sum
sum-append [] ys = omega arith
sum-append (x ∷ xs) ys = omega (arith, sum-append xs ys)

pub checksum-ne :
    (type : ℕ) (xs ys : Bytes) (b c : ℕ)
    → b < 256
    → c < 256
    → b ≢ c
    → checksum type (xs ++ (b ∷ ys)) ≢ checksum type (xs ++ (c ∷ ys))
unfolding checksum
checksum-ne type xs ys b c hb hc ne q = ne (
    omega (
      arith,
      q,
      sum-append xs (b ∷ ys),
      sum-append xs (c ∷ ys),
      length-append xs (b ∷ ys),
      length-append xs (c ∷ ys),
    ))

-- The bytes of a frame in front of a payload byte, and behind it.
abbrev pub front : ℕ → ℕ → Bytes → Bytes
front size type xs = sof ∷ (stuffed size ++ (stuffed type ++ stuffed_all xs))

abbrev pub back : Bytes → ℕ → Bytes
back ys check = stuffed_all ys ++ (stuffed check ++ (eof ∷ []))
