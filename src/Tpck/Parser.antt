-- ===== src/Tpck/Parser.antt =====
-- What holds of every state of `TpckParser` (src/tekmar_482/tpck.py), on any input at all.
use tekmar.Prelude.{
  ℕ, ◌%◌, ◌<◌, Bool, true, false, ◌≡◌, ◌≢◌, refl, Option, none, some, List, [], ◌∷◌, Bytes,
  AreBytes, IsByte, All, All-append, length, length-append, arith,
}
use mathlib.Core.Path.{subst}
use tekmar.Exceptions.{Result, ok, err, protocol_error}
use tekmar.Packet.{Packet, IsWire, new_packet-ok}
use tekmar.Tpck.{
  State, wait_sof, in_length, in_type, in_data, in_checksum, in_eof, TpckParser, new_parser,
  finish_frame, advance, feed, feed_frame, feed_many, FedMany, add_packet, after_feed,
}

abbrev RoomIn : State → ℕ → ℕ → Type 0
RoomIn wait_sof have want = have ≡ 0
RoomIn in_length have want = have ≡ 0
RoomIn in_type have want = have ≡ 0
RoomIn in_data have want = have < want
RoomIn in_checksum have want = have ≡ want
RoomIn in_eof have want = have ≡ want

-- The fields hold bytes, the payload fits the announced length in each state, and no escape is
-- pending outside a frame.
pub record IsValid (p : TpckParser) : Type 0 where
  pub length_byte : p.length_byte < 256
  pub type_byte : p.type_byte < 256
  pub checksum_byte : p.checksum_byte < 256
  pub payload : AreBytes p.payload
  pub room : RoomIn p.state (length p.payload) p.length_byte
  pub idle : p.state ≡ wait_sof → p.escaped ≡ false

pub new_parser-IsValid : (strict : Bool) → IsValid (new_parser strict)
new_parser-IsValid strict = ground arith

advance-IsValid :
    (s : State) (p : TpckParser) (v : ℕ)
    → p.state ≡ s
    → p.escaped ≡ false
    → IsValid p
    → v < 256
    → IsValid (advance s p v).0
unfolding advance
advance-IsValid in_data p v m e i h = ground (
  arith,
  length-append p.payload (v ∷ []),
  All-append IsByte p.payload (v ∷ []) i.payload (h, tt),
)
advance-IsValid _ p v m e i h = ground arith

feed_frame-IsValid :
    (s : State) (p : TpckParser) (v : ℕ)
    → p.state ≡ s
    → s ≢ wait_sof
    → IsValid p
    → v < 256
    → IsValid (feed_frame p v).0
unfolding feed_frame
feed_frame-IsValid s p v m ne i h =
    ground
      (arith, advance-IsValid s (record p { escaped = false }) v m refl, advance-IsValid s p v m)

pub feed-IsValid : (p : TpckParser) (v : ℕ) → IsValid p → IsValid (feed p v).0
unfolding feed
feed-IsValid p v i = ground (arith, feed_frame-IsValid p.state p (v % 256) refl)

-- The packet that a step completes, if any, fits a frame.
abbrev Completes : Bool → Result (Option Packet) → Type 0
Completes strict (ok none) = Unit
Completes strict (ok (some packet)) = IsWire packet
Completes strict (err e) = (e ≡ protocol_error) × (strict ≡ true)

finish_frame-Completes :
    (p : TpckParser) → IsValid p → p.state ≡ in_eof → Completes p.strict_checksum (finish_frame p)
unfolding finish_frame
finish_frame-Completes p i m = ground (arith, new_packet-ok p.type_byte p.payload)

feed-Completes : (p : TpckParser) (v : ℕ) → IsValid p → Completes p.strict_checksum (feed p v).1
unfolding feed advance
feed-Completes p v i =
    ground
      (arith, finish_frame-Completes p i, finish_frame-Completes (record p { escaped = false }))

feed-strict_checksum : (p : TpckParser) (v : ℕ) → (feed p v).0.strict_checksum ≡ p.strict_checksum
unfolding feed advance
feed-strict_checksum p v = ground arith

-- What a call returns, for a parser with this `strict_checksum`.
abbrev pub Yields : Bool → Result (List Packet) → Type 0
Yields strict (ok packets) = All IsWire packets
Yields strict (err e) = (e ≡ protocol_error) × (strict ≡ true)

Yields-add_packet :
    (strict : Bool) (found : Option Packet) (packets : List Packet)
    → Completes strict (ok found)
    → All IsWire packets
    → All IsWire (add_packet found packets)
Yields-add_packet strict none packets c a = a
Yields-add_packet strict (some packet) packets c a = (c, a)

after_feed-Yields :
    (strict : Bool) (r : Result (Option Packet)) (p : TpckParser) (rest : FedMany)
    → IsValid p
    → Completes strict r
    → IsValid rest.0
    → Yields strict rest.1
    → IsValid (after_feed r p rest).0 × Yields strict (after_feed r p rest).1
unfolding after_feed
after_feed-Yields strict (err e) p rest i c j y = (i, c)
after_feed-Yields strict (ok found) p (q, ok packets) i c j y =
    (j, Yields-add_packet strict found packets c y)
after_feed-Yields strict (ok found) p (q, err e) i c j y = (j, y)

-- On every input, from every valid state: the state after the call is valid, every packet that it
-- returns fits a frame, and it raises only ProtocolError, and only if the parser is strict.
pub feed_many-Yields :
    (p : TpckParser) (bytes : Bytes)
    → IsValid p
    → IsValid (feed_many p bytes).0 × Yields p.strict_checksum (feed_many p bytes).1
unfolding feed_many
feed_many-Yields p [] i = (i, tt)
feed_many-Yields p (v ∷ bytes) i =
    let next = (feed p v).0 in
    let i' = feed-IsValid p v i in
    let (j, y) = feed_many-Yields next bytes i' in
    after_feed-Yields p.strict_checksum (feed p v).1 next (feed_many next bytes) i'
      (feed-Completes p v i) j (rw feed-strict_checksum at y)

Yields-false :
    (r : Result (List Packet))
    → Yields false r
    → (packets : List Packet) × (r ≡ ok packets) × All IsWire packets
Yields-false (ok packets) y = (packets, refl, y)
Yields-false (err e) y = cc (y.1)

-- A parser that is not strict reads any bytes at all without an exception.
pub feed_many-lenient :
    (p : TpckParser) (bytes : Bytes)
    → IsValid p
    → p.strict_checksum ≡ false
    → (packets : List Packet) × ((feed_many p bytes).1 ≡ ok packets) × All IsWire packets
feed_many-lenient p bytes i lenient =
    Yields-false (feed_many p bytes).1
      (subst (λ b. Yields b (feed_many p bytes).1) lenient (feed_many-Yields p bytes i).1)
