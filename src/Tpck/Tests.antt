-- ===== src/Tpck/Tests.antt =====
-- The TPCK codec of src/tekmar_482/tpck.py on the inputs of tests/test_tpck.py and on others, and
-- the theorems at such inputs.
use tekmar.Prelude.{All, List, ◌≡◌, refl, true, false, [], ◌∷◌, ◌++◌, Bytes, arith}
use tekmar.Exceptions.{ok}
use tekmar.Packet.{Packet, IsWire}
use tekmar.Tpck.Frame.{frame}
use tekmar.Tpck.Decode.{feed_many-verdict, verdict, feed_many-serialize}
use tekmar.Tpck.Stream.{
  Stream, nil, noise, packet, feed_many-append, feed_many-resync, feed_many-Stream, and_then,
}
use tekmar.Tpck.Parser.{IsValid, new_parser-IsValid, Yields, feed_many-Yields, feed_many-lenient}
use tekmar.Tpck.{serialize, TpckParser, new_parser, reset, feed, feed_many, advance, finish_frame}

-- A payload with the three bytes that are stuffed.
abbrev stuffing : Packet
stuffing = record { type = 6; payload = 0xCA ∷ 0x35 ∷ 0x2F ∷ [] }

abbrev stuffing_frame : Bytes
stuffing_frame = 0xCA ∷ 3 ∷ 6 ∷ 0x2F ∷ 0xCA ∷ 0x2F ∷ 0x35 ∷ 0x2F ∷ 0x2F ∷ 0x37 ∷ 0x35 ∷ []

serialize-stuffing : serialize stuffing ≡ ok stuffing_frame
unfolding serialize
serialize-stuffing = refl

feed_many-stuffing :
    feed_many (new_parser false) stuffing_frame ≡ (new_parser false, ok (stuffing ∷ []))
unfolding feed_many feed advance finish_frame
feed_many-stuffing = refl

stuffing-IsWire : IsWire stuffing
stuffing-IsWire = omega arith

-- A parser in the middle of a frame.
abbrev broken_off : TpckParser
broken_off = (record (new_parser true) {
  state = tekmar.Tpck.in_data;
  length_byte = 9;
  type_byte = 6;
  payload = 1 ∷ 2 ∷ [];
})

feed_many-broken_off : feed_many (new_parser true) (0xCA ∷ 9 ∷ 6 ∷ 1 ∷ 2 ∷ []) ≡ (broken_off, ok [])
unfolding feed_many feed advance
feed_many-broken_off = refl

feed_many-serialize_example :
    (f : Bytes) × (serialize stuffing ≡ ok f)
    × (feed_many broken_off f ≡ (reset broken_off, ok (stuffing ∷ [])))
feed_many-serialize_example = feed_many-serialize broken_off stuffing refl stuffing-IsWire

feed_many-verdict_example :
    feed_many broken_off (frame 6 (1 ∷ 2 ∷ []) 0) ≡ verdict broken_off 6 (1 ∷ 2 ∷ []) 0
feed_many-verdict_example =
    feed_many-verdict broken_off 6 (1 ∷ 2 ∷ []) 0 refl (omega arith) (omega arith) (omega arith)
      (omega arith)

feed_many-append_example :
    feed_many (new_parser false) ((0xCA ∷ 3 ∷ []) ++ (6 ∷ []))
    ≡ and_then (feed_many (new_parser false) (0xCA ∷ 3 ∷ [])) (λ q. feed_many q (6 ∷ []))
feed_many-append_example = feed_many-append (new_parser false) (0xCA ∷ 3 ∷ []) (6 ∷ [])

feed_many-resync_example :
    feed_many (new_parser true) ((0xCA ∷ 9 ∷ 6 ∷ 1 ∷ 2 ∷ []) ++ stuffing_frame)
    ≡ (reset broken_off, ok (stuffing ∷ []))
feed_many-resync_example =
    feed_many-resync (new_parser true) broken_off (0xCA ∷ 9 ∷ 6 ∷ 1 ∷ 2 ∷ []) stuffing_frame []
      stuffing feed_many-broken_off refl stuffing-IsWire serialize-stuffing

noisy : Stream (stuffing ∷ []) (7 ∷ stuffing_frame)
noisy = noise 7 (omega arith) (packet stuffing stuffing-IsWire serialize-stuffing nil refl)

feed_many-Stream_example :
    feed_many (new_parser true) (7 ∷ stuffing_frame) ≡ (new_parser true, ok (stuffing ∷ []))
feed_many-Stream_example = feed_many-Stream true noisy

feed_many-Yields_example :
    IsValid (feed_many (new_parser true) (0xCA ∷ 0 ∷ 0 ∷ 7 ∷ 0x35 ∷ [])).0
    × Yields true (feed_many (new_parser true) (0xCA ∷ 0 ∷ 0 ∷ 7 ∷ 0x35 ∷ [])).1
feed_many-Yields_example =
    feed_many-Yields (new_parser true) (0xCA ∷ 0 ∷ 0 ∷ 7 ∷ 0x35 ∷ []) (new_parser-IsValid true)

feed_many-lenient_example :
    (packets : List Packet) × ((feed_many (new_parser false) (0xCA ∷ 0 ∷ 0 ∷ 7 ∷ 0x35 ∷ [])).1
      ≡ ok packets)
    × All IsWire packets
feed_many-lenient_example =
    feed_many-lenient (new_parser false) (0xCA ∷ 0 ∷ 0 ∷ 7 ∷ 0x35 ∷ []) (new_parser-IsValid false)
      refl
